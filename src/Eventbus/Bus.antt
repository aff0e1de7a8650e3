-- ===== src/Eventbus/Bus.antt =====
-- The bus of internal/eventbus/bus.go. The lock makes each method one step, so it is not modelled; a
-- handler, the context and JetStream are parameters.
use kbeads.Prelude.{
  ℕ, suc, String, Bool, true, false, not, ◌&&◌, List, [], ◌∷◌, ◌++◌, Option, none, some, keep, mem,
  ◌==◌, if◌then◌else◌,
}
use kbeads.Prelude.Int.{ℤ, lt_int}
use kbeads.Prelude.Text.{append}
use kbeads.Prelude.Dict
use kbeads.Prelude.Dict.{Dict}
use kbeads.Prelude.Sorted.{SortSlice}
use kbeads.Eventbus.Types.{
  is_decision_event, is_agent_event, is_mail_event, is_mutation_event, is_config_event,
  is_gate_event, is_jack_event,
}
use kbeads.Eventbus.Subjects.{subject_for_event, subject_for_decision_event, subject_for_hook_event}

-- The fields that the bus reads or writes; `rest` stands for those that it only passes on.
pub record Event : Type 0 where
  pub event_type : String
  pub raw : String
  pub actor : String
  pub published_at : Option ℕ
  pub rest : List String

pub record Result : Type 0 where
  pub block : Bool
  pub reason : String
  pub inject : List String
  pub warnings : List String

abbrev pub empty_result : Result
empty_result = record { block = false; reason = ""; inject = []; warnings = [] }

-- What a handler leaves behind: both pointers' contents, and its error.
pub record Handled : Type 0 where
  pub event : Event
  pub result : Result
  pub error : Option String

pub record Handler : Type 0 where
  pub id : String
  pub handles : List String
  pub priority : ℤ
  pub handle : Event → Result → Handled

pub record Bus : Type 0 where
  pub handlers : List Handler
  pub js : Bool  -- whether a JetStream context is attached

unfoldable pub new_bus : Bus
new_bus = record { handlers = []; js = false }

unfoldable pub set_jet_stream : Bool → Bus → Bus
set_jet_stream js b = record b { js = js }

unfoldable pub register : Handler → Bus → Bus
register h b = record b { handlers = b.handlers ++ h ∷ [] }

-- The loop of Unregister: the first handler with the id goes, and the answer is whether one did.
unfoldable pub drop_first : String → List Handler → List Handler × Bool
drop_first id [] = ([], false)
drop_first id (h ∷ hs) =
    let (rest, found) = drop_first id hs in if h.id == id then (hs, true) else (h ∷ rest, found)

unfoldable pub unregister : String → Bus → Bus × Bool
unfolding drop_first
unregister id b = let (hs, found) = drop_first id b.handlers in (record b { handlers = hs }, found)

abbrev pub before : Handler → Handler → Bool
before a b = lt_int a.priority b.priority

unfoldable pub matching_handlers : SortSlice before → String → Bus → List Handler
matching_handlers by t b = by.sort (keep (λ h. mem t h.handles) b.handlers)

-- encoding/json as far as the bus uses it.
pub record Json : Type 0 where
  pub unmarshal_object : String → Option (Option (Dict String))  -- raw fields; null gives a nil map
  pub marshal_object : Dict String → Option String
  pub marshal_string : String → Option String
  pub marshal_event : Event → Option String
  pub peek_requested_by : String → Option String

unfoldable pub is_hook_event : String → Bool
is_hook_event t =
    not (is_decision_event t)
    && (not (is_agent_event t)
        && (not (is_mail_event t)
            && (not (is_mutation_event t)
                && (not (is_config_event t) && (not (is_gate_event t) && not (is_jack_event t))))))

abbrev pub or_raw : String → Option String → Option String
or_raw raw none = some raw
or_raw raw (some text) = some text

-- The assignment to the map and what follows; a nil map makes it panic, which gives none.
abbrev pub assign_actor : Json → String → String → Option (Dict String) → Option String
assign_actor json raw actor_json none = none
assign_actor json raw actor_json (some obj) =
    or_raw raw (json.marshal_object (Dict.put "actor" actor_json obj))

unfoldable pub inject_actor_into_raw : Json → String → String → Option String
inject_actor_into_raw json raw actor = elim (json.unmarshal_object raw) [
  | none ↦ some raw
  | some obj ↦ elim (json.marshal_string actor) [
    | none ↦ some raw
    | some actor_json ↦ assign_actor json raw actor_json obj
  ]
]

abbrev decision_subject : Json → Event → String
decision_subject json e =
    if is_decision_event e.event_type && not (e.raw == "")
    then elim (json.peek_requested_by e.raw) [
      | none ↦ subject_for_event e.event_type
      | some by ↦ subject_for_decision_event e.event_type by
    ]
    else subject_for_event e.event_type

unfoldable pub subject_of : Json → Event → String
unfolding is_hook_event
subject_of json e =
    if is_hook_event e.event_type
    then subject_for_hook_event e.event_type e.actor
    else decision_subject json e

-- The message of an event with a raw text, if it does not panic.
abbrev pub sent_raw : Json → Event → Option String → Option (Event × List (String × String))
sent_raw json e none = none
sent_raw json e (some text) = some (e, (subject_of json e, text) ∷ [])

-- What publishToJetStream leaves of the event, and the message that it sends, if any; none is a panic.
unfoldable pub publish_to_jet_stream : Json → ℕ → Event → Option (Event × List (String × String))
unfolding inject_actor_into_raw
publish_to_jet_stream json now e =
    if not (e.raw == "")
    then sent_raw json e
        (if e.actor == "" then some e.raw else inject_actor_into_raw json e.raw e.actor)
    else let e' = record e { published_at = some now } in
      elim (json.marshal_event e') [
        | none ↦ some (e', [])
        | some text ↦ some (e', (subject_of json e, text) ∷ [])
      ]

-- The loop over the matching handlers; `ctx` answers the successive calls of ctx.Err.
unfoldable pub run_handlers : (ℕ → Option String) → ℕ → List Handler → Event → Result → Handled
run_handlers ctx poll [] e r = record { event = e; result = r; error = none }
run_handlers ctx poll (h ∷ hs) e r = elim (ctx poll) [
  | some why ↦ record {
    event = e;
    result = r;
    error = some (append "eventbus: context canceled: " why);
  }
  | none ↦ let done = h.handle e r in run_handlers ctx (suc poll) hs done.event done.result
]

pub record Dispatched : Type 0 where
  pub event : Option Event
  pub result : Option Result
  pub error : Option String
  pub published : List (String × String)

abbrev pub completed : Result → Option (Event × List (String × String)) → Option Dispatched
completed r none = none
completed r (some (e, sent)) =
    some (record { event = some e; result = some r; error = none; published = sent })

abbrev pub finish : Json → ℕ → Bus → Handled → Option Dispatched
finish json now b done = elim done.error [
  | some why ↦ some (record {
    event = some done.event;
    result = some done.result;
    error = some why;
    published = [];
  })
  | none ↦
      completed done.result
        (if b.js then publish_to_jet_stream json now done.event else some (done.event, []))
]

-- None is a panic.
unfoldable pub dispatch :
    SortSlice before → Json → (ℕ → Option String) → ℕ → Bus → Option Event → Option Dispatched
unfolding publish_to_jet_stream
dispatch by json ctx now b none =
    some
      (record { event = none; result = none; error = some "eventbus: nil event"; published = [] })
dispatch by json ctx now b (some e) =
    finish json now b (run_handlers ctx 0 (matching_handlers by e.event_type b) e empty_result)
