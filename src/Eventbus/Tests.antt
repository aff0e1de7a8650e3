-- ===== src/Eventbus/Tests.antt =====
-- Runs of the bus, and its theorems at concrete handlers.
use kbeads.Prelude.{
  ℕ, zero, suc, ◌<◌, String, true, false, [], ◌∷◌, ◌++◌, Option, none, some, take, ◌≡◌, refl, arith,
  if◌then◌else◌, ◌==◌, ◌↔◌,
}
use kbeads.Prelude.Int.{pos}
use kbeads.Prelude.Text.{append}
use kbeads.Prelude.Dict.{Dict}
use kbeads.Prelude.Sorted.{SortSlice}
use kbeads.Prelude.Sorted.Insertion.{by_insertion, insertion_sort}
use kbeads.Eventbus.Subjects.{
  subject_for_event, subject_for_decision_event, subject_for_hook_event, event_type_from_subject,
  stream_for_subject, subject_prefix_for_stream,
}
use kbeads.Eventbus.Routing.{has_dot, event_type_roundtrip, stream_routing}
use kbeads.Eventbus.Bus.{
  Event, Result, Handled, Handler, Bus, Json, empty_result, before, matching_handlers, dispatch,
  new_bus, register, unregister, publish_to_jet_stream, subject_of,
}
use kbeads.Eventbus.Dispatch.{fold_handlers, dispatch_cancelled}

before_asym : (a b : Handler) → before a b ≡ true → before b a ≡ false
before_asym a b h = ground arith

before_through : (a b c : Handler) → before c b ≡ false → before b a ≡ false → before c a ≡ false
before_through a b c h k = ground arith

abbrev by_priority : SortSlice before
by_priority = by_insertion before before_asym before_through

abbrev warns : String → ℕ → Handler
warns id p = record {
  id = id;
  handles = "Stop" ∷ [];
  priority = pos p;
  handle = λ e r. record {
    event = e;
    result = record r { warnings = r.warnings ++ id ∷ [] };
    error = some "failed";
  };
}

abbrev stop_event : Event
stop_event = record {
  event_type = "Stop";
  raw = "{}";
  actor = "swift-fox";
  published_at = none;
  rest = [];
}

abbrev two_handlers : Bus
two_handlers = register (warns "b" 1) (register (warns "a" 7) new_bus)

-- An encoding of the JSON objects with no field but "actor".
abbrev toy_marshal : Dict String → Option String
toy_marshal [] = some "{}"
toy_marshal ((k, v) ∷ []) = if k == "actor" then (if v == "{}" then none else some v) else none
toy_marshal (e ∷ f ∷ m) = none

abbrev toy_unmarshal : String → Option (Option (Dict String))
toy_unmarshal s =
    if s == "null"
    then some none
    else if s == "{}"
    then some (some [])
    else some (some (("actor", s) ∷ []))

abbrev toy_json : Json
toy_json = record {
  unmarshal_object = toy_unmarshal;
  marshal_object = toy_marshal;
  marshal_string = λ s. some s;
  marshal_event = λ e. some "event";
  peek_requested_by = λ s. none;
}

abbrev calm : ℕ → Option String
calm k = none

abbrev late : ℕ → Option String
late zero = none
late (suc k) = some "deadline"

first_calm : (k : ℕ) → k < 1 → late k ≡ none
first_calm zero h = refl
first_calm (suc k) h = absurd (omega arith)

in_order :
    dispatch by_priority toy_json calm 0 two_handlers (some stop_event)
    ≡ some (record {
      event = some stop_event;
      result = some (record { block = false; reason = ""; inject = []; warnings = "b" ∷ "a" ∷ [] });
      error = none;
      published = [];
    })
unfolding dispatch matching_handlers register new_bus insertion_sort
    kbeads.Eventbus.Bus.run_handlers
in_order = refl

dispatch_cancelled_example :
    dispatch by_priority toy_json late 0 two_handlers (some stop_event)
    ≡ some (record {
      event =
          some
            (fold_handlers
              (take 1 (matching_handlers by_priority "Stop" two_handlers))
              stop_event
              empty_result).0;
      result =
          some
            (fold_handlers
              (take 1 (matching_handlers by_priority "Stop" two_handlers))
              stop_event
              empty_result).1;
      error = some (append "eventbus: context canceled: " "deadline");
      published = [];
    })
unfolding matching_handlers register new_bus insertion_sort
dispatch_cancelled_example =
    dispatch_cancelled by_priority toy_json late 0 two_handlers stop_event 1 "deadline"
      (omega arith) first_calm refl

event_type_roundtrip_example :
    ((event_type_from_subject (subject_for_event "Stop") ≡ "Stop") ↔ (has_dot "Stop" ≡ false))
    × (has_dot "Stop" ≡ false
        → (event_type_from_subject (subject_for_decision_event "Stop" "a.b") ≡ "Stop")
          × (event_type_from_subject (subject_for_hook_event "Stop" "a.b") ≡ "Stop"))
event_type_roundtrip_example = event_type_roundtrip "Stop" "a.b"

stream_routing_example :
    append (subject_prefix_for_stream (stream_for_subject (subject_for_event "jack.on"))) "jack.on"
    ≡ subject_for_event "jack.on"
stream_routing_example = stream_routing "jack.on"
