-- ===== src/Eventbus/Subjects.antt =====
-- NATS subjects of internal/eventbus/streams.go.
use kbeads.Prelude.{String, [], ◌∷◌, Option, none, some, ◌==◌, if◌then◌else◌, ◌≡◌, refl}
use kbeads.Prelude.Text.{is_char, append}
use kbeads.Prelude.Dict
use kbeads.Prelude.Dict.{Dict}
use kbeads.Eventbus.Types.{
  is_decision_event, is_agent_event, is_mail_event, is_mutation_event, is_config_event,
  is_gate_event, is_jack_event,
}

-- streamToPrefix and prefixToStream.
abbrev pub stream_to_prefix : Dict String
stream_to_prefix =
    ("hooks", "hooks.")
    ∷ ("decisions", "decisions.")
    ∷ ("agents", "agents.")
    ∷ ("mail", "mail.")
    ∷ ("mutations", "mutations.")
    ∷ ("config", "config.")
    ∷ ("gate", "gate.")
    ∷ ("inbox", "inbox.")
    ∷ ("jack", "jack.")
    ∷ []

abbrev pub prefix_to_stream : Dict String
prefix_to_stream =
    ("hooks", "hooks")
    ∷ ("decisions", "decisions")
    ∷ ("agents", "agents")
    ∷ ("mail", "mail")
    ∷ ("mutations", "mutations")
    ∷ ("config", "config")
    ∷ ("gate", "gate")
    ∷ ("inbox", "inbox")
    ∷ ("jack", "jack")
    ∷ []

abbrev or_empty : Option String → String
or_empty none = ""
or_empty (some s) = s

-- `subject[:i]` at the first '.', if there is one.
unfoldable pub first_segment : String → Option String
first_segment String.[] = none
first_segment (String.◌∷◌ c s) =
    let rest = first_segment s in
    if is_char b'.' c then some "" else elim rest [ none ↦ none | some w ↦ some (String.◌∷◌ c w) ]

unfoldable pub stream_for_subject : String → String
unfolding first_segment
stream_for_subject subject = elim (first_segment subject) [
  | none ↦ ""
  | some p ↦ or_empty (Dict.get p prefix_to_stream)
]

-- `subject[i+1:]` at the last '.', if there is one.
unfoldable pub after_last_dot : String → Option String
after_last_dot String.[] = none
after_last_dot (String.◌∷◌ c s) = elim (after_last_dot s) [
  | none ↦ if is_char b'.' c then some s else none
  | some w ↦ some w
]

unfoldable pub event_type_from_subject : String → String
event_type_from_subject subject = elim (after_last_dot subject) [ none ↦ subject | some t ↦ t ]

unfoldable pub subject_prefix_for_stream : String → String
subject_prefix_for_stream name = or_empty (Dict.get name stream_to_prefix)

unfoldable pub subject_for_event : String → String
subject_for_event t =
    if is_decision_event t
    then append "decisions." t
    else if is_agent_event t
    then append "agents." t
    else if is_mail_event t
    then append "mail." t
    else if is_mutation_event t
    then append "mutations." t
    else if is_config_event t
    then append "config." t
    else if is_gate_event t
    then append "gate." t
    else if is_jack_event t
    then append "jack." t
    else append "hooks." t

abbrev pub scope_of : String → String
scope_of name = if name == "" then "_global" else name

unfoldable pub subject_for_decision_event : String → String → String
subject_for_decision_event t requested_by =
    append "decisions." (append (scope_of requested_by) (append "." t))

unfoldable pub subject_for_hook_event : String → String → String
subject_for_hook_event t actor = append "hooks." (append (scope_of actor) (append "." t))

jack_subject : event_type_from_subject (subject_for_event "jack.on") ≡ "on"
unfolding event_type_from_subject after_last_dot subject_for_event is_decision_event is_agent_event
    is_mail_event is_mutation_event is_config_event is_gate_event is_jack_event
jack_subject = refl
