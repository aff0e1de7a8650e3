-- ===== src/Eventbus/Types.antt =====
-- Event types of internal/eventbus/types.go: their names and their categories.
use kbeads.Prelude.{String, Bool, List, [], ◌∷◌, mem}

-- The cases of each `switch t`.
abbrev pub decision_events : List String
decision_events =
    "DecisionCreated" ∷ "DecisionResponded" ∷ "DecisionEscalated" ∷ "DecisionExpired" ∷ []

abbrev pub agent_events : List String
agent_events =
    "AgentStarted" ∷ "AgentStopped" ∷ "AgentCrashed" ∷ "AgentIdle" ∷ "AgentHeartbeat" ∷ []

abbrev pub mail_events : List String
mail_events = "MailSent" ∷ "MailRead" ∷ []

abbrev pub mutation_events : List String
mutation_events =
    "MutationCreate" ∷ "MutationUpdate" ∷ "MutationDelete" ∷ "MutationComment" ∷ "MutationStatus"
    ∷ []

abbrev pub gate_events : List String
gate_events = "GateSatisfied" ∷ "GateCleared" ∷ []

abbrev pub jack_events : List String
jack_events = "jack.on" ∷ "jack.off" ∷ "jack.expired" ∷ "jack.extend" ∷ []

abbrev pub config_events : List String
config_events = "ConfigSet" ∷ "ConfigUnset" ∷ []

unfoldable pub is_decision_event : String → Bool
is_decision_event t = mem t decision_events

unfoldable pub is_agent_event : String → Bool
is_agent_event t = mem t agent_events

unfoldable pub is_mail_event : String → Bool
is_mail_event t = mem t mail_events

unfoldable pub is_mutation_event : String → Bool
is_mutation_event t = mem t mutation_events

unfoldable pub is_gate_event : String → Bool
is_gate_event t = mem t gate_events

unfoldable pub is_jack_event : String → Bool
is_jack_event t = mem t jack_events

unfoldable pub is_config_event : String → Bool
is_config_event t = mem t config_events
