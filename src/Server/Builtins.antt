-- ===== src/Server/Builtins.antt =====
-- builtinConfigs of internal/server/config.go: the configs used where the store has none.
use kbeads.Prelude.{String, [], ◌∷◌}
use kbeads.Prelude.Dict.{Dict}

abbrev pub builtin_configs : Dict String
builtin_configs =
    (
      "view:ready",
      "{\"filter\":{\"status\":[\"open\",\"in_progress\"],\"kind\":[\"issue\"]},\"sort\":\"priority\",\"limit\":5}",
    )
    ∷ ("type:epic", "{\"kind\":\"issue\",\"fields\":[]}")
    ∷ ("type:task", "{\"kind\":\"issue\",\"fields\":[]}")
    ∷ ("type:feature", "{\"kind\":\"issue\",\"fields\":[]}")
    ∷ ("type:chore", "{\"kind\":\"issue\",\"fields\":[]}")
    ∷ ("type:bug", "{\"kind\":\"issue\",\"fields\":[]}")
    ∷ (
      "type:advice",
      "{\n\t\t\"kind\": \"data\",\n\t\t\"fields\": [\n\t\t\t{\"name\": \"hook_command\",   \"type\": \"string\"},\n\t\t\t{\"name\": \"hook_trigger\",   \"type\": \"enum\", \"values\": [\"session-end\", \"before-commit\", \"before-push\", \"before-handoff\"]},\n\t\t\t{\"name\": \"hook_timeout\",   \"type\": \"integer\"},\n\t\t\t{\"name\": \"hook_on_failure\",\"type\": \"enum\", \"values\": [\"block\", \"warn\", \"ignore\"]},\n\t\t\t{\"name\": \"subscriptions\",  \"type\": \"string[]\"},\n\t\t\t{\"name\": \"subscriptions_exclude\", \"type\": \"string[]\"}\n\t\t]\n\t}",
    )
    ∷ (
      "type:jack",
      "{\n\t\t\"kind\": \"data\",\n\t\t\"fields\": [\n\t\t\t{\"name\": \"jack_target\",          \"type\": \"string\",  \"required\": true},\n\t\t\t{\"name\": \"jack_reason\",          \"type\": \"string\",  \"required\": true},\n\t\t\t{\"name\": \"jack_revert_plan\",     \"type\": \"string\",  \"required\": true},\n\t\t\t{\"name\": \"jack_ttl\",             \"type\": \"string\"},\n\t\t\t{\"name\": \"jack_expires_at\",      \"type\": \"string\"},\n\t\t\t{\"name\": \"jack_original_ttl\",    \"type\": \"string\"},\n\t\t\t{\"name\": \"jack_extension_count\", \"type\": \"integer\"},\n\t\t\t{\"name\": \"jack_cumulative_ttl\",  \"type\": \"string\"},\n\t\t\t{\"name\": \"jack_reverted\",        \"type\": \"boolean\"},\n\t\t\t{\"name\": \"jack_closed_reason\",   \"type\": \"string\"},\n\t\t\t{\"name\": \"jack_closed_at\",       \"type\": \"string\"},\n\t\t\t{\"name\": \"jack_escalated\",       \"type\": \"boolean\"},\n\t\t\t{\"name\": \"jack_escalated_at\",    \"type\": \"string\"},\n\t\t\t{\"name\": \"jack_changes\",         \"type\": \"json\"},\n\t\t\t{\"name\": \"jack_rig\",             \"type\": \"string\"}\n\t\t]\n\t}",
    )
    ∷ ("type:mail", "{\"kind\":\"data\",\"fields\":[]}")
    ∷ (
      "type:agent",
      "{\n\t\t\"kind\": \"config\",\n\t\t\"fields\": [\n\t\t\t{\"name\": \"agent\",         \"type\": \"string\", \"required\": true},\n\t\t\t{\"name\": \"role\",          \"type\": \"string\", \"required\": true},\n\t\t\t{\"name\": \"project\",       \"type\": \"string\", \"required\": true},\n\t\t\t{\"name\": \"mode\",          \"type\": \"string\"},\n\t\t\t{\"name\": \"agent_state\",   \"type\": \"string\"},\n\t\t\t{\"name\": \"mock_scenario\", \"type\": \"string\"},\n\t\t\t{\"name\": \"stop_requested\",    \"type\": \"string\"},\n\t\t\t{\"name\": \"gate_satisfied_by\", \"type\": \"string\"},\n\t\t\t{\"name\": \"advice_subscriptions\",         \"type\": \"string[]\"},\n\t\t\t{\"name\": \"advice_subscriptions_exclude\",  \"type\": \"string[]\"}\n\t\t]\n\t}",
    )
    ∷ (
      "type:decision",
      "{\n\t\t\"kind\": \"data\",\n\t\t\"fields\": [\n\t\t\t{\"name\": \"prompt\",                  \"type\": \"string\", \"required\": true},\n\t\t\t{\"name\": \"options\",                 \"type\": \"json\"},\n\t\t\t{\"name\": \"context\",                 \"type\": \"string\"},\n\t\t\t{\"name\": \"session\",                 \"type\": \"string\"},\n\t\t\t{\"name\": \"requested_by\",            \"type\": \"string\"},\n\t\t\t{\"name\": \"requesting_agent_bead_id\",\"type\": \"string\"},\n\t\t\t{\"name\": \"chosen\",                  \"type\": \"string\"},\n\t\t\t{\"name\": \"rationale\",               \"type\": \"string\"},\n\t\t\t{\"name\": \"response_text\",           \"type\": \"string\"},\n\t\t\t{\"name\": \"responded_by\",            \"type\": \"string\"},\n\t\t\t{\"name\": \"responded_at\",            \"type\": \"string\"},\n\t\t\t{\"name\": \"required_artifact\",       \"type\": \"string\"},\n\t\t\t{\"name\": \"artifact_status\",         \"type\": \"enum\", \"values\": [\"pending\", \"submitted\", \"accepted\"]}\n\t\t]\n\t}",
    )
    ∷ (
      "type:report",
      "{\n\t\t\"kind\": \"data\",\n\t\t\"fields\": [\n\t\t\t{\"name\": \"decision_id\", \"type\": \"string\", \"required\": true},\n\t\t\t{\"name\": \"report_type\", \"type\": \"string\", \"required\": true},\n\t\t\t{\"name\": \"content\",     \"type\": \"string\", \"required\": true},\n\t\t\t{\"name\": \"format\",      \"type\": \"string\"}\n\t\t]\n\t}",
    )
    ∷ ("type:role", "{\"kind\":\"config\",\"fields\":[]}")
    ∷ ("type:rig", "{\"kind\":\"config\",\"fields\":[]}")
    ∷ ("type:convoy", "{\"kind\":\"config\",\"fields\":[]}")
    ∷ ("type:config", "{\"kind\":\"config\",\"fields\":[]}")
    ∷ ("type:event", "{\"kind\":\"data\",\"fields\":[]}")
    ∷ ("type:gate", "{\"kind\":\"data\",\"fields\":[]}")
    ∷ ("type:message", "{\"kind\":\"data\",\"fields\":[]}")
    ∷ (
      "type:formula",
      "{\n\t\t\"kind\": \"data\",\n\t\t\"fields\": [\n\t\t\t{\"name\": \"vars\",  \"type\": \"json\"},\n\t\t\t{\"name\": \"steps\", \"type\": \"json\"},\n\t\t\t{\"name\": \"default_roles\", \"type\": \"json\"},\n\t\t\t{\"name\": \"assigned_agent\", \"type\": \"string\"}\n\t\t]\n\t}",
    )
    ∷ (
      "type:molecule",
      "{\n\t\t\"kind\": \"issue\",\n\t\t\"fields\": [\n\t\t\t{\"name\": \"formula_id\",   \"type\": \"string\"},\n\t\t\t{\"name\": \"applied_vars\", \"type\": \"json\"},\n\t\t\t{\"name\": \"ephemeral\",    \"type\": \"boolean\"}\n\t\t]\n\t}",
    )
    ∷ ("type:mention", "{\"kind\":\"data\",\"fields\":[]}")
    ∷ ("type:artifact", "{\"kind\":\"data\",\"fields\":[]}")
    ∷ ("type:runbook", "{\"kind\":\"data\",\"fields\":[]}")
    ∷ []
