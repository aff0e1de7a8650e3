-- ===== src/Hooks/Handler.antt =====
-- HandleSessionEvent of internal/hooks/handler.go. The shell is a parameter: what a run gives may
-- depend on the runs before it.
use kbeads.Prelude.{
  ℕ, String, Bool, true, false, not, ◌||◌, List, [], ◌∷◌, ◌++◌, Option, none, some, mem, keep, ◌==◌,
  if◌then◌else◌,
}
use kbeads.Prelude.Int.{ℤ, pos}
use kbeads.Prelude.Text.{append, split}
use kbeads.Prelude.Dict.{Dict}
use kbeads.Model.Bead.{Bead}
use kbeads.Model.Advice.{matches_subscriptions, build_agent_subscriptions}
use kbeads.Server.Store.{Answer, ok, fail}
use kbeads.Server.Actions.{World, Faults}
use kbeads.Server.Query.{BeadFilter, Database}
use kbeads.Server.ListBeads.{list_beads}
use kbeads.Hooks.Executor.{hook_timeout}

pub record SessionEvent : Type 0 where
  pub agent_id : String
  pub trigger : String
  pub cwd : String

pub record HookResponse : Type 0 where
  pub block : Bool
  pub reason : String
  pub warnings : List String

pub record AdviceFields : Type 0 where
  pub hook_command : String
  pub hook_trigger : String
  pub hook_seconds : ℤ
  pub hook_on_failure : String

-- A command as it is started, and what comes of it.
pub record Run : Type 0 where
  pub command : String
  pub timeout : ℤ
  pub cwd : String
  pub env : Dict String

pub record RunResult : Type 0 where
  pub output : String
  pub error : Option String

-- What encoding/json makes of the fields of advice (a text that is not empty) and of an agent, and the
-- shell, which sees the runs before.
pub record Host : Type 0 where
  pub read_advice : String → Option AdviceFields
  pub read_agent : String → Option (List String × List String)
  pub shell : List Run → Run → RunResult

abbrev pub no_advice : AdviceFields
no_advice = record {
  hook_command = "";
  hook_trigger = "";
  hook_seconds = pos 0;
  hook_on_failure = "";
}

unfoldable pub parse_advice_fields : Host → String → Option AdviceFields
parse_advice_fields host raw = if raw == "" then some no_advice else host.read_advice raw

unfoldable pub execute : Host → List Run → String → ℤ → String → Dict String → RunResult × List Run
unfolding hook_timeout
execute host log command seconds cwd env =
    let r : Run = record {
      command = command;
      timeout = hook_timeout seconds;
      cwd = cwd;
      env = env;
    } in
    (host.shell log r, log ++ r ∷ [])

abbrev pub blocked_text : Bead → AdviceFields → String → String → String
blocked_text b f why output = append "Advice hook blocked: " (
    append b.title (
      append "\nCommand: "
        (append f.hook_command (append "\nError: " (append why (append "\nOutput: " output))))))

abbrev pub warning_text : Bead → String → String → String
warning_text b why output =
    append "Advice hook warning: "
      (append b.title (append " — " (append output (append " (exit: " (append why ")")))))

abbrev pub empty_response : HookResponse
empty_response = record { block = false; reason = ""; warnings = [] }

abbrev pub warn : HookResponse → String → HookResponse
warn resp text = record resp { warnings = resp.warnings ++ text ∷ [] }

-- The bead's fields when its hook is to run: it has a command, the event's trigger, and labels that the
-- agent subscribes to.
abbrev pub selected : SessionEvent → List String → Bead → Option AdviceFields → Option AdviceFields
selected event subs b none = none
selected event subs b (some f) =
    if f.hook_command == "" || not (f.hook_trigger == event.trigger)
    then none
    else if not (matches_subscriptions b.labels subs)
    then none
    else some f

-- The switch on hook_on_failure: whether to return at once, and the response so far.
abbrev pub react :
    Bead → AdviceFields → RunResult → Option String → HookResponse → Bool × HookResponse
react b f result none resp = (false, resp)
react b f result (some why) resp =
    if f.hook_on_failure == "block"
    then (true, record resp { block = true; reason = blocked_text b f why result.output })
    else if f.hook_on_failure == "warn"
    then (false, warn resp (warning_text b why result.output))
    else (false, resp)

abbrev pub proceed :
    Bool × HookResponse
    → List Run
    → (HookResponse → List Run → HookResponse × List Run)
    → HookResponse × List Run
proceed (true, resp) log next = (resp, log)
proceed (false, resp) log next = next resp log

module _ (host : Host) (event : SessionEvent) (subs : List String) where
  abbrev pub hook_of : Bead → Option AdviceFields
  hook_of b = selected event subs b (parse_advice_fields host b.fields)

  abbrev pub run_hook :
      Bead
      → Option AdviceFields
      → HookResponse
      → List Run
      → (HookResponse → List Run → HookResponse × List Run)
      → HookResponse × List Run
  run_hook b none resp log next = next resp log
  run_hook b (some f) resp log next =
      let (result, log1) =
        execute host log f.hook_command f.hook_seconds event.cwd
          (("KD_AGENT", event.agent_id) ∷ []) in
      proceed (react b f result result.error resp) log1 next

  unfoldable pub run_hooks : List Bead → HookResponse → List Run → HookResponse × List Run
  unfolding parse_advice_fields execute
  run_hooks [] resp log = (resp, log)
  run_hooks (b ∷ bs) resp log = run_hook b (hook_of b) resp log (λ r l. run_hooks bs r l)

-- A filter with no condition.
abbrev pub no_filter : BeadFilter
no_filter = record {
  status = [];
  bead_type = [];
  exclude_types = [];
  kind = [];
  priority = none;
  priority_min = none;
  priority_max = none;
  assignee = "";
  labels = [];
  labels_any = [];
  search = "";
  fields = [];
  no_open_deps = false;
  ids = [];
  updated_after = none;
  parent_id = "";
  sort = "";
  limit = pos 0;
  offset = pos 0;
}

abbrev pub open_advice : BeadFilter
open_advice = record no_filter { bead_type = "advice" ∷ []; status = "open" ∷ [] }

abbrev pub last_part : String → List String → String
last_part s [] = s
last_part s (x ∷ xs) = last_part x xs

abbrev pub agent_named : String → BeadFilter
agent_named name = record no_filter {
  bead_type = "agent" ∷ [];
  status = "open" ∷ "in_progress" ∷ [];
  fields = ("agent", name) ∷ [];
  limit = pos 1;
}

abbrev pub customised : List String → Option (List String × List String) → List String
customised subs none = subs
customised subs (some (more, [])) = subs ++ more
customised subs (some (more, (x ∷ xs))) = keep (λ s. not (mem s (x ∷ xs))) (subs ++ more)

abbrev pub enriched : Host → List String → Answer (List Bead × ℕ) × World → List String × World
enriched host subs (fail e, w) = (subs, w)
enriched host subs (ok ([], n), w) = (subs, w)
enriched host subs (ok ((b ∷ bs), n), w) = (customised subs (host.read_agent b.fields), w)

unfoldable pub enrich_agent_subscriptions :
    Database → Faults → Host → String → List String → World → List String × World
enrich_agent_subscriptions db faults host agent_id subs w =
    enriched host subs (list_beads db faults (agent_named (last_part "" (split b'/' agent_id))) w)

abbrev pub run_listed :
    Database
    → Faults
    → Host
    → SessionEvent
    → List Run
    → Answer (List Bead × ℕ) × World
    → HookResponse × List Run × World
run_listed db faults host event log (fail e, w) = (empty_response, log, w)
run_listed db faults host event log (ok (beads, n), w) =
    let (subs, w1) =
      enrich_agent_subscriptions db faults host event.agent_id
        (build_agent_subscriptions event.agent_id []) w in
    let (resp, log1) = run_hooks host event subs beads empty_response log in (resp, log1, w1)

unfoldable pub handle_session_event :
    Database → Faults → Host → SessionEvent → List Run → World → HookResponse × List Run × World
unfolding run_hooks enrich_agent_subscriptions
handle_session_event db faults host event log w =
    if event.agent_id == "" || event.trigger == ""
    then (empty_response, log, w)
    else run_listed db faults host event log (list_beads db faults open_advice w)
