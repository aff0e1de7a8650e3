-- ===== src/Hooks/Tests.antt =====
-- A Stop of one agent over a small store, and the theorems on hooks at concrete values.
use kbeads.Prelude.{
  ℕ, ◌*◌, String, Bool, true, false, List, [], ◌∷◌, Option, none, some, ◌≡◌, ◌≢◌, refl, arith,
  if◌then◌else◌, ◌==◌, eq_iff,
}
use kbeads.Prelude.Int.{pos, lt_int}
use kbeads.Prelude.Sorted.Insertion.{by_insertion}
use kbeads.Model.Bead.{Bead}
use kbeads.Model.Value.{str}
use kbeads.Eventbus.Bus.{Handler, before}
use kbeads.Server.Store.{Tables}
use kbeads.Server.Actions.{World}
use kbeads.Server.Beads.{Env}
use kbeads.Server.Query.{Database}
use kbeads.Server.Samples
use kbeads.Server.Samples.{task, world_of}
use kbeads.Hooks.Executor.{
  hook_timeout, hook_timeout_bounds, hook_timeout_exact, max_timeout, second,
}
use kbeads.Hooks.Handler.{SessionEvent, Host, handle_session_event}
use kbeads.Hooks.Emit.{HookEmitRequest, Site, SiteState, handle_hook_emit}
use kbeads.Hooks.StopGate.{Passes, decision}
use kbeads.Hooks.EmitProofs.{handle_hook_emit-Passes, handle_hook_emit-blocks_next}

-- 18446744074 seconds are more nanoseconds than 64 bits hold: the command gets 0.29 seconds.
hook_timeout_wraps : hook_timeout (pos 18446744074) ≡ pos 290448384
unfolding hook_timeout
hook_timeout_wraps = refl

hook_timeout_bounds_example :
    (lt_int (pos 0) (hook_timeout (pos 9223372037)) ≡ true)
    × (lt_int max_timeout (hook_timeout (pos 9223372037)) ≡ false)
hook_timeout_bounds_example = hook_timeout_bounds (pos 9223372037)

hook_timeout_exact_example : hook_timeout (pos 45) ≡ pos (45 * second)
hook_timeout_exact_example = hook_timeout_exact 45 (omega arith)

abbrev blank : Bead
blank = record (task "") { title = "T"; assignee = "" }

abbrev agent : Bead
agent = record blank { id = "kd-1"; bead_type = "agent"; fields = "gate" }

abbrev advice : Bead
advice = record blank { id = "kd-2"; bead_type = "advice"; title = "Push"; fields = "hook" }

abbrev beads : World
beads = world_of (("kd-1", agent) ∷ ("kd-2", advice) ∷ []) (("kd-2", "global") ∷ []) [] []

-- The decision gate of the agent is satisfied.
abbrev start : World
start = record beads {
  tables = record beads.tables {
    gates =
        record {
          agent_bead_id = "kd-1";
          gate_id = "decision";
          status = "satisfied";
          satisfied_at = some 3;
        }
        ∷ [];
  };
}

abbrev host : Host
host = record {
  read_advice = λ raw. some (record {
    hook_command = "git push";
    hook_trigger = "session-end";
    hook_seconds = pos 0;
    hook_on_failure = "warn";
  });
  read_agent = λ raw. none;
  shell = λ log r. record { output = "rejected"; error = some "exit status 1" };
}

abbrev db : Database
db = record { ilike = λ s p. false; field_text = λ fields key. none; order_by = λ order bs. bs }

abbrev event : SessionEvent
event = record { agent_id = "rig/polecats/one"; trigger = "session-end"; cwd = "/w" }

warned :
    (handle_session_event db (λ n. none) host event [] start).0.warnings
    ≡ "Advice hook warning: Push — rejected (exit: exit status 1)" ∷ []
unfolding handle_session_event kbeads.Server.ListBeads.list_beads kbeads.Server.Actions.call
    kbeads.Server.Query.all_hold kbeads.Server.Query.build_query
    kbeads.Model.Advice.matches_subscriptions kbeads.Model.Advice.required_ok
    kbeads.Model.Advice.strip_group_prefix kbeads.Model.Advice.some_group
    kbeads.Model.Advice.parse_groups kbeads.Model.Advice.group_labels kbeads.Model.Advice.group_of
    kbeads.Model.Advice.add_to_group kbeads.Model.Advice.build_agent_subscriptions
warned = refl

before_asym : (a b : Handler) → before a b ≡ true → before b a ≡ false
before_asym a b h = ground arith

before_through : (a b c : Handler) → before c b ≡ false → before b a ≡ false → before c a ≡ false
before_through a b c h k = ground arith

-- The bead kd-1 was satisfied by yield until its field is cleared.
abbrev env : Env
env = record (Samples.env none) {
  decoder = record {
    unmarshal = λ t. if t == "gate" then some (("gate_satisfied_by", str "yield") ∷ []) else none;
    is_whole = λ n. true;
    parses_time = λ t. false;
  };
  marshal_map = λ m. some "{}";
}

abbrev site : Site
site = record {
  env = env;
  db = db;
  host = host;
  git_status = λ cwd. some " M main.go";
  bus = none;
  by = by_insertion before before_asym before_through;
  json = record {
    unmarshal_object = λ t. none;
    marshal_object = λ m. none;
    marshal_string = λ s. none;
    marshal_event = λ e. none;
    peek_requested_by = λ t. none;
  };
  ctx = λ n. none;
}

abbrev stop : HookEmitRequest
stop = record {
  agent_bead_id = "kd-1";
  hook_type = "Stop";
  claude_session_id = "s";
  cwd = "/w";
  actor = "";
  tool_name = "";
}

abbrev before_stop : SiteState
before_stop = record { world = start; roster = none; runs = [] }

passes : (handle_hook_emit site stop before_stop).0.block ≡ false
unfolding handle_hook_emit kbeads.Server.Actions.call kbeads.Prelude.Dict.get
    kbeads.Server.Update.get_bead kbeads.Server.Store.query_get_row
    kbeads.Server.Store.query_get_labels kbeads.Server.Store.query_get_dependencies
    kbeads.Server.Store.query_get_comments handle_session_event kbeads.Server.ListBeads.list_beads
    kbeads.Prelude.Text.trim_space kbeads.Server.Store.query_update_bead kbeads.Prelude.Dict.put
    kbeads.Server.Query.all_hold kbeads.Server.Query.build_query
    kbeads.Model.Advice.matches_subscriptions kbeads.Model.Advice.required_ok
    kbeads.Model.Advice.strip_group_prefix kbeads.Model.Advice.some_group
    kbeads.Model.Advice.parse_groups kbeads.Model.Advice.group_labels kbeads.Model.Advice.group_of
    kbeads.Model.Advice.add_to_group kbeads.Model.Advice.build_agent_subscriptions
passes = refl

named : ◌≢◌ {A = String} "kd-1" ""
named e = ground (arith, eq_iff "kd-1" "", e)

handle_hook_emit-Passes_example : Passes env "kd-1" start.tables
handle_hook_emit-Passes_example =
    handle_hook_emit-Passes site stop "kd-1" before_stop (refl, refl, named) passes

handle_hook_emit-blocks_next_example :
    (decision "kd-1" (handle_hook_emit site stop before_stop).1.world.tables ≡ some "pending")
    × ((handle_hook_emit site stop (handle_hook_emit site stop before_stop).1).0.block ≡ true)
handle_hook_emit-blocks_next_example =
    handle_hook_emit-blocks_next site site stop stop "kd-1" before_stop (λ i. refl)
      (refl, refl, named) (refl, refl, named) passes
