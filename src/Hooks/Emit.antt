-- ===== src/Hooks/Emit.antt =====
-- handleHookEmit of internal/server/http_hooks.go: a hook event of an agent, the decision gate that a
-- Stop must pass, the advice hooks and the event bus. With it mergeBeadFields of internal/server/http.go
-- and CheckCommitPush of internal/hooks/autocheck.go.
use kbeads.Prelude.{
  ℕ, String, Bool, true, false, not, ◌&&◌, ◌||◌, List, [], ◌∷◌, ◌++◌, Option, none, some, ◌==◌,
  if◌then◌else◌,
}
use kbeads.Prelude.Text.{trim_space}
use kbeads.Prelude.Dict
use kbeads.Prelude.Dict.{Dict}
use kbeads.Prelude.Sorted.{SortSlice}
use kbeads.Model.Bead.{Bead}
use kbeads.Model.Value.{Value, null, str}
use kbeads.Presence.Tracker.{Tracker, record_hook_event}
use kbeads.Eventbus.Bus.{Event, Result, Bus, Json, before, Dispatched, dispatch}
use kbeads.Server.Store.{Answer, ok, fail, query_update_bead}
use kbeads.Server.Actions.{World, Action, bind, wrapping, call}
use kbeads.Server.Beads.{Env}
use kbeads.Server.Update.{get_bead, existing_fields, merge_into}
use kbeads.Server.Gates.{upsert_gate, clear_gate, is_gate_satisfied}
use kbeads.Server.Query.{Database}
use kbeads.Hooks.Handler.{SessionEvent, Run, Host, handle_session_event}

pub record HookEmitRequest : Type 0 where
  pub agent_bead_id : String
  pub hook_type : String
  pub claude_session_id : String
  pub cwd : String
  pub actor : String
  pub tool_name : String

pub record HookEmitResponse : Type 0 where
  pub block : Bool
  pub reason : String
  pub warnings : List String
  pub inject : String

-- The server with what the handler consults: git status (nothing when the command fails), and the bus
-- with its context.
pub record Site : Type 0 where
  pub env : Env
  pub db : Database
  pub host : Host
  pub git_status : String → Option String
  pub bus : Option Bus
  pub by : SortSlice before
  pub json : Json
  pub ctx : ℕ → Option String

-- What a request changes: the world, the roster, and the commands run.
pub record SiteState : Type 0 where
  pub world : World
  pub roster : Option Tracker
  pub runs : List Run

-- The field of the agent's bead that tells how its gate came to be satisfied.
abbrev pub text_of : Option Value → String
text_of (some (str s)) = s
text_of _ = ""

abbrev pub in_fields : Option (Dict Value) → String → String
in_fields none key = ""
in_fields (some m) key = text_of (Dict.get key m)

unfoldable pub satisfied_by : Env → Bead → String
satisfied_by env b =
    if b.fields == "" then "" else in_fields (env.decoder.unmarshal b.fields) "gate_satisfied_by"

abbrev pub by_of : Env → Answer Bead × World → String
by_of env (fail e, w) = ""
by_of env (ok b, w) = satisfied_by env b

abbrev pub stored : Env → Bead → Answer String → Action ℕ
stored env b (fail e) w = (fail e, w)
stored env b (ok fields) w =
    call env.links.faults (query_update_bead env.store_now (record b { fields = fields })) w

-- An assignment to a nil map would panic; that is a failure here, and no caller meets it after a
-- value was read from the same fields.
unfoldable pub merge_bead_fields : Env → String → Dict Value → Action ℕ
merge_bead_fields env id extra =
    bind (wrapping "get bead" (get_bead env id))
      (λ b. stored env b (merge_into env (existing_fields env b.fields) extra))

abbrev pub is_allowed : String → Bool
is_allowed by = by == "yield" || (by == "operator" || by == "manual-force")

-- ClearGate and mergeBeadFields, whose errors are only logged.
unfoldable pub consume : Env → String → World → World
unfolding clear_gate merge_bead_fields
consume env id w =
    (merge_bead_fields env id (("gate_satisfied_by", null) ∷ [])
      (call env.links.faults (clear_gate id "decision") w).1).1

abbrev pub when_allowed : Bool → Env → String → World → Option String × World
when_allowed true env id w = (none, consume env id w)
when_allowed false env id w = (
  some
      "decision: gate was not satisfied via 'gb yield' — create a decision with 'gb decision create' then call 'gb yield'",
  w,
)

abbrev pub when_satisfied : Env → String → Answer Bool × World → Option String × World
when_satisfied env id (ok true, w) =
    let r = get_bead env id w in when_allowed (is_allowed (by_of env r)) env id r.1
when_satisfied env id (ok false, w) =
    (some "decision: decision point offered before session end", w)
when_satisfied env id (fail e, w) = (some "decision: decision point offered before session end", w)

-- The decision gate of a Stop: the reason to block, if any.
unfoldable pub stop_gate : Env → String → World → Option String × World
unfolding upsert_gate is_gate_satisfied consume satisfied_by
stop_gate env id w = when_satisfied env id (
    call env.links.faults (is_gate_satisfied id "decision")
      (call env.links.faults (upsert_gate id "decision") w).1)

unfoldable pub check_commit_push : (String → Option String) → String → List String
check_commit_push git_status cwd = if cwd == "" then [] else elim (git_status cwd) [
  | none ↦ []
  | some out ↦
      if trim_space out == ""
      then []
      else "you have uncommitted changes — run git add/commit/push" ∷ []
]

abbrev pub allow : HookEmitResponse
allow = record { block = false; reason = ""; warnings = []; inject = "" }

abbrev pub refuse : String → HookEmitResponse
refuse why = record allow { block = true; reason = why }

-- A block of another party, unless there is one already.
abbrev pub joined : Bool → String → HookEmitResponse → HookEmitResponse
joined block reason resp =
    if block && not resp.block then (record resp { block = true; reason = reason }) else resp

abbrev agent_of : HookEmitRequest → String
agent_of req = if req.actor == "" then req.agent_bead_id else req.actor

-- The advice hooks of a Stop.
abbrev pub advised :
    Site
    → HookEmitRequest
    → HookEmitResponse
    → List Run
    → World
    → HookEmitResponse × List Run × World
advised site req resp log w =
    let event : SessionEvent = record {
      agent_id = agent_of req;
      trigger = "session-end";
      cwd = req.cwd;
    } in
    let (hooked, log1, w1) =
      handle_session_event site.db site.env.links.faults site.host event log w in
    let resp1 = joined hooked.block hooked.reason resp in
    (record resp1 { warnings = resp1.warnings ++ hooked.warnings }, log1, w1)

abbrev bus_result : HookEmitResponse → Option String → Option Result → HookEmitResponse
bus_result resp (some why) r = resp
bus_result resp none none = resp
bus_result resp none (some r) = joined r.block r.reason resp

-- What is left of a dispatch. It can panic only where a handler of the bus gives the event, which comes
-- without one, a raw text that is null; this is then answered like an error.
abbrev pub after_dispatch : HookEmitResponse → Option Dispatched → World → HookEmitResponse × World
after_dispatch resp none w = (resp, w)
after_dispatch resp (some d) w =
    (bus_result resp d.error d.result, record w { stream = w.stream ++ d.published })

abbrev pub dispatched :
    Site → HookEmitRequest → Option Bus → HookEmitResponse → World → HookEmitResponse × World
dispatched site req none resp w = (resp, w)
dispatched site req (some b) resp w =
    let event : Event = record {
      event_type = req.hook_type;
      raw = "";
      actor = req.actor;
      published_at = none;
      rest = req.claude_session_id ∷ req.cwd ∷ req.tool_name ∷ [];
    } in
    after_dispatch resp (dispatch site.by site.json site.ctx site.env.now b (some event)) w

abbrev pub tracked : Env → HookEmitRequest → Option Tracker → Option Tracker
unfolding record_hook_event
tracked env req none = none
tracked env req (some t) =
    if req.actor == ""
    then some t
    else some (
        record_hook_event env.now
          (record {
            actor = req.actor;
            hook_type = req.hook_type;
            tool_name = req.tool_name;
            session_id = req.claude_session_id;
            cwd = req.cwd;
          })
          t)

-- What follows the gate.
abbrev pub let_through :
    Site → HookEmitRequest → Bool → List Run → World → HookEmitResponse × List Run × World
let_through site req stop log w =
    let resp = record allow { warnings = check_commit_push site.git_status req.cwd } in
    let (resp1, log1, w1) = if stop then advised site req resp log w else (resp, log, w) in
    let (resp2, w2) = dispatched site req site.bus resp1 w1 in (resp2, log1, w2)

abbrev pub gated :
    Site → HookEmitRequest → List Run → Option String × World → HookEmitResponse × List Run × World
gated site req log (some why, w) = (refuse why, log, w)
gated site req log (none, w) = let_through site req true log w

abbrev pub with_state :
    Site
    → HookEmitRequest
    → SiteState
    → HookEmitResponse × List Run × World
    → HookEmitResponse × SiteState
with_state site req s (resp, runs, w) =
    (resp, record { world = w; roster = tracked site.env req s.roster; runs = runs })

-- The answer to a decoded request, and the state after it.
unfoldable pub handle_hook_emit : Site → HookEmitRequest → SiteState → HookEmitResponse × SiteState
unfolding stop_gate check_commit_push
handle_hook_emit site req s = with_state site req s (
    if req.agent_bead_id == ""
    then (allow, s.runs, s.world)
    else if req.hook_type == "Stop"
    then gated site req s.runs (stop_gate site.env req.agent_bead_id s.world)
    else let_through site req false s.runs s.world)
