-- ===== src/Hooks/EmitProofs.antt =====
-- What an answer of handleHookEmit (internal/server/http_hooks.go) to a Stop says of the decision gate.
use kbeads.Prelude.{
  ℕ, String, Bool, true, false, List, Option, none, some, ◌==◌, if◌then◌else◌, ◌≡◌, ◌≢◌, inl, inr,
  refl, sym, ap, ◌∙◌, arith, eq_iff, Bool-cases,
}
use kbeads.Server.Store.{Tables}
use kbeads.Server.Actions.{World}
use kbeads.Server.Gates.{satisfied}
use kbeads.Eventbus.Bus.{Bus, Dispatched}
use kbeads.Hooks.Handler.{SessionEvent, Run}
use kbeads.Hooks.Session.{handle_session_event-tables}
use kbeads.Hooks.Emit.{
  stop_gate, HookEmitRequest, HookEmitResponse, Site, SiteState, after_dispatch, dispatched,
  let_through, gated, with_state, handle_hook_emit,
}
use kbeads.Hooks.StopGate.{decision, Passes, Through-Passes, stop_gate-Through}
use kbeads.Hooks.PendingGate.{Through-pending}

abbrev pub IsStop : HookEmitRequest → String → Type 0
IsStop req id = (req.hook_type ≡ "Stop") × (req.agent_bead_id ≡ id) × (id ≢ "")

after_dispatch-tables :
    (resp : HookEmitResponse) (o : Option Dispatched) (w : World)
    → (after_dispatch resp o w).1.tables ≡ w.tables
after_dispatch-tables resp none w = refl
after_dispatch-tables resp (some d) w = refl

dispatched-tables :
    (site : Site) (req : HookEmitRequest) (o : Option Bus) (resp : HookEmitResponse) (w : World)
    → (dispatched site req o resp w).1.tables ≡ w.tables
dispatched-tables site req none resp w = refl
dispatched-tables site req (some b) resp w = after_dispatch-tables resp _ w

pub let_through-tables :
    (site : Site) (req : HookEmitRequest) (stop : Bool) (log : List Run) (w : World)
    → (let_through site req stop log w).2.tables ≡ w.tables
let_through-tables site req false log w = dispatched-tables site req site.bus _ w
let_through-tables site req true log w =
    let event : SessionEvent = record {
      agent_id = if req.actor == "" then req.agent_bead_id else req.actor;
      trigger = "session-end";
      cwd = req.cwd;
    } in
    dispatched-tables site req site.bus _ _
    ∙ handle_session_event-tables site.db site.env.links.faults site.host event log w

-- A Stop that is not blocked went through its gate.
gated-through :
    (site : Site) (req : HookEmitRequest) (log : List Run) (r : Option String × World)
    → (gated site req log r).0.block ≡ false
    → (w' : World) × (r ≡ (none, w')) × ((gated site req log r).2.tables ≡ w'.tables)
gated-through site req log (some why, w) h = absurd (ground (arith, h))
gated-through site req log (none, w) h = (w, refl, let_through-tables site req true log w)

pending_not_satisfied : (o : Option String) → o ≡ some "pending" → o ≡ some "satisfied" → ⊥
pending_not_satisfied o a b =
    let same : false ≡ true = ap satisfied (sym a ∙ b) in ground (arith, same)

handle_stop :
    (site : Site) (req : HookEmitRequest) (id : String) (s : SiteState)
    → IsStop req id
    → (handle_hook_emit site req s).0.block ≡ false
    → (w' : World) × (stop_gate site.env id s.world ≡ (none, w'))
      × ((handle_hook_emit site req s).1.world.tables ≡ w'.tables)
unfolding handle_hook_emit
handle_stop site req id s (stop, agent, given) h =
    let named : (req.agent_bead_id == "") ≡ false =
      ground (arith, eq_iff req.agent_bead_id "", agent, given) in
    let stops : (req.hook_type == "Stop") ≡ true =
      ground (arith, eq_iff req.hook_type "Stop", stop) in
    let out = gated site req s.runs (stop_gate site.env req.agent_bead_id s.world) in
    let e : handle_hook_emit site req s ≡ with_state site req s out = rw (named, stops) refl in
    let (w', through, tables) =
      gated-through site req s.runs (stop_gate site.env req.agent_bead_id s.world)
        (ap (λ (r : HookEmitResponse × SiteState). r.0.block) (sym e) ∙ h) in
    (
      w',
      ap (λ x. stop_gate site.env x s.world) (sym agent) ∙ through,
      ap (λ (r : HookEmitResponse × SiteState). r.1.world.tables) e ∙ tables,
    )

-- A Stop of an agent that is not blocked, whatever store calls fail: when it came, the agent's decision
-- gate was satisfied, and the agent's bead said that it was by `yield`, `operator` or `manual-force`.
pub handle_hook_emit-Passes :
    (site : Site) (req : HookEmitRequest) (id : String) (s : SiteState)
    → IsStop req id
    → (handle_hook_emit site req s).0.block ≡ false
    → Passes site.env id s.world.tables
handle_hook_emit-Passes site req id s stop h =
    let (w', through, tables) = handle_stop site req id s stop h in
    Through-Passes site.env id s.world w' (stop_gate-Through site.env id s.world w' through)

-- When no store call fails, a Stop that is not blocked leaves the decision gate pending, so the next Stop
-- of the same agent is blocked, whatever it carries and whatever store calls fail then.
pub handle_hook_emit-blocks_next :
    (site later : Site) (req next : HookEmitRequest) (id : String) (s : SiteState)
    → ((i : ℕ) → site.env.links.faults i ≡ none)
    → IsStop req id
    → IsStop next id
    → (handle_hook_emit site req s).0.block ≡ false
    → (decision id (handle_hook_emit site req s).1.world.tables ≡ some "pending")
      × ((handle_hook_emit later next (handle_hook_emit site req s).1).0.block ≡ true)
handle_hook_emit-blocks_next site later req next id s free stop again h =
    let s1 = (handle_hook_emit site req s).1 in
    let (w', through, tables) = handle_stop site req id s stop h in
    let pending : decision id s1.world.tables ≡ some "pending" =
      ap (λ (t : Tables). decision id t) tables
      ∙ Through-pending site.env id s.world w' free
          (stop_gate-Through site.env id s.world w' through) in
    (
      pending,
      elim (Bool-cases (handle_hook_emit later next s1).0.block) [
        | inl blocked ↦ blocked
        | inr passed ↦
            let twice = (handle_hook_emit-Passes later next id s1 again passed).open_gate in
            absurd (pending_not_satisfied (decision id s1.world.tables) pending twice)
      ],
    )
