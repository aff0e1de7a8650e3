-- ===== src/Hooks/Keeps.antt =====
-- A hook event (handleHookEmit of internal/server/http_hooks.go), over a sound store.
use kbeads.Prelude.{
  String, Bool, true, false, List, [], ◌∷◌, Option, none, some, ◌==◌, ◌≡◌, refl, sym, subst,
  Bool-cases, inl, inr,
}
use kbeads.Prelude.Dict.{Dict}
use kbeads.Model.Bead.{Bead}
use kbeads.Model.Value.{Value, null}
use kbeads.Model.Validate.{IsValid}
use kbeads.Server.Store.{Answer, ok, fail}
use kbeads.Server.Actions.{World, call, continue, wrap_answer}
use kbeads.Server.Beads.{Env}
use kbeads.Server.Update.{get_bead, existing_fields, put_all, merge_into}
use kbeads.Server.Gates.{upsert_gate, clear_gate, is_gate_satisfied}
use kbeads.Server.Soundness.{IsSound}
use kbeads.Server.Keeps.{Keeps, call-Keeps}
use kbeads.Server.KeepsCreate.{get_bead-Keeps}
use kbeads.Server.GateRows.{upsert_gate-IsSound, clear_gate-IsSound}
use kbeads.Hooks.Handler.{Run}
use kbeads.Hooks.Emit.{
  Site, SiteState, HookEmitRequest, stored, merge_bead_fields, consume, stop_gate, when_allowed,
  when_satisfied, is_allowed, by_of, gated, let_through, handle_hook_emit,
}
use kbeads.Hooks.EmitProofs.{let_through-tables}
use kbeads.Http.Keeps.{Marshals, stored-Keeps, read-IsValid}

module _ (json_valid : String → Bool) where
  module _ (env : Env) (law : Marshals json_valid env) where
    merged-Keeps :
        (b : Bead) (key : String) (v : Value) (o : Option (Dict Value)) (w : World)
        → IsValid json_valid b
        → IsSound json_valid w.tables
        → IsSound json_valid (stored env b (merge_into env o ((key, v) ∷ [])) w).1.tables
    merged-Keeps b key v none w valid s = s
    merged-Keeps b key v (some m) w valid s =
        let all = put_all ((key, v) ∷ []) m in
        stored-Keeps json_valid env law b all (env.marshal_map all) w refl valid s

    merge_bead_fields-Keeps :
        (id key : String) (v : Value) → Keeps json_valid (merge_bead_fields env id ((key, v) ∷ []))
    unfolding merge_bead_fields
    merge_bead_fields-Keeps id key v w s =
        read (get_bead env id w) (get_bead-Keeps json_valid env id w s)
          (λ b w1 h. read-IsValid json_valid env law id w w1 b s h)
      where
        read :
            (r : Answer Bead × World)
            → IsSound json_valid r.1.tables
            → ((b : Bead) (w1 : World) → r ≡ (ok b, w1) → IsValid json_valid b)
            → IsSound json_valid
                (continue
                  (λ b.
                    stored env b (merge_into env (existing_fields env b.fields) ((key, v) ∷ [])))
                  (wrap_answer "get bead" r)).1.tables
        read (ok b, w1) s1 valid =
            merged-Keeps b key v (existing_fields env b.fields) w1 (valid b w1 refl) s1
        read (fail e, w1) s1 valid = s1

    consume-Keeps :
        (id : String) (w : World)
        → IsSound json_valid w.tables
        → IsSound json_valid (consume env id w).tables
    unfolding consume
    consume-Keeps id w s =
        merge_bead_fields-Keeps id "gate_satisfied_by" null
          (call env.links.faults (clear_gate id "decision") w).1
          (call-Keeps json_valid env.links.faults (clear_gate id "decision")
            (clear_gate-IsSound json_valid id "decision") w s)

    when_allowed-Keeps :
        (c : Bool) (id : String) (w : World)
        → IsSound json_valid w.tables
        → IsSound json_valid (when_allowed c env id w).1.tables
    when_allowed-Keeps true id w s = consume-Keeps id w s
    when_allowed-Keeps false id w s = s

    when_satisfied-Keeps :
        (id : String) (r : Answer Bool × World)
        → IsSound json_valid r.1.tables
        → IsSound json_valid (when_satisfied env id r).1.tables
    when_satisfied-Keeps id (ok true, w) s =
        let r = get_bead env id w in
        when_allowed-Keeps (is_allowed (by_of env r)) id r.1 (get_bead-Keeps json_valid env id w s)
    when_satisfied-Keeps id (ok false, w) s = s
    when_satisfied-Keeps id (fail e, w) s = s

    stop_gate-Keeps :
        (id : String) (w : World)
        → IsSound json_valid w.tables
        → IsSound json_valid (stop_gate env id w).1.tables
    unfolding stop_gate is_gate_satisfied
    stop_gate-Keeps id w s =
        let f = env.links.faults in
        let up = call f (upsert_gate id "decision") w in
        when_satisfied-Keeps id (call f (is_gate_satisfied id "decision") up.1) (
          call-Keeps json_valid f (is_gate_satisfied id "decision") (λ t s1. s1) up.1
            (call-Keeps json_valid f (upsert_gate id "decision")
              (upsert_gate-IsSound json_valid id "decision") w s))

  let_through-Keeps :
      (site : Site) (req : HookEmitRequest) (stop : Bool) (log : List Run) (w : World)
      → IsSound json_valid w.tables
      → IsSound json_valid (let_through site req stop log w).2.tables
  let_through-Keeps site req stop log w s =
      subst (IsSound json_valid) (sym (let_through-tables site req stop log w)) s

  gated-Keeps :
      (site : Site) (req : HookEmitRequest) (log : List Run) (r : Option String × World)
      → IsSound json_valid r.1.tables
      → IsSound json_valid (gated site req log r).2.tables
  gated-Keeps site req log (some why, w) s = s
  gated-Keeps site req log (none, w) s = let_through-Keeps site req true log w s

  pub handle_hook_emit-Keeps :
      (site : Site) (law : Marshals json_valid site.env) (req : HookEmitRequest) (st : SiteState)
      → IsSound json_valid st.world.tables
      → IsSound json_valid (handle_hook_emit site req st).1.world.tables
  unfolding handle_hook_emit
  handle_hook_emit-Keeps site law req st s =
      let id = req.agent_bead_id in
      elim (Bool-cases (id == "")) [
        | inl y ↦ rw y s
        | inr n ↦ rw n (elim (Bool-cases (req.hook_type == "Stop")) [
          | inl y ↦ rw y (
              gated-Keeps site req st.runs (stop_gate site.env id st.world)
                (stop_gate-Keeps site.env law id st.world s))
          | inr m ↦ rw m (let_through-Keeps site req false st.runs st.world s)
        ])
      ]
