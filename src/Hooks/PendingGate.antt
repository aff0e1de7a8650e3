-- ===== src/Hooks/PendingGate.antt =====
-- What becomes of the decision gate (internal/server/http_hooks.go) after a Stop that passed it.
use kbeads.Prelude.{ℕ, String, [], ◌∷◌, Option, none, some, ◌≡◌, refl, ap, ◌∙◌, arith, eq_refl}
use kbeads.Prelude.Dict
use kbeads.Model.Bead.{Bead}
use kbeads.Model.Value.{Value, null}
use kbeads.Server.Store.{
  Answer, ok, fail, Tables, query_get_row, query_get_labels, query_get_dependencies,
  query_get_comments, query_update_bead, update_row, found_row,
}
use kbeads.Server.Actions.{World, Faults, call, wrapping}
use kbeads.Server.Beads.{Env}
use kbeads.Server.Update.{get_bead, existing_fields, merge_into}
use kbeads.Server.Gates.{clear_gate}
use kbeads.Server.GateProofs.{to_pending, clear_gate-Sets}
use kbeads.Server.Preserves.{Preserves, call-Preserves, bind-Preserves, wrapping-Preserves}
use kbeads.Hooks.Emit.{stored, merge_bead_fields, consume}
use kbeads.Hooks.StopGate.{decision, satisfied-some, Through}

-- mergeBeadFields leaves the gates as they are.
module _ (env : Env) (id : String) (x : Option String) where
  Kept : Tables → Type 0
  Kept t = decision id t ≡ x

  update_row-Kept :
      (b : Bead) (o : Option Bead) (t : Tables) → Kept t → Kept (update_row env.store_now o b t).1
  unfolding Kept
  update_row-Kept b none t k = k
  update_row-Kept b (some old) t k = k

  get_bead-Kept : Preserves Kept (get_bead env id)
  unfolding get_bead Kept query_get_row query_get_labels query_get_dependencies query_get_comments
  get_bead-Kept =
      let f = env.links.faults in
      bind-Preserves Kept (call f (query_get_row id)) _
        (call-Preserves Kept f (query_get_row id) (λ t. found_row-Kept (Dict.get id t.beads) t))
        (λ b.
          bind-Preserves Kept (call f (query_get_labels id)) _
            (call-Preserves Kept f (query_get_labels id) (λ t k. k))
            (λ ls.
              bind-Preserves Kept (call f (query_get_dependencies id)) _
                (call-Preserves Kept f (query_get_dependencies id) (λ t k. k))
                (λ ds.
                  bind-Preserves Kept (call f (query_get_comments id)) _
                    (call-Preserves Kept f (query_get_comments id) (λ t k. k)) (λ cs w k. k))))
    where
      found_row-Kept : (o : Option Bead) (t : Tables) → Kept t → Kept (found_row o t).1
      found_row-Kept none t k = k
      found_row-Kept (some b) t k = k

  stored-Kept : (b : Bead) (a : Answer String) → Preserves Kept (stored env b a)
  unfolding query_update_bead
  stored-Kept b (fail e) w k = k
  stored-Kept b (ok fields) w k =
      let b1 : Bead = record b { fields = fields } in
      call-Preserves Kept env.links.faults (query_update_bead env.store_now b1)
        (λ t. update_row-Kept b1 (Dict.get b1.id t.beads) t) w k

  merge_bead_fields-Kept :
      (extra : Dict.Dict Value) → Preserves Kept (merge_bead_fields env id extra)
  unfolding merge_bead_fields
  merge_bead_fields-Kept extra =
      bind-Preserves Kept (wrapping "get bead" (get_bead env id)) _
        (wrapping-Preserves Kept "get bead" (get_bead env id) get_bead-Kept)
        (λ b. stored-Kept b (merge_into env (existing_fields env b.fields) extra))

call-run :
    {A : Type 0} (faults : Faults) (query : Tables → Answer A × Tables) (w : World)
    → faults w.calls ≡ none
    → (call faults query w).1.tables ≡ (query w.tables).1
unfolding call
call-run faults query w e = rw e refl

to_pending-satisfied : (o : Option String) → o ≡ some "satisfied" → to_pending o ≡ some "pending"
to_pending-satisfied none e = cc
to_pending-satisfied (some s) e = refl

-- Passing uses the gate up.
consume-pending :
    (env : Env) (id : String) (w : World)
    → ((i : ℕ) → env.links.faults i ≡ none)
    → decision id w.tables ≡ some "satisfied"
    → decision id (consume env id w).tables ≡ some "pending"
unfolding consume Kept
consume-pending env id w free was =
    let f = env.links.faults in
    let w1 = (call f (clear_gate id "decision") w).1 in
    let (rows, beads) =
      clear_gate-Sets id "decision" w.tables (clear_gate id "decision" w.tables).1 tt
        (unfold clear_gate in refl) in
    let cleared : decision id w1.tables ≡ some "pending" =
      ap (λ (t : Tables). decision id t) (call-run f (clear_gate id "decision") w (free w.calls))
      ∙ rows id "decision"
      ∙ ground (arith, eq_refl id, to_pending-satisfied (decision id w.tables) was) in
    merge_bead_fields-Kept env id (some "pending") (("gate_satisfied_by", null) ∷ []) w1 cleared

pub Through-pending :
    (env : Env) (id : String) (w w' : World)
    → ((i : ℕ) → env.links.faults i ≡ none)
    → Through env id w w'
    → decision id w'.tables ≡ some "pending"
unfolding Through
Through-pending env id w w' free (w1, u, was, allowed, end) =
    let read =
      get_bead-Kept env id (some "satisfied") w1
        (unfold Kept in satisfied-some (decision id w1.tables) was) in
    ap (λ (v : World). decision id v.tables) end
    ∙ consume-pending env id (get_bead env id w1).1 free (unfold Kept in read)
