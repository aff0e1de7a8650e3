-- ===== src/Server/Persisting.antt =====
-- The transaction of createBead: the row and the labels of the new bead, or nothing.
use kbeads.Prelude.{
  String, ◌&&◌, ◌||◌, List, [], ◌∷◌, Option, none, some, mem, ◌==◌, if◌then◌else◌, ◌≡◌, inl, inr,
  refl, sym, ap, ◌∙◌, arith, subst, Bool-cases,
}
use kbeads.Prelude.Dict
use kbeads.Prelude.Dict.{get-put}
use kbeads.Model.Bead.{Bead}
use kbeads.Server.Store.{
  ok, fail, Error, Tables, row_of, has_label, query_create_bead, query_add_label, insert_row,
}
use kbeads.Server.Actions.{
  World, continue-ok, continue-fail, wrap_answer, wrap_answer-ok, call, call-ok, run_in_transaction,
  run_in_transaction-ok, run_in_transaction-fail,
}
use kbeads.Server.Notify.{
  data_of, record_and_publish, record_and_publish-data, bead_created, advice_created,
}
use kbeads.Server.Labels.{add_label-labels}
use kbeads.Server.Beads.{Env, add_labels, insert_bead, announce_created, persist}

-- The tables after `labels` were put on a bead.
abbrev LabelsAdded : String → List String → Tables → Tables → Type 0
LabelsAdded id ls t t' =
    ((i x : String) → has_label i x t'.labels ≡ (has_label i x t.labels || (i == id && mem x ls)))
    × (t'.beads ≡ t.beads)

add_labels-LabelsAdded :
    (env : Env) (id : String) (ls : List String) (w w' : World) (u : Unit)
    → add_labels env id ls w ≡ (ok u, w')
    → LabelsAdded id ls w.tables w'.tables
unfolding add_labels
add_labels-LabelsAdded env id [] w w' u h =
    let e : w ≡ w' = cc in
    (
      λ i x. ap (λ (v : World). has_label i x v.tables.labels) (sym e) ∙ ground arith,
      ap (λ (v : World). v.tables.beads) (sym e),
    )
add_labels-LabelsAdded env id (l ∷ ls) w w' u h =
    let first =
      wrap_answer "failed to add label" (call env.links.faults (query_add_label id l) w) in
    let (v, w1, one, rest) = continue-ok (λ (v : Unit). add_labels env id ls) first u w' h in
    let added = add_label-labels id l w.tables w1.tables v (
      call-ok env.links.faults (query_add_label id l) w v w1 (
        wrap_answer-ok "failed to add label" (call env.links.faults (query_add_label id l) w) v w1
          one)) in
    let more = add_labels-LabelsAdded env id ls w1 w' u rest in
    (λ i x. ground (arith, added.0 i x, more.0 i x), more.1 ∙ added.1)

insert_row-put :
    (o : Option Bead) (b : Bead) (t t' : Tables) (u : Unit)
    → insert_row o b t ≡ (ok u, t')
    → (o ≡ none) × (t' ≡ record t { beads = Dict.put b.id (row_of b) t.beads })
insert_row-put (some old) b t t' u h = cc
insert_row-put none b t t' u h = (refl, cc)

create_bead_query_lem :
    (b : Bead) (t t' : Tables) (u : Unit)
    → query_create_bead b t ≡ (ok u, t')
    → (Dict.get b.id t.beads ≡ none) × (t' ≡ record t { beads = Dict.put b.id (row_of b) t.beads })
unfolding query_create_bead
create_bead_query_lem b t t' u h = insert_row-put (Dict.get b.id t.beads) b t t' u h

insert_bead_lem :
    (env : Env) (b : Bead) (w w' : World) (u : Unit)
    → insert_bead env b w ≡ (ok u, w')
    → (Dict.get b.id w.tables.beads ≡ none)
      × (w'.tables.beads ≡ Dict.put b.id (row_of b) w.tables.beads)
      × ((i x : String)
          → has_label i x w'.tables.labels
            ≡ (has_label i x w.tables.labels || (i == b.id && mem x b.labels)))
insert_bead_lem env b w w' u h =
    let query = call env.links.faults (query_create_bead b) w in
    let (v, w1, one, rest) =
      continue-ok (λ (v : Unit). add_labels env b.id b.labels)
        (wrap_answer "failed to create bead" query) u w' h in
    let done =
      call-ok env.links.faults (query_create_bead b) w v w1
        (wrap_answer-ok "failed to create bead" query v w1 one) in
    let (missing, tables) = create_bead_query_lem b w.tables w1.tables v done in
    let (labels, beads) = add_labels-LabelsAdded env b.id b.labels w1 w' u rest in
    (
      missing,
      beads ∙ ap (λ (t : Tables). t.beads) tables,
      λ i x.
          labels i x
          ∙ ap (λ (t : Tables). has_label i x t.labels || (i == b.id && mem x b.labels)) tables,
    )

announce_created-data :
    (env : Env) (b : Bead) (w : World)
    → data_of (announce_created env b w).tables ≡ data_of w.tables
announce_created-data env b w =
    let w1 =
      record_and_publish env.links "beads.bead.created" b.id b.created_by (bead_created b) w in
    let first =
      record_and_publish-data env.links "beads.bead.created" b.id b.created_by (bead_created b) w in
    elim (Bool-cases (b.bead_type == "advice")) [
      | inl y ↦ rw y (
          record_and_publish-data env.links "beads.advice.created" b.id b.created_by
            (advice_created b) w1
          ∙ first)
      | inr n ↦ rw n first
    ]

abbrev pub Persisted : World → World → Bead → Type 0
Persisted w w' b =
    (Dict.get b.id w.tables.beads ≡ none)
    × ((i : String)
        → Dict.get i w'.tables.beads
          ≡ (if b.id == i then some (row_of b) else Dict.get i w.tables.beads))
    × ((i x : String)
        → has_label i x w'.tables.labels
          ≡ (has_label i x w.tables.labels || (i == b.id && mem x b.labels)))

pub persist_lem :
    (env : Env) (bead : Bead) (w : World) (b : Bead) (w' : World)
    → persist env bead w ≡ (ok b, w')
    → (bead ≡ b) × Persisted w w' b
persist_lem env bead w b w' h =
    let body = run_in_transaction env.links.faults (insert_bead env bead) w in
    let (u, w1, ran, rest) =
      continue-ok (λ u v. (ok bead, announce_created env bead v)) body b w' h in
    let (v1, v2, begun, inserted, end) =
      run_in_transaction-ok env.links.faults (insert_bead env bead) w u w1 ran in
    let (missing, beads, labels) = insert_bead_lem env bead v1 v2 u inserted in
    let same : bead ≡ b = cc in
    let after : announce_created env bead w1 ≡ w' = cc in
    let kept : data_of w'.tables ≡ data_of v2.tables =
      ap (λ (v : World). data_of v.tables) (sym after)
      ∙ announce_created-data env bead w1
      ∙ ap data_of end in
    let row : (i : String)
        → Dict.get i w'.tables.beads
          ≡ (if bead.id == i then some (row_of bead) else Dict.get i w.tables.beads) =
      λ i.
        ap (λ (t : Tables). Dict.get i t.beads) kept
        ∙ ap (Dict.get i) beads
        ∙ get-put bead.id i (row_of bead) v1.tables.beads
        ∙ ap (λ (t : Tables). if bead.id == i then some (row_of bead) else Dict.get i t.beads)
            begun in
    let labelled : (i x : String)
        → has_label i x w'.tables.labels
          ≡ (has_label i x w.tables.labels || (i == bead.id && mem x bead.labels)) =
      λ i x.
        ap (λ (t : Tables). has_label i x t.labels) kept
        ∙ labels i x
        ∙ ap (λ (t : Tables). has_label i x t.labels || (i == bead.id && mem x bead.labels))
            begun in
    let missing_before : Dict.get bead.id w.tables.beads ≡ none =
      ap (λ (t : Tables). Dict.get bead.id t.beads) (sym begun) ∙ missing in
    (same, subst (Persisted w w') same (missing_before, row, labelled))

pub persist-fail :
    (env : Env) (bead : Bead) (w : World) (e : Error) (w' : World)
    → persist env bead w ≡ (fail e, w')
    → w'.tables ≡ w.tables
persist-fail env bead w e w' h =
    let body = run_in_transaction env.links.faults (insert_bead env bead) w in
    elim (continue-fail (λ u v. (ok bead, announce_created env bead v)) body e w' h) [
      | inl failed ↦ run_in_transaction-fail env.links.faults (insert_bead env bead) w e w' failed
      | inr (u, w1, ran, never) ↦ cc
    ]
