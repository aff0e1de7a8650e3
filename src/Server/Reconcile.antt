-- ===== src/Server/Reconcile.antt =====
-- reconcileLabels of internal/server/beads.go, and the labels that it leaves.
use kbeads.Prelude.{
  String, Bool, true, false, not, ◌&&◌, ◌||◌, List, [], ◌∷◌, mem, ◌==◌, eq_iff, ◌≡◌, sym, ap, ◌∙◌,
  arith, if◌then◌else◌, Bool-cases, inl, inr,
}
use kbeads.Server.Store.{
  ok, Tables, has_label, labels_of, query_add_label, query_remove_label, query_get_labels,
}
use kbeads.Server.Actions.{World, Faults, Action, pure, bind, continue-ok, call, call-ok}
use kbeads.Server.Labels.{add_label-labels, remove_label-labels, mem-labels_of}

abbrev pub do_unless : Bool → Action Unit → Action Unit
do_unless true step = pure tt
do_unless false step = step

-- Remove labels that are no longer desired.
unfoldable pub remove_stale : Faults → String → List String → List String → Action Unit
remove_stale faults id new [] = pure tt
remove_stale faults id new (l ∷ ls) =
    let rest = remove_stale faults id new ls in
    bind (do_unless (mem l new) (call faults (query_remove_label id l))) (λ u. rest)

-- Add labels that are new.
unfoldable pub add_missing : Faults → String → List String → List String → Action Unit
add_missing faults id existing [] = pure tt
add_missing faults id existing (l ∷ ls) =
    let rest = add_missing faults id existing ls in
    bind (do_unless (mem l existing) (call faults (query_add_label id l))) (λ u. rest)

unfoldable pub reconcile_labels : Faults → String → List String → Action Unit
unfolding remove_stale add_missing
reconcile_labels faults id new = bind (call faults (query_get_labels id)) (λ existing.
    bind (remove_stale faults id new existing) (λ u. add_missing faults id existing new))

-- A step of the loops: what it did, or nothing where the label stays.
module _ (faults : Faults) (id : String) where
  abbrev Removed : (String → Bool) → Tables → Tables → Type 0
  Removed gone t t' =
      ((i x : String)
        → has_label i x t'.labels ≡ (has_label i x t.labels && not (i == id && gone x)))
      × (t'.beads ≡ t.beads)

  abbrev Added : (String → Bool) → Tables → Tables → Type 0
  Added come t t' =
      ((i x : String) → has_label i x t'.labels ≡ (has_label i x t.labels || (i == id && come x)))
      × (t'.beads ≡ t.beads)

  remove_step :
      (stays : Bool) (l : String) (w w' : World) (u : Unit)
      → do_unless stays (call faults (query_remove_label id l)) w ≡ (ok u, w')
      → Removed (λ x. x == l && not stays) w.tables w'.tables
  remove_step true l w w' u h =
      let e : w ≡ w' = cc in
      (
        λ i x. ap (λ (v : World). has_label i x v.tables.labels) (sym e) ∙ ground arith,
        ap (λ (v : World). v.tables.beads) (sym e),
      )
  remove_step false l w w' u h =
      let (labels, beads) =
        remove_label-labels id l w.tables w'.tables u
          (call-ok faults (query_remove_label id l) w u w' h) in
      (λ i x. ground (arith, labels i x), beads)

  add_step :
      (there : Bool) (l : String) (w w' : World) (u : Unit)
      → do_unless there (call faults (query_add_label id l)) w ≡ (ok u, w')
      → Added (λ x. x == l && not there) w.tables w'.tables
  add_step true l w w' u h =
      let e : w ≡ w' = cc in
      (
        λ i x. ap (λ (v : World). has_label i x v.tables.labels) (sym e) ∙ ground arith,
        ap (λ (v : World). v.tables.beads) (sym e),
      )
  add_step false l w w' u h =
      let (labels, beads) =
        add_label-labels id l w.tables w'.tables u
          (call-ok faults (query_add_label id l) w u w' h) in
      (λ i x. ground (arith, labels i x), beads)

  removed_both :
      (i x l : String) (new ls : List String) (t t1 t' : Tables)
      → has_label i x t1.labels
        ≡ (has_label i x t.labels && not (i == id && (x == l && not (mem l new))))
      → has_label i x t'.labels
        ≡ (has_label i x t1.labels && not (i == id && (mem x ls && not (mem x new))))
      → has_label i x t'.labels
        ≡ (has_label i x t.labels && not (i == id && (mem x (l ∷ ls) && not (mem x new))))
  removed_both i x l new ls t t1 t' first more = elim (Bool-cases (x == l)) [
    | inl y ↦
        let e : x ≡ l = (eq_iff x l).0 y in
        let m : mem x new ≡ mem l new = ap (λ z. mem z new) e in ground (arith, first, more)
    | inr n ↦ ground (arith, first, more)
  ]

  remove_stale-Removed :
      (new ls : List String) (w w' : World) (u : Unit)
      → remove_stale faults id new ls w ≡ (ok u, w')
      → Removed (λ x. mem x ls && not (mem x new)) w.tables w'.tables
  unfolding remove_stale
  remove_stale-Removed new [] w w' u h =
      let e : w ≡ w' = cc in
      (
        λ i x. ap (λ (v : World). has_label i x v.tables.labels) (sym e) ∙ ground arith,
        ap (λ (v : World). v.tables.beads) (sym e),
      )
  remove_stale-Removed new (l ∷ ls) w w' u h =
      let (v, w1, one, rest) =
        continue-ok (λ (v : Unit). remove_stale faults id new ls)
          (do_unless (mem l new) (call faults (query_remove_label id l)) w) u w' h in
      let (first, beads) = remove_step (mem l new) l w w1 v one in
      let (more, same) = remove_stale-Removed new ls w1 w' u rest in
      (
        λ i x. removed_both i x l new ls w.tables w1.tables w'.tables (first i x) (more i x),
        same ∙ beads,
      )

  added_both :
      (i x l : String) (existing ls : List String) (t t1 t' : Tables)
      → has_label i x t1.labels
        ≡ (has_label i x t.labels || (i == id && (x == l && not (mem l existing))))
      → has_label i x t'.labels
        ≡ (has_label i x t1.labels || (i == id && (mem x ls && not (mem x existing))))
      → has_label i x t'.labels
        ≡ (has_label i x t.labels || (i == id && (mem x (l ∷ ls) && not (mem x existing))))
  added_both i x l existing ls t t1 t' first more = elim (Bool-cases (x == l)) [
    | inl y ↦
        let e : x ≡ l = (eq_iff x l).0 y in
        let m : mem x existing ≡ mem l existing = ap (λ z. mem z existing) e in
        ground (arith, first, more)
    | inr n ↦ ground (arith, first, more)
  ]

  add_missing-Added :
      (existing ls : List String) (w w' : World) (u : Unit)
      → add_missing faults id existing ls w ≡ (ok u, w')
      → Added (λ x. mem x ls && not (mem x existing)) w.tables w'.tables
  unfolding add_missing
  add_missing-Added existing [] w w' u h =
      let e : w ≡ w' = cc in
      (
        λ i x. ap (λ (v : World). has_label i x v.tables.labels) (sym e) ∙ ground arith,
        ap (λ (v : World). v.tables.beads) (sym e),
      )
  add_missing-Added existing (l ∷ ls) w w' u h =
      let (v, w1, one, rest) =
        continue-ok (λ (v : Unit). add_missing faults id existing ls)
          (do_unless (mem l existing) (call faults (query_add_label id l)) w) u w' h in
      let (first, beads) = add_step (mem l existing) l w w1 v one in
      let (more, same) = add_missing-Added existing ls w1 w' u rest in
      (
        λ i x. added_both i x l existing ls w.tables w1.tables w'.tables (first i x) (more i x),
        same ∙ beads,
      )

get_labels_lem :
    (id : String) (t t1 : Tables) (existing : List String)
    → query_get_labels id t ≡ (ok existing, t1)
    → (t1 ≡ t) × (labels_of id t.labels ≡ existing)
unfolding query_get_labels
get_labels_lem id t t1 existing h = (cc, cc)

-- Where reconcileLabels succeeds, the labels of its bead are those it was given, as sets, and the
-- labels of other beads and the rows of beads are what they were.
pub reconcile_labels_lem :
    (faults : Faults) (id : String) (new : List String) (w w' : World) (u : Unit)
    → reconcile_labels faults id new w ≡ (ok u, w')
    → ((i x : String)
        → has_label i x w'.tables.labels
          ≡ (if i == id then mem x new else has_label i x w.tables.labels))
      × (w'.tables.beads ≡ w.tables.beads)
unfolding reconcile_labels
reconcile_labels_lem faults id new w w' u h =
    let (existing, w1, read, rest) =
      continue-ok
        (λ (ls : List String) v.
          bind (remove_stale faults id new ls) (λ u. add_missing faults id ls new) v)
        (call faults (query_get_labels id) w) u w' h in
    let (same, listed) =
      get_labels_lem id w.tables w1.tables existing
        (call-ok faults (query_get_labels id) w existing w1 read) in
    let (v, w2, removed, added) =
      continue-ok (λ (u : Unit). add_missing faults id existing new)
        (remove_stale faults id new existing w1) u w' rest in
    let (gone, beads1) = remove_stale-Removed faults id new existing w1 w2 v removed in
    let (come, beads2) = add_missing-Added faults id existing new w2 w' u added in
    (
      λ i x. elim (Bool-cases (i == id)) [
        | inl y ↦
            let e : i ≡ id = (eq_iff i id).0 y in
            let here : mem x existing ≡ has_label i x w1.tables.labels =
              ap (mem x) (sym listed)
              ∙ mem-labels_of id x w.tables.labels
              ∙ ap (λ (t : Tables). has_label id x t.labels) (sym same)
              ∙ ap (λ (z : String). has_label z x w1.tables.labels) (sym e) in
            ground (arith, gone i x, come i x)
        | inr n ↦
            let keeps : has_label i x w1.tables.labels ≡ has_label i x w.tables.labels =
              ap (λ (t : Tables). has_label i x t.labels) same in
            ground (arith, gone i x, come i x)
      ],
      beads2 ∙ beads1 ∙ ap (λ (t : Tables). t.beads) same,
    )
