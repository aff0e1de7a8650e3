-- ===== src/Server/Labels.antt =====
-- Rows of the labels table: what inserting and deleting them does to each bead's labels.
use kbeads.Prelude.{
  String, Bool, true, false, not, ◌&&◌, ◌||◌, List, [], ◌∷◌, ◌++◌, Option, none, some, keep, mem,
  ◌==◌, eq_iff, ◌≡◌, inl, inr, refl, sym, ap, ◌∙◌, arith, Bool-cases,
}
use kbeads.Prelude.Dict
use kbeads.Model.Bead.{Bead}
use kbeads.Server.Store.{
  ok, Tables, has_label, labels_of, query_add_label, query_remove_label, with_label, insert_label,
}

has_label-append :
    (i x id l : String) (rows : List (String × String))
    → has_label i x (rows ++ (id, l) ∷ []) ≡ (has_label i x rows || (id == i && l == x))
unfolding has_label
has_label-append i x id l [] = ground arith
has_label-append i x id l ((j, y) ∷ rows) = ground (arith, has_label-append i x id l rows)

kept : String → String → String × String → Bool
kept id l r = not (r.0 == id && r.1 == l)

has_label-keep :
    (i x id l : String) (rows : List (String × String))
    → has_label i x (keep (λ r. not (r.0 == id && r.1 == l)) rows)
      ≡ (has_label i x rows && not (i == id && x == l))
unfolding has_label
has_label-keep i x id l [] = refl
has_label-keep i x id l ((j, y) ∷ rows) = elim (Bool-cases (j == id && y == l)) [
  | inl t ↦ rw t (
      ground (
        arith,
        has_label-keep i x id l rows,
        eq_iff j i,
        eq_iff y x,
        eq_iff j id,
        eq_iff y l,
        eq_iff i id,
        eq_iff x l,
      ))
  | inr n ↦ rw n (
      ground (
        arith,
        has_label-keep i x id l rows,
        eq_iff j i,
        eq_iff y x,
        eq_iff j id,
        eq_iff y l,
        eq_iff i id,
        eq_iff x l,
      ))
]

pub mem-labels_of :
    (id x : String) (rows : List (String × String))
    → mem x (labels_of id rows) ≡ has_label id x rows
unfolding labels_of has_label
mem-labels_of id x [] = refl
mem-labels_of id x ((j, y) ∷ rows) = elim (Bool-cases (j == id)) [
  | inl t ↦ rw t (ground (arith, mem-labels_of id x rows, eq_iff x y, eq_iff y x))
  | inr n ↦ rw n (mem-labels_of id x rows)
]

with_label-labels :
    (present : Bool) (id l : String) (t : Tables) (i x : String)
    → has_label id l t.labels ≡ present
    → has_label i x (with_label present id l t).labels
      ≡ (has_label i x t.labels || (i == id && x == l))
with_label-labels true id l t i x h = elim (Bool-cases (i == id && x == l)) [
  | inl y ↦
      let i_id : i ≡ id = ground (arith, eq_iff i id) in
      let x_l : x ≡ l = ground (arith, eq_iff x l) in
      let there : has_label i x t.labels ≡ true = rw (i_id, x_l) h in ground arith
  | inr n ↦ ground arith
]
with_label-labels false id l t i x h =
    has_label-append i x id l t.labels
    ∙ ap (λ b. has_label i x t.labels || b)
        (ground (arith, eq_iff i id, eq_iff id i, eq_iff x l, eq_iff l x))

-- What an insertion and a deletion leave of every label, and of the beads.
abbrev pub LabelAdded : String → String → Tables → Tables → Type 0
LabelAdded id l t t' =
    ((i x : String) → has_label i x t'.labels ≡ (has_label i x t.labels || (i == id && x == l)))
    × (t'.beads ≡ t.beads)

with_label-beads :
    (present : Bool) (id l : String) (t : Tables) → (with_label present id l t).beads ≡ t.beads
with_label-beads true id l t = refl
with_label-beads false id l t = refl

insert_label-labels :
    (o : Option Bead) (id l : String) (t t' : Tables) (u : Unit)
    → insert_label o id l t ≡ (ok u, t')
    → LabelAdded id l t t'
insert_label-labels none id l t t' u h = cc
insert_label-labels (some b) id l t t' u h =
    let e : with_label (has_label id l t.labels) id l t ≡ t' = cc in
    (
      λ i x.
          ap (λ (s : Tables). has_label i x s.labels) (sym e)
          ∙ with_label-labels (has_label id l t.labels) id l t i x refl,
      ap (λ (s : Tables). s.beads) (sym e) ∙ with_label-beads (has_label id l t.labels) id l t,
    )

pub add_label-labels :
    (id l : String) (t t' : Tables) (u : Unit)
    → query_add_label id l t ≡ (ok u, t')
    → LabelAdded id l t t'
unfolding query_add_label
add_label-labels id l t t' u h = insert_label-labels (Dict.get id t.beads) id l t t' u h

pub remove_label-labels :
    (id l : String) (t t' : Tables) (u : Unit)
    → query_remove_label id l t ≡ (ok u, t')
    → ((i x : String)
        → has_label i x t'.labels ≡ (has_label i x t.labels && not (i == id && x == l)))
      × (t'.beads ≡ t.beads)
unfolding query_remove_label
remove_label-labels id l t t' u h =
    let e : record t { labels = keep (λ r. not (r.0 == id && r.1 == l)) t.labels } ≡ t' = cc in
    (
      λ i x. ap (λ (s : Tables). has_label i x s.labels) (sym e) ∙ has_label-keep i x id l t.labels,
      ap (λ (s : Tables). s.beads) (sym e),
    )
