-- ===== src/Server/Soundness.antt =====
-- Soundness of the store: every row of beads is valid and stands under its id, and every row of the
-- other tables refers to beads that exist. Each statement keeps it.
use kbeads.Prelude.{
  ℕ, String, Bool, true, false, List, [], ◌∷◌, Option, none, some, map, keep, ◌==◌, eq_iff, ◌≡◌,
  inl, inr, refl, subst, ◌∙◌, arith, All, Bool-cases,
}
use kbeads.Prelude.Dict
use kbeads.Prelude.Dict.{Dict, get-put, get-remove}
use kbeads.Model.Bead.{Bead}
use kbeads.Model.Validate.{IsValid, is_set}
use kbeads.Server.Store.{
  Tables, row_of, insert_row, updated_row, update_row, query_create_bead, query_update_bead,
}
use kbeads.Server.Close.{closed_row, close_found, closed_row-IsValid, query_close_bead}

abbrev pub Known : Dict Bead → String → Type 0
Known m id = is_set (Dict.get id m) ≡ true

-- The foreign keys of the other tables, against the beads `m`.
abbrev pub Refs : Dict Bead → Tables → Type 0
Refs m t =
    All (λ r. Known m r.0) t.labels
    × All (λ d. Known m d.bead_id × Known m d.depends_on_id) t.deps
    × All (λ c. Known m c.bead_id) t.comments
    × All (λ g. Known m g.agent_bead_id) t.gates

abbrev pub RowsValid : (String → Bool) → Dict Bead → Type 0
RowsValid json_valid m =
    (k : String) (b : Bead) → Dict.get k m ≡ some b → (b.id ≡ k) × IsValid json_valid b

pub record IsSound (json_valid : String → Bool) (t : Tables) : Type 0 where
  pub rows : RowsValid json_valid t.beads
  pub refs : Refs t.beads t

pub All-imp :
    {A : Type 0} (P Q : A → Type 0) (xs : List A) → ((a : A) → P a → Q a) → All P xs → All Q xs
All-imp P Q [] f h = tt
All-imp P Q (x ∷ xs) f h = (f x h.0, All-imp P Q xs f h.1)

pub All-keep :
    {A : Type 0} (P Q : A → Type 0) (p : A → Bool) (xs : List A)
    → ((a : A) → p a ≡ true → P a → Q a)
    → All P xs
    → All Q (keep p xs)
All-keep P Q p [] f h = tt
All-keep P Q p (x ∷ xs) f h = elim (Bool-cases (p x)) [
  | inl y ↦ rw y (f x y h.0, All-keep P Q p xs f h.1)
  | inr n ↦ rw n (All-keep P Q p xs f h.1)
]

pub All-map :
    {A : Type 0} (P : A → Type 0) (f : A → A) (xs : List A)
    → ((a : A) → P a → P (f a))
    → All P xs
    → All P (map f xs)
All-map P f [] h a = tt
All-map P f (x ∷ xs) h a = (h x a.0, All-map P f xs h a.1)

Known-put : (k i : String) (b : Bead) (m : Dict Bead) → Known m i → Known (Dict.put k b m) i
Known-put k i b m h = ground (arith, get-put k i b m)

pub Known-remove :
    (k i : String) (m : Dict Bead) → (i == k) ≡ false → Known m i → Known (Dict.remove k m) i
Known-remove k i m n h = ground (arith, get-remove k i m, eq_iff i k, eq_iff k i)

pub Known-some : (m : Dict Bead) (i : String) (b : Bead) → Dict.get i m ≡ some b → Known m i
Known-some m i b h = ground (arith, h)

Refs-imp :
    (m m' : Dict Bead) (t : Tables) → ((i : String) → Known m i → Known m' i) → Refs m t → Refs m' t
Refs-imp m m' t f (labels, deps, comments, gates) = (
  All-imp (λ r. Known m r.0) (λ r. Known m' r.0) t.labels (λ r h. f r.0 h) labels,
  All-imp (λ d. Known m d.bead_id × Known m d.depends_on_id)
      (λ d. Known m' d.bead_id × Known m' d.depends_on_id) t.deps
      (λ d h. (f d.bead_id h.0, f d.depends_on_id h.1)) deps,
  All-imp (λ c. Known m c.bead_id) (λ c. Known m' c.bead_id) t.comments (λ c h. f c.bead_id h)
      comments,
  All-imp (λ g. Known m g.agent_bead_id) (λ g. Known m' g.agent_bead_id) t.gates
      (λ g h. f g.agent_bead_id h) gates,
)

module _ (json_valid : String → Bool) where
  put-RowsValid :
      (k : String) (b : Bead) (m : Dict Bead)
      → b.id ≡ k
      → IsValid json_valid b
      → RowsValid json_valid m
      → RowsValid json_valid (Dict.put k b m)
  put-RowsValid k b m e v rows j c h = elim (Bool-cases (k == j)) [
    | inl y ↦
        let same : b ≡ c = ground (arith, get-put k j b m) in
        let here : k ≡ j = (eq_iff k j).0 y in
        subst (λ (x : Bead). (x.id ≡ j) × IsValid json_valid x) same (e ∙ here, v)
    | inr n ↦ rows j c (ground (arith, get-put k j b m))
  ]

  -- A row is put in place of another or as a new one.
  pub put-IsSound :
      (k : String) (b : Bead) (t : Tables)
      → b.id ≡ k
      → IsValid json_valid b
      → IsSound json_valid t
      → IsSound json_valid (record t { beads = Dict.put k b t.beads })
  put-IsSound k b t e v s = record {
    rows = put-RowsValid k b t.beads e v s.rows;
    refs = Refs-imp t.beads (Dict.put k b t.beads) t (λ i h. Known-put k i b t.beads h) s.refs;
  }

  row_of-IsValid : (b : Bead) → IsValid json_valid b → IsValid json_valid (row_of b)
  unfolding row_of
  row_of-IsValid b v = record {
    titled = v.titled;
    title_fits = v.title_fits;
    priority_fits = v.priority_fits;
    known_status = v.known_status;
    typed = v.typed;
    known_kind = v.known_kind;
    closing = v.closing;
    fields_json = v.fields_json;
  }

  updated_row-IsValid :
      (now : ℕ) (b old : Bead) → IsValid json_valid b → IsValid json_valid (updated_row now b old)
  unfolding row_of
  updated_row-IsValid now b old v = record {
    titled = v.titled;
    title_fits = v.title_fits;
    priority_fits = v.priority_fits;
    known_status = v.known_status;
    typed = v.typed;
    known_kind = v.known_kind;
    closing = v.closing;
    fields_json = v.fields_json;
  }

  insert_row-IsSound :
      (o : Option Bead) (b : Bead) (t : Tables)
      → IsValid json_valid b
      → IsSound json_valid t
      → IsSound json_valid (insert_row o b t).1
  insert_row-IsSound (some old) b t v s = s
  insert_row-IsSound none b t v s =
      put-IsSound b.id (row_of b) t (unfold row_of in refl) (row_of-IsValid b v) s

  pub create_bead_query-IsSound :
      (b : Bead) (t : Tables)
      → IsValid json_valid b
      → IsSound json_valid t
      → IsSound json_valid (query_create_bead b t).1
  unfolding query_create_bead
  create_bead_query-IsSound b t v s = insert_row-IsSound (Dict.get b.id t.beads) b t v s

  update_row-IsSound :
      (now : ℕ) (o : Option Bead) (b : Bead) (t : Tables)
      → IsValid json_valid b
      → IsSound json_valid t
      → IsSound json_valid (update_row now o b t).1
  update_row-IsSound now none b t v s = s
  update_row-IsSound now (some old) b t v s =
      put-IsSound b.id (updated_row now b old) t (unfold row_of in refl)
        (updated_row-IsValid now b old v) s

  pub update_bead_query-IsSound :
      (now : ℕ) (b : Bead) (t : Tables)
      → IsValid json_valid b
      → IsSound json_valid t
      → IsSound json_valid (query_update_bead now b t).1
  unfolding query_update_bead
  update_bead_query-IsSound now b t v s = update_row-IsSound now (Dict.get b.id t.beads) b t v s

  close_found-IsSound :
      (now : ℕ) (o : Option Bead) (id closed_by : String) (t : Tables)
      → Dict.get id t.beads ≡ o
      → IsSound json_valid t
      → IsSound json_valid (close_found now o id closed_by t).1
  close_found-IsSound now none id closed_by t e s = s
  close_found-IsSound now (some b) id closed_by t e s =
      let (key, valid) = s.rows id b e in
      put-IsSound id (closed_row now closed_by b) t key
        (closed_row-IsValid json_valid now closed_by b valid) s

  pub close_bead_query-IsSound :
      (now : ℕ) (id closed_by : String) (t : Tables)
      → IsSound json_valid t
      → IsSound json_valid (query_close_bead now id closed_by t).1
  unfolding query_close_bead
  close_bead_query-IsSound now id closed_by t s =
      close_found-IsSound now (Dict.get id t.beads) id closed_by t refl s
