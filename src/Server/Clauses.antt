-- ===== src/Server/Clauses.antt =====
-- The clauses of queryListBeads (internal/store/postgres/queries.go) that compare with one value or a
-- field, and what they mean, whatever arguments are appended later.
use kbeads.Prelude.{
  ℕ, ◌+◌, ◌-◌, String, Bool, ◌&&◌, List, [], ◌∷◌, ◌++◌, Option, none, some, get_elem?, length, ltb,
  ◌==◌, ◌≡◌, refl, sym, arith, append_assoc, length-append, Bool-cases, inl, inr,
}
use mathlib.Core.Bool.{and_assoc, and-true}
use kbeads.Prelude.Int.{ℤ}
use kbeads.Prelude.Dict.{Dict}
use kbeads.Model.Bead.{Bead}
use kbeads.Server.Store.{Tables, has_label}
use kbeads.Server.Query.{
  Arg, text, number, texts, time, Clause, label_is, updated_since, field_is, Query, Database,
  Binding, add_arg, add_number, add_text, add_texts, add_time, add_labels_each, add_field,
  add_fields, bound, field_equals, holds, all_hold,
}
use kbeads.Server.Filter.{when_number, when_text, when_texts, when_time, every_label, every_field}

get_elem?-append {ℓ} :
    {A : Type ℓ} (xs : List A) (a : A) (ys : List A) → get_elem? (xs ++ a ∷ ys) (length xs) ≡ some a
get_elem?-append [] a ys = refl
get_elem?-append (x ∷ xs) a ys = get_elem?-append xs a ys

-- The argument that a step binds is the one its placeholder reads, whatever follows.
pub bound-new :
    (xs : List Arg) (n : ℕ) (a : Arg) (ys : List Arg)
    → n ≡ length xs
    → bound (xs ++ a ∷ ys) (n + 1) ≡ some a
bound-new xs n a ys e =
    let back : n + 1 - 1 ≡ length xs = omega (arith, e) in rw back (get_elem?-append xs a ys)

module _ (db : Database) (t : Tables) (b : Bead) where
  pub all_hold-append :
      (look : Binding) (cs : List Clause) (c : Clause)
      → all_hold db t b look (cs ++ c ∷ []) ≡ (all_hold db t b look cs && holds db t b look c)
  unfolding all_hold
  all_hold-append look [] c = elim (Bool-cases (holds db t b look c)) [
    | inl y ↦ rw y refl
    | inr n ↦ rw n refl
  ]
  all_hold-append look (d ∷ cs) c =
      let ih = all_hold-append look cs c in
      elim (Bool-cases (holds db t b look d)) [ inl y ↦ rw y ih | inr n ↦ rw n refl ]

  -- The query so far takes the bead exactly if `v`, also once more arguments are appended.
  pub record Means (q : Query) (v : Bool) : Type 0 where
    pub counted : q.arg_idx ≡ length q.args
    pub meant : (more : List Arg) → all_hold db t b (bound (q.args ++ more)) q.clauses ≡ v

  -- A step that appends arguments and one clause adds the clause's condition.
  Means-step :
      (q : Query) (v w : Bool) (new : List Arg) (c : Clause) (n : ℕ)
      → Means q v
      → n ≡ length (q.args ++ new)
      → ((more : List Arg) → holds db t b (bound (q.args ++ (new ++ more))) c ≡ w)
      → Means (record { clauses = q.clauses ++ c ∷ []; args = q.args ++ new; arg_idx = n }) (v && w)
  Means-step q v w new c n m e h = record {
    counted = e;
    meant = λ more.
        rw
          (
            append_assoc q.args new more,
            all_hold-append (bound (q.args ++ (new ++ more))) q.clauses c,
            m.meant (new ++ more),
            h more,
          )
          refl;
  }

  Means-arg :
      (clause : ℕ → Clause) (a : Arg) (q : Query) (v w : Bool)
      → Means q v
      → ((look : Binding) (n : ℕ) → look n ≡ some a → holds db t b look (clause n) ≡ w)
      → Means (add_arg clause a q) (v && w)
  Means-arg clause a q v w m h =
      Means-step q v w (a ∷ []) (clause (q.arg_idx + 1)) (q.arg_idx + 1) m
        (omega (arith, m.counted, length-append q.args (a ∷ [])))
        (λ more.
          h (bound (q.args ++ a ∷ more)) (q.arg_idx + 1)
            (bound-new q.args q.arg_idx a more m.counted))

  pub Means-number :
      (clause : ℕ → Clause) (p : ℤ → Bool) (o : Option ℤ) (q : Query) (v : Bool)
      → Means q v
      → ((x : ℤ) (look : Binding) (n : ℕ)
          → look n ≡ some (number x)
          → holds db t b look (clause n) ≡ p x)
      → Means (add_number clause o q) (v && when_number p o)
  Means-number clause p none q v m h = rw (and-true v) m
  Means-number clause p (some x) q v m h = Means-arg clause (number x) q v (p x) m (h x)

  pub Means-text :
      (clause : ℕ → Clause) (p : String → Bool) (s : String) (q : Query) (v : Bool)
      → Means q v
      → ((look : Binding) (n : ℕ) → look n ≡ some (text s) → holds db t b look (clause n) ≡ p s)
      → Means (add_text clause s q) (v && when_text p s)
  Means-text clause p s q v m h = elim (Bool-cases (s == "")) [
    | inl y ↦ rw (y, and-true v) m
    | inr n ↦ rw n (Means-arg clause (text s) q v (p s) m h)
  ]

  pub Means-texts :
      (clause : ℕ → Clause) (p : List String → Bool) (xs : List String) (q : Query) (v : Bool)
      → Means q v
      → ((look : Binding) (n : ℕ) → look n ≡ some (texts xs) → holds db t b look (clause n) ≡ p xs)
      → Means (add_texts clause xs q) (v && when_texts p xs)
  Means-texts clause p [] q v m h = rw (and-true v) m
  Means-texts clause p (x ∷ xs) q v m h = Means-arg clause (texts (x ∷ xs)) q v (p (x ∷ xs)) m h

  pub Means-time :
      (o : Option ℕ) (q : Query) (v : Bool)
      → Means q v
      → Means (add_time o q) (v && when_time (λ x. ltb x b.updated_at) o)
  unfolding holds
  Means-time none q v m = rw (and-true v) m
  Means-time (some x) q v m =
      Means-arg updated_since (time x) q v (ltb x b.updated_at) m (λ look n e. rw e refl)

  pub Means-labels :
      (ls : List String) (q : Query) (v : Bool)
      → Means q v
      → Means (add_labels_each ls q) (v && every_label b.id t.labels ls)
  unfolding add_labels_each holds
  Means-labels [] q v m = rw (and-true v) m
  Means-labels (l ∷ ls) q v m =
      let here = has_label b.id l t.labels in
      let step = Means-arg label_is (text l) q v here m (λ look n e. rw e refl) in
      rw (sym (and_assoc v here (every_label b.id t.labels ls)))
        (Means-labels ls (add_arg label_is (text l) q) (v && here) step)

  Means-field :
      (k x : String) (q : Query) (v : Bool)
      → Means q v
      → Means (add_field k x q) (v && field_equals db b k x)
  unfolding holds
  Means-field k x q v m =
      let i = q.arg_idx in
      let first = text k in
      let second = text x in
      let size : i + 1 ≡ length (q.args ++ first ∷ []) =
        omega (arith, m.counted, length-append q.args (first ∷ [])) in
      rw (append_assoc q.args (first ∷ []) (second ∷ [])) (
        Means-step q v (field_equals db b k x) (first ∷ second ∷ []) (field_is (i + 1) (i + 1 + 1))
          (i + 1 + 1) m (omega (arith, m.counted, length-append q.args (first ∷ second ∷ [])))
          (λ more.
            rw
              (
                bound-new q.args i first (second ∷ more) m.counted,
                sym (append_assoc q.args (first ∷ []) (second ∷ more)),
                bound-new (q.args ++ first ∷ []) (i + 1) second more size,
              )
              refl))

  pub Means-fields :
      (fs : Dict String) (q : Query) (v : Bool)
      → Means q v
      → Means (add_fields fs q) (v && every_field db b fs)
  unfolding add_fields
  Means-fields [] q v m = rw (and-true v) m
  Means-fields ((k, x) ∷ fs) q v m =
      let here = field_equals db b k x in
      rw (sym (and_assoc v here (every_field db b fs)))
        (Means-fields fs (add_field k x q) (v && here) (Means-field k x q v m))
