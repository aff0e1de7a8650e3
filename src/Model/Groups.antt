-- ===== src/Model/Groups.antt =====
-- The groups of advice labels (parseGroups of internal/model/advice.go) and the numbers of the labels.
use kbeads.Prelude.{
  ℕ, ◌+◌, String, true, false, List, [], ◌∷◌, ◌++◌, Option, none, some, map, keep, ◌≡◌, ◌≢◌, ◌↔◌,
  inl, inr, refl, sym, ap, ◌∙◌, subst, arith, Elem, append-nil, append_assoc, All, Any, Bool-cases,
  Option-cases, if◌then◌else◌,
}
use kbeads.Prelude.Int.{ℤ, pos, eq_int}
use kbeads.Model.Advice.{Groups, group_of, add_to_group, group_labels, parse_groups}

-- A label with a prefix gN: has the number N and is what stands behind the prefix; of the others the first
-- has the number 1000, the second 1001, and so on.
abbrev pub numbered : ℕ → Option (ℤ × String) → String → (ℕ → List (ℤ × String)) → List (ℤ × String)
numbered next none l rest = (pos next, l) ∷ rest (next + 1)
numbered next (some e) l rest = e ∷ rest next

unfoldable pub keyed : ℕ → List String → List (ℤ × String)
unfolding group_of
keyed next [] = []
keyed next (l ∷ ls) = numbered next (group_of l) l (λ n. keyed n ls)

-- The labels of one number.
abbrev pub of_number : ℤ → List (ℤ × String) → List String
of_number k es = map (λ e. e.1) (keep (λ e. eq_int e.0 k) es)

abbrev lookup : ℤ → Groups → List String
lookup k [] = []
lookup k ((j, ls) ∷ gs) = if eq_int j k then ls else lookup k gs

abbrev only_if : ℤ → ℤ → String → List String
only_if n k l = if eq_int n k then l ∷ [] else []

eq_through : (a b c : ℤ) → eq_int a b ≡ true → eq_int a c ≡ eq_int b c
eq_through a b c h = ground arith

eq_sym : (a b : ℤ) → eq_int a b ≡ false → eq_int b a ≡ false
eq_sym a b h = ground arith

eq_apart : (a b c : ℤ) → eq_int a b ≡ false → eq_int a c ≡ true → eq_int b c ≡ false
eq_apart a b c h k = ground arith

eq_self : (a : ℤ) → eq_int a a ≡ true
eq_self a = ground arith

lookup-add_to_group :
    (k n : ℤ) (l : String) (gs : Groups)
    → lookup k (add_to_group n l gs) ≡ lookup k gs ++ only_if n k l
unfolding add_to_group
lookup-add_to_group k n l [] = refl
lookup-add_to_group k n l ((j, ls) ∷ gs) = elim (Bool-cases (eq_int j n)) [
  | inl same ↦ elim (Bool-cases (eq_int j k)) [
    | inl here ↦
        let also : eq_int n k ≡ true = sym (eq_through j n k same) ∙ here in
        rw (same, here, also) refl
    | inr there ↦
        let also : eq_int n k ≡ false = sym (eq_through j n k same) ∙ there in
        rw (same, there, also) (sym (append-nil (lookup k gs)))
  ]
  | inr apart ↦ elim (Bool-cases (eq_int j k)) [
    | inl here ↦
        let other : eq_int n k ≡ false = eq_apart j n k apart here in
        rw (apart, here, other) (sym (append-nil ls))
    | inr there ↦ rw (apart, there) (lookup-add_to_group k n l gs)
  ]
]

of_number-cons :
    (k : ℤ) (e : ℤ × String) (es : List (ℤ × String))
    → of_number k (e ∷ es) ≡ only_if e.0 k e.1 ++ of_number k es
of_number-cons k e es = elim (Bool-cases (eq_int e.0 k)) [ inl y ↦ rw y refl | inr n ↦ rw n refl ]

grouped :
    (k : ℤ) (gs : Groups) (e : ℤ × String) (es : List (ℤ × String))
    → lookup k (add_to_group e.0 e.1 gs) ++ of_number k es ≡ lookup k gs ++ of_number k (e ∷ es)
grouped k gs e es =
    ap (λ x. x ++ of_number k es) (lookup-add_to_group k e.0 e.1 gs)
    ∙ append_assoc (lookup k gs) (only_if e.0 k e.1) (of_number k es)
    ∙ ap (λ x. lookup k gs ++ x) (sym (of_number-cons k e es))

lookup-group_labels :
    (k : ℤ) (next : ℕ) (gs : Groups) (ls : List String)
    → lookup k (group_labels next gs ls) ≡ lookup k gs ++ of_number k (keyed next ls)
unfolding group_labels keyed
lookup-group_labels k next gs [] = sym (append-nil (lookup k gs))
lookup-group_labels k next gs (l ∷ ls) = elim (Option-cases (group_of l)) [
  | inl n ↦
      rw (n, group_labels, keyed)
        (lookup-group_labels k (next + 1) (add_to_group (pos next) l gs) ls
          ∙ grouped k gs (pos next, l) (keyed (next + 1) ls))
  | inr (e, some_e) ↦
      rw (some_e, group_labels, keyed)
        (lookup-group_labels k next (add_to_group e.0 e.1 gs) ls ∙ grouped k gs e (keyed next ls))
]

-- No two groups have the same number.
abbrev Fresh : ℤ → Groups → Type 0
Fresh j gs = All (λ g. eq_int g.0 j ≡ false) gs

abbrev Separate : Groups → Type 0
Separate [] = Unit
Separate (g ∷ gs) = Fresh g.0 gs × Separate gs

add_to_group-Fresh :
    (j n : ℤ) (l : String) (gs : Groups)
    → eq_int n j ≡ false
    → Fresh j gs
    → Fresh j (add_to_group n l gs)
unfolding add_to_group
add_to_group-Fresh j n l [] apart f = (apart, tt)
add_to_group-Fresh j n l ((i, ls) ∷ gs) apart f = elim (Bool-cases (eq_int i n)) [
  | inl same ↦ rw same f
  | inr other ↦ rw other (f.0, add_to_group-Fresh j n l gs apart f.1)
]

add_to_group-Separate :
    (n : ℤ) (l : String) (gs : Groups) → Separate gs → Separate (add_to_group n l gs)
unfolding add_to_group
add_to_group-Separate n l [] s = (tt, tt)
add_to_group-Separate n l ((i, ls) ∷ gs) s = elim (Bool-cases (eq_int i n)) [
  | inl same ↦ rw same s
  | inr other ↦
      rw other
        (add_to_group-Fresh i n l gs (eq_sym i n other) s.0, add_to_group-Separate n l gs s.1)
]

group_labels-Separate :
    (next : ℕ) (gs : Groups) (ls : List String) → Separate gs → Separate (group_labels next gs ls)
unfolding group_labels
group_labels-Separate next gs [] s = s
group_labels-Separate next gs (l ∷ ls) s = elim (Option-cases (group_of l)) [
  | inl n ↦
      rw (n, group_labels)
        (group_labels-Separate (next + 1) (add_to_group (pos next) l gs) ls
          (add_to_group-Separate (pos next) l gs s))
  | inr (e, some_e) ↦
      rw (some_e, group_labels)
        (group_labels-Separate next (add_to_group e.0 e.1 gs) ls
          (add_to_group-Separate e.0 e.1 gs s))
]

lookup-Fresh : (j k : ℤ) (gs : Groups) → eq_int j k ≡ true → Fresh j gs → lookup k gs ≡ []
lookup-Fresh j k [] same f = refl
lookup-Fresh j k ((i, ls) ∷ gs) same f =
    let apart : eq_int i k ≡ false = ground (arith, f.0) in rw apart (lookup-Fresh j k gs same f.1)

-- All of some labels, and at least one, are among the subscriptions.
abbrev pub AllOf : List String → List String → Type 0
AllOf subs ls = (ls ≢ []) × All (λ l. Elem l subs) ls

group→number :
    (subs : List String) (gs : Groups)
    → Separate gs
    → Any (λ g. AllOf subs g.1) gs
    → (k : ℤ) × AllOf subs (lookup k gs)
group→number subs [] s m = elim m [ ]
group→number subs ((j, ls) ∷ gs) s (inl m) = (j, rw (eq_self j) m)
group→number subs ((j, ls) ∷ gs) s (inr r) =
    let (k, m) = group→number subs gs s.1 r in
    elim (Bool-cases (eq_int j k)) [
      | inl same ↦ absurd (m.0 (lookup-Fresh j k gs same s.0))
      | inr apart ↦ (k, rw apart m)
    ]

number→group :
    (subs : List String) (k : ℤ) (gs : Groups)
    → AllOf subs (lookup k gs)
    → Any (λ g. AllOf subs g.1) gs
number→group subs k [] m = absurd (m.0 refl)
number→group subs k ((j, ls) ∷ gs) m = elim (Bool-cases (eq_int j k)) [
  | inl here ↦ inl (rw here at m)
  | inr there ↦ inr (number→group subs k gs (rw there at m))
]

pub parse_groups_iff :
    (subs labels : List String)
    → Any (λ g. AllOf subs g.1) (parse_groups labels)
      ↔ ((k : ℤ) × AllOf subs (of_number k (keyed 1000 labels)))
unfolding parse_groups
parse_groups_iff subs labels = (
  λ m.
      let (k, all) =
        group→number subs (group_labels 1000 [] labels) (group_labels-Separate 1000 [] labels tt)
          m in
      (k, subst (AllOf subs) (lookup-group_labels k 1000 [] labels) all),
  λ m.
      number→group subs m.0 (group_labels 1000 [] labels)
        (subst (AllOf subs) (sym (lookup-group_labels m.0 1000 [] labels)) m.1),
)
