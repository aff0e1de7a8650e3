-- ===== src/Model/Matching.antt =====
-- Which advice an agent gets.
use kbeads.Prelude.{
  ℕ, ◌+◌, String, true, false, List, [], ◌∷◌, ◌++◌, none, some, mem→Elem, Elem→mem, ◌≡◌, ◌≢◌, ◌↔◌,
  ◌⊎◌, inl, inr, refl, sym, ap, ◌∙◌, subst, arith, Elem, append-nil, ◌<◌, All, Any, Bool-cases,
  append_assoc,
}
use kbeads.Prelude.Text.{has_prefix}
use kbeads.Prelude.Int.{ℤ, pos, eq_int}
use kbeads.Model.Groups.{AllOf, of_number, keyed, parse_groups_iff}
use kbeads.Model.Advice.{
  Groups, strip_group_prefix, group_of, add_to_group, group_labels, parse_groups, within,
  some_group, must_have, required_ok, matches_subscriptions,
}

-- A label that names a rig or an agent.
abbrev pub IsScoped : String → Type 0
IsScoped l = (has_prefix l "rig:" ≡ true) ⊎ (has_prefix l "agent:" ≡ true)

abbrev pub RequiredMet : List String → String → Type 0
RequiredMet subs l = IsScoped (strip_group_prefix l) → Elem (strip_group_prefix l) subs

must_have_iff : (l : String) → (must_have l ≡ true) ↔ IsScoped l
must_have_iff l = (
  λ h. elim (Bool-cases (has_prefix l "rig:")) [ inl y ↦ inl y | inr n ↦ inr (rw n at h) ],
  λ s. elim s [
    | inl y ↦ rw y refl
    | inr y ↦ elim (Bool-cases (has_prefix l "rig:")) [ inl r ↦ rw r refl | inr n ↦ rw (n, y) refl ]
  ],
)

abbrev pub FullMatch : List String → ℤ × List String → Type 0
FullMatch subs g = (g.1 ≢ []) × All (λ l. Elem l subs) g.1

required_ok→All : (subs ls : List String) → required_ok subs ls ≡ true → All (RequiredMet subs) ls
unfolding required_ok
required_ok→All subs [] h = tt
required_ok→All subs (l ∷ ls) h = (
  λ scoped.
      let must = (must_have_iff (strip_group_prefix l)).1 scoped in
      mem→Elem (strip_group_prefix l) subs (ground arith),
  required_ok→All subs ls (ground arith),
)

All→required_ok : (subs ls : List String) → All (RequiredMet subs) ls → required_ok subs ls ≡ true
unfolding required_ok
All→required_ok subs [] a = refl
All→required_ok subs (l ∷ ls) a = elim (Bool-cases (must_have (strip_group_prefix l))) [
  | inl must ↦
      let found =
        Elem→mem (strip_group_prefix l) subs
          (a.0 ((must_have_iff (strip_group_prefix l)).0 must)) in
      ground (arith, found, All→required_ok subs ls a.1)
  | inr free ↦ ground (arith, free, All→required_ok subs ls a.1)
]

within→All : (subs ls : List String) → within subs ls ≡ true → All (λ l. Elem l subs) ls
unfolding within
within→All subs [] h = tt
within→All subs (l ∷ ls) h = (mem→Elem l subs (ground arith), within→All subs ls (ground arith))

All→within : (subs ls : List String) → All (λ l. Elem l subs) ls → within subs ls ≡ true
unfolding within
All→within subs [] a = refl
All→within subs (l ∷ ls) a = rw (Elem→mem l subs a.0) (All→within subs ls a.1)

some_group→FullMatch :
    (subs : List String) (gs : Groups) → some_group subs gs ≡ true → Any (FullMatch subs) gs
unfolding some_group
some_group→FullMatch subs [] h = cc
some_group→FullMatch subs ((n, []) ∷ gs) h = inr (some_group→FullMatch subs gs h)
some_group→FullMatch subs ((n, l ∷ ls) ∷ gs) h = elim (Bool-cases (within subs (l ∷ ls))) [
  | inl y ↦ inl (λ e. cc, within→All subs (l ∷ ls) y)
  | inr o ↦ inr (some_group→FullMatch subs gs (rw o at h))
]

FullMatch→some_group :
    (subs : List String) (gs : Groups) → Any (FullMatch subs) gs → some_group subs gs ≡ true
unfolding some_group
FullMatch→some_group subs [] h = elim h [ ]
FullMatch→some_group subs ((n, []) ∷ gs) (inl m) = absurd (m.0 refl)
FullMatch→some_group subs ((n, []) ∷ gs) (inr r) = FullMatch→some_group subs gs r
FullMatch→some_group subs ((n, l ∷ ls) ∷ gs) (inl m) = rw (All→within subs (l ∷ ls) m.1) refl
FullMatch→some_group subs ((n, l ∷ ls) ∷ gs) (inr r) =
    ground (arith, FullMatch→some_group subs gs r)

-- The same, in the words of parse_groups.
matches_groups_iff :
    (labels subs : List String)
    → (matches_subscriptions labels subs ≡ true)
      ↔ (All (RequiredMet subs) labels × Any (FullMatch subs) (parse_groups labels))
unfolding matches_subscriptions
matches_groups_iff labels subs = (
  λ h. (
    required_ok→All subs labels (ground arith),
    some_group→FullMatch subs (parse_groups labels) (ground arith),
  ),
  λ m.
      ground (
        arith,
        All→required_ok subs labels m.0,
        FullMatch→some_group subs (parse_groups labels) m.1,
      ),
)

pub matches_subscriptions_iff :
    (labels subs : List String)
    → (matches_subscriptions labels subs ≡ true)
      ↔ (All (RequiredMet subs) labels × ((k : ℤ) × AllOf subs (of_number k (keyed 1000 labels))))
matches_subscriptions_iff labels subs =
    let (to, from) = matches_groups_iff labels subs in
    let (into, back) = parse_groups_iff subs labels in
    (λ h. (let (req, full) = to h in (req, into full)), λ m. from (m.0, back m.1))

add_fresh :
    (n : ℤ) (l : String) (gs : Groups)
    → All (λ g. eq_int g.0 n ≡ false) gs
    → add_to_group n l gs ≡ gs ++ (n, l ∷ []) ∷ []
unfolding add_to_group
add_fresh n l [] a = refl
add_fresh n l ((k, ls) ∷ gs) a = rw a.0 (ap (◌∷◌ (k, ls)) (add_fresh n l gs a.1))

abbrev in_turn : ℕ → List String → Groups
in_turn n [] = []
in_turn n (l ∷ ls) = (pos n, l ∷ []) ∷ in_turn (n + 1) ls

abbrev Below : ℕ → ℤ × List String → Type 0
Below n g = (k : ℕ) × (g.0 ≡ pos k) × (k < n)

Below-fresh : (n : ℕ) (gs : Groups) → All (Below n) gs → All (λ g. eq_int g.0 (pos n) ≡ false) gs
Below-fresh n [] a = tt
Below-fresh n (g ∷ gs) a = let (k, e, lt) = a.0 in (rw e (ground arith), Below-fresh n gs a.1)

Below-next :
    (n : ℕ) (l : String) (gs : Groups)
    → All (Below n) gs
    → All (Below (n + 1)) (gs ++ (pos n, l ∷ []) ∷ [])
Below-next n l [] a = ((n, refl, omega arith), tt)
Below-next n l (g ∷ gs) a = let (k, e, lt) = a.0 in ((k, e, omega arith), Below-next n l gs a.1)

pub group_labels_free :
    (n : ℕ) (gs : Groups) (l : String) (ls : List String)
    → group_of l ≡ none
    → group_labels n gs (l ∷ ls) ≡ group_labels (n + 1) (add_to_group (pos n) l gs) ls
unfolding group_labels
group_labels_free n gs l ls e = rw (e, group_labels) refl

pub prefixed_step :
    (n : ℕ) (gs : Groups) (l : String) (ls : List String) (k : ℤ) (rest : String)
    → group_of l ≡ some (k, rest)
    → group_labels n gs (l ∷ ls) ≡ group_labels n (add_to_group k rest gs) ls
unfolding group_labels
prefixed_step n gs l ls k rest e = rw (e, group_labels) refl

group_labels-in_turn :
    (n : ℕ) (gs : Groups) (ls : List String)
    → All (Below n) gs
    → All (λ l. group_of l ≡ none) ls
    → group_labels n gs ls ≡ gs ++ in_turn n ls
group_labels-in_turn n gs [] below free = unfold group_labels in sym (append-nil gs)
group_labels-in_turn n gs (l ∷ ls) below free =
    group_labels_free n gs l ls free.0
    ∙ ap (λ x. group_labels (n + 1) x ls) (add_fresh (pos n) l gs (Below-fresh n gs below))
    ∙ group_labels-in_turn (n + 1) (gs ++ (pos n, l ∷ []) ∷ []) ls (Below-next n l gs below) free.1
    ∙ append_assoc gs ((pos n, l ∷ []) ∷ []) (in_turn (n + 1) ls)

in_turn-FullMatch :
    (subs : List String) (n : ℕ) (ls : List String)
    → Any (FullMatch subs) (in_turn n ls) ↔ Any (λ l. Elem l subs) ls
in_turn-FullMatch subs n [] = (λ h. h, λ h. h)
in_turn-FullMatch subs n (l ∷ ls) =
    let (to, from) = in_turn-FullMatch subs (n + 1) ls in
    (
      λ h. elim h [ inl m ↦ inl m.1.0 | inr r ↦ inr (to r) ],
      λ h. elim h [ inl m ↦ inl (λ e. cc, (m, tt)) | inr r ↦ inr (from r) ],
    )

-- Advice whose labels have no group prefix is delivered exactly when its rig and agent labels are
-- all among the subscriptions and at least one of its labels is: each label is a group of its own.
unprefixed_labels_or :
    (labels subs : List String)
    → All (λ l. group_of l ≡ none) labels
    → (matches_subscriptions labels subs ≡ true)
      ↔ (All (RequiredMet subs) labels × Any (λ l. Elem l subs) labels)
unprefixed_labels_or labels subs free =
    let (to, from) = matches_groups_iff labels subs in
    let (fwd, back) = in_turn-FullMatch subs 1000 labels in
    let groups : parse_groups labels ≡ in_turn 1000 labels =
      unfold parse_groups in group_labels-in_turn 1000 [] labels tt free in
    (
      λ h. let (req, full) = to h in (req, fwd (subst (Any (FullMatch subs)) groups full)),
      λ m. from (m.0, subst (Any (FullMatch subs)) (sym groups) (back m.1)),
    )
