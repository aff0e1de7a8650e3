-- ===== src/Prelude/Member.antt =====
-- Membership by a test on texts (Go's `map[string]bool` and its `contains` loops), and the
-- predicates over lists by recursion, which the tactics take apart.
use Prim.Native.String.{String}
use mathlib.Core.Path.{◌≡◌, refl, sym, ap, subst, ◌∙◌}
use mathlib.Core.Logic.{◌⊎◌, inl, inr, ◌↔◌}
use mathlib.Core.Bool.{Bool, true, false, ◌||◌}
use mathlib.Core.List.{List, [], ◌∷◌, ◌++◌}
use native.Mathlib.Omega.{arith}
use text.Mathlib.Text.{◌==◌}
use text.Mathlib.TextEquality.{eq_iff}
use kbeads.Prelude.Tests.{Bool-cases}
use kbeads.Prelude.Lists.{keep}

-- A predicate of every element, and of some element.
abbrev pub All {ℓ κ} : {A : Type ℓ} → (A → Type κ) → List A → Type κ
All P [] = Unit
All P (x ∷ xs) = P x × All P xs

abbrev pub Any {ℓ} : {A : Type ℓ} → (A → Type 0) → List A → Type 0
Any P [] = ⊥
Any P (x ∷ xs) = P x ⊎ Any P xs

abbrev pub Elem : {A : Type 0} → A → List A → Type 0
Elem a [] = ⊥
Elem a (x ∷ xs) = (a ≡ x) ⊎ Elem a xs

-- The `for ... if x == a { return true }` loop, and the lookup in a set built from the list.
abbrev pub mem : String → List String → Bool
mem a [] = false
mem a (x ∷ xs) = a == x || mem a xs

pub mem→Elem : (a : String) (xs : List String) → mem a xs ≡ true → Elem a xs
mem→Elem a [] h = cc
mem→Elem a (x ∷ xs) h = ground (arith, eq_iff a x, mem→Elem a xs)

pub Elem→mem : (a : String) (xs : List String) → Elem a xs → mem a xs ≡ true
Elem→mem a [] h = elim h [ ]
Elem→mem a (x ∷ xs) (inl e) = ground (arith, eq_iff a x)
Elem→mem a (x ∷ xs) (inr m) = ground (arith, Elem→mem a xs m)

pub mem_iff : (a : String) (xs : List String) → (mem a xs ≡ true) ↔ Elem a xs
mem_iff a xs = (mem→Elem a xs, Elem→mem a xs)

pub not-Elem : (a : String) (xs : List String) → mem a xs ≡ false → ¬ Elem a xs
not-Elem a xs h m = cc (h, Elem→mem a xs m)

module _ {A : Type 0} where
  pub Elem-append_left : (a : A) (xs ys : List A) → Elem a xs → Elem a (xs ++ ys)
  Elem-append_left a (x ∷ xs) ys (inl e) = inl e
  Elem-append_left a (x ∷ xs) ys (inr m) = inr (Elem-append_left a xs ys m)
  Elem-append_left a [] ys h = elim h [ ]

  pub Elem-append_right : (a : A) (xs ys : List A) → Elem a ys → Elem a (xs ++ ys)
  Elem-append_right a [] ys h = h
  Elem-append_right a (x ∷ xs) ys h = inr (Elem-append_right a xs ys h)

  pub Elem-append : (a : A) (xs ys : List A) → Elem a (xs ++ ys) → Elem a xs ⊎ Elem a ys
  Elem-append a [] ys h = inr h
  Elem-append a (x ∷ xs) ys (inl e) = inl (inl e)
  Elem-append a (x ∷ xs) ys (inr m) = elim (Elem-append a xs ys m) [
    | inl l ↦ inl (inr l)
    | inr r ↦ inr r
  ]

  pub All-Elem : (P : A → Type 0) (a : A) (xs : List A) → All P xs → Elem a xs → P a
  All-Elem P a (x ∷ xs) h (inl e) = subst P (sym e) h.0
  All-Elem P a (x ∷ xs) h (inr m) = All-Elem P a xs h.1 m
  All-Elem P a [] h m = elim m [ ]

  pub All-of_Elem : (P : A → Type 0) (xs : List A) → ((a : A) → Elem a xs → P a) → All P xs
  All-of_Elem P [] h = tt
  All-of_Elem P (x ∷ xs) h = (h x (inl refl), All-of_Elem P xs (λ a m. h a (inr m)))

  pub All-append : (P : A → Type 0) (xs ys : List A) → All P xs → All P ys → All P (xs ++ ys)
  All-append P [] ys h k = k
  All-append P (x ∷ xs) ys h k = (h.0, All-append P xs ys h.1 k)

  pub Elem-keep :
      (a : A) (p : A → Bool) (xs : List A) → Elem a (keep p xs) → (p a ≡ true) × Elem a xs
  Elem-keep a p [] h = elim h [ ]
  Elem-keep a p (x ∷ xs) h = elim (Bool-cases (p x)) [
    | inl y ↦
        let found : (a ≡ x) ⊎ Elem a (keep p xs) = rw y at h in
        elim found [
          | inl e ↦ (ap p e ∙ y, inl e)
          | inr m ↦ let (t, k) = Elem-keep a p xs m in (t, inr k)
        ]
    | inr n ↦
        let rest : Elem a (keep p xs) = rw n at h in
        let (t, k) = Elem-keep a p xs rest in (t, inr k)
  ]

  pub Elem-keep_of :
      (a : A) (p : A → Bool) (xs : List A) → p a ≡ true → Elem a xs → Elem a (keep p xs)
  Elem-keep_of a p [] h m = m
  Elem-keep_of a p (x ∷ xs) h (inl e) = let y : p x ≡ true = ap p (sym e) ∙ h in rw y (inl e)
  Elem-keep_of a p (x ∷ xs) h (inr m) = elim (Bool-cases (p x)) [
    | inl y ↦ rw y (inr (Elem-keep_of a p xs h m))
    | inr n ↦ rw n (Elem-keep_of a p xs h m)
  ]
