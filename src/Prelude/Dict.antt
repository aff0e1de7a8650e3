-- ===== src/Prelude/Dict.antt =====
-- Go's `map[string]V` as an association list. The order of the entries stands for the order in
-- which a `range` over the map happens to visit them.
use Prim.Native.String.{String}
use mathlib.Core.Path.{◌≡◌, refl, subst}
use mathlib.Core.Option.{Option, none, some}
use mathlib.Core.List.{List, [], ◌∷◌}
use native.Mathlib.Omega.{arith}
use text.Mathlib.Text.{◌==◌}
use text.Mathlib.TextEquality.{eq_iff}
use kbeads.Prelude.Tests.{Bool-cases, if◌then◌else◌}
use mathlib.Core.Logic.{inl, inr}
use mathlib.Core.Bool.{true, false}

abbrev pub Dict {ℓ} : Type ℓ → Type ℓ
Dict V = List (String × V)

-- The states and keys of a map, for predicates over them.
abbrev pub AllValues {ℓ} : {V : Type ℓ} → (V → Type 0) → Dict V → Type 0
AllValues P [] = Unit
AllValues P ((k, v) ∷ m) = P v × AllValues P m

module _ {ℓ} {V : Type ℓ} where
  -- v, ok := m[k]
  unfoldable pub get : String → Dict V → Option V
  get k [] = none
  get k ((j, v) ∷ m) = if j == k then some v else get k m

  -- m[k] = v
  unfoldable pub put : String → V → Dict V → Dict V
  put k v [] = (k, v) ∷ []
  put k v ((j, w) ∷ m) = if j == k then (k, v) ∷ m else (j, w) ∷ put k v m

  -- delete(m, k)
  unfoldable pub remove : String → Dict V → Dict V
  remove k [] = []
  remove k ((j, w) ∷ m) = let rest = remove k m in if j == k then rest else (j, w) ∷ rest

  pub get-put :
      (k j : String) (v : V) (m : Dict V) → get j (put k v m) ≡ (if k == j then some v else get j m)
  unfolding get put
  get-put k j v [] = refl
  get-put k j v ((i, w) ∷ m) = ground (arith, eq_iff k j, eq_iff i k, eq_iff i j, get-put k j v m)

  pub get-remove :
      (k j : String) (m : Dict V) → get j (remove k m) ≡ (if k == j then none else get j m)
  unfolding get remove
  get-remove k j [] = ground arith
  get-remove k j ((i, w) ∷ m) = ground (arith, eq_iff k j, eq_iff i k, eq_iff i j, get-remove k j m)

-- No key stands twice, as in every Go map.
abbrev pub Distinct {ℓ} : {V : Type ℓ} → Dict V → Type ℓ
Distinct [] = Unit
Distinct ((k, v) ∷ m) = (get k m ≡ none) × Distinct m

module _ {ℓ} {V : Type ℓ} where
  pub put-Distinct : (k : String) (v : V) (m : Dict V) → Distinct m → Distinct (put k v m)
  unfolding get put
  put-Distinct k v [] d = (refl, tt)
  put-Distinct k v ((j, w) ∷ m) d =
      ground (arith, put-Distinct k v m d.1, get-put k j v m, eq_iff j k, eq_iff k j)

  pub remove-Distinct : (k : String) (m : Dict V) → Distinct m → Distinct (remove k m)
  unfolding get remove
  remove-Distinct k [] d = tt
  remove-Distinct k ((j, w) ∷ m) d =
      ground (arith, remove-Distinct k m d.1, get-remove k j m, eq_iff j k, eq_iff k j)

  pub put-AllValues :
      (P : V → Type 0) (k : String) (v : V) (m : Dict V)
      → P v
      → AllValues P m
      → AllValues P (put k v m)
  unfolding put
  put-AllValues P k v [] h a = (h, tt)
  put-AllValues P k v ((j, w) ∷ m) h a =
      elim (j == k) as (λ b. AllValues P (if b then (k, v) ∷ m else (j, w) ∷ put k v m)) [
        | true ↦ (h, a.1)
        | false ↦ (a.0, put-AllValues P k v m h a.1)
      ]

  pub get-AllValues :
      (P : V → Type 0) (k : String) (v : V) (m : Dict V) → AllValues P m → get k m ≡ some v → P v
  unfolding get
  get-AllValues P k v [] a h = cc
  get-AllValues P k v ((j, w) ∷ m) a h = elim (Bool-cases (j == k)) [
    | inl y ↦ let e : w ≡ v = ground (arith, y, h) in subst P e a.0
    | inr n ↦ get-AllValues P k v m a.1 (ground (arith, n, h))
  ]

pub ruleset dict_laws = (get-put, get-remove)
