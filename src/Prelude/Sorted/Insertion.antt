-- ===== src/Prelude/Sorted/Insertion.antt =====
-- A sort that meets the interface of `SortSlice`, for any strict weak order.
use mathlib.Core.Path.{◌≡◌}
use mathlib.Core.Logic.{inl, inr}
use mathlib.Core.Bool.{Bool, true, false}
use mathlib.Core.List.{List, [], ◌∷◌, Perm}
use mathlib.Core.List.Perm
use kbeads.Prelude.Tests.{Bool-cases, if◌then◌else◌}
use kbeads.Prelude.Member.{All}
use kbeads.Prelude.Sorted.{SortedBy, SortSlice}

module _ {A : Type 0} (less : A → A → Bool) where
  unfoldable pub insert : A → List A → List A
  insert x [] = x ∷ []
  insert x (y ∷ ys) = let rest = insert x ys in if less y x then y ∷ rest else x ∷ y ∷ ys

  unfoldable pub insertion_sort : List A → List A
  unfolding insert
  insertion_sort [] = []
  insertion_sort (x ∷ xs) = insert x (insertion_sort xs)

  insert-perm : (x : A) (xs : List A) → Perm (insert x xs) (x ∷ xs)
  unfolding insert
  insert-perm x [] = Perm.refl (x ∷ [])
  insert-perm x (y ∷ ys) = elim (Bool-cases (less y x)) [
    | inl b ↦ rw b (Perm.trans (Perm.cons y (insert-perm x ys)) (Perm.swap x y ys))
    | inr b ↦ rw b (Perm.refl (x ∷ y ∷ ys))
  ]

  pub insertion_sort-perm : (xs : List A) → Perm (insertion_sort xs) xs
  unfolding insertion_sort
  insertion_sort-perm [] = Perm.refl []
  insertion_sort-perm (x ∷ xs) =
      Perm.trans (insert-perm x (insertion_sort xs)) (Perm.cons x (insertion_sort-perm xs))

module _ {A : Type 0} (less : A → A → Bool) (asym : (x y : A) → less x y ≡ true → less y x ≡ false)
    (through : (x y z : A) → less z y ≡ false → less y x ≡ false → less z x ≡ false) where
  All-insert : (P : A → Type 0) (x : A) (xs : List A) → P x → All P xs → All P (insert less x xs)
  unfolding insert
  All-insert P x [] h a = (h, tt)
  All-insert P x (y ∷ ys) h a = elim (Bool-cases (less y x)) [
    | inl b ↦ rw b (a.0, All-insert P x ys h a.1)
    | inr b ↦ rw b (h, (a.0, a.1))
  ]

  All-through :
      (x y : A) (zs : List A)
      → less y x ≡ false
      → All (λ z. less z y ≡ false) zs
      → All (λ z. less z x ≡ false) zs
  All-through x y [] h a = tt
  All-through x y (z ∷ zs) h a = (through x y z a.0 h, All-through x y zs h a.1)

  insert-sorted : (x : A) (xs : List A) → SortedBy less xs → SortedBy less (insert less x xs)
  unfolding insert
  insert-sorted x [] s = (tt, tt)
  insert-sorted x (y ∷ ys) s = elim (Bool-cases (less y x)) [
    | inl b ↦
        rw b (All-insert (λ z. less z y ≡ false) x ys (asym y x b) s.0, insert-sorted x ys s.1)
    | inr b ↦ rw b ((b, All-through x y ys b s.0), s)
  ]

  pub insertion_sort-sorted : (xs : List A) → SortedBy less (insertion_sort less xs)
  unfolding insertion_sort insert
  insertion_sort-sorted [] = tt
  insertion_sort-sorted (x ∷ xs) =
      let ih = insertion_sort-sorted xs in insert-sorted x (insertion_sort less xs) ih

  abbrev pub by_insertion : SortSlice less
  by_insertion = record {
    sort = insertion_sort less;
    permutes = insertion_sort-perm less;
    sorts = insertion_sort-sorted;
  }
