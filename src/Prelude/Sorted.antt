-- ===== src/Prelude/Sorted.antt =====
-- `sort.Slice`: any order that its test allows may come back, since the sort is not stable. A
-- program that calls it takes the call as a parameter with what the package documents.
pub mod Insertion
use mathlib.Core.Path.{◌≡◌}
use mathlib.Core.Bool.{Bool, false}
use mathlib.Core.List.{List, [], ◌∷◌, Perm}
use kbeads.Prelude.Member.{All}

-- No later element stands strictly before an earlier one in the order of `less`.
abbrev pub SortedBy {ℓ} : {A : Type ℓ} → (A → A → Bool) → List A → Type 0
SortedBy less [] = Unit
SortedBy less (x ∷ xs) = All (λ y. less y x ≡ false) xs × SortedBy less xs

pub record SortSlice {ℓ} {A : Type ℓ} (less : A → A → Bool) : Type ℓ where
  pub sort : List A → List A
  pub permutes : (xs : List A) → Perm (sort xs) xs
  pub sorts : (xs : List A) → SortedBy less (sort xs)
