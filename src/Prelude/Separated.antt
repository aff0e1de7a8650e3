-- ===== src/Prelude/Separated.antt =====
-- strings.Join and strings.Cut at a separator of one character, against strings.Split.
use Prim.Native.Nat.{ℕ}
use Prim.Native.Char.{Char}
use Prim.Native.String.{String}
use mathlib.Core.Path.{◌≡◌, refl, ap, ◌∙◌}
use mathlib.Core.Logic.{◌≢◌}
use mathlib.Core.Bool.{Bool, true, false}
use mathlib.Core.Option.{Option, none, some}
use mathlib.Core.List.{List, [], ◌∷◌}
use native.Mathlib.Omega.{arith}
use kbeads.Prelude.Tests.{if◌then◌else◌}
use kbeads.Prelude.Member.{All}
use kbeads.Prelude.Text.{append, is_char, split}

-- strings.Join(xs, ",")
abbrev pub join : List String → String
join [] = ""
join (x ∷ []) = x
join (x ∷ y ∷ xs) = append x (String.◌∷◌ "," (join (y ∷ xs)))

abbrev with_char : Char → Option (String × String) → Option (String × String)
with_char c none = none
with_char c (some (a, b)) = some (String.◌∷◌ c a, b)

-- strings.Cut(s, "=")
unfoldable pub cut : String → Option (String × String)
cut String.[] = none
cut (String.◌∷◌ c s) = let rest = cut s in if is_char b'=' c then some ("", s) else with_char c rest

-- The character is nowhere in the text.
abbrev pub lacks : ℕ → String → Bool
lacks n String.[] = true
lacks n (String.◌∷◌ c s) = let rest = lacks n s in if is_char n c then false else rest

split-one : (s : String) → lacks b',' s ≡ true → split b',' s ≡ s ∷ []
unfolding split
split-one String.[] h = refl
split-one (String.◌∷◌ c s) h =
    let (n, rest) : (is_char b',' c ≡ false) × (lacks b',' s ≡ true) = ground (arith, h) in
    rw (n, split-one s rest) refl

split-more :
    (s t : String)
    → lacks b',' s ≡ true
    → split b',' (append s (String.◌∷◌ "," t)) ≡ s ∷ split b',' t
unfolding split
split-more String.[] t h = refl
split-more (String.◌∷◌ c s) t h =
    let (n, rest) : (is_char b',' c ≡ false) × (lacks b',' s ≡ true) = ground (arith, h) in
    rw (n, split-more s t rest) refl

-- Splitting gives back the texts that were joined, if none of them has the separator.
pub split-join :
    (x : String) (xs : List String)
    → All (λ s. lacks b',' s ≡ true) (x ∷ xs)
    → split b',' (join (x ∷ xs)) ≡ x ∷ xs
split-join x [] h = split-one x h.0
split-join x (y ∷ xs) h = split-more x (join (y ∷ xs)) h.0 ∙ ap (λ r. x ∷ r) (split-join y xs h.1)

pub cut-append :
    (k v : String) → lacks b'=' k ≡ true → cut (append k (String.◌∷◌ "=" v)) ≡ some (k, v)
unfolding cut
cut-append String.[] v h = refl
cut-append (String.◌∷◌ c k) v h =
    let (n, rest) : (is_char b'=' c ≡ false) × (lacks b'=' k ≡ true) = ground (arith, h) in
    rw (n, cut-append k v rest) refl

-- What is joined of texts that are not empty is not empty.
pub join-named : (x : String) (xs : List String) → x ≢ "" → join (x ∷ xs) ≢ ""
join-named x [] n e = n e
join-named String.[] (y ∷ xs) n e = n refl
join-named (String.◌∷◌ c x) (y ∷ xs) n e = cc
