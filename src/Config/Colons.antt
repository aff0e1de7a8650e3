-- ===== src/Config/Colons.antt =====
-- The namespace of a config is what stands before its colon (internal/server/config.go).
use kbeads.Prelude.{
  String, Bool, true, false, Option, none, some, if◌then◌else◌, inl, inr, ◌≡◌, refl, ap, subst,
  arith, eqb, Bool-cases,
}
use mathlib.Core.Option
use Prim.Native.Char.{Char, code}
use text.Mathlib.TextEquality.{Char-path}
use kbeads.Prelude.Text.{append, is_char, has_prefix}
use kbeads.Config.Rpc.{before_colon}

abbrev pub missing : Option String → Bool
missing none = true
missing (some p) = false

pub missing_none : (o : Option String) → missing o ≡ true → o ≡ none
missing_none none h = refl
missing_none (some p) h = cc

-- The first colon is the only one.
abbrev pub one_colon : String → Bool
unfolding before_colon
one_colon String.[] = true
one_colon (String.◌∷◌ c s) =
    let rest = one_colon s in if is_char b':' c then missing (before_colon s) else rest

without :
    (c : Char) (s p : String)
    → is_char b':' c ≡ false
    → ((q : String) → before_colon s ≡ none → has_prefix s (append q ":") ≡ false)
    → before_colon s ≡ none
    → has_prefix (String.◌∷◌ c s) (append p ":") ≡ false
without c s String.[] n ih h = ground (arith, n)
without c s (String.◌∷◌ d p) n ih h = ground (arith, ih p h)

-- Where a text has a prefix that ends in a colon, it has a colon.
no_colon : (s p : String) → before_colon s ≡ none → has_prefix s (append p ":") ≡ false
unfolding before_colon
no_colon String.[] String.[] h = refl
no_colon String.[] (String.◌∷◌ d p) h = refl
no_colon (String.◌∷◌ c s) p h = elim (Bool-cases (is_char b':' c)) [
  | inl y ↦ let e : ◌≡◌ {A = Option String} (some "") none = rw y at h in cc
  | inr n ↦
      let e : Option.map (String.◌∷◌ c) (before_colon s) ≡ none = rw n at h in
      without c s p n (no_colon s) ((Option.map-eq-none_iff (String.◌∷◌ c) (before_colon s)).0 e)
]

pub before_colon-prefix :
    (s p : String) → before_colon s ≡ some p → has_prefix s (append p ":") ≡ true
unfolding before_colon
before_colon-prefix String.[] p h = cc
before_colon-prefix (String.◌∷◌ c s) p h = elim (Bool-cases (is_char b':' c)) [
  | inl y ↦
      let e : some "" ≡ some p = rw y at h in
      let same : "" ≡ p = ap (λ o. elim o [ none ↦ p | some x ↦ x ]) e in
      subst (λ x. has_prefix (String.◌∷◌ c s) (append x ":") ≡ true) same (ground (arith, y))
  | inr n ↦
      let e : Option.map (String.◌∷◌ c) (before_colon s) ≡ some p = rw n at h in
      let (q, here, same) = (Option.map-eq-some_iff (String.◌∷◌ c) (before_colon s)).0 e in
      subst (λ x. has_prefix (String.◌∷◌ c s) (append x ":") ≡ true) same
        (ground (arith, before_colon-prefix s q here))
]

pub prefix-before_colon :
    (s p : String)
    → one_colon s ≡ true
    → has_prefix s (append p ":") ≡ true
    → before_colon s ≡ some p
unfolding before_colon
prefix-before_colon String.[] String.[] o h = cc
prefix-before_colon String.[] (String.◌∷◌ d p) o h = cc
prefix-before_colon (String.◌∷◌ c s) String.[] o h =
    let y : is_char b':' c ≡ true = ground (arith, h) in rw y refl
prefix-before_colon (String.◌∷◌ c s) (String.◌∷◌ d p) o h =
    let (first, rest) : (eqb (code c) (code d) ≡ true) × (has_prefix s (append p ":") ≡ true) =
      ground (arith, h) in
    let same : c ≡ d = Char-path c d (ground (arith, first)) in
    elim (Bool-cases (is_char b':' c)) [
      | inl y ↦
          let m : missing (before_colon s) ≡ true = rw y at o in
          let none_there = no_colon s p (missing_none (before_colon s) m) in cc
      | inr n ↦
          let m : one_colon s ≡ true = rw n at o in rw n (cc (same, prefix-before_colon s p m rest))
    ]
