-- ===== src/Prelude/Decimal.antt =====
-- fmt.Sprintf("%d", n) and strconv.Atoi on 64-bit integers.
use Prim.Native.Nat.{ℕ, zero, suc, ◌+◌, ◌-◌, ◌*◌, ◌/◌, ◌%◌, ◌^◌, ◌≤◌, ◌<◌}
use Prim.Native.Char.{Char, code}
use Prim.Native.String.{String}
use mathlib.Core.Path.{◌≡◌, refl, ap, ◌∙◌}
use mathlib.Core.Logic.{inl, inr, ◌≢◌}
use mathlib.Core.Bool.{Bool, true, false}
use mathlib.Core.Option.{Option, none, some}
use native.Mathlib.Omega.{arith}
use kbeads.Prelude.Tests.{ltb, if◌then◌else◌, Bool-cases}
use kbeads.Prelude.Text.{is_char, is_digit}
use kbeads.Prelude.Int.{ℤ, pos, negsuc}

abbrev digit : ℕ → Char
digit zero = "0"
digit (suc zero) = "1"
digit (suc (suc zero)) = "2"
digit (suc (suc (suc zero))) = "3"
digit (suc (suc (suc (suc zero)))) = "4"
digit (suc (suc (suc (suc (suc zero))))) = "5"
digit (suc (suc (suc (suc (suc (suc zero)))))) = "6"
digit (suc (suc (suc (suc (suc (suc (suc zero))))))) = "7"
digit (suc (suc (suc (suc (suc (suc (suc (suc zero)))))))) = "8"
digit n = "9"

-- The digits of a number in front of a text; the fuel bounds how many.
abbrev print_fuel : ℕ → ℕ → String → String
print_fuel zero n s = s
print_fuel (suc f) n s =
    let rest = print_fuel f (n / 10) (String.◌∷◌ (digit (n % 10)) s) in
    if ltb n 10 then String.◌∷◌ (digit n) s else rest

abbrev print : ℕ → String
print n = print_fuel (suc n) n ""

unfoldable pub read_from : ℕ → String → Option ℕ
read_from acc String.[] = some acc
read_from acc (String.◌∷◌ c s) =
    let rest = read_from (acc * 10 + (code c - 48)) s in if is_digit c then rest else none

code-digit : (n : ℕ) → n < 10 → code (digit n) ≡ 48 + n
code-digit zero h = refl
code-digit (suc zero) h = refl
code-digit (suc (suc zero)) h = refl
code-digit (suc (suc (suc zero))) h = refl
code-digit (suc (suc (suc (suc zero)))) h = refl
code-digit (suc (suc (suc (suc (suc zero))))) h = refl
code-digit (suc (suc (suc (suc (suc (suc zero)))))) h = refl
code-digit (suc (suc (suc (suc (suc (suc (suc zero))))))) h = refl
code-digit (suc (suc (suc (suc (suc (suc (suc (suc zero)))))))) h = refl
code-digit (suc (suc (suc (suc (suc (suc (suc (suc (suc zero))))))))) h = refl
code-digit (suc (suc (suc (suc (suc (suc (suc (suc (suc (suc n)))))))))) h = omega (arith, h)

read-digit :
    (acc n : ℕ) (s : String)
    → n < 10
    → read_from acc (String.◌∷◌ (digit n) s) ≡ read_from (acc * 10 + n) s
unfolding read_from
read-digit acc n s h =
    let c = code-digit n h in
    let y : is_digit (digit n) ≡ true = rw c (ground (arith, h)) in
    let back : acc * 10 + (code (digit n) - 48) ≡ acc * 10 + n = omega (arith, c) in
    rw (y, back) refl

read-one :
    (f n : ℕ) (s : String) → ltb n 10 ≡ true → read_from 0 (print_fuel (suc f) n s) ≡ read_from n s
read-one f n s y =
    let same : 0 * 10 + n ≡ n = omega arith in
    rw y (read-digit 0 n s (ground (arith, y)) ∙ ap (λ x. read_from x s) same)

read-print : (f n : ℕ) (s : String) → n ≤ f → read_from 0 (print_fuel (suc f) n s) ≡ read_from n s
read-print zero n s h = read-one 0 n s (ground (arith, h))
read-print (suc f) n s h = elim (Bool-cases (ltb n 10)) [
  | inl y ↦ read-one (suc f) n s y
  | inr m ↦
      let big : 10 ≤ n = ground (arith, m) in
      let fewer : n / 10 ≤ f = omega (arith, h, big) in
      let low : n % 10 < 10 = omega arith in
      let whole : n / 10 * 10 + n % 10 ≡ n = omega arith in
      rw m (
        read-print f (n / 10) (String.◌∷◌ (digit (n % 10)) s) fewer
        ∙ (read-digit (n / 10) (n % 10) s low ∙ ap (λ x. read_from x s) whole))
]

-- The text starts with a digit, so with no sign.
abbrev starts : String → Bool
starts String.[] = false
starts (String.◌∷◌ c s) = is_digit c

starts-digit : (n : ℕ) → n < 10 → is_digit (digit n) ≡ true
starts-digit n h = let c = code-digit n h in rw c (ground (arith, h))

print-starts : (f n : ℕ) (s : String) → n ≤ f → starts (print_fuel (suc f) n s) ≡ true
print-starts zero n s h =
    let y : ltb n 10 ≡ true = ground (arith, h) in rw y (starts-digit n (ground (arith, h)))
print-starts (suc f) n s h = elim (Bool-cases (ltb n 10)) [
  | inl y ↦ rw y (starts-digit n (ground (arith, y)))
  | inr m ↦
      let big : 10 ≤ n = ground (arith, m) in
      rw m (print-starts f (n / 10) (String.◌∷◌ (digit (n % 10)) s) (omega (arith, h, big)))
]

-- fmt.Sprintf("%d", n)
abbrev pub format : ℤ → String
format (pos n) = print n
format (negsuc n) = String.◌∷◌ "-" (print (suc n))

abbrev positive : Option ℕ → Option ℤ
positive none = none
positive (some n) = if ltb n (2 ^ 63) then some (pos n) else none

abbrev negative : Option ℕ → Option ℤ
negative none = none
negative (some zero) = some (pos 0)
negative (some (suc n)) = if ltb n (2 ^ 63) then some (negsuc n) else none

abbrev read : String → Option ℕ
read String.[] = none
read (String.◌∷◌ c s) = read_from 0 (String.◌∷◌ c s)

-- strconv.Atoi(s): an optional sign, digits, and a value that fits into 64 bits.
unfoldable pub atoi : String → Option ℤ
unfolding read_from
atoi String.[] = none
atoi (String.◌∷◌ c s) =
    if is_char b'-' c
    then negative (read s)
    else if is_char b'+' c
    then positive (read s)
    else positive (read (String.◌∷◌ c s))

-- The range of int.
abbrev pub IsInt : ℤ → Type 0
IsInt (pos n) = n < 2 ^ 63
IsInt (negsuc n) = n < 2 ^ 63

unsigned : (s : String) → starts s ≡ true → atoi s ≡ positive (read_from 0 s)
unfolding atoi
unsigned String.[] h = cc
unsigned (String.◌∷◌ c s) h =
    let (m, p) : (is_char b'-' c ≡ false) × (is_char b'+' c ≡ false) = ground (arith, h) in
    rw (m, p) refl

signed : (s : String) → starts s ≡ true → atoi (String.◌∷◌ "-" s) ≡ negative (read_from 0 s)
unfolding atoi
signed String.[] h = cc
signed (String.◌∷◌ c s) h = refl

read-back : (n : ℕ) → read_from 0 (print n) ≡ some n
unfolding read_from
read-back n = read-print n n "" (omega arith)

pub atoi-format : (n : ℤ) → IsInt n → atoi (format n) ≡ some n
atoi-format (pos n) h =
    let fits : ltb n (2 ^ 63) ≡ true = ground (arith, h) in
    unsigned (print n) (print-starts n n "" (omega arith)) ∙ rw (read-back n, fits) refl
atoi-format (negsuc n) h =
    let fits : ltb n (2 ^ 63) ≡ true = ground (arith, h) in
    signed (print (suc n)) (print-starts (suc n) (suc n) "" (omega arith))
    ∙ rw (read-back (suc n), fits) refl

started-named : (s : String) → starts s ≡ true → s ≢ ""
started-named s h e = let t = ap starts e in cc

pub format-named : (n : ℤ) → format n ≢ ""
format-named (pos n) e = started-named (print n) (print-starts n n "" (omega arith)) e
format-named (negsuc n) e = cc
