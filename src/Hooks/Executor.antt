-- ===== src/Hooks/Executor.antt =====
-- The timeout of a hook command, from internal/hooks/executor.go. A time.Duration is an int64 of
-- nanoseconds, and its product wraps around.
use kbeads.Prelude.{
  ℕ, suc, ◌-◌, ◌*◌, ◌%◌, ◌<◌, true, false, ltb, if◌then◌else◌, ◌≡◌, refl, arith, Bool-cases, inl,
  inr,
}
use kbeads.Prelude.Int.{ℤ, pos, negsuc, lt_int}

abbrev pub second : ℕ
second = 1000000000

abbrev pub default_timeout : ℤ
default_timeout = pos 30000000000

abbrev pub max_timeout : ℤ
max_timeout = pos 300000000000

abbrev word : ℕ
word = 18446744073709551616

-- The int64 with the given 64 bits.
unfoldable pub to_int64 : ℕ → ℤ
to_int64 n = if ltb n 9223372036854775808 then pos n else negsuc (word - n - 1)

-- time.Duration(n) * time.Second
unfoldable pub seconds : ℤ → ℤ
unfolding to_int64
seconds (pos n) = to_int64 (n * second % word)
seconds (negsuc n) = to_int64 ((word - (suc n * second % word)) % word)

abbrev or_default : ℤ → ℤ
or_default d = if lt_int (pos 0) d then d else default_timeout

abbrev at_most : ℤ → ℤ
at_most d = if lt_int max_timeout d then max_timeout else d

-- The deadline of the command's context.
unfoldable pub hook_timeout : ℤ → ℤ
unfolding seconds
hook_timeout n = at_most (or_default (seconds n))

at_most-or_default :
    (d : ℤ)
    → (lt_int (pos 0) (at_most (or_default d)) ≡ true)
      × (lt_int max_timeout (at_most (or_default d)) ≡ false)
at_most-or_default d = elim (Bool-cases (lt_int (pos 0) d)) [
  | inl y ↦ elim (Bool-cases (lt_int max_timeout d)) [
    | inl big ↦ rw (y, big) (refl, refl)
    | inr small ↦ rw (y, small) (y, small)
  ]
  | inr n ↦ rw n (refl, refl)
]

-- Every hook command gets a positive time of at most 300 seconds, whatever number stands in the advice,
-- also where the product with the second overflows.
pub hook_timeout_bounds :
    (n : ℤ)
    → (lt_int (pos 0) (hook_timeout n) ≡ true) × (lt_int max_timeout (hook_timeout n) ≡ false)
unfolding hook_timeout
hook_timeout_bounds n = at_most-or_default (seconds n)

seconds-small : (n : ℕ) → n < 9223372037 → seconds (pos n) ≡ pos (n * second)
unfolding seconds to_int64
seconds-small n b =
    let fits : n * second % word ≡ n * second = omega (arith, b) in
    let positive : ltb (n * second) 9223372036854775808 ≡ true = ground (arith, b) in
    rw (fits, positive) refl

-- As far as the product fits an int64, the time is the number of seconds asked for, at most 300, and the
-- default of 30 seconds for 0.
pub hook_timeout_exact :
    (n : ℕ)
    → n < 9223372037
    → hook_timeout (pos n)
      ≡ pos (if ltb 0 n then (if ltb 300 n then 300 else n) * second else 30 * second)
unfolding hook_timeout
hook_timeout_exact n b = rw (seconds-small n b) (ground (arith, b))
