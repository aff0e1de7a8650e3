-- ===== src/Formula/TemplateProofs.antt =====
-- That evaluateCondition of cmd/kd/formula_apply.go ends, and what substituteVars leaves of a text.
use Prim.Native.Char.{Char}
use kbeads.Prelude.{
  ℕ, zero, suc, ◌<◌, ◌≤◌, String, Bool, true, false, none, some, not, eq_iff, ◌==◌, ◌≢◌, ◌↔◌, ◌∙◌,
  sym, subst, if◌then◌else◌, ◌≡◌, refl, ap, arith, Bool-cases, inl, inr,
}
use kbeads.Prelude.Text.{
  is_space, has_prefix, drop_prefix, keep_char, trim_left, trim_right, trim_space, rune_count,
}
use kbeads.Prelude.Dict.{Dict}
use kbeads.Formula.Template.{
  evaluate_fuel, evaluate_condition, test_condition, split_at, substitute_vars, has_placeholder,
  is_truthy, unequal_or, equal_or_truthy,
}

trim_left-le : (s : String) → rune_count (trim_left s) ≤ rune_count s
unfolding rune_count trim_left
trim_left-le String.[] = omega arith
trim_left-le (String.◌∷◌ c s) = ground (arith, trim_left-le s)

keep_char-le : (c : Char) (s : String) → rune_count (keep_char c s) ≤ suc (rune_count s)
unfolding rune_count
keep_char-le c String.[] = elim (Bool-cases (is_space c)) [
  | inl y ↦ rw y (omega arith)
  | inr n ↦ rw n (omega arith)
]
keep_char-le c (String.◌∷◌ d s) = omega arith

trim_right-le : (s : String) → rune_count (trim_right s) ≤ rune_count s
unfolding rune_count trim_right
trim_right-le String.[] = omega arith
trim_right-le (String.◌∷◌ c s) = omega (arith, keep_char-le c (trim_right s), trim_right-le s)

trim_space-le : (s : String) → rune_count (trim_space s) ≤ rune_count s
unfolding trim_space
trim_space-le s = omega (arith, trim_right-le (trim_left s), trim_left-le s)

drop_bang-lt :
    (s : String) → has_prefix s "!" ≡ true → rune_count (drop_prefix s "!") < rune_count s
unfolding rune_count
drop_bang-lt String.[] h = cc
drop_bang-lt (String.◌∷◌ c s) h = omega arith

-- Each negation takes a character away, so more fuel than characters gives the same.
evaluate_fuel-enough :
    (n m : ℕ) (cond : String) (vars : Dict String)
    → rune_count cond < n
    → rune_count cond < m
    → evaluate_fuel n cond vars ≡ evaluate_fuel m cond vars
unfolding evaluate_fuel
evaluate_fuel-enough zero m cond vars h k = absurd (omega (arith, h))
evaluate_fuel-enough (suc n) zero cond vars h k = absurd (omega (arith, k))
evaluate_fuel-enough (suc n) (suc m) cond vars h k =
    let c = trim_space cond in
    elim (Bool-cases (has_prefix c "!")) [
      | inl y ↦
          let shorter = drop_bang-lt c y in
          let fits = trim_space-le cond in
          rw y (
            ap not (
              evaluate_fuel-enough n m (drop_prefix c "!") vars (omega (arith, h, shorter, fits))
                (omega (arith, k, shorter, fits))))
      | inr no_bang ↦ rw no_bang refl
    ]

-- The equation of evaluateCondition, without fuel.
evaluate_condition_step :
    (cond : String) (vars : Dict String)
    → evaluate_condition cond vars ≡ (
        if has_prefix (trim_space cond) "!"
        then not (evaluate_condition (drop_prefix (trim_space cond) "!") vars)
        else test_condition (trim_space cond) vars)
unfolding evaluate_condition evaluate_fuel
evaluate_condition_step cond vars =
    let c = trim_space cond in
    elim (Bool-cases (has_prefix c "!")) [
      | inl y ↦
          let shorter = drop_bang-lt c y in
          let fits = trim_space-le cond in
          rw y (
            ap not (
              evaluate_fuel-enough (rune_count cond) (suc (rune_count (drop_prefix c "!")))
                (drop_prefix c "!") vars (omega (arith, shorter, fits)) (omega arith)))
      | inr no_bang ↦ rw no_bang refl
    ]

-- A text counts as true, with the value that it has once the placeholders are replaced: it is not empty;
-- where replacing has changed it, it is not "false" or "0", and otherwise it has no placeholder.
abbrev pub IsTruthy : String → String → Type 0
IsTruthy cond value =
    (value ≢ "")
    × (value ≢ cond → (value ≢ "false") × (value ≢ "0"))
    × (value ≡ cond → has_placeholder cond ≡ false)

is_truthy_iff : (cond value : String) → (is_truthy cond value ≡ true) ↔ IsTruthy cond value
is_truthy_iff cond value = (
  λ h. (
    λ e. ground (arith, eq_iff value "", eq_iff value cond, e),
    λ ne. (
      λ e. ground (arith, eq_iff value "false", eq_iff value cond, e),
      λ e. ground (arith, eq_iff value "0", eq_iff value cond, e),
    ),
    λ e. ground (arith, eq_iff value cond, e),
  ),
  λ t. elim (Bool-cases (value == cond)) [
    | inl y ↦
        let free = t.2 ((eq_iff value cond).0 y) in ground (arith, y, free, t.0, eq_iff value "")
    | inr n ↦
        let differs : value ≢ cond = λ e. ground (arith, n, eq_iff value cond, e) in
        let (not_false, not_zero) = t.1 differs in
        ground (
          arith,
          n,
          t.0,
          not_false,
          not_zero,
          eq_iff value "",
          eq_iff value "false",
          eq_iff value "0",
        )
  ],
)

unequal_iff : (a b : String) → (not (a == b) ≡ true) ↔ (a ≢ b)
unequal_iff a b = (λ h e. ground (arith, eq_iff a b, h, e), λ ne. ground (arith, eq_iff a b, ne))

-- What a condition comes to once spaces are trimmed: with a `!` in front the opposite of the rest; else,
-- where `!=` occurs, whether the text before it, its placeholders replaced, differs from the text behind it;
-- else, where `==` occurs, whether the two are equal; and else whether the text counts as true.
pub record Evaluates (vars : Dict String) (c : String) (result : Bool) : Type 0 where
  pub negated : has_prefix c "!" ≡ true → result ≡ not (evaluate_condition (drop_prefix c "!") vars)
  pub unequal :
      (left right : String)
      → has_prefix c "!" ≡ false
      → split_at "!=" c ≡ some (left, right)
      → (result ≡ true) ↔ (substitute_vars (trim_space left) vars ≢ trim_space right)
  pub equal :
      (left right : String)
      → has_prefix c "!" ≡ false
      → split_at "!=" c ≡ none
      → split_at "==" c ≡ some (left, right)
      → (result ≡ true) ↔ (substitute_vars (trim_space left) vars ≡ trim_space right)
  pub truth :
      has_prefix c "!" ≡ false
      → split_at "!=" c ≡ none
      → split_at "==" c ≡ none
      → (result ≡ true) ↔ IsTruthy c (substitute_vars c vars)

test_condition-unequal :
    (c : String) (vars : Dict String) (left right : String)
    → split_at "!=" c ≡ some (left, right)
    → test_condition c vars ≡ not (substitute_vars (trim_space left) vars == trim_space right)
unfolding test_condition
test_condition-unequal c vars left right e = ap (unequal_or c vars) e

test_condition-equal :
    (c : String) (vars : Dict String) (left right : String)
    → split_at "!=" c ≡ none
    → split_at "==" c ≡ some (left, right)
    → test_condition c vars ≡ (substitute_vars (trim_space left) vars == trim_space right)
unfolding test_condition
test_condition-equal c vars left right n e =
    ap (unequal_or c vars) n ∙ ap (equal_or_truthy c vars) e

test_condition-truthy :
    (c : String) (vars : Dict String)
    → split_at "!=" c ≡ none
    → split_at "==" c ≡ none
    → test_condition c vars ≡ is_truthy c (substitute_vars c vars)
unfolding test_condition
test_condition-truthy c vars n m = ap (unequal_or c vars) n ∙ ap (equal_or_truthy c vars) m

same_iff : {P : Type 0} (a b : Bool) → a ≡ b → (b ≡ true) ↔ P → (a ≡ true) ↔ P
same_iff {P} a b e iff = subst (λ x. (x ≡ true) ↔ P) (sym e) iff

-- evaluateCondition of every text gives a result, which is what Evaluates says of the trimmed text.
pub evaluate_condition_lem :
    (cond : String) (vars : Dict String)
    → Evaluates vars (trim_space cond) (evaluate_condition cond vars)
evaluate_condition_lem cond vars =
    let c = trim_space cond in
    let result = evaluate_condition cond vars in
    let step = evaluate_condition_step cond vars in
    let tested = λ (n : has_prefix c "!" ≡ false). step ∙ cond_no c n in
    record {
      negated = λ y. step ∙ cond_yes c y;
      unequal = λ left right n e.
          same_iff result _ (tested n ∙ test_condition-unequal c vars left right e)
            (unequal_iff (substitute_vars (trim_space left) vars) (trim_space right));
      equal = λ left right n m e.
          same_iff result _ (tested n ∙ test_condition-equal c vars left right m e)
            (eq_iff (substitute_vars (trim_space left) vars) (trim_space right));
      truth = λ n m k.
          same_iff result _ (tested n ∙ test_condition-truthy c vars m k)
            (is_truthy_iff c (substitute_vars c vars));
    }
  where
    cond_no :
        (c : String)
        → has_prefix c "!" ≡ false
        → (if has_prefix c "!"
            then not (evaluate_condition (drop_prefix c "!") vars)
            else test_condition c vars)
          ≡ test_condition c vars
    cond_no c n = rw n refl

    cond_yes :
        (c : String)
        → has_prefix c "!" ≡ true
        → (if has_prefix c "!"
            then not (evaluate_condition (drop_prefix c "!") vars)
            else test_condition c vars)
          ≡ not (evaluate_condition (drop_prefix c "!") vars)
    cond_yes c y = rw y refl
