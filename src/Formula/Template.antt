-- ===== src/Formula/Template.antt =====
-- The placeholders and conditions of a formula: substituteVars and evaluateCondition of
-- cmd/kd/formula_apply.go, with the pattern `\{\{(\w+)\}\}`.
use Prim.Native.Char.{Char, code}
use kbeads.Prelude.{
  ℕ, zero, suc, ◌+◌, String, Bool, true, false, not, ◌&&◌, ◌||◌, Option, none, some, leb, ◌==◌,
  if◌then◌else◌,
}
use kbeads.Prelude.Text.{is_char, is_digit, append, has_prefix, drop_prefix, trim_space, rune_count}
use kbeads.Prelude.Dict
use kbeads.Prelude.Dict.{Dict}

-- \w
abbrev pub is_word : Char → Bool
is_word c =
    is_digit c
    || ((leb b'a' (code c) && leb (code c) b'z')
        || ((leb b'A' (code c) && leb (code c) b'Z') || is_char b'_' c))

abbrev pub push_char : Char → Option String → Option String
push_char c none = none
push_char c (some s) = some (String.◌∷◌ c s)

-- Word characters up to "}}".
unfoldable pub read_name : String → Option String
read_name String.[] = none
read_name (String.◌∷◌ c s) =
    let rest = read_name s in
    if is_word c
    then push_char c rest
    else if has_prefix (String.◌∷◌ c s) "}}"
    then some ""
    else none

abbrev pub named : Option String → Option String
named none = none
named (some name) = if name == "" then none else some name

-- The name of a placeholder at the start of a text.
unfoldable pub placeholder : String → Option String
unfolding read_name
placeholder s = if has_prefix s "{{" then named (read_name (drop_prefix s "{{")) else none

abbrev pub braces : String → String
braces name = append "{{" (append name "}}")

-- vars[name], or the match as it is.
abbrev pub value_or : Option String → String → String
value_or none name = braces name
value_or (some value) name = value

-- The matches from the left: the second argument counts the characters that belong to the last one.
unfoldable pub substitute_from : Dict String → ℕ → String → String
unfolding placeholder
substitute_from vars n String.[] = String.[]
substitute_from vars (suc n) (String.◌∷◌ c s) = substitute_from vars n s
substitute_from vars zero (String.◌∷◌ c s) = elim (placeholder (String.◌∷◌ c s)) [
  | none ↦ String.◌∷◌ c (substitute_from vars 0 s)
  | some name ↦
      append (value_or (Dict.get name vars) name) (substitute_from vars (rune_count name + 3) s)
]

unfoldable pub substitute_vars : String → Dict String → String
unfolding substitute_from
substitute_vars s vars = substitute_from vars 0 s

-- varPattern.MatchString
unfoldable pub has_placeholder : String → Bool
unfolding placeholder
has_placeholder String.[] = false
has_placeholder (String.◌∷◌ c s) = elim (placeholder (String.◌∷◌ c s)) [
  | none ↦ has_placeholder s
  | some name ↦ true
]

abbrev pub first_char : Char → Option (String × String) → Option (String × String)
first_char c none = none
first_char c (some (a, b)) = some (String.◌∷◌ c a, b)

-- strings.SplitN(s, op, 2), when the separator occurs.
unfoldable pub split_at : String → String → Option (String × String)
split_at op String.[] = none
split_at op (String.◌∷◌ c s) =
    let rest = split_at op s in
    if has_prefix (String.◌∷◌ c s) op
    then some ("", drop_prefix (String.◌∷◌ c s) op)
    else first_char c rest

-- A condition without a comparison.
abbrev pub is_truthy : String → String → Bool
is_truthy cond resolved =
    if not (resolved == cond)
    then not (resolved == "") && (not (resolved == "false") && not (resolved == "0"))
    else if has_placeholder cond
    then false
    else not (resolved == "")

abbrev pub compared_by : (Bool → Bool) → Dict String → String × String → Bool
compared_by as_op vars (left, right) =
    as_op (substitute_vars (trim_space left) vars == trim_space right)

abbrev pub equal_or_truthy : String → Dict String → Option (String × String) → Bool
equal_or_truthy cond vars (some parts) = compared_by (λ b. b) vars parts
equal_or_truthy cond vars none = is_truthy cond (substitute_vars cond vars)

abbrev pub unequal_or : String → Dict String → Option (String × String) → Bool
unequal_or cond vars (some parts) = compared_by not vars parts
unequal_or cond vars none = equal_or_truthy cond vars (split_at "==" cond)

-- What evaluateCondition makes of a trimmed condition that does not begin with `!`.
unfoldable pub test_condition : String → Dict String → Bool
unfolding substitute_vars has_placeholder split_at
test_condition cond vars = unequal_or cond vars (split_at "!=" cond)

-- The recursion on what follows a `!`, on fuel.
unfoldable pub evaluate_fuel : ℕ → String → Dict String → Bool
unfolding test_condition
evaluate_fuel zero cond vars = false
evaluate_fuel (suc n) cond vars =
    let c = trim_space cond in
    let inner = evaluate_fuel n (drop_prefix c "!") vars in
    if has_prefix c "!" then not inner else test_condition c vars

-- A condition has at most as many negations as characters.
unfoldable pub evaluate_condition : String → Dict String → Bool
unfolding evaluate_fuel
evaluate_condition cond vars = evaluate_fuel (suc (rune_count cond)) cond vars
