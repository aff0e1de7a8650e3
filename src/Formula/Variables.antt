-- ===== src/Formula/Variables.antt =====
-- The data of a formula and of its application, and the variables that runFormulaApply of
-- cmd/kd/formula_apply.go ends up with.
use kbeads.Prelude.{
  String, Bool, true, false, ◌||◌, List, [], ◌∷◌, Option, none, some, mem, ◌==◌, if◌then◌else◌, ◌⊎◌,
  inl, inr,
}
use kbeads.Prelude.Int.{ℤ}
use kbeads.Prelude.Dict
use kbeads.Prelude.Dict.{Dict}

pub record FormulaVarDef : Type 0 where
  pub name : String
  pub required : Bool
  pub default_value : String
  pub allowed : List String

pub record FormulaStep : Type 0 where
  pub id : String
  pub title : String
  pub description : String
  pub step_type : String
  pub priority : Option ℤ
  pub labels : List String
  pub depends_on : List String
  pub assignee : String
  pub condition : String
  pub roles : List String

-- The bead of a formula with its decoded fields.
pub record Formula : Type 0 where
  pub title : String
  pub description : String
  pub priority : ℤ
  pub labels : List String
  pub vars : List FormulaVarDef
  pub steps : List FormulaStep
  pub default_roles : List String
  pub assigned_agent : String

pub record FormulaApplyOpts : Type 0 where
  pub formula_id : String
  pub var_pairs : List (String × String)
  pub labels : List String
  pub assignee : String
  pub ephemeral : Bool
  pub actor : String

pub data ApplyError : Type 0 where
  no_steps all_filtered : ApplyError
  missing_variable bad_value : String → ApplyError
  not_created step_failed link_failed : String → ApplyError

abbrev pub Outcome : Type 0 → Type 0
Outcome A = A ⊎ ApplyError

abbrev pub and_then : {A B : Type 0} → Outcome A → (A → Outcome B) → Outcome B
and_then (inl a) f = f a
and_then (inr e) f = inr e

-- A default for a variable that is not given.
abbrev pub defaulted : FormulaVarDef → Option String → Dict String → Outcome (Dict String)
defaulted vd (some v) vars = inl vars
defaulted vd none vars =
    if vd.default_value == ""
    then if vd.required then inr (missing_variable vd.name) else inl vars
    else inl (Dict.put vd.name vd.default_value vars)

abbrev pub value_allowed : FormulaVarDef → Option String → Bool
value_allowed vd none = true
value_allowed vd (some v) = mem v vd.allowed

abbrev pub no_enum : List String → Bool
no_enum [] = true
no_enum (x ∷ xs) = false

abbrev pub enum_checked : FormulaVarDef → Dict String → Outcome (Dict String)
enum_checked vd vars =
    if no_enum vd.allowed || value_allowed vd (Dict.get vd.name vars)
    then inl vars
    else inr (bad_value vd.name)

unfoldable pub apply_vars : List FormulaVarDef → Dict String → Outcome (Dict String)
apply_vars [] vars = inl vars
apply_vars (vd ∷ vds) vars =
    and_then (and_then (defaulted vd (Dict.get vd.name vars) vars) (enum_checked vd))
      (λ vars1. apply_vars vds vars1)

unfoldable pub given_vars : List (String × String) → Dict String → Dict String
given_vars [] vars = vars
given_vars ((k, v) ∷ pairs) vars = given_vars pairs (Dict.put k v vars)
