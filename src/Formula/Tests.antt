-- ===== src/Formula/Tests.antt =====
-- A formula of three steps, and the theorems on formulas at concrete values.
use kbeads.Prelude.{
  String, Bool, true, false, not, List, [], ◌∷◌, ◌++◌, Option, none, some, length, ◌≡◌, refl, ◌==◌,
  if◌then◌else◌,
}
use kbeads.Prelude.Int.{pos}
use kbeads.Prelude.Text.{has_prefix, drop_prefix, trim_space}
use kbeads.Prelude.Dict.{Dict}
use kbeads.Formula.Template.{substitute_vars, evaluate_condition}
use kbeads.Formula.TemplateProofs.{Evaluates, evaluate_condition_lem}
use kbeads.Formula.Variables.{FormulaStep, Formula, FormulaApplyOpts}
use kbeads.Formula.Apply.{Client, Call, run_formula_apply}

abbrev vars : Dict String
vars = ("env", "prod") ∷ ("docs", "") ∷ []

substitutes :
    substitute_vars "Deploy {{env}} ({{{env}}, {{who}})" vars ≡ "Deploy prod ({prod, {{who}})"
unfolding substitute_vars kbeads.Prelude.Dict.get kbeads.Prelude.Text.rune_count
substitutes = refl

holds : evaluate_condition " !{{env}} == dev" vars ≡ true
unfolding evaluate_condition trim_space substitute_vars kbeads.Prelude.Dict.get
    kbeads.Prelude.Text.rune_count
holds = refl

evaluate_condition_lem_example :
    Evaluates vars (trim_space "! !{{docs}}") (evaluate_condition "! !{{docs}}" vars)
evaluate_condition_lem_example = evaluate_condition_lem "! !{{docs}}" vars

abbrev step : String → String → List String → FormulaStep
step id condition depends_on = record {
  id = id;
  title = "Step for {{env}}";
  description = "";
  step_type = "";
  priority = none;
  labels = [];
  depends_on = depends_on;
  assignee = "";
  condition = condition;
  roles = [];
}

abbrev release : Formula
release = record {
  title = "Release {{env}}";
  description = "";
  priority = pos 1;
  labels = "ops" ∷ [];
  vars =
      record { name = "env"; required = true; default_value = ""; allowed = "dev" ∷ "prod" ∷ [] }
      ∷ [];
  steps =
      step "build" "" []
      ∷ step "dry" "{{env}} != prod" ("build" ∷ [])
      ∷ step "ship" "" ("build" ∷ "dry" ∷ [])
      ∷ [];
  default_roles = "crew" ∷ [];
  assigned_agent = "one";
}

abbrev opts : FormulaApplyOpts
opts = record {
  formula_id = "kd-f";
  var_pairs = ("env", "prod") ∷ [];
  labels = [];
  assignee = "";
  ephemeral = false;
  actor = "ann";
}

-- Ids by the number of calls made before.
abbrev client : Client
client = record {
  create_bead = λ calls b. elim calls [
    | [] ↦ some "kd-0"
    | _ ∷ calls1 ↦ elim calls1 [ [] ↦ some "kd-1" | _ ∷ _ ↦ some "kd-2" ]
  ];
  add_dependency = λ calls l. true;
}

abbrev calls : List Call
calls = (run_formula_apply client opts release []).1

-- The molecule, two steps with their parents, and one dependency.
six_calls : length calls ≡ 6
unfolding run_formula_apply kbeads.Prelude.Dict.get kbeads.Prelude.Dict.put evaluate_condition
    trim_space kbeads.Prelude.Text.rune_count
six_calls = refl
