-- ===== src/Formula/Apply.antt =====
-- runFormulaApply of cmd/kd/formula_apply.go, from the decoded formula to the calls of the client. The
-- client is a parameter: what a call gives may depend on the calls before it.
use kbeads.Prelude.{
  String, Bool, true, false, not, ◌&&◌, List, [], ◌∷◌, ◌++◌, Option, none, some, map, keep, mem,
  ◌==◌, if◌then◌else◌, inl, inr,
}
use kbeads.Prelude.Int.{ℤ}
use kbeads.Prelude.Text.{append}
use kbeads.Prelude.Dict
use kbeads.Prelude.Dict.{Dict}
use kbeads.Formula.Template.{substitute_vars, evaluate_condition}
use kbeads.Formula.Variables.{
  FormulaStep, Formula, FormulaApplyOpts, ApplyError, no_steps, all_filtered, not_created,
  step_failed, link_failed, Outcome, apply_vars, given_vars,
}

-- Whether the condition of a step is false.
abbrev pub is_skipped : Dict String → FormulaStep → Bool
is_skipped vars s = not (s.condition == "") && not (evaluate_condition s.condition vars)

abbrev pub expanded : Dict String → FormulaStep → FormulaStep
expanded vars s = record s {
  title = substitute_vars s.title vars;
  description = substitute_vars s.description vars;
  assignee = substitute_vars s.assignee vars;
}

abbrev pub skipped_ids : Dict String → List FormulaStep → List String
skipped_ids vars steps = map (λ s. s.id) (keep (is_skipped vars) steps)

abbrev pub without : List String → FormulaStep → FormulaStep
without ids s = record s { depends_on = keep (λ d. not (mem d ids)) s.depends_on }

-- The steps that stay, without their dependencies on those that do not.
unfoldable pub active_steps : Dict String → List FormulaStep → List FormulaStep
active_steps vars steps =
    map (λ s. without (skipped_ids vars steps) (expanded vars s))
      (keep (λ s. not (is_skipped vars s)) steps)

unfoldable pub priority_or_default : Option ℤ → ℤ → ℤ
priority_or_default (some p) d = p
priority_or_default none d = d

unfoldable pub add_unseen : List String → List String → List String
add_unseen seen [] = []
add_unseen seen (l ∷ ls) = if mem l seen then add_unseen seen ls else l ∷ add_unseen (l ∷ seen) ls

-- Without extra labels the base is given back as it is.
unfoldable pub merge_labels : List String → List String → List String
unfolding add_unseen
merge_labels base [] = base
merge_labels base (x ∷ xs) = add_unseen [] (base ++ x ∷ xs)

-- The fields of a molecule, before they are made JSON; `ephemeral` is written only where it is true.
pub record MoleculeFields : Type 0 where
  pub formula_id : String
  pub applied_vars : Dict String
  pub ephemeral : Bool

-- The requests of the client; the beads of steps have no fields.
pub record NewBead : Type 0 where
  pub title : String
  pub description : String
  pub bead_type : String
  pub priority : ℤ
  pub labels : List String
  pub assignee : String
  pub created_by : String
  pub fields : Option MoleculeFields

pub record Link : Type 0 where
  pub bead_id : String
  pub depends_on_id : String
  pub dep_type : String
  pub created_by : String

pub data Call : Type 0 where
  make : NewBead → Call
  link : Link → Call

-- The id of a new bead, and whether a dependency was added; none and false are errors.
pub record Client : Type 0 where
  pub create_bead : List Call → NewBead → Option String
  pub add_dependency : List Call → Link → Bool

-- What a part of the command gives, with the calls made so far.
abbrev pub Step : Type 0 → Type 0
Step A = List Call → Outcome A × List Call

abbrev pub next : {A B : Type 0} → Outcome A × List Call → (A → Step B) → Outcome B × List Call
next (inl a, calls) f = f a calls
next (inr e, calls) f = (inr e, calls)

abbrev pub created : Option String → ApplyError → Outcome String
created none e = inr e
created (some id) e = inl id

abbrev pub linked : Bool → ApplyError → Outcome Unit
linked true e = inl tt
linked false e = inr e

module _ (client : Client) where
  abbrev pub create : NewBead → ApplyError → Step String
  create b e calls = (created (client.create_bead calls b) e, calls ++ make b ∷ [])

  abbrev pub add_link : Link → ApplyError → Step Unit
  add_link l e calls = (linked (client.add_dependency calls l) e, calls ++ link l ∷ [])

-- The molecule, and the bead of a step.
abbrev pub molecule_of : FormulaApplyOpts → Formula → Dict String → NewBead
molecule_of opts f vars = record {
  title = substitute_vars f.title vars;
  description = substitute_vars f.description vars;
  bead_type = "molecule";
  priority = f.priority;
  labels = merge_labels f.labels opts.labels;
  assignee = opts.assignee;
  created_by = opts.actor;
  fields =
      some
        (record { formula_id = opts.formula_id; applied_vars = vars; ephemeral = opts.ephemeral });
}

abbrev pub or_text : String → String → String
or_text s d = if s == "" then d else s

abbrev pub or_roles : List String → List String → List String
or_roles [] d = d
or_roles (r ∷ rs) d = r ∷ rs

abbrev pub bead_of : FormulaApplyOpts → Formula → FormulaStep → NewBead
bead_of opts f s = record {
  title = s.title;
  description = s.description;
  bead_type = or_text s.step_type "task";
  priority = priority_or_default s.priority f.priority;
  labels =
      merge_labels (merge_labels (merge_labels f.labels opts.labels) s.labels)
        (map (λ r. append "role:" r) (or_roles s.roles f.default_roles));
  assignee = or_text s.assignee opts.assignee;
  created_by = opts.actor;
  fields = none;
}

abbrev pub parent_link : FormulaApplyOpts → String → String → Link
parent_link opts mol id = record {
  bead_id = id;
  depends_on_id = mol;
  dep_type = "parent-child";
  created_by = opts.actor;
}

abbrev pub blocks_link : FormulaApplyOpts → String → String → Link
blocks_link opts id dep = record {
  bead_id = id;
  depends_on_id = dep;
  dep_type = "blocks";
  created_by = opts.actor;
}

abbrev pub id_or_empty : Option String → String
id_or_empty none = ""
id_or_empty (some id) = id

module _ (client : Client) (opts : FormulaApplyOpts) (f : Formula) where
  unfoldable pub create_steps : String → List FormulaStep → Dict String → Step (Dict String)
  create_steps mol [] ids calls = (inl ids, calls)
  create_steps mol (s ∷ steps) ids calls =
      next (create client (bead_of opts f s) (step_failed s.id) calls) (λ id calls1.
        next (add_link client (parent_link opts mol id) (link_failed s.id) calls1)
          (λ u calls2. create_steps mol steps (Dict.put s.id id ids) calls2))

  -- A dependency on an unknown step is passed over.
  abbrev pub link_dep : Dict String → String → Option String → Step Unit → Step Unit
  link_dep ids step none rest calls = rest calls
  link_dep ids step (some dep) rest calls =
      next
        (add_link client (blocks_link opts (id_or_empty (Dict.get step ids)) dep) (link_failed step)
          calls)
        (λ u. rest)

  unfoldable pub link_deps : Dict String → String → List String → Step Unit
  link_deps ids step [] calls = (inl tt, calls)
  link_deps ids step (d ∷ ds) calls =
      link_dep ids step (Dict.get d ids) (link_deps ids step ds) calls

  unfoldable pub link_steps : Dict String → List FormulaStep → Step Unit
  unfolding link_deps
  link_steps ids [] calls = (inl tt, calls)
  link_steps ids (s ∷ steps) calls =
      next (link_deps ids s.id s.depends_on calls) (λ u. link_steps ids steps)

  unfoldable pub instantiate : Dict String → List FormulaStep → Step (String × Dict String)
  unfolding create_steps link_steps
  instantiate vars steps calls =
      next (create client (molecule_of opts f vars) (not_created f.title) calls) (λ mol calls1.
        next (create_steps mol steps [] calls1)
          (λ ids calls2. next (link_steps ids steps calls2) (λ u calls3. (inl (mol, ids), calls3))))

abbrev pub with_agent : FormulaApplyOpts → Formula → FormulaApplyOpts
with_agent opts f = record opts { assignee = or_text opts.assignee f.assigned_agent }

abbrev pub unless_filtered : {A : Type 0} → List FormulaStep → (List FormulaStep → Step A) → Step A
unless_filtered [] run calls = (inr all_filtered, calls)
unless_filtered (s ∷ steps) run calls = run (s ∷ steps) calls

abbrev pub with_vars : {A : Type 0} → Outcome (Dict String) → (Dict String → Step A) → Step A
with_vars (inr e) run calls = (inr e, calls)
with_vars (inl vars) run calls = run vars calls

abbrev pub unless_empty : {A : Type 0} → List FormulaStep → Step A → Step A
unless_empty [] run calls = (inr no_steps, calls)
unless_empty (s ∷ steps) run calls = run calls

-- The molecule's id and those of the steps.
unfoldable pub run_formula_apply : Client → FormulaApplyOpts → Formula → Step (String × Dict String)
unfolding apply_vars given_vars active_steps instantiate
run_formula_apply client opts0 f =
    let opts = with_agent opts0 f in
    unless_empty f.steps (
      with_vars (apply_vars f.vars (given_vars opts.var_pairs []))
        (λ vars. unless_filtered (active_steps vars f.steps) (instantiate client opts f vars)))
