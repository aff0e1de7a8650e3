-- ===== src/Formula/ApplyProofs.antt =====
-- What runFormulaApply of cmd/kd/formula_apply.go creates: the calls of a run that succeeds.
use kbeads.Prelude.{some, String, true, not, List, [], ◌∷◌, ◌++◌, mem, inl, ◌≡◌, All}
use kbeads.Prelude.Dict.{Dict}
use kbeads.Formula.Variables.{Formula, FormulaStep, FormulaApplyOpts, apply_vars, given_vars}
use kbeads.Formula.Apply.{Call, make, Client, molecule_of, active_steps, skipped_ids}
use kbeads.Formula.Creating.{step_calls, ids_of, Given, blocks_calls, steps_of}

abbrev pub IsFree : List String → FormulaStep → Type 0
IsFree ids s = All (λ d. not (mem d ids) ≡ true) s.depends_on

-- What a successful run has done.
pub record IsApplied (client : Client) (opts : FormulaApplyOpts) (f : Formula) (mol : String)
    (ids : Dict String) (calls : List Call) : Type 0 where
  pub vars : Dict String
  pub made : List (FormulaStep × String)
  pub resolved : apply_vars f.vars (given_vars opts.var_pairs []) ≡ inl vars
  pub each_step : steps_of made ≡ active_steps vars f.steps
  pub their_ids : ids ≡ ids_of made []
  pub molecule_id : client.create_bead [] (molecule_of opts f vars) ≡ some mol
  pub given_ids : Given client opts f mol (make (molecule_of opts f vars) ∷ []) made
  pub free_of_skipped : All (IsFree (skipped_ids vars f.steps)) (active_steps vars f.steps)
  pub all_calls :
      calls
      ≡ make (molecule_of opts f vars)
        ∷ (step_calls opts f mol made ++ blocks_calls opts ids (active_steps vars f.steps))
