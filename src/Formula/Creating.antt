-- ===== src/Formula/Creating.antt =====
-- What the calls of runFormulaApply in cmd/kd/formula_apply.go make, where they succeed.
use kbeads.Prelude.{
  String, Bool, true, false, List, [], ◌∷◌, ◌++◌, Option, none, some, map, inl, inr, ◌≡◌, refl, sym,
  ap, ◌∙◌, append-nil, append_assoc, subst,
}
use kbeads.Prelude.Dict
use kbeads.Prelude.Dict.{Dict}
use kbeads.Formula.Variables.{
  Formula, FormulaStep, FormulaApplyOpts, ApplyError, step_failed, link_failed, not_created,
  Outcome,
}
use kbeads.Formula.Apply.{
  Call, make, link, Client, Step, next, created, linked, create, add_link, molecule_of, bead_of,
  parent_link, blocks_link, id_or_empty, create_steps, link_dep, link_deps, link_steps, instantiate,
}

next-ok :
    {A B : Type 0} (r : Outcome A × List Call) (g : A → Step B) (b : B) (calls' : List Call)
    → next r g ≡ (inl b, calls')
    → (a : A) × (calls : List Call) × (r ≡ (inl a, calls)) × (g a calls ≡ (inl b, calls'))
next-ok (inl a, calls) g b calls' h = (a, calls, refl, h)
next-ok (inr e, calls) g b calls' h = cc

created-ok :
    (o : Option String) (e : ApplyError) (calls calls' : List Call) (id : String)
    → ◌≡◌ {A = Outcome String × List Call} (created o e, calls) (inl id, calls')
    → calls' ≡ calls
created-ok none e calls calls' id h = cc
created-ok (some x) e calls calls' id h = cc

created-id :
    (o : Option String) (e : ApplyError) (calls calls' : List Call) (id : String)
    → ◌≡◌ {A = Outcome String × List Call} (created o e, calls) (inl id, calls')
    → o ≡ some id
created-id none e calls calls' id h = cc
created-id (some x) e calls calls' id h = cc

linked-ok :
    (o : Bool) (e : ApplyError) (calls calls' : List Call) (u : Unit)
    → ◌≡◌ {A = Outcome Unit × List Call} (linked o e, calls) (inl u, calls')
    → calls' ≡ calls
linked-ok true e calls calls' u h = cc
linked-ok false e calls calls' u h = cc

-- The calls for the steps with their new ids, and the map from steps to ids.
abbrev pub step_calls :
    FormulaApplyOpts → Formula → String → List (FormulaStep × String) → List Call
step_calls opts f mol [] = []
step_calls opts f mol ((s, id) ∷ made) =
    make (bead_of opts f s) ∷ link (parent_link opts mol id) ∷ step_calls opts f mol made

abbrev pub ids_of : List (FormulaStep × String) → Dict String → Dict String
ids_of [] ids = ids
ids_of ((s, id) ∷ made) ids = ids_of made (Dict.put s.id id ids)

-- Each id is what the client gave for the bead of its step, from the calls before on.
abbrev pub Given :
    Client → FormulaApplyOpts → Formula → String → List Call → List (FormulaStep × String) → Type 0
Given client opts f mol calls [] = Unit
Given client opts f mol calls ((s, id) ∷ made) =
    (client.create_bead calls (bead_of opts f s) ≡ some id)
    × Given client opts f mol
        ((calls ++ make (bead_of opts f s) ∷ []) ++ link (parent_link opts mol id) ∷ []) made

abbrev to_dep : FormulaApplyOpts → String → Option String → List Call
to_dep opts id none = []
to_dep opts id (some dep) = link (blocks_link opts id dep) ∷ []

-- One dependency for each step that is depended on and was created.
abbrev pub dep_calls : FormulaApplyOpts → Dict String → String → List String → List Call
dep_calls opts ids id [] = []
dep_calls opts ids id (d ∷ ds) = to_dep opts id (Dict.get d ids) ++ dep_calls opts ids id ds

abbrev pub blocks_calls : FormulaApplyOpts → Dict String → List FormulaStep → List Call
blocks_calls opts ids [] = []
blocks_calls opts ids (s ∷ steps) =
    dep_calls opts ids (id_or_empty (Dict.get s.id ids)) s.depends_on ++ blocks_calls opts ids steps

abbrev pub steps_of : List (FormulaStep × String) → List FormulaStep
steps_of made = map (λ p. p.0) made

module _ (client : Client) (opts : FormulaApplyOpts) (f : Formula) where
  create_steps-ok :
      (mol : String) (steps : List FormulaStep) (ids ids' : Dict String) (calls calls' : List Call)
      → create_steps client opts f mol steps ids calls ≡ (inl ids', calls')
      → (made : List (FormulaStep × String)) × (steps_of made ≡ steps)
        × (ids' ≡ ids_of made ids)
        × Given client opts f mol calls made
        × (calls' ≡ calls ++ step_calls opts f mol made)
  unfolding create_steps
  create_steps-ok mol [] ids ids' calls calls' h =
      let same : calls' ≡ calls = cc in ([], refl, cc, tt, same ∙ sym (append-nil calls))
  create_steps-ok mol (s ∷ steps) ids ids' calls calls' h =
      let b = bead_of opts f s in
      let (id, calls1, got, rest) =
        next-ok (create client b (step_failed s.id) calls) _ ids' calls' h in
      let l = parent_link opts mol id in
      let (u, calls2, linked_up, rest1) =
        next-ok (add_link client l (link_failed s.id) calls1) _ ids' calls' rest in
      let grown1 =
        created-ok (client.create_bead calls b) (step_failed s.id) (calls ++ make b ∷ []) calls1 id
          got in
      let grown2 =
        linked-ok (client.add_dependency calls1 l) (link_failed s.id) (calls1 ++ link l ∷ []) calls2
          u linked_up in
      let gave =
        created-id (client.create_bead calls b) (step_failed s.id) (calls ++ make b ∷ []) calls1 id
          got in
      let (made, these, same, given, all) =
        create_steps-ok mol steps (Dict.put s.id id ids) ids' calls2 calls' rest1 in
      let tail = step_calls opts f mol made in
      (
        (s, id) ∷ made,
        ap (λ xs. s ∷ xs) these,
        same,
        (
          gave,
          subst (λ c. Given client opts f mol c made) (grown2 ∙ ap (λ c. c ++ link l ∷ []) grown1)
              given,
        ),
        all
            ∙ ap (λ c. c ++ tail) grown2
            ∙ append_assoc calls1 (link l ∷ []) tail
            ∙ ap (λ c. c ++ link l ∷ tail) grown1
            ∙ append_assoc calls (make b ∷ []) (link l ∷ tail),
      )

  link_deps-ok :
      (ids : Dict String) (step : String) (ds : List String) (calls calls' : List Call) (u : Unit)
      → link_deps client opts f ids step ds calls ≡ (inl u, calls')
      → calls' ≡ calls ++ dep_calls opts ids (id_or_empty (Dict.get step ids)) ds
  unfolding link_deps
  link_deps-ok ids step [] calls calls' u h =
      let same : calls' ≡ calls = cc in same ∙ sym (append-nil calls)
  link_deps-ok ids step (d ∷ ds) calls calls' u h =
      to_one (Dict.get d ids) (λ c k. link_deps-ok ids step ds c calls' u k) h
    where
      to_one :
          (o : Option String)
          → ((c : List Call)
              → link_deps client opts f ids step ds c ≡ (inl u, calls')
              → calls' ≡ c ++ dep_calls opts ids (id_or_empty (Dict.get step ids)) ds)
          → link_dep client opts f ids step o (link_deps client opts f ids step ds) calls
            ≡ (inl u, calls')
          → calls'
            ≡ calls
              ++ (to_dep opts (id_or_empty (Dict.get step ids)) o
                  ++ dep_calls opts ids (id_or_empty (Dict.get step ids)) ds)
      to_one none ih k = ih calls k
      to_one (some dep) ih k =
          let l = blocks_link opts (id_or_empty (Dict.get step ids)) dep in
          let (v, calls1, done, rest) =
            next-ok (add_link client l (link_failed step) calls) _ u calls' k in
          let grown =
            linked-ok (client.add_dependency calls l) (link_failed step) (calls ++ link l ∷ [])
              calls1 v done in
          let tail = dep_calls opts ids (id_or_empty (Dict.get step ids)) ds in
          ih calls1 rest ∙ ap (λ c. c ++ tail) grown ∙ append_assoc calls (link l ∷ []) tail

  link_steps-ok :
      (ids : Dict String) (steps : List FormulaStep) (calls calls' : List Call) (u : Unit)
      → link_steps client opts f ids steps calls ≡ (inl u, calls')
      → calls' ≡ calls ++ blocks_calls opts ids steps
  unfolding link_steps
  link_steps-ok ids [] calls calls' u h =
      let same : calls' ≡ calls = cc in same ∙ sym (append-nil calls)
  link_steps-ok ids (s ∷ steps) calls calls' u h =
      let (v, calls1, done, rest) =
        next-ok (link_deps client opts f ids s.id s.depends_on calls) _ u calls' h in
      let grown = link_deps-ok ids s.id s.depends_on calls calls1 v done in
      let here = dep_calls opts ids (id_or_empty (Dict.get s.id ids)) s.depends_on in
      let tail = blocks_calls opts ids steps in
      link_steps-ok ids steps calls1 calls' u rest
      ∙ ap (λ c. c ++ tail) grown
      ∙ append_assoc calls here tail

  pub instantiate-ok :
      (vars : Dict String) (steps : List FormulaStep) (mol : String) (ids : Dict String)
      (calls : List Call)
      → instantiate client opts f vars steps [] ≡ (inl (mol, ids), calls)
      → (made : List (FormulaStep × String)) × (steps_of made ≡ steps)
        × (ids ≡ ids_of made [])
        × (client.create_bead [] (molecule_of opts f vars) ≡ some mol)
        × Given client opts f mol (make (molecule_of opts f vars) ∷ []) made
        × (calls
            ≡ make (molecule_of opts f vars)
              ∷ (step_calls opts f mol made ++ blocks_calls opts ids steps))
  unfolding instantiate
  instantiate-ok vars steps mol ids calls h =
      let b = molecule_of opts f vars in
      let (mol1, calls1, got, rest) =
        next-ok (create client b (not_created f.title) []) _ (mol, ids) calls h in
      let (ids1, calls2, stepped, rest1) =
        next-ok (create_steps client opts f mol1 steps [] calls1) _ (mol, ids) calls rest in
      let (u, calls3, joined, end) =
        next-ok (link_steps client opts f ids1 steps calls2) _ (mol, ids) calls rest1 in
      let grown =
        created-ok (client.create_bead [] b) (not_created f.title) (make b ∷ []) calls1 mol1 got in
      let gave =
        created-id (client.create_bead [] b) (not_created f.title) (make b ∷ []) calls1 mol1 got in
      let (made, these, same, given, all) =
        create_steps-ok mol1 steps [] ids1 calls1 calls2 stepped in
      let last = link_steps-ok ids1 steps calls2 calls3 u joined in
      let same_ids : ids1 ≡ ids = cc in
      let same_mol : mol1 ≡ mol = cc in
      let same_calls : calls ≡ calls3 = cc in
      let blocks = blocks_calls opts ids1 steps in
      let total : calls ≡ make b ∷ (step_calls opts f mol1 made ++ blocks) =
        same_calls
        ∙ last
        ∙ ap (λ c. c ++ blocks) (all ∙ ap (λ c. c ++ step_calls opts f mol1 made) grown) in
      (
        made,
        these,
        sym same_ids ∙ same,
        gave ∙ ap some same_mol,
        subst (λ m. Given client opts f m (make b ∷ []) made) same_mol
            (subst (λ c. Given client opts f mol1 c made) grown given),
        total
            ∙ ap (λ m. make b ∷ (step_calls opts f m made ++ blocks)) same_mol
            ∙ ap (λ i. make b ∷ (step_calls opts f mol made ++ blocks_calls opts i steps)) same_ids,
      )
