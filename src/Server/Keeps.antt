-- ===== src/Server/Keeps.antt =====
-- Actions and handlers that keep the store sound, put together the way the handlers are.
use kbeads.Prelude.{
  String, Bool, true, false, List, [], ◌∷◌, Option, none, some, ◌≡◌, refl, sym, subst,
}
use kbeads.Model.Validate.{FieldError}
use kbeads.Server.Store.{Answer, ok, fail, Error, Tables}
use kbeads.Server.Actions.{
  World, Faults, Action, bind, continue, wrap_answer, wrapping, call, commit, finish, nothing,
  run_in_transaction,
}
use kbeads.Server.Notify.{Links, Notice, data_of, record_and_publish, record_and_publish-data}
use kbeads.Server.Replies.{Code, Reply, answer, refuse_bad}
use kbeads.Server.Update.{refuse}
use kbeads.Server.Preserves.{
  QueryPreserves, Preserves, call-Preserves, wrapping-Preserves, continue-Preserves, bind-Preserves,
}
use kbeads.Server.Soundness.{IsSound}

module _ (json_valid : String → Bool) where
  abbrev pub QueryKeeps : {A : Type 0} → (Tables → Answer A × Tables) → Type 0
  QueryKeeps query = QueryPreserves (IsSound json_valid) query

  abbrev pub Keeps : {A : Type 0} → Action A → Type 0
  Keeps m = Preserves (IsSound json_valid) m

  IsSound-data :
      (t t' : Tables) → data_of t' ≡ data_of t → IsSound json_valid t → IsSound json_valid t'
  IsSound-data t t' e s =
      let d : IsSound json_valid (data_of t) = record { rows = s.rows; refs = s.refs } in
      let d' : IsSound json_valid (data_of t') = subst (IsSound json_valid) (sym e) d in
      record { rows = d'.rows; refs = d'.refs }

  pub record_and_publish-Keeps :
      (links : Links) (topic bead_id actor : String) (event : Notice) (w : World)
      → IsSound json_valid w.tables
      → IsSound json_valid (record_and_publish links topic bead_id actor event w).tables
  record_and_publish-Keeps links topic bead_id actor event w s =
      IsSound-data w.tables (record_and_publish links topic bead_id actor event w).tables
        (record_and_publish-data links topic bead_id actor event w) s

  module _ {A : Type 0} where
    pub call-Keeps :
        (faults : Faults) (query : Tables → Answer A × Tables)
        → QueryKeeps query
        → Keeps (call faults query)
    call-Keeps = call-Preserves (IsSound json_valid)

    pub wrapping-Keeps : (text : String) (m : Action A) → Keeps m → Keeps (wrapping text m)
    wrapping-Keeps = wrapping-Preserves (IsSound json_valid)

    commit-Keeps :
        (o : Option String) (before : Tables) (a : A) (w : World)
        → IsSound json_valid before
        → IsSound json_valid w.tables
        → IsSound json_valid (commit o before a w).1.tables
    commit-Keeps (some why) before a w s s1 = s
    commit-Keeps none before a w s s1 = s1

    finish-Keeps :
        (faults : Faults) (before : Tables) (r : Answer A × World)
        → IsSound json_valid before
        → IsSound json_valid r.1.tables
        → IsSound json_valid (finish faults before r).1.tables
    finish-Keeps faults before (ok a, w) s s1 = commit-Keeps (faults w.calls) before a w s s1
    finish-Keeps faults before (fail e, w) s s1 = s

  module _ {A B : Type 0} where
    pub continue-Keeps :
        (f : A → Action B) (r : Answer A × World)
        → ((a : A) → Keeps (f a))
        → IsSound json_valid r.1.tables
        → IsSound json_valid (continue f r).1.tables
    continue-Keeps = continue-Preserves (IsSound json_valid)

    pub bind-Keeps :
        (m : Action A) (f : A → Action B) → Keeps m → ((a : A) → Keeps (f a)) → Keeps (bind m f)
    bind-Keeps = bind-Preserves (IsSound json_valid)

    pub answer-Keeps :
        (code : Error → Code) (next : A → World → Reply B × World) (r : Answer A × World)
        → ((a : A) (w : World)
            → IsSound json_valid w.tables
            → IsSound json_valid (next a w).1.tables)
        → IsSound json_valid r.1.tables
        → IsSound json_valid (answer code next r).1.tables
    answer-Keeps code next (ok a, w) k s = k a w s
    answer-Keeps code next (fail e, w) k s = s

  pub refuse_bad-Keeps :
      {B : Type 0} (test : Bool) (w : World) (r : Reply B × World)
      → IsSound json_valid w.tables
      → IsSound json_valid r.1.tables
      → IsSound json_valid (refuse_bad test w r).1.tables
  refuse_bad-Keeps true w r s s1 = s
  refuse_bad-Keeps false w r s s1 = s1

  pub run_in_transaction-Keeps :
      {A : Type 0} (faults : Faults) (body : Action A)
      → Keeps body
      → Keeps (run_in_transaction faults body)
  unfolding run_in_transaction
  run_in_transaction-Keeps faults body k w s =
      continue-Keeps (λ u w1. finish faults w.tables (body w1))
        (wrap_answer "begin transaction" (call faults nothing w))
        (λ u w1 s1. finish-Keeps faults w.tables (body w1) s (k w1 s1))
        (wrapping-Keeps "begin transaction" (call faults nothing)
          (call-Keeps faults nothing (λ t s1. s1)) w s)

  -- What follows a check may rely on it.
  pub refuse-Keeps :
      {A : Type 0} (text : String) (es : List FieldError) (next : Action A)
      → (es ≡ [] → Keeps next)
      → Keeps (bind (refuse text es) (λ u. next))
  refuse-Keeps text [] next k w s = k refl w s
  refuse-Keeps text (e ∷ es) next k w s = s
