-- ===== src/Server/KeepsUpdate.antt =====
-- updateBead and the handlers of one statement keep the store sound.
use kbeads.Prelude.{
  String, Bool, true, false, List, [], ◌∷◌, Option, none, some, ◌==◌, ◌≡◌, inl, inr, mem,
  Bool-cases,
}
use kbeads.Model.Bead.{Bead, TypeConfig}
use kbeads.Model.Validate.{FieldError, IsValid, validate_bead}
use kbeads.Model.Fields.{validate_fields}
use kbeads.Server.Store.{query_update_bead, query_add_label, query_remove_label, query_get_labels}
use kbeads.Server.Actions.{World, Action, bind, wrapping, call}
use kbeads.Server.Notify.{record_and_publish, bead_updated, advice_updated}
use kbeads.Server.Beads.{Env, resolve_type_config}
use kbeads.Server.Reconcile.{do_unless, remove_stale, add_missing, reconcile_labels}
use kbeads.Server.Update.{
  UpdateBeadInput, get_bead, patched, patched_fields, changes_of, refuse, check_config,
  check_changed, sync_labels, announce_updated, store_update, apply_update, give, update_bead,
}
use kbeads.Server.Soundness.{IsSound, update_bead_query-IsSound}
use kbeads.Server.References.{add_label_query-IsSound, remove_label_query-IsSound}
use kbeads.Server.Keeps.{
  QueryKeeps, Keeps, record_and_publish-Keeps, call-Keeps, wrapping-Keeps, bind-Keeps, refuse-Keeps,
}
use kbeads.Server.KeepsCreate.{get_bead-Keeps, resolve_type_config-Keeps, checked-IsValid}

module _ (json_valid : String → Bool) (env : Env) where
  check_config-Keeps : (b : Bead) (o : Option TypeConfig) → Keeps json_valid (check_config env b o)
  check_config-Keeps b none = λ w s. s
  check_config-Keeps b (some tc) = refused (validate_fields env.decoder b.fields tc.fields)
    where
      refused : (es : List FieldError) → Keeps json_valid (refuse "invalid fields" es)
      refused [] w s = s
      refused (e ∷ es) w s = s

  check_changed-Keeps : (b : Bead) (o : Option String) → Keeps json_valid (check_changed env b o)
  check_changed-Keeps b none = λ w s. s
  check_changed-Keeps b (some patch) =
      bind-Keeps json_valid
        (wrapping "failed to resolve type config" (resolve_type_config env b.bead_type))
        (check_config env b)
        (wrapping-Keeps json_valid "failed to resolve type config"
          (resolve_type_config env b.bead_type)
          (resolve_type_config-Keeps json_valid env b.bead_type))
        (check_config-Keeps b)

  do_unless-Keeps :
      (test : Bool) (m : Action Unit) → Keeps json_valid m → Keeps json_valid (do_unless test m)
  do_unless-Keeps true m k w s = s
  do_unless-Keeps false m k w s = k w s

  remove_stale-Keeps :
      (id : String) (new ls : List String)
      → Keeps json_valid (remove_stale env.links.faults id new ls)
  unfolding remove_stale
  remove_stale-Keeps id new [] = λ w s. s
  remove_stale-Keeps id new (l ∷ ls) =
      let step = call env.links.faults (query_remove_label id l) in
      bind-Keeps json_valid (do_unless (mem l new) step)
        (λ u. remove_stale env.links.faults id new ls)
        (do_unless-Keeps (mem l new) step (
          call-Keeps json_valid env.links.faults (query_remove_label id l)
            (remove_label_query-IsSound json_valid id l)))
        (λ u. remove_stale-Keeps id new ls)

  add_missing-Keeps :
      (id : String) (existing ls : List String)
      → Keeps json_valid (add_missing env.links.faults id existing ls)
  unfolding add_missing
  add_missing-Keeps id existing [] = λ w s. s
  add_missing-Keeps id existing (l ∷ ls) =
      let step = call env.links.faults (query_add_label id l) in
      bind-Keeps json_valid (do_unless (mem l existing) step)
        (λ u. add_missing env.links.faults id existing ls)
        (do_unless-Keeps (mem l existing) step (
          call-Keeps json_valid env.links.faults (query_add_label id l)
            (add_label_query-IsSound json_valid id l)))
        (λ u. add_missing-Keeps id existing ls)

  get_labels-Keeps : (id : String) → QueryKeeps json_valid (query_get_labels id)
  unfolding query_get_labels
  get_labels-Keeps id t s = s

  sync_labels-Keeps : (b : Bead) (o : Option (List String)) → Keeps json_valid (sync_labels env b o)
  unfolding reconcile_labels
  sync_labels-Keeps b none = λ w s. s
  sync_labels-Keeps b (some labels) =
      let f = env.links.faults in
      wrapping-Keeps json_valid "failed to reconcile labels" (reconcile_labels f b.id labels) (
        bind-Keeps json_valid (call f (query_get_labels b.id)) _
          (call-Keeps json_valid f (query_get_labels b.id) (get_labels-Keeps b.id))
          (λ existing.
            bind-Keeps json_valid (remove_stale f b.id labels existing) _
              (remove_stale-Keeps b.id labels existing)
              (λ u. add_missing-Keeps b.id existing labels)))

  announce_updated-Keeps :
      (b : Bead) (changes : List String) (w : World)
      → IsSound json_valid w.tables
      → IsSound json_valid (announce_updated env b changes w).tables
  announce_updated-Keeps b changes w s =
      let w1 =
        record_and_publish env.links "beads.bead.updated" b.id "" (bead_updated b changes) w in
      let s1 =
        record_and_publish-Keeps json_valid env.links "beads.bead.updated" b.id ""
          (bead_updated b changes) w s in
      elim (Bool-cases (b.bead_type == "advice")) [
        | inl y ↦ rw y (
            record_and_publish-Keeps json_valid env.links "beads.advice.updated" b.id ""
              (advice_updated b changes) w1 s1)
        | inr n ↦ rw n s1
      ]

  store_update-Keeps :
      (in_ : UpdateBeadInput) (b : Bead) (changes : List String)
      → IsValid json_valid b
      → Keeps json_valid (store_update env in_ b changes)
  store_update-Keeps in_ b changes v =
      let f = env.links.faults in
      let query = call f (query_update_bead env.store_now b) in
      bind-Keeps json_valid (wrapping "failed to update bead" query) _
        (wrapping-Keeps json_valid "failed to update bead" query (
          call-Keeps json_valid f (query_update_bead env.store_now b)
            (λ t s. update_bead_query-IsSound json_valid env.store_now b t v s)))
        (λ t.
          bind-Keeps json_valid (sync_labels env b in_.labels) _ (sync_labels-Keeps b in_.labels)
            (λ u w s. announce_updated-Keeps (record b { updated_at = t }) changes w s))

  apply_update-Keeps :
      env.json_valid ≡ json_valid
      → (in_ : UpdateBeadInput) (old : Bead) (fields : String)
      → Keeps json_valid (apply_update env in_ old fields)
  apply_update-Keeps same in_ old fields =
      let b = patched env in_ old fields in
      refuse-Keeps json_valid "invalid bead" (validate_bead env.json_valid b)
        (bind (check_changed env b in_.fields) (λ v. store_update env in_ b (changes_of in_ old)))
        (λ h.
          bind-Keeps json_valid (check_changed env b in_.fields) _
            (check_changed-Keeps b in_.fields)
            (λ v.
              store_update-Keeps in_ b (changes_of in_ old)
                (checked-IsValid json_valid env same b h)))

  pub update_bead-Keeps :
      env.json_valid ≡ json_valid
      → (id : String) (in_ : UpdateBeadInput) → Keeps json_valid (update_bead env id in_)
  unfolding update_bead
  update_bead-Keeps same id in_ =
      bind-Keeps json_valid (get_bead env id) _ (get_bead-Keeps json_valid env id) (λ old.
        bind-Keeps json_valid (give (patched_fields env in_.fields old.fields)) _ (λ w s. s)
          (apply_update-Keeps same in_ old))
