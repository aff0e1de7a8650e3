-- ===== src/Server/KeepsCreate.antt =====
-- createBead keeps the store sound.
use kbeads.Prelude.{
  String, Bool, true, false, List, [], ◌∷◌, Option, none, some, ◌==◌, ◌≡◌, refl, sym, subst, inl,
  inr, Bool-cases,
}
use kbeads.Prelude.Dict
use kbeads.Model.Bead.{Bead, TypeConfig, type_aliases}
use kbeads.Model.Validate.{FieldError, IsValid, validate_bead, validate_bead_iff}
use kbeads.Model.Fields.{validate_fields}
use kbeads.Server.Store.{
  Tables, query_create_bead, query_add_label, query_get_labels, query_get_dependencies,
  query_get_comments, query_get_row, found_row,
}
use kbeads.Server.Actions.{World, Action, bind, wrapping, call, run_in_transaction, pure}
use kbeads.Server.Notify.{record_and_publish, bead_created, advice_created}
use kbeads.Server.Beads.{
  Env, CreateBeadInput, resolve_type_config, add_labels, insert_bead, announce_created, persist,
  check_valid, create_typed, create_with_id, create_bead, new_bead, or_else, refuse_if,
}
use kbeads.Server.Creating.{resolve_type_config-tables}
use kbeads.Server.Update.{get_bead}
use kbeads.Server.Soundness.{IsSound, create_bead_query-IsSound}
use kbeads.Server.References.{add_label_query-IsSound}
use kbeads.Server.Keeps.{
  QueryKeeps, Keeps, record_and_publish-Keeps, call-Keeps, wrapping-Keeps, bind-Keeps,
  run_in_transaction-Keeps,
}

module _ (json_valid : String → Bool) where
  found_row-Keeps :
      (o : Option Bead) (t : Tables) → IsSound json_valid t → IsSound json_valid (found_row o t).1
  found_row-Keeps none t s = s
  found_row-Keeps (some b) t s = s

  get_row-Keeps : (id : String) → QueryKeeps json_valid (query_get_row id)
  unfolding query_get_row
  get_row-Keeps id t s = found_row-Keeps (Dict.get id t.beads) t s

  get_labels-Keeps : (id : String) → QueryKeeps json_valid (query_get_labels id)
  unfolding query_get_labels
  get_labels-Keeps id t s = s

  get_dependencies-Keeps : (id : String) → QueryKeeps json_valid (query_get_dependencies id)
  unfolding query_get_dependencies
  get_dependencies-Keeps id t s = s

  get_comments-Keeps : (id : String) → QueryKeeps json_valid (query_get_comments id)
  unfolding query_get_comments
  get_comments-Keeps id t s = s

  module _ (env : Env) where
    pub read_related :
        (id : String) (b : Bead)
        → Keeps json_valid (
            bind (call env.links.faults (query_get_labels id)) (λ labels.
              bind (call env.links.faults (query_get_dependencies id)) (λ deps.
                bind (call env.links.faults (query_get_comments id)) (λ comments.
                  pure (record b { labels = labels; dependencies = deps; comments = comments })))))
    read_related id b =
        let f = env.links.faults in
        bind-Keeps json_valid (call f (query_get_labels id)) _
          (call-Keeps json_valid f (query_get_labels id) (get_labels-Keeps id))
          (λ ls.
            bind-Keeps json_valid (call f (query_get_dependencies id)) _
              (call-Keeps json_valid f (query_get_dependencies id) (get_dependencies-Keeps id))
              (λ ds.
                bind-Keeps json_valid (call f (query_get_comments id)) _
                  (call-Keeps json_valid f (query_get_comments id) (get_comments-Keeps id))
                  (λ cs w s. s)))

    pub get_bead-Keeps : (id : String) → Keeps json_valid (get_bead env id)
    unfolding get_bead
    get_bead-Keeps id =
        let f = env.links.faults in
        bind-Keeps json_valid (call f (query_get_row id)) _
          (call-Keeps json_valid f (query_get_row id) (get_row-Keeps id)) (λ b. read_related id b)

    pub resolve_type_config-Keeps :
        (bead_type : String) → Keeps json_valid (resolve_type_config env bead_type)
    resolve_type_config-Keeps bead_type w s =
        let (a, w1) = resolve_type_config env bead_type w in
        subst (IsSound json_valid) (sym (resolve_type_config-tables env bead_type w a w1 refl)) s

    add_labels-Keeps : (id : String) (ls : List String) → Keeps json_valid (add_labels env id ls)
    unfolding add_labels
    add_labels-Keeps id [] = λ w s. s
    add_labels-Keeps id (l ∷ ls) =
        let f = env.links.faults in
        bind-Keeps json_valid (wrapping "failed to add label" (call f (query_add_label id l)))
          (λ u. add_labels env id ls)
          (wrapping-Keeps json_valid "failed to add label" (call f (query_add_label id l)) (
            call-Keeps json_valid f (query_add_label id l)
              (add_label_query-IsSound json_valid id l)))
          (λ u. add_labels-Keeps id ls)

    announce_created-Keeps :
        (b : Bead) (w : World)
        → IsSound json_valid w.tables
        → IsSound json_valid (announce_created env b w).tables
    announce_created-Keeps b w s =
        let w1 =
          record_and_publish env.links "beads.bead.created" b.id b.created_by (bead_created b) w in
        let s1 =
          record_and_publish-Keeps json_valid env.links "beads.bead.created" b.id b.created_by
            (bead_created b) w s in
        elim (Bool-cases (b.bead_type == "advice")) [
          | inl y ↦ rw y (
              record_and_publish-Keeps json_valid env.links "beads.advice.created" b.id b.created_by
                (advice_created b) w1 s1)
          | inr n ↦ rw n s1
        ]

    persist-Keeps : (b : Bead) → IsValid json_valid b → Keeps json_valid (persist env b)
    persist-Keeps b v =
        let f = env.links.faults in
        let create = call f (query_create_bead b) in
        bind-Keeps json_valid (run_in_transaction f (insert_bead env b)) _
          (run_in_transaction-Keeps json_valid f (insert_bead env b) (
            bind-Keeps json_valid (wrapping "failed to create bead" create)
              (λ u. add_labels env b.id b.labels)
              (wrapping-Keeps json_valid "failed to create bead" create (
                call-Keeps json_valid f (query_create_bead b)
                  (λ t s. create_bead_query-IsSound json_valid b t v s)))
              (λ u. add_labels-Keeps b.id b.labels)))
          (λ u w s. announce_created-Keeps b w s)

    check_valid-Keeps :
        (es fs : List FieldError) (next : Action Bead)
        → (es ≡ [] → Keeps json_valid next)
        → Keeps json_valid (check_valid es fs next)
    check_valid-Keeps [] [] next k = k refl
    check_valid-Keeps [] (f ∷ fs) next k = λ w s. s
    check_valid-Keeps (e ∷ es) fs next k = λ w s. s

    module _ (same : env.json_valid ≡ json_valid) where
      pub checked-IsValid : (b : Bead) → validate_bead env.json_valid b ≡ [] → IsValid json_valid b
      checked-IsValid b h = subst (λ j. IsValid j b) same ((validate_bead_iff env.json_valid b).0 h)

      create_typed-Keeps :
          (in_ : CreateBeadInput) (id bead_type : String) (o : Option TypeConfig)
          → Keeps json_valid (create_typed env in_ id bead_type o)
      create_typed-Keeps in_ id bead_type none = λ w s. s
      create_typed-Keeps in_ id bead_type (some tc) =
          let b = new_bead env in_ id bead_type tc in
          check_valid-Keeps (validate_bead env.json_valid b)
            (validate_fields env.decoder b.fields tc.fields) (persist env b)
            (λ h. persist-Keeps b (checked-IsValid b h))

      create_with_id-Keeps :
          (in_ : CreateBeadInput) (o : Option String) → Keeps json_valid (create_with_id env in_ o)
      create_with_id-Keeps in_ none = λ w s. s
      create_with_id-Keeps in_ (some id) =
          let t = or_else in_.bead_type (Dict.get in_.bead_type type_aliases) in
          bind-Keeps json_valid
            (wrapping "failed to resolve type config" (resolve_type_config env t))
            (create_typed env in_ id t)
            (wrapping-Keeps json_valid "failed to resolve type config" (resolve_type_config env t)
              (resolve_type_config-Keeps t))
            (create_typed-Keeps in_ id t)

      refuse_if-Keeps :
          (test : Bool) (text : String) (next : Action Bead)
          → Keeps json_valid next
          → Keeps json_valid (refuse_if test text next)
      refuse_if-Keeps true text next k w s = s
      refuse_if-Keeps false text next k w s = k w s

      pub create_bead-Keeps : (in_ : CreateBeadInput) → Keeps json_valid (create_bead env in_)
      unfolding create_bead
      create_bead-Keeps in_ =
          refuse_if-Keeps (in_.title == "") "title is required" (create_with_id env in_ env.new_id)
            (create_with_id-Keeps in_ env.new_id)
