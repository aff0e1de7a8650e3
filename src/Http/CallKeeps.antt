-- ===== src/Http/CallKeeps.antt =====
-- A call over either transport, over a sound store.
use kbeads.Prelude.{
  subst, sym, ◌⊎◌, refl, ℕ, String, Bool, Option, none, some, ◌==◌, ◌≡◌, inl, inr, Bool-cases,
}
use kbeads.Prelude.Dict
use kbeads.Prelude.Dict.{Dict}
use kbeads.Server.Store.{
  Answer, ok, fail, no_rows, Error, Tables, query_get_labels, query_get_dependencies,
  query_get_comments, query_get_config,
}
use kbeads.Server.Actions.{World, call}
use kbeads.Server.Builtins.{builtin_configs}
use kbeads.Server.Beads.{Env, create_bead}
use kbeads.Server.Update.{update_bead, get_bead}
use kbeads.Server.Replies.{Code, Reply, answer, refuse_bad, store_error, internal_error}
use kbeads.Server.Soundness.{IsSound}
use kbeads.Server.Keeps.{QueryKeeps, call-Keeps, bind-Keeps, answer-Keeps, refuse_bad-Keeps}
use kbeads.Server.KeepsCreate.{create_bead-Keeps, get_bead-Keeps}
use kbeads.Server.KeepsUpdate.{update_bead-Keeps}
use kbeads.Server.KeepsHandlers.{
  delete_bead-Keeps, add_dependency-Keeps, remove_dependency-Keeps, remove_label-Keeps,
  add_comment-Keeps, add_label-Keeps,
}
use kbeads.Config.Rpc.{
  ConfigDatabase, query_set_config, query_list_configs, query_delete_config, delete_found,
  list_configs_with_builtins, or_builtin, found_config, set_config, get_config, list_configs,
  delete_config,
}
use kbeads.Http.Replies.{
  bead, dependency, comment, dependencies, labels, comments, events, config, configs, Body,
  translated, is_no_rows,
}
use kbeads.Http.Rpc.{
  create_error, update_error, given, grpc_create_bead, grpc_update_bead, grpc_get_bead, read,
  get_dependencies, get_labels, get_comments, get_events, query_get_events,
}
use kbeads.Server.Update.{UpdateBeadInput}
use kbeads.Http.Replies.{Response}
use kbeads.Http.Rpc.{given_labels}
use kbeads.Http.Agreement.{
  IsSendable, over_http, transports_agree, handle_update_bead-translated, Call, create, update,
  fetch, delete, link, unlink, label, unlabel, remark, dependencies_of, labels_of, comments_of,
  events_of, store_config, config_at, configs_in, drop_config, over_grpc, no_body,
}

module _ (json_valid : String → Bool) where
  translated-Keeps :
      {B : Type 0} (n : ℕ) (body : B → Body) (r : Reply B × World)
      → IsSound json_valid r.1.tables
      → IsSound json_valid (translated n body r).1.tables
  translated-Keeps n body (inl b, w) s = s
  translated-Keeps n body (inr c, w) s = s

  with_configs :
      (t : Tables) (m : Dict String)
      → IsSound json_valid t
      → IsSound json_valid (record t { configs = m })
  with_configs t m s = record { rows = s.rows; refs = s.refs }

  module _ (env : Env) where
    -- A handler of one statement that sends nothing.
    read_like :
        {A B : Type 0} (id : String) (query : Tables → Answer A × Tables) (w : World)
        (result : A → B) (code : Error → Code)
        → QueryKeeps json_valid query
        → IsSound json_valid w.tables
        → IsSound json_valid
            (refuse_bad
              (id == "")
              w
              (answer code (λ a v. (inl (result a), v)) (call env.links.faults query w))).1.tables
    read_like {A = A} {B = B} id query w result code k s =
        let next : A → World → Reply B × World = λ a v. (inl (result a), v) in
        refuse_bad-Keeps json_valid (id == "") w (answer code next (call env.links.faults query w))
          s
          (answer-Keeps json_valid code next (call env.links.faults query w) (λ a v s1. s1)
            (call-Keeps json_valid env.links.faults query k w s))

    read-Keeps :
        {A : Type 0} (id : String) (query : Tables → Answer A × Tables) (w : World)
        → QueryKeeps json_valid query
        → IsSound json_valid w.tables
        → IsSound json_valid (read env id query w).1.tables
    read-Keeps id query w k s = read_like id query w (λ a. a) internal_error k s

    set_query-Keeps : (key value : String) → QueryKeeps json_valid (query_set_config env key value)
    unfolding query_set_config
    set_query-Keeps key value t s = elim (Bool-cases (env.json_valid value)) [
      | inl y ↦ rw y (with_configs t (Dict.put key value t.configs) s)
      | inr n ↦ rw n s
    ]

    delete_found-Keeps :
        (o : Option String) (key : String) → QueryKeeps json_valid (delete_found o key)
    delete_found-Keeps none key t s = s
    delete_found-Keeps (some v) key t s = with_configs t (Dict.remove key t.configs) s

    get_query-Keeps : (key : String) → QueryKeeps json_valid (query_get_config key)
    unfolding query_get_config
    get_query-Keeps key t s = kept (Dict.get key t.configs)
      where
        kept :
            (o : Option String)
            → let r : Answer String × Tables = elim o [
              | none ↦ (fail no_rows, t)
              | some v ↦ (ok v, t)
            ] in
              IsSound json_valid r.1
        kept none = s
        kept (some v) = s

    found_config-Keeps :
        (key : String) (r : Answer String × World)
        → IsSound json_valid r.1.tables
        → IsSound json_valid (found_config key r).1.tables
    found_config-Keeps key (ok v, w) s = s
    found_config-Keeps key (fail e, w) s = elim (Bool-cases (is_no_rows e)) [
      | inl y ↦ rw y (builtin (Dict.get key builtin_configs))
      | inr n ↦ rw n s
    ]
      where
        builtin : (o : Option String) → IsSound json_valid (or_builtin e key o w).1.tables
        builtin none = s
        builtin (some v) = s

    updated-Keeps :
        env.json_valid ≡ json_valid
        → (id : String) (in_ : UpdateBeadInput) (w : World) → IsSound json_valid w.tables
        → IsSound json_valid
            (translated 200 bead (
              refuse_bad
                (id == "")
                w
                (answer update_error given (update_bead env id in_ w)))).1.tables
    updated-Keeps same id in_ w s = translated-Keeps 200 bead _ (
        refuse_bad-Keeps json_valid (id == "") w _ s (
          answer-Keeps json_valid update_error given (update_bead env id in_ w) (λ a v s1. s1)
            (update_bead-Keeps json_valid env same id in_ w s)))

    pub over_grpc-Keeps :
        (db : ConfigDatabase)
        → env.json_valid ≡ json_valid
        → (c : Call) (w : World) → IsSound json_valid w.tables
        → IsSound json_valid (over_grpc db env c w).1.tables
    unfolding over_grpc grpc_create_bead grpc_update_bead grpc_get_bead get_dependencies get_labels
        get_comments get_events query_get_dependencies query_get_labels query_get_comments
        query_get_events set_config get_config list_configs delete_config list_configs_with_builtins
        query_list_configs query_delete_config
    over_grpc-Keeps db same (create in_) w s = translated-Keeps 201 bead _ (
        answer-Keeps json_valid create_error given (create_bead env in_ w) (λ a v s1. s1)
          (create_bead-Keeps json_valid env same in_ w s))
    over_grpc-Keeps db same (update id in_) w s =
        updated-Keeps same id (record in_ { labels = given_labels in_.labels }) w s
    over_grpc-Keeps db same (fetch id) w s = translated-Keeps 200 bead _ (
        refuse_bad-Keeps json_valid (id == "") w _ s (
          answer-Keeps json_valid store_error given (get_bead env id w) (λ a v s1. s1)
            (get_bead-Keeps json_valid env id w s)))
    over_grpc-Keeps db same (delete id) w s =
        translated-Keeps 204 no_body _ (delete_bead-Keeps json_valid env id w s)
    over_grpc-Keeps db same (link id req) w s =
        translated-Keeps 201 dependency _
          (add_dependency-Keeps json_valid env id req.depends_on_id req.dep_type req.created_by w s)
    over_grpc-Keeps db same (unlink id on t) w s =
        translated-Keeps 204 no_body _ (remove_dependency-Keeps json_valid env id on t w s)
    over_grpc-Keeps db same (label id l) w s =
        translated-Keeps 201 bead _ (add_label-Keeps json_valid env id l w s)
    over_grpc-Keeps db same (unlabel id l) w s =
        translated-Keeps 204 no_body _ (remove_label-Keeps json_valid env id l w s)
    over_grpc-Keeps db same (remark id req) w s =
        translated-Keeps 201 comment _ (add_comment-Keeps json_valid env id req.author req.text w s)
    over_grpc-Keeps db same (dependencies_of id) w s =
        translated-Keeps 200 dependencies _
          (read-Keeps id (query_get_dependencies id) w (λ t s1. s1) s)
    over_grpc-Keeps db same (labels_of id) w s =
        translated-Keeps 200 labels _ (read-Keeps id (query_get_labels id) w (λ t s1. s1) s)
    over_grpc-Keeps db same (comments_of id) w s =
        translated-Keeps 200 comments _ (read-Keeps id (query_get_comments id) w (λ t s1. s1) s)
    over_grpc-Keeps db same (events_of id) w s =
        translated-Keeps 200 events _ (read-Keeps id (query_get_events id) w (λ t s1. s1) s)
    over_grpc-Keeps db same (store_config key value) w s = translated-Keeps 200 config _ (
        read_like key (query_set_config env key value) w (λ u. (key, value)) internal_error
          (set_query-Keeps key value) s)
    over_grpc-Keeps db same (config_at key) w s = translated-Keeps 200 config _ (
        refuse_bad-Keeps json_valid (key == "") w _ s (
          found_config-Keeps key (call env.links.faults (query_get_config key) w) (
            call-Keeps json_valid env.links.faults (query_get_config key) (get_query-Keeps key) w
              s)))
    over_grpc-Keeps db same (configs_in namespace) w s = translated-Keeps 200 configs _ (
        refuse_bad-Keeps json_valid (namespace == "") w _ s (
          answer-Keeps json_valid internal_error given
            (list_configs_with_builtins db env namespace w) (λ a v s1. s1)
            (bind-Keeps json_valid (call env.links.faults (query_list_configs db namespace)) _
              (call-Keeps json_valid env.links.faults (query_list_configs db namespace)
                (λ t s1. s1))
              (λ stored v s1. s1) w s)))
    over_grpc-Keeps db same (drop_config key) w s = translated-Keeps 204 no_body _ (
        read_like key (query_delete_config key) w (λ u. u) store_error
          (λ t s1. delete_found-Keeps (Dict.get key t.configs) key t s1) s)

    -- Over HTTP an update need not be one that a message of gRPC can hold.
    update_or_IsSendable :
        (c : Call) → ((id : String) × (in_ : UpdateBeadInput) × (c ≡ update id in_)) ⊎ IsSendable c
    update_or_IsSendable (update id in_) = inl (id, in_, refl)
    update_or_IsSendable (create in_) = inr tt
    update_or_IsSendable (fetch id) = inr tt
    update_or_IsSendable (delete id) = inr tt
    update_or_IsSendable (link id req) = inr tt
    update_or_IsSendable (unlink id on t) = inr tt
    update_or_IsSendable (label id l) = inr tt
    update_or_IsSendable (unlabel id l) = inr tt
    update_or_IsSendable (remark id req) = inr tt
    update_or_IsSendable (dependencies_of id) = inr tt
    update_or_IsSendable (labels_of id) = inr tt
    update_or_IsSendable (comments_of id) = inr tt
    update_or_IsSendable (events_of id) = inr tt
    update_or_IsSendable (store_config key value) = inr tt
    update_or_IsSendable (config_at key) = inr tt
    update_or_IsSendable (configs_in namespace) = inr tt
    update_or_IsSendable (drop_config key) = inr tt

    pub over_http-Keeps :
        (db : ConfigDatabase)
        → env.json_valid ≡ json_valid
        → (c : Call) (w : World) → IsSound json_valid w.tables
        → IsSound json_valid (over_http db env c w).1.tables
    unfolding over_http
    over_http-Keeps db same c w s = elim (update_or_IsSendable c) [
      | inl (id, in_, e) ↦
          let sound : IsSound json_valid (over_http db env (update id in_) w).1.tables =
            subst (λ (x : Response × World). IsSound json_valid x.1.tables)
              (sym (handle_update_bead-translated env id in_ w)) (updated-Keeps same id in_ w s) in
          subst (λ (x : Call). IsSound json_valid (over_http db env x w).1.tables) (sym e) sound
      | inr sendable ↦
          subst (λ (x : Response × World). IsSound json_valid x.1.tables)
            (sym (transports_agree db env c w sendable)) (over_grpc-Keeps db same c w s)
    ]
