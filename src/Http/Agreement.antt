-- ===== src/Http/Agreement.antt =====
-- The two transports of internal/server do the same: the handlers of http_beads.go and
-- http_relations.go against those of beads.go and server.go.
use kbeads.Prelude.{
  ℕ, String, Bool, arith, true, false, ◌||◌, Option, none, some, Bool-cases, List, [], ◌∷◌, ◌≢◌,
  ◌==◌, if◌then◌else◌, ◌≡◌, refl, sym, ap, ◌∙◌, inl, inr,
}
use kbeads.Server.Store.{
  Answer, ok, fail, Error, no_rows, input_error, fault, wrapped, query_add_label,
  query_remove_label, query_get_labels, query_get_dependencies, query_get_comments,
  query_get_config,
}
use kbeads.Server.Actions.{World, call}
use kbeads.Server.Rows.{
  query_delete_bead, query_add_dependency, query_remove_dependency, query_add_comment,
}
use kbeads.Prelude.Dict
use kbeads.Server.Builtins.{builtin_configs}
use kbeads.Server.Beads.{Env, CreateBeadInput, create_bead}
use kbeads.Server.Update.{UpdateBeadInput, update_bead, get_bead}
use kbeads.Server.Replies.{Code, Reply, answer, refuse_bad, store_error, internal_error}
use kbeads.Server.Relations.{
  delete_bead, add_dependency, remove_dependency, add_label, remove_label, add_comment,
}
use kbeads.Http.Replies.{
  Body, Response, empty, bead, dependency, comment, dependencies, labels, comments, events, config,
  configs, problem, refuse_if, after, server_error, is_no_rows, http_code, translated,
}
use kbeads.Http.Rpc.{
  grpc_create_bead, grpc_update_bead, grpc_get_bead, get_dependencies, get_labels, get_comments,
  get_events, query_get_events, given, given_labels, create_error, update_error,
}
use kbeads.Http.Beads.{
  handle_create_bead, handle_update_bead, handle_get_bead, handle_delete_bead, create_status,
  update_status, row_status,
}
use kbeads.Config.Rpc.{
  ConfigDatabase, query_set_config, query_delete_config, list_configs_with_builtins, or_builtin,
  found_config, set_config, get_config, list_configs, delete_config,
}
use kbeads.Config.Handlers.{
  show_builtin, show_config, handle_set_config, handle_get_config, handle_list_configs,
  handle_delete_config,
}
use kbeads.Http.Relations.{
  AddDependencyRequest, AddCommentRequest, dependency_of, comment_of, handle_add_dependency,
  handle_remove_dependency, handle_add_label, handle_remove_label, handle_add_comment,
  handle_get_dependencies, handle_get_labels, handle_get_comments, handle_get_events,
}

-- The calls that both transports offer, but for the listing of beads and the closing of one.
pub data Call : Type 0 where
  create : CreateBeadInput → Call
  update : String → UpdateBeadInput → Call
  fetch delete : String → Call
  link : String → AddDependencyRequest → Call
  unlink : String → String → String → Call
  label unlabel : String → String → Call
  remark : String → AddCommentRequest → Call
  dependencies_of labels_of comments_of events_of : String → Call
  store_config : String → String → Call
  config_at configs_in drop_config : String → Call

unfoldable pub over_http : ConfigDatabase → Env → Call → World → Response × World
over_http db env (create in_) w = handle_create_bead env (some in_) w
over_http db env (update id in_) w = handle_update_bead env id (some in_) w
over_http db env (fetch id) w = handle_get_bead env id w
over_http db env (delete id) w = handle_delete_bead env id w
over_http db env (link id req) w = handle_add_dependency env id (some req) w
over_http db env (unlink id on t) w = handle_remove_dependency env id on t w
over_http db env (label id l) w = handle_add_label env id (some l) w
over_http db env (unlabel id l) w = handle_remove_label env id l w
over_http db env (remark id req) w = handle_add_comment env id (some req) w
over_http db env (dependencies_of id) w = handle_get_dependencies env id w
over_http db env (labels_of id) w = handle_get_labels env id w
over_http db env (comments_of id) w = handle_get_comments env id w
over_http db env (events_of id) w = handle_get_events env id w
over_http db env (store_config key value) w = handle_set_config env key (some value) w
over_http db env (config_at key) w = handle_get_config env key w
over_http db env (configs_in namespace) w = handle_list_configs db env namespace w
over_http db env (drop_config key) w = handle_delete_config env key w

abbrev pub no_body : {A : Type 0} → A → Body
no_body a = empty

-- The gRPC answer, with the status code of its success.
unfoldable pub over_grpc : ConfigDatabase → Env → Call → World → Response × World
over_grpc db env (create in_) w = translated 201 bead (grpc_create_bead env in_ w)
over_grpc db env (update id in_) w = translated 200 bead (grpc_update_bead env id in_ w)
over_grpc db env (fetch id) w = translated 200 bead (grpc_get_bead env id w)
over_grpc db env (delete id) w = translated 204 no_body (delete_bead env id w)
over_grpc db env (link id req) w =
    translated 201 dependency
      (add_dependency env id req.depends_on_id req.dep_type req.created_by w)
over_grpc db env (unlink id on t) w = translated 204 no_body (remove_dependency env id on t w)
over_grpc db env (label id l) w = translated 201 bead (add_label env id l w)
over_grpc db env (unlabel id l) w = translated 204 no_body (remove_label env id l w)
over_grpc db env (remark id req) w =
    translated 201 comment (add_comment env id req.author req.text w)
over_grpc db env (dependencies_of id) w = translated 200 dependencies (get_dependencies env id w)
over_grpc db env (labels_of id) w = translated 200 labels (get_labels env id w)
over_grpc db env (comments_of id) w = translated 200 comments (get_comments env id w)
over_grpc db env (events_of id) w = translated 200 events (get_events env id w)
over_grpc db env (store_config key value) w = translated 200 config (set_config env key value w)
over_grpc db env (config_at key) w = translated 200 config (get_config env key w)
over_grpc db env (configs_in namespace) w = translated 200 configs (list_configs db env namespace w)
over_grpc db env (drop_config key) w = translated 204 no_body (delete_config env key w)

-- The errors of both transports.
create_codes : (e : Error) → create_status e ≡ http_code (create_error e)
create_codes e = ground arith

update_codes : (e : Error) → update_status e ≡ http_code (update_error e)
update_codes e = ground arith

pub row_codes : (e : Error) → row_status e ≡ http_code (store_error e)
unfolding is_no_rows store_error
row_codes no_rows = refl
row_codes (wrapped text e) = row_codes e
row_codes (input_error text es) = refl
row_codes (fault why) = refl

-- A check, two checks in a row, and a call that is followed alike.
module _ {B : Type 0} (n : ℕ) (body : B → Body) where
  pub refused :
      (c : Bool) (w : World) (r : Response × World) (s : Reply B × World)
      → r ≡ translated n body s
      → refuse_if c w r ≡ translated n body (refuse_bad c w s)
  refused true w r s h = refl
  refused false w r s h = h

  refused_twice :
      (a b : Bool) (w : World) (r : Response × World) (s : Reply B × World)
      → r ≡ translated n body s
      → refuse_if a w (refuse_if b w r) ≡ translated n body (refuse_bad (a || b) w s)
  refused_twice true b w r s h = refl
  refused_twice false b w r s h = refused b w r s h

  followed :
      {A : Type 0} (status : Error → ℕ) (code : Error → Code) (next : A → World → Response × World)
      (go : A → World → Reply B × World)
      → ((e : Error) → status e ≡ http_code (code e))
      → ((a : A) (w : World) → next a w ≡ translated n body (go a w))
      → (r : Answer A × World) → after status next r ≡ translated n body (answer code go r)
  followed status code next go codes same (ok a, w) = same a w
  followed status code next go codes same (fail e, w) = rw (codes e) refl

  -- Any error of the call is the server's.
  answered_alike :
      {A : Type 0} (next : A → World → Response × World) (go : A → World → Reply B × World)
      → ((a : A) (w : World) → next a w ≡ translated n body (go a w))
      → (r : Answer A × World)
      → after server_error next r ≡ translated n body (answer internal_error go r)
  answered_alike next go same r = followed server_error internal_error next go (λ e. refl) same r

row_code :
    (e : Error) (b : Bool) → is_no_rows e ≡ b → (if b then 404 else 500) ≡ http_code (store_error e)
row_code e b h = ap (λ x. if x then 404 else 500) (sym h) ∙ row_codes e

-- What a failed read of a config is answered with.
builtin_alike :
    (e : Error) (key : String) (builtin : Option String) (w : World)
    → is_no_rows e ≡ true
    → show_builtin key builtin w ≡ translated 200 config (or_builtin e key builtin w)
builtin_alike e key (some value) w h = refl
builtin_alike e key none w h = ap (λ n. ((n, problem), w)) (row_code e true h)

found_alike :
    (key : String) (r : Answer String × World)
    → show_config key r ≡ translated 200 config (found_config key r)
found_alike key (ok value, w) = refl
found_alike key (fail e, w) = elim (Bool-cases (is_no_rows e)) [
  | inl y ↦ rw y (builtin_alike e key (Dict.get key builtin_configs) w y)
  | inr n ↦ rw n (ap (λ n. ((n, problem), w)) (row_code e false n))
]

-- What a message of gRPC can say: it has no null for a time, and no empty list of labels.
abbrev pub IsSendable : Call → Type 0
IsSendable (update id in_) =
    (in_.labels ≢ some []) × (in_.due_at ≢ some none) × (in_.defer_until ≢ some none)
IsSendable _ = Unit

given_labels-same : (o : Option (List String)) → o ≢ some [] → given_labels o ≡ o
given_labels-same none h = refl
given_labels-same (some []) h = absurd (h refl)
given_labels-same (some (l ∷ ls)) h = refl

-- Updating over HTTP, in the words of gRPC.
pub handle_update_bead-translated :
    (env : Env) (id : String) (in_ : UpdateBeadInput) (w : World)
    → handle_update_bead env id (some in_) w
      ≡ translated 200 bead
          (refuse_bad (id == "") w (answer update_error given (update_bead env id in_ w)))
unfolding handle_update_bead
handle_update_bead-translated env id in_ w = refused 200 bead (id == "") w _ _ (
    followed 200 bead update_status update_error _ _ update_codes (λ b v. refl)
      (update_bead env id in_ w))

-- For the same call on the same state, one of those that Call has and a message of gRPC can hold, the two
-- transports leave the same state, with the same events and messages sent, and the HTTP response is the
-- gRPC answer: the value with the status code of its success, or 400, 404 or 500 for an invalid argument,
-- what is not found, or an internal error. Listing and closing beads are not among these calls, nor an
-- update to no labels or to no time, and a panic of updateBead counts as an internal error.
pub transports_agree :
    (db : ConfigDatabase) (env : Env) (c : Call) (w : World)
    → IsSendable c
    → over_http db env c w ≡ over_grpc db env c w
unfolding over_http over_grpc handle_create_bead grpc_create_bead handle_update_bead
    grpc_update_bead handle_get_bead grpc_get_bead handle_delete_bead delete_bead
    handle_add_dependency add_dependency handle_remove_dependency remove_dependency handle_add_label
    add_label handle_remove_label remove_label handle_add_comment add_comment
    handle_get_dependencies get_dependencies handle_get_labels get_labels handle_get_comments
    get_comments handle_get_events get_events handle_set_config set_config handle_get_config
    get_config handle_list_configs list_configs handle_delete_config delete_config
transports_agree db env (create in_) w sendable =
    followed 201 bead create_status create_error _ _ create_codes (λ b v. refl)
      (create_bead env in_ w)
transports_agree db env (update id in_) w sendable =
    handle_update_bead-translated env id in_ w
    ∙ ap
        (λ ls. translated 200 bead (
          refuse_bad (id == "") w
            (answer update_error given (update_bead env id (record in_ { labels = ls }) w))))
        (sym (given_labels-same in_.labels sendable.0))
transports_agree db env (fetch id) w sendable =
    refused 200 bead (id == "") w _ _
      (followed 200 bead row_status store_error _ _ row_codes (λ b v. refl) (get_bead env id w))
transports_agree db env (delete id) w sendable = refused 204 no_body (id == "") w _ _ (
    followed 204 no_body row_status store_error _ _ row_codes (λ u v. refl)
      (call env.links.faults (query_delete_bead id) w))
transports_agree db env (link id req) w sendable =
    refused_twice 201 dependency (id == "") (req.depends_on_id == "") w _ _ (
      answered_alike 201 dependency _ _ (λ u v. refl)
        (call env.links.faults (query_add_dependency (dependency_of env id req)) w))
transports_agree db env (unlink id on t) w sendable =
    refused_twice 204 no_body (id == "") (on == "") w _ _ (
      answered_alike 204 no_body _ _ (λ u v. refl)
        (call env.links.faults (query_remove_dependency id on t) w))
transports_agree db env (label id l) w sendable =
    refused_twice 201 bead (id == "") (l == "") w _ _ (
      answered_alike 201 bead _ _
        (λ u v. answered_alike 201 bead _ _ (λ b v1. refl) (get_bead env id _))
        (call env.links.faults (query_add_label id l) w))
transports_agree db env (unlabel id l) w sendable =
    refused_twice 204 no_body (id == "") (l == "") w _ _ (
      answered_alike 204 no_body _ _ (λ u v. refl)
        (call env.links.faults (query_remove_label id l) w))
transports_agree db env (remark id req) w sendable =
    refused_twice 201 comment (id == "") (req.text == "") w _ _ (
      answered_alike 201 comment _ _ (λ u v. refl)
        (call env.links.faults (query_add_comment env.store_now (comment_of env id req)) w))
transports_agree db env (dependencies_of id) w sendable =
    refused 200 dependencies (id == "") w _ _ (
      answered_alike 200 dependencies _ _ (λ a v. refl)
        (call env.links.faults (query_get_dependencies id) w))
transports_agree db env (labels_of id) w sendable =
    refused 200 labels (id == "") w _ _
      (answered_alike 200 labels _ _ (λ a v. refl) (call env.links.faults (query_get_labels id) w))
transports_agree db env (comments_of id) w sendable = refused 200 comments (id == "") w _ _ (
    answered_alike 200 comments _ _ (λ a v. refl) (call env.links.faults (query_get_comments id) w))
transports_agree db env (events_of id) w sendable =
    refused 200 events (id == "") w _ _
      (answered_alike 200 events _ _ (λ a v. refl) (call env.links.faults (query_get_events id) w))
transports_agree db env (store_config key value) w sendable = refused 200 config (key == "") w _ _ (
    answered_alike 200 config _ _ (λ u v. refl)
      (call env.links.faults (query_set_config env key value) w))
transports_agree db env (config_at key) w sendable =
    refused 200 config (key == "") w _ _
      (found_alike key (call env.links.faults (query_get_config key) w))
transports_agree db env (configs_in namespace) w sendable =
    refused 200 configs (namespace == "") w _ _ (
      answered_alike 200 configs _ _ (λ cs v. refl) (list_configs_with_builtins db env namespace w))
transports_agree db env (drop_config key) w sendable = refused 204 no_body (key == "") w _ _ (
    followed 204 no_body row_status store_error _ _ row_codes (λ u v. refl)
      (call env.links.faults (query_delete_config key) w))
