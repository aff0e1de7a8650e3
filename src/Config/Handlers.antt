-- ===== src/Config/Handlers.antt =====
-- The handlers of internal/server/http_config.go. A body that is none is no JSON of the request's form.
use kbeads.Prelude.{String, Option, none, some, ◌==◌, if◌then◌else◌}
use kbeads.Prelude.Dict
use kbeads.Prelude.Dict.{Dict}
use kbeads.Server.Store.{Answer, ok, fail, query_get_config}
use kbeads.Server.Actions.{World, call}
use kbeads.Server.Builtins.{builtin_configs}
use kbeads.Server.Beads.{Env}
use kbeads.Http.Replies.{
  Response, problem, empty, config, configs, bad_request, refuse_if, after, server_error,
  is_no_rows,
}
use kbeads.Http.Beads.{row_status}
use kbeads.Config.Rpc.{
  ConfigDatabase, query_set_config, query_delete_config, list_configs_with_builtins,
}

abbrev pub store_value : Env → String → Option String → World → Response × World
store_value env key none w = bad_request w
store_value env key (some value) w =
    after server_error (λ u v. ((200, config (key, value)), v))
      (call env.links.faults (query_set_config env key value) w)

unfoldable pub handle_set_config : Env → String → Option String → World → Response × World
handle_set_config env key body w = refuse_if (key == "") w (store_value env key body w)

abbrev pub show_builtin : String → Option String → World → Response × World
show_builtin key (some value) w = ((200, config (key, value)), w)
show_builtin key none w = ((404, problem), w)

abbrev pub show_config : String → Answer String × World → Response × World
show_config key (ok value, w) = ((200, config (key, value)), w)
show_config key (fail e, w) =
    if is_no_rows e then show_builtin key (Dict.get key builtin_configs) w else ((500, problem), w)

unfoldable pub handle_get_config : Env → String → World → Response × World
unfolding is_no_rows
handle_get_config env key w =
    refuse_if (key == "") w (show_config key (call env.links.faults (query_get_config key) w))

unfoldable pub handle_list_configs : ConfigDatabase → Env → String → World → Response × World
handle_list_configs db env namespace w = refuse_if (namespace == "") w (
    after server_error (λ cs v. ((200, configs cs), v))
      (list_configs_with_builtins db env namespace w))

unfoldable pub handle_delete_config : Env → String → World → Response × World
unfolding is_no_rows
handle_delete_config env key w = refuse_if (key == "") w (
    after row_status (λ u v. ((204, empty), v)) (call env.links.faults (query_delete_config key) w))
