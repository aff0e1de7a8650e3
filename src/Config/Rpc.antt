-- ===== src/Config/Rpc.antt =====
-- The statements on the table of configs (queries.go) and the gRPC handlers of
-- internal/server/config.go. The times of a row are left out. LIKE and ORDER BY are the database's.
use kbeads.Prelude.{
  String, Bool, false, not, ◌&&◌, ◌++◌, Option, none, some, map, keep, mem, ◌==◌, if◌then◌else◌,
  inl, inr,
}
use mathlib.Core.Option
use kbeads.Prelude.Text.{append, is_char}
use kbeads.Prelude.Dict
use kbeads.Prelude.Dict.{Dict}
use kbeads.Server.Store.{Answer, ok, fail, Error, no_rows, fault, Tables, query_get_config}
use kbeads.Server.Actions.{World, Action, call, bind, pure}
use kbeads.Server.Builtins.{builtin_configs}
use kbeads.Server.Beads.{Env}
use kbeads.Server.Replies.{Reply, answer, refuse_bad, store_error, internal_error}
use kbeads.Http.Replies.{is_no_rows}
use kbeads.Http.Rpc.{given}

-- What the database computes: `key LIKE pattern`, and ORDER BY key.
pub record ConfigDatabase : Type 0 where
  pub like : String → String → Bool
  pub order_by_key : Dict String → Dict String

-- INSERT INTO configs ... ON CONFLICT DO UPDATE; a JSONB column refuses what is no JSON.
unfoldable pub query_set_config : Env → String → String → Tables → Answer Unit × Tables
query_set_config env key value t =
    if env.json_valid value
    then (ok tt, record t { configs = Dict.put key value t.configs })
    else (fail (fault "invalid input syntax for type json"), t)

-- WHERE key LIKE $1 || ':%' ORDER BY key
unfoldable pub query_list_configs : ConfigDatabase → String → Tables → Answer (Dict String) × Tables
query_list_configs db namespace t =
    let pattern = append namespace ":%" in
    (ok (db.order_by_key (keep (λ c. db.like c.0 pattern) t.configs)), t)

abbrev pub delete_found : Option String → String → Tables → Answer Unit × Tables
delete_found none key t = (fail no_rows, t)
delete_found (some value) key t = (ok tt, record t { configs = Dict.remove key t.configs })

-- DELETE FROM configs WHERE key = $1; no row is sql.ErrNoRows.
unfoldable pub query_delete_config : String → Tables → Answer Unit × Tables
query_delete_config key t = delete_found (Dict.get key t.configs) key t

-- key[:i] for i = strings.Index(key, ":"), if there is a colon.
unfoldable pub before_colon : String → Option String
before_colon String.[] = none
before_colon (String.◌∷◌ c s) =
    let rest = before_colon s in if is_char b':' c then some "" else Option.map (String.◌∷◌ c) rest

-- The index of the colon is positive.
abbrev pub in_namespace : String → Option String → Bool
in_namespace namespace none = false
in_namespace namespace (some p) = not (p == "") && p == namespace

-- builtinConfigsByNamespace[namespace]
unfoldable pub builtins_of : String → Dict String
unfolding before_colon
builtins_of namespace = keep (λ b. in_namespace namespace (before_colon b.0)) builtin_configs

-- A builtin is merged in where its key is not stored.
unfoldable pub merge_builtins : String → Dict String → Dict String
unfolding builtins_of
merge_builtins namespace stored =
    stored ++ keep (λ b. not (mem b.0 (map (λ c. c.0) stored))) (builtins_of namespace)

unfoldable pub list_configs_with_builtins : ConfigDatabase → Env → String → Action (Dict String)
unfolding query_list_configs merge_builtins
list_configs_with_builtins db env namespace =
    bind (call env.links.faults (query_list_configs db namespace))
      (λ stored. pure (merge_builtins namespace stored))

unfoldable pub set_config : Env → String → String → World → Reply (String × String) × World
unfolding query_set_config
set_config env key value w = refuse_bad (key == "") w (
    answer internal_error (λ u v. (inl (key, value), v))
      (call env.links.faults (query_set_config env key value) w))

-- A missing row falls back on the builtin config; other errors, and no builtin, go to storeError.
abbrev pub or_builtin : Error → String → Option String → World → Reply (String × String) × World
or_builtin e key (some value) w = (inl (key, value), w)
or_builtin e key none w = (inr (store_error e), w)

abbrev pub found_config : String → Answer String × World → Reply (String × String) × World
found_config key (ok value, w) = (inl (key, value), w)
found_config key (fail e, w) =
    if is_no_rows e
    then or_builtin e key (Dict.get key builtin_configs) w
    else (inr (store_error e), w)

unfoldable pub get_config : Env → String → World → Reply (String × String) × World
unfolding is_no_rows store_error
get_config env key w =
    refuse_bad (key == "") w (found_config key (call env.links.faults (query_get_config key) w))

unfoldable pub list_configs : ConfigDatabase → Env → String → World → Reply (Dict String) × World
list_configs db env namespace w =
    refuse_bad (namespace == "") w
      (answer internal_error given (list_configs_with_builtins db env namespace w))

unfoldable pub delete_config : Env → String → World → Reply Unit × World
unfolding query_delete_config store_error
delete_config env key w =
    refuse_bad (key == "") w
      (answer store_error given (call env.links.faults (query_delete_config key) w))
