-- ===== src/Config/Tests.antt =====
-- Listing the configs of a store with an override, and the theorem there.
use kbeads.Prelude.{ℕ, String, true, [], ◌∷◌, List, Option, none, some, ◌≡◌, refl, ◌↔◌, inl, Elem}
use kbeads.Prelude.Text.{append, has_prefix}
use kbeads.Prelude.Dict.{Dict}
use kbeads.Server.Actions.{World}
use kbeads.Server.Samples.{world_of, env}
use kbeads.Config.Rpc.{ConfigDatabase, list_configs, get_config}
use kbeads.Config.Listing.{list_configs_lem}

abbrev world : World
world =
    world_of [] [] []
      (("view:ready", "{\"limit\":9}") ∷ ("view:mine", "{}") ∷ ("type:task", "{}") ∷ [])

abbrev without_last : String → String
without_last String.[] = ""
without_last (String.◌∷◌ c String.[]) = ""
without_last (String.◌∷◌ c (String.◌∷◌ d s)) = String.◌∷◌ c (without_last (String.◌∷◌ d s))

-- A pattern that ends in its only wildcard.
abbrev db : ConfigDatabase
db = record { like = λ k pattern. has_prefix k (without_last pattern); order_by_key = λ m. m }

-- The override replaces the builtin.
views :
    (list_configs db (env none) "view" world).0
    ≡ inl (("view:ready", "{\"limit\":9}") ∷ ("view:mine", "{}") ∷ [])
unfolding list_configs kbeads.Config.Rpc.list_configs_with_builtins
    kbeads.Config.Rpc.query_list_configs kbeads.Config.Rpc.merge_builtins
    kbeads.Config.Rpc.builtins_of kbeads.Config.Rpc.before_colon kbeads.Server.Actions.call
views = refl

list_configs_lem_example :
    (listed : Dict String) × ((list_configs db (env none) "view" world).0 ≡ inl listed)
    × ((k v : String)
        → Elem (k, v) listed ↔ (
            (has_prefix k (append "view" ":") ≡ true)
            × ((get_config (env none) k world).0 ≡ inl (k, v))))
unfolding kbeads.Prelude.Dict.get
list_configs_lem_example =
    list_configs_lem db (env none) "view" world refl (λ i. refl) (refl, (refl, (refl, tt)))
      (λ k. refl) (λ m c. (λ h. h, λ h. h))
