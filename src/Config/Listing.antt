-- ===== src/Config/Listing.antt =====
-- ListConfigs lists what GetConfig finds (internal/server/config.go).
use kbeads.Prelude.{
  ℕ, suc, String, true, false, not, Option, none, some, map, keep, mem, ◌==◌, inl, inr, ◌≡◌, ◌↔◌,
  refl, sym, ap, ◌∙◌, arith, eq_iff, eq_refl, Bool-cases, Elem, Elem-keep, Elem-keep_of,
  Elem-append, Elem-append_left, Elem-append_right, mem_iff, All-Elem,
}
use kbeads.Prelude.Text.{append, has_prefix}
use kbeads.Prelude.Dict
use kbeads.Prelude.Dict.{Dict, Distinct}
use kbeads.Server.Builtins.{builtin_configs}
use kbeads.Server.Store.{ok, fail, no_rows, Tables, query_get_config}
use kbeads.Server.Actions.{World, call, with_tables}
use kbeads.Server.Beads.{Env}
use kbeads.Http.Replies.{is_no_rows}
use kbeads.Config.Rpc.{
  ConfigDatabase, before_colon, in_namespace, builtins_of, merge_builtins, or_builtin, get_config,
  list_configs, query_list_configs, list_configs_with_builtins, found_config,
}
use kbeads.Config.Colons.{one_colon, before_colon-prefix, prefix-before_colon}
use kbeads.Config.Entries.{
  get→Elem, Elem→get, Elem-keys, keys-Elem, builtins-Distinct, builtins_one_colon,
}

-- The config of a key: what is stored, or else the builtin.
abbrev effective_of : Option String → Option String → Option String
effective_of (some value) builtin = some value
effective_of none builtin = builtin

abbrev effective : String → Tables → Option String
effective key t = effective_of (Dict.get key t.configs) (Dict.get key builtin_configs)

some-eq : {A : Type 0} {a b : A} → some a ≡ some b → a ≡ b
some-eq {A} {a} h = ap (λ (o : Option A). elim o [ none ↦ a | some x ↦ x ]) h

or_builtin_iff :
    (key value : String) (builtin : Option String) (w : World)
    → ((or_builtin no_rows key builtin w).0 ≡ inl (key, value)) ↔ (builtin ≡ some value)
or_builtin_iff key value none w = (λ h. cc, λ h. cc)
or_builtin_iff key value (some v) w = (λ h. cc, λ h. cc)

found_iff :
    (key value : String) (o : Option String) (t : Tables) (w : World)
    → ((found_config key
          (with_tables w (elim o [ none ↦ (fail no_rows, t) | some v ↦ (ok v, t) ]))).0
        ≡ inl (key, value))
      ↔ (effective_of o (Dict.get key builtin_configs) ≡ some value)
unfolding is_no_rows
found_iff key value none t w =
    or_builtin_iff key value (Dict.get key builtin_configs) (record w { tables = t })
found_iff key value (some v) t w = (λ h. cc, λ h. cc)

get_config_iff :
    (env : Env) (key value : String) (w : World)
    → key == "" ≡ false
    → env.links.faults w.calls ≡ none
    → ((get_config env key w).0 ≡ inl (key, value)) ↔ (effective key w.tables ≡ some value)
unfolding get_config query_get_config call
get_config_iff env key value w named free =
    rw (named, free)
      (found_iff key value (Dict.get key w.tables.configs) w.tables
        (record w { calls = suc w.calls }))

in_namespace-some :
    (namespace : String) (o : Option String) → in_namespace namespace o ≡ true → o ≡ some namespace
in_namespace-some namespace none h = cc
in_namespace-some namespace (some p) h = ground (arith, eq_iff p namespace)

module _ (namespace : String) (configs : Dict String) (d : Distinct configs) where
  -- What the database gives for a namespace: its stored configs, in any order.
  abbrev IsStored : Dict String → Type 0
  IsStored stored =
      (k v : String)
      → Elem (k, v) stored ↔ ((has_prefix k (append namespace ":") ≡ true) × Elem (k, v) configs)

  module _ (stored : Dict String) (is : IsStored stored) where
    -- A key of the namespace is among the stored ones exactly if it has a config.
    stored-get :
        (k : String)
        → mem k (map (λ c. c.0) stored) ≡ true
        → (v : String) × (Dict.get k configs ≡ some v)
    stored-get k h =
        let (v, there) = keys-Elem k stored ((mem_iff k (map (λ c. c.0) stored)).0 h) in
        (v, Elem→get k v configs d ((is k v).0 there).1)

    get-stored :
        (k v : String)
        → has_prefix k (append namespace ":") ≡ true
        → Dict.get k configs ≡ some v
        → mem k (map (λ c. c.0) stored) ≡ true
    get-stored k v pre h =
        (mem_iff k (map (λ c. c.0) stored)).1
          (Elem-keys k v stored ((is k v).1 (pre, get→Elem k v configs h)))

    builtin-effective :
        (k v : String) (o : Option String)
        → Dict.get k configs ≡ o
        → mem k (map (λ c. c.0) stored) ≡ false
        → has_prefix k (append namespace ":") ≡ true
        → Elem (k, v) builtin_configs
        → effective_of o (Dict.get k builtin_configs) ≡ some v
    builtin-effective k v none e fresh pre there =
        Elem→get k v builtin_configs builtins-Distinct there
    builtin-effective k v (some x) e fresh pre there = let m = get-stored k x pre e in cc

    merged-effective :
        (k v : String)
        → Elem (k, v) (merge_builtins namespace stored)
        → (has_prefix k (append namespace ":") ≡ true)
          × (effective_of (Dict.get k configs) (Dict.get k builtin_configs) ≡ some v)
    unfolding merge_builtins builtins_of
    merged-effective k v h =
        elim (Elem-append (k, v) stored
          (keep (λ b. not (mem b.0 (map (λ c. c.0) stored))) (builtins_of namespace)) h) [
            | inl s ↦ let (pre, here) = (is k v).0 s in (pre, rw (Elem→get k v configs d here) refl)
            | inr b ↦
                let (fresh, inside) =
                  Elem-keep (k, v) (λ b. not (mem b.0 (map (λ c. c.0) stored)))
                    (builtins_of namespace) b in
                let (of, there) =
                  Elem-keep (k, v) (λ b. in_namespace namespace (before_colon b.0)) builtin_configs
                    inside in
                let pre =
                  before_colon-prefix k namespace
                    (in_namespace-some namespace (before_colon k) of) in
                (
                  pre,
                  builtin-effective k v (Dict.get k configs) refl (ground (arith, fresh)) pre there,
                )
          ]

    effective-merged_of :
        (k v : String) (o : Option String)
        → Dict.get k configs ≡ o
        → namespace == "" ≡ false
        → has_prefix k (append namespace ":") ≡ true
        → effective_of o (Dict.get k builtin_configs) ≡ some v
        → Elem (k, v) (merge_builtins namespace stored)
    unfolding merge_builtins builtins_of
    effective-merged_of k v (some x) e named pre h =
        let here = get→Elem k v configs (e ∙ h) in
        Elem-append_left (k, v) stored _ ((is k v).1 (pre, here))
    effective-merged_of k v none e named pre h =
        let there = get→Elem k v builtin_configs h in
        let of =
          prefix-before_colon k namespace
            (All-Elem (λ b. one_colon b.0 ≡ true) (k, v) builtin_configs builtins_one_colon there)
            pre in
        let fresh : mem k (map (λ c. c.0) stored) ≡ false =
          elim (Bool-cases (mem k (map (λ c. c.0) stored))) [
            | inl y ↦ let (x, got) = stored-get k y in cc
            | inr n ↦ n
          ] in
        Elem-append_right (k, v) stored _
          (Elem-keep_of (k, v) (λ b. not (mem b.0 (map (λ c. c.0) stored))) (builtins_of namespace)
            (rw fresh refl)
            (Elem-keep_of (k, v) (λ b. in_namespace namespace (before_colon b.0)) builtin_configs
              (rw (of, named, eq_refl namespace) refl) there))

module _ (db : ConfigDatabase) (namespace : String) (configs : Dict String) where
  listed-IsStored :
      (d : Distinct configs)
      → ((k : String) → db.like k (append namespace ":%") ≡ has_prefix k (append namespace ":"))
      → ((m : Dict String) (c : String × String) → Elem c (db.order_by_key m) ↔ Elem c m)
      → IsStored namespace configs d
          (db.order_by_key (keep (λ c. db.like c.0 (append namespace ":%")) configs))
  listed-IsStored d like order k v =
      let taken = λ (c : String × String). db.like c.0 (append namespace ":%") in
      let same = order (keep taken configs) (k, v) in
      (
        λ h.
            let (taken_here, there) = Elem-keep (k, v) taken configs (same.0 h) in
            (sym (like k) ∙ taken_here, there),
        λ h. same.1 (Elem-keep_of (k, v) taken configs (like k ∙ h.0) h.1),
      )

prefix_named : (k namespace : String) → has_prefix k (append namespace ":") ≡ true → k == "" ≡ false
prefix_named String.[] String.[] h = cc
prefix_named String.[] (String.◌∷◌ c s) h = cc
prefix_named (String.◌∷◌ c s) namespace h = elim (Bool-cases (String.◌∷◌ c s == "")) [
  | inl y ↦ let e = (eq_iff (String.◌∷◌ c s) "").0 y in cc
  | inr n ↦ n
]

-- When no store call fails, keys are unique, LIKE takes a pattern without wildcards but the last for a
-- prefix, and ORDER BY keeps the rows: ListConfigs of a namespace that is not empty succeeds, and lists a
-- value for a key exactly if the key is in the namespace and GetConfig of it gives this value.
pub list_configs_lem :
    (db : ConfigDatabase) (env : Env) (namespace : String) (w : World)
    → namespace == "" ≡ false
    → ((i : ℕ) → env.links.faults i ≡ none)
    → Distinct w.tables.configs
    → ((k : String) → db.like k (append namespace ":%") ≡ has_prefix k (append namespace ":"))
    → ((m : Dict String) (c : String × String) → Elem c (db.order_by_key m) ↔ Elem c m)
    → (listed : Dict String) × ((list_configs db env namespace w).0 ≡ inl listed)
      × ((k v : String)
          → Elem (k, v) listed ↔ (
              (has_prefix k (append namespace ":") ≡ true) × ((get_config env k w).0 ≡ inl (k, v))))
unfolding list_configs list_configs_with_builtins query_list_configs call
list_configs_lem db env namespace w named free d like order =
    let stored =
      db.order_by_key (keep (λ c. db.like c.0 (append namespace ":%")) w.tables.configs) in
    let is : IsStored namespace w.tables.configs d stored =
      listed-IsStored db namespace w.tables.configs d like order in
    (
      merge_builtins namespace stored,
      rw (named, free w.calls) refl,
      λ k v. (
        λ h.
            let (pre, here) = merged-effective namespace w.tables.configs d stored is k v h in
            (pre, (get_config_iff env k v w (prefix_named k namespace pre) (free w.calls)).1 here),
        λ h.
            effective-merged_of namespace w.tables.configs d stored is k v
              (Dict.get k w.tables.configs) refl named h.0
              ((get_config_iff env k v w (prefix_named k namespace h.0) (free w.calls)).0 h.1),
      ),
    )
