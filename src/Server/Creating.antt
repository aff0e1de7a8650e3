-- ===== src/Server/Creating.antt =====
-- createBead: what a created bead is, and that a failure leaves the tables alone.
use kbeads.Prelude.{
  String, Bool, true, false, ◌&&◌, ◌||◌, List, [], ◌∷◌, Option, none, some, mem, ◌==◌,
  if◌then◌else◌, ◌≡◌, ◌⊎◌, inl, inr, refl, sym, ap, ◌∙◌, Option-cases,
}
use kbeads.Prelude.Dict
use kbeads.Prelude.Dict.{get-put}
use kbeads.Model.Bead.{Bead, TypeConfig, type_aliases}
use kbeads.Model.Validate.{FieldError, validate_bead, IsValid}
use kbeads.Prelude.Text.{append}
use kbeads.Model.Fields.{validate_fields}
use kbeads.Model.FieldProofs.{Conforms}
use kbeads.Server.Store.{
  Answer, ok, fail, Error, input_error, fault, wrapped, Tables, row_of, has_label, query_get_config,
  no_rows,
}
use kbeads.Server.Actions.{
  World, Action, continue-fail, wrap_answer, wrap_answer-ok, wrap_answer-fail, call, run_unless,
}
use kbeads.Server.Builtins.{builtin_configs}
use kbeads.Server.Beads.{
  Env, CreateBeadInput, persist, check_valid, create_typed, create_with_id, create_bead,
  resolve_type_config, new_bead, or_else, configured, refuse_if,
}
use kbeads.Server.Persisting.{persist-fail}

-- The type under which a bead is stored: a deprecated name stands for another.
abbrev pub canonical : CreateBeadInput → String
canonical in_ = or_else in_.bead_type (Dict.get in_.bead_type type_aliases)

-- The type's config is what is stored for it, or without a row the builtin one.
abbrev pub HasConfig : Env → Tables → String → TypeConfig → Type 0
HasConfig env t bead_type tc =
    let key = append "type:" bead_type in
    (value : String) × ((Dict.get key t.configs ≡ some value)
      ⊎ ((Dict.get key t.configs ≡ none) × (Dict.get key builtin_configs ≡ some value)))
    × (env.parse_type_config value ≡ some tc)

-- What a bead that was created is: valid, with fields of its type, under a fresh id, and the only
-- change to the beads and the labels.
pub record IsCreated (env : Env) (in_ : CreateBeadInput) (w : World) (b : Bead) (w' : World)
    : Type 0 where
  pub built :
      (tc : TypeConfig) × (b ≡ new_bead env in_ b.id (canonical in_) tc)
      × HasConfig env w.tables (canonical in_) tc
      × Conforms env.decoder in_.fields tc.fields
  pub valid : IsValid env.json_valid b
  pub fresh : Dict.get b.id w.tables.beads ≡ none
  pub row :
      (i : String)
      → Dict.get i w'.tables.beads
        ≡ (if b.id == i then some (row_of b) else Dict.get i w.tables.beads)
  pub labelled :
      (i x : String)
      → has_label i x w'.tables.labels
        ≡ (has_label i x w.tables.labels || (i == b.id && mem x in_.labels))

check_valid-fail :
    (es fs : List FieldError) (next : Action Bead) (w : World) (e : Error) (w' : World)
    → check_valid es fs next w ≡ (fail e, w')
    → (w' ≡ w) ⊎ (next w ≡ (fail e, w'))
check_valid-fail [] [] next w e w' h = inr h
check_valid-fail [] (f ∷ fs) next w e w' h = inl cc
check_valid-fail (x ∷ es) fs next w e w' h = inl cc

configured-tables :
    (env : Env) (key : String) (r : Answer String × World) (a : Answer (Option TypeConfig))
    (w' : World)
    → configured env key r ≡ (a, w')
    → r.1 ≡ w'
configured-tables env key (ok value, w) a w' h = cc
configured-tables env key (fail no_rows, w) a w' h = cc
configured-tables env key (fail (input_error text es), w) a w' h = cc
configured-tables env key (fail (fault why), w) a w' h = cc
configured-tables env key (fail (wrapped text e), w) a w' h = cc

get_config-tables :
    (o : Option String) (p : Option String) (w : World) (key : String)
    → (run_unless o (query_get_config key) w).1.tables ≡ w.tables
unfolding query_get_config
get_config-tables (some why) p w key = refl
get_config-tables none p w key = elim (Option-cases (Dict.get key w.tables.configs)) [
  | inl n ↦ rw (n, query_get_config) refl
  | inr (v, e) ↦ rw (e, query_get_config) refl
]

pub resolve_type_config-tables :
    (env : Env) (bead_type : String) (w : World) (a : Answer (Option TypeConfig)) (w' : World)
    → resolve_type_config env bead_type w ≡ (a, w')
    → w'.tables ≡ w.tables
unfolding resolve_type_config call
resolve_type_config-tables env bead_type w a w' h =
    let key = append "type:" bead_type in
    ap (λ (v : World). v.tables)
      (sym (
        configured-tables env key (run_unless (env.links.faults w.calls) (query_get_config key) w) a
          w' h))
    ∙ get_config-tables (env.links.faults w.calls) none w key

create_typed-fail :
    (env : Env) (in_ : CreateBeadInput) (id bead_type : String) (o : Option TypeConfig) (w : World)
    (e : Error) (w' : World)
    → create_typed env in_ id bead_type o w ≡ (fail e, w')
    → w'.tables ≡ w.tables
create_typed-fail env in_ id bead_type none w e w' h = cc
create_typed-fail env in_ id bead_type (some tc) w e w' h =
    let bead = new_bead env in_ id bead_type tc in
    elim (check_valid-fail (validate_bead env.json_valid bead)
      (validate_fields env.decoder bead.fields tc.fields) (persist env bead) w e w' h) [
        | inl same ↦ ap (λ (v : World). v.tables) same
        | inr run ↦ persist-fail env bead w e w' run
      ]

abbrev resolving : Env → String → World → Answer (Option TypeConfig) × World
resolving env bead_type w =
    wrap_answer "failed to resolve type config" (resolve_type_config env bead_type w)

create_with_id-fail :
    (env : Env) (in_ : CreateBeadInput) (o : Option String) (w : World) (e : Error) (w' : World)
    → create_with_id env in_ o w ≡ (fail e, w')
    → w'.tables ≡ w.tables
create_with_id-fail env in_ none w e w' h = cc
create_with_id-fail env in_ (some id) w e w' h =
    let t = canonical in_ in
    elim (continue-fail (create_typed env in_ id t) (resolving env t w) e w' h) [
      | inl early ↦
          let (x, failed) =
            wrap_answer-fail "failed to resolve type config" (resolve_type_config env t w) e w'
              early in
          resolve_type_config-tables env t w (fail x) w' failed
      | inr (tc, w1, found, rest) ↦
          create_typed-fail env in_ id t tc w1 e w' rest
          ∙ resolve_type_config-tables env t w (ok tc) w1 (
              wrap_answer-ok "failed to resolve type config" (resolve_type_config env t w) tc w1
                found)
    ]

refuse_if-fail :
    (test : Bool) (text : String) (next : Action Bead) (w : World) (e : Error) (w' : World)
    → refuse_if test text next w ≡ (fail e, w')
    → (w' ≡ w) ⊎ (next w ≡ (fail e, w'))
refuse_if-fail true text next w e w' h = inl cc
refuse_if-fail false text next w e w' h = inr h

-- Where createBead returns an error, whichever store call failed or check refused the request, the
-- tables are what they were.
pub create_bead_atomic :
    (env : Env) (in_ : CreateBeadInput) (w : World) (e : Error) (w' : World)
    → create_bead env in_ w ≡ (fail e, w')
    → w'.tables ≡ w.tables
unfolding create_bead
create_bead_atomic env in_ w e w' h =
    elim (refuse_if-fail (in_.title == "") "title is required" (create_with_id env in_ env.new_id) w
      e w' h) [
        | inl same ↦ ap (λ (v : World). v.tables) same
        | inr run ↦ create_with_id-fail env in_ env.new_id w e w' run
      ]
