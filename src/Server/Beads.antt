-- ===== src/Server/Beads.antt =====
-- createBead of internal/server/beads.go, with resolveTypeConfig.
use kbeads.Prelude.{
  ℕ, String, Bool, true, false, List, [], ◌∷◌, Option, none, some, ◌==◌, if◌then◌else◌,
}
use kbeads.Prelude.Int.{ℤ}
use kbeads.Prelude.Text.{append}
use kbeads.Prelude.Dict
use kbeads.Prelude.Dict.{Dict}
use kbeads.Model.Bead.{Bead, TypeConfig, type_aliases}
use kbeads.Model.Validate.{FieldError, validate_bead}
use kbeads.Model.Value.{Value, Decoder}
use kbeads.Model.Fields.{validate_fields}
use kbeads.Server.Store.{
  Answer, ok, fail, no_rows, input_error, fault, wrapped, query_create_bead, query_add_label,
  query_get_config,
}
use kbeads.Server.Actions.{World, Action, pure, failing, bind, wrapping, call, run_in_transaction}
use kbeads.Server.Builtins.{builtin_configs}
use kbeads.Server.Notify.{Links, bead_created, advice_created, record_and_publish}

-- One request: the clock and the id it gets, and what encoding/json decides.
pub record Env : Type 0 where
  pub links : Links
  pub now : ℕ
  pub store_now : ℕ  -- NOW() in the database
  pub new_id : Option String
  pub json_valid : String → Bool
  pub decoder : Decoder
  pub marshal_map : Dict Value → Option String
  pub parse_type_config : String → Option TypeConfig

pub record CreateBeadInput : Type 0 where
  pub title : String
  pub kind : String
  pub bead_type : String
  pub description : String
  pub notes : String
  pub priority : ℤ
  pub assignee : String
  pub owner : String
  pub labels : List String
  pub created_by : String
  pub fields : String
  pub due_at : Option ℕ
  pub defer_until : Option ℕ

abbrev pub or_else : {A : Type 0} → A → Option A → A
or_else a none = a
or_else a (some x) = x

abbrev pub parsed : Env → Option String → Answer (Option TypeConfig)
parsed env none = ok none
parsed env (some value) = elim (env.parse_type_config value) [
  | none ↦ fail (fault "unmarshal")
  | some tc ↦ ok (some tc)
]

-- The store's answer for the key: no row falls back on the builtin config, other errors come back.
abbrev pub configured : Env → String → Answer String × World → Answer (Option TypeConfig) × World
configured env key (ok value, w) = (parsed env (some value), w)
configured env key (fail no_rows, w) = (parsed env (Dict.get key builtin_configs), w)
configured env key (fail e, w) = (fail e, w)

unfoldable pub resolve_type_config : Env → String → Action (Option TypeConfig)
resolve_type_config env bead_type w =
    let key = append "type:" bead_type in
    configured env key (call env.links.faults (query_get_config key) w)

abbrev pub new_bead : Env → CreateBeadInput → String → String → TypeConfig → Bead
new_bead env in_ id bead_type tc = record {
  id = id;
  slug = "";
  kind = tc.kind;
  bead_type = bead_type;
  title = in_.title;
  description = in_.description;
  notes = in_.notes;
  status = "open";
  priority = in_.priority;
  assignee = in_.assignee;
  owner = in_.owner;
  created_at = env.now;
  created_by = in_.created_by;
  updated_at = env.now;
  closed_at = none;
  closed_by = "";
  due_at = in_.due_at;
  defer_until = in_.defer_until;
  fields = in_.fields;
  labels = in_.labels;
  dependencies = [];
  comments = [];
}

unfoldable pub add_labels : Env → String → List String → Action Unit
add_labels env id [] = pure tt
add_labels env id (l ∷ ls) =
    let rest = add_labels env id ls in
    bind (wrapping "failed to add label" (call env.links.faults (query_add_label id l))) (λ u. rest)

-- The body of the transaction.
abbrev pub insert_bead : Env → Bead → Action Unit
insert_bead env bead =
    bind (wrapping "failed to create bead" (call env.links.faults (query_create_bead bead)))
      (λ u. add_labels env bead.id bead.labels)

abbrev pub announce_created : Env → Bead → World → World
announce_created env bead w =
    let w1 =
      record_and_publish env.links "beads.bead.created" bead.id bead.created_by (bead_created bead)
        w in
    if bead.bead_type == "advice"
    then record_and_publish env.links "beads.advice.created" bead.id bead.created_by
        (advice_created bead) w1
    else w1

abbrev pub persist : Env → Bead → Action Bead
persist env bead =
    bind (run_in_transaction env.links.faults (insert_bead env bead))
      (λ u w. (ok bead, announce_created env bead w))

-- Both validations; the first that finds something ends the request.
abbrev pub check_valid : List FieldError → List FieldError → Action Bead → Action Bead
check_valid [] [] next = next
check_valid [] (e ∷ es) next = failing (input_error "invalid fields" (e ∷ es))
check_valid (e ∷ es) fields next = failing (input_error "invalid bead" (e ∷ es))

abbrev pub create_typed : Env → CreateBeadInput → String → String → Option TypeConfig → Action Bead
create_typed env in_ id bead_type none = failing (input_error "unknown bead type" [])
create_typed env in_ id bead_type (some tc) =
    let bead = new_bead env in_ id bead_type tc in
    check_valid (validate_bead env.json_valid bead)
      (validate_fields env.decoder bead.fields tc.fields) (persist env bead)

abbrev pub create_with_id : Env → CreateBeadInput → Option String → Action Bead
create_with_id env in_ none = failing (wrapped "failed to generate ID" (fault "idgen"))
create_with_id env in_ (some id) =
    let bead_type = or_else in_.bead_type (Dict.get in_.bead_type type_aliases) in
    bind (wrapping "failed to resolve type config" (resolve_type_config env bead_type))
      (create_typed env in_ id bead_type)

abbrev pub refuse_if : Bool → String → Action Bead → Action Bead
refuse_if true text next = failing (input_error text [])
refuse_if false text next = next

unfoldable pub create_bead : Env → CreateBeadInput → Action Bead
unfolding add_labels resolve_type_config
create_bead env in_ =
    refuse_if (in_.title == "") "title is required" (create_with_id env in_ env.new_id)
