-- ===== src/Model/Bead.antt =====
-- internal/model/bead.go, dependency.go, comment.go and type_config.go.
use Prim.Native.String.{len}
use kbeads.Prelude.{ℕ, String, Bool, ◌&&◌, List, [], ◌∷◌, Option, mem, ltb, leb, if◌then◌else◌}
use kbeads.Prelude.Int.{ℤ}
use kbeads.Prelude.Dict.{Dict}

-- A status, a kind and a bead type are Go strings; these are the named constants.
abbrev pub statuses : List String
statuses = "open" ∷ "in_progress" ∷ "deferred" ∷ "closed" ∷ "blocked" ∷ []

abbrev pub kinds : List String
kinds = "issue" ∷ "data" ∷ "config" ∷ []

unfoldable pub is_valid_status : String → Bool
is_valid_status s = mem s statuses

unfoldable pub is_valid_kind : String → Bool
is_valid_kind k = mem k kinds

abbrev pub issue_types : List String
issue_types = "epic" ∷ "task" ∷ "feature" ∷ "chore" ∷ "bug" ∷ "molecule" ∷ []

abbrev pub data_types : List String
data_types = "advice" ∷ "jack" ∷ "formula" ∷ []

unfoldable pub kind_for : String → String
kind_for t = if mem t issue_types then "issue" else if mem t data_types then "data" else ""

abbrev pub type_aliases : Dict String
type_aliases = ("template", "formula") ∷ ("bundle", "molecule") ∷ []

-- The bound counts bytes.
unfoldable pub is_valid_dependency_type : String → Bool
is_valid_dependency_type d = ltb 0 (len d) && leb (len d) 50

pub record Dependency : Type 0 where
  pub bead_id : String
  pub depends_on_id : String
  pub dep_type : String
  pub created_at : ℕ
  pub created_by : String
  pub metadata : String

pub record Comment : Type 0 where
  pub id : ℕ
  pub bead_id : String
  pub author : String
  pub text : String
  pub created_at : ℕ

-- `fields` is the raw JSON text, "" if there is none.
pub record Bead : Type 0 where
  pub id : String
  pub slug : String
  pub kind : String
  pub bead_type : String
  pub title : String
  pub description : String
  pub notes : String
  pub status : String
  pub priority : ℤ
  pub assignee : String
  pub owner : String
  pub created_at : ℕ
  pub created_by : String
  pub updated_at : ℕ
  pub closed_at : Option ℕ
  pub closed_by : String
  pub due_at : Option ℕ
  pub defer_until : Option ℕ
  pub fields : String
  pub labels : List String
  pub dependencies : List Dependency
  pub comments : List Comment

-- The type of a typed field; any other text is `other`.
pub data FieldType : Type 0 where
  string integer float boolean timestamp enum strings enums json : FieldType
  other : String → FieldType

pub record FieldDef : Type 0 where
  pub name : String
  pub field_type : FieldType
  pub required : Bool
  pub values : List String

pub record TypeConfig : Type 0 where
  pub kind : String
  pub fields : List FieldDef
