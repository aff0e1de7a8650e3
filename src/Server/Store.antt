-- ===== src/Server/Store.antt =====
-- The tables of internal/store/postgres (migrations and queries.go), and what a store call may do. The
-- SQL statements are functions on tables; a JSONB column keeps the text it is sent, and a SELECT
-- without an ORDER BY gives its rows in the order of insertion.
use kbeads.Prelude.{
  ℕ, String, Bool, true, false, not, ◌&&◌, ◌||◌, List, [], ◌∷◌, ◌++◌, Option, none, some, map, keep,
  ◌==◌,
}
use kbeads.Prelude.Dict
use kbeads.Prelude.Dict.{Dict}
use kbeads.Model.Bead.{Bead, Dependency, Comment}
use kbeads.Model.Validate.{FieldError}

-- A row of the events table.
pub record EventRow : Type 0 where
  pub topic : String
  pub bead_id : String
  pub actor : String
  pub payload : String

-- A row of session_gates: its key, and its status with the time.
pub record GateRow : Type 0 where
  pub agent_bead_id : String
  pub gate_id : String
  pub status : String
  pub satisfied_at : Option ℕ

-- `beads` and `configs` are keyed by their primary keys; `next_comment` is the sequence behind the
-- ids of comments. The relational fields of a row are empty.
pub record Tables : Type 0 where
  pub beads : Dict Bead
  pub labels : List (String × String)
  pub deps : List Dependency
  pub comments : List Comment
  pub next_comment : ℕ
  pub configs : Dict String
  pub events : List EventRow
  pub gates : List GateRow

-- sql.ErrNoRows, an inputError with its findings, any other error, and fmt.Errorf with %w.
pub data Error : Type 0 where
  no_rows : Error
  input_error : String → List FieldError → Error
  fault : String → Error
  wrapped : String → Error → Error

pub data Answer (A : Type 0) : Type 0 where
  ok : A → Answer A
  fail : Error → Answer A

unfoldable pub row_of : Bead → Bead
row_of b = record b { labels = []; dependencies = []; comments = [] }

-- INSERT INTO beads: a second row with the same id violates the primary key.
abbrev pub insert_row : Option Bead → Bead → Tables → Answer Unit × Tables
insert_row (some old) b t = (fail (fault "duplicate key"), t)
insert_row none b t = (ok tt, record t { beads = Dict.put b.id (row_of b) t.beads })

unfoldable pub query_create_bead : Bead → Tables → Answer Unit × Tables
unfolding row_of
query_create_bead b t = insert_row (Dict.get b.id t.beads) b t

-- UPDATE beads ... RETURNING updated_at: all columns but id, created_at and created_by, with the time of
-- the statement for updated_at; no row is sql.ErrNoRows.
abbrev pub updated_row : ℕ → Bead → Bead → Bead
updated_row now b old = record (row_of b) {
  created_at = old.created_at;
  created_by = old.created_by;
  updated_at = now;
}

abbrev pub update_row : ℕ → Option Bead → Bead → Tables → Answer ℕ × Tables
update_row now none b t = (fail no_rows, t)
update_row now (some old) b t =
    (ok now, record t { beads = Dict.put b.id (updated_row now b old) t.beads })

unfoldable pub query_update_bead : ℕ → Bead → Tables → Answer ℕ × Tables
unfolding row_of
query_update_bead now b t = update_row now (Dict.get b.id t.beads) b t

-- The value of a row and the fields of the tables around it.
unfoldable pub labels_of : String → List (String × String) → List String
labels_of id rows = map (λ r. r.1) (keep (λ r. r.0 == id) rows)

unfoldable pub has_label : String → String → List (String × String) → Bool
has_label id label [] = false
has_label id label ((i, l) ∷ rows) = (i == id && l == label) || has_label id label rows

-- INSERT INTO labels ... ON CONFLICT DO NOTHING, with its foreign key.
abbrev pub with_label : Bool → String → String → Tables → Tables
with_label true id label t = t
with_label false id label t = record t { labels = t.labels ++ (id, label) ∷ [] }

abbrev pub insert_label : Option Bead → String → String → Tables → Answer Unit × Tables
insert_label none id label t = (fail (fault "violates foreign key"), t)
insert_label (some b) id label t = (ok tt, with_label (has_label id label t.labels) id label t)

unfoldable pub query_add_label : String → String → Tables → Answer Unit × Tables
query_add_label id label t = insert_label (Dict.get id t.beads) id label t

unfoldable pub query_remove_label : String → String → Tables → Answer Unit × Tables
query_remove_label id label t =
    (ok tt, record t { labels = keep (λ r. not (r.0 == id && r.1 == label)) t.labels })

unfoldable pub query_get_labels : String → Tables → Answer (List String) × Tables
query_get_labels id t = (ok (labels_of id t.labels), t)

unfoldable pub query_get_dependencies : String → Tables → Answer (List Dependency) × Tables
query_get_dependencies id t = (ok (keep (λ d. d.bead_id == id) t.deps), t)

unfoldable pub query_get_config : String → Tables → Answer String × Tables
query_get_config key t = elim (Dict.get key t.configs) [
  | none ↦ (fail no_rows, t)
  | some value ↦ (ok value, t)
]

unfoldable pub query_record_event : EventRow → Tables → Answer Unit × Tables
query_record_event e t = (ok tt, record t { events = t.events ++ e ∷ [] })

unfoldable pub query_get_comments : String → Tables → Answer (List Comment) × Tables
query_get_comments id t = (ok (keep (λ c. c.bead_id == id) t.comments), t)

-- SELECT ... FROM beads WHERE id = $1
abbrev pub found_row : Option Bead → Tables → Answer Bead × Tables
found_row none t = (fail no_rows, t)
found_row (some b) t = (ok b, t)

unfoldable pub query_get_row : String → Tables → Answer Bead × Tables
query_get_row id t = found_row (Dict.get id t.beads) t
