-- ===== src/Server/Tests.antt =====
-- Requests on a small store, and the server's theorems at concrete values.
use kbeads.Prelude.{
  ℕ, String, Bool, true, false, List, [], ◌∷◌, Option, none, some, ◌≡◌, refl, mem, if◌then◌else◌,
  ◌==◌, eqb, ◌&&◌, inl,
}
use kbeads.Prelude.Int.{pos}
use kbeads.Prelude.Dict.{Dict}
use kbeads.Model.Bead.{Bead, TypeConfig}
use kbeads.Model.Value.{Decoder}
use kbeads.Server.Store
use kbeads.Server.Store.{Answer, ok, fail, Error, fault, wrapped, no_rows, Tables, has_label}
use kbeads.Server.Actions
use kbeads.Server.Actions.{World}
use kbeads.Server.Samples
use kbeads.Server.Samples.{world_of}
use kbeads.Server.Notify.{record_and_publish}
use kbeads.Server.Beads.{Env, CreateBeadInput, create_bead}
use kbeads.Server.Creating.{create_bead_atomic}
use kbeads.Server.Reconcile.{reconcile_labels, reconcile_labels_lem}
use kbeads.Server.Update.{UpdateBeadInput, update_bead}
use kbeads.Server.Gates.{gate_status, handle_satisfy_gate, handle_clear_gate}
use kbeads.Server.GateProofs.{handle_satisfy_gate_lem}
use kbeads.Server.Listing.{IsClause, parse_sort_clause, parse_sort_clause-IsClause}
use kbeads.Server.Close.{IsClosed, close_bead, close_bead-IsClosed}

abbrev decoder : Decoder
decoder = record { unmarshal = λ t. none; is_whole = λ n. true; parses_time = λ t. false }

-- A server whose store fails at the call of number `at`, if any.
abbrev env : Option ℕ → Env
env at = record (Samples.env at) {
  new_id = some "kd-1";
  decoder = decoder;
  marshal_map = λ m. some "{}";
  parse_type_config = λ t. some (record { kind = "issue"; fields = [] });
}

abbrev start : World
start = world_of [] [] [] []

abbrev request : CreateBeadInput
request = record {
  title = "Fix login";
  kind = "";
  bead_type = "bundle";
  description = "";
  notes = "";
  priority = pos 2;
  assignee = "";
  owner = "";
  labels = "a" ∷ "b" ∷ [];
  created_by = "ann";
  fields = "";
  due_at = none;
  defer_until = none;
}

abbrev created : Bead
created = record {
  id = "kd-1";
  slug = "";
  kind = "issue";
  bead_type = "molecule";
  title = "Fix login";
  description = "";
  notes = "";
  status = "open";
  priority = pos 2;
  assignee = "";
  owner = "";
  created_at = 5;
  created_by = "ann";
  updated_at = 5;
  closed_at = none;
  closed_by = "";
  due_at = none;
  defer_until = none;
  fields = "";
  labels = "a" ∷ "b" ∷ [];
  dependencies = [];
  comments = [];
}

abbrev after : World
after = (create_bead (env none) request start).1

-- The store fails at the commit: six calls precede it.
abbrev broken : World
broken = (create_bead (env (some 5)) request start).1

breaks :
    create_bead (env (some 5)) request start
    ≡ (fail (wrapped "commit transaction" (fault "timeout")), broken)
unfolding create_bead Actions.call Store.query_get_config kbeads.Prelude.Dict.get
    kbeads.Model.Validate.validate_bead kbeads.Prelude.Text.trim_space
    kbeads.Prelude.Text.rune_count kbeads.Model.Bead.is_valid_status kbeads.Model.Bead.is_valid_kind
    kbeads.Model.Fields.validate_fields kbeads.Model.Fields.first_required
    Actions.run_in_transaction Store.query_create_bead Store.query_add_label kbeads.Prelude.Dict.put
    has_label
breaks = refl

create_bead_atomic_example : broken.tables ≡ start.tables
create_bead_atomic_example =
    create_bead_atomic (env (some 5)) request start (wrapped "commit transaction" (fault "timeout"))
      broken breaks

abbrev relabelled : World
relabelled = (reconcile_labels (λ n. none) "kd-1" ("b" ∷ "c" ∷ []) after).1

reconciles : reconcile_labels (λ n. none) "kd-1" ("b" ∷ "c" ∷ []) after ≡ (ok tt, relabelled)
unfolding create_bead reconcile_labels Actions.call Store.query_get_config kbeads.Prelude.Dict.get
    kbeads.Model.Validate.validate_bead kbeads.Prelude.Text.trim_space
    kbeads.Prelude.Text.rune_count kbeads.Model.Bead.is_valid_status kbeads.Model.Bead.is_valid_kind
    kbeads.Model.Fields.validate_fields kbeads.Model.Fields.first_required
    Actions.run_in_transaction Store.query_create_bead Store.query_add_label kbeads.Prelude.Dict.put
    has_label Store.query_get_labels Store.query_remove_label Store.labels_of record_and_publish
    Store.query_record_event
reconciles = refl

reconcile_labels_lem_example :
    ((i x : String)
      → has_label i x relabelled.tables.labels
        ≡ (if i == "kd-1" then mem x ("b" ∷ "c" ∷ []) else has_label i x after.tables.labels))
    × (relabelled.tables.beads ≡ after.tables.beads)
reconcile_labels_lem_example =
    reconcile_labels_lem (λ n. none) "kd-1" ("b" ∷ "c" ∷ []) after relabelled tt reconciles

abbrev close_it : UpdateBeadInput
close_it = record {
  title = none;
  description = none;
  notes = none;
  status = some "closed";
  priority = none;
  assignee = none;
  owner = none;
  due_at = none;
  defer_until = none;
  fields = none;
  labels = some ("c" ∷ []);
}

abbrev closed : Bead
closed = record created { status = "closed"; closed_at = some 5; labels = "c" ∷ []; updated_at = 6 }

abbrev updated : World
updated = (update_bead (env none) "kd-1" close_it after).1

abbrev marked : World
marked = (handle_satisfy_gate (λ n. none) 9 "kd-1" "decision" after).1

marks : handle_satisfy_gate (λ n. none) 9 "kd-1" "decision" after ≡ (200, marked)
unfolding create_bead handle_satisfy_gate Actions.call Store.query_get_config
    kbeads.Prelude.Dict.get kbeads.Model.Validate.validate_bead kbeads.Prelude.Text.trim_space
    kbeads.Prelude.Text.rune_count kbeads.Model.Bead.is_valid_status kbeads.Model.Bead.is_valid_kind
    kbeads.Model.Fields.validate_fields kbeads.Model.Fields.first_required
    Actions.run_in_transaction Store.query_create_bead Store.query_add_label kbeads.Prelude.Dict.put
    has_label record_and_publish Store.query_record_event
marks = refl

handle_satisfy_gate_lem_example :
    ((a g : String)
      → gate_status a g marked.tables.gates ≡ (
          if "kd-1" == a && "decision" == g
          then some "satisfied"
          else gate_status a g after.tables.gates))
    × (marked.tables.beads ≡ after.tables.beads)
handle_satisfy_gate_lem_example =
    handle_satisfy_gate_lem (λ n. none) 9 "kd-1" "decision" after marked marks

abbrev cleared_gate : World
cleared_gate = (handle_clear_gate (λ n. none) "kd-1" "decision" marked).1

clears : handle_clear_gate (λ n. none) "kd-1" "decision" marked ≡ (200, cleared_gate)
unfolding create_bead handle_satisfy_gate handle_clear_gate Actions.call Store.query_get_config
    kbeads.Prelude.Dict.get kbeads.Model.Validate.validate_bead kbeads.Prelude.Text.trim_space
    kbeads.Prelude.Text.rune_count kbeads.Model.Bead.is_valid_status kbeads.Model.Bead.is_valid_kind
    kbeads.Model.Fields.validate_fields kbeads.Model.Fields.first_required
    Actions.run_in_transaction Store.query_create_bead Store.query_add_label kbeads.Prelude.Dict.put
    has_label record_and_publish Store.query_record_event
clears = refl

parse_sort_clause-IsClause_example : IsClause (parse_sort_clause "-title; DROP TABLE beads")
parse_sort_clause-IsClause_example = parse_sort_clause-IsClause "-title; DROP TABLE beads"

abbrev finished : World
finished = (close_bead (env none) "kd-1" "bob" after).1

abbrev done : Bead
done = record created { status = "closed"; closed_at = some 6; closed_by = "bob"; updated_at = 6 }

closes : close_bead (env none) "kd-1" "bob" after ≡ (inl done, finished)
unfolding create_bead close_bead Actions.call Store.query_get_config kbeads.Prelude.Dict.get
    kbeads.Model.Validate.validate_bead kbeads.Prelude.Text.trim_space
    kbeads.Prelude.Text.rune_count kbeads.Model.Bead.is_valid_status kbeads.Model.Bead.is_valid_kind
    kbeads.Model.Fields.validate_fields kbeads.Model.Fields.first_required
    Actions.run_in_transaction Store.query_create_bead Store.query_add_label kbeads.Prelude.Dict.put
    has_label record_and_publish Store.query_record_event Store.query_get_labels Store.labels_of
    Store.query_get_dependencies Store.query_get_comments
closes = refl

close_bead-IsClosed_example : IsClosed (env none) "kd-1" "bob" after.tables done finished.tables
close_bead-IsClosed_example = close_bead-IsClosed (env none) "kd-1" "bob" after done finished closes
