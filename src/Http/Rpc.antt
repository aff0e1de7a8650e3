-- ===== src/Http/Rpc.antt =====
-- The gRPC handlers of internal/server/beads.go and server.go over createBead, updateBead and the reads.
use kbeads.Prelude.{String, List, [], ◌∷◌, Option, none, some, keep, ◌==◌, if◌then◌else◌, inl}
use kbeads.Model.Bead.{Bead, Dependency, Comment}
use kbeads.Server.Store.{
  Answer, ok, Error, Tables, EventRow, query_get_labels, query_get_dependencies, query_get_comments,
}
use kbeads.Server.Actions.{World, call}
use kbeads.Server.Beads.{Env, CreateBeadInput, create_bead}
use kbeads.Server.Update.{UpdateBeadInput, update_bead, get_bead}
use kbeads.Server.Replies.{
  Code, invalid_argument, not_found, internal, Reply, answer, refuse_bad, store_error,
  internal_error,
}
use kbeads.Http.Replies.{is_no_rows, is_input_error}

-- The rows of the log of a bead, oldest first.
unfoldable pub query_get_events : String → Tables → Answer (List EventRow) × Tables
query_get_events id t = (ok (keep (λ e. e.bead_id == id) t.events), t)

-- SELECT ... FROM deps WHERE depends_on_id = $1
unfoldable pub query_get_reverse_dependencies : String → Tables → Answer (List Dependency) × Tables
query_get_reverse_dependencies id t = (ok (keep (λ d. d.depends_on_id == id) t.deps), t)

abbrev pub create_error : Error → Code
create_error e = if is_input_error e then invalid_argument else internal

abbrev pub update_error : Error → Code
update_error e =
    if is_input_error e then invalid_argument else if is_no_rows e then not_found else internal

abbrev pub given : {A : Type 0} → A → World → Reply A × World
given a w = (inl a, w)

unfoldable pub grpc_create_bead : Env → CreateBeadInput → World → Reply Bead × World
unfolding is_input_error
grpc_create_bead env in_ w = answer create_error given (create_bead env in_ w)

-- A message cannot tell labels that are left out from none, and both leave the labels alone.
abbrev pub given_labels : Option (List String) → Option (List String)
given_labels none = none
given_labels (some []) = none
given_labels (some (l ∷ ls)) = some (l ∷ ls)

-- A field that is left out is not set. A message has no null, so `due_at` and `defer_until` are left out
-- or are times.
unfoldable pub grpc_update_bead : Env → String → UpdateBeadInput → World → Reply Bead × World
unfolding is_input_error is_no_rows
grpc_update_bead env id in_ w = refuse_bad (id == "") w (
    answer update_error given
      (update_bead env id (record in_ { labels = given_labels in_.labels }) w))

unfoldable pub grpc_get_bead : Env → String → World → Reply Bead × World
unfolding get_bead store_error
grpc_get_bead env id w = refuse_bad (id == "") w (answer store_error given (get_bead env id w))

-- A read of what belongs to a bead.
abbrev pub read :
    {A : Type 0} → Env → String → (Tables → Answer A × Tables) → World → Reply A × World
read env id query w =
    refuse_bad (id == "") w (answer internal_error given (call env.links.faults query w))

unfoldable pub get_dependencies : Env → String → World → Reply (List Dependency) × World
get_dependencies env id w = read env id (query_get_dependencies id) w

unfoldable pub get_labels : Env → String → World → Reply (List String) × World
get_labels env id w = read env id (query_get_labels id) w

unfoldable pub get_comments : Env → String → World → Reply (List Comment) × World
get_comments env id w = read env id (query_get_comments id) w

unfoldable pub get_events : Env → String → World → Reply (List EventRow) × World
unfolding query_get_events
get_events env id w = read env id (query_get_events id) w
