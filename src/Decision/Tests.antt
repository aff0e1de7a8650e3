-- ===== src/Decision/Tests.antt =====
-- A decision that is resolved, and the theorem at it.
use kbeads.Prelude.{
  ℕ, String, true, List, [], ◌∷◌, Option, none, some, ◌≡◌, refl, if◌then◌else◌, ◌==◌, eqb,
}
use kbeads.Model.Bead.{Bead}
use kbeads.Server.Actions.{World}
use kbeads.Server.Samples.{task, world_of, env}
use kbeads.Decision.Handlers.{
  ResolveDecisionRequest, status, handle_resolve_decision, report_type_from_labels,
}

abbrev decision : Bead
decision = record (task "kd-7") { bead_type = "decision"; title = "Which?"; assignee = "" }

abbrev start : World
start = world_of (("kd-7", decision) ∷ []) [] [] []

abbrev request : ResolveDecisionRequest
request = record { selected_option = "a"; response_text = ""; responded_by = "bob" }

abbrev resolved : World
resolved = (handle_resolve_decision (env none) "now" "kd-7" request start).1

abbrev closed : Bead
closed = record decision {
  status = "closed";
  closed_at = some 6;
  closed_by = "bob";
  updated_at = 6;
  fields = "{\"chosen\":\"a\"}";
}

-- A store that fails while the decision is closed is answered as if there were none.
failure_is_missing :
    (handle_resolve_decision (env (some 5)) "now" "kd-7" request start).0 ≡ status 404
unfolding handle_resolve_decision kbeads.Server.Update.get_bead kbeads.Server.Actions.call
    kbeads.Server.Store.query_get_row kbeads.Prelude.Dict.get kbeads.Server.Store.query_get_labels
    kbeads.Server.Store.query_get_dependencies kbeads.Server.Store.query_get_comments
    kbeads.Server.Close.store_close kbeads.Server.Store.query_update_bead kbeads.Prelude.Dict.put
    kbeads.Server.Store.labels_of
failure_is_missing = refl

reports : report_type_from_labels ("ui" ∷ "report:summary" ∷ []) ≡ "summary"
unfolding report_type_from_labels
reports = refl
