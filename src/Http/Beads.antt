-- ===== src/Http/Beads.antt =====
-- The handlers of internal/server/http_beads.go. A body that is none is no JSON of the request's form.
-- Where updateBead panics, which is a failure in its model, the server breaks the connection off instead
-- of answering with 500.
use kbeads.Prelude.{
  Bool, true, false, ℕ, String, [], ◌∷◌, Option, none, some, not, keep, ◌==◌, if◌then◌else◌,
}
use kbeads.Prelude.Dict
use kbeads.Prelude.Dict.{Dict}
use kbeads.Model.Bead.{Bead}
use kbeads.Server.Store.{Answer, Error}
use kbeads.Model.Value.{Value, str}
use kbeads.Server.Rows.{query_delete_bead}
use kbeads.Server.Actions.{World, call}
use kbeads.Server.Notify.{bead_deleted, bead_closed, record_and_publish}
use kbeads.Server.Beads.{Env, CreateBeadInput, create_bead}
use kbeads.Server.Update.{UpdateBeadInput, update_bead, get_bead}
use kbeads.Server.Close.{store_close}
use kbeads.Decision.Handlers.{merge_logged}
use kbeads.Http.Replies.{
  Response, unbroken, empty, bead, bad_request, refuse_if, after, is_no_rows, is_input_error,
}

abbrev pub create_status : Error → ℕ
create_status e = if is_input_error e then 400 else 500

abbrev pub update_status : Error → ℕ
update_status e = if is_input_error e then 400 else if is_no_rows e then 404 else 500

abbrev pub row_status : Error → ℕ
row_status e = if is_no_rows e then 404 else 500

abbrev pub sent : ℕ → Bead → World → Response × World
sent code b w = ((code, bead b), w)

unfoldable pub handle_create_bead : Env → Option CreateBeadInput → World → Response × World
unfolding is_input_error
handle_create_bead env none w = bad_request w
handle_create_bead env (some in_) w = after create_status (sent 201) (create_bead env in_ w)

unfoldable pub handle_get_bead : Env → String → World → Response × World
unfolding is_no_rows get_bead
handle_get_bead env id w = refuse_if (id == "") w (after row_status (sent 200) (get_bead env id w))

unfoldable pub handle_delete_bead : Env → String → World → Response × World
unfolding is_no_rows
handle_delete_bead env id w = refuse_if (id == "") w (
    after row_status
      (λ u v.
        ((204, empty), record_and_publish env.links "beads.bead.deleted" id "" (bead_deleted id) v))
      (call env.links.faults (query_delete_bead id) w))

-- A time or list of labels that is there is set.
abbrev pub patch : Env → String → Option UpdateBeadInput → World → Response × World
patch env id none w = bad_request w
patch env id (some in_) w = after update_status (sent 200) (update_bead env id in_ w)

unfoldable pub handle_update_bead : Env → String → Option UpdateBeadInput → World → Response × World
unfolding is_input_error is_no_rows
handle_update_bead env id body w = refuse_if (id == "") w (patch env id body w)

-- closedBy, _ := body["closed_by"].(string)
abbrev pub string_of : Option Value → String
string_of (some (str s)) = s
string_of _ = ""

-- Whether the merge of the other fields panics, and the state after it; its errors are only logged.
abbrev pub merge_extra : Env → String → Dict Value → World → Bool × World
merge_extra env id [] w = (false, w)
merge_extra env id (e ∷ extra) w = merge_logged env id (e ∷ extra) w

abbrev pub closed_response : Env → String → Answer Bead × World → Response × World
closed_response env closed_by r =
    after row_status
      (λ b v. (
        (200, bead b),
        record_and_publish env.links "beads.bead.closed" b.id closed_by (bead_closed b closed_by) v,
      ))
      r

-- A panic breaks the connection off.
abbrev pub close_merged : Env → String → String → Bool × World → Option Response × World
close_merged env id closed_by (true, w) = (none, w)
close_merged env id closed_by (false, w) =
    unbroken (closed_response env closed_by (store_close env id closed_by w))

abbrev pub unless_nameless : Bool → World → Option Response × World → Option Response × World
unless_nameless true w r = unbroken (bad_request w)
unless_nameless false w r = r

abbrev pub close_with : Env → String → String → Dict Value → World → Option Response × World
close_with env id closed_by extra w =
    unless_nameless (id == "") w (close_merged env id closed_by (merge_extra env id extra w))

-- A body that is no object is the empty map.
unfoldable pub handle_close_bead : Env → String → Dict Value → World → Option Response × World
unfolding is_no_rows store_close merge_logged
handle_close_bead env id body w =
    close_with env id (string_of (Dict.get "closed_by" body))
      (keep (λ e. not (e.0 == "closed_by")) body) w
