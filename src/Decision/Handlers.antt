-- ===== src/Decision/Handlers.antt =====
-- handleResolveDecision and handleCancelDecision of internal/server/http_decisions.go, with
-- reportTypeFromLabels of internal/server/beads.go. The answer is the closed bead, from which its decision
-- fields are read.
use kbeads.Prelude.{
  ℕ, String, Bool, true, false, ◌&&◌, List, [], ◌∷◌, ◌++◌, Option, none, some, ◌==◌, if◌then◌else◌,
}
use kbeads.Prelude.Text.{has_prefix, drop_prefix}
use kbeads.Prelude.Dict.{Dict}
use kbeads.Model.Bead.{Bead}
use kbeads.Model.Value.{Value, str, bool}
use kbeads.Server.Store.{Answer, ok, fail}
use kbeads.Server.Actions.{World}
use kbeads.Server.Notify.{bead_closed, record_and_publish}
use kbeads.Server.Beads.{Env}
use kbeads.Server.Update.{get_bead, existing_fields, merge_into}
use kbeads.Server.Close.{store_close}
use kbeads.Hooks.Emit.{stored}

-- A body, a status code, or a connection that a panic breaks off.
pub data HttpReply (A : Type 0) : Type 0 where
  answered : A → HttpReply A
  status : ℕ → HttpReply A
  aborted : HttpReply A

pub record ResolveDecisionRequest : Type 0 where
  pub selected_option : String
  pub response_text : String
  pub responded_by : String

unfoldable pub report_type_from_labels : List String → String
report_type_from_labels [] = ""
report_type_from_labels (l ∷ ls) =
    if has_prefix l "report:" then drop_prefix l "report:" else report_type_from_labels ls

-- The merge of fields that are not JSON null; those make the map nil, and the assignment panics.
abbrev pub unless_nil : Env → Bead → Option (Dict Value) → Dict Value → World → Bool × World
unless_nil env b none extra w = (true, w)
unless_nil env b (some m) extra w = (false, (stored env b (merge_into env (some m) extra) w).1)

abbrev pub after_read : Env → Dict Value → Answer Bead × World → Bool × World
after_read env extra (fail e, w) = (false, w)
after_read env extra (ok b, w) = unless_nil env b (existing_fields env b.fields) extra w

-- mergeBeadFields, whose errors are only logged: whether it panics, and the state after it.
unfoldable pub merge_logged : Env → String → Dict Value → World → Bool × World
merge_logged env id extra w = after_read env extra (get_bead env id w)

-- Any error comes with a nil bead, which is tested first: it is answered as a missing decision.
abbrev pub close_reply : Env → String → Answer Bead × World → HttpReply Bead × World
close_reply env closed_by (fail e, w) = (status 404, w)
close_reply env closed_by (ok b, w) = (
  answered b,
  record_and_publish env.links "beads.bead.closed" b.id closed_by (bead_closed b closed_by) w,
)

abbrev pub closing : Env → String → String → Bool × World → HttpReply Bead × World
closing env id closed_by (true, w) = (aborted, w)
closing env id closed_by (false, w) = close_reply env closed_by (store_close env id closed_by w)

abbrev given : String → String → Dict Value
given key text = if text == "" then [] else (key, str text) ∷ []

-- `responded_at` is the time as the handler formats it.
unfoldable pub resolution_fields : String → ResolveDecisionRequest → Dict Value
resolution_fields responded_at req =
    ("responded_at", str responded_at)
    ∷ (given "chosen" req.selected_option
        ++ (given "response_text" req.response_text ++ given "responded_by" req.responded_by))

abbrev pub refused : {A : Type 0} → Bool → World → HttpReply A × World → HttpReply A × World
refused true w r = (status 400, w)
refused false w r = r

unfoldable pub handle_resolve_decision :
    Env → String → String → ResolveDecisionRequest → World → HttpReply Bead × World
unfolding merge_logged resolution_fields
handle_resolve_decision env responded_at id req w = refused (id == "") w (
    refused (req.selected_option == "" && req.response_text == "") w (
      closing env id req.responded_by (merge_logged env id (resolution_fields responded_at req) w)))

unfoldable pub cancel_fields : String → Dict Value
cancel_fields reason = ("canceled", bool true) ∷ given "cancel_reason" reason

unfoldable pub handle_cancel_decision :
    Env → String → String → String → World → HttpReply Bead × World
unfolding merge_logged cancel_fields
handle_cancel_decision env id reason canceled_by w =
    refused (id == "") w (closing env id canceled_by (merge_logged env id (cancel_fields reason) w))
