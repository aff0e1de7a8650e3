-- ===== src/Http/Closing.antt =====
-- Closing a bead over HTTP (http_beads.go) and over gRPC (beads.go).
use kbeads.Prelude.{
  String, Bool, true, false, not, keep, [], ◌∷◌, ◌==◌, if◌then◌else◌, ◌≡◌, refl, sym, ap, ◌∙◌,
  eq_iff, inl, inr, Bool-cases,
}
use kbeads.Prelude.Dict
use kbeads.Prelude.Dict.{Dict}
use kbeads.Model.Bead.{Bead}
use kbeads.Model.Value.{Value, str}
use kbeads.Server.Store.{Answer, ok, fail}
use kbeads.Server.Actions.{World}
use kbeads.Server.Notify.{advice_deleted, record_and_publish}
use kbeads.Server.Beads.{Env}
use kbeads.Server.Close.{close_bead, store_close, respond}
use kbeads.Http.Replies.{Response, bead, refuse_if, unbroken, translated}
use kbeads.Http.Beads.{handle_close_bead, closed_response, unless_nameless, close_with, string_of}
use kbeads.Http.Agreement.{row_codes, refused}

-- The body that the client sends.
unfoldable pub close_body : String → Dict Value
close_body closed_by = if closed_by == "" then [] else ("closed_by", str closed_by) ∷ []

-- What follows for a closed bead of the type advice.
abbrev advice_gone : Env → String → Bead → Response × World → Response × World
advice_gone env closed_by b (r, w) =
    if b.bead_type == "advice"
    then (
      r,
      record_and_publish env.links "beads.advice.deleted" b.id closed_by (advice_deleted b.id) w,
    )
    else (r, w)

unfoldable pub then_advice_deleted : Env → String → Response × World → Response × World
then_advice_deleted env closed_by ((code, bead b), w) =
    advice_gone env closed_by b ((code, bead b), w)
then_advice_deleted env closed_by (r, w) = (r, w)

respond-over :
    (env : Env) (closed_by : String) (r : Answer Bead × World)
    → then_advice_deleted env closed_by (closed_response env closed_by r)
      ≡ translated 200 bead (respond env closed_by r)
unfolding then_advice_deleted
respond-over env closed_by (ok b, w) = elim (Bool-cases (b.bead_type == "advice")) [
  | inl y ↦ rw y refl
  | inr n ↦ rw n refl
]
respond-over env closed_by (fail e, w) = rw (row_codes e) refl

refuse_if-then :
    (env : Env) (closed_by : String) (c : Bool) (w : World) (r : Response × World)
    → then_advice_deleted env closed_by (refuse_if c w r)
      ≡ refuse_if c w (then_advice_deleted env closed_by r)
unfolding then_advice_deleted
refuse_if-then env closed_by true w r = refl
refuse_if-then env closed_by false w r = refl

unless_nameless-unbroken :
    (c : Bool) (w : World) (r : Response × World)
    → unless_nameless c w (unbroken r) ≡ unbroken (refuse_if c w r)
unless_nameless-unbroken true w r = refl
unless_nameless-unbroken false w r = refl

close_body_lem :
    (closed_by : String)
    → (string_of (Dict.get "closed_by" (close_body closed_by)) ≡ closed_by)
      × (keep (λ e. not (e.0 == "closed_by")) (close_body closed_by) ≡ [])
unfolding close_body Dict.get
close_body_lem closed_by = elim (Bool-cases (closed_by == "")) [
  | inl y ↦ (rw y (sym ((eq_iff closed_by "").0 y)), rw y refl)
  | inr n ↦ (rw n refl, rw n refl)
]

handle_close_lem :
    (env : Env) (id closed_by : String) (w : World)
    → handle_close_bead env id (close_body closed_by) w
      ≡ unbroken
          (refuse_if (id == "") w (closed_response env closed_by (store_close env id closed_by w)))
unfolding handle_close_bead
handle_close_lem env id closed_by w =
    let (by, extra) = close_body_lem closed_by in
    ap
      (λ (x : String).
        close_with env id x (keep (λ e. not (e.0 == "closed_by")) (close_body closed_by)) w)
      by
    ∙ (ap (λ (x : Dict Value). close_with env id closed_by x w) extra
        ∙ unless_nameless-unbroken (id == "") w
            (closed_response env closed_by (store_close env id closed_by w)))

-- Closing over HTTP with the body that the client sends is always answered, and closing over gRPC is
-- answered alike and leaves the same state, once the deletion of the advice is announced where the bead is
-- one: only over gRPC is that announced.
pub close_transports :
    (env : Env) (id closed_by : String) (w : World)
    → (r : Response × World) × (handle_close_bead env id (close_body closed_by) w ≡ unbroken r)
      × (translated 200 bead (close_bead env id closed_by w) ≡ then_advice_deleted env closed_by r)
unfolding close_bead
close_transports env id closed_by w = (
  refuse_if (id == "") w (closed_response env closed_by (store_close env id closed_by w)),
  handle_close_lem env id closed_by w,
  sym (
      refuse_if-then env closed_by (id == "") w _
      ∙ refused 200 bead (id == "") w _ _
          (respond-over env closed_by (store_close env id closed_by w))),
)
