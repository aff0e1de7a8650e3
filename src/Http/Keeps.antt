-- ===== src/Http/Keeps.antt =====
-- The HTTP handlers that close a bead or decide, over a sound store.
use kbeads.Prelude.{
  String, Bool, true, false, [], ◌∷◌, Option, none, some, ◌&&◌, ◌==◌, ◌≡◌, refl, sym, subst, inr,
  not, keep,
}
use kbeads.Prelude.Dict
use kbeads.Prelude.Dict.{Dict}
use kbeads.Model.Bead.{Bead}
use kbeads.Model.Value.{Value}
use kbeads.Model.Validate.{IsValid}
use kbeads.Server.Store.{Answer, ok, fail, row_of, query_update_bead}
use kbeads.Server.Actions.{World}
use kbeads.Server.Notify.{bead_closed, record_and_publish}
use kbeads.Server.Beads.{Env}
use kbeads.Server.Update.{get_bead, existing_fields, put_all, marshalled}
use kbeads.Server.UpdateSteps.{get_bead-IsRead}
use kbeads.Server.Close.{store_close}
use kbeads.Server.Soundness.{IsSound, update_bead_query-IsSound}
use kbeads.Server.Keeps.{call-Keeps, record_and_publish-Keeps}
use kbeads.Server.KeepsCreate.{get_bead-Keeps}
use kbeads.Server.KeepsHandlers.{store_close-Keeps}
use kbeads.Hooks.Emit.{stored}
use kbeads.Decision.Handlers.{
  ResolveDecisionRequest, unless_nil, after_read, merge_logged, close_reply, closing, refused,
  HttpReply, resolution_fields, cancel_fields, handle_resolve_decision, handle_cancel_decision,
}
use kbeads.Http.Replies.{Response}
use kbeads.Http.Beads.{
  merge_extra, closed_response, close_merged, unless_nameless, handle_close_bead, string_of,
}

-- json.Marshal of a map gives JSON.
abbrev pub Marshals : (String → Bool) → Env → Type 0
Marshals json_valid env =
    (m : Dict Value) (text : String) → env.marshal_map m ≡ some text → json_valid text ≡ true

module _ (json_valid : String → Bool) where
  with_fields-IsValid :
      (b : Bead) (text : String)
      → json_valid text ≡ true
      → IsValid json_valid b
      → IsValid json_valid (record b { fields = text })
  with_fields-IsValid b text j v = record {
    titled = v.titled;
    title_fits = v.title_fits;
    priority_fits = v.priority_fits;
    known_status = v.known_status;
    typed = v.typed;
    known_kind = v.known_kind;
    closing = v.closing;
    fields_json = inr j;
  }

  -- A valid row is valid with its relational data, and without.
  same_row-IsValid :
      (b row : Bead) → row_of b ≡ row_of row → IsValid json_valid row → IsValid json_valid b
  unfolding row_of
  same_row-IsValid b row e v =
      let bare : IsValid json_valid (row_of row) = record {
        titled = v.titled;
        title_fits = v.title_fits;
        priority_fits = v.priority_fits;
        known_status = v.known_status;
        typed = v.typed;
        known_kind = v.known_kind;
        closing = v.closing;
        fields_json = v.fields_json;
      } in
      let u = subst (IsValid json_valid) (sym e) bare in
      record {
        titled = u.titled;
        title_fits = u.title_fits;
        priority_fits = u.priority_fits;
        known_status = u.known_status;
        typed = u.typed;
        known_kind = u.known_kind;
        closing = u.closing;
        fields_json = u.fields_json;
      }

  module _ (env : Env) (law : Marshals json_valid env) where
    pub read-IsValid :
        (id : String) (w w1 : World) (b : Bead)
        → IsSound json_valid w.tables
        → get_bead env id w ≡ (ok b, w1)
        → IsValid json_valid b
    read-IsValid id w w1 b s h =
        let ((row, found, e), same) = get_bead-IsRead env id w w1 b h in
        same_row-IsValid b row e (s.rows id row found).1

    -- json.Marshal fails, or the row gets what it makes.
    pub stored-Keeps :
        (b : Bead) (m : Dict Value) (o : Option String) (w : World)
        → env.marshal_map m ≡ o
        → IsValid json_valid b
        → IsSound json_valid w.tables
        → IsSound json_valid (stored env b (marshalled o) w).1.tables
    stored-Keeps b m none w e v s = s
    stored-Keeps b m (some text) w e v s =
        let b1 : Bead = record b { fields = text } in
        call-Keeps json_valid env.links.faults (query_update_bead env.store_now b1)
          (λ t s1.
            update_bead_query-IsSound json_valid env.store_now b1 t
              (with_fields-IsValid b text (law m text e) v) s1)
          w s

    unless_nil-Keeps :
        (b : Bead) (o : Option (Dict Value)) (extra : Dict Value) (w : World)
        → IsValid json_valid b
        → IsSound json_valid w.tables
        → IsSound json_valid (unless_nil env b o extra w).1.tables
    unless_nil-Keeps b none extra w v s = s
    unless_nil-Keeps b (some m) extra w v s =
        stored-Keeps b (put_all extra m) (env.marshal_map (put_all extra m)) w refl v s

    after_read-Keeps :
        (extra : Dict Value) (r : Answer Bead × World)
        → ((b : Bead) (w1 : World) → r ≡ (ok b, w1) → IsValid json_valid b)
        → IsSound json_valid r.1.tables
        → IsSound json_valid (after_read env extra r).1.tables
    after_read-Keeps extra (fail e, w) h s = s
    after_read-Keeps extra (ok b, w) h s =
        unless_nil-Keeps b (existing_fields env b.fields) extra w (h b w refl) s

    merge_logged-Keeps :
        (id : String) (extra : Dict Value) (w : World)
        → IsSound json_valid w.tables
        → IsSound json_valid (merge_logged env id extra w).1.tables
    unfolding merge_logged
    merge_logged-Keeps id extra w s =
        after_read-Keeps extra (get_bead env id w) (λ b w1 h. read-IsValid id w w1 b s h)
          (get_bead-Keeps json_valid env id w s)

    announce-Keeps :
        (b : Bead) (by : String) (w : World)
        → IsSound json_valid w.tables
        → IsSound json_valid
            (record_and_publish env.links "beads.bead.closed" b.id by (bead_closed b by) w).tables
    announce-Keeps b by w s =
        record_and_publish-Keeps json_valid env.links "beads.bead.closed" b.id by (bead_closed b by)
          w s

    closed_response-Keeps :
        (by : String) (r : Answer Bead × World)
        → IsSound json_valid r.1.tables
        → IsSound json_valid (closed_response env by r).1.tables
    closed_response-Keeps by (ok b, w) s = announce-Keeps b by w s
    closed_response-Keeps by (fail e, w) s = s

    close_merged-Keeps :
        (id by : String) (r : Bool × World)
        → IsSound json_valid r.1.tables
        → IsSound json_valid (close_merged env id by r).1.tables
    close_merged-Keeps id by (true, w) s = s
    close_merged-Keeps id by (false, w) s =
        closed_response-Keeps by (store_close env id by w)
          (store_close-Keeps json_valid env id by w s)

    merge_extra-Keeps :
        (id : String) (extra : Dict Value) (w : World)
        → IsSound json_valid w.tables
        → IsSound json_valid (merge_extra env id extra w).1.tables
    merge_extra-Keeps id [] w s = s
    merge_extra-Keeps id (e ∷ extra) w s = merge_logged-Keeps id (e ∷ extra) w s

    unless_nameless-Keeps :
        (c : Bool) (w : World) (r : Option Response × World)
        → IsSound json_valid w.tables
        → IsSound json_valid r.1.tables
        → IsSound json_valid (unless_nameless c w r).1.tables
    unless_nameless-Keeps true w r s s1 = s
    unless_nameless-Keeps false w r s s1 = s1

    pub handle_close_bead-Keeps :
        (id : String) (body : Dict Value) (w : World)
        → IsSound json_valid w.tables
        → IsSound json_valid (handle_close_bead env id body w).1.tables
    unfolding handle_close_bead
    handle_close_bead-Keeps id body w s =
        let by = string_of (Dict.get "closed_by" body) in
        let extra = keep (λ e. not (e.0 == "closed_by")) body in
        unless_nameless-Keeps (id == "") w (close_merged env id by (merge_extra env id extra w)) s
          (close_merged-Keeps id by (merge_extra env id extra w) (merge_extra-Keeps id extra w s))

    close_reply-Keeps :
        (by : String) (r : Answer Bead × World)
        → IsSound json_valid r.1.tables
        → IsSound json_valid (close_reply env by r).1.tables
    close_reply-Keeps by (ok b, w) s = announce-Keeps b by w s
    close_reply-Keeps by (fail e, w) s = s

    closing-Keeps :
        (id by : String) (r : Bool × World)
        → IsSound json_valid r.1.tables
        → IsSound json_valid (closing env id by r).1.tables
    closing-Keeps id by (true, w) s = s
    closing-Keeps id by (false, w) s =
        close_reply-Keeps by (store_close env id by w) (store_close-Keeps json_valid env id by w s)

    refused-Keeps :
        {A : Type 0} (c : Bool) (w : World) (r : HttpReply A × World)
        → IsSound json_valid w.tables
        → IsSound json_valid r.1.tables
        → IsSound json_valid (refused c w r).1.tables
    refused-Keeps true w r s s1 = s
    refused-Keeps false w r s s1 = s1

    pub handle_resolve_decision-Keeps :
        (at id : String) (req : ResolveDecisionRequest) (w : World)
        → IsSound json_valid w.tables
        → IsSound json_valid (handle_resolve_decision env at id req w).1.tables
    unfolding handle_resolve_decision
    handle_resolve_decision-Keeps at id req w s =
        let merged = merge_logged env id (resolution_fields at req) w in
        refused-Keeps (id == "") w _ s (
          refused-Keeps (req.selected_option == "" && req.response_text == "") w
            (closing env id req.responded_by merged) s
            (closing-Keeps id req.responded_by merged
              (merge_logged-Keeps id (resolution_fields at req) w s)))

    pub handle_cancel_decision-Keeps :
        (id reason by : String) (w : World)
        → IsSound json_valid w.tables
        → IsSound json_valid (handle_cancel_decision env id reason by w).1.tables
    unfolding handle_cancel_decision
    handle_cancel_decision-Keeps id reason by w s =
        let merged = merge_logged env id (cancel_fields reason) w in
        refused-Keeps (id == "") w (closing env id by merged) s
          (closing-Keeps id by merged (merge_logged-Keeps id (cancel_fields reason) w s))
