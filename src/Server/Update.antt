-- ===== src/Server/Update.antt =====
-- updateBead of internal/server/beads.go. The time 0 is Go's zero time.
use kbeads.Prelude.{
  ℕ, String, Bool, true, false, List, [], ◌∷◌, ◌++◌, Option, none, some, ◌==◌, if◌then◌else◌, eqb,
}
use kbeads.Prelude.Int.{ℤ}
use kbeads.Prelude.Text.{trim_space}
use kbeads.Prelude.Dict
use kbeads.Prelude.Dict.{Dict}
use kbeads.Model.Bead.{Bead, TypeConfig}
use kbeads.Model.Validate.{FieldError, validate_bead, is_set}
use kbeads.Model.Value.{Value}
use kbeads.Model.Fields.{validate_fields}
use kbeads.Server.Store.{
  Answer, ok, fail, input_error, fault, query_update_bead, query_get_row, query_get_labels,
  query_get_dependencies, query_get_comments,
}
use kbeads.Server.Actions.{World, Action, pure, failing, bind, wrapping, call}
use kbeads.Server.Notify.{bead_updated, advice_updated, record_and_publish}
use kbeads.Server.Beads.{Env, or_else, resolve_type_config}
use kbeads.Server.Reconcile.{reconcile_labels}

-- A pointer is an option. The outer options of `due_at` and `defer_until` are dueAtSet and
-- deferUntilSet, and a set of labels is labelsSet.
pub record UpdateBeadInput : Type 0 where
  pub title : Option String
  pub description : Option String
  pub notes : Option String
  pub status : Option String
  pub priority : Option ℤ
  pub assignee : Option String
  pub owner : Option String
  pub due_at : Option (Option ℕ)
  pub defer_until : Option (Option ℕ)
  pub fields : Option String
  pub labels : Option (List String)

-- queryGetBead: the row and its relational data, in four statements.
unfoldable pub get_bead : Env → String → Action Bead
get_bead env id = bind (call env.links.faults (query_get_row id)) (λ b.
    bind (call env.links.faults (query_get_labels id)) (λ labels.
      bind (call env.links.faults (query_get_dependencies id)) (λ deps.
        bind (call env.links.faults (query_get_comments id)) (λ comments.
          pure (record b { labels = labels; dependencies = deps; comments = comments })))))

-- A zero time clears the field.
unfoldable pub cleared : Option ℕ → Option ℕ
cleared none = none
cleared (some t) = if eqb t 0 then none else some t

abbrev pub set_time : Option (Option ℕ) → Option ℕ → Option ℕ
set_time none old = old
set_time (some t) old = cleared t

-- json.Unmarshal into an existing map: JSON null makes the map nil, and text that is no object
-- leaves it empty.
abbrev pub existing_fields : Env → String → Option (Dict Value)
existing_fields env raw =
    if raw == ""
    then some []
    else if trim_space raw == "null"
    then none
    else some (or_else [] (env.decoder.unmarshal raw))

unfoldable pub put_all : Dict Value → Dict Value → Dict Value
put_all [] m = m
put_all ((k, v) ∷ patch) m = put_all patch (Dict.put k v m)

abbrev pub marshalled : Option String → Answer String
marshalled none = fail (fault "failed to merge fields")
marshalled (some text) = ok text

-- The loop over the patch: an assignment to a nil map panics.
abbrev pub merge_into : Env → Option (Dict Value) → Dict Value → Answer String
merge_into env (some m) patch = marshalled (env.marshal_map (put_all patch m))
merge_into env none [] = ok "null"
merge_into env none (e ∷ patch) = fail (fault "assignment to entry in nil map")

unfoldable pub merge_fields : Env → String → String → Answer String
unfolding put_all
merge_fields env old patch =
    merge_into env (existing_fields env old) (or_else [] (env.decoder.unmarshal patch))

abbrev pub patched_fields : Env → Option String → String → Answer String
patched_fields env none old = ok old
patched_fields env (some patch) old = merge_fields env old patch

-- Reconcile ClosedAt with the status.
unfoldable pub reconcile_closed_at : ℕ → Bool → Option ℕ → Option ℕ
reconcile_closed_at now true none = some now
reconcile_closed_at now true (some t) = some t
reconcile_closed_at now false o = none

abbrev pub patched : Env → UpdateBeadInput → Bead → String → Bead
patched env in_ b fields = record b {
  title = or_else b.title in_.title;
  description = or_else b.description in_.description;
  notes = or_else b.notes in_.notes;
  status = or_else b.status in_.status;
  priority = or_else b.priority in_.priority;
  assignee = or_else b.assignee in_.assignee;
  owner = or_else b.owner in_.owner;
  due_at = set_time in_.due_at b.due_at;
  defer_until = set_time in_.defer_until b.defer_until;
  fields = fields;
  labels = or_else b.labels in_.labels;
  closed_at = reconcile_closed_at env.now (or_else b.status in_.status == "closed") b.closed_at;
  updated_at = env.now;
}

abbrev change : {A : Type 0} → String → Option A → List String
change name none = []
change name (some a) = name ∷ []

-- The keys of the map of changes.
abbrev pub changes_of : UpdateBeadInput → Bead → List String
changes_of in_ b =
    change "title" in_.title
    ++ (change "description" in_.description
        ++ (change "notes" in_.notes
            ++ (change "status" in_.status
                ++ (change "priority" in_.priority
                    ++ (change "assignee" in_.assignee
                        ++ (change "owner" in_.owner
                            ++ (change "due_at" in_.due_at
                                ++ (change "defer_until" in_.defer_until
                                    ++ (change "fields" in_.fields
                                        ++ (change "labels" in_.labels
                                            ++ (if or_else b.status in_.status == "closed"
                                                then (if is_set b.closed_at
                                                    then []
                                                    else "closed_at" ∷ [])
                                                else if is_set b.closed_at
                                                then "closed_at" ∷ []
                                                else [])))))))))))

abbrev pub refuse : String → List FieldError → Action Unit
refuse text [] = pure tt
refuse text (e ∷ es) = failing (input_error text (e ∷ es))

-- Fields are checked where they were changed and the type has a config.
abbrev pub check_config : Env → Bead → Option TypeConfig → Action Unit
check_config env b none = pure tt
check_config env b (some tc) =
    refuse "invalid fields" (validate_fields env.decoder b.fields tc.fields)

abbrev pub check_changed : Env → Bead → Option String → Action Unit
check_changed env b none = pure tt
check_changed env b (some patch) =
    bind (wrapping "failed to resolve type config" (resolve_type_config env b.bead_type))
      (check_config env b)

abbrev pub sync_labels : Env → Bead → Option (List String) → Action Unit
sync_labels env b none = pure tt
sync_labels env b (some labels) =
    wrapping "failed to reconcile labels" (reconcile_labels env.links.faults b.id labels)

abbrev pub announce_updated : Env → Bead → List String → World → World
announce_updated env b changes w =
    let w1 = record_and_publish env.links "beads.bead.updated" b.id "" (bead_updated b changes) w in
    if b.bead_type == "advice"
    then record_and_publish env.links "beads.advice.updated" b.id "" (advice_updated b changes) w1
    else w1

abbrev pub store_update : Env → UpdateBeadInput → Bead → List String → Action Bead
store_update env in_ b changes =
    bind
      (wrapping "failed to update bead" (call env.links.faults (query_update_bead env.store_now b)))
      (λ t. bind (sync_labels env b in_.labels) (λ u w.
        let result : Bead = record b { updated_at = t } in
        (ok result, announce_updated env result changes w)))

abbrev pub apply_update : Env → UpdateBeadInput → Bead → String → Action Bead
apply_update env in_ old fields =
    let b = patched env in_ old fields in
    bind (refuse "invalid bead" (validate_bead env.json_valid b)) (λ u.
      bind (check_changed env b in_.fields) (λ v. store_update env in_ b (changes_of in_ old)))

abbrev pub give : {A : Type 0} → Answer A → Action A
give a w = (a, w)

unfoldable pub update_bead : Env → String → UpdateBeadInput → Action Bead
unfolding get_bead merge_fields
update_bead env id in_ =
    bind (get_bead env id)
      (λ old. bind (give (patched_fields env in_.fields old.fields)) (apply_update env in_ old))
