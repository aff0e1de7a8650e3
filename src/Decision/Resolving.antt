-- ===== src/Decision/Resolving.antt =====
-- What resolving and cancelling a decision leave of the tables.
use kbeads.Prelude.{
  ℕ, String, Bool, true, false, Option, none, some, ◌==◌, ◌≡◌, refl, sym, ap, subst, ◌∙◌,
}
use kbeads.Prelude.Dict
use kbeads.Prelude.Dict.{Dict}
use kbeads.Model.Bead.{Bead}
use kbeads.Model.Value.{Value}
use kbeads.Server.Store.{
  Answer, ok, fail, Tables, row_of, found_row, updated_row, query_get_row, query_get_labels,
  query_get_dependencies, query_get_comments, query_update_bead,
}
use kbeads.Server.Actions.{World, Action, Faults, bind, call, run_unless}
use kbeads.Server.Beads.{Env}
use kbeads.Server.Update.{get_bead, existing_fields, put_all, marshalled}
use kbeads.Server.UpdateSteps.{get_bead-IsRead}
use kbeads.Server.Preserves.{call-Preserves, bind-Preserves}
use kbeads.Server.Notify.{bead_closed, record_and_publish, record_and_publish-data, data_of}
use kbeads.Server.Close.{IsClosed, store_close, store_close-ok}
use kbeads.Hooks.Emit.{stored}
use kbeads.Decision.Handlers.{
  HttpReply, answered, unless_nil, after_read, merge_logged, close_reply, closing, refused,
  cancel_fields, handle_cancel_decision,
}

-- No row was written, which without a failed store call means that json.Marshal failed; or the row of
-- `id` has the fields with the extra ones merged into them, and nothing else of it has changed but the time
-- of its update.
pub data Merged (env : Env) (id : String) (extra : Dict Value) (t : Tables) : Tables → Type 0 where
  unchanged :
      (((n : ℕ) → env.links.faults n ≡ none)
        → (old : Bead) (m : Dict Value) → Dict.get id t.beads ≡ some old
        → existing_fields env old.fields ≡ some m
        → env.marshal_map (put_all extra m) ≡ none)
      → Merged env id extra t t
  merged :
      (old : Bead) (m : Dict Value) (fields : String)
      → Dict.get id t.beads ≡ some old
      → existing_fields env old.fields ≡ some m
      → env.marshal_map (put_all extra m) ≡ some fields
      → Merged env id extra t (record t {
        beads =
            Dict.put id
              (record (row_of old) { fields = fields; updated_at = env.store_now })
              t.beads;
      })

-- Every row stands under its id.
abbrev pub IsKeyed : Tables → Type 0
IsKeyed t = (k : String) (b : Bead) → Dict.get k t.beads ≡ some b → b.id ≡ k

reads_on :
    {A B : Type 0} (faults : Faults) (query : Tables → Answer A × Tables) (f : A → Action B)
    (w : World)
    → faults w.calls ≡ none
    → (a : A) × (query w.tables ≡ (ok a, w.tables))
    → ((a : A) (v : World) → (b : B) × ((f a v).0 ≡ ok b))
    → (b : B) × ((bind (call faults query) f w).0 ≡ ok b)
unfolding call
reads_on faults query f w e (a, q) k = rw (e, q) (k a _)

-- Without a failed store call, a row that is there is read.
get_bead-runs :
    (env : Env) (id : String) (w : World) (row : Bead)
    → ((n : ℕ) → env.links.faults n ≡ none)
    → Dict.get id w.tables.beads ≡ some row
    → (b : Bead) × ((get_bead env id w).0 ≡ ok b)
unfolding get_bead query_get_row query_get_labels query_get_dependencies query_get_comments
get_bead-runs env id w row free found =
    let f = env.links.faults in
    reads_on f (query_get_row id) _ w (free w.calls) (row, ap (λ o. found_row o w.tables) found)
      (λ r v.
        reads_on f (query_get_labels id) _ v (free v.calls) (_, refl)
          (λ ls v1.
            reads_on f (query_get_dependencies id) _ v1 (free v1.calls) (_, refl)
              (λ ds v2.
                reads_on f (query_get_comments id) _ v2 (free v2.calls) (_, refl)
                  (λ cs v3. (record r { labels = ls; dependencies = ds; comments = cs }, refl)))))

module _ (env : Env) (id : String) (extra : Dict Value) where
  -- What was read is the row with its relational data.
  update-Merged :
      (b old : Bead) (m : Dict Value) (fields : String) (o : Option String) (w : World)
      → IsKeyed w.tables
      → Dict.get id w.tables.beads ≡ some old
      → row_of b ≡ row_of old
      → existing_fields env old.fields ≡ some m
      → env.marshal_map (put_all extra m) ≡ some fields
      → env.links.faults w.calls ≡ o
      → Merged env id extra w.tables
          (run_unless o (query_update_bead env.store_now (record b { fields = fields })) w).1.tables
  unfolding query_update_bead row_of
  update-Merged b old m fields (some why) w keyed found row e f g =
      unchanged (λ free x n h k. (let clash : some why ≡ none = sym g ∙ free w.calls in cc))
  update-Merged b old m fields none w keyed found row e f g =
      let b_old : b.id ≡ old.id = ap (λ (x : Bead). x.id) row in
      let at : b.id ≡ id = b_old ∙ keyed id old found in
      let here : Dict.get b.id w.tables.beads ≡ some old =
        ap (λ k. Dict.get k w.tables.beads) at ∙ found in
      let written : updated_row env.store_now (record b { fields = fields }) old
          ≡ record (row_of old) { fields = fields; updated_at = env.store_now } =
        ap
          (λ (x : Bead). record x {
            fields = fields;
            created_at = old.created_at;
            created_by = old.created_by;
            updated_at = env.store_now;
          })
          row in
      rw here (
        subst
          (λ (p : String × Bead).
            Merged env id extra w.tables
              (record w.tables { beads = Dict.put p.0 p.1 w.tables.beads }))
          (λ i. (sym at i, sym written i)) (merged old m fields found e f))

  stored-Merged :
      (b old : Bead) (m : Dict Value) (o : Option String) (w : World)
      → IsKeyed w.tables
      → Dict.get id w.tables.beads ≡ some old
      → row_of b ≡ row_of old
      → existing_fields env old.fields ≡ some m
      → env.marshal_map (put_all extra m) ≡ o
      → Merged env id extra w.tables (stored env b (marshalled o) w).1.tables
  unfolding call
  stored-Merged b old m none w keyed found row e f = unchanged (λ free x n h k.
      let same : old ≡ x = (let p : some old ≡ some x = sym found ∙ h in cc) in
      let fields : m ≡ n =
        (let p : some m ≡ some n =
            sym e ∙ ap (λ (y : Bead). existing_fields env y.fields) same ∙ k in
          cc) in
      ap (λ y. env.marshal_map (put_all extra y)) (sym fields) ∙ f)
  stored-Merged b old m (some fields) w keyed found row e f =
      update-Merged b old m fields (env.links.faults w.calls) w keyed found row e f refl

  unless_nil-Merged :
      (b old : Bead) (o : Option (Dict Value)) (w : World)
      → IsKeyed w.tables
      → Dict.get id w.tables.beads ≡ some old
      → row_of b ≡ row_of old
      → existing_fields env old.fields ≡ o
      → Merged env id extra w.tables (unless_nil env b o extra w).1.tables
  unless_nil-Merged b old none w keyed found row e = unchanged (λ free x n h k.
      let same : old ≡ x = (let p : some old ≡ some x = sym found ∙ h in cc) in
      let clash : none ≡ some n =
        sym e ∙ ap (λ (y : Bead). existing_fields env y.fields) same ∙ k in
      cc)
  unless_nil-Merged b old (some m) w keyed found row e =
      stored-Merged b old m (env.marshal_map (put_all extra m)) w keyed found row e refl

  after_read-Merged :
      (r : Answer Bead × World) (t : Tables)
      → r.1.tables ≡ t
      → IsKeyed t
      → ((b : Bead)
          → r.0 ≡ ok b
          → (old : Bead) × (Dict.get id t.beads ≡ some old) × (row_of b ≡ row_of old))
      → (((n : ℕ) → env.links.faults n ≡ none)
          → (row : Bead) → Dict.get id t.beads ≡ some row
          → (b : Bead) × (r.0 ≡ ok b))
      → Merged env id extra t (after_read env extra r).1.tables
  after_read-Merged (fail x, w) t same keyed was runs =
      subst (Merged env id extra t) (sym same)
        (unchanged (λ free row m found k. let (b, read) = runs free row found in cc))
  after_read-Merged (ok b, w) t same keyed was runs =
      let (old, found, row) = was b refl in
      let fields : existing_fields env old.fields ≡ existing_fields env b.fields =
        unfold row_of in ap (λ (y : Bead). existing_fields env y.fields) (sym row) in
      subst
        (λ (u : Tables).
          Merged env id extra u (unless_nil env b (existing_fields env b.fields) extra w).1.tables)
        same
        (unless_nil-Merged b old (existing_fields env b.fields) w (subst IsKeyed (sym same) keyed)
          (ap (λ (u : Tables). Dict.get id u.beads) same ∙ found) row fields)

  get_bead-tables : (id : String) (w : World) → (get_bead env id w).1.tables ≡ w.tables
  unfolding get_bead query_get_row query_get_labels query_get_dependencies query_get_comments
  get_bead-tables id w =
      let P = λ (t : Tables). t ≡ w.tables in
      let f = env.links.faults in
      bind-Preserves P (call f (query_get_row id)) _
        (call-Preserves P f (query_get_row id) (λ t. row_kept (Dict.get id t.beads) t))
        (λ b.
          bind-Preserves P (call f (query_get_labels id)) _
            (call-Preserves P f (query_get_labels id) (λ t k. k))
            (λ ls.
              bind-Preserves P (call f (query_get_dependencies id)) _
                (call-Preserves P f (query_get_dependencies id) (λ t k. k))
                (λ ds.
                  bind-Preserves P (call f (query_get_comments id)) _
                    (call-Preserves P f (query_get_comments id) (λ t k. k)) (λ cs v k. k))))
        w refl
    where
      row_kept : (o : Option Bead) (t : Tables) → t ≡ w.tables → (found_row o t).1 ≡ w.tables
      row_kept none t k = k
      row_kept (some b) t k = k

  merge_logged-Merged :
      (w : World)
      → IsKeyed w.tables
      → Merged env id extra w.tables (merge_logged env id extra w).1.tables
  unfolding merge_logged
  merge_logged-Merged w keyed =
      after_read-Merged (get_bead env id w) w.tables (get_bead-tables id w) keyed
        (λ b e.
          (get_bead-IsRead env id w (get_bead env id w).1 b (λ i. (e i, (get_bead env id w).1))).0)
        (λ free row found. get_bead-runs env id w row free found)

-- A decision that was answered as closed.
pub record IsResolved (env : Env) (id closed_by : String) (extra : Dict Value) (t : Tables)
    (b : Bead) (t' : Tables) : Type 0 where
  pub between : Tables
  pub fields_merged : Merged env id extra t between
  pub closed : IsClosed env id closed_by between b t'

close_reply-closed :
    (env : Env) (id closed_by : String) (w : World) (r : Answer Bead × World) (b : Bead)
    (w' : World)
    → store_close env id closed_by w ≡ r
    → close_reply env closed_by r ≡ (answered b, w')
    → IsClosed env id closed_by w.tables b w'.tables
close_reply-closed env id closed_by w (fail e, w1) b w' run h = cc
close_reply-closed env id closed_by w (ok x, w1) b w' run h =
    let after : record_and_publish env.links "beads.bead.closed" x.id closed_by
          (bead_closed x closed_by) w1
        ≡ w' =
      cc in
    let same : x ≡ b = cc in
    let c = store_close-ok env id closed_by w w1 x run in
    record {
      old = c.old;
      found = c.found;
      result = sym (ap row_of same) ∙ c.result;
      keeps_valid = c.keeps_valid;
      written =
          ap (λ (v : World). data_of v.tables) (sym after)
          ∙ record_and_publish-data env.links "beads.bead.closed" x.id closed_by
              (bead_closed x closed_by) w1
          ∙ c.written;
    }

closing-IsResolved :
    (env : Env) (id closed_by : String) (extra : Dict Value) (t : Tables) (r : Bool × World)
    (b : Bead) (w' : World)
    → Merged env id extra t r.1.tables
    → closing env id closed_by r ≡ (answered b, w')
    → IsResolved env id closed_by extra t b w'.tables
closing-IsResolved env id closed_by extra t (true, w) b w' m h = cc
closing-IsResolved env id closed_by extra t (false, w) b w' m h = record {
  between = w.tables;
  fields_merged = m;
  closed = close_reply-closed env id closed_by w (store_close env id closed_by w) b w' refl h;
}

refused-answered :
    {A : Type 0} (test : Bool) (w : World) (r : HttpReply A × World) (a : A) (w' : World)
    → refused test w r ≡ (answered a, w')
    → r ≡ (answered a, w')
refused-answered true w r a w' h = cc
refused-answered false w r a w' h = h

-- Likewise for a request to cancel.
pub handle_cancel_decision-IsResolved :
    (env : Env) (id reason canceled_by : String) (w : World) (b : Bead) (w' : World)
    → IsKeyed w.tables
    → handle_cancel_decision env id reason canceled_by w ≡ (answered b, w')
    → IsResolved env id canceled_by (cancel_fields reason) w.tables b w'.tables
unfolding handle_cancel_decision
handle_cancel_decision-IsResolved env id reason canceled_by w b w' keyed h =
    let r = merge_logged env id (cancel_fields reason) w in
    closing-IsResolved env id canceled_by (cancel_fields reason) w.tables r b w'
      (merge_logged-Merged env id (cancel_fields reason) w keyed)
      (refused-answered (id == "") w (closing env id canceled_by r) b w' h)
