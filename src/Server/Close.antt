-- ===== src/Server/Close.antt =====
-- CloseBead of internal/server/beads.go, with its statements and storeError of convert.go.
use kbeads.Prelude.{
  ℕ, String, Bool, true, false, Option, none, some, ◌==◌, if◌then◌else◌, ◌≡◌, inl, inr, refl, sym,
  ap, ◌∙◌, Bool-cases,
}
use kbeads.Prelude.Dict
use kbeads.Prelude.Dict.{get-put}
use kbeads.Model.Bead.{Bead}
use kbeads.Model.Validate.{IsValid}
use kbeads.Server.Store.{
  Answer, ok, fail, no_rows, Tables, row_of, query_get_labels, query_get_dependencies,
  query_get_comments,
}
use kbeads.Server.Actions.{World, Action, pure, bind, call, call-ok, continue-ok}
use kbeads.Server.Notify.{
  bead_closed, advice_deleted, record_and_publish, record_and_publish-data, data_of,
}
use kbeads.Server.Beads.{Env}
use kbeads.Server.Replies.{Reply, answer, refuse_bad, store_error}
use kbeads.Server.UpdateSteps.{read_labels}

abbrev pub closed_row : ℕ → String → Bead → Bead
closed_row now closed_by b = record b {
  status = "closed";
  closed_at = some now;
  closed_by = closed_by;
  updated_at = now;
}

abbrev pub close_found : ℕ → Option Bead → String → String → Tables → Answer Bead × Tables
close_found now none id closed_by t = (fail no_rows, t)
close_found now (some b) id closed_by t = (
  ok (closed_row now closed_by b),
  record t { beads = Dict.put id (closed_row now closed_by b) t.beads },
)

-- UPDATE beads SET status = 'closed' ... WHERE id = $1 RETURNING the row.
unfoldable pub query_close_bead : ℕ → String → String → Tables → Answer Bead × Tables
query_close_bead now id closed_by t = close_found now (Dict.get id t.beads) id closed_by t

-- The row, and then its relational data.
unfoldable pub store_close : Env → String → String → Action Bead
unfolding query_close_bead
store_close env id closed_by =
    bind (call env.links.faults (query_close_bead env.store_now id closed_by)) (λ b.
      bind (call env.links.faults (query_get_labels id)) (λ labels.
        bind (call env.links.faults (query_get_dependencies id)) (λ deps.
          bind (call env.links.faults (query_get_comments id)) (λ comments.
            pure (record b { labels = labels; dependencies = deps; comments = comments })))))

abbrev pub announce_closed : Env → Bead → String → World → World
announce_closed env b closed_by w =
    let w1 =
      record_and_publish env.links "beads.bead.closed" b.id closed_by (bead_closed b closed_by) w in
    if b.bead_type == "advice"
    then record_and_publish env.links "beads.advice.deleted" b.id closed_by (advice_deleted b.id) w1
    else w1

abbrev pub respond : Env → String → Answer Bead × World → Reply Bead × World
respond env closed_by r = answer store_error (λ b w. (inl b, announce_closed env b closed_by w)) r

unfoldable pub close_bead : Env → String → String → World → Reply Bead × World
unfolding store_error store_close
close_bead env id closed_by w =
    refuse_bad (id == "") w (respond env closed_by (store_close env id closed_by w))

close_found-put :
    (now : ℕ) (o : Option Bead) (id closed_by : String) (t t' : Tables) (b : Bead)
    → close_found now o id closed_by t ≡ (ok b, t')
    → (old : Bead) × (o ≡ some old)
      × (closed_row now closed_by old ≡ b)
      × (t' ≡ record t { beads = Dict.put id (closed_row now closed_by old) t.beads })
close_found-put now none id closed_by t t' b h = cc
close_found-put now (some old) id closed_by t t' b h = (old, refl, cc, cc)

close_query_lem :
    (now : ℕ) (id closed_by : String) (t t' : Tables) (b : Bead)
    → query_close_bead now id closed_by t ≡ (ok b, t')
    → (old : Bead) × (Dict.get id t.beads ≡ some old)
      × (closed_row now closed_by old ≡ b)
      × (t' ≡ record t { beads = Dict.put id (closed_row now closed_by old) t.beads })
unfolding query_close_bead
close_query_lem now id closed_by t t' b h =
    close_found-put now (Dict.get id t.beads) id closed_by t t' b h

-- Closing keeps a row valid.
pub closed_row-IsValid :
    (json_valid : String → Bool) (now : ℕ) (closed_by : String) (b : Bead)
    → IsValid json_valid b
    → IsValid json_valid (closed_row now closed_by b)
closed_row-IsValid json_valid now closed_by b v = record {
  titled = v.titled;
  title_fits = v.title_fits;
  priority_fits = v.priority_fits;
  known_status = inr (inr (inr (inl refl)));
  typed = v.typed;
  known_kind = v.known_kind;
  closing = (λ e. refl, λ e. refl);
  fields_json = v.fields_json;
}

-- The tables after a bead was closed: its row, and nothing else but the log of events.
pub record IsClosed (env : Env) (id closed_by : String) (t : Tables) (b : Bead) (t' : Tables)
    : Type 0 where
  pub old : Bead
  pub found : Dict.get id t.beads ≡ some old
  pub result : row_of b ≡ row_of (closed_row env.store_now closed_by old)
  pub keeps_valid :
      (json_valid : String → Bool)
      → IsValid json_valid old
      → IsValid json_valid (closed_row env.store_now closed_by old)
  pub written :
      data_of t'
      ≡ data_of (record t { beads = Dict.put id (closed_row env.store_now closed_by old) t.beads })

pub store_close-ok :
    (env : Env) (id closed_by : String) (w w' : World) (b : Bead)
    → store_close env id closed_by w ≡ (ok b, w')
    → IsClosed env id closed_by w.tables b w'.tables
unfolding store_close
store_close-ok env id closed_by w w' b h =
    let query = call env.links.faults (query_close_bead env.store_now id closed_by) w in
    let (r, w1, got, rest) =
      continue-ok
        (λ r. bind (call env.links.faults (query_get_labels id)) (λ ls.
          bind (call env.links.faults (query_get_dependencies id)) (λ ds.
            bind (call env.links.faults (query_get_comments id))
              (λ cs v. (ok (record r { labels = ls; dependencies = ds; comments = cs }), v)))))
        query b w' h in
    let (old, found, closed, tables) =
      close_query_lem env.store_now id closed_by w.tables w1.tables r
        (call-ok env.links.faults (query_close_bead env.store_now id closed_by) w r w1 got) in
    let (row, same) = read_labels env id r w1 w' b rest in
    record {
      old = old;
      found = found;
      result = row ∙ ap row_of (sym closed);
      keeps_valid = λ json_valid v. closed_row-IsValid json_valid env.store_now closed_by old v;
      written = ap data_of (same ∙ tables);
    }

announce_closed-data :
    (env : Env) (b : Bead) (closed_by : String) (w : World)
    → data_of (announce_closed env b closed_by w).tables ≡ data_of w.tables
announce_closed-data env b closed_by w =
    let w1 =
      record_and_publish env.links "beads.bead.closed" b.id closed_by (bead_closed b closed_by) w in
    let first =
      record_and_publish-data env.links "beads.bead.closed" b.id closed_by (bead_closed b closed_by)
        w in
    elim (Bool-cases (b.bead_type == "advice")) [
      | inl y ↦ rw y (
          record_and_publish-data env.links "beads.advice.deleted" b.id closed_by
            (advice_deleted b.id) w1
          ∙ first)
      | inr n ↦ rw n first
    ]

respond-ok :
    (env : Env) (closed_by : String) (r : Answer Bead × World) (b : Bead) (w' : World)
    → respond env closed_by r ≡ (inl b, w')
    → (w1 : World) × (r ≡ (ok b, w1)) × (data_of w'.tables ≡ data_of w1.tables)
respond-ok env closed_by (fail e, w) b w' h = cc
respond-ok env closed_by (ok x, w) b w' h =
    let after : announce_closed env x closed_by w ≡ w' = cc in
    (
      w,
      cc,
      ap (λ (v : World). data_of v.tables) (sym after) ∙ announce_closed-data env x closed_by w,
    )

refuse_bad-ok :
    (test : Bool) (w : World) (r : Reply Bead × World) (b : Bead) (w' : World)
    → refuse_bad test w r ≡ (inl b, w')
    → r ≡ (inl b, w')
refuse_bad-ok true w r b w' h = cc
refuse_bad-ok false w r b w' h = h

-- A bead that CloseBead returns is the stored row closed now, by the given actor; this row replaces the
-- old one, stays valid if that was, and the tables change in nothing else but the log of events.
pub close_bead-IsClosed :
    (env : Env) (id closed_by : String) (w : World) (b : Bead) (w' : World)
    → close_bead env id closed_by w ≡ (inl b, w')
    → IsClosed env id closed_by w.tables b w'.tables
unfolding close_bead
close_bead-IsClosed env id closed_by w b w' h =
    let (w1, closed, announced) = respond-ok env closed_by (store_close env id closed_by w) b w' (
      refuse_bad-ok (id == "") w (respond env closed_by (store_close env id closed_by w)) b w' h) in
    let c = store_close-ok env id closed_by w w1 b closed in
    record {
      old = c.old;
      found = c.found;
      result = c.result;
      keeps_valid = c.keeps_valid;
      written = announced ∙ c.written;
    }
