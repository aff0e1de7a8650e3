-- ===== src/Server/UpdateSteps.antt =====
-- The steps of updateBead, each with what it does to the tables.
use kbeads.Prelude.{
  ℕ, String, Bool, List, [], ◌∷◌, Option, none, some, mem, ◌==◌, if◌then◌else◌, ◌≡◌, inl, inr, refl,
  sym, ap, ◌∙◌, Bool-cases,
}
use kbeads.Prelude.Dict
use kbeads.Prelude.Dict.{get-put}
use kbeads.Model.Bead.{Bead, TypeConfig, Dependency, Comment}
use kbeads.Model.Validate.{FieldError}
use kbeads.Model.Fields.{validate_fields}
use kbeads.Server.Store.{
  ok, Tables, has_label, query_update_bead, update_row, updated_row, row_of, query_get_row,
  found_row, query_get_labels, query_get_dependencies, query_get_comments,
}
use kbeads.Server.Actions.{World, bind, continue-ok, wrap_answer, wrap_answer-ok, call, call-ok}
use kbeads.Server.Notify.{
  data_of, record_and_publish, record_and_publish-data, bead_updated, advice_updated,
}
use kbeads.Server.Beads.{Env, resolve_type_config}
use kbeads.Server.Creating.{resolve_type_config-tables}
use kbeads.Server.Reconcile.{reconcile_labels, reconcile_labels_lem}
use kbeads.Server.Update.{
  get_bead, refuse, check_config, check_changed, sync_labels, announce_updated,
}

pub refuse-ok :
    (text : String) (es : List FieldError) (w w' : World) (u : Unit)
    → refuse text es w ≡ (ok u, w')
    → (es ≡ []) × (w' ≡ w)
refuse-ok text [] w w' u h = (refl, cc)
refuse-ok text (e ∷ es) w w' u h = cc

found_row-tables :
    (o : Option Bead) (t t' : Tables) (b : Bead)
    → found_row o t ≡ (ok b, t')
    → (o ≡ some b) × (t' ≡ t)
found_row-tables none t t' b h = cc
found_row-tables (some x) t t' b h = (cc, cc)

get_row-tables :
    (id : String) (t t' : Tables) (b : Bead)
    → query_get_row id t ≡ (ok b, t')
    → (Dict.get id t.beads ≡ some b) × (t' ≡ t)
unfolding query_get_row
get_row-tables id t t' b h = found_row-tables (Dict.get id t.beads) t t' b h

get_labels-tables :
    (id : String) (t t' : Tables) (b : List String) → query_get_labels id t ≡ (ok b, t') → t' ≡ t
unfolding query_get_labels
get_labels-tables id t t' b h = cc

get_dependencies-tables :
    (id : String) (t t' : Tables) (b : List Dependency)
    → query_get_dependencies id t ≡ (ok b, t')
    → t' ≡ t
unfolding query_get_dependencies
get_dependencies-tables id t t' b h = cc

get_comments-tables :
    (id : String) (t t' : Tables) (b : List Comment) → query_get_comments id t ≡ (ok b, t') → t' ≡ t
unfolding query_get_comments
get_comments-tables id t t' b h = cc

-- What getBead reads: a row with its relational data around it.
abbrev pub IsRead : String → Tables → Bead → Tables → Type 0
IsRead id t b t' =
    ((row : Bead) × (Dict.get id t.beads ≡ some row) × (row_of b ≡ row_of row)) × (t' ≡ t)

read_comments :
    (env : Env) (id : String) (r : Bead) (ls : List String) (ds : List Dependency) (w w' : World)
    (b : Bead)
    → bind
        (call env.links.faults (query_get_comments id))
        (λ cs v. (ok (record r { labels = ls; dependencies = ds; comments = cs }), v))
        w
      ≡ (ok b, w')
    → (row_of b ≡ row_of r) × (w'.tables ≡ w.tables)
unfolding row_of
read_comments env id r ls ds w w' b h =
    let query = call env.links.faults (query_get_comments id) w in
    let (cs, w1, got, rest) =
      continue-ok (λ cs v. (ok (record r { labels = ls; dependencies = ds; comments = cs }), v))
        query b w' h in
    let same : w1 ≡ w' = cc in
    let result : record r { labels = ls; dependencies = ds; comments = cs } ≡ b = cc in
    (
      ap row_of (sym result),
      ap (λ (v : World). v.tables) (sym same)
          ∙ get_comments-tables id w.tables w1.tables cs
              (call-ok env.links.faults (query_get_comments id) w cs w1 got),
    )

read_dependencies :
    (env : Env) (id : String) (r : Bead) (ls : List String) (w w' : World) (b : Bead)
    → bind
        (call env.links.faults (query_get_dependencies id))
        (λ ds.
          bind
            (call env.links.faults (query_get_comments id))
            (λ cs v. (ok (record r { labels = ls; dependencies = ds; comments = cs }), v)))
        w
      ≡ (ok b, w')
    → (row_of b ≡ row_of r) × (w'.tables ≡ w.tables)
read_dependencies env id r ls w w' b h =
    let query = call env.links.faults (query_get_dependencies id) w in
    let (ds, w1, got, rest) =
      continue-ok
        (λ ds.
          bind (call env.links.faults (query_get_comments id))
            (λ cs v. (ok (record r { labels = ls; dependencies = ds; comments = cs }), v)))
        query b w' h in
    let (row, same) = read_comments env id r ls ds w1 w' b rest in
    (
      row,
      same
          ∙ get_dependencies-tables id w.tables w1.tables ds
              (call-ok env.links.faults (query_get_dependencies id) w ds w1 got),
    )

pub read_labels :
    (env : Env) (id : String) (r : Bead) (w w' : World) (b : Bead)
    → bind
        (call env.links.faults (query_get_labels id))
        (λ ls. bind (call env.links.faults (query_get_dependencies id)) (λ ds.
          bind
            (call env.links.faults (query_get_comments id))
            (λ cs v. (ok (record r { labels = ls; dependencies = ds; comments = cs }), v))))
        w
      ≡ (ok b, w')
    → (row_of b ≡ row_of r) × (w'.tables ≡ w.tables)
read_labels env id r w w' b h =
    let query = call env.links.faults (query_get_labels id) w in
    let (ls, w1, got, rest) =
      continue-ok
        (λ ls. bind (call env.links.faults (query_get_dependencies id)) (λ ds.
          bind (call env.links.faults (query_get_comments id))
            (λ cs v. (ok (record r { labels = ls; dependencies = ds; comments = cs }), v))))
        query b w' h in
    let (row, same) = read_dependencies env id r ls w1 w' b rest in
    (
      row,
      same
          ∙ get_labels-tables id w.tables w1.tables ls
              (call-ok env.links.faults (query_get_labels id) w ls w1 got),
    )

pub get_bead-IsRead :
    (env : Env) (id : String) (w w' : World) (b : Bead)
    → get_bead env id w ≡ (ok b, w')
    → IsRead id w.tables b w'.tables
unfolding get_bead
get_bead-IsRead env id w w' b h =
    let query = call env.links.faults (query_get_row id) w in
    let (r, w1, got, rest) =
      continue-ok
        (λ r. bind (call env.links.faults (query_get_labels id)) (λ ls.
          bind (call env.links.faults (query_get_dependencies id)) (λ ds.
            bind (call env.links.faults (query_get_comments id))
              (λ cs v. (ok (record r { labels = ls; dependencies = ds; comments = cs }), v)))))
        query b w' h in
    let (found, same1) =
      get_row-tables id w.tables w1.tables r
        (call-ok env.links.faults (query_get_row id) w r w1 got) in
    let (row, same2) = read_labels env id r w1 w' b rest in ((r, found, row), same2 ∙ same1)

check_config-world :
    (env : Env) (b : Bead) (o : Option TypeConfig) (w w' : World) (u : Unit)
    → check_config env b o w ≡ (ok u, w')
    → w' ≡ w
check_config-world env b none w w' u h = cc
check_config-world env b (some tc) w w' u h =
    (refuse-ok "invalid fields" (validate_fields env.decoder b.fields tc.fields) w w' u h).1

pub check_changed-tables :
    (env : Env) (b : Bead) (o : Option String) (w w' : World) (u : Unit)
    → check_changed env b o w ≡ (ok u, w')
    → w'.tables ≡ w.tables
check_changed-tables env b none w w' u h = cc
check_changed-tables env b (some patch) w w' u h =
    let resolved = resolve_type_config env b.bead_type w in
    let (tc, w1, found, rest) =
      continue-ok (check_config env b) (wrap_answer "failed to resolve type config" resolved) u w'
        h in
    ap (λ (v : World). v.tables) (check_config-world env b tc w1 w' u rest)
    ∙ resolve_type_config-tables env b.bead_type w (ok tc) w1
        (wrap_answer-ok "failed to resolve type config" resolved tc w1 found)

-- The label of a bead after an update of bead `id`.
abbrev pub label_after : Option (List String) → String → Tables → String → String → Bool
label_after none id t i x = has_label i x t.labels
label_after (some labels) id t i x = if i == id then mem x labels else has_label i x t.labels

pub sync_labels_lem :
    (env : Env) (b : Bead) (o : Option (List String)) (w w' : World) (u : Unit)
    → sync_labels env b o w ≡ (ok u, w')
    → ((i x : String) → has_label i x w'.tables.labels ≡ label_after o b.id w.tables i x)
      × (w'.tables.beads ≡ w.tables.beads)
sync_labels_lem env b none w w' u h =
    let e : w' ≡ w = cc in
    (
      λ i x. ap (λ (v : World). has_label i x v.tables.labels) e,
      ap (λ (v : World). v.tables.beads) e,
    )
sync_labels_lem env b (some labels) w w' u h =
    reconcile_labels_lem env.links.faults b.id labels w w' u (
      wrap_answer-ok "failed to reconcile labels" (reconcile_labels env.links.faults b.id labels w)
        u w' h)

update_row-put :
    (now : ℕ) (o : Option Bead) (b : Bead) (t t' : Tables) (u : ℕ)
    → update_row now o b t ≡ (ok u, t')
    → (old : Bead) × (o ≡ some old)
      × (t' ≡ record t { beads = Dict.put b.id (updated_row now b old) t.beads })
update_row-put now none b t t' u h = cc
update_row-put now (some old) b t t' u h = (old, refl, cc)

pub update_query_lem :
    (now : ℕ) (b : Bead) (t t' : Tables) (u : ℕ)
    → query_update_bead now b t ≡ (ok u, t')
    → (old : Bead) × (Dict.get b.id t.beads ≡ some old)
      × (t' ≡ record t { beads = Dict.put b.id (updated_row now b old) t.beads })
unfolding query_update_bead
update_query_lem now b t t' u h = update_row-put now (Dict.get b.id t.beads) b t t' u h

pub announce_updated-data :
    (env : Env) (b : Bead) (changes : List String) (w : World)
    → data_of (announce_updated env b changes w).tables ≡ data_of w.tables
announce_updated-data env b changes w =
    let w1 = record_and_publish env.links "beads.bead.updated" b.id "" (bead_updated b changes) w in
    let first =
      record_and_publish-data env.links "beads.bead.updated" b.id "" (bead_updated b changes) w in
    elim (Bool-cases (b.bead_type == "advice")) [
      | inl y ↦ rw y (
          record_and_publish-data env.links "beads.advice.updated" b.id ""
            (advice_updated b changes) w1
          ∙ first)
      | inr n ↦ rw n first
    ]
