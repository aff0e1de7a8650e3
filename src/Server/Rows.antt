-- ===== src/Server/Rows.antt =====
-- The statements of internal/store/postgres/queries.go that delete a bead and write dependencies and
-- comments.
use kbeads.Prelude.{
  ℕ, suc, String, Bool, true, false, not, ◌&&◌, ◌||◌, List, [], ◌∷◌, ◌++◌, Option, none, some, keep,
  ◌==◌,
}
use kbeads.Prelude.Dict
use kbeads.Prelude.Dict.{Dict}
use kbeads.Model.Bead.{Bead, Dependency, Comment}
use kbeads.Server.Store.{Answer, ok, fail, no_rows, fault, Tables}

-- What ON DELETE CASCADE leaves of the tables that refer to beads.
abbrev pub delete_row : String → Tables → Tables
delete_row id t = record t {
  beads = Dict.remove id t.beads;
  labels = keep (λ r. not (r.0 == id)) t.labels;
  deps = keep (λ d. not (d.bead_id == id || d.depends_on_id == id)) t.deps;
  comments = keep (λ c. not (c.bead_id == id)) t.comments;
  gates = keep (λ g. not (g.agent_bead_id == id)) t.gates;
}

abbrev pub delete_found : Option Bead → String → Tables → Answer Unit × Tables
delete_found none id t = (fail no_rows, t)
delete_found (some b) id t = (ok tt, delete_row id t)

-- DELETE FROM beads WHERE id = $1; no row affected is sql.ErrNoRows.
unfoldable pub query_delete_bead : String → Tables → Answer Unit × Tables
query_delete_bead id t = delete_found (Dict.get id t.beads) id t

-- The primary key of deps.
abbrev pub same_dependency : String → String → String → Dependency → Bool
same_dependency bead_id depends_on_id dep_type d =
    d.bead_id == bead_id && (d.depends_on_id == depends_on_id && d.dep_type == dep_type)

unfoldable pub has_dependency : Dependency → List Dependency → Bool
has_dependency d [] = false
has_dependency d (e ∷ deps) =
    same_dependency d.bead_id d.depends_on_id d.dep_type e || has_dependency d deps

abbrev pub insert_dependency : Bool → Dependency → Tables → Answer Unit × Tables
insert_dependency true d t = (fail (fault "duplicate key"), t)
insert_dependency false d t = (ok tt, record t { deps = t.deps ++ d ∷ [] })

-- Both columns refer to beads.
abbrev pub insert_linked : Option Bead → Option Bead → Dependency → Tables → Answer Unit × Tables
insert_linked (some a) (some b) d t = insert_dependency (has_dependency d t.deps) d t
insert_linked _ _ d t = (fail (fault "violates foreign key"), t)

unfoldable pub query_add_dependency : Dependency → Tables → Answer Unit × Tables
unfolding has_dependency
query_add_dependency d t =
    insert_linked (Dict.get d.bead_id t.beads) (Dict.get d.depends_on_id t.beads) d t

unfoldable pub query_remove_dependency : String → String → String → Tables → Answer Unit × Tables
query_remove_dependency bead_id depends_on_id dep_type t = (
  ok tt,
  record t { deps = keep (λ d. not (same_dependency bead_id depends_on_id dep_type d)) t.deps },
)

abbrev pub insert_comment : ℕ → Option Bead → Comment → Tables → Answer Comment × Tables
insert_comment now none c t = (fail (fault "violates foreign key"), t)
insert_comment now (some b) c t =
    let stored : Comment = record c { id = t.next_comment; created_at = now } in
    (
      ok stored,
      record t { comments = t.comments ++ stored ∷ []; next_comment = suc t.next_comment },
    )

-- INSERT INTO comments ... RETURNING id, created_at: the comment with both filled in.
unfoldable pub query_add_comment : ℕ → Comment → Tables → Answer Comment × Tables
query_add_comment now c t = insert_comment now (Dict.get c.bead_id t.beads) c t
