-- ===== src/Server/References.antt =====
-- The statements on labels, dependencies and comments, and the cascade of a deletion, keep the store
-- sound.
use kbeads.Prelude.{
  ℕ, String, Bool, true, false, not, ◌&&◌, ◌||◌, [], ◌∷◌, Option, none, some, ◌==◌, ◌≡◌, inl, inr,
  refl, arith, All-append, Bool-cases,
}
use kbeads.Prelude.Dict
use kbeads.Prelude.Dict.{Dict, get-put, get-remove}
use kbeads.Model.Bead.{Bead, Dependency, Comment}
use kbeads.Server.Store.{
  Tables, with_label, insert_label, has_label, query_add_label, query_remove_label,
}
use kbeads.Server.Rows.{
  delete_row, delete_found, query_delete_bead, insert_dependency, insert_linked,
  query_add_dependency, has_dependency, query_remove_dependency, same_dependency, insert_comment,
  query_add_comment,
}
use kbeads.Server.Soundness.{Known, IsSound, All-keep, Known-remove, Known-some}

module _ (json_valid : String → Bool) where
  delete_row-IsSound :
      (id : String) (t : Tables) → IsSound json_valid t → IsSound json_valid (delete_row id t)
  delete_row-IsSound id t s =
      let (labels, deps, comments, gates) = s.refs in
      let m = Dict.remove id t.beads in
      record {
        rows = λ k b h. elim (Bool-cases (id == k)) [
          | inl y ↦ absurd (ground (arith, get-remove id k t.beads))
          | inr n ↦ s.rows k b (ground (arith, get-remove id k t.beads))
        ];
        refs = (
          All-keep (λ r. Known t.beads r.0) (λ r. Known m r.0) (λ r. not (r.0 == id)) t.labels
              (λ r e h. Known-remove id r.0 t.beads (ground arith) h) labels,
          All-keep (λ d. Known t.beads d.bead_id × Known t.beads d.depends_on_id)
              (λ d. Known m d.bead_id × Known m d.depends_on_id)
              (λ d. not (d.bead_id == id || d.depends_on_id == id)) t.deps
              (λ d e h. (
                Known-remove id d.bead_id t.beads (ground arith) h.0,
                Known-remove id d.depends_on_id t.beads (ground arith) h.1,
              ))
              deps,
          All-keep (λ c. Known t.beads c.bead_id) (λ c. Known m c.bead_id)
              (λ c. not (c.bead_id == id)) t.comments
              (λ c e h. Known-remove id c.bead_id t.beads (ground arith) h) comments,
          All-keep (λ g. Known t.beads g.agent_bead_id) (λ g. Known m g.agent_bead_id)
              (λ g. not (g.agent_bead_id == id)) t.gates
              (λ g e h. Known-remove id g.agent_bead_id t.beads (ground arith) h) gates,
        );
      }

  delete_found-IsSound :
      (o : Option Bead) (id : String) (t : Tables)
      → IsSound json_valid t
      → IsSound json_valid (delete_found o id t).1
  delete_found-IsSound none id t s = s
  delete_found-IsSound (some b) id t s = delete_row-IsSound id t s

  pub delete_bead_query-IsSound :
      (id : String) (t : Tables)
      → IsSound json_valid t
      → IsSound json_valid (query_delete_bead id t).1
  unfolding query_delete_bead
  delete_bead_query-IsSound id t s = delete_found-IsSound (Dict.get id t.beads) id t s

  with_label-IsSound :
      (present : Bool) (id label : String) (t : Tables)
      → Known t.beads id
      → IsSound json_valid t
      → IsSound json_valid (with_label present id label t)
  with_label-IsSound true id label t k s = s
  with_label-IsSound false id label t k s =
      let (labels, deps, comments, gates) = s.refs in
      record {
        rows = s.rows;
        refs = (
          All-append (λ r. Known t.beads r.0) t.labels ((id, label) ∷ []) labels (k, tt),
          deps,
          comments,
          gates,
        );
      }

  insert_label-IsSound :
      (o : Option Bead) (id label : String) (t : Tables)
      → Dict.get id t.beads ≡ o
      → IsSound json_valid t
      → IsSound json_valid (insert_label o id label t).1
  insert_label-IsSound none id label t e s = s
  insert_label-IsSound (some b) id label t e s =
      with_label-IsSound (has_label id label t.labels) id label t (Known-some t.beads id b e) s

  pub add_label_query-IsSound :
      (id label : String) (t : Tables)
      → IsSound json_valid t
      → IsSound json_valid (query_add_label id label t).1
  unfolding query_add_label
  add_label_query-IsSound id label t s =
      insert_label-IsSound (Dict.get id t.beads) id label t refl s

  pub remove_label_query-IsSound :
      (id label : String) (t : Tables)
      → IsSound json_valid t
      → IsSound json_valid (query_remove_label id label t).1
  unfolding query_remove_label
  remove_label_query-IsSound id label t s =
      let (labels, deps, comments, gates) = s.refs in
      record {
        rows = s.rows;
        refs = (
          All-keep (λ r. Known t.beads r.0) (λ r. Known t.beads r.0)
              (λ r. not (r.0 == id && r.1 == label)) t.labels (λ r e h. h) labels,
          deps,
          comments,
          gates,
        );
      }

  insert_dependency-IsSound :
      (present : Bool) (d : Dependency) (t : Tables)
      → Known t.beads d.bead_id × Known t.beads d.depends_on_id
      → IsSound json_valid t
      → IsSound json_valid (insert_dependency present d t).1
  insert_dependency-IsSound true d t k s = s
  insert_dependency-IsSound false d t k s =
      let (labels, deps, comments, gates) = s.refs in
      record {
        rows = s.rows;
        refs = (
          labels,
          All-append (λ x. Known t.beads x.bead_id × Known t.beads x.depends_on_id) t.deps (d ∷ [])
              deps (k, tt),
          comments,
          gates,
        );
      }

  insert_linked-IsSound :
      (o p : Option Bead) (d : Dependency) (t : Tables)
      → Dict.get d.bead_id t.beads ≡ o
      → Dict.get d.depends_on_id t.beads ≡ p
      → IsSound json_valid t
      → IsSound json_valid (insert_linked o p d t).1
  insert_linked-IsSound none p d t e f s = s
  insert_linked-IsSound (some a) none d t e f s = s
  insert_linked-IsSound (some a) (some b) d t e f s =
      insert_dependency-IsSound (has_dependency d t.deps) d t
        (Known-some t.beads d.bead_id a e, Known-some t.beads d.depends_on_id b f) s

  pub add_dependency_query-IsSound :
      (d : Dependency) (t : Tables)
      → IsSound json_valid t
      → IsSound json_valid (query_add_dependency d t).1
  unfolding query_add_dependency
  add_dependency_query-IsSound d t s =
      insert_linked-IsSound (Dict.get d.bead_id t.beads) (Dict.get d.depends_on_id t.beads) d t refl
        refl s

  pub remove_dependency_query-IsSound :
      (a b c : String) (t : Tables)
      → IsSound json_valid t
      → IsSound json_valid (query_remove_dependency a b c t).1
  unfolding query_remove_dependency
  remove_dependency_query-IsSound a b c t s =
      let (labels, deps, comments, gates) = s.refs in
      record {
        rows = s.rows;
        refs = (
          labels,
          All-keep (λ x. Known t.beads x.bead_id × Known t.beads x.depends_on_id)
              (λ x. Known t.beads x.bead_id × Known t.beads x.depends_on_id)
              (λ d. not (same_dependency a b c d)) t.deps (λ d e h. h) deps,
          comments,
          gates,
        );
      }

  insert_comment-IsSound :
      (now : ℕ) (o : Option Bead) (c : Comment) (t : Tables)
      → Dict.get c.bead_id t.beads ≡ o
      → IsSound json_valid t
      → IsSound json_valid (insert_comment now o c t).1
  insert_comment-IsSound now none c t e s = s
  insert_comment-IsSound now (some b) c t e s =
      let (labels, deps, comments, gates) = s.refs in
      record {
        rows = s.rows;
        refs = (
          labels,
          deps,
          All-append (λ x. Known t.beads x.bead_id) t.comments
              (record c { id = t.next_comment; created_at = now } ∷ []) comments
              (Known-some t.beads c.bead_id b e, tt),
          gates,
        );
      }

  pub add_comment_query-IsSound :
      (now : ℕ) (c : Comment) (t : Tables)
      → IsSound json_valid t
      → IsSound json_valid (query_add_comment now c t).1
  unfolding query_add_comment
  add_comment_query-IsSound now c t s =
      insert_comment-IsSound now (Dict.get c.bead_id t.beads) c t refl s
