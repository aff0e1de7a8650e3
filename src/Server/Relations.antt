-- ===== src/Server/Relations.antt =====
-- The handlers of internal/server/server.go that change labels, dependencies and comments, and
-- DeleteBead of beads.go.
use kbeads.Prelude.{String, ◌||◌, ◌==◌, inl}
use kbeads.Model.Bead.{Bead, Dependency, Comment}
use kbeads.Server.Store.{query_add_label, query_remove_label}
use kbeads.Server.Rows.{
  query_delete_bead, query_add_dependency, query_remove_dependency, query_add_comment,
}
use kbeads.Server.Actions.{World, call}
use kbeads.Server.Notify.{
  bead_deleted, dependency_added, dependency_removed, label_added, label_removed, comment_added,
  record_and_publish,
}
use kbeads.Server.Beads.{Env}
use kbeads.Server.Update.{get_bead}
use kbeads.Server.Replies.{Reply, answer, refuse_bad, store_error, internal_error}

unfoldable pub delete_bead : Env → String → World → Reply Unit × World
unfolding store_error
delete_bead env id w = refuse_bad (id == "") w (
    answer store_error
      (λ u v. (inl tt, record_and_publish env.links "beads.bead.deleted" id "" (bead_deleted id) v))
      (call env.links.faults (query_delete_bead id) w))

unfoldable pub add_dependency :
    Env → String → String → String → String → World → Reply Dependency × World
add_dependency env bead_id depends_on_id dep_type created_by w =
    let dep : Dependency = record {
      bead_id = bead_id;
      depends_on_id = depends_on_id;
      dep_type = dep_type;
      created_at = env.now;
      created_by = created_by;
      metadata = "";
    } in
    refuse_bad (bead_id == "" || depends_on_id == "") w (
      answer internal_error
        (λ u v. (
          inl dep,
          record_and_publish env.links "beads.dependency.added" bead_id created_by
              (dependency_added dep) v,
        ))
        (call env.links.faults (query_add_dependency dep) w))

unfoldable pub remove_dependency : Env → String → String → String → World → Reply Unit × World
remove_dependency env bead_id depends_on_id dep_type w =
    refuse_bad (bead_id == "" || depends_on_id == "") w (
      answer internal_error
        (λ u v. (
          inl tt,
          record_and_publish env.links "beads.dependency.removed" bead_id ""
              (dependency_removed bead_id depends_on_id dep_type) v,
        ))
        (call env.links.faults (query_remove_dependency bead_id depends_on_id dep_type) w))

-- The updated bead is read back; any failure of that is an internal error.
unfoldable pub add_label : Env → String → String → World → Reply Bead × World
unfolding get_bead
add_label env bead_id label w = refuse_bad (bead_id == "" || label == "") w (
    answer internal_error
      (λ u v.
        answer internal_error (λ b v1. (inl b, v1))
          (get_bead env bead_id (
            record_and_publish env.links "beads.label.added" bead_id "" (label_added bead_id label)
              v)))
      (call env.links.faults (query_add_label bead_id label) w))

unfoldable pub remove_label : Env → String → String → World → Reply Unit × World
remove_label env bead_id label w = refuse_bad (bead_id == "" || label == "") w (
    answer internal_error
      (λ u v. (
        inl tt,
        record_and_publish env.links "beads.label.removed" bead_id "" (label_removed bead_id label)
            v,
      ))
      (call env.links.faults (query_remove_label bead_id label) w))

unfoldable pub add_comment : Env → String → String → String → World → Reply Comment × World
add_comment env bead_id author text w =
    let comment : Comment = record {
      id = 0;
      bead_id = bead_id;
      author = author;
      text = text;
      created_at = env.now;
    } in
    refuse_bad (bead_id == "" || text == "") w (
      answer internal_error
        (λ stored v. (
          inl stored,
          record_and_publish env.links "beads.comment.added" bead_id author (comment_added stored)
              v,
        ))
        (call env.links.faults (query_add_comment env.store_now comment) w))
