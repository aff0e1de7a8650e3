-- ===== src/Http/Relations.antt =====
-- The handlers of internal/server/http_relations.go. A body that is none is no JSON of the request's form.
use kbeads.Prelude.{String, Option, none, some, ◌==◌}
use kbeads.Model.Bead.{Dependency, Comment}
use kbeads.Server.Store.{
  Answer, Tables, query_add_label, query_remove_label, query_get_labels, query_get_dependencies,
  query_get_comments,
}
use kbeads.Server.Rows.{query_add_dependency, query_remove_dependency, query_add_comment}
use kbeads.Server.Actions.{World, call}
use kbeads.Server.Notify.{
  dependency_added, dependency_removed, label_added, label_removed, comment_added,
  record_and_publish,
}
use kbeads.Server.Beads.{Env}
use kbeads.Server.Update.{get_bead}
use kbeads.Http.Replies.{
  Body, Response, empty, bead, dependency, comment, dependencies, labels, comments, events,
  refuse_if, bad_request, after, server_error,
}
use kbeads.Http.Rpc.{query_get_events, query_get_reverse_dependencies}

pub record AddDependencyRequest : Type 0 where
  pub depends_on_id : String
  pub dep_type : String
  pub created_by : String

pub record AddCommentRequest : Type 0 where
  pub author : String
  pub text : String

-- A read of what belongs to a bead; a nil slice is written as an empty one.
abbrev pub show :
    {A : Type 0}
    → (A → Body)
    → Env
    → String
    → (Tables → Answer A × Tables)
    → World
    → Response × World
show body env id query w =
    refuse_if (id == "") w
      (after server_error (λ a v. ((200, body a), v)) (call env.links.faults query w))

unfoldable pub handle_get_dependencies : Env → String → World → Response × World
handle_get_dependencies env id w = show dependencies env id (query_get_dependencies id) w

unfoldable pub handle_get_reverse_dependencies : Env → String → World → Response × World
unfolding query_get_reverse_dependencies
handle_get_reverse_dependencies env id w =
    show dependencies env id (query_get_reverse_dependencies id) w

unfoldable pub handle_get_labels : Env → String → World → Response × World
handle_get_labels env id w = show labels env id (query_get_labels id) w

unfoldable pub handle_get_comments : Env → String → World → Response × World
handle_get_comments env id w = show comments env id (query_get_comments id) w

unfoldable pub handle_get_events : Env → String → World → Response × World
unfolding query_get_events
handle_get_events env id w = show events env id (query_get_events id) w

abbrev pub dependency_of : Env → String → AddDependencyRequest → Dependency
dependency_of env bead_id req = record {
  bead_id = bead_id;
  depends_on_id = req.depends_on_id;
  dep_type = req.dep_type;
  created_at = env.now;
  created_by = req.created_by;
  metadata = "";
}

abbrev pub link : Env → String → Option AddDependencyRequest → World → Response × World
link env bead_id none w = bad_request w
link env bead_id (some req) w =
    let dep = dependency_of env bead_id req in
    refuse_if (req.depends_on_id == "") w (
      after server_error
        (λ u v. (
          (201, dependency dep),
          record_and_publish env.links "beads.dependency.added" bead_id req.created_by
              (dependency_added dep) v,
        ))
        (call env.links.faults (query_add_dependency dep) w))

unfoldable pub handle_add_dependency :
    Env → String → Option AddDependencyRequest → World → Response × World
handle_add_dependency env bead_id body w = refuse_if (bead_id == "") w (link env bead_id body w)

-- `depends_on_id` and `type` are query parameters.
unfoldable pub handle_remove_dependency : Env → String → String → String → World → Response × World
handle_remove_dependency env bead_id depends_on_id dep_type w = refuse_if (bead_id == "") w (
    refuse_if (depends_on_id == "") w (
      after server_error
        (λ u v. (
          (204, empty),
          record_and_publish env.links "beads.dependency.removed" bead_id ""
              (dependency_removed bead_id depends_on_id dep_type) v,
        ))
        (call env.links.faults (query_remove_dependency bead_id depends_on_id dep_type) w)))

-- The updated bead is read back; any failure of that is a server error.
abbrev pub tag : Env → String → Option String → World → Response × World
tag env bead_id none w = bad_request w
tag env bead_id (some label) w = refuse_if (label == "") w (
    after server_error
      (λ u v.
        after server_error (λ b v1. ((201, bead b), v1))
          (get_bead env bead_id (
            record_and_publish env.links "beads.label.added" bead_id "" (label_added bead_id label)
              v)))
      (call env.links.faults (query_add_label bead_id label) w))

unfoldable pub handle_add_label : Env → String → Option String → World → Response × World
unfolding get_bead
handle_add_label env bead_id body w = refuse_if (bead_id == "") w (tag env bead_id body w)

unfoldable pub handle_remove_label : Env → String → String → World → Response × World
handle_remove_label env bead_id label w = refuse_if (bead_id == "") w (
    refuse_if (label == "") w (
      after server_error
        (λ u v. (
          (204, empty),
          record_and_publish env.links "beads.label.removed" bead_id ""
              (label_removed bead_id label) v,
        ))
        (call env.links.faults (query_remove_label bead_id label) w)))

abbrev pub comment_of : Env → String → AddCommentRequest → Comment
comment_of env bead_id req = record {
  id = 0;
  bead_id = bead_id;
  author = req.author;
  text = req.text;
  created_at = env.now;
}

abbrev pub remark : Env → String → Option AddCommentRequest → World → Response × World
remark env bead_id none w = bad_request w
remark env bead_id (some req) w = refuse_if (req.text == "") w (
    after server_error
      (λ stored v. (
        (201, comment stored),
        record_and_publish env.links "beads.comment.added" bead_id req.author (comment_added stored)
            v,
      ))
      (call env.links.faults (query_add_comment env.store_now (comment_of env bead_id req)) w))

unfoldable pub handle_add_comment :
    Env → String → Option AddCommentRequest → World → Response × World
handle_add_comment env bead_id body w = refuse_if (bead_id == "") w (remark env bead_id body w)
