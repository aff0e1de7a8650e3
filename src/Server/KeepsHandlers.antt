-- ===== src/Server/KeepsHandlers.antt =====
-- The other handlers keep the store sound.
use kbeads.Prelude.{ℕ, String, Bool, true, false, ◌||◌, ◌==◌, inl, inr, Bool-cases}
use kbeads.Model.Bead.{Bead, Dependency, Comment}
use kbeads.Server.Store.{Answer, ok, fail, Error, Tables, query_add_label, query_remove_label}
use kbeads.Server.Actions.{World, bind, call}
use kbeads.Server.Notify.{
  Notice, record_and_publish, bead_closed, bead_deleted, advice_deleted, dependency_added,
  dependency_removed, label_added, label_removed, comment_added,
}
use kbeads.Server.Beads.{Env}
use kbeads.Server.Update.{get_bead}
use kbeads.Server.Close.{announce_closed, query_close_bead, store_close, close_bead, respond}
use kbeads.Server.Replies.{Code, Reply, answer, refuse_bad, store_error, internal_error}
use kbeads.Server.Rows.{
  query_delete_bead, query_add_dependency, query_remove_dependency, query_add_comment,
}
use kbeads.Server.Relations.{
  delete_bead, add_dependency, remove_dependency, add_label, remove_label, add_comment,
}
use kbeads.Server.Soundness.{IsSound, close_bead_query-IsSound}
use kbeads.Server.References.{
  delete_bead_query-IsSound, add_label_query-IsSound, remove_label_query-IsSound,
  add_dependency_query-IsSound, remove_dependency_query-IsSound, add_comment_query-IsSound,
}
use kbeads.Server.GateRows.{upsert_gate-IsSound, mark_gate-IsSound, clear_gate-IsSound}
use kbeads.Server.Keeps.{
  QueryKeeps, Keeps, record_and_publish-Keeps, call-Keeps, bind-Keeps, answer-Keeps,
  refuse_bad-Keeps,
}
use kbeads.Server.Gates.{
  upsert_gate, mark_gate_satisfied, clear_gate, reply, unless_bad, handle_satisfy_gate,
  handle_clear_gate,
}
use kbeads.Server.KeepsCreate.{read_related, get_bead-Keeps}

module _ (json_valid : String → Bool) (env : Env) where
  pub store_close-Keeps : (id by : String) → Keeps json_valid (store_close env id by)
  unfolding store_close
  store_close-Keeps id by =
      bind-Keeps json_valid (call env.links.faults (query_close_bead env.store_now id by)) _
        (call-Keeps json_valid env.links.faults (query_close_bead env.store_now id by)
          (λ t s. close_bead_query-IsSound json_valid env.store_now id by t s))
        (λ b. read_related json_valid env id b)

  pub close_bead-Keeps :
      (id by : String) (w : World)
      → IsSound json_valid w.tables
      → IsSound json_valid (close_bead env id by w).1.tables
  unfolding close_bead
  close_bead-Keeps id by w s =
      refuse_bad-Keeps json_valid (id == "") w (respond env by (store_close env id by w)) s (
        answer-Keeps json_valid store_error (λ b v. (inl b, announce_closed env b by v))
          (store_close env id by w) (λ b v s1. announce_closed-Keeps b by v s1)
          (store_close-Keeps id by w s))
    where
      announce_closed-Keeps :
          (b : Bead) (by : String) (w : World)
          → IsSound json_valid w.tables
          → IsSound json_valid (announce_closed env b by w).tables
      announce_closed-Keeps b by w s =
          let w1 = record_and_publish env.links "beads.bead.closed" b.id by (bead_closed b by) w in
          let s1 =
            record_and_publish-Keeps json_valid env.links "beads.bead.closed" b.id by
              (bead_closed b by) w s in
          elim (Bool-cases (b.bead_type == "advice")) [
            | inl y ↦ rw y (
                record_and_publish-Keeps json_valid env.links "beads.advice.deleted" b.id by
                  (advice_deleted b.id) w1 s1)
            | inr n ↦ rw n s1
          ]

  -- A handler of one statement that announces what it did.
  one_statement :
      {A B : Type 0} (test : Bool) (code : Error → Code) (query : Tables → Answer A × Tables)
      (result : A → B) (topic bead_id actor : String) (event : A → Notice) (w : World)
      → QueryKeeps json_valid query
      → IsSound json_valid w.tables
      → IsSound json_valid
          (refuse_bad test w (
            answer code
              (λ a v.
                (inl (result a), record_and_publish env.links topic bead_id actor (event a) v))
              (call env.links.faults query w))).1.tables
  one_statement {A = A} {B = B} test code query result topic bead_id actor event w k s =
      let next : A → World → Reply B × World =
        λ a v. (inl (result a), record_and_publish env.links topic bead_id actor (event a) v) in
      refuse_bad-Keeps json_valid test w (answer code next (call env.links.faults query w)) s (
        answer-Keeps json_valid code next (call env.links.faults query w)
          (λ a v s1.
            record_and_publish-Keeps json_valid env.links topic bead_id actor (event a) v s1)
          (call-Keeps json_valid env.links.faults query k w s))

  pub delete_bead-Keeps :
      (id : String) (w : World)
      → IsSound json_valid w.tables
      → IsSound json_valid (delete_bead env id w).1.tables
  unfolding delete_bead
  delete_bead-Keeps id w s =
      one_statement (id == "") store_error (query_delete_bead id) (λ u. u) "beads.bead.deleted" id
        "" (λ u. bead_deleted id) w (delete_bead_query-IsSound json_valid id) s

  pub add_dependency-Keeps :
      (a b t by : String) (w : World)
      → IsSound json_valid w.tables
      → IsSound json_valid (add_dependency env a b t by w).1.tables
  unfolding add_dependency
  add_dependency-Keeps a b t by w s =
      let dep : Dependency = record {
        bead_id = a;
        depends_on_id = b;
        dep_type = t;
        created_at = env.now;
        created_by = by;
        metadata = "";
      } in
      one_statement (a == "" || b == "") internal_error (query_add_dependency dep) (λ u. dep)
        "beads.dependency.added" a by (λ u. dependency_added dep) w
        (add_dependency_query-IsSound json_valid dep) s

  pub remove_dependency-Keeps :
      (a b t : String) (w : World)
      → IsSound json_valid w.tables
      → IsSound json_valid (remove_dependency env a b t w).1.tables
  unfolding remove_dependency
  remove_dependency-Keeps a b t w s =
      one_statement (a == "" || b == "") internal_error (query_remove_dependency a b t) (λ u. u)
        "beads.dependency.removed" a "" (λ u. dependency_removed a b t) w
        (remove_dependency_query-IsSound json_valid a b t) s

  pub remove_label-Keeps :
      (id l : String) (w : World)
      → IsSound json_valid w.tables
      → IsSound json_valid (remove_label env id l w).1.tables
  unfolding remove_label
  remove_label-Keeps id l w s =
      one_statement (id == "" || l == "") internal_error (query_remove_label id l) (λ u. u)
        "beads.label.removed" id "" (λ u. label_removed id l) w
        (remove_label_query-IsSound json_valid id l) s

  pub add_comment-Keeps :
      (id author text : String) (w : World)
      → IsSound json_valid w.tables
      → IsSound json_valid (add_comment env id author text w).1.tables
  unfolding add_comment
  add_comment-Keeps id author text w s =
      let c : Comment = record {
        id = 0;
        bead_id = id;
        author = author;
        text = text;
        created_at = env.now;
      } in
      one_statement (id == "" || text == "") internal_error (query_add_comment env.store_now c)
        (λ x. x) "beads.comment.added" id author (λ x. comment_added x) w
        (add_comment_query-IsSound json_valid env.store_now c) s

  pub add_label-Keeps :
      (id l : String) (w : World)
      → IsSound json_valid w.tables
      → IsSound json_valid (add_label env id l w).1.tables
  unfolding add_label
  add_label-Keeps id l w s =
      let query = call env.links.faults (query_add_label id l) w in
      let told : World → World =
        λ v. record_and_publish env.links "beads.label.added" id "" (label_added id l) v in
      let read : World → Reply Bead × World =
        λ v. answer internal_error (λ (b : Bead) v1. (inl b, v1)) (get_bead env id (told v)) in
      refuse_bad-Keeps json_valid (id == "" || l == "") w
        (answer internal_error (λ u v. read v) query) s
        (answer-Keeps json_valid internal_error (λ (u : Unit) v. read v) query
          (λ u v s1.
            answer-Keeps json_valid internal_error (λ (b : Bead) v1. (inl b, v1))
              (get_bead env id (told v)) (λ b v1 s2. s2)
              (get_bead-Keeps json_valid env id (told v) (
                record_and_publish-Keeps json_valid env.links "beads.label.added" id ""
                  (label_added id l) v s1)))
          (call-Keeps json_valid env.links.faults (query_add_label id l)
            (add_label_query-IsSound json_valid id l) w s))

  reply-Keeps :
      (r : Answer Unit × World)
      → IsSound json_valid r.1.tables
      → IsSound json_valid (reply r).1.tables
  reply-Keeps (ok u, w) s = s
  reply-Keeps (fail e, w) s = s

  unless_bad-Keeps :
      (test : Bool) (w : World) (r : ℕ × World)
      → IsSound json_valid w.tables
      → IsSound json_valid r.1.tables
      → IsSound json_valid (unless_bad test w r).1.tables
  unless_bad-Keeps true w r s s1 = s
  unless_bad-Keeps false w r s s1 = s1

  pub satisfy_gate-Keeps :
      (agent gate : String) (w : World)
      → IsSound json_valid w.tables
      → IsSound json_valid
          (handle_satisfy_gate env.links.faults env.store_now agent gate w).1.tables
  unfolding handle_satisfy_gate
  satisfy_gate-Keeps agent gate w s =
      let f = env.links.faults in
      let up = call f (upsert_gate agent gate) in
      let mark = call f (mark_gate_satisfied env.store_now agent gate) in
      unless_bad-Keeps (agent == "" || gate == "") w (reply (bind up (λ u. mark) w)) s (
        reply-Keeps (bind up (λ u. mark) w) (
          bind-Keeps json_valid up (λ u. mark)
            (call-Keeps json_valid f (upsert_gate agent gate)
              (upsert_gate-IsSound json_valid agent gate))
            (λ u.
              call-Keeps json_valid f (mark_gate_satisfied env.store_now agent gate)
                (mark_gate-IsSound json_valid env.store_now agent gate))
            w s))

  pub clear_gate-Keeps :
      (agent gate : String) (w : World)
      → IsSound json_valid w.tables
      → IsSound json_valid (handle_clear_gate env.links.faults agent gate w).1.tables
  unfolding handle_clear_gate
  clear_gate-Keeps agent gate w s =
      let cleared = call env.links.faults (clear_gate agent gate) w in
      unless_bad-Keeps (agent == "" || gate == "") w (reply cleared) s (
        reply-Keeps cleared (
          call-Keeps json_valid env.links.faults (clear_gate agent gate)
            (clear_gate-IsSound json_valid agent gate) w s))
