-- ===== src/Server/Requests.antt =====
-- Every handler keeps the store sound, whatever requests come and whichever store calls fail.
use kbeads.Prelude.{String, Bool, List, [], ◌∷◌, ◌≡◌, All}
use kbeads.Server.Actions.{World}
use kbeads.Server.Beads.{Env, CreateBeadInput, create_bead}
use kbeads.Server.Update.{UpdateBeadInput, update_bead}
use kbeads.Server.Close.{close_bead}
use kbeads.Server.Relations.{
  delete_bead, add_dependency, remove_dependency, add_label, remove_label, add_comment,
}
use kbeads.Server.Soundness.{IsSound}
use kbeads.Server.Gates.{handle_satisfy_gate, handle_clear_gate}
use kbeads.Server.KeepsCreate.{create_bead-Keeps}
use kbeads.Server.KeepsUpdate.{update_bead-Keeps}
use kbeads.Server.KeepsHandlers.{
  close_bead-Keeps, delete_bead-Keeps, add_dependency-Keeps, remove_dependency-Keeps,
  remove_label-Keeps, add_comment-Keeps, add_label-Keeps, satisfy_gate-Keeps, clear_gate-Keeps,
}

-- The requests that change the store.
pub data Request : Type 0 where
  create : CreateBeadInput → Request
  update : String → UpdateBeadInput → Request
  close : String → String → Request
  delete : String → Request
  link : String → String → String → String → Request
  unlink : String → String → String → Request
  label unlabel : String → String → Request
  comment : String → String → String → Request
  satisfy clear : String → String → Request

-- The world after a request, whatever its answer.
unfoldable pub handle : Env → Request → World → World
handle env (create in_) w = (create_bead env in_ w).1
handle env (update id in_) w = (update_bead env id in_ w).1
handle env (close id by) w = (close_bead env id by w).1
handle env (delete id) w = (delete_bead env id w).1
handle env (link a b t by) w = (add_dependency env a b t by w).1
handle env (unlink a b t) w = (remove_dependency env a b t w).1
handle env (label id l) w = (add_label env id l w).1
handle env (unlabel id l) w = (remove_label env id l w).1
handle env (comment id author text) w = (add_comment env id author text w).1
handle env (satisfy agent gate) w =
    (handle_satisfy_gate env.links.faults env.store_now agent gate w).1
handle env (clear agent gate) w = (handle_clear_gate env.links.faults agent gate w).1

-- A history: each request with its clock, its ids and the failures it meets.
unfoldable serve : List (Env × Request) → World → World
serve [] w = w
serve ((env, r) ∷ rs) w = serve rs (handle env r w)

pub handle-IsSound :
    (json_valid : String → Bool) (env : Env)
    → env.json_valid ≡ json_valid
    → (r : Request) (w : World) → IsSound json_valid w.tables
    → IsSound json_valid (handle env r w).tables
unfolding handle
handle-IsSound json_valid env same (create in_) w s = create_bead-Keeps json_valid env same in_ w s
handle-IsSound json_valid env same (update id in_) w s =
    update_bead-Keeps json_valid env same id in_ w s
handle-IsSound json_valid env same (close id by) w s = close_bead-Keeps json_valid env id by w s
handle-IsSound json_valid env same (delete id) w s = delete_bead-Keeps json_valid env id w s
handle-IsSound json_valid env same (link a b t by) w s =
    add_dependency-Keeps json_valid env a b t by w s
handle-IsSound json_valid env same (unlink a b t) w s =
    remove_dependency-Keeps json_valid env a b t w s
handle-IsSound json_valid env same (label id l) w s = add_label-Keeps json_valid env id l w s
handle-IsSound json_valid env same (unlabel id l) w s = remove_label-Keeps json_valid env id l w s
handle-IsSound json_valid env same (comment id author text) w s =
    add_comment-Keeps json_valid env id author text w s
handle-IsSound json_valid env same (satisfy agent gate) w s =
    satisfy_gate-Keeps json_valid env agent gate w s
handle-IsSound json_valid env same (clear agent gate) w s =
    clear_gate-Keeps json_valid env agent gate w s

-- From a sound store, and whatever requests come with whatever failures of the store, the store stays
-- sound: every bead stands under its id and meets the rules of ValidateBead, and every label,
-- dependency, comment and gate refers to beads that exist. JSON is judged alike in all requests.
serve-IsSound :
    (json_valid : String → Bool) (rs : List (Env × Request)) (w : World)
    → All (λ r. r.0.json_valid ≡ json_valid) rs
    → IsSound json_valid w.tables
    → IsSound json_valid (serve rs w).tables
unfolding serve
serve-IsSound json_valid [] w a s = s
serve-IsSound json_valid ((env, r) ∷ rs) w a s =
    serve-IsSound json_valid rs (handle env r w) a.1 (handle-IsSound json_valid env a.0 r w s)
