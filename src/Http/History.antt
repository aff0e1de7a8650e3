-- ===== src/Http/History.antt =====
-- The requests of both transports that change the store, and histories of them.
use kbeads.Prelude.{String, Bool, List, [], ◌∷◌, Option, ◌≡◌, All}
use kbeads.Prelude.Dict.{Dict}
use kbeads.Model.Value.{Value}
use kbeads.Server.Actions.{World}
use kbeads.Server.Beads.{Env}
use kbeads.Server.Soundness.{IsSound}
use kbeads.Server.Requests.{Request, handle, handle-IsSound}
use kbeads.Decision.Handlers.{
  ResolveDecisionRequest, handle_resolve_decision, handle_cancel_decision,
}
use kbeads.Config.Rpc.{ConfigDatabase}
use kbeads.Http.Beads.{handle_close_bead}
use kbeads.Http.Agreement.{Call, over_http, over_grpc}
use kbeads.Presence.Tracker.{Tracker}
use kbeads.Hooks.Handler.{Run}
use kbeads.Hooks.Emit.{Site, HookEmitRequest, handle_hook_emit}
use kbeads.Hooks.Keeps.{handle_hook_emit-Keeps}
use kbeads.Http.Keeps.{
  Marshals, handle_close_bead-Keeps, handle_resolve_decision-Keeps, handle_cancel_decision-Keeps,
}
use kbeads.Http.CallKeeps.{over_grpc-Keeps, over_http-Keeps}

-- A call over HTTP or over gRPC, a request of one transport only (closing over gRPC and the gates are in
-- Request), and a hook event with what else its handler reads: the rest of the site, the roster, and the
-- commands run before. Every handler that writes to the store is among them, and some that only read.
pub data AnyRequest : Type 0 where
  rpc : Request → AnyRequest
  http grpc : Call → AnyRequest
  close_with_fields : String → Dict Value → AnyRequest
  resolve : String → String → ResolveDecisionRequest → AnyRequest
  cancel : String → String → String → AnyRequest
  hook : Site → HookEmitRequest → Option Tracker → List Run → AnyRequest

unfoldable pub run : ConfigDatabase → Env → AnyRequest → World → World
run db env (rpc r) w = handle env r w
run db env (http c) w = (over_http db env c w).1
run db env (grpc c) w = (over_grpc db env c w).1
run db env (close_with_fields id body) w = (handle_close_bead env id body w).1
run db env (resolve at id req) w = (handle_resolve_decision env at id req w).1
run db env (cancel id reason by) w = (handle_cancel_decision env id reason by w).1
run db env (hook site req roster runs) w =
    (handle_hook_emit (record site { env = env }) req
      (record { world = w; roster = roster; runs = runs })).1.world

unfoldable pub run_all : ConfigDatabase → List (Env × AnyRequest) → World → World
run_all db [] w = w
run_all db ((env, r) ∷ rs) w = run_all db rs (run db env r w)

module _ (json_valid : String → Bool) where
  run-IsSound :
      (db : ConfigDatabase) (env : Env)
      → env.json_valid ≡ json_valid
      → Marshals json_valid env
      → (r : AnyRequest) (w : World) → IsSound json_valid w.tables
      → IsSound json_valid (run db env r w).tables
  unfolding run
  run-IsSound db env same law (rpc r) w s = handle-IsSound json_valid env same r w s
  run-IsSound db env same law (http c) w s = over_http-Keeps json_valid env db same c w s
  run-IsSound db env same law (grpc c) w s = over_grpc-Keeps json_valid env db same c w s
  run-IsSound db env same law (close_with_fields id body) w s =
      handle_close_bead-Keeps json_valid env law id body w s
  run-IsSound db env same law (resolve at id req) w s =
      handle_resolve_decision-Keeps json_valid env law at id req w s
  run-IsSound db env same law (cancel id reason by) w s =
      handle_cancel_decision-Keeps json_valid env law id reason by w s
  run-IsSound db env same law (hook site req roster runs) w s =
      handle_hook_emit-Keeps json_valid (record site { env = env }) law req
        (record { world = w; roster = roster; runs = runs }) s

-- From a sound store, and whatever requests come over either transport, with whatever failures of the
-- store, the store stays sound: every bead stands under its id and meets the rules of ValidateBead, and
-- every label, dependency, comment and gate refers to beads that exist. JSON is judged alike in all
-- requests, and json.Marshal gives JSON.
pub run_all-IsSound :
    (json_valid : String → Bool) (db : ConfigDatabase) (rs : List (Env × AnyRequest)) (w : World)
    → All (λ r. (r.0.json_valid ≡ json_valid) × Marshals json_valid r.0) rs
    → IsSound json_valid w.tables
    → IsSound json_valid (run_all db rs w).tables
unfolding run_all
run_all-IsSound json_valid db [] w a s = s
run_all-IsSound json_valid db ((env, r) ∷ rs) w a s =
    run_all-IsSound json_valid db rs (run db env r w) a.1
      (run-IsSound json_valid db env a.0.0 a.0.1 r w s)
