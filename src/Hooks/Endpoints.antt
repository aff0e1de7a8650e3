-- ===== src/Hooks/Endpoints.antt =====
-- handleHookPublish and handleExecuteHooks of internal/server/http_hooks.go, for a decoded request.
use kbeads.Prelude.{
  ℕ, String, Bool, true, false, ◌||◌, List, [], ◌∷◌, ◌++◌, Option, none, some, ◌==◌, if◌then◌else◌,
  ◌⊎◌, inl, inr,
}
use kbeads.Eventbus.Bus.{Bus}
use kbeads.Server.Actions.{World}
use kbeads.Hooks.Handler.{SessionEvent, HookResponse, Run, handle_session_event}
use kbeads.Hooks.Emit.{Site}

-- PublishRaw: nothing without JetStream; a failure to publish is only logged, so what is recorded is the
-- message handed over.
abbrev publish_raw : Bool → String → String → World → World
publish_raw false subject payload w = w
publish_raw true subject payload w = record w { stream = w.stream ++ (subject, payload) ∷ [] }

abbrev published_on : Option Bus → String → String → World → ℕ × World
published_on none subject payload w = (503, w)
published_on (some b) subject payload w = (204, publish_raw b.js subject payload w)

-- The status code, and the state after it.
unfoldable pub handle_hook_publish : Site → String → String → World → ℕ × World
handle_hook_publish site subject payload w =
    if subject == "" || payload == "" then (400, w) else published_on site.bus subject payload w

abbrev given_response : HookResponse × List Run × World → (HookResponse ⊎ ℕ) × List Run × World
given_response (resp, log, w) = (inl resp, log, w)

-- A response, or the status code of a refusal.
unfoldable pub handle_execute_hooks :
    Site → SessionEvent → List Run → World → (HookResponse ⊎ ℕ) × List Run × World
handle_execute_hooks site event log w =
    if event.agent_id == "" || event.trigger == ""
    then (inr 400, log, w)
    else given_response (handle_session_event site.db site.env.links.faults site.host event log w)
