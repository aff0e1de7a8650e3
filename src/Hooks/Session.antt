-- ===== src/Hooks/Session.antt =====
-- HandleSessionEvent of internal/hooks/handler.go as a whole: which advice it reads, and what it leaves.
use kbeads.Prelude.{ℕ, String, ◌||◌, List, [], ◌∷◌, ◌==◌, ◌≡◌, refl, ◌∙◌, map, Bool-cases, inl, inr}
use kbeads.Prelude.Text.{split}
use kbeads.Model.Bead.{Bead}
use kbeads.Model.Advice.{build_agent_subscriptions}
use kbeads.Server.Store.{Answer, ok, fail, Tables}
use kbeads.Server.Actions.{World, Faults}
use kbeads.Server.Query.{Database, BeadFilter}
use kbeads.Server.ListBeads.{list_beads, page_of, with_labels}
use kbeads.Server.ListProofs.{list_beads-tables}
use kbeads.Hooks.Handler.{
  SessionEvent, Run, Host, open_advice, agent_named, last_part, customised, enriched,
  enrich_agent_subscriptions, run_listed, handle_session_event,
}

-- The beads that a filter lists, with their labels.
abbrev pub listed : Database → Tables → BeadFilter → List Bead
listed db t f = map (with_labels t.labels) (page_of db t f)

abbrev customised_by : Host → List String → List Bead → List String
customised_by host subs [] = subs
customised_by host subs (b ∷ bs) = customised subs (host.read_agent b.fields)

-- The labels that an agent subscribes to: those of its name, and what its open bead adds and excludes.
abbrev pub subscriptions : Database → Tables → Host → String → List String
subscriptions db t host agent =
    customised_by host (build_agent_subscriptions agent [])
      (listed db t (agent_named (last_part "" (split b'/' agent))))

enriched-world :
    (host : Host) (subs : List String) (r : Answer (List Bead × ℕ) × World)
    → (enriched host subs r).1 ≡ r.1
enriched-world host subs (fail e, w) = refl
enriched-world host subs (ok ([], n), w) = refl
enriched-world host subs (ok ((b ∷ bs), n), w) = refl

run_listed-tables :
    (db : Database) (faults : Faults) (host : Host) (event : SessionEvent) (log : List Run)
    (r : Answer (List Bead × ℕ) × World)
    → (run_listed db faults host event log r).2.tables ≡ r.1.tables
unfolding enrich_agent_subscriptions
run_listed-tables db faults host event log (fail e, w) = refl
run_listed-tables db faults host event log (ok (bs, n), w) =
    let f = agent_named (last_part "" (split b'/' event.agent_id)) in
    rw
      (enriched-world host (build_agent_subscriptions event.agent_id []) (list_beads db faults f w))
      (list_beads-tables db faults f w)

-- Advice hooks leave the tables as they are.
pub handle_session_event-tables :
    (db : Database) (faults : Faults) (host : Host) (event : SessionEvent) (log : List Run)
    (w : World)
    → (handle_session_event db faults host event log w).2.tables ≡ w.tables
unfolding handle_session_event
handle_session_event-tables db faults host event log w =
    elim (Bool-cases (event.agent_id == "" || event.trigger == "")) [
      | inl y ↦ rw y refl
      | inr n ↦ rw n (
          run_listed-tables db faults host event log (list_beads db faults open_advice w)
          ∙ list_beads-tables db faults open_advice w)
    ]
