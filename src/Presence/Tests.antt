-- ===== src/Presence/Tests.antt =====
-- Runs of the tracker, and its theorems at concrete histories.
use mathlib.Core.List.{Perm}
use kbeads.Prelude.{
  ◌+◌, ◌*◌, String, ◌≡◌, refl, true, false, [], ◌∷◌, none, some, arith, inl, eq_iff, ◌≢◌, List,
  keep, eqb, leb, ◌||◌,
}
use kbeads.Prelude.Dict
use kbeads.Prelude.Sorted.{SortSlice}
use kbeads.Prelude.Sorted.Insertion.{by_insertion}
use kbeads.Presence.Roster.{Entry, seen_after, roster, Pairwise, Shows, NewestFirst, roster_lem}
use kbeads.Presence.Tracker.{
  minute, ActorState, DeadActor, ReaperConfig, HookEvent, Tracker, fresh, touch, new,
  record_hook_event, sweep, sweep_actors, with_defaults,
}
use kbeads.Presence.Invariant.{IsValid}
use kbeads.Presence.Lifecycle.{
  Reach, start, event, Without, done, tick, Reach-IsValid, reported_once, idle_agent_evicted,
  event_revives,
}

abbrev quick : ReaperConfig
quick = record { dead_threshold = 10; evict_after = 20; sweep_interval = 5; on_dead = true }

abbrev stop_hook : HookEvent
stop_hook = record {
  actor = "swift-fox";
  hook_type = "Stop";
  tool_name = "Bash";
  session_id = "s1";
  cwd = "";
}

abbrev one_agent : Tracker
one_agent = record_hook_event 2 stop_hook (new 1)

one_agent-Reach : Reach quick one_agent
one_agent-Reach = event 2 stop_hook (omega arith) (start 1)

dead_fox : (sweep 13 quick one_agent).1 ≡ record { name = "swift-fox"; session_id = "s1" } ∷ []
unfolding sweep sweep_actors record_hook_event touch new Dict.put Dict.get
dead_fox = refl

not_yet : (sweep 12 quick one_agent).1 ≡ []
unfolding sweep sweep_actors record_hook_event touch new Dict.put Dict.get
not_yet = refl

defaults : (with_defaults (record quick { dead_threshold = 0 })).dead_threshold ≡ 15 * minute
unfolding with_defaults
defaults = refl

abbrev hare : HookEvent
hare = record { actor = "hare"; hook_type = "Stop"; tool_name = ""; session_id = "s2"; cwd = "" }

abbrev two_agents : Tracker
two_agents = record_hook_event 10 hare one_agent

two_agents-Reach : Reach quick two_agents
two_agents-Reach = event 10 hare (omega arith) one_agent-Reach

first_sweep : (sweep 13 quick two_agents).1 ≡ record { name = "swift-fox"; session_id = "s1" } ∷ []
unfolding sweep sweep_actors record_hook_event touch new Dict.put Dict.get
first_sweep = refl

abbrev fox : DeadActor
fox = record { name = "swift-fox"; session_id = "s1" }

-- Between the two sweeps comes an event of the other agent, and a sweep with an earlier time.
abbrev later : Tracker
later = (sweep 12 quick (record_hook_event 13 hare (sweep 13 quick two_agents).0)).0

between : Without quick "swift-fox" (sweep 13 quick two_agents).0 later
between =
    tick 12 (omega arith)
      (event 13 hare (omega arith) (λ e. ground (arith, eq_iff "hare" "swift-fox", e)) done)

reported_once_example : ◌≢◌ {A = String} "hare" "swift-fox"
unfolding sweep sweep_actors record_hook_event touch new Dict.put Dict.get
reported_once_example =
    reported_once quick 13 24 two_agents later fox (record { name = "hare"; session_id = "s2" })
      two_agents-Reach (omega arith) refl (inl refl) between (inl refl)

idle_agent_evicted_example :
    Dict.get "swift-fox" (sweep (13 + 6 * minute) quick later).0.actors ≡ none
unfolding record_hook_event touch new Dict.put Dict.get
idle_agent_evicted_example =
    idle_agent_evicted quick 13 (13 + 6 * minute) two_agents later "swift-fox"
      (touch 2 stop_hook (fresh 2)) two_agents-Reach (omega arith) refl refl (omega arith) between
      (omega arith)

event_revives_example :
    (s : ActorState) × (Dict.get "swift-fox"
        (sweep 12 quick (record_hook_event 2 stop_hook (new 1))).0.actors
      ≡ some s)
    × (s.reaped ≡ false)
event_revives_example =
    let r =
      (event_revives 2 12 quick stop_hook (new 1) (λ e. ground (arith, eq_iff "swift-fox" "", e))
        (unfold new in tt) (omega arith)).0 in
    (r.0, r.1, r.2)

Reach-IsValid_example : IsValid one_agent
Reach-IsValid_example = Reach-IsValid quick one_agent-Reach

newest_first : (a b : Entry) → seen_after a b ≡ true → seen_after b a ≡ false
newest_first a b h = ground arith

newest_first_through :
    (a b c : Entry) → seen_after c b ≡ false → seen_after b a ≡ false → seen_after c a ≡ false
newest_first_through a b c h k = ground arith

abbrev by_time : SortSlice seen_after
by_time = by_insertion seen_after newest_first newest_first_through

roster_lem_example :
    ((es : List Entry) × Pairwise
        (λ (a : String × ActorState) (e : Entry). Shows 12 two_agents a.0 a.1 e)
        (keep (λ a. eqb 5 0 || leb 12 (a.1.last_seen + 5)) two_agents.actors)
        es
      × Perm (roster by_time 12 5 two_agents) es)
    × NewestFirst (roster by_time 12 5 two_agents)
roster_lem_example = roster_lem by_time 12 5 two_agents (omega arith)
