-- ===== src/Presence/Lifecycle.antt =====
-- The life of an agent in the roster: reported dead once, evicted later, alive again by an event.
use kbeads.Prelude.{
  ℕ, ◌+◌, ◌≤◌, ◌<◌, String, ◌≡◌, ◌≢◌, refl, ap, ◌∙◌, true, false, none, some, arith, subst, ◌==◌,
  ◌⊎◌, inl, inr, ◌*◌, ltb, sym, if◌then◌else◌, Bool-cases, eq_iff, eq_refl, Elem,
}
use kbeads.Prelude.Dict
use kbeads.Prelude.Dict.{Dict, Distinct, get-put, put-Distinct}
use kbeads.Presence.Tracker.{
  ActorState, ReaperConfig, HookEvent, Tracker, DeadActor, since, dies, fresh, touch, or_else,
  unless_empty, minute, evicts, new, record_hook_event, sweep,
}
use kbeads.Presence.Sweep.{swept, and_then, get-sweep, sweep-reports, NewlyDead}
use kbeads.Presence.Invariant.{IsValid, sweep-IsValid, record_hook_event-IsValid}

-- Histories: from a new tracker, by events and sweeps, each with the time that it read before it took the
-- lock; these times may come in any order.
pub data Reach (cfg : ReaperConfig) : Tracker → Type 0 where
  start : (now : ℕ) → Reach cfg (new now)
  event :
      {t : Tracker} (now : ℕ) (ev : HookEvent)
      → 0 < now
      → Reach cfg t
      → Reach cfg (record_hook_event now ev t)
  tick : {t : Tracker} (now : ℕ) → 0 < now → Reach cfg t → Reach cfg (sweep now cfg t).0

new-IsValid : (now : ℕ) → IsValid (new now)
unfolding new
new-IsValid now = record { distinct = tt; tracked = tt }

-- In every history, also where calls at once leave times out of order, the map has one entry for an actor,
-- each entry has counted an event and its times are set, and `reaped_at` is set exactly while the agent is
-- marked dead.
pub Reach-IsValid : (cfg : ReaperConfig) {t : Tracker} → Reach cfg t → IsValid t
Reach-IsValid cfg (start now) = new-IsValid now
Reach-IsValid cfg (event {t} now ev pos r) =
    record_hook_event-IsValid now ev t pos (Reach-IsValid cfg r)
Reach-IsValid cfg (tick {t} now pos r) = sweep-IsValid now cfg t pos (Reach-IsValid cfg r)

swept_dead :
    (now : ℕ) (cfg : ReaperConfig) (s : ActorState)
    → s.reaped ≡ false
    → dies now cfg s ≡ true
    → swept now cfg s ≡ some (record s { reaped = true; reaped_at = now })
swept_dead now cfg s live idle = ground arith

after_death :
    (now : ℕ) (cfg : ReaperConfig) (t : Tracker) (d : DeadActor)
    → Distinct t.actors
    → NewlyDead now cfg t.actors d
    → (s : ActorState) × (Dict.get d.name (sweep now cfg t).0.actors ≡ some s)
      × (s.reaped ≡ true)
      × (s.reaped_at ≡ now)
after_death now cfg t d u (s, found, live, idle, same) = (
  record s { reaped = true; reaped_at = now },
  get-sweep now cfg d.name t u
      ∙ ap (λ o. and_then o (swept now cfg)) found
      ∙ swept_dead now cfg s live idle,
  refl,
  refl,
)

-- Sweeps, and events of agents other than one.
pub data Without (cfg : ReaperConfig) (name : String) (t : Tracker) : Tracker → Type 0 where
  done : Without cfg name t t
  event :
      {t1 : Tracker} (now : ℕ) (ev : HookEvent)
      → 0 < now
      → ev.actor ≢ name
      → Without cfg name t t1
      → Without cfg name t (record_hook_event now ev t1)
  tick :
      {t1 : Tracker} (now : ℕ)
      → 0 < now
      → Without cfg name t t1
      → Without cfg name t (sweep now cfg t1).0

Without-IsValid :
    (cfg : ReaperConfig) (name : String) (t : Tracker) {t1 : Tracker}
    → IsValid t
    → Without cfg name t t1
    → IsValid t1
Without-IsValid cfg name t v done = v
Without-IsValid cfg name t v (event {t1} now ev pos ne r) =
    record_hook_event-IsValid now ev t1 pos (Without-IsValid cfg name t v r)
Without-IsValid cfg name t v (tick {t1} now pos r) =
    sweep-IsValid now cfg t1 pos (Without-IsValid cfg name t v r)

get-record_other :
    (now : ℕ) (ev : HookEvent) (name : String) (t : Tracker)
    → ev.actor ≢ name
    → Dict.get name (record_hook_event now ev t).actors ≡ Dict.get name t.actors
unfolding record_hook_event
get-record_other now ev name t ne = elim (Bool-cases (ev.actor == "")) [
  | inl nobody ↦ rw nobody refl
  | inr named ↦
      let s = touch now ev (or_else (fresh now) (Dict.get ev.actor t.actors)) in
      rw named (ground (arith, get-put ev.actor name s t.actors, eq_iff ev.actor name))
]

swept_again :
    (now : ℕ) (cfg : ReaperConfig) (s : ActorState)
    → s.reaped ≡ true
    → (swept now cfg s ≡ none) ⊎ (swept now cfg s ≡ some s)
swept_again now cfg s dead = elim (Bool-cases (evicts now cfg s)) [
  | inl out ↦ inl (rw (dead, out) refl)
  | inr stays ↦ inr (rw (dead, stays) refl)
]

-- A dead agent that sends nothing is evicted, or its entry is as it was when it died.
stays_dead :
    (cfg : ReaperConfig) (name : String) (s : ActorState) (t : Tracker) {t1 : Tracker}
    → IsValid t
    → s.reaped ≡ true
    → Dict.get name t.actors ≡ some s
    → Without cfg name t t1
    → (Dict.get name t1.actors ≡ none) ⊎ (Dict.get name t1.actors ≡ some s)
stays_dead cfg name s t v dead found done = inr found
stays_dead cfg name s t v dead found (event {t1} now ev pos ne r) =
    let same = get-record_other now ev name t1 ne in
    elim (stays_dead cfg name s t v dead found r) [
      | inl out ↦ inl (same ∙ out)
      | inr here ↦ inr (same ∙ here)
    ]
stays_dead cfg name s t v dead found (tick {t1} now pos r) =
    let u = (Without-IsValid cfg name t v r).distinct in
    let e = get-sweep now cfg name t1 u in
    elim (stays_dead cfg name s t v dead found r) [
      | inl out ↦ inl (e ∙ ap (λ o. and_then o (swept now cfg)) out)
      | inr here ↦
          let e1 = e ∙ ap (λ o. and_then o (swept now cfg)) here in
          elim (swept_again now cfg s dead) [
            | inl out ↦ inl (e1 ∙ out)
            | inr kept ↦ inr (e1 ∙ kept)
          ]
    ]

-- An agent that one sweep reports dead is not reported by any later sweep, whatever sweeps and events of
-- other agents come between and whatever their times, until an event of that agent comes.
pub reported_once :
    (cfg : ReaperConfig) (now1 now2 : ℕ) (t t1 : Tracker) (d e : DeadActor)
    → Reach cfg t
    → 0 < now1
    → cfg.on_dead ≡ true
    → Elem d (sweep now1 cfg t).1
    → Without cfg d.name (sweep now1 cfg t).0 t1
    → Elem e (sweep now2 cfg t1).1
    → e.name ≢ d.name
reported_once cfg now1 now2 t t1 d e r pos on first between second same =
    let v = Reach-IsValid cfg r in
    let v1 = sweep-IsValid now1 cfg t pos v in
    let u1 = (Without-IsValid cfg d.name (sweep now1 cfg t).0 v1 between).distinct in
    let (s, found, dead, at) =
      after_death now1 cfg t d v.distinct ((sweep-reports now1 cfg t d v.distinct on).0 first) in
    let (s', found', live', idle', same') = (sweep-reports now2 cfg t1 e u1 on).0 second in
    let here = subst (λ x. Dict.get x t1.actors ≡ some s') same found' in
    elim (stays_dead cfg d.name s (sweep now1 cfg t).0 v1 dead found between) [
      | inl out ↦ let clash : none ≡ some s' = sym out ∙ here in cc
      | inr kept ↦ ground (arith, kept, here)
    ]

-- An agent that a sweep marks dead is out of the roster after any later sweep that comes more than the
-- eviction time behind the first, and more than five minutes for an agent of fewer than ten events,
-- whatever sweeps and events of other agents come between.
pub idle_agent_evicted :
    (cfg : ReaperConfig) (now1 now2 : ℕ) (t t1 : Tracker) (name : String) (s : ActorState)
    → Reach cfg t
    → 0 < now1
    → Dict.get name t.actors ≡ some s
    → s.reaped ≡ false
    → cfg.dead_threshold < since now1 s.last_seen
    → Without cfg name (sweep now1 cfg t).0 t1
    → (if ltb s.event_count 10 then 5 * minute else cfg.evict_after) < since now2 now1
    → Dict.get name (sweep now2 cfg t1).0.actors ≡ none
idle_agent_evicted cfg now1 now2 t t1 name s r pos found live idle between late =
    let v = Reach-IsValid cfg r in
    let v1 = sweep-IsValid now1 cfg t pos v in
    let u1 = (Without-IsValid cfg name (sweep now1 cfg t).0 v1 between).distinct in
    let dead : ActorState = record s { reaped = true; reaped_at = now1 } in
    let died : dies now1 cfg s ≡ true = ground arith in
    let once =
      get-sweep now1 cfg name t v.distinct
      ∙ ap (λ o. and_then o (swept now1 cfg)) found
      ∙ swept_dead now1 cfg s live died in
    let twice = get-sweep now2 cfg name t1 u1 in
    let out : swept now2 cfg dead ≡ none = ground arith in
    elim (stays_dead cfg name dead (sweep now1 cfg t).0 v1 refl once between) [
      | inl gone ↦ twice ∙ ap (λ o. and_then o (swept now2 cfg)) gone
      | inr kept ↦ twice ∙ ap (λ o. and_then o (swept now2 cfg)) kept ∙ out
    ]

-- A text of an event that is not empty replaces the old one.
abbrev pub Replaced : String → String → String → Type 0
Replaced given old result = (given ≡ "" → result ≡ old) × (given ≢ "" → result ≡ given)

unless_empty-Replaced : (given old : String) → Replaced given old (unless_empty given old)
unless_empty-Replaced given old =
    (λ e. ground (arith, eq_iff given "", e), λ ne. ground (arith, eq_iff given "", ne))

-- After an event of a named agent the agent is in the roster, alive and seen now, with one more
-- event counted than before; the agent's tool, session and directory change only to a value that is
-- not empty; and a sweep that comes no later than the threshold allows keeps it so. No other agent
-- changes.
pub event_revives :
    (now t2 : ℕ) (cfg : ReaperConfig) (ev : HookEvent) (t : Tracker)
    → ev.actor ≢ ""
    → Distinct t.actors
    → since t2 now ≤ cfg.dead_threshold
    → let old = or_else (fresh now) (Dict.get ev.actor t.actors) in
      ((s : ActorState) × (Dict.get ev.actor (sweep t2 cfg (record_hook_event now ev t)).0.actors
          ≡ some s)
        × (s.reaped ≡ false)
        × (s.first_seen ≡ old.first_seen)
        × (s.last_seen ≡ now)
        × (s.last_event ≡ ev.hook_type)
        × (s.event_count ≡ old.event_count + 1)
        × Replaced ev.tool_name old.tool_name s.tool_name
        × Replaced ev.session_id old.session_id s.session_id
        × Replaced ev.cwd old.cwd s.cwd)
      × ((j : String)
          → ev.actor ≢ j
          → Dict.get j (record_hook_event now ev t).actors ≡ Dict.get j t.actors)
event_revives now t2 cfg ev t named u soon =
    let old = or_else (fresh now) (Dict.get ev.actor t.actors) in
    let s = touch now ev old in
    let nonempty : (ev.actor == "") ≡ false = ground (arith, eq_iff ev.actor "") in
    let t' : Tracker = record t { actors = Dict.put ev.actor s t.actors } in
    let e : record_hook_event now ev t ≡ t' = unfold record_hook_event in simp nonempty in
    let u' = put-Distinct ev.actor s t.actors u in
    let here : Dict.get ev.actor t'.actors ≡ some s =
      ground (arith, get-put ev.actor ev.actor s t.actors, eq_refl ev.actor) in
    let stays : Dict.get ev.actor (sweep t2 cfg t').0.actors ≡ some s =
      get-sweep t2 cfg ev.actor t' u'
      ∙ ap (λ o. and_then o (swept t2 cfg)) here
      ∙ (unfold touch in ground arith) in
    (
      unfold touch in
          (
            s,
            rw e stays,
            refl,
            refl,
            refl,
            refl,
            refl,
            unless_empty-Replaced ev.tool_name old.tool_name,
            unless_empty-Replaced ev.session_id old.session_id,
            unless_empty-Replaced ev.cwd old.cwd,
          ),
      λ j ne. get-record_other now ev j t ne,
    )
