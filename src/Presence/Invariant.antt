-- ===== src/Presence/Invariant.antt =====
-- What holds of the tracker between its operations, whatever the clock says at each.
use kbeads.Prelude.{
  ℕ, ◌<◌, ◌≡◌, refl, true, false, [], ◌∷◌, Option, none, some, arith, ◌==◌, Bool-cases, inl, inr,
}
use kbeads.Prelude.Dict
use kbeads.Prelude.Dict.{Dict, Distinct, AllValues, put-Distinct, put-AllValues, get-AllValues}
use kbeads.Presence.Tracker.{
  ActorState, ReaperConfig, HookEvent, Tracker, evicts, dies, fresh, touch, or_else,
  record_hook_event, sweep_actors, sweep,
}
use kbeads.Presence.Sweep.{get-sweep_none}

-- An actor has been seen, and `reaped_at` is set exactly while it is marked dead.
pub record IsTracked (s : ActorState) : Type 0 where
  pub seen : (0 < s.first_seen) × (0 < s.last_seen)
  pub counted : 0 < s.event_count
  pub dead_since : s.reaped ≡ true → 0 < s.reaped_at
  pub alive : s.reaped ≡ false → s.reaped_at ≡ 0

pub record IsValid (t : Tracker) : Type 0 where
  pub distinct : Distinct t.actors
  pub tracked : AllValues IsTracked t.actors

touch-IsTracked :
    (now : ℕ) (ev : HookEvent) (s : ActorState) → 0 < now → IsTracked s → IsTracked (touch now ev s)
unfolding touch
touch-IsTracked now ev s pos h = ground arith

touch-fresh : (now : ℕ) (ev : HookEvent) → 0 < now → IsTracked (touch now ev (fresh now))
unfolding touch
touch-fresh now ev pos = ground arith

touched :
    (now : ℕ) (ev : HookEvent) (t : Tracker) (o : Option ActorState)
    → 0 < now
    → AllValues IsTracked t.actors
    → Dict.get ev.actor t.actors ≡ o
    → IsTracked (touch now ev (or_else (fresh now) o))
touched now ev t none pos h e = touch-fresh now ev pos
touched now ev t (some s) pos h e =
    touch-IsTracked now ev s pos (get-AllValues IsTracked ev.actor s t.actors h e)

pub record_hook_event-IsValid :
    (now : ℕ) (ev : HookEvent) (t : Tracker)
    → 0 < now
    → IsValid t
    → IsValid (record_hook_event now ev t)
unfolding record_hook_event
record_hook_event-IsValid now ev t pos v = elim (Bool-cases (ev.actor == "")) [
  | inl nobody ↦ rw nobody v
  | inr named ↦
      let state = or_else (fresh now) (Dict.get ev.actor t.actors) in
      rw named (record {
        distinct = put-Distinct ev.actor (touch now ev state) t.actors v.distinct;
        tracked =
            put-AllValues IsTracked ev.actor (touch now ev state) t.actors
              (touched now ev t (Dict.get ev.actor t.actors) pos v.tracked refl) v.tracked;
      })
]

marked-IsTracked :
    (now : ℕ) (s : ActorState)
    → 0 < now
    → IsTracked s
    → IsTracked (record s { reaped = true; reaped_at = now })
marked-IsTracked now s pos h = ground arith

sweep_actors-Distinct :
    (now : ℕ) (cfg : ReaperConfig) (m : Dict ActorState)
    → Distinct m
    → Distinct (sweep_actors now cfg m).0
unfolding sweep_actors
sweep_actors-Distinct now cfg [] d = tt
sweep_actors-Distinct now cfg ((j, s) ∷ m) d =
    ground (arith, sweep_actors-Distinct now cfg m d.1, get-sweep_none now cfg j m d.0)

sweep_actors-IsTracked :
    (now : ℕ) (cfg : ReaperConfig) (m : Dict ActorState)
    → 0 < now
    → AllValues IsTracked m
    → AllValues IsTracked (sweep_actors now cfg m).0
unfolding sweep_actors
sweep_actors-IsTracked now cfg [] pos h = tt
sweep_actors-IsTracked now cfg ((j, s) ∷ m) pos h =
    let marked = marked-IsTracked now s pos h.0 in
    let rest = sweep_actors-IsTracked now cfg m pos h.1 in
    elim (Bool-cases s.reaped) [
      | inl dead ↦ elim (Bool-cases (evicts now cfg s)) [
        | inl out ↦ simp (dead, out) rest
        | inr stays ↦ simp (dead, stays) (h.0, rest)
      ]
      | inr live ↦ elim (Bool-cases (dies now cfg s)) [
        | inl idle ↦ simp (live, idle) (marked, rest)
        | inr busy ↦ simp (live, busy) (h.0, rest)
      ]
    ]

pub sweep-IsValid :
    (now : ℕ) (cfg : ReaperConfig) (t : Tracker) → 0 < now → IsValid t → IsValid (sweep now cfg t).0
unfolding sweep
sweep-IsValid now cfg t pos v = record {
  distinct = sweep_actors-Distinct now cfg t.actors v.distinct;
  tracked = sweep_actors-IsTracked now cfg t.actors pos v.tracked;
}
