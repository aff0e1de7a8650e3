-- ===== src/Presence/Sweep.antt =====
-- What one sweep does to each actor, and whom it reports.
use kbeads.Prelude.{
  ℕ, String, ◌≡◌, refl, sym, ap, ◌∙◌, ◌↔◌, ◌⊎◌, inl, inr, true, false, List, [], ◌∷◌, Option, none,
  some, arith, ◌==◌, eq_iff, Bool-cases, if◌then◌else◌, Elem,
}
use mathlib.Core.Path.{subst}
use kbeads.Prelude.Dict
use kbeads.Prelude.Dict.{Dict, Distinct}
use kbeads.Presence.Tracker.{
  ActorState, ReaperConfig, Tracker, DeadActor, evicts, dies, sweep_actors, sweep,
}

-- What becomes of one actor in a sweep; `none` is its eviction.
abbrev pub swept : ℕ → ReaperConfig → ActorState → Option ActorState
swept now cfg s =
    if s.reaped
    then (if evicts now cfg s then none else some s)
    else if dies now cfg s
    then some (record s { reaped = true; reaped_at = now })
    else some s

abbrev pub and_then {ℓ} : {A : Type ℓ} → Option A → (A → Option A) → Option A
and_then none f = none
and_then (some a) f = f a

pub get-sweep_none :
    (now : ℕ) (cfg : ReaperConfig) (k : String) (m : Dict ActorState)
    → Dict.get k m ≡ none
    → Dict.get k (sweep_actors now cfg m).0 ≡ none
unfolding Dict.get sweep_actors
get-sweep_none now cfg k [] h = refl
get-sweep_none now cfg k ((j, s) ∷ m) h = ground (arith, get-sweep_none now cfg k m, eq_iff j k)

get-sweep_actors :
    (now : ℕ) (cfg : ReaperConfig) (k : String) (m : Dict ActorState)
    → Distinct m
    → Dict.get k (sweep_actors now cfg m).0 ≡ and_then (Dict.get k m) (swept now cfg)
unfolding Dict.get sweep_actors
get-sweep_actors now cfg k [] d = refl
get-sweep_actors now cfg k ((j, s) ∷ m) d = elim (Bool-cases (j == k)) [
  | inl here ↦
      let e : j ≡ k = (eq_iff j k).0 here in
      let gone = get-sweep_none now cfg k m (subst (λ x. Dict.get x m ≡ none) e d.0) in
      ground (arith, gone)
  | inr there ↦ ground (arith, get-sweep_actors now cfg k m d.1)
]

-- A sweep evicts, marks dead or keeps each actor by that actor's state alone.
pub get-sweep :
    (now : ℕ) (cfg : ReaperConfig) (k : String) (t : Tracker)
    → Distinct t.actors
    → Dict.get k (sweep now cfg t).0.actors ≡ and_then (Dict.get k t.actors) (swept now cfg)
unfolding sweep
get-sweep now cfg k t d = get-sweep_actors now cfg k t.actors d

-- An actor that the sweep newly marks dead.
abbrev pub NewlyDead : ℕ → ReaperConfig → Dict ActorState → DeadActor → Type 0
NewlyDead now cfg m d =
    (s : ActorState) × (Dict.get d.name m ≡ some s)
    × (s.reaped ≡ false)
    × (dies now cfg s ≡ true)
    × (d.session_id ≡ s.session_id)

NewlyDead-cons :
    (now : ℕ) (cfg : ReaperConfig) (j : String) (s : ActorState) (m : Dict ActorState)
    (d : DeadActor)
    → Dict.get j m ≡ none
    → NewlyDead now cfg m d
    → NewlyDead now cfg ((j, s) ∷ m) d
unfolding Dict.get
NewlyDead-cons now cfg j s m d absent (t, found, live, idle, same) =
    let differs : (j == d.name) ≡ false = ground (arith, eq_iff j d.name) in
    (t, (rw differs found), live, idle, same)

NewlyDead-tail :
    (now : ℕ) (cfg : ReaperConfig) (j : String) (s : ActorState) (m : Dict ActorState)
    (d : DeadActor)
    → (j == d.name) ≡ false
    → NewlyDead now cfg ((j, s) ∷ m) d
    → NewlyDead now cfg m d
unfolding Dict.get
NewlyDead-tail now cfg j s m d differs (t, found, live, idle, same) =
    (t, rw differs at found, live, idle, same)

-- The part of the loop that adds to `newlyDead`, for one actor.
abbrev reported : ℕ → ReaperConfig → String → ActorState → List DeadActor → List DeadActor
reported now cfg j s dead =
    if s.reaped
    then dead
    else if dies now cfg s
    then record { name = j; session_id = s.session_id } ∷ dead
    else dead

sweep_actors-dead :
    (now : ℕ) (cfg : ReaperConfig) (j : String) (s : ActorState) (m : Dict ActorState)
    → (sweep_actors now cfg ((j, s) ∷ m)).1 ≡ reported now cfg j s (sweep_actors now cfg m).1
unfolding sweep_actors
sweep_actors-dead now cfg j s m = ground arith

reported→cases :
    (now : ℕ) (cfg : ReaperConfig) (j : String) (s : ActorState) (dead : List DeadActor)
    (d : DeadActor)
    → Elem d (reported now cfg j s dead)
    → ((s.reaped ≡ false)
        × (dies now cfg s ≡ true)
        × (d ≡ record { name = j; session_id = s.session_id }))
      ⊎ Elem d dead
reported→cases now cfg j s dead d h = ground arith

reported_more :
    (now : ℕ) (cfg : ReaperConfig) (j : String) (s : ActorState) (dead : List DeadActor)
    (d : DeadActor)
    → Elem d dead
    → Elem d (reported now cfg j s dead)
reported_more now cfg j s dead d h = ground arith

reported_self :
    (now : ℕ) (cfg : ReaperConfig) (j : String) (s : ActorState) (dead : List DeadActor)
    (d : DeadActor)
    → s.reaped ≡ false
    → dies now cfg s ≡ true
    → j ≡ d.name
    → d.session_id ≡ s.session_id
    → Elem d (reported now cfg j s dead)
reported_self now cfg j s dead d live idle same session =
    rw (live, idle) (inl (λ i. record { name = sym same i; session_id = session i }))

dead→NewlyDead :
    (now : ℕ) (cfg : ReaperConfig) (m : Dict ActorState) (d : DeadActor)
    → Distinct m
    → Elem d (sweep_actors now cfg m).1
    → NewlyDead now cfg m d
dead→NewlyDead now cfg [] d u h = unfold sweep_actors in elim h [ ]
dead→NewlyDead now cfg ((j, s) ∷ m) d u h =
    let h' = subst (λ l. Elem d l) (sweep_actors-dead now cfg j s m) h in
    elim (reported→cases now cfg j s (sweep_actors now cfg m).1 d h') [
      | inl (live, idle, e) ↦ (
        s,
        unfold Dict.get in ground (arith, eq_iff j d.name),
        live,
        idle,
        ap (λ x. x.session_id) e,
      )
      | inr more ↦ NewlyDead-cons now cfg j s m d u.0 (dead→NewlyDead now cfg m d u.1 more)
    ]

NewlyDead→dead :
    (now : ℕ) (cfg : ReaperConfig) (m : Dict ActorState) (d : DeadActor)
    → NewlyDead now cfg m d
    → Elem d (sweep_actors now cfg m).1
NewlyDead→dead now cfg [] d (t, found, live, idle, same) = unfold Dict.get in cc
NewlyDead→dead now cfg ((j, s) ∷ m) d n =
    rw (sweep_actors-dead now cfg j s m) (elim (Bool-cases (j == d.name)) [
      | inl here ↦
          let (t, found, live, idle, same) = n in
          let e : s ≡ t = unfold Dict.get in ground (arith, here, found) in
          reported_self now cfg j s (sweep_actors now cfg m).1 d (ap (λ x. x.reaped) e ∙ live)
            (ap (λ x. dies now cfg x) e ∙ idle) ((eq_iff j d.name).0 here)
            (same ∙ sym (ap (λ x. x.session_id) e))
      | inr there ↦
          reported_more now cfg j s (sweep_actors now cfg m).1 d
            (NewlyDead→dead now cfg m d (NewlyDead-tail now cfg j s m d there n))
    ])

-- With the callback set, OnDead is called for exactly the actors that were not marked dead and had
-- been idle for longer than the threshold, with the session of that actor.
pub sweep-reports :
    (now : ℕ) (cfg : ReaperConfig) (t : Tracker) (d : DeadActor)
    → Distinct t.actors
    → cfg.on_dead ≡ true
    → Elem d (sweep now cfg t).1 ↔ NewlyDead now cfg t.actors d
unfolding sweep
sweep-reports now cfg t d u on =
    simp on ((λ h. dead→NewlyDead now cfg t.actors d u h, λ n. NewlyDead→dead now cfg t.actors d n))
