-- ===== src/Presence/Roster.antt =====
-- Tracker.Roster of internal/presence/tracker.go.
use mathlib.Core.List.{Perm}
use kbeads.Prelude.{
  ℕ, String, ◌≡◌, ◌<◌, ◌≤◌, ◌^◌, ◌+◌, ◌-◌, ◌||◌, eqb, leb, All, false, arith, refl, Bool, not, ◌&&◌,
  List, [], ◌∷◌, keep, ltb, if◌then◌else◌, Bool-cases, inl, inr,
}
use kbeads.Prelude.Dict.{Dict}
use kbeads.Prelude.Sorted.{SortSlice, SortedBy}
use kbeads.Presence.Tracker.{ActorState, Tracker, since, is_zero}

-- Durations are kept in nanoseconds where Go gives seconds as a float.
pub record Entry : Type 0 where
  pub actor : String
  pub last_seen : ℕ
  pub first_seen : ℕ
  pub last_event : String
  pub tool_name : String
  pub session_id : String
  pub cwd : String
  pub idle : ℕ
  pub event_count : ℕ
  pub session_duration : ℕ
  pub reaped : Bool
  pub reaped_at : ℕ

abbrev pub stale : ℕ → ℕ → ActorState → Bool
stale now threshold s = ltb 0 threshold && ltb threshold (since now s.last_seen)

abbrev pub entry_of : ℕ → Tracker → String → ActorState → Entry
entry_of now t actor s =
    let first_seen = if is_zero s.first_seen then t.started else s.first_seen in
    record {
      actor = actor;
      last_seen = s.last_seen;
      first_seen = first_seen;
      last_event = s.last_event;
      tool_name = s.tool_name;
      session_id = s.session_id;
      cwd = s.cwd;
      idle = since now s.last_seen;
      event_count = s.event_count;
      session_duration = since now first_seen;
      reaped = s.reaped;
      reaped_at = s.reaped_at;
    }

-- The loop over the map, with `continue` for the stale.
pub entries : ℕ → ℕ → Tracker → Dict ActorState → List Entry
entries now threshold t [] = []
entries now threshold t ((actor, s) ∷ m) =
    let rest = entries now threshold t m in
    if stale now threshold s then rest else entry_of now t actor s ∷ rest

-- entries[i].LastSeen.After(entries[j].LastSeen)
abbrev pub seen_after : Entry → Entry → Bool
seen_after a b = ltb b.last_seen a.last_seen

unfoldable pub roster : SortSlice seen_after → ℕ → ℕ → Tracker → List Entry
unfolding entries
roster by now threshold t = by.sort (entries now threshold t t.actors)

-- The agent's last event is no older than the threshold, in nanoseconds; 0 is no threshold.
abbrev pub is_current : ℕ → ℕ → ActorState → Bool
is_current now threshold s = eqb threshold 0 || leb now (s.last_seen + threshold)

-- What the roster shows of an agent; a first time that is not set is that of the tracker.
abbrev pub Shows : ℕ → Tracker → String → ActorState → Entry → Type 0
Shows now t actor s e =
    (e.actor ≡ actor)
    × (e.last_seen ≡ s.last_seen)
    × (0 < s.first_seen → e.first_seen ≡ s.first_seen)
    × (s.first_seen ≡ 0 → e.first_seen ≡ t.started)
    × (e.last_event ≡ s.last_event)
    × (e.tool_name ≡ s.tool_name)
    × (e.session_id ≡ s.session_id)
    × (e.cwd ≡ s.cwd)
    × (e.idle ≡ since now s.last_seen)
    × (e.event_count ≡ s.event_count)
    × (e.session_duration ≡ since now e.first_seen)
    × (e.reaped ≡ s.reaped)
    × (e.reaped_at ≡ s.reaped_at)

-- Two lists of the same length whose members belong together, one by one.
abbrev pub Pairwise : {A B : Type 0} → (A → B → Type 0) → List A → List B → Type 0
Pairwise R [] [] = Unit
Pairwise R [] (b ∷ bs) = ⊥
Pairwise R (a ∷ more) [] = ⊥
Pairwise R (a ∷ more) (b ∷ bs) = R a b × Pairwise R more bs

-- Each entry was seen no earlier than those behind it.
abbrev pub NewestFirst : List Entry → Type 0
NewestFirst [] = Unit
NewestFirst (e ∷ es) = All (λ x. x.last_seen ≤ e.last_seen) es × NewestFirst es

entry_of-Shows :
    (now : ℕ) (t : Tracker) (actor : String) (s : ActorState)
    → Shows now t actor s (entry_of now t actor s)
entry_of-Shows now t actor s = (
  refl,
  refl,
  (λ h. ground arith),
  (λ h. ground arith),
  refl,
  refl,
  refl,
  refl,
  refl,
  refl,
  refl,
  refl,
  refl,
)

stale-current :
    (now threshold : ℕ) (s : ActorState)
    → threshold < 2 ^ 63 - 1
    → stale now threshold s ≡ not (is_current now threshold s)
stale-current now threshold s small = ground arith

entries-Pairwise :
    (now threshold : ℕ) (t : Tracker) (m : Dict ActorState)
    → threshold < 2 ^ 63 - 1
    → Pairwise
        (λ (a : String × ActorState) (e : Entry). Shows now t a.0 a.1 e)
        (keep (λ a. is_current now threshold a.1) m)
        (entries now threshold t m)
unfolding entries
entries-Pairwise now threshold t [] small = tt
entries-Pairwise now threshold t ((actor, s) ∷ m) small =
    let rest = entries-Pairwise now threshold t m small in
    elim (Bool-cases (is_current now threshold s)) [
      | inl y ↦ rw (stale-current now threshold s small, y) (entry_of-Shows now t actor s, rest)
      | inr n ↦ rw (stale-current now threshold s small, n) rest
    ]

none_after :
    (e : Entry) (es : List Entry)
    → All (λ x. seen_after x e ≡ false) es
    → All (λ x. x.last_seen ≤ e.last_seen) es
none_after e [] a = tt
none_after e (x ∷ es) a = (ground arith, none_after e es a.1)

SortedBy-NewestFirst : (es : List Entry) → SortedBy seen_after es → NewestFirst es
SortedBy-NewestFirst [] s = tt
SortedBy-NewestFirst (e ∷ es) s = (none_after e es s.0, SortedBy-NewestFirst es s.1)

-- The roster has one entry for each agent whose last event is no older than the threshold (for every
-- agent, if the threshold is 0) with what the tracker knows of the agent, and the entries stand with the
-- most recently seen first. The threshold is shorter than the longest duration.
pub roster_lem :
    (by : SortSlice seen_after) (now threshold : ℕ) (t : Tracker)
    → threshold < 2 ^ 63 - 1
    → ((es : List Entry) × Pairwise
          (λ (a : String × ActorState) (e : Entry). Shows now t a.0 a.1 e)
          (keep (λ a. eqb threshold 0 || leb now (a.1.last_seen + threshold)) t.actors)
          es
        × Perm (roster by now threshold t) es)
      × NewestFirst (roster by now threshold t)
unfolding roster
roster_lem by now threshold t small = (
  (
    entries now threshold t t.actors,
    entries-Pairwise now threshold t t.actors small,
    by.permutes (entries now threshold t t.actors),
  ),
  SortedBy-NewestFirst (roster by now threshold t) (by.sorts (entries now threshold t t.actors)),
)
