-- ===== src/Presence/Tracker.antt =====
-- The tracker and its operations. A `time.Time` is a number of nanoseconds with 0 for the zero time,
-- and a `time.Duration` is a number that is not negative.
use kbeads.Prelude.{
  ℕ, ◌+◌, ◌-◌, ◌*◌, ◌^◌, min, String, Bool, true, false, not, ◌&&◌, List, [], ◌∷◌, Option, none,
  some, ltb, eqb, ◌==◌, if◌then◌else◌,
}
use kbeads.Prelude.Dict
use kbeads.Prelude.Dict.{Dict}

abbrev pub minute : ℕ
minute = 60 * 1000000000

-- `now.Sub(t)`, which saturates at the largest duration; a `t` in the future gives nothing positive.
abbrev pub since : ℕ → ℕ → ℕ
since now t = min (now - t) (2 ^ 63 - 1)

abbrev pub is_zero : ℕ → Bool
is_zero t = eqb t 0

pub record HookEvent : Type 0 where
  pub actor : String
  pub hook_type : String
  pub tool_name : String
  pub session_id : String
  pub cwd : String

pub record ActorState : Type 0 where
  pub first_seen : ℕ
  pub last_seen : ℕ
  pub last_event : String
  pub tool_name : String
  pub session_id : String
  pub cwd : String
  pub event_count : ℕ
  pub reaped : Bool
  pub reaped_at : ℕ

-- `on_dead` says whether the callback is set; the calls are what `sweep` returns.
pub record ReaperConfig : Type 0 where
  pub dead_threshold : ℕ
  pub evict_after : ℕ
  pub sweep_interval : ℕ
  pub on_dead : Bool

-- `reaping` says that the channels of a reaper goroutine are set.
pub record Tracker : Type 0 where
  pub actors : Dict ActorState
  pub started : ℕ
  pub reaping : Bool

unfoldable pub new : ℕ → Tracker
new now = record { actors = []; started = now; reaping = false }

-- `&actorState{firstSeen: now}`
abbrev pub fresh : ℕ → ActorState
fresh now = record {
  first_seen = now;
  last_seen = 0;
  last_event = "";
  tool_name = "";
  session_id = "";
  cwd = "";
  event_count = 0;
  reaped = false;
  reaped_at = 0;
}

abbrev pub or_else {ℓ} : {A : Type ℓ} → A → Option A → A
or_else a none = a
or_else a (some b) = b

abbrev pub unless_empty : String → String → String
unless_empty new_value old = if new_value == "" then old else new_value

-- The updates of RecordHookEvent to the state of its actor.
unfoldable pub touch : ℕ → HookEvent → ActorState → ActorState
touch now ev s = record s {
  reaped = false;
  reaped_at = if s.reaped then 0 else s.reaped_at;
  last_seen = now;
  last_event = ev.hook_type;
  event_count = s.event_count + 1;
  tool_name = unless_empty ev.tool_name s.tool_name;
  session_id = unless_empty ev.session_id s.session_id;
  cwd = unless_empty ev.cwd s.cwd;
}

-- What is done under the lock with `now`, the clock as read before the lock is taken: of two calls at once
-- the later step may have the earlier `now`.
unfoldable pub record_hook_event : ℕ → HookEvent → Tracker → Tracker
record_hook_event now ev t =
    if ev.actor == ""
    then t
    else let state = or_else (fresh now) (Dict.get ev.actor t.actors) in
      record t { actors = Dict.put ev.actor (touch now ev state) t.actors }

-- The defaults that StartReaper fills in.
abbrev or_default : ℕ → ℕ → ℕ
or_default n d = if eqb n 0 then d else n

unfoldable pub with_defaults : ReaperConfig → ReaperConfig
with_defaults cfg = record cfg {
  dead_threshold = or_default cfg.dead_threshold (15 * minute);
  evict_after = or_default cfg.evict_after (30 * minute);
  sweep_interval = or_default cfg.sweep_interval minute;
}

unfoldable pub start_reaper : ReaperConfig → Tracker → Tracker × ReaperConfig
start_reaper cfg t = (record t { reaping = true }, with_defaults cfg)

unfoldable pub stop : Tracker → Tracker
stop t = if t.reaping then record t { reaping = false } else t

pub record DeadActor : Type 0 where
  pub name : String
  pub session_id : String

abbrev pub evict_threshold : ReaperConfig → ActorState → ℕ
evict_threshold cfg s = if ltb s.event_count 10 then 5 * minute else cfg.evict_after

abbrev pub evicts : ℕ → ReaperConfig → ActorState → Bool
evicts now cfg s = not (is_zero s.reaped_at) && ltb (evict_threshold cfg s) (since now s.reaped_at)

abbrev pub dies : ℕ → ReaperConfig → ActorState → Bool
dies now cfg s = ltb cfg.dead_threshold (since now s.last_seen)

-- The loop of `sweep` over the map, which returns the map and `newlyDead`.
unfoldable pub sweep_actors : ℕ → ReaperConfig → Dict ActorState → Dict ActorState × List DeadActor
sweep_actors now cfg [] = ([], [])
sweep_actors now cfg ((actor, s) ∷ rest) =
    let (kept, dead) = sweep_actors now cfg rest in
    if s.reaped
    then (if evicts now cfg s then (kept, dead) else ((actor, s) ∷ kept, dead))
    else if dies now cfg s
    then (
      (actor, record s { reaped = true; reaped_at = now }) ∷ kept,
      record { name = actor; session_id = s.session_id } ∷ dead,
    )
    else ((actor, s) ∷ kept, dead)

-- One sweep, and the calls of OnDead that follow it outside the lock. Here too `now` is read before the
-- lock is taken, and may be earlier than that of the step before.
unfoldable pub sweep : ℕ → ReaperConfig → Tracker → Tracker × List DeadActor
sweep now cfg t =
    let (kept, dead) = sweep_actors now cfg t.actors in
    (record t { actors = kept }, if cfg.on_dead then dead else [])
