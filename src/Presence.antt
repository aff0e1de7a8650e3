-- ===== src/Presence.antt =====
-- The agent roster (internal/presence/tracker.go): hook events keep agents alive, and a reaper marks
-- idle agents dead and later evicts them.
pub mod Tracker
pub mod Sweep
pub mod Invariant
pub mod Lifecycle
pub mod Roster
mod Tests
