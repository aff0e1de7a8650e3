-- ===== src/Server.antt =====
-- The server (internal/server) over its store (internal/store/postgres): creating, updating, closing,
-- deleting and listing beads, their labels, dependencies and comments, and session gates.
pub mod Store
pub mod Actions
pub mod Builtins
pub mod Notify
pub mod Beads
pub mod Labels
pub mod Persisting
pub mod Creating
pub mod Replies
pub mod Reconcile
pub mod Update
pub mod UpdateSteps
pub mod Updating
mod Tests
pub mod Samples
mod ListTests
pub mod Gates
pub mod GateProofs
pub mod Listing
pub mod Close
pub mod Rows
pub mod Relations
pub mod Soundness
pub mod References
pub mod GateRows
pub mod Preserves
pub mod Keeps
pub mod KeepsCreate
pub mod KeepsUpdate
pub mod KeepsHandlers
pub mod Requests
pub mod Query
pub mod Filter
pub mod Clauses
pub mod QueryProofs
pub mod ListBeads
pub mod ListProofs
pub mod ListHandler
