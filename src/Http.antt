-- ===== src/Http.antt =====
-- The HTTP side of internal/server: the handlers of http_beads.go and http_relations.go, and the bearer
-- token of interceptors.go.
pub mod Replies
pub mod Rpc
pub mod Beads
pub mod Relations
pub mod Agreement
pub mod Closing
pub mod Keeps
pub mod CallKeeps
pub mod History
pub mod Listing
pub mod ListingProofs
pub mod Auth
pub mod AuthProofs
mod Tests
