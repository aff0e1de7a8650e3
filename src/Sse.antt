-- ===== src/Sse.antt =====
-- The server-sent event stream (internal/server/sse.go): topic patterns, the hub that fans events
-- out to clients, and the ring buffer from which a reconnecting client is replayed.
pub mod Topic
pub mod Hub
pub mod Match
pub mod Buffers
pub mod Ring
pub mod Clients
mod Tests
