-- ===== src/Decision.antt =====
-- Decisions (internal/server/http_decisions.go).
pub mod Handlers
pub mod Resolving
mod Tests
