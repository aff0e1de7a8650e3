-- ===== src/Hooks.antt =====
-- Advice hooks (internal/hooks) and the hook endpoint that consults the session gates
-- (internal/server/http_hooks.go).
pub mod Executor
pub mod Handler
pub mod HandlerProofs
pub mod Session
pub mod Emit
pub mod Endpoints
pub mod StopGate
pub mod PendingGate
pub mod EmitProofs
pub mod Keeps
mod Tests
