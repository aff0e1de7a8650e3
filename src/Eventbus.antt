-- ===== src/Eventbus.antt =====
-- The in-process event bus (internal/eventbus): event types and their NATS subjects, handlers in
-- priority order, and the publishing to JetStream behind them.
pub mod Types
pub mod Subjects
pub mod Bus
pub mod Routing
pub mod Dispatch
mod Tests
