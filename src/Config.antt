-- ===== src/Config.antt =====
-- Configs with their builtin defaults: the statements of internal/store/postgres/queries.go and the
-- handlers of internal/server/config.go and http_config.go.
pub mod Rpc
pub mod Handlers
pub mod Colons
pub mod Entries
pub mod Listing
mod Tests
