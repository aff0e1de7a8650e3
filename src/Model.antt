-- ===== src/Model.antt =====
-- The domain model (internal/model): beads and their validation, typed fields, and the matching of
-- advice against an agent's subscriptions.
pub mod Bead
pub mod Validate
pub mod Value
pub mod Fields
pub mod FieldProofs
pub mod Advice
pub mod Groups
pub mod Matching
pub mod Delivery
mod Tests
