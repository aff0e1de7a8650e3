-- ===== src/Formula.antt =====
-- Formulas and the molecules made of them (cmd/kd/formula_apply.go).
pub mod Template
pub mod TemplateProofs
pub mod Variables
pub mod Apply
pub mod Creating
pub mod ApplyProofs
mod Tests
