-- ===== src/Evaluate.antt =====
-- internal/evaluate: the evaluation of a proposed action.
pub mod Interfaces
pub mod ScopeGuard
pub mod Pipeline
