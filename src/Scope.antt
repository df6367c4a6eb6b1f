-- ===== src/Scope.antt =====
-- internal/scope: the boundary matrix and the attributes of a proposed action.
pub mod Matrix
pub mod Restriction
pub mod Table
