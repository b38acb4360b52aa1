-- ===== src/Symbolic.antt =====
-- Expressions, formulas, their meaning, and the operations of the vendored symbolic library that
-- the solver calls.
pub mod Syntax
pub mod Numbers
pub mod Meaning
pub mod Builder
