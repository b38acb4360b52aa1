-- ===== src/Solver/Context.antt =====
-- src/dreal/solver/context_impl.cc: the assertions, and the cycle of SAT solver and theory solver.
pub mod Core
pub mod Forall
pub mod Options
