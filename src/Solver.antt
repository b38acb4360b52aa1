-- ===== src/Solver.antt =====
-- The theory solver of src/dreal/solver.
pub mod Evaluate
pub mod Brancher
pub mod Icp
pub mod Context
pub mod Sat
pub mod Theory
