-- ===== src/Transform.antt =====
-- The passes over formulas between an assertion and the SAT solver.
pub mod Clauses
pub mod Nnfizer
pub mod NaiveCnfizer
pub mod Tseitin
pub mod Normalizer
pub mod Abstractor
