-- ===== src/Lib.antt =====
-- dReal decides formulas over the reals up to a precision. An assertion is brought into normal form
-- by the passes of src/dreal/util; an assertion that only bounds a variable goes into the box
-- (src/dreal/solver/filter_assertion.cc) and the others to the SAT solver; a set of literals is
-- then decided by branch and prune (src/dreal/solver/icp_seq.cc): a contractor
-- (src/dreal/contractor) cuts the box, evaluators judge it, and a brancher
-- (src/dreal/solver/brancher.cc) halves it. When every box is refuted, the status of the contractor
-- (src/dreal/contractor/contractor_status.cc) explains which constraints were responsible.
--
-- Symbolic: formulas as the visitors see them (Syntax), what they mean (Meaning), and the parts of
--   the vendored symbolic library that the code calls (Builder), with reals and doubles (Numbers).
--   The library is a parameter, with what its operations mean and what they build from as named
--   hypotheses.
-- Transform: src/dreal/util/nnfizer.cc, naive_cnfizer.cc, tseitin_cnfizer.cc,
--   predicate_normalizer.cc and predicate_abstractor.cc; `visit` has a clause for each Visit
--   function. Clauses is the tests of src/dreal/symbolic/symbolic.cc that they share.
-- Box: src/dreal/util/box.cc. A box is its variables with an interval for each; the interval library
--   is a parameter (Box/Interval), and Box/Points says which points a box has. Bisect is
--   `Box::bisect` with `bisect_int` and `bisect_continuous`.
-- Filter: src/dreal/solver/filter_assertion.cc; the updates of bounds and the visitor, by the
--   functions' names.
-- Contractor: Status is `ContractorStatus`; Explanation is `GenerateExplanation`; Combine has the
--   sequence, the fixpoint and the join; Worklist is the worklist fixpoint; Integral is the integer
--   contractor. A contractor is the function of the status that its `Prune` is.
-- Solver: Context/Core is `CheckSatCore` of src/dreal/solver/context_impl.cc, whose SAT solver and
--   theory solver are parameters with named promises, Context/Forall its check for quantifiers and
--   Context/Options its numeric options; Sat is src/dreal/solver/sat_solver.cc around the SAT solver
--   itself; Theory is `BuildContractor` and `CheckSat` of src/dreal/solver/theory_solver.cc, with
--   what builds a single contractor or evaluator as a parameter; Evaluate is `EvaluateBox` of src/dreal/solver/icp.cc; Icp is `IcpSeq::CheckSat`; Brancher
--   is `BranchLargestFirst` with `FindMaxDiam`.
-- Container: src/dreal/util/scoped_vector.h, scoped_unordered_map.h and scoped_unordered_set.h.
-- Config: src/dreal/util/option_value.h.
-- Prelude: library names and lemmas that the others share. Tests: concrete numbers, boxes and parts,
--   with the theorems applied to them.
--
-- State is passed: an operation takes the object and returns the new one. `none` stands for an
-- exception or a failed assertion, or for the end of the fuel in a loop. The loops on fuel are the
-- search, the two fixpoints, the explanation, the naive conversion, the normalizer and the cycle of
-- SAT solver and theory solver. The normalizer needs more fuel than the formula is high, and the
-- cycle twice the number of models that the clauses allow. The explanation needs more
-- fuel than there are used constraints, and the conversion more than quantified formulas are nested;
-- the others need a measure of boxes that goes down, as the number of doubles in the
-- box does, and their theorems say how much fuel is enough for such a measure.
--
-- A double is its bit pattern, whose real value, order and neighbours are parameters; there is no
-- NaN. Rounding modes of the processor, timers, logs and interrupts are left out, and the parallel
-- search, quantifiers, differential equations, the front ends and the vendored libraries are not
-- modelled.
pub mod Box
pub mod Config
pub mod Container
pub mod Contractor
pub mod Filter
pub mod Prelude
pub mod Solver
pub mod Symbolic
pub mod Tests
pub mod Transform
