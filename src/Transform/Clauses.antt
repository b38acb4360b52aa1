-- ===== src/Transform/Clauses.antt =====
-- The tests on formulas of src/dreal/symbolic/symbolic.cc that the passes share: literals, clauses,
-- and the set of clauses of a conjunctive normal form. A failed assertion is `none`.
use d_real_cmake.Prelude.{Bool, true, false, ◌&&◌, ◌||◌, Option, none, some, if◌then◌else◌}
use d_real_cmake.Symbolic.Syntax.{
  Formula, Formulas, var, eq, neq, gt, geq, lt, leq, conj, disj, neg, nil, cons,
}
use d_real_cmake.Symbolic.Builder.{Builder}

unfoldable pub is_variable : Formula → Bool
is_variable (var b) = true
is_variable _ = false

unfoldable pub is_relational : Formula → Bool
is_relational (eq a b) = true
is_relational (neq a b) = true
is_relational (gt a b) = true
is_relational (geq a b) = true
is_relational (lt a b) = true
is_relational (leq a b) = true
is_relational _ = false

unfoldable pub is_atomic : Formula → Bool
is_atomic (conj fs) = false
is_atomic (disj fs) = false
is_atomic (neg f) = is_variable f || is_relational f
is_atomic _ = true

unfoldable pub all_atomic : Formulas → Bool
all_atomic nil = true
all_atomic (cons f fs) = is_atomic f && all_atomic fs

unfoldable pub is_clause : Formula → Bool
is_clause (neg f) = is_atomic (neg f) || is_atomic f
is_clause (conj fs) = false
is_clause (disj fs) = all_atomic fs
is_clause _ = true

unfoldable pub all_clauses : Formulas → Bool
all_clauses nil = true
all_clauses (cons f fs) = is_clause f && all_clauses fs

unfoldable pub get_clauses : Formula → Option Formulas
get_clauses (conj fs) = if all_clauses fs then some fs else none
get_clauses f = if is_clause f then some (cons f nil) else none

module _ (B : Builder) where
  unfoldable pub imply : Formula → Formula → Formula
  imply f1 f2 = B.either (B.negation f1) f2

  unfoldable pub iff : Formula → Formula → Formula
  iff f1 f2 = B.both (imply f1 f2) (imply f2 f1)

  unfoldable pub map_negation : Formulas → Formulas
  map_negation nil = nil
  map_negation (cons f fs) = cons (B.negation f) (map_negation fs)
