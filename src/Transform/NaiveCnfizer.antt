-- ===== src/Transform/NaiveCnfizer.antt =====
-- src/dreal/util/naive_cnfizer.cc: conjunctive normal form by distribution. `Convert` calls itself on
-- the body of a quantified formula after it is brought into negation normal form: it takes fuel,
-- whose end is `none`, as is a failed assertion.
pub mod Depth
pub mod Meaning
use d_real_cmake.Prelude.{ℕ, zero, suc, Bool, true, false, Option, none, some, if◌then◌else◌, ◌>>=◌}
use d_real_cmake.Symbolic.Syntax.{
  Formula, Formulas, false_formula, true_formula, var, eq, neq, gt, geq, lt, leq, conj, disj, neg,
  forall, forall_t, integral, nil, cons,
}
use d_real_cmake.Symbolic.Builder.{Builder}
use d_real_cmake.Transform.Clauses.{is_atomic}
use d_real_cmake.Transform.Nnfizer

-- The operands of a conjunction, `none` for another formula.
unfoldable pub operands : Formula → Option Formulas
operands (conj fs) = some fs
operands _ = none

unfoldable pub append : Formulas → Formulas → Formulas
append nil gs = gs
append (cons f fs) gs = cons f (append fs gs)

module _ (B : Builder) where
  unfoldable pub or_each : Formula → Formulas → Formulas
  or_each f nil = nil
  or_each f (cons g gs) = cons (B.either f g) (or_each f gs)

  unfoldable pub each_or : Formulas → Formula → Formulas
  each_or nil g = nil
  each_or (cons f fs) g = cons (B.either f g) (each_or fs g)

  unfoldable pub or_all : Formulas → Formulas → Formulas
  or_all nil gs = nil
  or_all (cons f fs) gs = append (or_each f gs) (or_all fs gs)

  unfoldable pub clauses : Formula → Formula → Option Formulas → Option Formulas → Formulas
  clauses cnf1 cnf2 (some fs) (some gs) = or_all fs gs
  clauses cnf1 cnf2 (some fs) none = each_or fs cnf2
  clauses cnf1 cnf2 none (some gs) = or_each cnf1 gs
  clauses cnf1 cnf2 none none = cons (B.either cnf1 cnf2) nil

  -- The `accumulate` over the operands.
  unfoldable pub disjoin : Formula → Formulas → Formula
  disjoin cnf1 nil = cnf1
  disjoin cnf1 (cons cnf2 rest) =
      disjoin (B.make_conjunction (clauses cnf1 cnf2 (operands cnf1) (operands cnf2))) rest

  module _ (recur : Formula → Option Formula) where
    unfoldable mutual
      pub visit : Formula → Option Formula
      visit (eq a b) = some (B.both (B.greater_equal a b) (B.less_equal a b))
      visit (neq a b) = some (B.either (B.greater a b) (B.less a b))
      visit (conj fs) = visit_all fs >>= λ (gs : Formulas). some (B.make_conjunction gs)
      visit (disj fs) = visit_all fs >>= λ (gs : Formulas). some (disjoin false_formula gs)
      visit (neg f) = if is_atomic f then some (neg f) else none
      visit (forall vs f) = recur f >>= λ (g : Formula). some (B.quantify vs g)
      visit false_formula = some false_formula
      visit true_formula = some true_formula
      visit (var b) = some (var b)
      visit (gt a b) = some (gt a b)
      visit (geq a b) = some (geq a b)
      visit (lt a b) = some (lt a b)
      visit (leq a b) = some (leq a b)
      visit (forall_t k f) = some (forall_t k f)
      visit (integral k) = some (integral k)

      pub visit_all : Formulas → Option Formulas
      visit_all nil = some nil
      visit_all (cons f fs) =
          visit f >>= λ (g : Formula). visit_all fs >>= λ (gs : Formulas). some (cons g gs)

  unfoldable pub convert : ℕ → Formula → Option Formula
  convert zero f = none
  convert (suc fuel) f = visit (λ g. convert fuel g) (Nnfizer.convert B f true)
