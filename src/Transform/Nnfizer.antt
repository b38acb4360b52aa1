-- ===== src/Transform/Nnfizer.antt =====
-- src/dreal/util/nnfizer.cc: negation normal form. A set of operands is mapped member by member.
pub mod Meaning
pub mod Shape
use d_real_cmake.Prelude.{Bool, true, false, not, if◌then◌else◌}
use d_real_cmake.Symbolic.Syntax.{
  Formula, Formulas, false_formula, true_formula, var, eq, neq, gt, geq, lt, leq, conj, disj, neg,
  forall, forall_t, integral, nil, cons,
}
use d_real_cmake.Symbolic.Builder.{Builder}

module _ (B : Builder) where
  -- A relation whose negation is another relation.
  unfoldable pub visit_relation : Formula → Formula → Bool → Bool → Formula
  visit_relation f opposite polarity push_negation_into_relationals =
      if polarity then f else if push_negation_into_relationals then opposite else B.negation f

  -- A formula that is kept whole.
  unfoldable pub visit_leaf : Formula → Bool → Formula
  visit_leaf f polarity = if polarity then f else B.negation f

  unfoldable mutual
    pub visit : Formula → Bool → Bool → Formula
    visit false_formula polarity push = if polarity then false_formula else true_formula
    visit true_formula polarity push = if polarity then true_formula else false_formula
    visit (var b) polarity push = visit_leaf (var b) polarity
    visit (eq a b) polarity push = visit_relation (eq a b) (B.not_equal a b) polarity push
    visit (neq a b) polarity push = visit_relation (neq a b) (B.equal a b) polarity push
    visit (gt a b) polarity push = visit_relation (gt a b) (B.less_equal a b) polarity push
    visit (geq a b) polarity push = visit_relation (geq a b) (B.less a b) polarity push
    visit (lt a b) polarity push = visit_relation (lt a b) (B.greater_equal a b) polarity push
    visit (leq a b) polarity push = visit_relation (leq a b) (B.greater a b) polarity push
    visit (conj fs) polarity push =
        if polarity
        then B.make_conjunction (visit_all fs polarity push)
        else B.make_disjunction (visit_all fs polarity push)
    visit (disj fs) polarity push =
        if polarity
        then B.make_disjunction (visit_all fs polarity push)
        else B.make_conjunction (visit_all fs polarity push)
    visit (neg f) polarity push = visit f (not polarity) push
    visit (forall vs f) polarity push = visit_leaf (forall vs f) polarity
    visit (forall_t k f) polarity push = visit_leaf (forall_t k f) polarity
    visit (integral k) polarity push = visit_leaf (integral k) polarity

    pub visit_all : Formulas → Bool → Bool → Formulas
    visit_all nil polarity push = nil
    visit_all (cons f fs) polarity push = cons (visit f polarity push) (visit_all fs polarity push)

  unfoldable pub convert : Formula → Bool → Formula
  convert f push = visit f true push
