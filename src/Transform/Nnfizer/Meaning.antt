-- ===== src/Transform/Nnfizer/Meaning.antt =====
-- Negation normal form keeps the meaning of a formula.
use d_real_cmake.Prelude.{
  ◌≡◌, refl, sym, ◌∙◌, ap₂, Bool, true, false, not, ◌&&◌, ◌||◌, polar, polar-not, not-not, not-and,
  not-or,
}
use d_real_cmake.Symbolic.Syntax.{
  Formula, Formulas, false_formula, true_formula, var, eq, neq, gt, geq, lt, leq, conj, disj, neg,
  forall, forall_t, integral, nil, cons,
}
use d_real_cmake.Symbolic.Meaning.{Semantics, eval, eval_and, eval_or}
use d_real_cmake.Symbolic.Builder.{Builder, MeansWell}
use d_real_cmake.Transform.Nnfizer.{visit_relation, visit_leaf, visit, visit_all, convert}

module _ (S : Semantics) (B : Builder) (M : MeansWell S B) where
  eval-visit_leaf :
      (f : Formula) (p : Bool) (ρ : S.Env) → eval S (visit_leaf B f p) ρ ≡ polar p (eval S f ρ)
  unfolding visit_leaf
  eval-visit_leaf f true ρ = refl
  eval-visit_leaf f false ρ = M.negation_lem f ρ

  -- `g` is a formula for the negation of `f`.
  eval-visit_relation :
      (f g : Formula) (p push : Bool) (ρ : S.Env)
      → eval S g ρ ≡ not (eval S f ρ)
      → eval S (visit_relation B f g p push) ρ ≡ polar p (eval S f ρ)
  unfolding visit_relation
  eval-visit_relation f g true push ρ h = refl
  eval-visit_relation f g false true ρ h = h
  eval-visit_relation f g false false ρ h = M.negation_lem f ρ

  mutual
    unfolding visit eval

    eval-visit :
        (f : Formula) (p push : Bool) (ρ : S.Env)
        → eval S (visit B f p push) ρ ≡ polar p (eval S f ρ)
    eval-visit false_formula true push ρ = refl
    eval-visit false_formula false push ρ = refl
    eval-visit true_formula true push ρ = refl
    eval-visit true_formula false push ρ = refl
    eval-visit (var b) p push ρ = eval-visit_leaf (var b) p ρ
    eval-visit (eq a b) p push ρ = eval-visit_relation (eq a b) _ p push ρ (M.not_equal_lem a b ρ)
    eval-visit (neq a b) p push ρ =
        eval-visit_relation (neq a b) _ p push ρ (M.equal_lem a b ρ ∙ sym (not-not _))
    eval-visit (gt a b) p push ρ =
        eval-visit_relation (gt a b) _ p push ρ (M.less_equal_lem a b ρ ∙ sym (not-not _))
    eval-visit (geq a b) p push ρ = eval-visit_relation (geq a b) _ p push ρ (M.less_lem a b ρ)
    eval-visit (lt a b) p push ρ =
        eval-visit_relation (lt a b) _ p push ρ (M.greater_equal_lem a b ρ ∙ sym (not-not _))
    eval-visit (leq a b) p push ρ = eval-visit_relation (leq a b) _ p push ρ (M.greater_lem a b ρ)
    eval-visit (conj fs) true push ρ = M.conjunction_lem _ ρ ∙ eval_and-visit_all fs push ρ
    eval-visit (conj fs) false push ρ = M.disjunction_lem _ ρ ∙ eval_or-negated fs push ρ
    eval-visit (disj fs) true push ρ = M.disjunction_lem _ ρ ∙ eval_or-visit_all fs push ρ
    eval-visit (disj fs) false push ρ = M.conjunction_lem _ ρ ∙ eval_and-negated fs push ρ
    eval-visit (neg f) p push ρ = eval-visit f (not p) push ρ ∙ polar-not p (eval S f ρ)
    eval-visit (forall vs f) p push ρ = eval-visit_leaf (forall vs f) p ρ
    eval-visit (forall_t k f) p push ρ = eval-visit_leaf (forall_t k f) p ρ
    eval-visit (integral k) p push ρ = eval-visit_leaf (integral k) p ρ

    eval_and-visit_all :
        (fs : Formulas) (push : Bool) (ρ : S.Env)
        → eval_and S (visit_all B fs true push) ρ ≡ eval_and S fs ρ
    eval_and-visit_all nil push ρ = refl
    eval_and-visit_all (cons f fs) push ρ =
        ap₂ ◌&&◌ (eval-visit f true push ρ) (eval_and-visit_all fs push ρ)

    eval_or-visit_all :
        (fs : Formulas) (push : Bool) (ρ : S.Env)
        → eval_or S (visit_all B fs true push) ρ ≡ eval_or S fs ρ
    eval_or-visit_all nil push ρ = refl
    eval_or-visit_all (cons f fs) push ρ =
        ap₂ ◌||◌ (eval-visit f true push ρ) (eval_or-visit_all fs push ρ)

    eval_or-negated :
        (fs : Formulas) (push : Bool) (ρ : S.Env)
        → eval_or S (visit_all B fs false push) ρ ≡ not (eval_and S fs ρ)
    eval_or-negated nil push ρ = refl
    eval_or-negated (cons f fs) push ρ =
        ap₂ ◌||◌ (eval-visit f false push ρ) (eval_or-negated fs push ρ) ∙ sym (not-and _ _)

    eval_and-negated :
        (fs : Formulas) (push : Bool) (ρ : S.Env)
        → eval_and S (visit_all B fs false push) ρ ≡ not (eval_or S fs ρ)
    eval_and-negated nil push ρ = refl
    eval_and-negated (cons f fs) push ρ =
        ap₂ ◌&&◌ (eval-visit f false push ρ) (eval_and-negated fs push ρ) ∙ sym (not-or _ _)

-- With either setting of `push_negation_into_relationals`, the converted formula has in every
-- environment the value of the formula it was made from. The operations of the symbolic library are
-- taken to mean their connectives.
pub eval-nnf :
    (S : Semantics) (B : Builder)
    → MeansWell S B
    → (f : Formula) (push : Bool) (ρ : S.Env) → eval S (convert B f push) ρ ≡ eval S f ρ
unfolding convert
eval-nnf S B M f push ρ = eval-visit S B M f true push ρ
