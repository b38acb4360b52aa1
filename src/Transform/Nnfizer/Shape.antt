-- ===== src/Transform/Nnfizer/Shape.antt =====
-- The shape of the result: negation stands on leaves only.
use d_real_cmake.Prelude.{Bool, true, false, not}
use d_real_cmake.Symbolic.Syntax.{
  Formula, Formulas, Every, false_formula, true_formula, var, eq, neq, gt, geq, lt, leq, conj, disj,
  neg, forall, forall_t, integral, nil, cons,
}
use d_real_cmake.Symbolic.Builder.{Builder, BuildsFrom}
use d_real_cmake.Transform.Nnfizer.{visit_relation, visit_leaf, visit, visit_all, convert}

-- What a negation may stand on; relations only where negation is not pushed into them.
abbrev pub MayNegate : Bool → Formula → Type 0
MayNegate push (var _) = Unit
MayNegate push (forall _ _) = Unit
MayNegate push (forall_t _ _) = Unit
MayNegate push (integral _) = Unit
MayNegate false (eq _ _) = Unit
MayNegate false (neq _ _) = Unit
MayNegate false (gt _ _) = Unit
MayNegate false (geq _ _) = Unit
MayNegate false (lt _ _) = Unit
MayNegate false (leq _ _) = Unit
MayNegate _ _ = ⊥

unfoldable mutual
  pub IsNnf : Bool → Formula → Type 0
  IsNnf push (neg f) = MayNegate push f
  IsNnf push (conj fs) = AreNnf push fs
  IsNnf push (disj fs) = AreNnf push fs
  IsNnf push _ = Unit

  pub AreNnf : Bool → Formulas → Type 0
  AreNnf push nil = Unit
  AreNnf push (cons f fs) = IsNnf push f × AreNnf push fs

AreNnf-Every : (push : Bool) (fs : Formulas) → AreNnf push fs → Every (IsNnf push) fs
unfolding IsNnf
AreNnf-Every push nil h = tt
AreNnf-Every push (cons f fs) h = (h.0, AreNnf-Every push fs h.1)

Every-AreNnf : (push : Bool) (fs : Formulas) → Every (IsNnf push) fs → AreNnf push fs
unfolding IsNnf
Every-AreNnf push nil h = tt
Every-AreNnf push (cons f fs) h = (h.0, Every-AreNnf push fs h.1)

-- A negated leaf is in normal form, and so is what it negates.
MayNegate-IsNnf : (push : Bool) (f : Formula) → MayNegate push f → IsNnf push f
unfolding IsNnf
MayNegate-IsNnf push (neg f) h = absurd h
MayNegate-IsNnf push (conj fs) h = absurd h
MayNegate-IsNnf push (disj fs) h = absurd h
MayNegate-IsNnf push _ h = tt

module _ (B : Builder) (F : BuildsFrom B) where
  visit_leaf-IsNnf :
      (f : Formula) (p push : Bool) → MayNegate push f → IsNnf push (visit_leaf B f p)
  unfolding visit_leaf IsNnf
  visit_leaf-IsNnf f true push h = MayNegate-IsNnf push f h
  visit_leaf-IsNnf f false push h = F.negation_from (IsNnf push) tt tt (MayNegate-IsNnf push) f h

  -- A relation `f`, with `g` for its negation.
  visit_relation-IsNnf :
      (f g : Formula) (p push : Bool)
      → IsNnf push f
      → IsNnf push g
      → MayNegate false f
      → IsNnf push (visit_relation B f g p push)
  unfolding visit_relation IsNnf
  visit_relation-IsNnf f g true push hf hg h = hf
  visit_relation-IsNnf f g false true hf hg h = hg
  visit_relation-IsNnf f g false false hf hg h =
      F.negation_from (IsNnf false) tt tt (MayNegate-IsNnf false) f h

  make_conjunction-IsNnf :
      (push : Bool) (fs : Formulas) → AreNnf push fs → IsNnf push (B.make_conjunction fs)
  unfolding IsNnf
  make_conjunction-IsNnf push fs h =
      F.conjunction_from (IsNnf push) tt tt (AreNnf-Every push) (Every-AreNnf push) fs
        (AreNnf-Every push fs h)

  make_disjunction-IsNnf :
      (push : Bool) (fs : Formulas) → AreNnf push fs → IsNnf push (B.make_disjunction fs)
  unfolding IsNnf
  make_disjunction-IsNnf push fs h =
      F.disjunction_from (IsNnf push) tt tt (AreNnf-Every push) (Every-AreNnf push) fs
        (AreNnf-Every push fs h)

  mutual
    unfolding visit IsNnf

    visit-IsNnf : (f : Formula) (p push : Bool) → IsNnf push (visit B f p push)
    visit-IsNnf false_formula true push = tt
    visit-IsNnf false_formula false push = tt
    visit-IsNnf true_formula true push = tt
    visit-IsNnf true_formula false push = tt
    visit-IsNnf (var b) p push = visit_leaf-IsNnf (var b) p push tt
    visit-IsNnf (eq a b) p push =
        visit_relation-IsNnf _ _ p push tt ((F.relation_from (IsNnf push) tt tt a b).1 tt) tt
    visit-IsNnf (neq a b) p push =
        visit_relation-IsNnf _ _ p push tt ((F.relation_from (IsNnf push) tt tt a b).0 tt) tt
    visit-IsNnf (gt a b) p push =
        visit_relation-IsNnf _ _ p push tt ((F.relation_from (IsNnf push) tt tt a b).5 tt) tt
    visit-IsNnf (geq a b) p push =
        visit_relation-IsNnf _ _ p push tt ((F.relation_from (IsNnf push) tt tt a b).4 tt) tt
    visit-IsNnf (lt a b) p push =
        visit_relation-IsNnf _ _ p push tt ((F.relation_from (IsNnf push) tt tt a b).3 tt) tt
    visit-IsNnf (leq a b) p push =
        visit_relation-IsNnf _ _ p push tt ((F.relation_from (IsNnf push) tt tt a b).2 tt) tt
    visit-IsNnf (conj fs) true push = make_conjunction-IsNnf push _ (visit_all-AreNnf fs true push)
    visit-IsNnf (conj fs) false push =
        make_disjunction-IsNnf push _ (visit_all-AreNnf fs false push)
    visit-IsNnf (disj fs) true push = make_disjunction-IsNnf push _ (visit_all-AreNnf fs true push)
    visit-IsNnf (disj fs) false push =
        make_conjunction-IsNnf push _ (visit_all-AreNnf fs false push)
    visit-IsNnf (neg f) p push = visit-IsNnf f (not p) push
    visit-IsNnf (forall vs f) p push = visit_leaf-IsNnf (forall vs f) p push tt
    visit-IsNnf (forall_t k f) p push = visit_leaf-IsNnf (forall_t k f) p push tt
    visit-IsNnf (integral k) p push = visit_leaf-IsNnf (integral k) p push tt

    visit_all-AreNnf : (fs : Formulas) (p push : Bool) → AreNnf push (visit_all B fs p push)
    visit_all-AreNnf nil p push = tt
    visit_all-AreNnf (cons f fs) p push = (visit-IsNnf f p push, visit_all-AreNnf fs p push)

-- In the converted formula a negation stands only on a Boolean variable, a quantified formula or an
-- ODE atom; on a relation too exactly if negation is not to be pushed into relations. The
-- operations of the symbolic library are taken to build their results from their operands.
pub convert-IsNnf :
    (B : Builder) → BuildsFrom B → (f : Formula) (push : Bool) → IsNnf push (convert B f push)
unfolding convert
convert-IsNnf B F f push = visit-IsNnf B F f true push
