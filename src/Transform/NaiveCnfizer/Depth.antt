-- ===== src/Transform/NaiveCnfizer/Depth.antt =====
-- How deeply quantified formulas are nested, which is how often `Convert` calls itself.
use d_real_cmake.Prelude.{ℕ, suc, ◌≤◌, Bool, true, false, not, arith}
use Prim.Native.Nat.{max}
use d_real_cmake.Symbolic.Syntax.{
  Formula, Formulas, Every, false_formula, true_formula, var, eq, neq, gt, geq, lt, leq, conj, disj,
  neg, forall, forall_t, integral, nil, cons,
}
use d_real_cmake.Symbolic.Builder.{Builder, BuildsFrom}
use d_real_cmake.Transform.Nnfizer.{visit_relation, visit_leaf, visit, visit_all, convert}

unfoldable mutual
  pub depth : Formula → ℕ
  depth (conj fs) = depth_all fs
  depth (disj fs) = depth_all fs
  depth (neg f) = depth f
  depth (forall vs f) = suc (depth f)
  depth _ = 0

  pub depth_all : Formulas → ℕ
  depth_all nil = 0
  depth_all (cons f fs) = max (depth f) (depth_all fs)

depth_all-Every : (n : ℕ) (fs : Formulas) → depth_all fs ≤ n → Every (λ f. depth f ≤ n) fs
unfolding depth
depth_all-Every n nil h = tt
depth_all-Every n (cons f fs) h = (omega (arith, h), depth_all-Every n fs (omega (arith, h)))

Every-depth_all : (n : ℕ) (fs : Formulas) → Every (λ f. depth f ≤ n) fs → depth_all fs ≤ n
unfolding depth
Every-depth_all n nil h = omega arith
Every-depth_all n (cons f fs) h = let rest = Every-depth_all n fs h.1 in omega (arith, h.0, rest)

module _ (B : Builder) (F : BuildsFrom B) (n : ℕ) where
  abbrev Shallow : Formula → Type 0
  Shallow f = depth f ≤ n

  Shallow-zero : 0 ≤ n
  Shallow-zero = omega arith

  visit_leaf-Shallow : (f : Formula) (p : Bool) → Shallow f → Shallow (visit_leaf B f p)
  unfolding visit_leaf depth
  visit_leaf-Shallow f true h = h
  visit_leaf-Shallow f false h = F.negation_from Shallow Shallow-zero Shallow-zero (λ g k. k) f h

  visit_relation-Shallow :
      (f g : Formula) (p push : Bool)
      → Shallow f
      → Shallow g
      → Shallow (visit_relation B f g p push)
  unfolding visit_relation depth
  visit_relation-Shallow f g true push h k = h
  visit_relation-Shallow f g false true h k = k
  visit_relation-Shallow f g false false h k =
      F.negation_from Shallow Shallow-zero Shallow-zero (λ t q. q) f h

  make_conjunction-Shallow : (fs : Formulas) → depth_all fs ≤ n → Shallow (B.make_conjunction fs)
  unfolding depth
  make_conjunction-Shallow fs h =
      F.conjunction_from Shallow Shallow-zero Shallow-zero (depth_all-Every n) (Every-depth_all n)
        fs (depth_all-Every n fs h)

  make_disjunction-Shallow : (fs : Formulas) → depth_all fs ≤ n → Shallow (B.make_disjunction fs)
  unfolding depth
  make_disjunction-Shallow fs h =
      F.disjunction_from Shallow Shallow-zero Shallow-zero (depth_all-Every n) (Every-depth_all n)
        fs (depth_all-Every n fs h)

  mutual
    unfolding visit depth

    visit-Shallow : (f : Formula) (p push : Bool) → Shallow f → Shallow (visit B f p push)
    visit-Shallow false_formula true push h = h
    visit-Shallow false_formula false push h = h
    visit-Shallow true_formula true push h = h
    visit-Shallow true_formula false push h = h
    visit-Shallow (var b) p push h = visit_leaf-Shallow (var b) p h
    visit-Shallow (eq a b) p push h =
        visit_relation-Shallow (eq a b) _ p push h
          ((F.relation_from Shallow Shallow-zero Shallow-zero a b).1 h)
    visit-Shallow (neq a b) p push h =
        visit_relation-Shallow (neq a b) _ p push h
          ((F.relation_from Shallow Shallow-zero Shallow-zero a b).0 h)
    visit-Shallow (gt a b) p push h =
        visit_relation-Shallow (gt a b) _ p push h
          ((F.relation_from Shallow Shallow-zero Shallow-zero a b).5 h)
    visit-Shallow (geq a b) p push h =
        visit_relation-Shallow (geq a b) _ p push h
          ((F.relation_from Shallow Shallow-zero Shallow-zero a b).4 h)
    visit-Shallow (lt a b) p push h =
        visit_relation-Shallow (lt a b) _ p push h
          ((F.relation_from Shallow Shallow-zero Shallow-zero a b).3 h)
    visit-Shallow (leq a b) p push h =
        visit_relation-Shallow (leq a b) _ p push h
          ((F.relation_from Shallow Shallow-zero Shallow-zero a b).2 h)
    visit-Shallow (conj fs) true push h =
        make_conjunction-Shallow _ (visit_all-Shallow fs true push h)
    visit-Shallow (conj fs) false push h =
        make_disjunction-Shallow _ (visit_all-Shallow fs false push h)
    visit-Shallow (disj fs) true push h =
        make_disjunction-Shallow _ (visit_all-Shallow fs true push h)
    visit-Shallow (disj fs) false push h =
        make_conjunction-Shallow _ (visit_all-Shallow fs false push h)
    visit-Shallow (neg f) p push h = visit-Shallow f (not p) push h
    visit-Shallow (forall vs f) p push h = visit_leaf-Shallow (forall vs f) p h
    visit-Shallow (forall_t k f) p push h = visit_leaf-Shallow (forall_t k f) p h
    visit-Shallow (integral k) p push h = visit_leaf-Shallow (integral k) p h

    visit_all-Shallow :
        (fs : Formulas) (p push : Bool) → depth_all fs ≤ n → depth_all (visit_all B fs p push) ≤ n
    visit_all-Shallow nil p push h = h
    visit_all-Shallow (cons f fs) p push h =
        let a = visit-Shallow f p push (omega (arith, h)) in
        let b = visit_all-Shallow fs p push (omega (arith, h)) in omega (arith, a, b)

-- Negation normal form does not nest quantified formulas more deeply.
pub depth-convert :
    (B : Builder) → BuildsFrom B → (f : Formula) (push : Bool) → depth (convert B f push) ≤ depth f
unfolding convert
depth-convert B F f push = visit-Shallow B F (depth f) f true push (omega arith)
