-- ===== src/Tests/Formulas.antt =====
-- A formula in negation normal form.
use d_real_cmake.Prelude.{ℕ, [], arith, refl, some, true, ◌<◌, ◌∷◌, ◌≡◌}
use d_real_cmake.Symbolic.Syntax.{
  Formula, conj, cons, constant, disj, eq, forall, gt, leq, neg, nil, variable,
}
use d_real_cmake.Symbolic.Meaning.{eval}
use d_real_cmake.Symbolic.Builder.{plain}
use d_real_cmake.Transform.Nnfizer.{convert, visit, visit_relation}
use d_real_cmake.Transform.Nnfizer.Meaning.{eval-nnf}
use d_real_cmake.Transform.Nnfizer.Shape.{IsNnf, convert-IsNnf}
use d_real_cmake.Transform.NaiveCnfizer
use d_real_cmake.Transform.NaiveCnfizer.Depth.{depth}
use d_real_cmake.Transform.NaiveCnfizer.Meaning.{eval-convert}
use d_real_cmake.Tests.Instances.{semantics, plain_means, plain_builds, x, n, point}

-- Not both `x > 2` and not `n = 4`.
abbrev clause : Formula
clause =
    neg (conj (cons (gt (variable x) (constant 2)) (cons (neg (eq (variable n) (constant 4))) nil)))

eval-nnf_example : eval semantics (convert plain clause true) point ≡ eval semantics clause point
eval-nnf_example = eval-nnf semantics plain (plain_means semantics) clause true point

convert-IsNnf_example : IsNnf true (convert plain clause true)
convert-IsNnf_example = convert-IsNnf plain plain_builds clause true

converted :
    convert plain clause true
    ≡ disj (cons (leq (variable x) (constant 2)) (cons (eq (variable n) (constant 4)) nil))
unfolding convert visit visit_relation
converted = refl

-- `n = 4`, or `x > 2` and for all `x`, `x` is not 2.
abbrev nested : Formula
nested = disj (
    cons (eq (variable n) (constant 4)) (
      cons
        (conj (
          cons (gt (variable x) (constant 2))
            (cons (forall (x ∷ []) (neg (eq (variable x) (constant 2)))) nil)))
        nil))

shallow : depth nested < 2
unfolding depth
shallow = omega arith

eval-convert_example :
    (g : Formula) × (NaiveCnfizer.convert plain 2 nested ≡ some g)
    × ((ρ : ℕ → ℕ) → eval semantics g ρ ≡ eval semantics nested ρ)
eval-convert_example =
    eval-convert semantics plain (plain_means semantics) plain_builds 2 nested shallow
