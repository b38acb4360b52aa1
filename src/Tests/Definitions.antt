-- ===== src/Tests/Definitions.antt =====
-- Environments with truth values apart from the numbers, and a formula whose connectives are named.
use d_real_cmake.Prelude.{
  ℕ, [], ◌∷◌, ◌≡◌, ◌≤◌, refl, arith, Bool, true, false, ◌&&◌, List, some, if◌then◌else◌, ◌==◌,
}
use d_real_cmake.Symbolic.Syntax.{
  Variable, boolean, variable, constant, Formula, var, gt, leq, conj, disj, neg, forall, cons, nil,
}
use d_real_cmake.Symbolic.Meaning.{Semantics, eval}
use d_real_cmake.Symbolic.Builder.{plain}
use d_real_cmake.Transform.NaiveCnfizer.Depth.{depth}
use d_real_cmake.Transform.Nnfizer
use d_real_cmake.Transform.NaiveCnfizer
use d_real_cmake.Transform.Clauses.{
  is_atomic, get_clauses, all_clauses, is_clause, all_atomic, imply, is_relational, is_variable,
  map_negation,
}
use d_real_cmake.Transform.Tseitin.{
  boolean_variable, visit, all_same, name_clauses, quantify_clauses, finish, define, emplace,
  advance, add, add_each, add_iff, cnfize_conjunction, cnfize_negation, collect, each_add, emit,
  push_head, convert, cnfize, cnfize_disjunction,
}
use d_real_cmake.Transform.Tseitin.Cnfize.{eval_clauses, same, eval-cnfize}
use d_real_cmake.Transform.Tseitin.Fresh.{Assigns, Below}
use d_real_cmake.Transform.Tseitin.Meaning.{Quantifies}
use d_real_cmake.Transform.Tseitin.Models.{convert-Equisatisfiable}
use d_real_cmake.Tests.Instances.{numbers, value, plain_means, plain_builds, x}

-- A quantifier asks for the formula at the numbers there are.
abbrev pub valuations : Semantics
valuations = record {
  numbers = numbers;
  Env = (ℕ → ℕ) × (ℕ → Bool);
  truth = λ ρ b. ρ.1 b.id;
  value = λ ρ e. value ρ.0 e;
  all = λ vs p ρ. p ρ;
  all_times = λ k p ρ. p ρ;
  flows = λ k ρ. true;
}

abbrev pub update : (ℕ → Bool) → ℕ → Bool → ℕ → Bool
update t i v j = if j == i then v else t j

pub assigns : Assigns valuations
assigns = record {
  assign = λ ρ b v. (ρ.0, update ρ.1 b.id v);
  truth-assign = λ ρ b v. ground arith;
  truth_other = λ ρ b c v h. ground arith;
  value-assign = λ ρ b v e. refl;
  all-assign = λ ρ b v vs p h. refl;
  all_times-assign = λ ρ b v k p. refl;
  flows-assign = λ ρ b v k. refl;
}

abbrev mentions : Formula → List Variable → Bool
mentions f [] = false
mentions f (v ∷ vs) = true

pub quantifies : Quantifies valuations mentions
quantifies = record {
  all_true = λ vs ρ. refl;
  all_and = λ vs p q ρ. refl;
  all_unused = λ vs f ρ h. refl;
}

abbrev pub p : Variable
p = record { id = 2; kind = boolean }

-- `p`, or not both `x > 2` and for all `x`, `x ≤ 4` and `p`.
abbrev named : Formula
named = disj (
    cons (var p) (
      cons
        (neg (
          conj (
            cons (gt (variable x) (constant 2)) (
              cons
                (forall (x ∷ []) (conj (cons (leq (variable x) (constant 4)) (cons (var p) nil))))
                nil))))
        nil))

named-Below : Below 5 named
unfolding Below
named-Below = (omega arith, ((tt, (((omega arith, tt), (tt, (omega arith, tt))), tt)), tt))

named_shallow : depth named ≤ 1
unfolding depth
named_shallow = omega arith

abbrev first : Formula
first = gt (variable x) (constant 2)

abbrev second : Formula
second = forall (x ∷ []) (leq (variable x) (constant 4))

abbrev third : Formula
third = forall (x ∷ []) (var p)

abbrev bvar : ℕ → Formula
bvar i = var (boolean_variable i)

-- Number 5 is the negation, 6 the quantified conjunction and 7 the inner conjunction.
abbrev named_clauses : List Formula
named_clauses =
    plain.either (neg (bvar 5)) (neg (bvar 7))
    ∷ plain.either (neg (neg (bvar 7))) (bvar 5)
    ∷ plain.either (neg (bvar 6)) second
    ∷ plain.either (neg (bvar 6)) third
    ∷ plain.either (plain.either (neg second) (neg third)) (bvar 6)
    ∷ plain.either (neg (bvar 7)) first
    ∷ plain.either (neg (bvar 7)) (bvar 6)
    ∷ plain.either (plain.either (neg first) (neg (bvar 6))) (bvar 7)
    ∷ plain.either (var p) (bvar 5)
    ∷ []

named_result : convert plain mentions 1 5 named ≡ some (named_clauses, 9)
unfolding convert visit is_atomic get_clauses all_clauses is_clause name_clauses quantify_clauses
    finish define emplace advance all_same all_atomic imply is_relational is_variable map_negation
    NaiveCnfizer.append NaiveCnfizer.clauses NaiveCnfizer.disjoin NaiveCnfizer.each_or
    NaiveCnfizer.operands NaiveCnfizer.or_all NaiveCnfizer.or_each NaiveCnfizer.convert
    NaiveCnfizer.visit Nnfizer.convert Nnfizer.visit Nnfizer.visit_relation Nnfizer.visit_leaf add
    add_each add_iff cnfize cnfize_conjunction cnfize_disjunction cnfize_negation collect each_add
    emit push_head
named_result = refl

convert-Equisatisfiable_example :
    ((ρ : valuations.Env)
      → eval_clauses valuations named_clauses ρ ≡ true
      → eval valuations named ρ ≡ true)
    × ((ρ : valuations.Env)
        → eval valuations named ρ ≡ true
        → (σ : valuations.Env) × ((g : Formula)
            → Below 5 g
            → eval valuations g σ ≡ eval valuations g ρ)
          × (eval_clauses valuations named_clauses σ ≡ true))
convert-Equisatisfiable_example =
    convert-Equisatisfiable valuations plain (plain_means valuations) plain_builds mentions
      quantifies assigns 1 5 9 named named_clauses named-Below named_shallow named_result

abbrev numbered : valuations.Env
numbered = (λ i. 6, λ i. true)

cnfize_result :
    cnfize plain p (disj (cons first (cons (bvar 5) nil))) []
    ≡ some (cnfize_disjunction plain p (cons first (cons (bvar 5) nil)) [])
unfolding cnfize
cnfize_result = refl

eval-cnfize_example :
    eval_clauses valuations
      (cnfize_disjunction plain p (cons first (cons (bvar 5) nil)) [])
      numbered
    ≡ (true && same true (eval valuations (disj (cons first (cons (bvar 5) nil))) numbered))
unfolding same eval_clauses
eval-cnfize_example =
    eval-cnfize valuations plain (plain_means valuations) p (disj (cons first (cons (bvar 5) nil)))
      [] _ numbered (cnfize_result)
