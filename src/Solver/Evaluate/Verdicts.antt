-- ===== src/Solver/Evaluate/Verdicts.antt =====
-- What a verdict of `evaluate_box` says of the evaluators.
use d_real_cmake.Prelude.{◌≡◌, refl, ◌⊎◌, inl, inr, Bool, true, List, [], ◌∷◌, some, ◌||◌, All}
use d_real_cmake.Symbolic.Syntax.{Variable, Formula, Double}
use d_real_cmake.Symbolic.Numbers.{Numbers, le_double}
use d_real_cmake.Box.Interval.{Intervals}
use d_real_cmake.Box.{Box}
use d_real_cmake.Contractor.Status.{ContractorStatus, no_bits}
use d_real_cmake.Solver.Evaluate.{
  Evaluation, valid, unsat, unknown, FormulaEvaluator, evaluate_rest, evaluate_box,
}

module _ {N : Numbers} (I : Intervals N) where
  pub Evaluation-cases :
      (r : Evaluation I) → (r ≡ valid) ⊎ (r ≡ unsat) ⊎ ((i : I.Interval) × (r ≡ unknown i))
  Evaluation-cases valid = inl refl
  Evaluation-cases unsat = inr (inl refl)
  Evaluation-cases (unknown i) = inr (inr (i, refl))

  -- The evaluator finds no reason to branch: it is certain, or uncertain within the precision, or
  -- of a kind whose variables are not branched on.
  abbrev pub Settled : Double → Box I → FormulaEvaluator I → Type 0
  Settled precision box e =
      (e.evaluate box ≡ valid)
      ⊎ ((i : I.Interval) × (e.evaluate box ≡ unknown i)
          × ((le_double N (I.diam i) precision ≡ true)
              ⊎ ((e.is_simple_relational || e.is_neq) ≡ true)))

  module _ (free_variables : Formula → List Variable) (precision : Double) (box : Box I) where
    -- With no evaluator that refutes the box there is a verdict, and the status is as it was.
    rest_not_refuted :
        (es : List (FormulaEvaluator I)) (bits : List Bool) (cs : ContractorStatus I)
        → All (λ e. ¬ (e.evaluate box ≡ unsat)) es
        → (bits' : List Bool) × (evaluate_rest I free_variables precision box es bits cs
            ≡ (some bits', cs))
    unfolding evaluate_rest
    rest_not_refuted [] bits cs h = (bits, refl)
    rest_not_refuted (e ∷ es) bits cs h = elim (Evaluation-cases (e.evaluate box)) [
      | inl q ↦ rw q (rest_not_refuted es bits cs h.1)
      | inr (inl q) ↦ absurd (h.0 q)
      | inr (inr (i, q)) ↦ rw q (rest_not_refuted es _ cs h.1)
    ]

    -- If no evaluator refutes the box, the verdict is a set of candidates, and the status is
    -- left as it was.
    pub not_refuted :
        (es : List (FormulaEvaluator I)) (cs : ContractorStatus I)
        → All (λ e. ¬ (e.evaluate box ≡ unsat)) es
        → (bits : List Bool) × (evaluate_box I free_variables es box precision cs ≡ (some bits, cs))
    unfolding evaluate_box
    not_refuted es cs h = rest_not_refuted es (no_bits box.variables) cs h
