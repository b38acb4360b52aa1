-- ===== src/Solver/Evaluate.antt =====
-- src/dreal/solver/icp.cc, `EvaluateBox`, over the evaluators of src/dreal/solver/
-- formula_evaluator.h: whether a box may hold a solution, and on which variables to branch.
pub mod Verdicts
pub mod Candidates
pub mod Wanted
use d_real_cmake.Prelude.{
  ℕ, Bool, true, false, not, List, [], ◌∷◌, Option, none, some, if◌then◌else◌, ◌||◌, ◌&&◌, set,
}
use d_real_cmake.Symbolic.Syntax.{Variable, Formula, Double}
use d_real_cmake.Symbolic.Numbers.{Numbers, le_double}
use d_real_cmake.Box.Interval.{Intervals}
use d_real_cmake.Box.{Box, index, set_empty}
use d_real_cmake.Contractor.Status.{ContractorStatus, no_bits, add_used_constraint}

-- `DynamicBitset::none`
unfoldable pub no_bit_set : List Bool → Bool
no_bit_set [] = true
no_bit_set (b ∷ bs) = not b && no_bit_set bs

module _ {N : Numbers} (I : Intervals N) where
  -- The kind of a result, with the interval where the code reads it.
  pub data Evaluation : Type 0 where
    valid unsat : Evaluation
    unknown : I.Interval → Evaluation

  -- An evaluator is a parameter of the loop: the cell behind it evaluates with interval arithmetic.
  pub record FormulaEvaluator : Type 0 where
    pub evaluate : Box I → Evaluation
    pub formula : Formula
    pub variables : List Variable
    pub is_simple_relational : Bool
    pub is_neq : Bool

  -- `for (v : variables()) branching_candidates.set(box.index(v))`
  unfoldable pub set_candidates : Box I → List Variable → List Bool → List Bool
  set_candidates box [] bits = bits
  set_candidates box (v ∷ vs) bits = set_candidates box vs (set bits (index box.variables v) true)

  abbrev pub Verdict : Type 0
  Verdict = Option (List Bool) × ContractorStatus I

  module _ (free_variables : Formula → List Variable) where
    evaluate_rest :
        (precision : Double)
        → Box I
        → List FormulaEvaluator
        → List Bool
        → ContractorStatus I
        → Verdict
    evaluate_rest precision box [] bits cs = (some bits, cs)
    evaluate_rest precision box (e ∷ es) bits cs = elim (e.evaluate box) [
      | unsat ↦ (
        none,
        add_used_constraint free_variables e.formula (record cs { box = set_empty I cs.box }),
      )
      | valid ↦ evaluate_rest precision box es bits cs
      | unknown evaluation ↦
          evaluate_rest precision box es
            (if not (le_double N (I.diam evaluation) precision)
              then (if e.is_simple_relational || e.is_neq
                  then bits
                  else set_candidates box e.variables bits)
              else bits)
            cs
    ]

    unfoldable pub evaluate_box :
        List FormulaEvaluator → Box I → Double → ContractorStatus I → Verdict
    unfolding evaluate_rest
    evaluate_box es box precision cs = evaluate_rest precision box es (no_bits box.variables) cs
