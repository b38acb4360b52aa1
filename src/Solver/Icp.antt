-- ===== src/Solver/Icp.antt =====
-- src/dreal/solver/icp_seq.cc: branch and prune on a stack of boxes. The contractor, the brancher
-- and the boxes of the seed pass are parameters; the loop takes fuel, `none` is its end.
pub mod Sound
pub mod Ends
pub mod Found
use d_real_cmake.Prelude.{
  ℕ, zero, suc, Bool, true, false, not, List, [], ◌∷◌, ◌++◌, map, Option, none, some, if◌then◌else◌,
  ◌||◌, ◌&&◌, Bool-cases,
}
use mathlib.Core.List.{reverse}
use d_real_cmake.Symbolic.Syntax.{Variable, Formula, Double}
use d_real_cmake.Symbolic.Numbers.{Numbers}
use d_real_cmake.Box.Interval.{Intervals}
use d_real_cmake.Box.{Box, empty}
use d_real_cmake.Contractor.Status.{ContractorStatus}
use d_real_cmake.Solver.Evaluate.{FormulaEvaluator, evaluate_box, no_bit_set}

module _ {N : Numbers} (I : Intervals N) where
  -- The dimension and the two halves; `none` for the source's -1.
  abbrev pub Brancher : Type 0
  Brancher = Box I → List Bool → Option (ℕ × Box I × Box I)

  -- The top of the stack is the head.
  abbrev pub Stack : Type 0
  Stack = List (Box I × Option ℕ)

  pub record Parts : Type 0 where
    pub free_variables : Formula → List Variable
    pub prune : ContractorStatus I → ContractorStatus I
    pub evaluators : List (FormulaEvaluator I)
    pub precision : Double
    pub brancher : Brancher
    pub seed_boxes : Box I → List (Box I)
    pub seeds_enabled : Bool
    pub stack_left_box_first : Bool

  -- The child explored first is pushed last.
  unfoldable pub push_children : Bool → ℕ → Box I → Box I → Stack → Stack
  push_children explore_left_first dim left right stack =
      if explore_left_first
      then (left, some dim) ∷ (right, some dim) ∷ stack
      else (right, some dim) ∷ (left, some dim) ∷ stack

  -- What the loop does after one box.
  pub data Next : Type 0 where
    found : ContractorStatus I → Next
    again : Bool → Stack → ContractorStatus I → Next

  module _ (P : Parts) where
    branch : Bool → Stack → ContractorStatus I → Option (ℕ × Box I × Box I) → Next
    branch explore_left_first stack cs none = found cs
    branch explore_left_first stack cs (some (dim, left, right)) =
        again (not explore_left_first) (push_children explore_left_first dim left right stack) cs

    decide : Bool → Stack → Box I → Option (List Bool) × ContractorStatus I → Next
    decide explore_left_first stack box (none, cs) = again explore_left_first stack cs
    decide explore_left_first stack box (some bits, cs) =
        if no_bit_set bits
        then found cs
        else branch explore_left_first stack cs (P.brancher box bits)

    -- One round of the loop, with the box and the branching point popped.
    unfoldable pub round : Bool → Box I → Option ℕ → Stack → ContractorStatus I → Next
    unfolding decide branch
    round explore_left_first box point stack cs =
        let pruned = P.prune (record cs { box = box; branching_point = point }) in
        if empty I pruned.box
        then again explore_left_first stack pruned
        else decide explore_left_first stack pruned.box
            (evaluate_box I P.free_variables P.evaluators pruned.box P.precision pruned)

    unfoldable pub loop : ℕ → Bool → Stack → ContractorStatus I → Option (Bool × ContractorStatus I)
    loop zero left stack cs = none
    loop (suc fuel) left [] cs = some (false, cs)
    loop (suc fuel) left ((box, point) ∷ stack) cs = elim (round left box point stack cs) [
      | found cs' ↦ some (true, cs')
      | again left' stack' cs' ↦ loop fuel left' stack' cs'
    ]

    -- `stack.emplace_back` of the root, then of each seed box.
    unfoldable pub initial_stack : ContractorStatus I → Stack
    initial_stack cs =
        (if P.seeds_enabled then reverse (map (λ b. (b, none)) (P.seed_boxes cs.box)) else [])
        ++ ((cs.box, none) ∷ [])

    unfoldable pub check_sat : ℕ → ContractorStatus I → Option (Bool × ContractorStatus I)
    unfolding loop
    check_sat fuel cs = loop fuel (not P.stack_left_box_first) (initial_stack cs) cs
