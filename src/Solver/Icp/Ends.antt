-- ===== src/Solver/Icp/Ends.antt =====
-- The loop ends, and how: enough fuel, and the box that it leaves in the status.
use d_real_cmake.Prelude.{
  ℕ, zero, suc, ◌+◌, ◌≤◌, ◌<◌, ◌≡◌, refl, inl, inr, Bool, true, false, List, [], ◌∷◌, Option, none,
  some, arith, Bool-cases,
}
use d_real_cmake.Symbolic.Numbers.{Numbers}
use d_real_cmake.Box.Interval.{Intervals}
use d_real_cmake.Box.{Box, empty}
use d_real_cmake.Contractor.Status.{ContractorStatus}
use d_real_cmake.Solver.Evaluate.{no_bit_set}
use d_real_cmake.Solver.Icp.{
  Parts, Stack, Next, found, again, push_children, branch, decide, round, loop, initial_stack,
  check_sat,
}

-- The rounds that a box of a size can take: itself, and those of two smaller boxes.
unfoldable pub cost : ℕ → ℕ
cost zero = 1
cost (suc n) = 1 + cost n + cost n

cost_mono : (m n : ℕ) → m ≤ n → cost m ≤ cost n
unfolding cost
cost_mono zero zero h = omega arith
cost_mono zero (suc n) h = omega (arith, cost_mono zero n (omega arith))
cost_mono (suc m) zero h = absurd (omega arith)
cost_mono (suc m) (suc n) h = omega (arith, cost_mono m n (omega arith))

cost-pos : (n : ℕ) → 1 ≤ cost n
unfolding cost
cost-pos zero = omega arith
cost-pos (suc n) = omega arith

cost_halves : (l r n : ℕ) → l < n → r < n → 1 + cost l + cost r ≤ cost n
unfolding cost
cost_halves l r zero h k = absurd (omega arith)
cost_halves l r (suc n) h k =
    omega (arith, cost_mono l n (omega arith), cost_mono r n (omega arith))

-- A measure of boxes that pruning does not raise and branching lowers, as the number of doubles in
-- the box does.
pub record Shrinks {N : Numbers} (I : Intervals N) (P : Parts I) (size : Box I → ℕ) : Type 0 where
  pub prune_size : (cs : ContractorStatus I) → size (P.prune cs).box ≤ size cs.box
  pub branch_size :
      (box : Box I) (bits : List Bool) (dim : ℕ) (left right : Box I)
      → P.brancher box bits ≡ some (dim, left, right)
      → (size left < size box) × (size right < size box)

module _ {N : Numbers} (I : Intervals N) (P : Parts I) (size : Box I → ℕ) where
  unfoldable pub weight : Stack I → ℕ
  weight [] = 0
  weight ((box, point) ∷ stack) = cost (size box) + weight stack

  abbrev Lighter : ℕ → Next I → Type 0
  Lighter n (found cs) = Unit
  Lighter n (again left stack cs) = weight stack < n

  weight-push_children :
      (left : Bool) (dim : ℕ) (l r : Box I) (stack : Stack I)
      → weight (push_children I left dim l r stack) ≡ cost (size l) + cost (size r) + weight stack
  unfolding push_children weight
  weight-push_children true dim l r stack = omega arith
  weight-push_children false dim l r stack = omega arith

  module _ (H : Shrinks I P size) where
    Lighter-branch :
        (left : Bool) (stack : Stack I) (cs : ContractorStatus I) (box : Box I) (bits : List Bool)
        (n : ℕ) (o : Option (ℕ × Box I × Box I))
        → P.brancher box bits ≡ o
        → cost (size box) + weight stack ≤ n
        → Lighter n (branch I P left stack cs o)
    unfolding branch
    Lighter-branch left stack cs box bits n none e h = tt
    Lighter-branch left stack cs box bits n (some (dim, l, r)) e h =
        let (a, b) = H.branch_size box bits dim l r e in
        omega (
          arith,
          weight-push_children left dim l r stack,
          cost_halves (size l) (size r) (size box) a b,
        )

    Lighter-decide :
        (left : Bool) (stack : Stack I) (box : Box I) (n : ℕ)
        → cost (size box) + weight stack ≤ n
        → (v : Option (List Bool) × ContractorStatus I) → Lighter n (decide I P left stack box v)
    unfolding decide
    Lighter-decide left stack box n h (none, cs) = omega (arith, cost-pos (size box))
    Lighter-decide left stack box n h (some bits, cs) = elim (Bool-cases (no_bit_set bits)) [
      | inl q ↦ rw q tt
      | inr q ↦ rw q (Lighter-branch left stack cs box bits n _ refl h)
    ]

    Lighter-round :
        (left : Bool) (box : Box I) (point : Option ℕ) (stack : Stack I) (cs : ContractorStatus I)
        → Lighter (cost (size box) + weight stack) (round I P left box point stack cs)
    unfolding round
    Lighter-round left box point stack cs =
        let start : ContractorStatus I = record cs { box = box; branching_point = point } in
        let pruned = P.prune start in
        let small : cost (size pruned.box) ≤ cost (size box) = cost_mono _ _ (H.prune_size start) in
        elim (Bool-cases (empty I pruned.box)) [
          | inl q ↦ rw q (omega (arith, cost-pos (size box)))
          | inr q ↦ rw q (Lighter-decide left stack pruned.box _ (omega arith) _)
        ]

    loop_ends :
        (fuel : ℕ) (left : Bool) (stack : Stack I) (cs : ContractorStatus I)
        → weight stack < fuel
        → (b : Bool) × (end : ContractorStatus I) × (loop I P fuel left stack cs ≡ some (b, end))
    unfolding loop weight
    loop_ends zero left stack cs h = absurd (omega arith)
    loop_ends (suc fuel) left [] cs h = (false, cs, refl)
    loop_ends (suc fuel) left ((box, point) ∷ stack) cs h =
        step (round I P left box point stack cs) refl (Lighter-round left box point stack cs)
          (loop_ends fuel)
      where
        step :
            (n : Next I)
            → round I P left box point stack cs ≡ n
            → Lighter (cost (size box) + weight stack) n
            → ((left' : Bool) (stack' : Stack I) (cs' : ContractorStatus I)
                → weight stack' < fuel
                → (b : Bool) × (end : ContractorStatus I) × (loop I P fuel left' stack' cs'
                    ≡ some (b, end)))
            → (b : Bool) × (end : ContractorStatus I) × (loop I P
                  (suc fuel)
                  left
                  ((box, point) ∷ stack)
                  cs
                ≡ some (b, end))
        step (found cs') q l go = (true, cs', rw (q, loop) refl)
        step (again left' stack' cs') q l go =
            let (b, end, e) = go left' stack' cs' (omega arith) in (b, end, rw (q, loop) e)

-- If some measure of boxes is not raised by pruning and is lowered by branching, the search ends
-- with an answer on every input, given fuel above the weight of the boxes that it starts with.
pub check_sat_ends :
    {N : Numbers} (I : Intervals N) (P : Parts I) (size : Box I → ℕ)
    → Shrinks I P size
    → (fuel : ℕ) (cs : ContractorStatus I) → weight I P size (initial_stack I P cs) < fuel
    → (b : Bool) × (end : ContractorStatus I) × (check_sat I P fuel cs ≡ some (b, end))
unfolding check_sat
check_sat_ends I P size H fuel cs h = loop_ends I P size H fuel _ (initial_stack I P cs) cs h
