-- ===== src/Solver/Icp/Sound.antt =====
-- The loop loses no solution.
use d_real_cmake.Prelude.{
  ℕ, zero, suc, ◌≡◌, refl, ◌⊎◌, inl, inr, Bool, true, false, List, [], ◌∷◌, ◌++◌, Option, none,
  some, All, Bool-cases,
}
use d_real_cmake.Symbolic.Numbers.{Numbers}
use d_real_cmake.Box.Interval.{Intervals}
use d_real_cmake.Box.{Box, empty}
use d_real_cmake.Box.Points.{Inside, not-Inside-empty}
use d_real_cmake.Contractor.Status.{ContractorStatus}
use d_real_cmake.Solver.Evaluate.{unsat, no_bit_set}
use d_real_cmake.Solver.Evaluate.Verdicts.{not_refuted}
use d_real_cmake.Solver.Icp.{
  Parts, Stack, Next, found, again, push_children, branch, decide, round, loop, initial_stack,
  check_sat,
}

-- What the loop needs of its parts, for one point: the contractor does not cut the point off, no
-- evaluator refutes a box that holds it, and the brancher's halves cover it.
pub record Respects {N : Numbers} (I : Intervals N) (P : Parts I) (p : ℕ → N.Real) : Type 0 where
  pub prune_keeps : (cs : ContractorStatus I) → Inside I p cs.box → Inside I p (P.prune cs).box
  pub not_refuted :
      (box : Box I) → Inside I p box → All (λ e. ¬ (e.evaluate box ≡ unsat)) P.evaluators
  pub covers :
      (box : Box I) (bits : List Bool) (dim : ℕ) (left right : Box I)
      → P.brancher box bits ≡ some (dim, left, right)
      → Inside I p box
      → Inside I p left ⊎ Inside I p right

module _ {N : Numbers} (I : Intervals N) (P : Parts I) (p : ℕ → N.Real) where
  abbrev pub OnStack : Stack I → Type 0
  OnStack [] = ⊥
  OnStack ((box, point) ∷ stack) = Inside I p box ⊎ OnStack stack

  -- A point is still to be explored after a round that goes on.
  abbrev pub Pending : Next I → Type 0
  Pending (found cs) = Unit
  Pending (again left stack cs) = OnStack stack

  pending_children :
      (left : Bool) (dim : ℕ) (l r : Box I) (stack : Stack I)
      → (Inside I p l ⊎ Inside I p r) ⊎ OnStack stack
      → OnStack (push_children I left dim l r stack)
  unfolding push_children
  pending_children true dim l r stack (inl (inl w)) = inl w
  pending_children true dim l r stack (inl (inr w)) = inr (inl w)
  pending_children true dim l r stack (inr h) = inr (inr h)
  pending_children false dim l r stack (inl (inl w)) = inr (inl w)
  pending_children false dim l r stack (inl (inr w)) = inl w
  pending_children false dim l r stack (inr h) = inr (inr h)

  rest_branch :
      (left : Bool) (stack : Stack I) (cs : ContractorStatus I)
      → OnStack stack
      → (o : Option (ℕ × Box I × Box I)) → Pending (branch I P left stack cs o)
  unfolding branch
  rest_branch left stack cs h none = tt
  rest_branch left stack cs h (some (dim, l, r)) = pending_children left dim l r stack (inr h)

  rest_decide :
      (left : Bool) (stack : Stack I) (box : Box I)
      → OnStack stack
      → (v : Option (List Bool) × ContractorStatus I) → Pending (decide I P left stack box v)
  unfolding decide
  rest_decide left stack box h (none, cs) = h
  rest_decide left stack box h (some bits, cs) = elim (Bool-cases (no_bit_set bits)) [
    | inl q ↦ rw q tt
    | inr q ↦ rw q (rest_branch left stack cs h (P.brancher box bits))
  ]

  rest_round :
      (left : Bool) (box : Box I) (point : Option ℕ) (stack : Stack I) (cs : ContractorStatus I)
      → OnStack stack
      → Pending (round I P left box point stack cs)
  unfolding round
  rest_round left box point stack cs h =
      let pruned = P.prune (record cs { box = box; branching_point = point }) in
      elim (Bool-cases (empty I pruned.box)) [
        | inl q ↦ rw q h
        | inr q ↦ rw q (rest_decide left stack pruned.box h _)
      ]

  module _ (R : Respects I P p) where
    box_branch :
        (left : Bool) (stack : Stack I) (cs : ContractorStatus I) (box : Box I) (bits : List Bool)
        → Inside I p box
        → (o : Option (ℕ × Box I × Box I)) → P.brancher box bits ≡ o
        → Pending (branch I P left stack cs o)
    unfolding branch
    box_branch left stack cs box bits w none e = tt
    box_branch left stack cs box bits w (some (dim, l, r)) e =
        pending_children left dim l r stack (inl (R.covers box bits dim l r e w))

    box_round :
        (left : Bool) (box : Box I) (point : Option ℕ) (stack : Stack I) (cs : ContractorStatus I)
        → Inside I p box
        → Pending (round I P left box point stack cs)
    unfolding round decide
    box_round left box point stack cs h =
        let start : ContractorStatus I = record cs { box = box; branching_point = point } in
        let pruned = P.prune start in
        let w = R.prune_keeps start h in
        let (bits, e) =
          not_refuted I P.free_variables P.precision pruned.box P.evaluators pruned
            (R.not_refuted pruned.box w) in
        elim (Bool-cases (empty I pruned.box)) [
          | inl q ↦ absurd (not-Inside-empty I p pruned.box q w)
          | inr q ↦
              rw (q, e)
                (elim (Bool-cases (no_bit_set bits)) [
                  | inl n ↦ rw n tt
                  | inr n ↦ rw n (box_branch left stack pruned pruned.box bits w _ refl)
                ])
        ]

    Next-cases :
        (n : Next I)
        → ((cs : ContractorStatus I) × (n ≡ found cs))
          ⊎ ((left : Bool) × (stack : Stack I) × (cs : ContractorStatus I) × (n
                ≡ again left stack cs))
    Next-cases (found cs) = inl (cs, refl)
    Next-cases (again left stack cs) = inr (left, stack, cs, refl)

    Pending-round :
        (left : Bool) (box : Box I) (point : Option ℕ) (stack : Stack I) (cs : ContractorStatus I)
        → OnStack ((box, point) ∷ stack)
        → Pending (round I P left box point stack cs)
    Pending-round left box point stack cs (inl w) = box_round left box point stack cs w
    Pending-round left box point stack cs (inr h) = rest_round left box point stack cs h

    loop_finds :
        (fuel : ℕ) (left : Bool) (stack : Stack I) (cs end : ContractorStatus I)
        → loop I P fuel left stack cs ≡ some (false, end)
        → ¬ OnStack stack
    unfolding loop
    loop_finds zero left stack cs end e h = cc
    loop_finds (suc fuel) left [] cs end e h = h
    loop_finds (suc fuel) left ((box, point) ∷ stack) cs end e h =
        let n = Pending-round left box point stack cs h in
        elim (Next-cases (round I P left box point stack cs)) [
          | inl (cs', q) ↦
              let e' : ◌≡◌ {A = Option (Bool × ContractorStatus I)} (some (true, cs'))
                  (some (false, end)) =
                rw (q, loop) at e in
              cc
          | inr (left', stack', cs', q) ↦
              loop_finds fuel left' stack' cs' end (rw (q, loop) at e) (rw q at n)
        ]

    OnStack-root :
        (xs : Stack I) (box : Box I) → Inside I p box → OnStack (xs ++ ((box, none) ∷ []))
    OnStack-root [] box w = inl w
    OnStack-root (x ∷ xs) box w = inr (OnStack-root xs box w)

-- When the search answers that there is no solution, the box holds no point that its parts respect:
-- no solution is lost, whatever boxes the seed pass adds, whichever child is explored first and
-- whichever variables are branched on.
pub check_sat_sound :
    {N : Numbers} (I : Intervals N) (P : Parts I) (p : ℕ → N.Real)
    → Respects I P p
    → (fuel : ℕ) (cs end : ContractorStatus I) → check_sat I P fuel cs ≡ some (false, end)
    → ¬ Inside I p cs.box
unfolding check_sat initial_stack
check_sat_sound I P p R fuel cs end e w =
    loop_finds I P p R fuel _ _ cs end e (OnStack-root I P p R _ cs.box w)
