-- ===== src/Solver/Icp/Found.antt =====
-- What a positive answer of the search says.
use d_real_cmake.Prelude.{
  ℕ, zero, suc, ◌≡◌, refl, subst, ◌∙◌, ap, ◌⊎◌, inl, inr, Bool, true, false, List, [], ◌∷◌, Option,
  none, some, All, Bool-cases,
}
use d_real_cmake.Symbolic.Numbers.{Numbers}
use d_real_cmake.Box.Interval.{Intervals}
use d_real_cmake.Box.{Box, empty}
use d_real_cmake.Contractor.Status.{ContractorStatus}
use d_real_cmake.Solver.Evaluate.{evaluate_box, no_bit_set}
use d_real_cmake.Solver.Evaluate.Verdicts.{Settled}
use d_real_cmake.Solver.Evaluate.Candidates.{Ranged, evaluate_box-Settled, evaluate_box_same}
use d_real_cmake.Solver.Icp.{
  Parts, Stack, Next, found, again, branch, decide, round, loop, check_sat,
}

module _ {N : Numbers} (I : Intervals N) (P : Parts I) where
  -- The evaluation of the status's box leaves candidates, and with these, the brancher finds no
  -- variable to bisect.
  abbrev pub Unbranched : ContractorStatus I → Type 0
  Unbranched end =
      (bits : List Bool) × (evaluate_box I P.free_variables P.evaluators end.box P.precision end
        ≡ (some bits, end))
      × (no_bit_set bits ≡ false)
      × (P.brancher end.box bits ≡ none)

  -- The box is not empty, and either all evaluators are settled on it or it cannot be branched.
  abbrev pub IsDeltaBox : ContractorStatus I → Type 0
  IsDeltaBox end =
      (empty I end.box ≡ false)
      × (All (Settled I P.precision end.box) P.evaluators ⊎ Unbranched end)

  -- The box is not empty in any case.
  abbrev Answered : ContractorStatus I → Type 0
  Answered end =
      (empty I end.box ≡ false)
      × (All (Ranged I end.box) P.evaluators
          → All (Settled I P.precision end.box) P.evaluators ⊎ Unbranched end)

  abbrev Good : Next I → Type 0
  Good (found cs) = Answered cs
  Good (again left stack cs) = Unit

  Good-branch :
      (left : Bool) (stack : Stack I) (cs : ContractorStatus I) (bits : List Bool)
      (o : Option (ℕ × Box I × Box I))
      → P.brancher cs.box bits ≡ o
      → empty I cs.box ≡ false
      → evaluate_box I P.free_variables P.evaluators cs.box P.precision cs ≡ (some bits, cs)
      → no_bit_set bits ≡ false
      → Good (branch I P left stack cs o)
  unfolding branch
  Good-branch left stack cs bits none e h v n = (h, λ r. inr (bits, v, n, e))
  Good-branch left stack cs bits (some (dim, l, r)) e h v n = tt

  Good-decide :
      (left : Bool) (stack : Stack I) (cs : ContractorStatus I)
      (v : Option (List Bool) × ContractorStatus I)
      → evaluate_box I P.free_variables P.evaluators cs.box P.precision cs ≡ v
      → empty I cs.box ≡ false
      → Good (decide I P left stack cs.box v)
  unfolding decide
  Good-decide left stack cs (none, cs') e h = tt
  Good-decide left stack cs (some bits, cs') e h =
      let same =
        evaluate_box_same I cs.box P.free_variables P.precision P.evaluators bits cs cs' e in
      let value : evaluate_box I P.free_variables P.evaluators cs.box P.precision cs
          ≡ (some bits, cs) =
        e ∙ ap (λ (c : ContractorStatus I). (some bits, c)) same in
      elim (Bool-cases (no_bit_set bits)) [
        | inl q ↦
            rw (q, same)
              (
                h,
                λ r. inl (
                    evaluate_box-Settled I cs.box P.free_variables P.precision P.evaluators bits cs
                      cs' r e q),
              )
        | inr q ↦ rw (q, same) (Good-branch left stack cs bits _ refl h value q)
      ]

  Good-round :
      (left : Bool) (box : Box I) (point : Option ℕ) (stack : Stack I) (cs : ContractorStatus I)
      → Good (round I P left box point stack cs)
  unfolding round
  Good-round left box point stack cs =
      let pruned = P.prune (record cs { box = box; branching_point = point }) in
      elim (Bool-cases (empty I pruned.box)) [
        | inl q ↦ rw q tt
        | inr q ↦ rw q (Good-decide left stack pruned _ refl q)
      ]

  good_loop :
      (fuel : ℕ) (left : Bool) (stack : Stack I) (cs end : ContractorStatus I)
      → loop I P fuel left stack cs ≡ some (true, end)
      → Answered end
  unfolding loop
  good_loop zero left stack cs end e = cc
  good_loop (suc fuel) left [] cs end e = cc
  good_loop (suc fuel) left ((box, point) ∷ stack) cs end e =
      step (round I P left box point stack cs) refl (Good-round left box point stack cs)
        (good_loop fuel)
    where
      step :
          (n : Next I)
          → round I P left box point stack cs ≡ n
          → Good n
          → ((left' : Bool) (stack' : Stack I) (cs' end' : ContractorStatus I)
              → loop I P fuel left' stack' cs' ≡ some (true, end')
              → Answered end')
          → Answered end
      step (found cs') q g go =
          let e' : ◌≡◌ {A = Option (Bool × ContractorStatus I)} (some (true, cs'))
              (some (true, end)) =
            rw (q, loop) at e in
          let same : cs' ≡ end = cc in subst Answered same g
      step (again left' stack' cs') q g go = go left' stack' cs' end (rw (q, loop) at e)

-- When the search answers that there is a solution up to the precision, the box that it leaves is
-- not empty, and on it either every evaluator is certain, uncertain within the precision only, or
-- of a kind that is not branched on, or the evaluation of the box leaves candidates of which the
-- brancher finds none to bisect. Each evaluator is taken to have a variable, and the first to be in
-- the box.
pub check_sat_found :
    {N : Numbers} (I : Intervals N) (P : Parts I) (fuel : ℕ) (cs end : ContractorStatus I)
    → check_sat I P fuel cs ≡ some (true, end)
    → All (Ranged I end.box) P.evaluators
    → IsDeltaBox I P end
unfolding check_sat
check_sat_found I P fuel cs end e r =
    let (h, settled) = good_loop I P fuel _ _ cs end e in (h, settled r)

pub empty-check_sat :
    {N : Numbers} (I : Intervals N) (P : Parts I) (fuel : ℕ) (cs end : ContractorStatus I)
    → check_sat I P fuel cs ≡ some (true, end)
    → empty I end.box ≡ false
unfolding check_sat
empty-check_sat I P fuel cs end e = (good_loop I P fuel _ _ cs end e).0
