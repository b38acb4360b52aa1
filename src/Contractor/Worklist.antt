-- ===== src/Contractor/Worklist.antt =====
-- src/dreal/contractor/contractor_worklist_fixpoint.cc: contractors are run again while one of
-- their inputs has been changed. A bit set is a list with a bit for each index.
pub mod Bits
pub mod Runs
pub mod Ends
use d_real_cmake.Prelude.{
  ℕ, zero, suc, Bool, true, false, not, ◌||◌, ◌&&◌, List, [], ◌∷◌, map, Option, none, some,
  if◌then◌else◌, get_or, set,
}
use d_real_cmake.Symbolic.Numbers.{Numbers}
use d_real_cmake.Box.Interval.{Intervals}
use d_real_cmake.Box.{Box, empty}
use d_real_cmake.Contractor.Status.{ContractorStatus, or_bits, no_bits}
use d_real_cmake.Contractor.Combine.{Contractor}
use d_real_cmake.Solver.Evaluate.{no_bit_set}
use Bits.{find_first, find_next}

-- One row of `input_to_contractors_` for each bit of the output.
unfoldable pub update_worklist : List Bool → List (List Bool) → List Bool → List Bool
update_worklist [] rows worklist = worklist
update_worklist (b ∷ bs) [] worklist = worklist
update_worklist (b ∷ bs) (row ∷ rows) worklist =
    update_worklist bs rows (if b then or_bits worklist row else worklist)

or_else : Option ℕ → Option ℕ → Option ℕ
or_else none b = b
or_else (some a) b = some a

module _ {N : Numbers} (I : Intervals N) where
  abbrev pub same : Contractor I
  same cs = cs

  -- `mutable_output().reset()` and `Prune`.
  unfoldable pub run : Contractor I → Contractor I
  run c cs = c (record cs { output = no_bits cs.output })

  module _ (input_to_contractors : List (List Bool)) where
    -- The first loop over the contractors whose bit is set; `true` is its `return`.
    unfoldable pub fill :
        List Bool
        → List (Contractor I)
        → List Bool
        → ContractorStatus I
        → Bool × List Bool × ContractorStatus I
    fill [] cts worklist cs = (false, worklist, cs)
    fill (b ∷ bs) [] worklist cs = (false, worklist, cs)
    fill (b ∷ bs) (c ∷ rest) worklist cs =
        let pruned = if b then run c cs else cs in
        let more =
          fill bs rest
            (if b then update_worklist pruned.output input_to_contractors worklist else worklist)
            pruned in
        if b && empty I pruned.box then (true, worklist, pruned) else more

    -- The search for the next contractor goes on at the front after the last bit.
    next_index : List Bool → ℕ → Option ℕ
    unfolding or_else
    next_index worklist ctc_idx = or_else (find_next worklist ctc_idx) (find_first worklist)

    -- The inner loop on fuel, `none` is its end. It is left by `return` only. `continue_at` gets
    -- no index when no bit is set, which is a `return` before.
    continue_at : (ℕ → Option (ContractorStatus I)) → Option ℕ → Option (ContractorStatus I)
    continue_at go none = none
    continue_at go (some next) = go next

    unfoldable pub drain :
        List (Contractor I) → ℕ → ℕ → List Bool → ContractorStatus I → Option (ContractorStatus I)
    unfolding next_index continue_at
    drain contractors zero ctc_idx worklist cs = none
    drain contractors (suc fuel) ctc_idx worklist cs =
        let pruned = run (get_or contractors ctc_idx same) cs in
        let queued =
          update_worklist pruned.output input_to_contractors (set worklist ctc_idx false) in
        let rest =
          continue_at (λ next. drain contractors fuel next queued pruned)
            (next_index queued ctc_idx) in
        if empty I pruned.box
        then some pruned
        else (if no_bit_set queued then some pruned else rest)

    -- What follows the first loop. The termination condition is asked once, before the second loop.
    second :
        (List I.Interval → List I.Interval → Bool)
        → List (Contractor I)
        → ℕ
        → List I.Interval
        → Bool × List Bool × ContractorStatus I
        → Option (ContractorStatus I)
    second term_cond contractors fuel old_iv (returned, worklist, cs) =
        if returned
        then some cs
        else (if no_bit_set worklist || term_cond old_iv cs.box.values
            then some cs
            else continue_at (λ first. drain contractors fuel first worklist cs)
                (find_first worklist))

    -- The bits of the contractors that the first loop runs.
    pub first_bits : List (Contractor I) → Option ℕ → List Bool
    first_bits contractors none = map (λ _. true) contractors
    first_bits contractors (some point) = get_or input_to_contractors point []

    unfoldable pub prune :
        (List I.Interval → List I.Interval → Bool)
        → List (Contractor I)
        → ℕ
        → ContractorStatus I
        → Option (ContractorStatus I)
    unfolding second first_bits continue_at
    prune term_cond contractors fuel cs =
        second term_cond contractors fuel cs.box.values
          (fill (first_bits contractors cs.branching_point) contractors (no_bits contractors) cs)
