-- ===== src/Contractor/Worklist/Ends.antt =====
-- How long the worklist fixpoint runs, and what it does to points.
use d_real_cmake.Prelude.{
  ℕ, zero, suc, ◌+◌, ◌<◌, ◌≤◌, ◌≡◌, refl, ◌∙◌, ◌⊎◌, inl, inr, Bool, true, false, ◌||◌, List, [],
  ◌∷◌, Option, some, get_or, set, All, length, arith, Bool-cases, Option-cases, ap,
}
use d_real_cmake.Symbolic.Numbers.{Numbers}
use d_real_cmake.Box.Interval.{Intervals}
use d_real_cmake.Box.{Box, empty}
use d_real_cmake.Box.Points.{Inside}
use d_real_cmake.Contractor.Status.{ContractorStatus, or_bits, no_bits}
use d_real_cmake.Contractor.Combine.{Contractor}
use d_real_cmake.Contractor.Combine.Keeps.{Keeps}
use d_real_cmake.Contractor.Worklist.{
  update_worklist, or_else, same, run, fill, next_index, continue_at, drain, second, first_bits,
  prune,
}
use d_real_cmake.Contractor.Worklist.Runs.{PruneOrder, prune-PruneOrder}
use d_real_cmake.Contractor.Worklist.Bits.{
  find_first, find_next, count, IsSetAt, find_first-IsSetAt, find_next-IsSetAt, find_first-none,
  count-set, count-length, length-set, length-or_bits,
}
use d_real_cmake.Solver.Evaluate.{no_bit_set}

update_worklist_none :
    (output : List Bool) (rows : List (List Bool)) (worklist : List Bool)
    → no_bit_set output ≡ true
    → update_worklist output rows worklist ≡ worklist
unfolding update_worklist no_bit_set
update_worklist_none [] rows worklist h = refl
update_worklist_none (b ∷ bs) [] worklist h = refl
update_worklist_none (true ∷ bs) (row ∷ rows) worklist h = cc
update_worklist_none (false ∷ bs) (row ∷ rows) worklist h = update_worklist_none bs rows worklist h

length-update_worklist :
    (output : List Bool) (rows : List (List Bool)) (worklist : List Bool)
    → length (update_worklist output rows worklist) ≡ length worklist
unfolding update_worklist
length-update_worklist [] rows worklist = refl
length-update_worklist (b ∷ bs) [] worklist = refl
length-update_worklist (true ∷ bs) (row ∷ rows) worklist =
    length-update_worklist bs rows (or_bits worklist row) ∙ length-or_bits worklist row
length-update_worklist (false ∷ bs) (row ∷ rows) worklist = length-update_worklist bs rows worklist

pub no_bit_set-no_bits : {A : Type 0} (xs : List A) → no_bit_set (no_bits xs) ≡ true
unfolding no_bit_set no_bits
no_bit_set-no_bits [] = refl
no_bit_set-no_bits (x ∷ xs) = no_bit_set-no_bits xs

length-no_bits : {A : Type 0} (xs : List A) → length (no_bits xs) ≡ length xs
unfolding no_bits
length-no_bits [] = refl
length-no_bits (x ∷ xs) = ap suc (length-no_bits xs)

-- The runs that a box of some size can still pay for with a worklist of some length.
abbrev pub budget : ℕ → ℕ → ℕ
budget zero len = 0
budget (suc s) len = suc len + budget s len

budget_mono : (a b len : ℕ) → a ≤ b → budget a len ≤ budget b len
budget_mono zero b len h = omega arith
budget_mono (suc a) zero len h = absurd (omega (arith, h))
budget_mono (suc a) (suc b) len h = omega (arith, budget_mono a b len (omega (arith, h)))

budget_less : (a b len : ℕ) → a < b → suc len + budget a len ≤ budget b len
budget_less a b len h = budget_mono (suc a) b len (omega (arith, h))

module _ {N : Numbers} (I : Intervals N) (size : Box I → ℕ) where
  -- Either the run changes no output and does not raise the size, or it lowers the size.
  abbrev pub Progress : Contractor I → Type 0
  Progress c =
      (cs : ContractorStatus I)
      → ((no_bit_set (run I c cs).output ≡ true) × (size (run I c cs).box ≤ size cs.box))
        ⊎ (size (run I c cs).box < size cs.box)

  Progress-same : Progress (same I)
  unfolding run
  Progress-same cs = inl (no_bit_set-no_bits cs.output, omega arith)

  Progress-at :
      (cts : List (Contractor I)) (i : ℕ) → All Progress cts → Progress (get_or cts i (same I))
  Progress-at [] i h = Progress-same
  Progress-at (c ∷ rest) zero h = h.0
  Progress-at (c ∷ rest) (suc i) h = Progress-at rest i h.1

  Progress-size :
      (c : Contractor I)
      → Progress c
      → (cs : ContractorStatus I) → size (run I c cs).box ≤ size cs.box
  Progress-size c h cs = elim (h cs) [ inl (q, s) ↦ s | inr s ↦ omega (arith, s) ]

  module _ (rows : List (List Bool)) where
    abbrev queue_after : List Bool → ℕ → ContractorStatus I → List Bool
    queue_after worklist i pruned = update_worklist pruned.output rows (set worklist i false)

    run_pays :
        (c : Contractor I) (cs : ContractorStatus I) (worklist : List Bool) (i : ℕ)
        → Progress c
        → IsSetAt worklist i
        → budget (size (run I c cs).box) (length worklist)
            + count (queue_after worklist i (run I c cs))
          < budget (size cs.box) (length worklist) + count worklist
    run_pays c cs worklist i h s = elim (h cs) [
      | inl (q, le) ↦
          let m = budget_mono _ _ (length worklist) le in
          let e = update_worklist_none (run I c cs).output rows (set worklist i false) q in
          rw e (omega (arith, m, count-set worklist i s))
      | inr lt ↦
          let m = budget_less _ _ (length worklist) lt in
          let top = count-length (queue_after worklist i (run I c cs)) in
          let len =
            length-update_worklist (run I c cs).output rows (set worklist i false)
            ∙ length-set worklist i false in
          omega (arith, m, top, len)
    ]

    next_index_set :
        (worklist : List Bool) (i : ℕ)
        → no_bit_set worklist ≡ false
        → (j : ℕ) × (next_index I rows worklist i ≡ some j) × IsSetAt worklist j
    unfolding next_index or_else
    next_index_set worklist i h = elim (Option-cases (find_next worklist i)) [
      | inr (j, e) ↦ (j, rw e refl, find_next-IsSetAt worklist i j e)
      | inl n ↦ elim (Option-cases (find_first worklist)) [
        | inr (j, e) ↦ (j, rw (n, e) refl, find_first-IsSetAt worklist j e)
        | inl e ↦ let q = find_first-none worklist e in cc
      ]
    ]

    run-Keeps :
        (p : ℕ → N.Real) (cts : List (Contractor I)) (i : ℕ) (cs : ContractorStatus I)
        → All (Keeps I p) cts
        → Inside I p cs.box
        → Inside I p (run I (get_or cts i (same I)) cs).box
    unfolding run
    run-Keeps p [] i cs h w = w
    run-Keeps p (c ∷ rest) zero cs h w = h.0 _ w
    run-Keeps p (c ∷ rest) (suc i) cs h w = run-Keeps p rest i cs h.1 w

    -- Points that all contractors keep are kept.
    abbrev Spares : List (Contractor I) → ContractorStatus I → ContractorStatus I → Type 0
    Spares cts cs end =
        (p : ℕ → N.Real) → All (Keeps I p) cts → Inside I p cs.box → Inside I p end.box

    abbrev Ended : List (Contractor I) → Option (ContractorStatus I) → ContractorStatus I → Type 0
    Ended cts o cs = (end : ContractorStatus I) × (o ≡ some end) × Spares cts cs end

    drain_ends :
        (cts : List (Contractor I))
        → All Progress cts
        → (fuel i : ℕ) (worklist : List Bool) (cs : ContractorStatus I) → IsSetAt worklist i
        → budget (size cs.box) (length worklist) + count worklist < fuel
        → Ended cts (drain I rows cts fuel i worklist cs) cs
    unfolding drain continue_at
    drain_ends cts g zero i worklist cs s f = absurd (omega (arith, f))
    drain_ends cts g (suc fuel) i worklist cs s f =
        let c = get_or cts i (same I) in
        let pruned = run I c cs in
        let queued = queue_after worklist i pruned in
        let kept = λ (p : ℕ → N.Real) (h : All (Keeps I p) cts). run-Keeps p cts i cs h in
        elim (Bool-cases (empty I pruned.box)) [
          | inl e ↦ (pruned, rw e refl, kept)
          | inr e ↦ elim (Bool-cases (no_bit_set queued)) [
            | inl n ↦ (pruned, rw (e, n) refl, kept)
            | inr n ↦
                let (j, at, t) = next_index_set queued i n in
                let len : length queued ≡ length worklist =
                  length-update_worklist pruned.output rows (set worklist i false)
                  ∙ length-set worklist i false in
                let paid = run_pays c cs worklist i (Progress-at cts i g) s in
                let enough : budget (size pruned.box) (length queued) + count queued < fuel =
                  rw len (omega (arith, paid, f)) in
                let (end, q, k) = drain_ends cts g fuel j queued pruned t enough in
                (end, rw (e, n, at) q, λ p h w. k p h (kept p h w))
          ]
        ]

    -- What the first loop leaves.
    abbrev Filled :
        List (Contractor I)
        → Bool × List Bool × ContractorStatus I
        → List Bool
        → ContractorStatus I
        → Type 0
    Filled cts r worklist cs =
        (length r.1 ≡ length worklist) × (size r.2.box ≤ size cs.box) × Spares cts cs r.2

    fill_ends :
        (bits : List Bool) (cts : List (Contractor I))
        → All Progress cts
        → (worklist : List Bool) (cs : ContractorStatus I)
        → Filled cts (fill I rows bits cts worklist cs) worklist cs
    unfolding fill run
    fill_ends [] cts g worklist cs = (refl, omega arith, λ p h w. w)
    fill_ends (b ∷ bs) [] g worklist cs = (refl, omega arith, λ p h w. w)
    fill_ends (false ∷ bs) (c ∷ rest) g worklist cs =
        let (len, le, k) = fill_ends bs rest g.1 worklist cs in (len, le, λ p h w. k p h.1 w)
    fill_ends (true ∷ bs) (c ∷ rest) g worklist cs =
        let pruned = run I c cs in
        let smaller = Progress-size c g.0 cs in
        elim (Bool-cases (empty I pruned.box)) [
          | inl e ↦ rw e (refl, smaller, λ p h w. h.0 _ w)
          | inr e ↦
              let (len, le, k) =
                fill_ends bs rest g.1 (update_worklist pruned.output rows worklist) pruned in
              rw e (
                len ∙ length-update_worklist pruned.output rows worklist,
                omega (arith, le, smaller),
                λ p h w. k p h.1 (h.0 _ w),
              )
        ]

    second_ends :
        (term_cond : List I.Interval → List I.Interval → Bool) (cts : List (Contractor I))
        → All Progress cts
        → (fuel : ℕ) (old_iv : List I.Interval) (r : Bool × List Bool × ContractorStatus I)
        → budget (size r.2.box) (length r.1) + length r.1 < fuel
        → Ended cts (second I rows term_cond cts fuel old_iv r) r.2
    unfolding second continue_at
    second_ends t cts g fuel old (true, worklist, cs) f = (cs, refl, λ p h w. w)
    second_ends t cts g fuel old (false, worklist, cs) f =
        elim (Bool-cases (no_bit_set worklist || t old cs.box.values)) [
          | inl e ↦ (cs, rw e refl, λ p h w. w)
          | inr e ↦ elim (Option-cases (find_first worklist)) [
            | inl n ↦ let q = find_first-none worklist n in absurd (ground arith)
            | inr (j, at) ↦
                let (end, q, k) =
                  drain_ends cts g fuel j worklist cs (find_first-IsSetAt worklist j at)
                    (omega (arith, f, count-length worklist)) in
                (end, rw (e, at) q, k)
          ]
        ]

-- The worklist fixpoint ends, also when the box is refuted. It has run, in their order and up to the
-- first that leaves an empty box, all contractors, or those that have the branching point for an
-- input, and then, if none left an empty box, single contractors up to the first that does. Every
-- point of the box at the start that all contractors keep is in the box at the end. Each contractor is taken either to lower some
-- measure of the box or to report no changed variable without raising it, and the fuel to be above
-- what the measure and the number of contractors ask for.
pub worklist_ends :
    {N : Numbers} (I : Intervals N) (size : Box I → ℕ) (rows : List (List Bool))
    (term_cond : List I.Interval → List I.Interval → Bool) (contractors : List (Contractor I))
    → All (Progress I size) contractors
    → (fuel : ℕ) (cs : ContractorStatus I)
    → budget (size cs.box) (length contractors) + length contractors < fuel
    → (end : ContractorStatus I) × (prune I rows term_cond contractors fuel cs ≡ some end)
      × PruneOrder I rows contractors cs end
      × ((p : ℕ → N.Real) → All (Keeps I p) contractors → Inside I p cs.box → Inside I p end.box)
unfolding prune first_bits
worklist_ends I size rows t cts g fuel cs f =
    let bits = first_bits I rows cts cs.branching_point in
    let filled = fill I rows bits cts (no_bits cts) cs in
    let (len, le, k) = fill_ends I size rows bits cts g (no_bits cts) cs in
    let m = budget_mono _ _ (length cts) le in
    let len' : length filled.1 ≡ length cts = len ∙ length-no_bits cts in
    let enough : budget (size filled.2.box) (length filled.1) + length filled.1 < fuel =
      rw len' (omega (arith, m, f)) in
    let (end, q, k') = second_ends I size rows t cts g fuel cs.box.values filled enough in
    (end, q, prune-PruneOrder I rows t cts fuel cs end q, λ p h w. k' p h (k p h w))
