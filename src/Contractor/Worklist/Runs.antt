-- ===== src/Contractor/Worklist/Runs.antt =====
-- Which contractors the worklist fixpoint runs.
use d_real_cmake.Prelude.{
  ℕ, zero, suc, ◌≡◌, refl, sym, ◌⊎◌, inl, inr, Bool, true, false, ◌||◌, List, [], ◌∷◌, some, get_or,
  set, Bool-cases, Option-cases, some_injective, subst,
}
use d_real_cmake.Symbolic.Numbers.{Numbers}
use d_real_cmake.Box.Interval.{Intervals}
use d_real_cmake.Box.{empty}
use d_real_cmake.Contractor.Status.{ContractorStatus, no_bits}
use d_real_cmake.Contractor.Combine.{Contractor}
use d_real_cmake.Contractor.Combine.Stages.{RunsUntilEmpty, AllFull, until_first, until_later}
use d_real_cmake.Solver.Evaluate.{no_bit_set}
use d_real_cmake.Contractor.Worklist.{
  same, run, update_worklist, fill, next_index, continue_at, drain, second, first_bits, prune,
}
use d_real_cmake.Contractor.Worklist.Bits.{find_first}

module _ {N : Numbers} (I : Intervals N) where
  -- The runs of the contractors whose bit is set.
  abbrev pub selected : List Bool → List (Contractor I) → List (Contractor I)
  selected [] cts = []
  selected (b ∷ bs) [] = []
  selected (true ∷ bs) (c ∷ rest) = run I c ∷ selected bs rest
  selected (false ∷ bs) (c ∷ rest) = selected bs rest

  -- Runs of single contractors, in any order, up to and with the first that leaves an empty box.
  pub data Runs (cts : List (Contractor I)) : ContractorStatus I → ContractorStatus I → Type 0 where
    here : {cs : ContractorStatus I} → Runs cts cs cs
    next :
        {cs end : ContractorStatus I} (i : ℕ)
        → empty I (run I (get_or cts i (same I)) cs).box ≡ false
        → Runs cts (run I (get_or cts i (same I)) cs) end
        → Runs cts cs end
    stop :
        {cs : ContractorStatus I} (i : ℕ)
        → empty I (run I (get_or cts i (same I)) cs).box ≡ true
        → Runs cts cs (run I (get_or cts i (same I)) cs)

  module _ (rows : List (List Bool)) where
    abbrev FillOrder :
        List Bool
        → List (Contractor I)
        → ContractorStatus I
        → Bool × List Bool × ContractorStatus I
        → Type 0
    FillOrder bits cts cs r =
        RunsUntilEmpty I (selected bits cts) cs r.2
        × (((r.0 ≡ true) × (empty I r.2.box ≡ true))
            ⊎ ((r.0 ≡ false) × AllFull I (selected bits cts) cs))

    fill-FillOrder :
        (bits : List Bool) (cts : List (Contractor I)) (worklist : List Bool)
        (cs : ContractorStatus I)
        → FillOrder bits cts cs (fill I rows bits cts worklist cs)
    unfolding fill
    fill-FillOrder [] cts worklist cs = (([], [], refl, refl, tt, inl refl), inr (refl, tt))
    fill-FillOrder (b ∷ bs) [] worklist cs = (([], [], refl, refl, tt, inl refl), inr (refl, tt))
    fill-FillOrder (false ∷ bs) (c ∷ rest) worklist cs = fill-FillOrder bs rest worklist cs
    fill-FillOrder (true ∷ bs) (c ∷ rest) worklist cs =
        let pruned = run I c cs in
        elim (Bool-cases (empty I pruned.box)) [
          | inl e ↦ rw e (until_first I (run I c) (selected bs rest) cs e, inl (refl, e))
          | inr e ↦
              let (until, answer) =
                fill-FillOrder bs rest (update_worklist pruned.output rows worklist) pruned in
              rw e (
                until_later I (run I c) (selected bs rest) cs _ e until,
                elim answer [ inl a ↦ inl a | inr (a, full) ↦ inr (a, (refl, full)) ],
              )
        ]

    drain-Runs :
        (cts : List (Contractor I)) (fuel i : ℕ) (worklist : List Bool)
        (cs end : ContractorStatus I)
        → drain I rows cts fuel i worklist cs ≡ some end
        → Runs cts cs end
    unfolding drain continue_at
    drain-Runs cts zero i worklist cs end e = let z : ⊥ = cc in absurd z
    drain-Runs cts (suc fuel) i worklist cs end e =
        let pruned = run I (get_or cts i (same I)) cs in
        let queued = update_worklist pruned.output rows (set worklist i false) in
        elim (Bool-cases (empty I pruned.box)) [
          | inl q ↦ subst (Runs cts cs) (some_injective (rw (q, drain) at e)) (stop i q)
          | inr q ↦ elim (Bool-cases (no_bit_set queued)) [
            | inl n ↦ subst (Runs cts cs) (some_injective (rw (q, n, drain) at e)) (next i q here)
            | inr n ↦ elim (Option-cases (next_index I rows queued i)) [
              | inl t ↦ let e' = rw (q, n, t, drain, continue_at) at e in let z : ⊥ = cc in absurd z
              | inr (j, t) ↦
                  next i q (
                    drain-Runs cts fuel j queued pruned end (rw (q, n, t, drain, continue_at) at e))
            ]
          ]
        ]

    -- The first pass, and the runs after it if it leaves no empty box.
    abbrev pub PruneOrder : List (Contractor I) → ContractorStatus I → ContractorStatus I → Type 0
    PruneOrder cts cs end =
        let first = selected (first_bits I rows cts cs.branching_point) cts in
        (mid : ContractorStatus I) × RunsUntilEmpty I first cs mid
        × (((empty I mid.box ≡ true) × (end ≡ mid)) ⊎ (AllFull I first cs × Runs cts mid end))

    second-Runs :
        (t : List I.Interval → List I.Interval → Bool) (cts : List (Contractor I)) (fuel : ℕ)
        (old : List I.Interval) (worklist : List Bool) (cs end : ContractorStatus I)
        → second I rows t cts fuel old (false, worklist, cs) ≡ some end
        → Runs cts cs end
    unfolding second continue_at
    second-Runs t cts fuel old worklist cs end e =
        elim (Bool-cases (no_bit_set worklist || t old cs.box.values)) [
          | inl q ↦ subst (Runs cts cs) (some_injective (rw (q, second) at e)) here
          | inr q ↦ elim (Option-cases (find_first worklist)) [
            | inl n ↦ let e' = rw (q, n, second, continue_at) at e in let z : ⊥ = cc in absurd z
            | inr (j, n) ↦
                drain-Runs cts fuel j worklist cs end (rw (q, n, second, continue_at) at e)
          ]
        ]

    pub prune-PruneOrder :
        (t : List I.Interval → List I.Interval → Bool) (cts : List (Contractor I)) (fuel : ℕ)
        (cs end : ContractorStatus I)
        → prune I rows t cts fuel cs ≡ some end
        → PruneOrder cts cs end
    unfolding prune first_bits second
    prune-PruneOrder t cts fuel cs end e =
        let bits = first_bits I rows cts cs.branching_point in
        let (until, answer) = fill-FillOrder bits cts (no_bits cts) cs in
        after (fill I rows bits cts (no_bits cts) cs) until answer e
      where
        after :
            (r : Bool × List Bool × ContractorStatus I)
            → RunsUntilEmpty I (selected (first_bits I rows cts cs.branching_point) cts) cs r.2
            → ((r.0 ≡ true) × (empty I r.2.box ≡ true))
              ⊎ ((r.0 ≡ false)
                  × AllFull I (selected (first_bits I rows cts cs.branching_point) cts) cs)
            → second I rows t cts fuel cs.box.values r ≡ some end
            → PruneOrder cts cs end
        after (true, worklist, mid) until (inl (a, h)) k =
            (mid, until, inl (h, sym (some_injective k)))
        after (true, worklist, mid) until (inr (a, h)) k = let z : ⊥ = cc in absurd z
        after (false, worklist, mid) until (inl (a, h)) k = let z : ⊥ = cc in absurd z
        after (false, worklist, mid) until (inr (a, h)) k =
            (mid, until, inr (h, second-Runs t cts fuel cs.box.values worklist mid end k))
