-- ===== src/Contractor/Combine/Stages.antt =====
-- The order in which the sequence and the fixpoint run their contractors, and when they stop.
use d_real_cmake.Prelude.{
  ℕ, zero, suc, ◌<◌, ◌≡◌, refl, ap, subst, ◌⊎◌, inl, inr, Bool, true, false, List, [], ◌∷◌, ◌++◌,
  some, All, arith, Bool-cases,
}
use d_real_cmake.Symbolic.Numbers.{Numbers}
use d_real_cmake.Box.Interval.{Intervals}
use d_real_cmake.Box.{Box, empty}
use d_real_cmake.Box.Points.{Inside, not-Inside-empty}
use d_real_cmake.Contractor.Status.{ContractorStatus}
use d_real_cmake.Contractor.Combine.{Contractor, seq, sweep, fixpoint}
use d_real_cmake.Contractor.Combine.Keeps.{Keeps, sweep-Keeps}

module _ {N : Numbers} (I : Intervals N) where
  -- Every contractor, whatever box the one before it leaves.
  abbrev pub apply_all : List (Contractor I) → Contractor I
  apply_all [] cs = cs
  apply_all (c ∷ rest) cs = apply_all rest (c cs)

  -- No contractor leaves an empty box, and none but the last does.
  abbrev pub AllFull : List (Contractor I) → ContractorStatus I → Type 0
  AllFull [] cs = Unit
  AllFull (c ∷ rest) cs = (empty I (c cs).box ≡ false) × AllFull rest (c cs)

  abbrev pub FullBeforeLast : List (Contractor I) → ContractorStatus I → Type 0
  FullBeforeLast [] cs = Unit
  FullBeforeLast (c ∷ []) cs = Unit
  FullBeforeLast (c ∷ d ∷ rest) cs = (empty I (c cs).box ≡ false) × FullBeforeLast (d ∷ rest) (c cs)

  -- The contractors up to the first that leaves an empty box, or all of them.
  abbrev pub RunsUntilEmpty : List (Contractor I) → ContractorStatus I → ContractorStatus I → Type 0
  RunsUntilEmpty contractors cs end =
      (ran : List (Contractor I)) × (left : List (Contractor I)) × (contractors ≡ ran ++ left)
      × (end ≡ apply_all ran cs)
      × FullBeforeLast ran cs
      × ((left ≡ [])
          ⊎ ((c : Contractor I) × (more : List (Contractor I)) × (ran ≡ c ∷ more)
              × (empty I end.box ≡ true)))

  pub until_first :
      (c : Contractor I) (rest : List (Contractor I)) (cs : ContractorStatus I)
      → empty I (c cs).box ≡ true
      → RunsUntilEmpty (c ∷ rest) cs (c cs)
  until_first c rest cs e = (c ∷ [], rest, refl, refl, tt, inr (c, [], refl, e))

  full_more :
      (c : Contractor I) (ran : List (Contractor I)) (cs : ContractorStatus I)
      → empty I (c cs).box ≡ false
      → FullBeforeLast ran (c cs)
      → FullBeforeLast (c ∷ ran) cs
  full_more c [] cs e h = tt
  full_more c (d ∷ ran) cs e h = (e, h)

  pub until_later :
      (c : Contractor I) (rest : List (Contractor I)) (cs end : ContractorStatus I)
      → empty I (c cs).box ≡ false
      → RunsUntilEmpty rest (c cs) end
      → RunsUntilEmpty (c ∷ rest) cs end
  until_later c rest cs end e (ran, left, split, same, full, stop) = (
    c ∷ ran,
    left,
    ap (λ l. c ∷ l) split,
    same,
    full_more c ran cs e full,
    elim stop [ inl n ↦ inl n | inr (d, more, q, h) ↦ inr (c, ran, refl, h) ],
  )

  seq-RunsUntilEmpty :
      (contractors : List (Contractor I)) (cs : ContractorStatus I)
      → RunsUntilEmpty contractors cs (seq I contractors cs)
  unfolding seq
  seq-RunsUntilEmpty [] cs = ([], [], refl, refl, tt, inl refl)
  seq-RunsUntilEmpty (c ∷ rest) cs = elim (Bool-cases (empty I (c cs).box)) [
    | inl e ↦ rw e (until_first c rest cs e)
    | inr e ↦ rw e (until_later c rest cs _ e (seq-RunsUntilEmpty rest (c cs)))
  ]

  -- With a point that all keep, no box is empty, and every contractor runs.
  seq-all :
      (p : ℕ → N.Real) (contractors : List (Contractor I)) (cs : ContractorStatus I)
      → All (Keeps I p) contractors
      → Inside I p cs.box
      → (seq I contractors cs ≡ apply_all contractors cs) × Inside I p (seq I contractors cs).box
  unfolding seq
  seq-all p [] cs h w = (refl, w)
  seq-all p (c ∷ rest) cs h w = elim (Bool-cases (empty I (c cs).box)) [
    | inl e ↦ absurd (not-Inside-empty I p (c cs).box e (h.0 cs w))
    | inr e ↦ rw e (seq-all p rest (c cs) h.1 (h.0 cs w))
  ]

  -- What the body of the loop leaves, with its answer.
  abbrev Swept : List (Contractor I) → ContractorStatus I → Bool × ContractorStatus I → Type 0
  Swept contractors cs (answer, end) =
      RunsUntilEmpty contractors cs end
      × ((answer ≡ true) × (empty I end.box ≡ true)
          ⊎ ((answer ≡ false) × AllFull contractors cs × (end ≡ apply_all contractors cs)))

  sweep-Swept :
      (contractors : List (Contractor I)) (cs : ContractorStatus I)
      → Swept contractors cs (sweep I contractors cs)
  unfolding sweep
  sweep-Swept [] cs = (([], [], refl, refl, tt, inl refl), inr (refl, tt, refl))
  sweep-Swept (c ∷ rest) cs = elim (Bool-cases (empty I (c cs).box)) [
    | inl e ↦ rw e (until_first c rest cs e, inl (refl, e))
    | inr e ↦
        let (until, answer) = sweep-Swept rest (c cs) in
        rw e (
          until_later c rest cs _ e until,
          elim answer [ inl a ↦ inl a | inr (a, full, same) ↦ inr (a, (refl, full), same) ],
        )
  ]

-- A sequence runs its contractors in their order, each on what the one before it leaves, up to and
-- with the first that leaves an empty box, or to the end. If all keep a point of the box, then all
-- run, and the point is in the box at the end.
pub seq_order :
    {N : Numbers} (I : Intervals N) (contractors : List (Contractor I)) (cs : ContractorStatus I)
    → RunsUntilEmpty I contractors cs (seq I contractors cs)
      × ((p : ℕ → N.Real)
          → All (Keeps I p) contractors
          → Inside I p cs.box
          → (seq I contractors cs ≡ apply_all I contractors cs)
            × Inside I p (seq I contractors cs).box)
seq_order I contractors cs = (seq-RunsUntilEmpty I contractors cs, λ p. seq-all I p contractors cs)

module _ {N : Numbers} (I : Intervals N) (term_cond : List I.Interval → List I.Interval → Bool)
    (contractors : List (Contractor I)) where
  -- Full rounds after which the loop goes on.
  pub data Rounds : ContractorStatus I → ContractorStatus I → Type 0 where
    here : {cs : ContractorStatus I} → Rounds cs cs
    next :
        {cs end : ContractorStatus I}
        → AllFull I contractors cs
        → term_cond cs.box.values (apply_all I contractors cs).box.values ≡ false
        → Rounds (apply_all I contractors cs) end
        → Rounds cs end

  -- The last round stops at an empty box, or the termination condition holds after it.
  abbrev pub LastRound : ContractorStatus I → ContractorStatus I → Type 0
  LastRound cs end =
      RunsUntilEmpty I contractors cs end
      × ((empty I end.box ≡ true)
          ⊎ (AllFull I contractors cs × (term_cond cs.box.values end.box.values ≡ true)))

  abbrev pub FixpointResult : ℕ → ContractorStatus I → Type 0
  FixpointResult fuel cs =
      (last : ContractorStatus I) × (end : ContractorStatus I) × (fixpoint I term_cond contractors
          fuel cs
        ≡ some end)
      × Rounds cs last
      × LastRound last end
      × ((p : ℕ → N.Real) → All (Keeps I p) contractors → Inside I p cs.box → Inside I p end.box)

  -- A fixpoint ends, also when the box is refuted: after full rounds, each of all contractors in
  -- their order with no empty box and with a termination condition that does not hold after it,
  -- there is a last one, that stops at the first empty box or after which the condition holds. Every
  -- point of the box that all contractors keep is in the box at the end. Some measure of the box is
  -- taken to go down with each full round after which the condition does not hold, and the fuel to
  -- be above the measure at the start.
  pub fixpoint_ends :
      (size : Box I → ℕ)
      → ((cs : ContractorStatus I)
          → AllFull I contractors cs
          → term_cond cs.box.values (apply_all I contractors cs).box.values ≡ false
          → size (apply_all I contractors cs).box < size cs.box)
      → (fuel : ℕ) (cs : ContractorStatus I) → size cs.box < fuel
      → FixpointResult fuel cs
  unfolding fixpoint
  fixpoint_ends size down zero cs f = absurd (omega (arith, f))
  fixpoint_ends size down (suc fuel) cs f =
      let swept = sweep I contractors cs in
      let keeps =
        λ (p : ℕ → N.Real) (h : All (Keeps I p) contractors). sweep-Keeps I p contractors h cs in
      let (until, answer) = sweep-Swept I contractors cs in
      elim answer [
        | inl (a, e) ↦ (cs, swept.1, rw a refl, here, (until, inl e), keeps)
        | inr (a, full, same) ↦ elim (Bool-cases (term_cond cs.box.values swept.1.box.values)) [
          | inl q ↦ (cs, swept.1, rw (a, q) refl, here, (until, inr (full, q)), keeps)
          | inr q ↦
              let q' : term_cond cs.box.values (apply_all I contractors cs).box.values ≡ false =
                subst (λ (c : ContractorStatus I). term_cond cs.box.values c.box.values ≡ false)
                  same q in
              let smaller = down cs full q' in
              let fewer : size swept.1.box < fuel = rw same (omega (arith, smaller, f)) in
              let (last, end, e, rounds, stop, keep) = fixpoint_ends size down fuel swept.1 fewer in
              (
                last,
                end,
                rw (a, q) e,
                next full q' (subst (λ c. Rounds c last) same rounds),
                stop,
                λ p h w. keep p h (keeps p h w),
              )
        ]
      ]
