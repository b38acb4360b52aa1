-- ===== src/Solver/Evaluate/Wanted.antt =====
-- On which variables a verdict of `evaluate_box` asks to branch.
use d_real_cmake.Prelude.{
  ℕ, zero, suc, ◌<◌, ◌≡◌, refl, sym, ◌∙◌, ap, subst, ◌⊎◌, inl, inr, ◌↔◌, Bool, true, false, List,
  [], ◌∷◌, some, ◌||◌, All, Member, get_or, set, length, arith, Bool-cases,
}
use d_real_cmake.Symbolic.Syntax.{Variable, Formula, Double}
use d_real_cmake.Symbolic.Numbers.{Numbers, le_double}
use d_real_cmake.Box.Interval.{Intervals}
use d_real_cmake.Box.{Box, index}
use d_real_cmake.Contractor.Status.{ContractorStatus, no_bits}
use d_real_cmake.Solver.Evaluate.{
  Evaluation, valid, unsat, unknown, FormulaEvaluator, set_candidates, evaluate_rest, evaluate_box,
}
use d_real_cmake.Solver.Evaluate.Verdicts.{Evaluation-cases}
use d_real_cmake.Solver.Evaluate.Candidates.{length-set, length-set_candidates, length-no_bits}

abbrev IsMarked : List Bool → ℕ → Type 0
IsMarked bits j = get_or bits j false ≡ true

IsMarked-set : (bits : List Bool) (i : ℕ) → i < length bits → IsMarked (set bits i true) i
IsMarked-set [] i h = absurd (omega arith)
IsMarked-set (b ∷ bs) zero h = refl
IsMarked-set (b ∷ bs) (suc i) h = IsMarked-set bs i (omega (arith, h))

IsMarked-still : (bits : List Bool) (i j : ℕ) → IsMarked bits j → IsMarked (set bits i true) j
IsMarked-still [] i j h = h
IsMarked-still (b ∷ bs) zero zero h = refl
IsMarked-still (b ∷ bs) zero (suc j) h = h
IsMarked-still (b ∷ bs) (suc i) zero h = h
IsMarked-still (b ∷ bs) (suc i) (suc j) h = IsMarked-still bs i j h

IsMarked-only :
    (bits : List Bool) (i j : ℕ) → IsMarked (set bits i true) j → (i ≡ j) ⊎ IsMarked bits j
IsMarked-only [] i j h = inr h
IsMarked-only (b ∷ bs) zero zero h = inl refl
IsMarked-only (b ∷ bs) zero (suc j) h = inr h
IsMarked-only (b ∷ bs) (suc i) zero h = inr h
IsMarked-only (b ∷ bs) (suc i) (suc j) h = elim (IsMarked-only bs i j h) [
  | inl e ↦ inl (ap suc e)
  | inr k ↦ inr k
]

not-IsMarked-no_bits : {A : Type 0} (xs : List A) (j : ℕ) → ¬ IsMarked (no_bits xs) j
unfolding no_bits
not-IsMarked-no_bits [] j h = cc
not-IsMarked-no_bits (x ∷ xs) zero h = cc
not-IsMarked-no_bits (x ∷ xs) (suc j) h = not-IsMarked-no_bits xs j h

module _ {N : Numbers} (I : Intervals N) (box : Box I) where
  unknown_injective : {i k : I.Interval} → ◌≡◌ {A = Evaluation I} (unknown i) (unknown k) → i ≡ k
  unknown_injective {i} {k} e =
      ap
        (λ (r : Evaluation I). elim r as (λ _. I.Interval) [
          | valid ↦ i
          | unsat ↦ i
          | unknown j ↦ j
        ])
        e

  -- A variable of the list has the index.
  abbrev pub Indexed : List Variable → ℕ → Type 0
  Indexed vs j = (v : Variable) × Member v vs × (index box.variables v ≡ j)

  candidates-still :
      (vs : List Variable) (bits : List Bool) (j : ℕ)
      → IsMarked bits j
      → IsMarked (set_candidates I box vs bits) j
  unfolding set_candidates
  candidates-still [] bits j h = h
  candidates-still (v ∷ vs) bits j h = candidates-still vs _ j (IsMarked-still bits _ j h)

  candidates-Indexed :
      (vs : List Variable) (bits : List Bool) (j : ℕ)
      → j < length bits
      → Indexed vs j
      → IsMarked (set_candidates I box vs bits) j
  unfolding set_candidates
  candidates-Indexed [] bits j l (v, m, e) = elim m [ ]
  candidates-Indexed (w ∷ vs) bits j l (v, inl q, e) =
      let at : index box.variables w ≡ j = ap (λ u. index box.variables u) (sym q) ∙ e in
      candidates-still vs _ j (rw at (IsMarked-set bits j l))
  candidates-Indexed (w ∷ vs) bits j l (v, inr m, e) =
      candidates-Indexed vs _ j (omega (arith, l, length-set bits (index box.variables w)))
        (v, m, e)

  candidates-only :
      (vs : List Variable) (bits : List Bool) (j : ℕ)
      → IsMarked (set_candidates I box vs bits) j
      → Indexed vs j ⊎ IsMarked bits j
  unfolding set_candidates
  candidates-only [] bits j h = inr h
  candidates-only (v ∷ vs) bits j h = elim (candidates-only vs _ j h) [
    | inl (w, m, e) ↦ inl (w, inr m, e)
    | inr k ↦ elim (IsMarked-only bits _ j k) [ inl e ↦ inl (v, inl refl, e) | inr k' ↦ inr k' ]
  ]

  module _ (free_variables : Formula → List Variable) (precision : Double) where
    -- The evaluator is uncertain by more than the precision, is of a kind that is branched on, and
    -- has the variable with the index.
    abbrev pub Wants : ℕ → FormulaEvaluator I → Type 0
    Wants j e =
        (i : I.Interval) × (e.evaluate box ≡ unknown i)
        × (le_double N (I.diam i) precision ≡ false)
        × ((e.is_simple_relational || e.is_neq) ≡ false)
        × Indexed e.variables j

    abbrev Some : List (FormulaEvaluator I) → ℕ → Type 0
    Some es j = (e : FormulaEvaluator I) × Member e es × Wants j e

    abbrev Chosen : List (FormulaEvaluator I) → List Bool → List Bool → Type 0
    Chosen es bits bits' =
        (j : ℕ) → j < length bits → IsMarked bits' j ↔ (Some es j ⊎ IsMarked bits j)

    -- The first evaluator wants nothing.
    Chosen-later :
        (f : FormulaEvaluator I) (es : List (FormulaEvaluator I)) (bits bits' : List Bool)
        → ((j : ℕ) → ¬ Wants j f)
        → Chosen es bits bits'
        → Chosen (f ∷ es) bits bits'
    Chosen-later f es bits bits' never h j l = (
      λ s. elim ((h j l).0 s) [ inl (e, m, w) ↦ inl (e, inr m, w) | inr k ↦ inr k ],
      λ s. elim s [
        | inl (e, inl q, w) ↦ absurd (never j (subst (Wants j) q w))
        | inl (e, inr m, w) ↦ (h j l).1 (inl (e, m, w))
        | inr k ↦ (h j l).1 (inr k)
      ],
    )

    -- The first evaluator sets the bits of its variables.
    Chosen-first :
        (f : FormulaEvaluator I) (es : List (FormulaEvaluator I)) (bits bits' : List Bool)
        → ((j : ℕ) → Indexed f.variables j → Wants j f)
        → Chosen es (set_candidates I box f.variables bits) bits'
        → Chosen (f ∷ es) bits bits'
    Chosen-first f es bits bits' wants h j l =
        let l' : j < length (set_candidates I box f.variables bits) =
          omega (arith, l, length-set_candidates I box f.variables bits) in
        (
          λ s. elim ((h j l').0 s) [
            | inl (e, m, w) ↦ inl (e, inr m, w)
            | inr k ↦ elim (candidates-only f.variables bits j k) [
              | inl x ↦ inl (f, inl refl, wants j x)
              | inr k' ↦ inr k'
            ]
          ],
          λ s. elim s [
            | inl (e, inl q, w) ↦
                let w' = subst (Wants j) q w in
                (h j l').1 (inr (candidates-Indexed f.variables bits j l w'.4))
            | inl (e, inr m, w) ↦ (h j l').1 (inl (e, m, w))
            | inr k ↦ (h j l').1 (inr (candidates-still f.variables bits j k))
          ],
        )

    rest-Chosen :
        (es : List (FormulaEvaluator I)) (bits : List Bool) (cs : ContractorStatus I)
        → All (λ e. ¬ (e.evaluate box ≡ unsat)) es
        → (bits' : List Bool) × (evaluate_rest I free_variables precision box es bits cs
            ≡ (some bits', cs))
          × Chosen es bits bits'
    unfolding evaluate_rest
    rest-Chosen [] bits cs h =
        (bits, refl, λ j l. (λ k. inr k, λ s. elim s [ inl (e, m, w) ↦ absurd m | inr k ↦ k ]))
    rest-Chosen (f ∷ es) bits cs h = elim (Evaluation-cases I (f.evaluate box)) [
      | inl q ↦
          let (b, e, c) = rest-Chosen es bits cs h.1 in
          (b, rw q e, Chosen-later f es bits b (λ j (i, u, small, kind, w). cc) c)
      | inr (inl q) ↦ absurd (h.0 q)
      | inr (inr (i, q)) ↦ elim (Bool-cases (le_double N (I.diam i) precision)) [
        | inl d ↦
            let (b, e, c) = rest-Chosen es bits cs h.1 in
            (
              b,
              rw (q, d) e,
              Chosen-later f es bits b
                  (λ j (k, u, small, kind, w).
                    let same : i ≡ k = unknown_injective (sym q ∙ u) in
                    let z : true ≡ false =
                      sym d ∙ ap (λ t. le_double N (I.diam t) precision) same ∙ small in
                    cc)
                  c,
            )
        | inr d ↦ elim (Bool-cases (f.is_simple_relational || f.is_neq)) [
          | inl k ↦
              let (b, e, c) = rest-Chosen es bits cs h.1 in
              (b, rw (q, d, k) e, Chosen-later f es bits b (λ j (t, u, small, plain, w). cc) c)
          | inr k ↦
              let (b, e, c) = rest-Chosen es (set_candidates I box f.variables bits) cs h.1 in
              (b, rw (q, d, k) e, Chosen-first f es bits b (λ j x. (i, q, d, k, x)) c)
        ]
      ]
    ]

    -- If no evaluator refutes the box, the status is left as it was, and the candidates are exactly
    -- the variables of the evaluators that are uncertain on the box by more than the precision and
    -- neither simple relational nor a disequality.
    pub evaluate_box_wanted :
        (es : List (FormulaEvaluator I)) (cs : ContractorStatus I)
        → All (λ e. ¬ (e.evaluate box ≡ unsat)) es
        → (bits : List Bool) × (evaluate_box I free_variables es box precision cs ≡ (some bits, cs))
          × ((j : ℕ)
              → j < length box.variables
              → (get_or bits j false ≡ true) ↔ ((e : FormulaEvaluator I) × Member e es × Wants j e))
    unfolding evaluate_box
    evaluate_box_wanted es cs h =
        let (bits, e, c) = rest-Chosen es (no_bits box.variables) cs h in
        (
          bits,
          e,
          λ j l.
              let l' : j < length (no_bits box.variables) =
                omega (arith, l, length-no_bits box.variables) in
              (
                λ s. elim ((c j l').0 s) [
                  | inl w ↦ w
                  | inr k ↦ absurd (not-IsMarked-no_bits box.variables j k)
                ],
                λ w. (c j l').1 (inl w),
              ),
        )
