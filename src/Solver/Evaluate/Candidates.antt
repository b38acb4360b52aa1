-- ===== src/Solver/Evaluate/Candidates.antt =====
-- When a verdict leaves nothing to branch on.
use d_real_cmake.Prelude.{
  ℕ, zero, suc, ◌<◌, ◌≡◌, refl, ◌∙◌, ap, inl, inr, Bool, true, false, List, [], ◌∷◌, some, ◌||◌,
  All, set, length, arith, Bool-cases,
}
use d_real_cmake.Symbolic.Syntax.{Variable, Formula, Double}
use d_real_cmake.Symbolic.Numbers.{Numbers, le_double}
use d_real_cmake.Box.Interval.{Intervals}
use d_real_cmake.Box.{Box, index, has_variable}
use d_real_cmake.Box.Points.{index-lt}
use d_real_cmake.Contractor.Status.{ContractorStatus, no_bits}
use d_real_cmake.Solver.Evaluate.{
  FormulaEvaluator, set_candidates, evaluate_rest, evaluate_box, no_bit_set,
}
use d_real_cmake.Solver.Evaluate.Verdicts.{Evaluation-cases, Settled}

set_none : (bits : List Bool) (i : ℕ) → no_bit_set (set bits i true) ≡ true → no_bit_set bits ≡ true
unfolding no_bit_set
set_none [] i h = h
set_none (b ∷ bs) zero h = cc
set_none (b ∷ bs) (suc i) h = ground (arith, set_none bs i)

set_some : (bits : List Bool) (i : ℕ) → i < length bits → no_bit_set (set bits i true) ≡ false
unfolding no_bit_set
set_some [] i h = absurd (omega arith)
set_some (b ∷ bs) zero h = refl
set_some (b ∷ bs) (suc i) h = ground (arith, set_some bs i)

pub length-set : (bits : List Bool) (i : ℕ) → length (set bits i true) ≡ length bits
length-set [] i = refl
length-set (b ∷ bs) zero = refl
length-set (b ∷ bs) (suc i) = ap suc (length-set bs i)

pub length-no_bits : {A : Type 0} (xs : List A) → length (no_bits xs) ≡ length xs
unfolding no_bits
length-no_bits [] = refl
length-no_bits (x ∷ xs) = ap suc (length-no_bits xs)

module _ {N : Numbers} (I : Intervals N) (box : Box I) where
  pub length-set_candidates :
      (vs : List Variable) (bits : List Bool) → length (set_candidates I box vs bits) ≡ length bits
  unfolding set_candidates
  length-set_candidates [] bits = refl
  length-set_candidates (v ∷ vs) bits =
      length-set_candidates vs (set bits (index box.variables v) true) ∙ length-set bits _

  candidates_none :
      (vs : List Variable) (bits : List Bool)
      → no_bit_set (set_candidates I box vs bits) ≡ true
      → no_bit_set bits ≡ true
  unfolding set_candidates
  candidates_none [] bits h = h
  candidates_none (v ∷ vs) bits h = set_none bits _ (candidates_none vs _ h)

  -- A variable of the box that is a candidate is a bit that is set.
  candidates_some :
      (v : Variable) (vs : List Variable) (bits : List Bool)
      → has_variable box.variables v ≡ true
      → length bits ≡ length box.variables
      → no_bit_set (set_candidates I box (v ∷ vs) bits) ≡ true
      → ⊥
  unfolding set_candidates
  candidates_some v vs bits h l e =
      let q = candidates_none vs _ e in
      let lt : index box.variables v < length bits = omega (arith, index-lt box.variables v h) in
      let q' = set_some bits _ lt in cc

  -- The evaluator has variables, and they are variables of the box.
  abbrev pub Ranged : FormulaEvaluator I → Type 0
  Ranged e =
      (v : Variable) × (vs : List Variable) × (e.variables ≡ v ∷ vs)
      × (has_variable box.variables v ≡ true)

  module _ (free_variables : Formula → List Variable) (precision : Double) where
    rest-Settled :
        (es : List (FormulaEvaluator I)) (bits bits' : List Bool) (cs cs' : ContractorStatus I)
        → All Ranged es
        → length bits ≡ length box.variables
        → evaluate_rest I free_variables precision box es bits cs ≡ (some bits', cs')
        → no_bit_set bits' ≡ true
        → (no_bit_set bits ≡ true) × All (Settled I precision box) es
    unfolding evaluate_rest
    rest-Settled [] bits bits' cs cs' r l e h = let q : bits ≡ bits' = cc in (rw q h, tt)
    rest-Settled (f ∷ es) bits bits' cs cs' r l e h = elim (Evaluation-cases I (f.evaluate box)) [
      | inl q ↦
          let (a, b) = rest-Settled es bits bits' cs cs' r.1 l (rw (q, evaluate_rest) at e) h in
          (a, (inl q, b))
      | inr (inl q) ↦ let e' = rw (q, evaluate_rest) at e in cc
      | inr (inr (i, q)) ↦ elim (Bool-cases (le_double N (I.diam i) precision)) [
        | inl d ↦
            let (a, b) =
              rest-Settled es bits bits' cs cs' r.1 l (rw (q, d, evaluate_rest) at e) h in
            (a, (inr (i, q, inl d), b))
        | inr d ↦ elim (Bool-cases (f.is_simple_relational || f.is_neq)) [
          | inl k ↦
              let (a, b) =
                rest-Settled es bits bits' cs cs' r.1 l (rw (q, d, k, evaluate_rest) at e) h in
              (a, (inr (i, q, inr k), b))
          | inr k ↦
              let (v, vs, s, has) = r.0 in
              let (a, b) =
                rest-Settled es (set_candidates I box f.variables bits) bits' cs cs' r.1
                  (length-set_candidates f.variables bits ∙ l) (rw (q, d, k, evaluate_rest) at e)
                  h in
              absurd (candidates_some v vs bits has l (rw s at a))
        ]
      ]
    ]

    -- With no candidate left, every evaluator is settled on the box: it is certain, or its value is
    -- known within the precision, or it is of a kind that is not branched on. Each evaluator is taken
    -- to have a variable, and the first to be in the box.
    pub evaluate_box-Settled :
        (es : List (FormulaEvaluator I)) (bits : List Bool) (cs cs' : ContractorStatus I)
        → All Ranged es
        → evaluate_box I free_variables es box precision cs ≡ (some bits, cs')
        → no_bit_set bits ≡ true
        → All (Settled I precision box) es
    unfolding evaluate_box
    evaluate_box-Settled es bits cs cs' r e h =
        (rest-Settled es _ bits cs cs' r (length-no_bits box.variables) e h).1

    rest_same :
        (es : List (FormulaEvaluator I)) (bits bits' : List Bool) (cs cs' : ContractorStatus I)
        → evaluate_rest I free_variables precision box es bits cs ≡ (some bits', cs')
        → cs' ≡ cs
    unfolding evaluate_rest
    rest_same [] bits bits' cs cs' e = cc
    rest_same (f ∷ es) bits bits' cs cs' e = elim (Evaluation-cases I (f.evaluate box)) [
      | inl q ↦ rest_same es bits bits' cs cs' (rw (q, evaluate_rest) at e)
      | inr (inl q) ↦ let e' = rw (q, evaluate_rest) at e in cc
      | inr (inr (i, q)) ↦ rest_same es _ bits' cs cs' (rw (q, evaluate_rest) at e)
    ]

    pub evaluate_box_same :
        (es : List (FormulaEvaluator I)) (bits : List Bool) (cs cs' : ContractorStatus I)
        → evaluate_box I free_variables es box precision cs ≡ (some bits, cs')
        → cs' ≡ cs
    unfolding evaluate_box
    evaluate_box_same es bits cs cs' e = rest_same es _ bits cs cs' e
