-- ===== src/Tests/Searches.antt =====
-- The search on one variable, with the test that the double 5 is in its interval.
use d_real_cmake.Prelude.{
  ℕ, suc, ◌<◌, ◌-◌, ◌≡◌, refl, ◌⊎◌, inl, inr, Bool, true, false, List, [], ◌∷◌, Option, none, some,
  All, leb, ltb, if◌then◌else◌, arith, Bool-cases, Member, get_or, ◌↔◌, sym, subst, ◌&&◌,
}
use d_real_cmake.Symbolic.Syntax.{Variable, eq, variable, constant}
use d_real_cmake.Box.{Box, empty, set_empty, index, position, has_variable}
use d_real_cmake.Box.Points.{Inside}
use d_real_cmake.Contractor.Status.{
  ContractorStatus, no_bits, add_used_constraint, add_unsat_witness, add_unsat_witnesses,
}
use d_real_cmake.Solver.Evaluate.{
  Evaluation, FormulaEvaluator, valid, unsat, unknown, evaluate_box, no_bit_set, set_candidates,
}
use d_real_cmake.Solver.Evaluate.Verdicts.{Settled}
use d_real_cmake.Solver.Evaluate.Wanted.{Wants, evaluate_box_wanted}
use d_real_cmake.Solver.Evaluate.Candidates.{Ranged, evaluate_box-Settled}
use d_real_cmake.Solver.Icp.{Parts, check_sat, loop, round, push_children, initial_stack}
use d_real_cmake.Solver.Icp.Sound.{Respects, check_sat_sound}
use d_real_cmake.Solver.Icp.Ends.{Shrinks, cost, weight, check_sat_ends}
use d_real_cmake.Solver.Icp.Found.{IsDeltaBox, check_sat_found}
use d_real_cmake.Tests.Instances.{intervals, middle, covered, x}

abbrev pub line : ℕ × ℕ → Box intervals
line i = record { variables = x ∷ []; values = i ∷ [] }

-- The constraint `x = 5`, by interval evaluation.
abbrev judge : List (ℕ × ℕ) → Evaluation intervals
judge [] = valid
judge (i ∷ is') = if leb i.0 5 && leb 5 i.1 then unknown i else unsat

abbrev pub five : FormulaEvaluator intervals
five = record {
  evaluate = λ b. judge b.values;
  formula = eq (variable x) (constant 5);
  variables = x ∷ [];
  is_simple_relational = false;
  is_neq = false;
}

-- The first variable is halved.
abbrev halve : List Variable → List (ℕ × ℕ) → Option (ℕ × Box intervals × Box intervals)
halve vs [] = none
halve vs (i ∷ is') =
    if ltb (suc i.0) i.1
    then some (
      0,
      record { variables = vs; values = (i.0, middle i) ∷ is' },
      record { variables = vs; values = (middle i, i.1) ∷ is' },
    )
    else none

abbrev pub parts : Parts intervals
parts = record {
  free_variables = λ f. x ∷ [];
  prune = λ cs. cs;
  evaluators = five ∷ [];
  precision = 1;
  brancher = λ b bits. halve b.variables b.values;
  seed_boxes = λ b. [];
  seeds_enabled = true;
  stack_left_box_first = false;
}

abbrev low : ContractorStatus intervals
low = record {
  box = line (0, 4);
  branching_point = none;
  output = false ∷ [];
  used_constraints = [];
  inconclusive_odes = [];
  unsat_witness = [];
}

abbrev high : ContractorStatus intervals
high = record low { box = line (4, 8) }

-- The point at which the constraint holds.
abbrev pub solution : ℕ → ℕ
solution i = 10

not-refuted-five :
    (vs : List Variable) (is' : List (ℕ × ℕ))
    → Inside intervals solution (record { variables = vs; values = is' })
    → ¬ (judge is' ≡ unsat)
not-refuted-five vs [] w e = cc
not-refuted-five [] (i ∷ is') w e = absurd w
not-refuted-five (v ∷ vs) (i ∷ is') w e =
    let m = w.0 in
    let q : (leb i.0 5 && leb 5 i.1) ≡ true = ground arith in
    let e' : ◌≡◌ {A = Evaluation intervals} (unknown i) unsat = rw q at e in cc

five_respected : (b : Box intervals) → Inside intervals solution b → ¬ (judge b.values ≡ unsat)
five_respected b w = not-refuted-five b.variables b.values w

halve_lem :
    (vs : List Variable) (is' : List (ℕ × ℕ)) (dim : ℕ) (l r : Box intervals)
    → halve vs is' ≡ some (dim, l, r)
    → (i : ℕ × ℕ) × (js : List (ℕ × ℕ)) × (is' ≡ i ∷ js)
      × (ltb (suc i.0) i.1 ≡ true)
      × (l ≡ record { variables = vs; values = (i.0, middle i) ∷ js })
      × (r ≡ record { variables = vs; values = (middle i, i.1) ∷ js })
halve_lem vs [] dim l r e = cc
halve_lem vs (i ∷ js) dim l r e = elim (Bool-cases (ltb (suc i.0) i.1)) [
  | inl q ↦ let e' = rw q at e in (i, js, refl, q, cc, cc)
  | inr q ↦ let e' = rw q at e in cc
]

halves_cover :
    (vs : List Variable) (i : ℕ × ℕ) (js : List (ℕ × ℕ))
    → Inside intervals solution (record { variables = vs; values = i ∷ js })
    → Inside intervals solution (record { variables = vs; values = (i.0, middle i) ∷ js })
      ⊎ Inside intervals solution (record { variables = vs; values = (middle i, i.1) ∷ js })
halves_cover [] i js w = absurd w
halves_cover (v ∷ vs) i js w = elim (covered i 10 w.0) [
  | inl m ↦ inl (m, w.1)
  | inr m ↦ inr (m, w.1)
]

pub respects : Respects intervals parts solution
respects = record {
  prune_keeps = λ cs w. w;
  not_refuted = λ b w. (five_respected b w, tt);
  covers = λ b bits dim l r e w.
      let (i, js, s, q, a, c) = halve_lem b.variables b.values dim l r e in
      let w' =
        subst (λ k. Inside intervals solution (record { variables = b.variables; values = k })) s
          w in
      elim (halves_cover b.variables i js w') [
        | inl h ↦ inl (subst (Inside intervals solution) (sym a) h)
        | inr h ↦ inr (subst (Inside intervals solution) (sym c) h)
      ];
}

abbrev refuted : ContractorStatus intervals
refuted = record {
  box = line (1, 0);
  branching_point = none;
  output = false ∷ [];
  used_constraints = eq (variable x) (constant 5) ∷ [];
  inconclusive_odes = [];
  unsat_witness = x ∷ [];
}

answered_low : check_sat intervals parts 2 low ≡ some (false, refuted)
unfolding check_sat loop initial_stack round evaluate_box empty set_empty add_used_constraint
    add_unsat_witnesses add_unsat_witness no_bits
answered_low = refl

check_sat_sound_example : ¬ Inside intervals solution low.box
check_sat_sound_example =
    check_sat_sound intervals parts solution respects 2 low refuted answered_low

abbrev solved : ContractorStatus intervals
solved = record low { box = line (5, 6); branching_point = some 0 }

answered_high : check_sat intervals parts 9 high ≡ some (true, solved)
unfolding check_sat loop initial_stack round evaluate_box empty no_bits no_bit_set set_candidates
    index position push_children
answered_high = refl

ranged : Ranged intervals (line (5, 6)) five
unfolding has_variable
ranged = (x, [], refl, refl)

check_sat_found_example : IsDeltaBox intervals parts solved
check_sat_found_example = check_sat_found intervals parts 9 high solved answered_high (ranged, tt)

abbrev width : List (ℕ × ℕ) → ℕ
width [] = 0
width (i ∷ is') = i.1 - i.0

shrinks : Shrinks intervals parts (λ b. width b.values)
shrinks = record {
  prune_size = λ cs. omega arith;
  branch_size = λ b bits dim l r e.
      let (i, js, s, q, a, c) = halve_lem b.variables b.values dim l r e in
      rw (s, a, c) (ground arith, ground arith);
}

light : weight intervals parts (λ b. width b.values) (initial_stack intervals parts high) < 1000
unfolding weight cost initial_stack
light = omega arith

check_sat_ends_example :
    (b : Bool) × (end : ContractorStatus intervals) × (check_sat intervals parts 1000 high
      ≡ some (b, end))
check_sat_ends_example =
    check_sat_ends intervals parts (λ b. width b.values) shrinks 1000 high light

evaluate_box_wanted_example :
    (bits : List Bool) × (evaluate_box intervals (λ f. x ∷ []) (five ∷ []) (line (4, 8)) 1 high
      ≡ (some bits, high))
    × ((j : ℕ)
        → j < 1
        → (get_or bits j false ≡ true) ↔ (
            (e : FormulaEvaluator intervals) × Member e (five ∷ [])
            × Wants intervals (line (4, 8)) (λ f. x ∷ []) 1 j e))
evaluate_box_wanted_example =
    evaluate_box_wanted intervals (line (4, 8)) (λ f. x ∷ []) 1 (five ∷ []) high
      (five_respected (line (4, 8)) (refl, tt), tt)

no_candidate :
    evaluate_box intervals (λ f. x ∷ []) (five ∷ []) (line (5, 6)) 1 high
    ≡ (some (false ∷ []), high)
unfolding evaluate_box no_bits
no_candidate = refl

none_set : no_bit_set (false ∷ []) ≡ true
unfolding no_bit_set
none_set = refl

evaluate_box-Settled_example : All (Settled intervals 1 (line (5, 6))) (five ∷ [])
evaluate_box-Settled_example =
    evaluate_box-Settled intervals (line (5, 6)) (λ f. x ∷ []) 1 (five ∷ []) (false ∷ []) high high
      (ranged, tt) no_candidate none_set
