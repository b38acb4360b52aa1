-- ===== src/Tests/Theories.antt =====
-- A conjunction of two literals given to the theory solver.
use d_real_cmake.Prelude.{
  ℕ, ◌≡◌, refl, ◌/◌, true, false, List, [], ◌∷◌, some, All, ltb, leb, not, arith, Bool-cases,
  if◌then◌else◌, inl, inr,
}
use d_real_cmake.Symbolic.Syntax.{
  Variable, Expression, variable, constant, term, Formula, false_formula, eq, gt,
}
use d_real_cmake.Symbolic.Meaning.{eval}
use d_real_cmake.Box.{has_variable, interval, index, position, set_empty}
use d_real_cmake.Box.Points.{Inside}
use d_real_cmake.Filter.Fits.{Knows}
use d_real_cmake.Contractor.Combine.{Contractor, seq}
use d_real_cmake.Contractor.Combine.Keeps.{Keeps}
use d_real_cmake.Contractor.Combine.Stages.{seq_order}
use d_real_cmake.Solver.Context.Core.{unsat}
use d_real_cmake.Solver.Theory.{Tools, theory_check}
use d_real_cmake.Solver.Theory.Filtering.{Holds}
use d_real_cmake.Solver.Theory.Sound.{Careful, theory_check_sound}
use d_real_cmake.Tests.Instances.{intervals, semantics, reads, on_grid, x}
use d_real_cmake.Tests.Abstractions.{formulas}
use d_real_cmake.Tests.Searches.{line, parts, five, solution, respects}

-- The first is filtered into the box, the second gets a contractor.
abbrev is_five : Formula
is_five = eq (variable x) (constant 5)

abbrev above_three : Formula
above_three = gt (variable x) (term 6)

-- Raises the lower bound of the first interval to half of the real `n`.
abbrev lift : ℕ → List (ℕ × ℕ) → List (ℕ × ℕ)
lift n [] = []
lift n (i ∷ is') = if ltb i.0 (n / 2) then (n / 2, i.1) ∷ is' else i ∷ is'

abbrev lift_between : Expression → Expression → Contractor intervals
lift_between (variable v) (term n) cs = record cs {
  box = record { variables = cs.box.variables; values = lift n cs.box.values };
}
lift_between _ _ cs = cs

-- A lower bound is used and a false formula empties the box.
abbrev shave : Formula → Contractor intervals
shave (gt a b) cs = lift_between a b cs
shave false_formula cs = record cs { box = set_empty intervals cs.box }
shave _ cs = cs

abbrev tools : Tools intervals
tools = record {
  eq_formula = formulas;
  include_ode = λ f. false;
  contractor_of = λ (f, b). shave f;
  evaluator_of = λ f. five;
  order = λ cs. cs;
  integer_contractor = λ b cs. cs;
  further = λ b fs. [];
  forward = λ b fs. [];
  backward = λ b fs. [];
  fixpoint = seq intervals;
  parts = parts;
}

Inside-lift :
    (n : ℕ) (vs : List Variable) (is' : List (ℕ × ℕ))
    → not (leb 10 n) ≡ true
    → Inside intervals solution (record { variables = vs; values = is' })
    → Inside intervals solution (record { variables = vs; values = lift n is' })
Inside-lift n vs [] h w = w
Inside-lift n [] (i ∷ is') h w = absurd w
Inside-lift n (v ∷ vs) (i ∷ is') h w = elim (Bool-cases (ltb i.0 (n / 2))) [
  | inl e ↦ let m = w.0 in rw e (ground arith, w.1)
  | inr e ↦ rw e w
]

lift_between-Keeps :
    (a b : Expression)
    → Holds semantics solution (gt a b)
    → Keeps intervals solution (lift_between a b)
unfolding eval
lift_between-Keeps (variable v) (term n) h cs w = Inside-lift n cs.box.variables cs.box.values h w
lift_between-Keeps _ _ h cs w = w

shave-Keeps : (f : Formula) → Holds semantics solution f → Keeps intervals solution (shave f)
unfolding eval
shave-Keeps (gt a b) h cs w = lift_between-Keeps a b h cs w
shave-Keeps false_formula h cs w = let z : ⊥ = cc in absurd z
shave-Keeps _ h cs w = w

tools-Careful : Careful semantics intervals tools solution solution
tools-Careful = record {
  contractor_keeps = λ f b h. shave-Keeps f h;
  integer_keeps = λ b cs w. w;
  further_keep = λ b fs h. tt;
  forward_keep = λ b fs h. tt;
  backward_keep = λ b fs h. tt;
  order_keeps = λ cs h. h;
  fixpoint_keeps = λ cts h cs w. ((seq_order intervals cts cs).1 solution h w).1;
  not_refuted = λ f b h w. (respects.not_refuted b w).0;
  covers = respects.covers;
}

hold : All (Holds semantics solution) (is_five ∷ above_three ∷ [])
unfolding eval
hold = (refl, (refl, tt))

known : All (Knows intervals (line (0, 8))) (is_five ∷ above_three ∷ [])
unfolding interval index position has_variable
known = (((refl, refl), tt), (((refl, refl), tt), tt))

theory_check_sound_example : ¬ (
    theory_check intervals tools 9 (line (0, 8)) (is_five ∷ above_three ∷ [])
    ≡ some (unsat (is_five ∷ [])))
theory_check_sound_example =
    theory_check_sound semantics intervals tools solution solution (on_grid (λ i. 5))
      (reads solution) tools-Careful 9 (line (0, 8)) (is_five ∷ above_three ∷ []) hold known
      (refl, tt) (is_five ∷ [])
