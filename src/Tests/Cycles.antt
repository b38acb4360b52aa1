-- ===== src/Tests/Cycles.antt =====
-- A SAT solver with one atom and a theory solver that knows it to hold.
use d_real_cmake.Prelude.{
  ℕ, zero, suc, ◌+◌, ◌-◌, ◌*◌, ◌^◌, ◌<◌, ◌≤◌, ◌≡◌, ◌≢◌, refl, Bool, true, false, List, [], ◌∷◌,
  Option, none, some, arith, All, ap, subst, sym, some_injective, Bool-cases, inl, inr, ltb, length,
}
use d_real_cmake.Symbolic.Syntax.{Variable, boolean, Formula, constant, leq, neg}
use d_real_cmake.Symbolic.Meaning.{eval}
use d_real_cmake.Box.{Box, set_interval, index, position}
use d_real_cmake.Solver.Context.Core.{
  Model, Verdict, delta_sat, unsat, Solvers, Answer, unsatisfiable, State, again, write_model,
  literal, assertions, learn_explanation, after_theory, ask_theory, after_check, request, round,
  check_sat_core,
}
use d_real_cmake.Solver.Context.Core.Sound.{Promises, check_sat_core_sound}
use d_real_cmake.Solver.Context.Core.Numeric.{declared_boolean, is_boolean_type}
use d_real_cmake.Solver.Context.Core.Ends.{AnswersFull, Shrinks, check_sat_core_ends}
use d_real_cmake.Solver.Context.Core.Backoff.{Turns, stay, refuted, backoff_bounded}
use d_real_cmake.Tests.Instances.{intervals, semantics, x, n}

abbrev p : Variable
p = record { id = 2; kind = boolean }

abbrev atom : Formula
atom = leq (constant 1) (constant 2)

abbrev check : Bool → ℕ → Option (Model × Bool) × ℕ
check r zero =
    (some (record { boolean_model = (p, true) ∷ []; theory_model = (p, false) ∷ [] }, r), zero)
check r (suc k) =
    (some (record { boolean_model = (p, true) ∷ []; theory_model = (p, true) ∷ [] }, true), suc k)

abbrev decide : Box intervals → List Formula → ℕ → Verdict intervals × ℕ
decide box (neg f ∷ fs) calls = (unsat (neg atom ∷ []), suc calls)
decide box fs calls = (delta_sat box, suc calls)

abbrev solvers : Solvers intervals
solvers = record {
  Sat = ℕ;
  Theory = ℕ;
  check = check;
  theory_literal = λ sat b. atom;
  learn = λ fs box sat. 1;
  learn_pattern = λ fs box sat. sat;
  decide = decide;
  negation = neg;
  ascending = λ fs. fs;
  descending = λ fs. fs;
  one = (1, 1);
  nought = (0, 0);
  full_constraints = false;
  drpm_max_size = 8;
}

abbrev box : Box intervals
box = record { variables = x ∷ n ∷ p ∷ []; values = (0, 8) ∷ (0, 8) ∷ (0, 1) ∷ [] }

abbrev fresh : State intervals solvers
fresh = record {
  sat = 0;
  theory = 0;
  recent_under_constrained_deltasat = 0;
  recent_under_constrained_deltasat_limit = 2;
}

only_explanation :
    (b : Box intervals) (fs explanation : List Formula) (calls : ℕ)
    → (decide b fs calls).0 ≡ unsat explanation
    → explanation ≡ neg atom ∷ []
only_explanation b (neg f ∷ fs) explanation calls e = cc
only_explanation b _ explanation calls e = cc

never : (r : Bool) (sat : ℕ) → (check r sat).0 ≡ none → ⊥
never r zero e = cc
never r (suc k) e = cc

boolean_only :
    (r : Bool) (sat : ℕ) (m : Model) (full : Bool)
    → (check r sat).0 ≡ some (m, full)
    → (p, true) ∷ [] ≡ m.boolean_model
boolean_only r zero m full e = ap (λ (q : Model × Bool). q.0.boolean_model) (some_injective e)
boolean_only r (suc k) m full e = ap (λ (q : Model × Bool). q.0.boolean_model) (some_injective e)

All-declared :
    (model : List (Variable × Bool))
    → (p, true) ∷ [] ≡ model
    → All (λ (l : Variable × Bool). declared_boolean box.variables l.0 ≡ true) model
unfolding declared_boolean is_boolean_type
All-declared model e =
    subst (All (λ (l : Variable × Bool). declared_boolean box.variables l.0 ≡ true)) e (refl, tt)

atom_holds : (ρ : ℕ → ℕ) → eval semantics atom ρ ≡ true
unfolding eval
atom_holds ρ = refl

atom_fails :
    (explanation : List Formula) (ρ : ℕ → ℕ)
    → explanation ≡ neg atom ∷ []
    → All (λ f. eval semantics f ρ ≡ true) explanation
    → ⊥
unfolding eval
atom_fails explanation ρ e all =
    let k = subst (All (λ f. eval semantics f ρ ≡ true)) e all in let no : false ≡ true = k.0 in cc

abbrev allows : Promises semantics intervals solvers box.variables (λ ρ i. ρ i)
allows = record {
  Allows = λ sat ρ. eval semantics atom ρ ≡ true;
  check_none = λ r sat ρ e a. never r sat e;
  check_allows = λ r sat ρ a. a;
  check_declared = λ r sat m full e. All-declared m.boolean_model (boolean_only r sat m full e);
  learn_allows = λ fs b sat ρ no a. a;
  learn_pattern_allows = λ fs b sat ρ inside no a. a;
  decide_unsat = λ b fs explanation calls ρ e inside all.
      atom_fails explanation ρ (only_explanation b fs explanation calls e) all;
  descending_sorts = λ fs f m. m;
  one_lem = refl;
  nought_lem = refl;
}

abbrev twos : ℕ → ℕ
twos i = 2

check_sat_core_sound_example :
    check_sat_core intervals solvers 3 (atom ∷ []) box fresh ≢ some (unsatisfiable, fresh)
check_sat_core_sound_example =
    check_sat_core_sound semantics intervals solvers (λ ρ i. ρ i) 3 (atom ∷ []) box fresh fresh
      allows twos (atom_holds twos, tt) (refl, (refl, (refl, tt))) (atom_holds twos)

abbrev left : ℕ → ℕ
left sat = 1 - sat

always_full : AnswersFull intervals solvers
always_full zero m full e = sym (ap (λ (q : Model × Bool). q.1) (some_injective e))
always_full (suc k) m full e = sym (ap (λ (q : Model × Bool). q.1) (some_injective e))

learned :
    (explanation : List Formula) (b : Box intervals) (sat : ℕ)
    → learn_explanation intervals solvers explanation b sat ≡ 1
unfolding learn_explanation
learned explanation b sat = elim (Bool-cases (ltb (length explanation) 8)) [
  | inl e ↦ rw e refl
  | inr e ↦ rw e refl
]

lowered : (r : Bool) (sat : ℕ) → left (check r sat).1 ≤ left sat
lowered r zero = omega arith
lowered r (suc k) = omega arith

lowers :
    (r : Bool) (sat : ℕ) (m : Model) (full : Bool) (b : Box intervals) (calls : ℕ)
    (explanation : List Formula)
    → (check r sat).0 ≡ some (m, full)
    → (decide b (assertions intervals solvers (check r sat).1 m.theory_model) calls).0
      ≡ unsat explanation
    → left (learn_explanation intervals solvers explanation b (check r sat).1) < left sat
unfolding assertions literal
lowers r zero m full b calls explanation e d = rw (learned explanation b 0) (omega arith)
lowers r (suc k) m full b calls explanation e d =
    let model = ap (λ (q : Model × Bool). q.0.theory_model) (some_injective e) in
    let kept : delta_sat b ≡ unsat explanation =
      subst
        (λ (ms : List (Variable × Bool)).
          (decide b (assertions intervals solvers (suc k) ms) calls).0 ≡ unsat explanation)
        (sym model) d in
    let z : ⊥ = cc in absurd z

shrinks : Shrinks intervals solvers left
shrinks = record {
  check_lem = λ r sat. lowered r sat;
  check_full = always_full;
  learn_lem = lowers;
}

check_sat_core_ends_example :
    (a : Answer intervals) × (t : State intervals solvers) × (check_sat_core intervals solvers 4
        (atom ∷ [])
        box
        fresh
      ≡ some (a, t))
check_sat_core_ends_example =
    check_sat_core_ends intervals solvers left shrinks 4 (atom ∷ []) box fresh (omega arith)
      (omega arith)

-- The first model is refuted.
abbrev learned_once : State intervals solvers
learned_once = record {
  sat = 1;
  theory = 1;
  recent_under_constrained_deltasat = 0;
  recent_under_constrained_deltasat_limit = 2;
}

abbrev written : Box intervals
written = record { variables = box.variables; values = (0, 8) ∷ (0, 8) ∷ (1, 1) ∷ [] }

first_turn : round intervals solvers box fresh ≡ (again written, learned_once)
unfolding round request after_check ask_theory after_theory write_model learn_explanation assertions
    literal set_interval index position
first_turn = refl

one_turn : Turns intervals solvers box fresh 1 written learned_once
one_turn = refuted stay first_turn

backoff_bounded_example : (2 ≤ 2 * 1 + 4) × (1 < 2 ^ 30 - 2 → 2 < 2 ^ 31)
backoff_bounded_example =
    backoff_bounded intervals solvers 1 box written fresh learned_once always_full refl refl
      one_turn
