-- ===== src/Solver/Context/Core.antt =====
-- `CheckSatCore` of src/dreal/solver/context_impl.cc. The SAT solver and the theory solver are
-- parameters with a state each; `round` is one turn of the loop, which takes fuel, whose end is
-- `none`. The two orders of `std::sort` are parameters. Times, logs and audits are left out.
pub mod Numeric
pub mod Sound
pub mod Ends
pub mod Backoff
use d_real_cmake.Prelude.{
  ℕ, zero, suc, ◌-◌, ◌*◌, Bool, true, false, List, [], ◌∷◌, map, Option, none, some, ltb, length,
  if◌then◌else◌, ◌&&◌, ◌||◌,
}
use d_real_cmake.Symbolic.Syntax.{Variable, Formula, true_formula, false_formula}
use d_real_cmake.Symbolic.Numbers.{Numbers}
use d_real_cmake.Symbolic.Builder.{Builder}
use d_real_cmake.Box.Interval.{Intervals}
use d_real_cmake.Box.{Box, empty, set_interval}

-- `SatSolver::Model`
pub record Model : Type 0 where
  pub boolean_model : List (Variable × Bool)
  pub theory_model : List (Variable × Bool)

module _ {N : Numbers} (I : Intervals N) where
  -- What `TheorySolver::CheckSat` answers, with `GetModel` or `GetExplanation`.
  pub data Verdict : Type 0 where
    delta_sat : Box I → Verdict
    unsat : List Formula → Verdict

  -- `learn` is `AddLearnedClauseDirect` and `learn_pattern` is `AddLearnedClausePattern`. `one` and
  -- `nought` are the intervals [1, 1] and [0, 0].
  pub record Solvers : Type 1 where
    pub Sat : Type 0
    pub Theory : Type 0
    pub check : Bool → Sat → Option (Model × Bool) × Sat
    pub theory_literal : Sat → Variable → Formula
    pub learn : List Formula → Box I → Sat → Sat
    pub learn_pattern : List Formula → Box I → Sat → Sat
    pub decide : Box I → List Formula → Theory → Verdict × Theory
    pub negation : Formula → Formula
    pub ascending : List Formula → List Formula
    pub descending : List Formula → List Formula
    pub one : I.Interval
    pub nought : I.Interval
    pub full_constraints : Bool
    pub drpm_max_size : ℕ

  pub data Answer : Type 0 where
    unsatisfiable : Answer
    satisfiable : Box I → Answer

  -- What the loop does after a turn: return, go on, or call `CheckSatCore` again.
  pub data Next : Type 0 where
    answer : Answer → Next
    again : Box I → Next
    restart : Box I → Next

  unfoldable pub contains_false : List Formula → Bool
  contains_false [] = false
  contains_false (false_formula ∷ fs) = true
  contains_false (f ∷ fs) = contains_false fs

  unfoldable pub is_trivial : List Formula → Bool
  is_trivial [] = true
  is_trivial (true_formula ∷ []) = true
  is_trivial fs = false

  module _ (P : Solvers) where
    pub record State : Type 0 where
      pub sat : P.Sat
      pub theory : P.Theory
      pub recent_under_constrained_deltasat : ℕ
      pub recent_under_constrained_deltasat_limit : ℕ

    unfoldable pub write_model : List (Variable × Bool) → Box I → Box I
    write_model [] box = box
    write_model ((v, assignment) ∷ model) box =
        write_model model (set_interval I box v (if assignment then P.one else P.nought))

    unfoldable pub literal : P.Sat → Variable × Bool → Formula
    literal sat (v, assignment) =
        if assignment then P.theory_literal sat v else P.negation (P.theory_literal sat v)

    unfoldable pub assertions : P.Sat → List (Variable × Bool) → List Formula
    assertions sat model = P.ascending (map (λ l. literal sat l) model)

    unfoldable pub learn_explanation : List Formula → Box I → P.Sat → P.Sat
    learn_explanation explanation box sat =
        let sorted = P.descending explanation in
        if ltb (length sorted) P.drpm_max_size
        then P.learn sorted box (P.learn_pattern sorted box sat)
        else P.learn sorted box sat

    -- The three branches on the theory solver's answer.
    unfoldable pub after_theory : Box I → State → Bool → Verdict → Next × State
    after_theory box s false (delta_sat model) = (
      restart box,
      record {
        sat = s.sat;
        theory = s.theory;
        recent_under_constrained_deltasat = s.recent_under_constrained_deltasat_limit;
        recent_under_constrained_deltasat_limit = s.recent_under_constrained_deltasat_limit * 2;
      },
    )
    after_theory box s true (delta_sat model) = (answer (satisfiable model), s)
    after_theory box s full (unsat explanation) = (
      again box,
      record {
        sat = learn_explanation explanation box s.sat;
        theory = s.theory;
        recent_under_constrained_deltasat = s.recent_under_constrained_deltasat - 1;
        recent_under_constrained_deltasat_limit = s.recent_under_constrained_deltasat_limit;
      },
    )

    unfoldable pub ask_theory : Box I → State → Bool → List (Variable × Bool) → Next × State
    ask_theory box s full [] = (answer (satisfiable box), s)
    ask_theory box s full (l ∷ ls) =
        let (verdict, theory) = P.decide box (assertions s.sat (l ∷ ls)) s.theory in
        after_theory box
          (record {
            sat = s.sat;
            theory = theory;
            recent_under_constrained_deltasat = s.recent_under_constrained_deltasat;
            recent_under_constrained_deltasat_limit = s.recent_under_constrained_deltasat_limit;
          })
          full verdict

    unfoldable pub after_check : Box I → State → Option (Model × Bool) → Next × State
    after_check box s none = (answer unsatisfiable, s)
    after_check box s (some (m, full)) =
        ask_theory (write_model m.boolean_model box) s full m.theory_model

    unfoldable pub request : State → Bool
    request s = P.full_constraints || ltb 0 s.recent_under_constrained_deltasat

    unfoldable pub round : Box I → State → Next × State
    round box s =
        let (model, sat) = P.check (request s) s.sat in
        after_check box
          (record {
            sat = sat;
            theory = s.theory;
            recent_under_constrained_deltasat = s.recent_under_constrained_deltasat;
            recent_under_constrained_deltasat_limit = s.recent_under_constrained_deltasat_limit;
          })
          model

    -- The tests before the loop.
    unfoldable pub begin :
        List Formula → Box I → State → Option (Answer × State) → Option (Answer × State)
    begin stack box s loop =
        if empty I box
        then some (unsatisfiable, s)
        else if contains_false stack
        then some (unsatisfiable, s)
        else if is_trivial stack
        then some (satisfiable box, s)
        else loop

    unfoldable pub follow :
        List Formula
        → (Box I → State → Option (Answer × State))
        → Next × State
        → Option (Answer × State)
    follow stack recur (answer a, s) = some (a, s)
    follow stack recur (again box, s) = recur box s
    follow stack recur (restart box, s) = begin stack box s (recur box s)

    unfoldable pub loop : ℕ → List Formula → Box I → State → Option (Answer × State)
    loop zero stack box s = none
    loop (suc fuel) stack box s = follow stack (λ b t. loop fuel stack b t) (round box s)

    unfoldable pub check_sat_core : ℕ → List Formula → Box I → State → Option (Answer × State)
    check_sat_core fuel stack box s = begin stack box s (loop fuel stack box s)
