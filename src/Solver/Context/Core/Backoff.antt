-- ===== src/Solver/Context/Core/Backoff.antt =====
-- The counters of the backoff, over any number of turns of the cycle.
use d_real_cmake.Prelude.{
  ℕ, suc, ◌+◌, ◌-◌, ◌*◌, ◌^◌, ◌<◌, ◌≤◌, ◌≡◌, refl, subst, Bool, true, false, List, [], ◌∷◌, Option,
  none, some, arith,
}
use d_real_cmake.Symbolic.Syntax.{Variable}
use d_real_cmake.Symbolic.Numbers.{Numbers}
use d_real_cmake.Box.Interval.{Intervals}
use d_real_cmake.Box.{Box}
use d_real_cmake.Solver.Context.Core.{
  Model, Verdict, delta_sat, unsat, Solvers, Next, answer, again, restart, State, after_theory,
  ask_theory, after_check, round,
}
use d_real_cmake.Solver.Context.Core.Ends.{AnswersFull, not_full}

module _ {N : Numbers} (I : Intervals N) (P : Solvers I) where
  -- The turns from one state of the cycle to another, with the number of refuted models among them.
  pub data Turns (box : Box I) (s : State I P) : ℕ → Box I → State I P → Type 0 where
    stay : Turns box s 0 box s
    refuted :
        {n : ℕ} {b c : Box I} {t u : State I P}
        → Turns box s n b t
        → round I P b t ≡ (again c, u)
        → Turns box s (suc n) c u
    unrefuted :
        {n : ℕ} {b c : Box I} {t u : State I P}
        → Turns box s n b t
        → round I P b t ≡ (restart c, u)
        → Turns box s n c u

  -- The counters after a number of refuted models.
  abbrev pub Within : ℕ → State I P → Type 0
  Within n s =
      (s.recent_under_constrained_deltasat_limit ≤ n + s.recent_under_constrained_deltasat + 2)
      × (2 * s.recent_under_constrained_deltasat ≤ s.recent_under_constrained_deltasat_limit)

  abbrev Moves : ℕ → Next I × State I P → Type 0
  Moves n (answer a, s) = Unit
  Moves n (again b, s) = Within (suc n) s
  Moves n (restart b, s) = Within n s

  module _ (n : ℕ) where
    after_theory-Moves :
        (box : Box I) (t : State I P) (full : Bool) (v : Verdict I)
        → (full ≡ false → t.recent_under_constrained_deltasat ≡ 0)
        → Within n t
        → Moves n (after_theory I P box t full v)
    unfolding after_theory
    after_theory-Moves box t false (delta_sat model) partial w =
        let idle = partial refl in (omega (arith, idle, w.0), omega arith)
    after_theory-Moves box t true (delta_sat model) partial w = tt
    after_theory-Moves box t true (unsat explanation) partial w =
        (omega (arith, w.0), omega (arith, w.1))
    after_theory-Moves box t false (unsat explanation) partial w =
        (omega (arith, w.0), omega (arith, w.1))

    ask_theory-Moves :
        (box : Box I) (t : State I P) (full : Bool) (model : List (Variable × Bool))
        → (full ≡ false → t.recent_under_constrained_deltasat ≡ 0)
        → Within n t
        → Moves n (ask_theory I P box t full model)
    unfolding ask_theory
    ask_theory-Moves box t full [] partial w = tt
    ask_theory-Moves box t full (d ∷ ds) partial w = after_theory-Moves box _ full _ partial w

    after_check-Moves :
        (box : Box I) (t : State I P) (o : Option (Model × Bool))
        → ((model : Model) → o ≡ some (model, false) → t.recent_under_constrained_deltasat ≡ 0)
        → Within n t
        → Moves n (after_check I P box t o)
    unfolding after_check
    after_check-Moves box t none partial w = tt
    after_check-Moves box t (some (model, true)) partial w =
        let z : true ≡ false → t.recent_under_constrained_deltasat ≡ 0 = λ e. cc in
        ask_theory-Moves _ t true model.theory_model z w
    after_check-Moves box t (some (model, false)) partial w =
        ask_theory-Moves _ t false model.theory_model (λ e. partial model refl) w

    round-Moves :
        AnswersFull I P → (box : Box I) (s : State I P) → Within n s → Moves n (round I P box s)
    unfolding round
    round-Moves obeys box s w =
        after_check-Moves box _ _ (λ model e. not_full I P obeys s model e) w

  Turns-Within :
      {box : Box I} {s : State I P} {n : ℕ} {c : Box I} {t : State I P}
      → AnswersFull I P
      → Within 0 s
      → Turns box s n c t
      → Within n t
  Turns-Within obeys w stay = w
  Turns-Within obeys w (refuted {n} {b} {c} {t} {u} turns e) =
      subst (Moves n) e (round-Moves n obeys b t (Turns-Within obeys w turns))
  Turns-Within obeys w (unrefuted {n} {b} {c} {t} {u} turns e) =
      subst (Moves n) e (round-Moves n obeys b t (Turns-Within obeys w turns))

-- From counters that are 0 and 2, as they are when the context is made, the limit of the backoff
-- stays below the overflow of a 32-bit `int` while fewer than 2^30 - 2 models have been refuted:
-- after any turns it is at most twice the number of refuted models and 4. The SAT solver is taken
-- to give a full model when asked for one.
pub backoff_bounded :
    {N : Numbers} (I : Intervals N) (P : Solvers I) (n : ℕ) (box c : Box I) (s t : State I P)
    → AnswersFull I P
    → s.recent_under_constrained_deltasat ≡ 0
    → s.recent_under_constrained_deltasat_limit ≡ 2
    → Turns I P box s n c t
    → (t.recent_under_constrained_deltasat_limit ≤ 2 * n + 4)
      × (n < 2 ^ 30 - 2 → t.recent_under_constrained_deltasat_limit < 2 ^ 31)
backoff_bounded I P n box c s t obeys idle two turns =
    let w = Turns-Within I P obeys (omega (arith, idle, two), omega (arith, idle, two)) turns in
    (omega (arith, w), λ few. omega (arith, w, few))
