-- ===== src/Solver/Context/Core/Ends.antt =====
-- The cycle ends: a refuted model is not found again, and after a model that is not full the next
-- ones are.
use d_real_cmake.Prelude.{
  ℕ, zero, suc, ◌+◌, ◌-◌, ◌*◌, ◌<◌, ◌≤◌, ◌≡◌, refl, Bool, true, false, List, [], ◌∷◌, Option, none,
  some, ltb, arith, inl, inr, Bool-cases, ◌||◌,
}
use d_real_cmake.Symbolic.Syntax.{Variable, Formula}
use d_real_cmake.Symbolic.Numbers.{Numbers}
use d_real_cmake.Box.Interval.{Intervals}
use d_real_cmake.Box.{Box, empty}
use d_real_cmake.Solver.Context.Core.{
  Model, Verdict, delta_sat, unsat, Solvers, Answer, unsatisfiable, satisfiable, Next, answer,
  again, restart, State, contains_false, is_trivial, assertions, learn_explanation, after_theory,
  ask_theory, after_check, request, round, begin, follow, loop, check_sat_core,
}

or_false : (a b : Bool) → (a || b) ≡ false → b ≡ false
or_false false b h = h
or_false true b h = cc

module _ {N : Numbers} (I : Intervals N) (P : Solvers I) where
  -- A model is full when that is asked for.
  abbrev pub AnswersFull : Type 0
  AnswersFull =
      (sat : P.Sat) (m : Model) (full : Bool) → (P.check true sat).0 ≡ some (m, full) → full ≡ true

  request-false : (s : State I P) → request I P s ≡ false → s.recent_under_constrained_deltasat ≡ 0
  unfolding request
  request-false s e =
      let quiet = or_false P.full_constraints (ltb 0 s.recent_under_constrained_deltasat) e in
      ground arith

  pub not_full :
      AnswersFull
      → (s : State I P) (model : Model) → (P.check (request I P s) s.sat).0 ≡ some (model, false)
      → s.recent_under_constrained_deltasat ≡ 0
  not_full obeys s model e = elim (Bool-cases (request I P s)) [
    | inl q ↦
        let no : false ≡ true = obeys s.sat model false (rw q at e) in let z : ⊥ = cc in absurd z
    | inr q ↦ request-false s q
  ]

  -- The measure counts what the clauses still allow. A check does not raise it and gives a full
  -- model when asked for one, and the clause learned from a refuted model lowers it.
  pub record Shrinks (measure : P.Sat → ℕ) : Type 0 where
    pub check_lem : (r : Bool) (sat : P.Sat) → measure (P.check r sat).1 ≤ measure sat
    pub check_full : AnswersFull
    pub learn_lem :
        (r : Bool) (sat : P.Sat) (m : Model) (full : Bool) (box : Box I) (theory : P.Theory)
        (explanation : List Formula)
        → (P.check r sat).0 ≡ some (m, full)
        → (P.decide box (assertions I P (P.check r sat).1 m.theory_model) theory).0
          ≡ unsat explanation
        → measure (learn_explanation I P explanation box (P.check r sat).1) < measure sat

  module _ (measure : P.Sat → ℕ) (H : Shrinks measure) where
    abbrev potential : State I P → ℕ
    potential s = 2 * measure s.sat + (1 - s.recent_under_constrained_deltasat)

    abbrev Goes : ℕ → State I P → Type 0
    Goes n s = (potential s < n) × (0 < s.recent_under_constrained_deltasat_limit)

    abbrev Progress : ℕ → Next I × State I P → Type 0
    Progress n (answer a, s) = Unit
    Progress n (again b, s) = Goes n s
    Progress n (restart b, s) = Goes n s

    after_theory-Progress :
        (box : Box I) (t : State I P) (m : ℕ) (full : Bool) (v : Verdict I)
        → 0 < t.recent_under_constrained_deltasat_limit
        → (full ≡ false → t.recent_under_constrained_deltasat ≡ 0)
        → measure t.sat ≤ m
        → ((explanation : List Formula)
            → v ≡ unsat explanation
            → measure (learn_explanation I P explanation box t.sat) < m)
        → Progress
            (2 * m + (1 - t.recent_under_constrained_deltasat))
            (after_theory I P box t full v)
    unfolding after_theory
    after_theory-Progress box t m false (delta_sat model) l partial h k =
        let idle = partial refl in (omega (arith, l, idle, h), omega (arith, l))
    after_theory-Progress box t m true (delta_sat model) l partial h k = tt
    after_theory-Progress box t m true (unsat explanation) l partial h k =
        let drop = k explanation refl in (omega (arith, drop), l)
    after_theory-Progress box t m false (unsat explanation) l partial h k =
        let drop = k explanation refl in (omega (arith, drop), l)

    ask_theory-Progress :
        (box : Box I) (t : State I P) (m : ℕ) (full : Bool) (model : List (Variable × Bool))
        → 0 < t.recent_under_constrained_deltasat_limit
        → (full ≡ false → t.recent_under_constrained_deltasat ≡ 0)
        → measure t.sat ≤ m
        → ((explanation : List Formula)
            → (P.decide box (assertions I P t.sat model) t.theory).0 ≡ unsat explanation
            → measure (learn_explanation I P explanation box t.sat) < m)
        → Progress
            (2 * m + (1 - t.recent_under_constrained_deltasat))
            (ask_theory I P box t full model)
    unfolding ask_theory
    ask_theory-Progress box t m full [] l partial h k = tt
    ask_theory-Progress box t m full (d ∷ ds) l partial h k =
        after_theory-Progress box _ m full _ l partial h k

    after_check-Progress :
        (box : Box I) (t : State I P) (m : ℕ) (o : Option (Model × Bool))
        → 0 < t.recent_under_constrained_deltasat_limit
        → ((model : Model) → o ≡ some (model, false) → t.recent_under_constrained_deltasat ≡ 0)
        → measure t.sat ≤ m
        → ((model : Model) (full : Bool) (b : Box I) (explanation : List Formula)
            → o ≡ some (model, full)
            → (P.decide b (assertions I P t.sat model.theory_model) t.theory).0 ≡ unsat explanation
            → measure (learn_explanation I P explanation b t.sat) < m)
        → Progress (2 * m + (1 - t.recent_under_constrained_deltasat)) (after_check I P box t o)
    unfolding after_check
    after_check-Progress box t m none l partial h k = tt
    after_check-Progress box t m (some (model, true)) l partial h k =
        let z : true ≡ false → t.recent_under_constrained_deltasat ≡ 0 = λ e. cc in
        ask_theory-Progress _ t m true model.theory_model l z h
          (λ explanation e. k model true _ explanation refl e)
    after_check-Progress box t m (some (model, false)) l partial h k =
        ask_theory-Progress _ t m false model.theory_model l (λ e. partial model refl) h
          (λ explanation e. k model false _ explanation refl e)

    round-Progress :
        (box : Box I) (s : State I P)
        → 0 < s.recent_under_constrained_deltasat_limit
        → Progress (potential s) (round I P box s)
    unfolding round
    round-Progress box s l =
        after_check-Progress box _ (measure s.sat) _ l (λ model e. not_full H.check_full s model e)
          (H.check_lem (request I P s) s.sat)
          (λ model full b explanation e d.
            H.learn_lem (request I P s) s.sat model full b s.theory explanation e d)

    -- A result of the cycle.
    abbrev Returns : Option (Answer I × State I P) → Type 0
    Returns o = (a : Answer I) × (t : State I P) × (o ≡ some (a, t))

    begin-Returns :
        (stack : List Formula) (box : Box I) (s : State I P) (rest : Option (Answer I × State I P))
        → Returns rest
        → Returns (begin I P stack box s rest)
    unfolding begin
    begin-Returns stack box s rest h = elim (Bool-cases (empty I box)) [
      | inl e ↦ rw e (unsatisfiable, s, refl)
      | inr e ↦ elim (Bool-cases (contains_false I stack)) [
        | inl f ↦ rw (e, f) (unsatisfiable, s, refl)
        | inr f ↦ elim (Bool-cases (is_trivial I stack)) [
          | inl g ↦ rw (e, f, g) (satisfiable box, s, refl)
          | inr g ↦ rw (e, f, g) h
        ]
      ]
    ]

    follow-Returns :
        (stack : List Formula) (recur : Box I → State I P → Option (Answer I × State I P)) (n : ℕ)
        → ((b : Box I) (u : State I P) → Goes n u → Returns (recur b u))
        → (r : Next I × State I P) → Progress n r
        → Returns (follow I P stack recur r)
    unfolding follow
    follow-Returns stack recur n ok (answer a, s) k = (a, s, refl)
    follow-Returns stack recur n ok (again b, s) k = ok b s k
    follow-Returns stack recur n ok (restart b, s) k =
        begin-Returns stack b s (recur b s) (ok b s k)

    loop-Returns :
        (fuel : ℕ) (stack : List Formula) (box : Box I) (s : State I P)
        → Goes fuel s
        → Returns (loop I P fuel stack box s)
    unfolding loop
    loop-Returns zero stack box s g = absurd (omega (arith, g.0))
    loop-Returns (suc fuel) stack box s g =
        follow-Returns stack (λ b u. loop I P fuel stack b u) (potential s)
          (λ b u k. loop-Returns fuel stack b u (omega (arith, k.0, g.0), k.1)) (round I P box s)
          (round-Progress box s g.1)

-- With fuel for twice the measure and one turn more, the cycle returns an answer: each refuted model
-- lowers the measure, and a model that is not full and not refuted is followed by requests for full
-- ones, as the limit of the backoff is positive. A check is taken not to raise the measure and to
-- give a full model when asked for one, and the clause learned from a refuted model to lower it.
pub check_sat_core_ends :
    {N : Numbers} (I : Intervals N) (P : Solvers I) (measure : P.Sat → ℕ)
    → Shrinks I P measure
    → (fuel : ℕ) (stack : List Formula) (box : Box I) (s : State I P) → 2 * measure s.sat + 1 < fuel
    → 0 < s.recent_under_constrained_deltasat_limit
    → (a : Answer I) × (t : State I P) × (check_sat_core I P fuel stack box s ≡ some (a, t))
unfolding check_sat_core
check_sat_core_ends I P measure H fuel stack box s enough l =
    begin-Returns I P measure H stack box s (loop I P fuel stack box s)
      (loop-Returns I P measure H fuel stack box s (omega (arith, enough), l))
