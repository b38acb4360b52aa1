-- ===== src/Solver/Context/Core/Sound.antt =====
-- An answer `unsatisfiable` of the cycle is right, if the two solvers keep what they promise.
use d_real_cmake.Prelude.{
  ℕ, zero, suc, ◌≡◌, ◌≢◌, refl, ap, Bool, true, false, List, [], ◌∷◌, Option, none, some, ltb,
  length, if◌then◌else◌, Member, All, inl, inr, Bool-cases, some_injective, All-Member, member-All,
}
use d_real_cmake.Symbolic.Syntax.{Variable, Formula, false_formula}
use d_real_cmake.Symbolic.Meaning.{Semantics, eval}
use d_real_cmake.Box.Interval.{Intervals}
use d_real_cmake.Box.{Box, empty, set_interval, index}
use d_real_cmake.Box.Points.{Inside, not-Inside-empty}
use d_real_cmake.Solver.Context.Core.{
  Model, Verdict, delta_sat, unsat, Solvers, Answer, unsatisfiable, satisfiable, Next, answer,
  again, restart, State, contains_false, is_trivial, write_model, assertions, learn_explanation,
  after_theory, ask_theory, after_check, request, round, begin, follow, loop, check_sat_core,
}
use d_real_cmake.Solver.Context.Core.Numeric.{
  declared_boolean, NumbersInside, set-NumbersWithin, Within-NumbersWithin, first_is_empty-set,
}

-- What the solvers promise about environments. The SAT solver allows an environment that its clauses
-- do not exclude: none when it finds no model, and as many after a check. The Boolean variables of
-- a model are declared. A learned clause excludes only environments at which the explanation holds,
-- and an explanation holds at no environment whose numbers are in the box.
module _ (S : Semantics) (I : Intervals S.numbers) (P : Solvers I) where
  pub record Promises (declared : List Variable) (point : S.Env → ℕ → S.numbers.Real) : Type 1 where
    pub Allows : P.Sat → S.Env → Type 0
    pub check_none :
        (r : Bool) (sat : P.Sat) (ρ : S.Env) → (P.check r sat).0 ≡ none → Allows sat ρ → ⊥
    pub check_allows :
        (r : Bool) (sat : P.Sat) (ρ : S.Env) → Allows sat ρ → Allows (P.check r sat).1 ρ
    pub check_declared :
        (r : Bool) (sat : P.Sat) (m : Model) (full : Bool)
        → (P.check r sat).0 ≡ some (m, full)
        → All (λ (l : Variable × Bool). declared_boolean declared l.0 ≡ true) m.boolean_model
    pub learn_allows :
        (explanation : List Formula) (box : Box I) (sat : P.Sat) (ρ : S.Env)
        → (All (λ f. eval S f ρ ≡ true) explanation → ⊥)
        → Allows sat ρ
        → Allows (P.learn explanation box sat) ρ
    pub learn_pattern_allows :
        (explanation : List Formula) (box : Box I) (sat : P.Sat) (ρ : S.Env)
        → NumbersInside I (point ρ) box
        → (All (λ f. eval S f ρ ≡ true) explanation → ⊥)
        → Allows sat ρ
        → Allows (P.learn_pattern explanation box sat) ρ
    pub decide_unsat :
        (box : Box I) (fs explanation : List Formula) (theory : P.Theory) (ρ : S.Env)
        → (P.decide box fs theory).0 ≡ unsat explanation
        → NumbersInside I (point ρ) box
        → All (λ f. eval S f ρ ≡ true) explanation
        → ⊥
    pub descending_sorts :
        (fs : List Formula) (f : Formula) → Member f fs → Member f (P.descending fs)
    pub one_lem : I.is_empty P.one ≡ false
    pub nought_lem : I.is_empty P.nought ≡ false

  module _ (declared : List Variable) (point : S.Env → ℕ → S.numbers.Real)
      (L : Promises declared point) (ρ : S.Env) (stack : List Formula)
      (holds : All (λ f. eval S f ρ ≡ true) stack) where
    abbrev Good : Box I → P.Sat → Type 0
    Good box sat =
        NumbersInside I (point ρ) box
        × (empty I box ≡ false)
        × (box.variables ≡ declared)
        × L.Allows sat ρ

    abbrev Keeps : Next I × State I P → Type 0
    Keeps (answer unsatisfiable, s) = ⊥
    Keeps (answer (satisfiable b), s) = Unit
    Keeps (again b, s) = Good b s.sat
    Keeps (restart b, s) = Good b s.sat

    write_model-Good :
        (model : List (Variable × Bool)) (box : Box I) (sat : P.Sat)
        → All (λ (l : Variable × Bool). declared_boolean declared l.0 ≡ true) model
        → Good box sat
        → Good (write_model I P model box) sat
    unfolding write_model set_interval
    write_model-Good [] box sat d g = g
    write_model-Good ((v, assignment) ∷ model) box sat d g =
        let j = if assignment then P.one else P.nought in
        let here : declared_boolean box.variables v ≡ true = rw g.2 d.0 in
        write_model-Good model (set_interval I box v j) sat d.1 (
          set-NumbersWithin I (point ρ) box.variables box.values v j here g.0,
          first_is_empty-set I box.variables box.values (index box.variables v) j
              (written assignment) g.1,
          g.2,
          g.3,
        )
      where
        written : (b : Bool) → I.is_empty (if b then P.one else P.nought) ≡ false
        written true = L.one_lem
        written false = L.nought_lem

    learn_explanation-Good :
        (explanation : List Formula) (box : Box I) (sat : P.Sat)
        → (All (λ f. eval S f ρ ≡ true) explanation → ⊥)
        → Good box sat
        → Good box (learn_explanation I P explanation box sat)
    unfolding learn_explanation
    learn_explanation-Good explanation box sat fails g =
        let sorted = P.descending explanation in
        let no : All (λ f. eval S f ρ ≡ true) sorted → ⊥ = λ a. fails (
          All-Member _ explanation
            (λ f m. member-All _ sorted f a (L.descending_sorts explanation f m))) in
        elim (Bool-cases (ltb (length sorted) P.drpm_max_size)) [
          | inl e ↦ rw e (
            g.0,
            g.1,
            g.2,
            L.learn_allows sorted box (P.learn_pattern sorted box sat) ρ no
                (L.learn_pattern_allows sorted box sat ρ g.0 no g.3),
          )
          | inr e ↦ rw e (g.0, g.1, g.2, L.learn_allows sorted box sat ρ no g.3)
        ]

    after_theory-Keeps :
        (box : Box I) (s : State I P) (full : Bool) (v : Verdict I)
        → ((explanation : List Formula)
            → v ≡ unsat explanation
            → All (λ f. eval S f ρ ≡ true) explanation
            → ⊥)
        → Good box s.sat
        → Keeps (after_theory I P box s full v)
    unfolding after_theory
    after_theory-Keeps box s false (delta_sat model) h g = g
    after_theory-Keeps box s true (delta_sat model) h g = tt
    after_theory-Keeps box s true (unsat explanation) h g =
        learn_explanation-Good explanation box s.sat (h explanation refl) g
    after_theory-Keeps box s false (unsat explanation) h g =
        learn_explanation-Good explanation box s.sat (h explanation refl) g

    ask_theory-Keeps :
        (box : Box I) (s : State I P) (full : Bool) (model : List (Variable × Bool))
        → Good box s.sat
        → Keeps (ask_theory I P box s full model)
    unfolding ask_theory
    ask_theory-Keeps box s full [] g = tt
    ask_theory-Keeps box s full (l ∷ ls) g =
        after_theory-Keeps box _ full (P.decide box (assertions I P s.sat (l ∷ ls)) s.theory).0
          (λ explanation e all.
            L.decide_unsat box (assertions I P s.sat (l ∷ ls)) explanation s.theory ρ e g.0 all)
          g

    after_check-Keeps :
        (box : Box I) (s : State I P) (model : Option (Model × Bool))
        → ((model ≡ none) → ⊥)
        → ((m : Model) (full : Bool)
            → model ≡ some (m, full)
            → All (λ (l : Variable × Bool). declared_boolean declared l.0 ≡ true) m.boolean_model)
        → Good box s.sat
        → Keeps (after_check I P box s model)
    unfolding after_check
    after_check-Keeps box s none found d g = found refl
    after_check-Keeps box s (some (m, full)) found d g =
        ask_theory-Keeps (write_model I P m.boolean_model box) s full m.theory_model
          (write_model-Good m.boolean_model box s.sat (d m full refl) g)

    round-Keeps : (box : Box I) (s : State I P) → Good box s.sat → Keeps (round I P box s)
    unfolding round
    round-Keeps box s g =
        after_check-Keeps box _ (P.check (request I P s) s.sat).0
          (λ e. L.check_none (request I P s) s.sat ρ e g.3)
          (λ m full e. L.check_declared (request I P s) s.sat m full e)
          (g.0, g.1, g.2, L.check_allows (request I P s) s.sat ρ g.3)

    contains_false-not :
        (fs : List Formula) → All (λ f. eval S f ρ ≡ true) fs → contains_false I fs ≡ false
    unfolding contains_false eval
    contains_false-not [] h = refl
    contains_false-not (false_formula ∷ fs) h = let z : ⊥ = cc in absurd z
    contains_false-not (f ∷ fs) h = contains_false-not fs h.1

    not_unsatisfiable :
        (box : Box I) (s t : State I P)
        → ◌≡◌ {A = Option (Answer I × State I P)}
            (some (satisfiable box, s))
            (some (unsatisfiable, t))
        → ⊥
    not_unsatisfiable box s t e =
        let same : satisfiable box ≡ unsatisfiable =
          ap (λ (r : Answer I × State I P). r.0) (some_injective e) in
        cc

    begin-Keeps :
        (box : Box I) (s t : State I P) (rest : Option (Answer I × State I P))
        → Good box s.sat
        → (rest ≡ some (unsatisfiable, t) → ⊥)
        → begin I P stack box s rest ≡ some (unsatisfiable, t)
        → ⊥
    unfolding begin
    begin-Keeps box s t rest g h e =
        let k : (if is_trivial I stack then some (satisfiable box, s) else rest)
            ≡ some (unsatisfiable, t) =
          (rw (g.1, contains_false-not stack holds) at e) in
        elim (Bool-cases (is_trivial I stack)) [
          | inl q ↦ not_unsatisfiable box s t (rw q at k)
          | inr q ↦ h (rw q at k)
        ]

    follow-Keeps :
        (recur : Box I → State I P → Option (Answer I × State I P)) (t : State I P)
        → ((b : Box I) (u : State I P) → Good b u.sat → recur b u ≡ some (unsatisfiable, t) → ⊥)
        → (r : Next I × State I P) → Keeps r
        → follow I P stack recur r ≡ some (unsatisfiable, t)
        → ⊥
    unfolding follow
    follow-Keeps recur t ok (answer unsatisfiable, s) k e = k
    follow-Keeps recur t ok (answer (satisfiable b), s) k e = not_unsatisfiable b s t e
    follow-Keeps recur t ok (again b, s) k e = ok b s k e
    follow-Keeps recur t ok (restart b, s) k e = begin-Keeps b s t (recur b s) k (ok b s k) e

    loop_sound :
        (fuel : ℕ) (box : Box I) (s t : State I P)
        → Good box s.sat
        → loop I P fuel stack box s ≡ some (unsatisfiable, t)
        → ⊥
    unfolding loop
    loop_sound zero box s t g e = cc
    loop_sound (suc fuel) box s t g e =
        follow-Keeps (λ b u. loop I P fuel stack b u) t (λ b u k q. loop_sound fuel b u t k q)
          (round I P box s) (round-Keeps box s g) e

    begin_sound :
        (fuel : ℕ) (box : Box I) (s t : State I P)
        → Inside I (point ρ) box
        → box.variables ≡ declared
        → L.Allows s.sat ρ
        → begin I P stack box s (loop I P fuel stack box s) ≡ some (unsatisfiable, t)
        → ⊥
    begin_sound fuel box s t inside same allowed e =
        let nonempty : empty I box ≡ false = elim (Bool-cases (empty I box)) [
          | inl q ↦ absurd (not-Inside-empty I (point ρ) box q inside)
          | inr q ↦ q
        ] in
        let good : Good box s.sat = (
          Within-NumbersWithin I (point ρ) box.variables box.values inside,
          nonempty,
          same,
          allowed,
        ) in
        begin-Keeps box s t (loop I P fuel stack box s) good (loop_sound fuel box s t good) e

-- The cycle answers `unsatisfiable` only if no environment at which the stack holds, which the SAT
-- solver allows, has its point in the box, whatever the fuel: then such an environment refutes the
-- answer. The SAT solver and the theory solver are taken to keep their promises.
pub check_sat_core_sound :
    (S : Semantics) (I : Intervals S.numbers) (P : Solvers I) (point : S.Env → ℕ → S.numbers.Real)
    (fuel : ℕ) (stack : List Formula) (box : Box I) (s t : State I P)
    (L : Promises S I P box.variables point) (ρ : S.Env)
    → All (λ f. eval S f ρ ≡ true) stack
    → Inside I (point ρ) box
    → L.Allows s.sat ρ
    → check_sat_core I P fuel stack box s ≢ some (unsatisfiable, t)
unfolding check_sat_core
check_sat_core_sound S I P point fuel stack box s t L ρ holds inside allowed e =
    begin_sound S I P box.variables point L ρ stack holds fuel box s t inside refl allowed e
