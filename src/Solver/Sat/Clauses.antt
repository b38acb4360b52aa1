-- ===== src/Solver/Sat/Clauses.antt =====
-- What a clause means to the SAT solver.
use d_real_cmake.Prelude.{
  ℕ, ◌≡◌, refl, sym, ◌∙◌, ap, ap₂, Bool, true, false, not, ◌||◌, List, [], ◌∷◌, ◌++◌, Option, some,
  if◌then◌else◌, nat_eq, Member, ◌>>=◌,
}
use mathlib.Core.List.{append_assoc, append-nil}
use d_real_cmake.Symbolic.Syntax.{Variable, boolean, Formula, Formulas, var, neg, disj, nil, cons}
use d_real_cmake.Symbolic.Meaning.{Semantics, eval, eval_or}
use d_real_cmake.Container.ScopedMap.{at}
use d_real_cmake.Solver.Sat.{
  Literal, SatSolver, make_sat_vars, add, add_variable, add_literal, add_literals, add_operands,
  close, add_clause,
}
use d_real_cmake.Solver.Sat.Variables.{IsMapped, make_sat_vars-IsMapped, clauses-make_sat_vars}

-- The value of literals and clauses at an assignment of the SAT solver's variables.
unfoldable pub eval_literal : (ℕ → Bool) → Literal → Bool
eval_literal α (sign, k) = if sign then α k else not (α k)

unfoldable pub eval_clause : (ℕ → Bool) → List Literal → Bool
eval_clause α [] = false
eval_clause α (l ∷ ls) = eval_literal α l || eval_clause α ls

-- A Boolean variable of the list or its negation, and a disjunction of these.
abbrev pub IsLiteral : List Variable → Formula → Type 0
IsLiteral vs (var b) = Member b vs × (b.kind ≡ boolean)
IsLiteral vs (neg (var b)) = Member b vs × (b.kind ≡ boolean)
IsLiteral vs _ = ⊥

abbrev pub AreLiterals : List Variable → Formulas → Type 0
AreLiterals vs nil = Unit
AreLiterals vs (cons f fs) = IsLiteral vs f × AreLiterals vs fs

abbrev pub IsClause : List Variable → Formula → Type 0
IsClause vs (disj fs) = AreLiterals vs fs
IsClause vs f = IsLiteral vs f

or-false : (b : Bool) → (b || false) ≡ b
or-false true = refl
or-false false = refl

module _ (S : Semantics) where
  -- The SAT solver's variables have the values of the symbolic ones.
  abbrev pub Agrees : SatSolver → S.Env → (ℕ → Bool) → Type 0
  Agrees s ρ α = (b : Variable) (k : ℕ) → at nat_eq s.to_sat_var b.id ≡ some k → α k ≡ S.truth ρ b

  module _ (vs : List Variable) where
    abbrev AllFound : SatSolver → Type 0
    AllFound s = (v : Variable) → Member v vs → (k : ℕ) × (at nat_eq s.to_sat_var v.id ≡ some k)

    abbrev Adds : SatSolver → Option SatSolver → (S.Env → Bool) → Type 0
    Adds s o value =
        (ls : List Literal) × (o ≡ some (record s { open_clause = s.open_clause ++ ls }))
        × ((ρ : S.Env) (α : ℕ → Bool) → Agrees s ρ α → eval_clause α ls ≡ value ρ)

    add_literal-Adds :
        (f : Formula) (s : SatSolver)
        → IsLiteral vs f
        → AllFound s
        → (l : Literal) × (add_literal f s ≡ some (add l.0 s l.1))
          × ((ρ : S.Env) (α : ℕ → Bool) → Agrees s ρ α → eval_literal α l ≡ eval S f ρ)
    unfolding add_literal add_variable eval_literal eval
    add_literal-Adds (var b) s (m, kind) found =
        let (k, e) = found b m in ((true, k), rw (e, kind) refl, λ ρ α agree. agree b k e)
    add_literal-Adds (neg (var b)) s (m, kind) found =
        let (k, e) = found b m in ((false, k), rw (e, kind) refl, λ ρ α agree. ap not (agree b k e))
    add_literal-Adds _ s m found = absurd m

    add_literals-Adds :
        (fs : Formulas) (s : SatSolver)
        → AreLiterals vs fs
        → AllFound s
        → Adds s (add_literals fs s) (λ ρ. eval_or S fs ρ)
    unfolding add_literals add eval_clause eval
    add_literals-Adds nil s m found = (
      [],
      ap (λ c. some (record s { open_clause = c })) (sym (append-nil s.open_clause)),
      λ ρ α agree. refl,
    )
    add_literals-Adds (cons f fs) s m found =
        let (l, e, means) = add_literal-Adds f s m.0 found in
        let (ls, e1, rest) = add_literals-Adds fs (add l.0 s l.1) m.1 found in
        (
          l ∷ ls,
          rw e (
              e1
              ∙ ap (λ c. some (record s { open_clause = c }))
                  (append_assoc s.open_clause (l ∷ []) ls)),
          λ ρ α agree. ap₂ ◌||◌ (means ρ α agree) (rest ρ α agree),
        )

    add_operands-Adds :
        (f : Formula) (s : SatSolver)
        → IsClause vs f
        → AllFound s
        → Adds s (add_operands f s) (λ ρ. eval S f ρ)
    unfolding add_operands add eval_clause eval
    add_operands-Adds (disj fs) s m found = add_literals-Adds fs s m found
    add_operands-Adds f s m found =
        let (l, e, means) = add_literal-Adds f s m found in
        (l ∷ [], e, λ ρ α agree. or-false (eval_literal α l) ∙ means ρ α agree)

-- A clause of Boolean variables that are free in it is added: the SAT solver gets one clause more, with
-- nothing left open, and at every assignment that agrees with an environment on the variables that
-- have been made, that clause has the formula's value. The maps are inverse to each other before and
-- after, and nothing was open before.
pub add_clause-Agrees :
    (S : Semantics) (free_variables : Formula → List Variable) (f : Formula) (s : SatSolver)
    → IsClause (free_variables f) f
    → IsMapped s
    → s.open_clause ≡ []
    → (t : SatSolver) × (c : List Literal) × (add_clause free_variables f s ≡ some t)
      × (t.clauses ≡ c ∷ s.clauses)
      × (t.open_clause ≡ [])
      × IsMapped t
      × ((ρ : S.Env) (α : ℕ → Bool) → Agrees S t ρ α → eval_clause α c ≡ eval S f ρ)
unfolding add_clause close
add_clause-Agrees S free_variables f s clause mapped closed =
    let vs = free_variables f in
    let (mapped1, kept, found) = make_sat_vars-IsMapped vs s mapped in
    let (ls, e, means) = add_operands-Adds S vs f (make_sat_vars vs s) clause found in
    let (same, opened) = clauses-make_sat_vars vs s in
    let none_open = opened ∙ closed in
    (
      _,
      (make_sat_vars vs s).open_clause ++ ls,
      ap (λ (o : Option SatSolver). o >>= λ (t : SatSolver). some (close t)) e,
      ap (λ cs. ((make_sat_vars vs s).open_clause ++ ls) ∷ cs) same,
      refl,
      record { positive = mapped1.positive; sat_lem = mapped1.sat_lem; sym_lem = mapped1.sym_lem },
      λ ρ α agree. ap (λ o. eval_clause α (o ++ ls)) none_open ∙ means ρ α agree,
    )
