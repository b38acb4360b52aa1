-- ===== src/Tests/Literals.antt =====
-- A SAT solver that has seen no clause, one clause, and a model.
use d_real_cmake.Prelude.{
  ℕ, zero, suc, ◌+◌, ◌<◌, ◌≤◌, ◌≡◌, refl, Bool, true, false, List, [], ◌∷◌, Option, none, some,
  nat_eq, Member, inl, inr, ◌↔◌, arith, sym, ◌∙◌,
}
use d_real_cmake.Symbolic.Syntax.{Variable, boolean, Formula, var, neg, disj, nil, cons}
use d_real_cmake.Symbolic.Meaning.{eval}
use d_real_cmake.Container.ScopedMap.{at}
use d_real_cmake.Container.ScopedMap.Laws.{at-empty}
use d_real_cmake.Solver.Sat.{SatSolver, Literal, make_sat_vars, add_clause, read_model}
use d_real_cmake.Solver.Sat.Variables.{IsMapped, make_sat_vars-IsMapped}
use d_real_cmake.Solver.Sat.Clauses.{Agrees, eval_clause, add_clause-Agrees}
use d_real_cmake.Solver.Sat.Reading.{IsTheory, IsBoolean, read_model_lem}
use d_real_cmake.Tests.Definitions.{valuations}
use d_real_cmake.Tests.Abstractions.{bound}

abbrev a : Variable
a = record { id = 4; kind = boolean }

abbrev b : Variable
b = record { id = 7; kind = boolean }

abbrev initial : SatSolver
initial = record {
  cadical_next_var = 1;
  to_sat_var = record { actions = []; stack = []; map = [] };
  to_sym_var = record { actions = []; stack = []; map = [] };
  tseitin_variables = record { actions = []; stack = []; set = [] };
  clauses = [];
  open_clause = [];
}

nothing_found :
    {V : Type 0} (k : ℕ) (v : V)
    → at {V = V} nat_eq (record { actions = []; stack = []; map = [] }) k ≡ some v
    → ⊥
nothing_found k v e = let no = sym (at-empty nat_eq k) ∙ e in cc

initial-IsMapped : IsMapped initial
initial-IsMapped = record {
  positive = omega arith;
  sat_lem = λ i k e. absurd (nothing_found i k e);
  sym_lem = λ k v e. absurd (nothing_found k v e);
}

make_sat_vars-IsMapped_example :
    IsMapped (make_sat_vars (a ∷ b ∷ a ∷ []) initial)
    × ((i k : ℕ)
        → at nat_eq initial.to_sat_var i ≡ some k
        → at nat_eq (make_sat_vars (a ∷ b ∷ a ∷ []) initial).to_sat_var i ≡ some k)
    × ((v : Variable)
        → Member v (a ∷ b ∷ a ∷ [])
        → (k : ℕ) × (at nat_eq (make_sat_vars (a ∷ b ∷ a ∷ []) initial).to_sat_var v.id ≡ some k))
make_sat_vars-IsMapped_example = make_sat_vars-IsMapped (a ∷ b ∷ a ∷ []) initial initial-IsMapped

-- `a`, or not `b`.
abbrev clause : Formula
clause = disj (cons (var a) (cons (neg (var b)) nil))

abbrev free_variables : Formula → List Variable
free_variables f = a ∷ b ∷ []

add_clause-Agrees_example :
    (t : SatSolver) × (c : List Literal) × (add_clause free_variables clause initial ≡ some t)
    × (t.clauses ≡ c ∷ [])
    × (t.open_clause ≡ [])
    × IsMapped t
    × ((ρ : valuations.Env) (α : ℕ → Bool)
        → Agrees valuations t ρ α
        → eval_clause α c ≡ eval valuations clause ρ)
add_clause-Agrees_example =
    add_clause-Agrees valuations free_variables clause initial
      ((inl refl, refl), ((inr (inl refl), refl), tt)) initial-IsMapped refl

abbrev model : ℕ → Option Bool
model zero = none
model (suc zero) = some true
model (suc (suc k)) = some false

abbrev made : SatSolver
made = make_sat_vars (a ∷ b ∷ []) initial

read_model_lem_example :
    (Member (b, false) (read_model made ((a, bound) ∷ []) model 1 2 ([], [])).1 ↔ (
      ((k : ℕ) × (1 ≤ k)
        × (k < 1 + 2)
        × (model k ≡ some false)
        × (at nat_eq made.to_sym_var k ≡ some b))
      × IsTheory made ((a, bound) ∷ []) model (b, false)))
    × (Member (b, false) (read_model made ((a, bound) ∷ []) model 1 2 ([], [])).0 ↔ (
        ((k : ℕ) × (1 ≤ k)
          × (k < 1 + 2)
          × (model k ≡ some false)
          × (at nat_eq made.to_sym_var k ≡ some b))
        × IsBoolean made ((a, bound) ∷ []) model (b, false)))
read_model_lem_example = read_model_lem made ((a, bound) ∷ []) model 2 (b, false)
