-- ===== src/Solver/Sat.antt =====
-- src/dreal/solver/sat_solver.cc: the literals and clauses handed to the SAT solver, and the model
-- read back from it. The clauses that were closed by a 0 have the last one first. `none` is an
-- exception or a failed assertion. Formulas with their Tseitin variables come in as clauses.
pub mod Variables
pub mod Clauses
pub mod Reading
use d_real_cmake.Prelude.{
  ℕ, zero, suc, Bool, true, false, List, [], ◌∷◌, ◌++◌, Option, none, some, if◌then◌else◌, ◌>>=◌,
  nat_eq, ◌==◌,
}
use d_real_cmake.Symbolic.Syntax.{
  Variable, VariableType, boolean, Formula, Formulas, var, neg, disj, nil, cons,
}
use d_real_cmake.Container.ScopedMap.{ScopedMap, at, insert}
use d_real_cmake.Container.ScopedSet.{ScopedSet, count}
use d_real_cmake.Transform.Abstractor.{formula_of}

-- A literal of the SAT solver: the sign and the variable.
abbrev pub Literal : Type 0
Literal = Bool × ℕ

pub record SatSolver : Type 0 where
  pub cadical_next_var : ℕ
  pub to_sat_var : ScopedMap ℕ ℕ
  pub to_sym_var : ScopedMap ℕ Variable
  pub tseitin_variables : ScopedSet ℕ
  pub clauses : List (List Literal)
  pub open_clause : List Literal

unfoldable pub new_sat_var : Variable → SatSolver → SatSolver
new_sat_var v s = record s {
  cadical_next_var = suc s.cadical_next_var;
  to_sat_var = insert nat_eq v.id s.cadical_next_var s.to_sat_var;
  to_sym_var = insert nat_eq s.cadical_next_var v s.to_sym_var;
}

unfoldable pub unless_found : Option ℕ → Variable → SatSolver → SatSolver
unless_found none v s = new_sat_var v s
unless_found (some found) v s = s

unfoldable pub make_sat_var : Variable → SatSolver → SatSolver
make_sat_var v s = unless_found (at nat_eq s.to_sat_var v.id) v s

unfoldable pub make_sat_vars : List Variable → SatSolver → SatSolver
make_sat_vars [] s = s
make_sat_vars (v ∷ vs) s = make_sat_vars vs (make_sat_var v s)

-- `cadical->add` of a literal.
unfoldable pub add : Bool → SatSolver → ℕ → SatSolver
add sign s k = record s { open_clause = s.open_clause ++ ((sign, k) ∷ []) }

-- The assertion on the variable's type, and the variable's number.
unfoldable pub add_variable : Bool → VariableType → Option ℕ → SatSolver → Option SatSolver
add_variable sign boolean (some k) s = some (add sign s k)
add_variable sign _ _ s = none

unfoldable pub add_literal : Formula → SatSolver → Option SatSolver
add_literal (var b) s = add_variable true b.kind (at nat_eq s.to_sat_var b.id) s
add_literal (neg (var b)) s = add_variable false b.kind (at nat_eq s.to_sat_var b.id) s
add_literal _ s = none

unfoldable pub add_literals : Formulas → SatSolver → Option SatSolver
add_literals nil s = some s
add_literals (cons f fs) s = add_literal f s >>= λ (t : SatSolver). add_literals fs t

unfoldable pub add_operands : Formula → SatSolver → Option SatSolver
add_operands (disj fs) s = add_literals fs s
add_operands f s = add_literal f s

-- `cadical->add(0)`
unfoldable pub close : SatSolver → SatSolver
close s = record s { clauses = s.open_clause ∷ s.clauses; open_clause = [] }

unfoldable pub add_clause : (Formula → List Variable) → Formula → SatSolver → Option SatSolver
add_clause free_variables f s =
    add_operands f (make_sat_vars (free_variables f) s) >>= λ (t : SatSolver). some (close t)

-- The Boolean and the theory model.
abbrev pub Models : Type 0
Models = List (Variable × Bool) × List (Variable × Bool)

-- A literal of the model for a variable: `mapped` is its formula, if it has one.
unfoldable pub place : SatSolver → Option Formula → Variable → Bool → Models → Models
place s (some f) b sign m = (m.0, m.1 ++ ((b, sign) ∷ []))
place s none b sign m =
    if count nat_eq s.tseitin_variables b.id == 0 then (m.0 ++ ((b, sign) ∷ []), m.1) else m

-- One turn of the loop over the SAT solver's variables.
unfoldable pub read_literal :
    SatSolver → List (Variable × Formula) → Option Bool → Option Variable → Models → Models
read_literal s mapped (some sign) (some b) m = place s (formula_of mapped b) b sign m
read_literal s mapped _ _ m = m

-- The variables from `i` on, `n` of them; `model_is` has no value where the source has a 0.
unfoldable pub read_model :
    SatSolver → List (Variable × Formula) → (ℕ → Option Bool) → ℕ → ℕ → Models → Models
read_model s mapped model_is i zero m = m
read_model s mapped model_is i (suc n) m =
    read_model s mapped model_is (suc i) n
      (read_literal s mapped (model_is i) (at nat_eq s.to_sym_var i) m)
