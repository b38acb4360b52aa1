-- ===== src/Transform/Tseitin.antt =====
-- src/dreal/util/tseitin_cnfizer.cc: a Boolean variable for each connective, with the relation
-- between the variable and the connective in clauses. A new variable takes the next number. A kind
-- that `Cnfize` calls unreachable is `none`, and so are a failed assertion and the end of the fuel
-- of the naive conversion below a quantifier.
pub mod Cnfize
pub mod Fresh
pub mod Steps
pub mod Meaning
pub mod Asked
pub mod Models
use d_real_cmake.Prelude.{
  ℕ, suc, Bool, true, false, Option, none, some, List, [], ◌∷◌, ◌++◌, if◌then◌else◌, ◌>>=◌, ◌==◌,
  ltb, ◌&&◌,
}
use d_real_cmake.Symbolic.Syntax.{
  Variable, boolean, Formula, Formulas, false_formula, true_formula, var, eq, neq, gt, geq, lt, leq,
  conj, disj, neg, forall, forall_t, integral, nil, cons, to_list,
}
use d_real_cmake.Symbolic.Builder.{Builder}
use d_real_cmake.Transform.Clauses.{is_atomic, get_clauses, imply, map_negation}
use d_real_cmake.Transform.NaiveCnfizer

-- `next` is the number of the next variable, and `definitions` is `map_`, by the variables' numbers.
pub record State : Type 0 where
  pub next : ℕ
  pub definitions : List (Variable × Formula)

abbrev pub boolean_variable : ℕ → Variable
boolean_variable i = record { id = i; kind = boolean }

unfoldable pub emplace : Variable → Formula → List (Variable × Formula) → List (Variable × Formula)
emplace b f [] = (b, f) ∷ []
emplace b f (d ∷ ds) =
    let rest = emplace b f ds in if ltb b.id d.0.id then (b, f) ∷ d ∷ ds else d ∷ rest

-- The variable whose number is `i` is defined as `f`.
unfoldable pub define : ℕ → Formula → State → Formula × State
define i f s = (
  var (boolean_variable i),
  record { next = s.next; definitions = emplace (boolean_variable i) f s.definitions },
)

-- `Variable`'s constructor.
unfoldable pub advance : State → State
advance s = record { next = suc s.next; definitions = s.definitions }

module _ (B : Builder) where
  unfoldable pub add : Formula → List Formula → List Formula
  add true_formula clauses = clauses
  add f clauses = clauses ++ (f ∷ [])

  unfoldable pub add_iff : Formula → Formula → List Formula → List Formula
  add_iff f1 f2 clauses = add (imply B f2 f1) (add (imply B f1 f2) clauses)

  unfoldable pub cnfize_negation : Variable → Formula → List Formula → List Formula
  cnfize_negation b f clauses = add_iff (var b) f clauses

  -- Both loops: `literal` or each of the formulas.
  unfoldable pub add_each : Formula → Formulas → List Formula → List Formula
  add_each literal nil clauses = clauses
  add_each literal (cons f fs) clauses = add_each literal fs (add (B.either literal f) clauses)

  unfoldable pub cnfize_conjunction : Variable → Formulas → List Formula → List Formula
  cnfize_conjunction b operands clauses =
      add (B.either (B.make_disjunction (map_negation B operands)) (var b))
        (add_each (B.negation (var b)) operands clauses)

  unfoldable pub each_add : Formulas → Formula → List Formula → List Formula
  each_add nil literal clauses = clauses
  each_add (cons f fs) literal clauses = each_add fs literal (add (B.either f literal) clauses)

  unfoldable pub cnfize_disjunction : Variable → Formulas → List Formula → List Formula
  cnfize_disjunction b operands clauses =
      each_add (map_negation B operands) (var b)
        (add (B.either (B.negation (var b)) (disj operands)) clauses)

  unfoldable pub cnfize : Variable → Formula → List Formula → Option (List Formula)
  cnfize b (conj fs) clauses = some (cnfize_conjunction b fs clauses)
  cnfize b (disj fs) clauses = some (cnfize_disjunction b fs clauses)
  cnfize b (neg f) clauses = some (cnfize_negation b (neg f) clauses)
  cnfize b _ clauses = none

  -- The definition of the head, whose variable needs no clause.
  unfoldable pub push_head : Formula → List Formula → List Formula
  push_head (conj fs) clauses = clauses ++ to_list fs
  push_head f clauses = clauses ++ (f ∷ [])

  -- One turn of the loop of `Convert`.
  unfoldable pub emit : Variable → Variable → Formula → List Formula → Option (List Formula)
  emit head b f clauses = if head.id == b.id then some (push_head f clauses) else cnfize b f clauses

  unfoldable pub collect :
      Variable → List (Variable × Formula) → List Formula → Option (List Formula)
  collect head [] clauses = some clauses
  collect head ((b, f) ∷ ds) clauses =
      emit head b f clauses >>= λ (cs : List Formula). collect head ds cs

  unfoldable pub finish : Formula → List (Variable × Formula) → Option (List Formula)
  finish head [] = some (head ∷ [])
  finish (var b) (d ∷ ds) = collect b (d ∷ ds) []
  finish _ (d ∷ ds) = none

  -- The list is a set of one formula.
  unfoldable pub all_same : Formula → Formulas → Bool
  all_same f nil = true
  all_same f (cons g gs) = B.same f g && all_same f gs

  unfoldable pub name_clauses : Formulas → State → Option (Formula × State)
  name_clauses nil s = none
  name_clauses (cons f fs) s =
      if all_same f fs
      then some (f, s)
      else some (define s.next (B.make_conjunction (cons f fs)) (advance s))

  module _ (mentions : Formula → List Variable → Bool) where
    unfoldable pub quantify_clauses : List Variable → Formulas → Formulas
    quantify_clauses vs nil = nil
    quantify_clauses vs (cons f fs) =
        cons (if mentions f vs then B.quantify vs f else f) (quantify_clauses vs fs)

    module _ (fuel : ℕ) where
      unfoldable mutual
        pub visit : Formula → State → Option (Formula × State)
        visit (forall vs f) s = NaiveCnfizer.convert B fuel f >>= λ (g : Formula).
            get_clauses g >>= λ (fs : Formulas). name_clauses (quantify_clauses vs fs) s
        visit (conj fs) s = visit_all fs s >>= λ ((gs, t) : Formulas × State).
            some (define t.next (B.make_conjunction gs) (advance t))
        visit (disj fs) s = visit_all fs s >>= λ ((gs, t) : Formulas × State).
            some (define t.next (B.make_disjunction gs) (advance t))
        visit (neg f) s =
            let operand = visit f (advance s) in
            if is_atomic f
            then some (neg f, s)
            else (operand >>= λ ((g, t) : Formula × State). some (define s.next (B.negation g) t))
        visit false_formula s = some (false_formula, s)
        visit true_formula s = some (true_formula, s)
        visit (var b) s = some (var b, s)
        visit (eq a b) s = some (eq a b, s)
        visit (neq a b) s = some (neq a b, s)
        visit (gt a b) s = some (gt a b, s)
        visit (geq a b) s = some (geq a b, s)
        visit (lt a b) s = some (lt a b, s)
        visit (leq a b) s = some (leq a b, s)
        visit (forall_t k f) s = some (forall_t k f, s)
        visit (integral k) s = some (integral k, s)

        pub visit_all : Formulas → State → Option (Formulas × State)
        visit_all nil s = some (nil, s)
        visit_all (cons f fs) s = visit f s >>= λ ((g, t) : Formula × State).
            visit_all fs t >>= λ ((gs, u) : Formulas × State). some (cons g gs, u)

      unfoldable pub convert : ℕ → Formula → Option (List Formula × ℕ)
      convert next f =
          visit f (record { next = next; definitions = [] }) >>= λ ((head, s) : Formula × State).
          finish head s.definitions >>= λ (clauses : List Formula). some (clauses, s.next)
