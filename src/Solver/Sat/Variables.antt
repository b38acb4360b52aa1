-- ===== src/Solver/Sat/Variables.antt =====
-- The maps between the symbolic variables and the SAT solver's.
use d_real_cmake.Prelude.{
  ℕ, ◌<◌, ◌≡◌, refl, sym, ◌∙◌, ap, true, false, List, [], ◌∷◌, Option, none, some, if◌then◌else◌,
  nat_eq, ◌==◌, ==_iff, inl, inr, Bool-cases, Option-cases, some_injective, arith, Member,
}
use d_real_cmake.Symbolic.Syntax.{Variable}
use d_real_cmake.Container.ScopedMap.{at}
use d_real_cmake.Container.ScopedMap.Laws.{at-insert}
use d_real_cmake.Solver.Sat.{SatSolver, new_sat_var, unless_found, make_sat_var, make_sat_vars}

-- A symbolic variable's number leads to a variable of the SAT solver that was given out and leads
-- back to a variable with the number; and the other way round.
pub record IsMapped (s : SatSolver) : Type 0 where
  pub positive : 0 < s.cadical_next_var
  pub sat_lem :
      (i k : ℕ)
      → at nat_eq s.to_sat_var i ≡ some k
      → (0 < k)
        × (k < s.cadical_next_var)
        × ((b : Variable) × (at nat_eq s.to_sym_var k ≡ some b) × (b.id ≡ i))
  pub sym_lem :
      (k : ℕ) (b : Variable)
      → at nat_eq s.to_sym_var k ≡ some b
      → (k < s.cadical_next_var) × (at nat_eq s.to_sat_var b.id ≡ some k)

module _ (v : Variable) (s : SatSolver) where
  at-new_sat_var :
      (i : ℕ)
      → at nat_eq (new_sat_var v s).to_sat_var i
        ≡ (if v.id == i then some s.cadical_next_var else at nat_eq s.to_sat_var i)
  unfolding new_sat_var
  at-new_sat_var i = at-insert nat_eq v.id i s.cadical_next_var s.to_sat_var

  sym-new_sat_var :
      (k : ℕ)
      → at nat_eq (new_sat_var v s).to_sym_var k
        ≡ (if s.cadical_next_var == k then some v else at nat_eq s.to_sym_var k)
  unfolding new_sat_var
  sym-new_sat_var k = at-insert nat_eq s.cadical_next_var k v s.to_sym_var

  new_sat_var-IsMapped :
      IsMapped s → at nat_eq s.to_sat_var v.id ≡ none → IsMapped (new_sat_var v s)
  new_sat_var-IsMapped h absent = record {
    positive = unfold new_sat_var in omega arith;
    sat_lem = λ i k e.
        let q = sym (at-new_sat_var i) ∙ e in
        elim (Bool-cases (v.id == i)) [
          | inl r ↦
              let same : s.cadical_next_var ≡ k = some_injective (rw r at q) in
              let now : (s.cadical_next_var == k) ≡ true = ground arith in
              unfold new_sat_var in
              (
                omega (arith, same, h.positive),
                omega (arith, same),
                (v, sym-new_sat_var k ∙ rw now refl, ground arith),
              )
          | inr r ↦
              let (low, high, (b, e1, e2)) = h.sat_lem i k (rw r at q) in
              let other : (s.cadical_next_var == k) ≡ false = ground arith in
              unfold new_sat_var in
              (low, omega (arith, high), (b, sym-new_sat_var k ∙ rw other e1, e2))
        ];
    sym_lem = λ k b e.
        let q = sym (sym-new_sat_var k) ∙ e in
        elim (Bool-cases (s.cadical_next_var == k)) [
          | inl r ↦
              let same : v ≡ b = some_injective (rw r at q) in
              let now : (v.id == b.id) ≡ true =
                (==_iff v.id b.id).1 (ap (λ (t : Variable). t.id) same) in
              let number : s.cadical_next_var ≡ k = ground arith in
              unfold new_sat_var in
              (omega (arith, number), at-new_sat_var b.id ∙ rw now (ap some number))
          | inr r ↦
              let (high, e1) = h.sym_lem k b (rw r at q) in
              unfold new_sat_var in (omega (arith, high), at-new_sat_var b.id ∙ unmet k b e1)
        ];
  }
    where
      unmet :
          (k : ℕ) (b : Variable)
          → at nat_eq s.to_sat_var b.id ≡ some k
          → (if v.id == b.id then some s.cadical_next_var else at nat_eq s.to_sat_var b.id) ≡ some k
      unmet k b e = elim (Bool-cases (v.id == b.id)) [
        | inl r ↦
            let same : v.id ≡ b.id = ground arith in
            let no : some k ≡ none =
              sym e ∙ ap (λ i. at nat_eq s.to_sat_var i) (sym same) ∙ absent in
            let z : ⊥ = cc in absurd z
        | inr r ↦ rw r e
      ]

  -- What is mapped stays mapped.
  make_sat_var-keeps :
      (i k : ℕ)
      → at nat_eq s.to_sat_var i ≡ some k
      → at nat_eq (make_sat_var v s).to_sat_var i ≡ some k
  unfolding make_sat_var unless_found
  make_sat_var-keeps i k e = elim (Option-cases (at nat_eq s.to_sat_var v.id)) [
    | inl absent ↦ rw absent (
        at-new_sat_var i ∙ elim (Bool-cases (v.id == i)) [
          | inl r ↦
              let same : v.id ≡ i = ground arith in
              let no : some k ≡ none =
                sym e ∙ ap (λ j. at nat_eq s.to_sat_var j) (sym same) ∙ absent in
              let z : ⊥ = cc in absurd z
          | inr r ↦ rw r e
        ])
    | inr (found, q) ↦ rw q e
  ]

  make_sat_var-found : (k : ℕ) × (at nat_eq (make_sat_var v s).to_sat_var v.id ≡ some k)
  unfolding make_sat_var unless_found
  make_sat_var-found = elim (Option-cases (at nat_eq s.to_sat_var v.id)) [
    | inl absent ↦
        let here : (v.id == v.id) ≡ true = ground arith in
        (s.cadical_next_var, rw absent (at-new_sat_var v.id ∙ rw here refl))
    | inr (found, q) ↦ (found, rw q q)
  ]

  pub make_sat_var-IsMapped : IsMapped s → IsMapped (make_sat_var v s)
  unfolding make_sat_var unless_found
  make_sat_var-IsMapped h = elim (Option-cases (at nat_eq s.to_sat_var v.id)) [
    | inl absent ↦ rw absent (new_sat_var-IsMapped h absent)
    | inr (found, q) ↦ rw q h
  ]

-- The clauses are left alone.
pub clauses-make_sat_vars :
    (vs : List Variable) (s : SatSolver)
    → ((make_sat_vars vs s).clauses ≡ s.clauses)
      × ((make_sat_vars vs s).open_clause ≡ s.open_clause)
unfolding make_sat_vars make_sat_var unless_found new_sat_var
clauses-make_sat_vars [] s = (refl, refl)
clauses-make_sat_vars (v ∷ vs) s =
    let rest = clauses-make_sat_vars vs (make_sat_var v s) in
    let first = unchanged (at nat_eq s.to_sat_var v.id) in (rest.0 ∙ first.0, rest.1 ∙ first.1)
  where
    unchanged :
        (o : Option ℕ)
        → ((unless_found o v s).clauses ≡ s.clauses)
          × ((unless_found o v s).open_clause ≡ s.open_clause)
    unchanged none = (refl, refl)
    unchanged (some found) = (refl, refl)

all-IsMapped : (vs : List Variable) (s : SatSolver) → IsMapped s → IsMapped (make_sat_vars vs s)
unfolding make_sat_vars
all-IsMapped [] s h = h
all-IsMapped (v ∷ vs) s h = all-IsMapped vs (make_sat_var v s) (make_sat_var-IsMapped v s h)

make_sat_vars-keeps :
    (vs : List Variable) (s : SatSolver) (i k : ℕ)
    → at nat_eq s.to_sat_var i ≡ some k
    → at nat_eq (make_sat_vars vs s).to_sat_var i ≡ some k
unfolding make_sat_vars
make_sat_vars-keeps [] s i k e = e
make_sat_vars-keeps (v ∷ vs) s i k e =
    make_sat_vars-keeps vs (make_sat_var v s) i k (make_sat_var-keeps v s i k e)

pub make_sat_vars-found :
    (vs : List Variable) (s : SatSolver) (v : Variable)
    → Member v vs
    → (k : ℕ) × (at nat_eq (make_sat_vars vs s).to_sat_var v.id ≡ some k)
unfolding make_sat_vars
make_sat_vars-found [] s v m = absurd m
make_sat_vars-found (w ∷ vs) s v (inl e) =
    let (k, q) = make_sat_var-found w s in
    (
      k,
      make_sat_vars-keeps vs (make_sat_var w s) v.id k
          (ap (λ (t : Variable). at nat_eq (make_sat_var w s).to_sat_var t.id) e ∙ q),
    )
make_sat_vars-found (w ∷ vs) s v (inr m) = make_sat_vars-found vs (make_sat_var w s) v m

-- Variables of the SAT solver are made so that the two maps stay inverse to each other, and every
-- variable that was given out is at least 1 and below the next: the maps were so before. What was
-- mapped before keeps its variable, and each of the symbolic variables has one.
pub make_sat_vars-IsMapped :
    (vs : List Variable) (s : SatSolver)
    → IsMapped s
    → IsMapped (make_sat_vars vs s)
      × ((i k : ℕ)
          → at nat_eq s.to_sat_var i ≡ some k
          → at nat_eq (make_sat_vars vs s).to_sat_var i ≡ some k)
      × ((v : Variable)
          → Member v vs
          → (k : ℕ) × (at nat_eq (make_sat_vars vs s).to_sat_var v.id ≡ some k))
make_sat_vars-IsMapped vs s h =
    (all-IsMapped vs s h, make_sat_vars-keeps vs s, make_sat_vars-found vs s)
