-- ===== src/Solver/Sat/Reading.antt =====
-- What the model read back says: the theory literals are those of mapped variables, and the Boolean
-- ones those of the others that no conversion has introduced.
use d_real_cmake.Prelude.{
  ℕ, zero, suc, ◌+◌, ◌<◌, ◌≤◌, ◌≡◌, refl, sym, ◌∙◌, ap, ap₂, subst, Bool, true, List, [], ◌∷◌, ◌↔◌,
  some_injective, ◌++◌, Option, none, some, nat_eq, ◌==◌, Member, inl, inr, ◌⊎◌, Bool-cases, arith,
}
use d_real_cmake.Symbolic.Syntax.{Variable, Formula}
use d_real_cmake.Container.ScopedMap.{at}
use d_real_cmake.Container.ScopedSet.{count}
use d_real_cmake.Transform.Abstractor.{formula_of}
use d_real_cmake.Solver.Sat.{SatSolver, Models, place, read_literal, read_model}

module _ (s : SatSolver) (mapped : List (Variable × Formula)) (model_is : ℕ → Option Bool) where
  -- A literal that the model has a reason for: a variable of the SAT solver, from `low` to before
  -- `high`, whose value the model has.
  abbrev Read : ℕ → ℕ → Variable × Bool → Type 0
  Read low high l =
      (k : ℕ) × (low ≤ k)
      × (k < high)
      × (model_is k ≡ some l.1)
      × (at nat_eq s.to_sym_var k ≡ some l.0)

  abbrev pub IsTheory : Variable × Bool → Type 0
  IsTheory l = (f : Formula) × (formula_of mapped l.0 ≡ some f)

  abbrev pub IsBoolean : Variable × Bool → Type 0
  IsBoolean l =
      (formula_of mapped l.0 ≡ none) × ((count nat_eq s.tseitin_variables l.0.id == 0) ≡ true)

  module _ (low high : ℕ) where
    abbrev Explained : Models → Type 0
    Explained m =
        ((l : Variable × Bool) → Member l m.0 → Read low high l × IsBoolean l)
        × ((l : Variable × Bool) → Member l m.1 → Read low high l × IsTheory l)

    Member-last :
        (ls : List (Variable × Bool)) (l k : Variable × Bool)
        → Member l (ls ++ (k ∷ []))
        → Member l ls ⊎ (l ≡ k)
    Member-last [] l k (inl e) = inr e
    Member-last [] l k (inr m) = absurd m
    Member-last (h ∷ ls) l k (inl e) = inl (inl e)
    Member-last (h ∷ ls) l k (inr m) = elim (Member-last ls l k m) [
      | inl q ↦ inl (inr q)
      | inr q ↦ inr q
    ]

    place-Explained :
        (o : Option Formula) (b : Variable) (sign : Bool) (m : Models)
        → formula_of mapped b ≡ o
        → Read low high (b, sign)
        → Explained m
        → Explained (place s o b sign m)
    unfolding place
    place-Explained (some f) b sign m e r h = (
      h.0,
      λ l q. elim (Member-last m.1 l (b, sign) q) [
        | inl old ↦ h.1 l old
        | inr new ↦ subst (λ t. Read low high t × IsTheory t) (sym new) (r, (f, e))
      ],
    )
    place-Explained none b sign m e r h =
        elim (Bool-cases (count nat_eq s.tseitin_variables b.id == 0)) [
          | inl q ↦ rw q (
            λ l k. elim (Member-last m.0 l (b, sign) k) [
              | inl old ↦ h.0 l old
              | inr new ↦ subst (λ t. Read low high t × IsBoolean t) (sym new) (r, (e, q))
            ],
            h.1,
          )
          | inr q ↦ rw q h
        ]

    read_literal-Explained :
        (k : ℕ) (o : Option Bool) (v : Option Variable) (m : Models)
        → low ≤ k
        → k < high
        → model_is k ≡ o
        → at nat_eq s.to_sym_var k ≡ v
        → Explained m
        → Explained (read_literal s mapped o v m)
    unfolding read_literal
    read_literal-Explained k (some sign) (some b) m l u e q h =
        place-Explained (formula_of mapped b) b sign m refl (k, l, u, e, q) h
    read_literal-Explained k (some sign) none m l u e q h = h
    read_literal-Explained k none v m l u e q h = h

    read_model-Explained :
        (i n : ℕ) (m : Models)
        → low ≤ i
        → i + n ≤ high
        → Explained m
        → Explained (read_model s mapped model_is i n m)
    unfolding read_model
    read_model-Explained i zero m l u h = h
    read_model-Explained i (suc n) m l u h =
        read_model-Explained (suc i) n _ (omega (arith, l)) (omega (arith, u)) (
          read_literal-Explained i (model_is i) (at nat_eq s.to_sym_var i) m l (omega (arith, u))
            refl refl h)

  -- Where a literal belongs.
  abbrev Placed : Models → Variable × Bool → Type 0
  Placed m l = (IsTheory l → Member l m.1) × (IsBoolean l → Member l m.0)

  old-Member :
      (ls : List (Variable × Bool)) (l k : Variable × Bool)
      → Member l ls
      → Member l (ls ++ (k ∷ []))
  old-Member [] l k m = absurd m
  old-Member (h ∷ ls) l k (inl e) = inl e
  old-Member (h ∷ ls) l k (inr m) = inr (old-Member ls l k m)

  new-Member : (ls : List (Variable × Bool)) (k : Variable × Bool) → Member k (ls ++ (k ∷ []))
  new-Member [] k = inl refl
  new-Member (h ∷ ls) k = inr (new-Member ls k)

  abbrev Extends : Models → Models → Type 0
  Extends m n =
      ((l : Variable × Bool) → Member l m.0 → Member l n.0)
      × ((l : Variable × Bool) → Member l m.1 → Member l n.1)

  place-Extends :
      (o : Option Formula) (b : Variable) (sign : Bool) (m : Models)
      → Extends m (place s o b sign m)
  unfolding place
  place-Extends (some f) b sign m = (λ l q. q, λ l q. old-Member m.1 l (b, sign) q)
  place-Extends none b sign m = elim (Bool-cases (count nat_eq s.tseitin_variables b.id == 0)) [
    | inl q ↦ rw q (λ l k. old-Member m.0 l (b, sign) k, λ l k. k)
    | inr q ↦ rw q (λ l k. k, λ l k. k)
  ]

  read_literal-Extends :
      (o : Option Bool) (v : Option Variable) (m : Models) → Extends m (read_literal s mapped o v m)
  unfolding read_literal
  read_literal-Extends (some sign) (some b) m = place-Extends (formula_of mapped b) b sign m
  read_literal-Extends (some sign) none m = (λ l q. q, λ l q. q)
  read_literal-Extends none v m = (λ l q. q, λ l q. q)

  read_model-Extends : (i n : ℕ) (m : Models) → Extends m (read_model s mapped model_is i n m)
  unfolding read_model
  read_model-Extends i zero m = (λ l q. q, λ l q. q)
  read_model-Extends i (suc n) m =
      let first = read_literal-Extends (model_is i) (at nat_eq s.to_sym_var i) m in
      let rest = read_model-Extends (suc i) n _ in
      (λ l q. rest.0 l (first.0 l q), λ l q. rest.1 l (first.1 l q))

  place-Placed :
      (o : Option Formula) (b : Variable) (sign : Bool) (m : Models)
      → formula_of mapped b ≡ o
      → Placed (place s o b sign m) (b, sign)
  unfolding place
  place-Placed (some f) b sign m e = (
    λ t. new-Member m.1 (b, sign),
    λ t. let no : some f ≡ none = sym e ∙ t.0 in let z : ⊥ = cc in absurd z,
  )
  place-Placed none b sign m e = (
    λ t. let no : none ≡ some t.0 = sym e ∙ t.1 in let z : ⊥ = cc in absurd z,
    λ t. rw t.1 (new-Member m.0 (b, sign)),
  )

  read_literal-Placed :
      (o : Option Bool) (v : Option Variable) (l : Variable × Bool) (m : Models)
      → o ≡ some l.1
      → v ≡ some l.0
      → Placed (read_literal s mapped o v m) l
  unfolding read_literal
  read_literal-Placed (some sign) (some b) (c, t) m e q =
      let same_sign = some_injective e in
      let same_var = some_injective q in
      subst (λ (r : Variable × Bool). Placed (place s (formula_of mapped b) b sign m) r)
        (ap₂ (λ (x : Variable) (y : Bool). (x, y)) same_var same_sign)
        (place-Placed (formula_of mapped b) b sign m refl)
  read_literal-Placed (some sign) none (c, t) m e q = let z : ⊥ = cc in absurd z
  read_literal-Placed none v (c, t) m e q = let z : ⊥ = cc in absurd z

  read_model-Placed :
      (i n : ℕ) (l : Variable × Bool) (k : ℕ) (m : Models)
      → i ≤ k
      → k < i + n
      → model_is k ≡ some l.1
      → at nat_eq s.to_sym_var k ≡ some l.0
      → Placed (read_model s mapped model_is i n m) l
  unfolding read_model
  read_model-Placed i zero l k m low high e q = absurd (omega (arith, low, high))
  read_model-Placed i (suc n) l k m low high e q = elim (Bool-cases (i == k)) [
    | inl r ↦
        let same : k ≡ i = ground arith in
        let here =
          read_literal-Placed (model_is i) (at nat_eq s.to_sym_var i) l m
            (ap model_is (sym same) ∙ e) (ap (λ j. at nat_eq s.to_sym_var j) (sym same) ∙ q) in
        let rest = read_model-Extends (suc i) n _ in
        (λ t. rest.1 l (here.0 t), λ t. rest.0 l (here.1 t))
    | inr r ↦
        let apart : suc i ≤ k = ground arith in
        read_model-Placed (suc i) n l k _ apart (omega (arith, high)) e q
  ]

-- The two models read back are exactly the literals of the SAT solver's variables, by where they
-- belong: a literal is in the theory model if and only if a variable from 1 to the last has its value
-- and leads to its symbolic variable, which is mapped to a formula, and in the Boolean model if and
-- only if the symbolic variable is not mapped and no Tseitin variable.
pub read_model_lem :
    (s : SatSolver) (mapped : List (Variable × Formula)) (model_is : ℕ → Option Bool) (vars : ℕ)
    (l : Variable × Bool)
    → (Member l (read_model s mapped model_is 1 vars ([], [])).1 ↔ (
        ((k : ℕ) × (1 ≤ k)
          × (k < 1 + vars)
          × (model_is k ≡ some l.1)
          × (at nat_eq s.to_sym_var k ≡ some l.0))
        × IsTheory s mapped model_is l))
      × (Member l (read_model s mapped model_is 1 vars ([], [])).0 ↔ (
          ((k : ℕ) × (1 ≤ k)
            × (k < 1 + vars)
            × (model_is k ≡ some l.1)
            × (at nat_eq s.to_sym_var k ≡ some l.0))
          × IsBoolean s mapped model_is l))
read_model_lem s mapped model_is vars l =
    let empty : Models = ([], []) in
    let said =
      read_model-Explained s mapped model_is 1 (1 + vars) 1 vars empty (omega arith) (omega arith)
        (λ k m. absurd m, λ k m. absurd m) in
    let placed = λ (k : ℕ). read_model-Placed s mapped model_is 1 vars l k empty in
    (
      (said.1 l, λ (r, t). (placed r.0 r.1 r.2 r.3 r.4).0 t),
      (said.0 l, λ (r, t). (placed r.0 r.1 r.2 r.3 r.4).1 t),
    )
