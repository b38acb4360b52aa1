-- ===== src/Transform/Abstractor/Maps.antt =====
-- The two maps of the abstractor, entry by entry, and values of the variables that
-- give each the value of its formula.
use d_real_cmake.Prelude.{
  ℕ, suc, ◌<◌, ◌≤◌, ◌≡◌, refl, sym, ◌∙◌, ap, ap₂, Bool, true, false, Option, none, some, List, [],
  ◌∷◌, arith, inl, inr, Bool-cases, some_injective, ◌==◌, Eq, beq_refl, if◌then◌else◌,
}
use d_real_cmake.Symbolic.Syntax.{
  Variable, boolean, Formula, eq, lt, leq, forall, forall_t, integral,
}
use d_real_cmake.Symbolic.Meaning.{Semantics, eval}
use d_real_cmake.Transform.Tseitin.Fresh.{Assigns, Below, eval-assign}
use d_real_cmake.Transform.Tseitin.Steps.{Holds}
use d_real_cmake.Transform.Abstractor.{
  Abstractor, formula_of, emplace_var, variable_of, emplace_formula, add, new_variable, if_absent,
}

-- The kinds of formula that get a variable.
unfoldable pub is_named : Formula → Bool
is_named (eq a b) = true
is_named (lt a b) = true
is_named (leq a b) = true
is_named (forall vs f) = true
is_named (forall_t k f) = true
is_named (integral k) = true
is_named _ = false

module _ (E : Eq Formula) (base next : ℕ) where
  -- The lists have the same entries, each variable and each formula once. The variables have numbers
  -- from `base` to `next`, and those of the formulas are below `base`.
  abbrev pub Linked : List (Variable × Formula) → List (Formula × Variable) → Type 0
  Linked [] [] = Unit
  Linked (d ∷ ds) (e ∷ es) =
      ((e.0 ≡ d.1)
        × (e.1 ≡ d.0)
        × (base ≤ d.0.id)
        × (d.0.id < next)
        × Below base d.1
        × (is_named d.1 ≡ true)
        × (formula_of ds d.0 ≡ none)
        × (variable_of E es d.1 ≡ none))
      × Linked ds es
  Linked _ _ = ⊥

module _ (E : Eq Formula) (base : ℕ) where
  abbrev pub IsLinked : Abstractor → Type 0
  IsLinked s = (base ≤ s.next) × Linked E base s.next s.var_to_formula s.formula_to_var

  Linked-wider :
      (n : ℕ) (ds : List (Variable × Formula)) (es : List (Formula × Variable))
      → Linked E base n ds es
      → Linked E base (suc n) ds es
  Linked-wider n [] [] h = tt
  Linked-wider n (d ∷ ds) (e ∷ es) (k, h) =
      ((k.0, k.1, k.2, omega (arith, k.3), k.4, k.5, k.6, k.7), Linked-wider n ds es h)
  Linked-wider n [] (e ∷ es) h = absurd h
  Linked-wider n (d ∷ ds) [] h = absurd h

  Linked-next :
      (n : ℕ) (b : Variable) (ds : List (Variable × Formula)) (es : List (Formula × Variable))
      → n ≤ b.id
      → Linked E base n ds es
      → formula_of ds b ≡ none
  unfolding formula_of
  Linked-next n b [] [] l h = refl
  Linked-next n b (d ∷ ds) (e ∷ es) l h =
      let rest = Linked-next n b ds es l h.1 in let k = h.0.3 in ground arith
  Linked-next n b [] (e ∷ es) l h = absurd h
  Linked-next n b (d ∷ ds) [] l h = absurd h

  pub new_variable-Linked :
      (f : Formula) (s : Abstractor)
      → Below base f
      → is_named f ≡ true
      → variable_of E s.formula_to_var f ≡ none
      → IsLinked s
      → IsLinked (new_variable E f s).1
  unfolding new_variable add emplace_var emplace_formula if_absent
  new_variable-Linked f s below named absent h =
      let b : Variable = record { id = s.next; kind = boolean } in
      let unused = Linked-next s.next b s.var_to_formula s.formula_to_var (omega arith) h.1 in
      rw (unused, absent, emplace_var, if_absent)
        (
          omega (arith, h.0),
          (
            (refl, refl, h.0, omega arith, below, named, unused, absent),
            Linked-wider s.next s.var_to_formula s.formula_to_var h.1,
          ),
        )

  pub var_to_formula-new_variable :
      (f : Formula) (s : Abstractor)
      → IsLinked s
      → (new_variable E f s).1.var_to_formula
        ≡ (record { id = s.next; kind = boolean }, f) ∷ s.var_to_formula
  unfolding new_variable add emplace_var if_absent
  var_to_formula-new_variable f s h =
      let b : Variable = record { id = s.next; kind = boolean } in
      let unused = Linked-next s.next b s.var_to_formula s.formula_to_var (omega arith) h.1 in
      rw unused refl

module _ (E : Eq Formula) where
  pub formula_to_var-new_variable :
      (f : Formula) (s : Abstractor)
      → variable_of E s.formula_to_var f ≡ none
      → (new_variable E f s).1.formula_to_var
        ≡ (f, record { id = s.next; kind = boolean }) ∷ s.formula_to_var
  unfolding new_variable add emplace_formula if_absent
  formula_to_var-new_variable f s e = rw e refl

  pub variable_of-head :
      (f : Formula) (b : Variable) (es : List (Formula × Variable))
      → variable_of E ((f, b) ∷ es) f ≡ some b
  unfolding variable_of
  variable_of-head f b es = rw (beq_refl E f) refl

  -- An entry for a formula that had none hides no other.
  pub variable_of-later :
      (f g : Formula) (b c : Variable) (es : List (Formula × Variable))
      → variable_of E es f ≡ none
      → variable_of E es g ≡ some c
      → variable_of E ((f, b) ∷ es) g ≡ some c
  unfolding variable_of
  variable_of-later f g b c es e k = elim (Bool-cases (E.beq g f)) [
    | inl q ↦
        let same = (E.beq_iff g f).0 q in
        let no : some c ≡ none = sym k ∙ ap (λ t. variable_of E es t) same ∙ e in
        let z : ⊥ = cc in absurd z
    | inr q ↦ rw q k
  ]

formula_of-id :
    (ds : List (Variable × Formula)) (b c : Variable)
    → b.id ≡ c.id
    → formula_of ds b ≡ formula_of ds c
unfolding formula_of
formula_of-id [] b c e = refl
formula_of-id ((d, f) ∷ ds) b c e =
    ap₂ (λ (i : ℕ) (r : Option Formula). if i == d.id then some f else r) e (formula_of-id ds b c e)

module _ (E : Eq Formula) (base n : ℕ) where
  pub formula_of-variable_of :
      (ds : List (Variable × Formula)) (es : List (Formula × Variable)) (f : Formula) (b : Variable)
      → Linked E base n ds es
      → variable_of E es f ≡ some b
      → formula_of ds b ≡ some f
  unfolding variable_of formula_of
  formula_of-variable_of [] [] f b h e = let z : ⊥ = cc in absurd z
  formula_of-variable_of ((v, g) ∷ ds) ((k, c) ∷ es) f b h e = elim (Bool-cases (E.beq f k)) [
    | inl q ↦
        let hit : c ≡ b = some_injective (rw q at e) in
        let same_key = (E.beq_iff f k).0 q ∙ h.0.0 in
        let same_id : b.id ≡ v.id = ap (λ (t : Variable). t.id) (sym hit ∙ h.0.1) in
        let found : (b.id == v.id) ≡ true = ground arith in rw (found, same_key) refl
    | inr q ↦
        let rest = formula_of-variable_of ds es f b h.1 (rw q at e) in
        elim (Bool-cases (b.id == v.id)) [
          | inl r ↦
              let same_id : b.id ≡ v.id = ground arith in
              let no = sym (formula_of-id ds b v same_id ∙ h.0.6) ∙ rest in
              let z : ⊥ = cc in absurd z
          | inr r ↦ rw r rest
        ]
  ]
  formula_of-variable_of [] (e ∷ es) f b h q = absurd h
  formula_of-variable_of (d ∷ ds) [] f b h q = absurd h

  pub variable_of_named :
      (ds : List (Variable × Formula)) (es : List (Formula × Variable)) (f : Formula)
      → Linked E base n ds es
      → is_named f ≡ false
      → variable_of E es f ≡ none
  unfolding variable_of
  variable_of_named [] [] f h e = refl
  variable_of_named ((v, g) ∷ ds) ((k, c) ∷ es) f h e = elim (Bool-cases (E.beq f k)) [
    | inl q ↦
        let same_key = (E.beq_iff f k).0 q ∙ h.0.0 in
        let no : true ≡ false = sym h.0.5 ∙ ap is_named (sym same_key) ∙ e in
        let z : ⊥ = cc in absurd z
    | inr q ↦ rw q (variable_of_named ds es f h.1 e)
  ]
  variable_of_named [] (e ∷ es) f h q = absurd h
  variable_of_named (d ∷ ds) [] f h q = absurd h

  module _ (S : Semantics) where
    pub variable_of-Holds :
        (ds : List (Variable × Formula)) (es : List (Formula × Variable)) (f : Formula)
        (b : Variable) (ρ : S.Env)
        → Linked E base n ds es
        → variable_of E es f ≡ some b
        → Holds S ds ρ
        → S.truth ρ b ≡ eval S f ρ
    unfolding variable_of
    variable_of-Holds [] [] f b ρ h e k = let z : ⊥ = cc in absurd z
    variable_of-Holds ((v, g) ∷ ds) ((a, c) ∷ es) f b ρ h e k = elim (Bool-cases (E.beq f a)) [
      | inl q ↦
          let hit : c ≡ b = some_injective (rw q at e) in
          let same_key = (E.beq_iff f a).0 q ∙ h.0.0 in
          ap (λ t. S.truth ρ t) (sym hit ∙ h.0.1) ∙ k.0 ∙ ap (λ t. eval S t ρ) (sym same_key)
      | inr q ↦ variable_of-Holds ds es f b ρ h.1 (rw q at e) k.1
    ]
    variable_of-Holds [] (e ∷ es) f b ρ h q k = absurd h
    variable_of-Holds (d ∷ ds) [] f b ρ h q k = absurd h

    module _ (A : Assigns S) where
      keep-Holds :
          (b : Variable) (v : Bool) (ds : List (Variable × Formula))
          (es : List (Formula × Variable)) (ρ : S.Env)
          → base ≤ b.id
          → formula_of ds b ≡ none
          → Linked E base n ds es
          → Holds S ds ρ
          → Holds S ds (A.assign ρ b v)
      unfolding formula_of
      keep-Holds b v [] [] ρ l e h k = tt
      keep-Holds b v ((c, f) ∷ ds) (p ∷ es) ρ l e h k = elim (Bool-cases (b.id == c.id)) [
        | inl q ↦ let no : some f ≡ none = (rw q at e) in let z : ⊥ = cc in absurd z
        | inr q ↦ (
          A.truth_other ρ b c v (ground arith) ∙ k.0 ∙ sym (eval-assign S A base b v l f ρ h.0.4),
          keep-Holds b v ds es ρ l (rw q at e) h.1 k.1,
        )
      ]
      keep-Holds b v [] (e ∷ es) ρ l q h k = tt
      keep-Holds b v (d ∷ ds) [] ρ l q h k = absurd h

      -- Values can be chosen for the variables without changing the formulas below `base`.
      pub choose-Holds :
          (ds : List (Variable × Formula)) (es : List (Formula × Variable)) (ρ : S.Env)
          → Linked E base n ds es
          → (σ : S.Env) × Holds S ds σ × ((g : Formula) → Below base g → eval S g σ ≡ eval S g ρ)
      choose-Holds [] [] ρ h = (ρ, tt, λ g k. refl)
      choose-Holds ((b, f) ∷ ds) (e ∷ es) ρ h =
          let (σ, k, same) = choose-Holds ds es ρ h.1 in
          let v = eval S f σ in
          (
            A.assign σ b v,
            (
              A.truth-assign σ b v ∙ sym (eval-assign S A base b v h.0.2 f σ h.0.4),
              keep-Holds b v ds es σ h.0.2 h.0.6 h.1 k,
            ),
            λ g below. eval-assign S A base b v h.0.2 g σ below ∙ same g below,
          )
      choose-Holds [] (e ∷ es) ρ h = absurd h
      choose-Holds (d ∷ ds) [] ρ h = absurd h
