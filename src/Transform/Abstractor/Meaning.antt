-- ===== src/Transform/Abstractor/Meaning.antt =====
-- The abstraction of a normal formula exists, is over Boolean variables only, and has the formula's
-- value where each variable has the value of its formula. Of another formula there is none.
use d_real_cmake.Prelude.{
  ℕ, ◌≡◌, refl, ◌∙◌, ap, ap₂, subst, Bool, true, false, not, ◌&&◌, ◌||◌, Option, none, some, List,
  inl, inr, Option-cases, and-true, and_left, and_right, Eq,
}
use d_real_cmake.Symbolic.Syntax.{
  Variable, Formula, Formulas, Every, false_formula, true_formula, var, eq, neq, gt, geq, lt, leq,
  conj, disj, neg, forall, forall_t, integral, nil, cons,
}
use d_real_cmake.Symbolic.Meaning.{Semantics, eval, eval_and, eval_or}
use d_real_cmake.Symbolic.Builder.{Builder, MeansWell, BuildsFrom}
use d_real_cmake.Transform.Normalizer.{is_normal, are_normal}
use d_real_cmake.Transform.Tseitin.Fresh.{Below, AllBelow}
use d_real_cmake.Transform.Tseitin.Steps.{Holds}
use d_real_cmake.Transform.Abstractor.{
  Abstractor, variable_of, known, new_variable, visit_atomic, visit, visit_all,
}
use d_real_cmake.Transform.Abstractor.Maps.{
  is_named, IsLinked, new_variable-Linked, var_to_formula-new_variable, variable_of_named,
  variable_of-Holds,
}

-- Only truth values, Boolean variables and connectives.
unfoldable mutual
  pub is_boolean : Formula → Bool
  is_boolean false_formula = true
  is_boolean true_formula = true
  is_boolean (var b) = true
  is_boolean (neg f) = is_boolean f
  is_boolean (conj fs) = are_boolean fs
  is_boolean (disj fs) = are_boolean fs
  is_boolean _ = false

  pub are_boolean : Formulas → Bool
  are_boolean nil = true
  are_boolean (cons f fs) = is_boolean f && are_boolean fs

abbrev IsBoolean : Formula → Type 0
IsBoolean f = is_boolean f ≡ true

are_boolean-Every : (fs : Formulas) → are_boolean fs ≡ true → Every IsBoolean fs
unfolding is_boolean
are_boolean-Every nil h = tt
are_boolean-Every (cons f fs) h =
    (and_left (is_boolean f) _ h, are_boolean-Every fs (and_right (is_boolean f) _ h))

Every-are_boolean : (fs : Formulas) → Every IsBoolean fs → are_boolean fs ≡ true
unfolding is_boolean
Every-are_boolean nil h = refl
Every-are_boolean (cons f fs) h = and-true (is_boolean f) _ h.0 (Every-are_boolean fs h.1)

module _ (B : Builder) (F : BuildsFrom B) where
  negation-IsBoolean : (f : Formula) → IsBoolean f → IsBoolean (B.negation f)
  unfolding is_boolean
  negation-IsBoolean f h = F.negation_from IsBoolean refl refl (λ g k. k) f h

  make_conjunction-IsBoolean :
      (fs : Formulas) → are_boolean fs ≡ true → IsBoolean (B.make_conjunction fs)
  unfolding is_boolean
  make_conjunction-IsBoolean fs h =
      F.conjunction_from IsBoolean refl refl are_boolean-Every Every-are_boolean fs
        (are_boolean-Every fs h)

  make_disjunction-IsBoolean :
      (fs : Formulas) → are_boolean fs ≡ true → IsBoolean (B.make_disjunction fs)
  unfolding is_boolean
  make_disjunction-IsBoolean fs h =
      F.disjunction_from IsBoolean refl refl are_boolean-Every Every-are_boolean fs
        (are_boolean-Every fs h)

module _ (S : Semantics) (B : Builder) (M : MeansWell S B) (F : BuildsFrom B) (E : Eq Formula)
    (base : ℕ) where
  abbrev pub Later : Abstractor → Abstractor → Type 0
  Later s t =
      IsLinked E base t × ((ρ : S.Env) → Holds S t.var_to_formula ρ → Holds S s.var_to_formula ρ)

  abbrev pub Abstracts : Formula → Abstractor → Option (Formula × Abstractor) → Type 0
  Abstracts f s o =
      (g : Formula) × (t : Abstractor) × (o ≡ some (g, t))
      × IsBoolean g
      × Later s t
      × ((ρ : S.Env) → Holds S t.var_to_formula ρ → eval S g ρ ≡ eval S f ρ)

  abbrev AbstractsAll : Formulas → Abstractor → Option (Formulas × Abstractor) → Type 0
  AbstractsAll fs s o =
      (gs : Formulas) × (t : Abstractor) × (o ≡ some (gs, t))
      × (are_boolean gs ≡ true)
      × Later s t
      × ((ρ : S.Env)
          → Holds S t.var_to_formula ρ
          → (eval_and S gs ρ ≡ eval_and S fs ρ) × (eval_or S gs ρ ≡ eval_or S fs ρ))

  new_variable-Abstracts :
      (f : Formula) (s : Abstractor)
      → Below base f
      → is_named f ≡ true
      → variable_of E s.formula_to_var f ≡ none
      → IsLinked E base s
      → Abstracts f s (some (new_variable E f s))
  unfolding new_variable is_boolean eval
  new_variable-Abstracts f s below named absent h =
      let entries = var_to_formula-new_variable E base f s h in
      (
        _,
        _,
        refl,
        refl,
        (
          new_variable-Linked E base f s below named absent h,
          λ ρ k. (subst (λ (ds : List (Variable × Formula)). Holds S ds ρ) entries k).1,
        ),
        λ ρ k. (subst (λ (ds : List (Variable × Formula)). Holds S ds ρ) entries k).0,
      )

  visit_atomic-Abstracts :
      (f : Formula) (s : Abstractor)
      → Below base f
      → is_named f ≡ true
      → IsLinked E base s
      → Abstracts f s (known (variable_of E s.formula_to_var f) s (visit_atomic E f s))
  unfolding known visit_atomic is_boolean eval
  visit_atomic-Abstracts f s below named h =
      elim (Option-cases (variable_of E s.formula_to_var f)) [
        | inl absent ↦ rw absent (new_variable-Abstracts f s below named absent h)
        | inr (b, hit) ↦ rw hit (
          var b,
          s,
          refl,
          refl,
          (h, λ ρ k. k),
          λ ρ k.
              variable_of-Holds E base s.next S s.var_to_formula s.formula_to_var f b ρ h.1 hit k,
        )
      ]

  unknown :
      (f : Formula) (s : Abstractor) (o : Option (Formula × Abstractor))
      → is_named f ≡ false
      → IsLinked E base s
      → Abstracts f s o
      → Abstracts f s (known (variable_of E s.formula_to_var f) s o)
  unfolding known
  unknown f s o e h a =
      rw (variable_of_named E base s.next s.var_to_formula s.formula_to_var f h.1 e) a

  mutual
    unfolding visit is_normal is_boolean is_named Below eval

    pub visit-Abstracts :
        (f : Formula) (s : Abstractor)
        → is_normal f ≡ true
        → Below base f
        → IsLinked E base s
        → Abstracts f s (visit E B f s)
    visit-Abstracts (eq a b) s n below h = visit_atomic-Abstracts (eq a b) s below refl h
    visit-Abstracts (lt a b) s n below h = visit_atomic-Abstracts (lt a b) s below refl h
    visit-Abstracts (leq a b) s n below h = visit_atomic-Abstracts (leq a b) s below refl h
    visit-Abstracts (forall vs f) s n below h = visit_atomic-Abstracts (forall vs f) s below refl h
    visit-Abstracts (forall_t k f) s n below h =
        visit_atomic-Abstracts (forall_t k f) s below refl h
    visit-Abstracts (integral k) s n below h = visit_atomic-Abstracts (integral k) s below refl h
    visit-Abstracts (neq a b) s n below h = let z : ⊥ = cc in absurd z
    visit-Abstracts (gt a b) s n below h = let z : ⊥ = cc in absurd z
    visit-Abstracts (geq a b) s n below h = let z : ⊥ = cc in absurd z
    visit-Abstracts (conj fs) s n below h =
        let (gs, t, e, boolean_all, later, same) = visit_all-Abstracts fs s n below h in
        unknown (conj fs) s _ refl h (
          B.make_conjunction gs,
          t,
          rw e refl,
          make_conjunction-IsBoolean B F gs boolean_all,
          later,
          λ ρ k. M.conjunction_lem gs ρ ∙ (same ρ k).0,
        )
    visit-Abstracts (disj fs) s n below h =
        let (gs, t, e, boolean_all, later, same) = visit_all-Abstracts fs s n below h in
        unknown (disj fs) s _ refl h (
          B.make_disjunction gs,
          t,
          rw e refl,
          make_disjunction-IsBoolean B F gs boolean_all,
          later,
          λ ρ k. M.disjunction_lem gs ρ ∙ (same ρ k).1,
        )
    visit-Abstracts (neg f) s n below h =
        let (g, t, e, boolean_g, later, same) = visit-Abstracts f s n below h in
        unknown (neg f) s _ refl h (
          B.negation g,
          t,
          rw e refl,
          negation-IsBoolean B F g boolean_g,
          later,
          λ ρ k. M.negation_lem g ρ ∙ ap not (same ρ k),
        )
    visit-Abstracts false_formula s n below h =
        unknown false_formula s _ refl h (false_formula, s, refl, refl, (h, λ ρ k. k), λ ρ k. refl)
    visit-Abstracts true_formula s n below h =
        unknown true_formula s _ refl h (true_formula, s, refl, refl, (h, λ ρ k. k), λ ρ k. refl)
    visit-Abstracts (var b) s n below h =
        unknown (var b) s _ refl h (var b, s, refl, refl, (h, λ ρ k. k), λ ρ k. refl)

    visit_all-Abstracts :
        (fs : Formulas) (s : Abstractor)
        → are_normal fs ≡ true
        → AllBelow base fs
        → IsLinked E base s
        → AbstractsAll fs s (visit_all E B fs s)
    visit_all-Abstracts nil s n below h = (nil, s, refl, refl, (h, λ ρ k. k), λ ρ k. (refl, refl))
    visit_all-Abstracts (cons f fs) s n below h =
        let (g, t, e, first_boolean, later, same) =
          visit-Abstracts f s (and_left (is_normal f) _ n) below.0 h in
        let (gs, u, e1, rest_boolean, later1, same1) =
          visit_all-Abstracts fs t (and_right (is_normal f) _ n) below.1 later.0 in
        (
          cons g gs,
          u,
          rw (e, e1) refl,
          and-true (is_boolean g) _ first_boolean rest_boolean,
          (later1.0, λ ρ k. later.1 ρ (later1.1 ρ k)),
          λ ρ k.
              let first = same ρ (later1.1 ρ k) in
              let rest = same1 ρ k in (ap₂ ◌&&◌ first rest.0, ap₂ ◌||◌ first rest.1),
        )
