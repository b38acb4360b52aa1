-- ===== src/Transform/Abstractor/Results.antt =====
-- What the abstractor promises to its callers.
use d_real_cmake.Prelude.{
  ℕ, ◌≡◌, refl, ◌∙◌, ap, ◌∷◌, Option-cases, true, false, Option, none, some, inl, inr, Bool-cases,
  Eq,
}
use d_real_cmake.Symbolic.Syntax.{
  Variable, boolean, var, Formula, Formulas, neq, gt, geq, conj, disj, neg, nil, cons,
}
use d_real_cmake.Symbolic.Meaning.{Semantics, eval}
use d_real_cmake.Symbolic.Builder.{Builder, MeansWell, BuildsFrom}
use d_real_cmake.Transform.Normalizer.{is_normal, are_normal}
use d_real_cmake.Transform.Tseitin.Fresh.{Assigns, Below, AllBelow}
use d_real_cmake.Transform.Tseitin.Steps.{Holds}
use d_real_cmake.Transform.Abstractor.{
  Abstractor, formula_of, variable_of, known, visit, visit_all, visit_atomic, new_variable, convert,
}
use d_real_cmake.Transform.Abstractor.Maps.{
  is_named, IsLinked, formula_of-variable_of, variable_of_named, new_variable-Linked,
  formula_to_var-new_variable, variable_of-head, variable_of-later, choose-Holds,
}
use d_real_cmake.Transform.Abstractor.Meaning.{is_boolean, visit-Abstracts}

-- The abstraction of a normal formula exists and has only Boolean variables and connectives. For
-- every environment there is another, with the same values of the formulas below `base`, in which
-- the abstraction has the value that the formula has in the first. The formula's variables are below
-- `base`, which the abstractor's are not, and its maps are linked; they are linked afterwards. The
-- operations of the symbolic library are taken to mean their connectives and to build their results
-- from their operands, and an environment to allow any value of a Boolean variable.
pub convert-Abstracts :
    (S : Semantics) (B : Builder)
    → MeansWell S B
    → BuildsFrom B
    → Assigns S
    → (E : Eq Formula) (base : ℕ) (f : Formula) (s : Abstractor) → is_normal f ≡ true
    → Below base f
    → IsLinked E base s
    → (g : Formula) × (t : Abstractor) × (convert E B f s ≡ some (g, t))
      × (is_boolean g ≡ true)
      × IsLinked E base t
      × ((ρ : S.Env)
          → (σ : S.Env) × ((h : Formula) → Below base h → eval S h σ ≡ eval S h ρ)
            × Holds S t.var_to_formula σ
            × (eval S g σ ≡ eval S f ρ))
unfolding convert
convert-Abstracts S B M F A E base f s n below h =
    let (g, t, e, boolean_g, later, value) = visit-Abstracts S B M F E base f s n below h in
    (
      g,
      t,
      e,
      boolean_g,
      later.0,
      λ ρ.
          let (σ, k, kept) =
            choose-Holds E base t.next S A t.var_to_formula t.formula_to_var ρ later.0.1 in
          (σ, kept, k, value σ k ∙ kept f below),
    )

module _ (E : Eq Formula) (base : ℕ) where
  -- What is looked up after an atomic formula was visited: the formula and its variable lead to each
  -- other, what was there before is there, and a second visit finds the variable.
  abbrev pub Remembers : Formula → Abstractor → Variable → Abstractor → Type 0
  Remembers f s b t =
      IsLinked E base t
      × (variable_of E t.formula_to_var f ≡ some b)
      × (formula_of t.var_to_formula b ≡ some f)
      × ((g : Formula) (c : Variable)
          → variable_of E s.formula_to_var g ≡ some c
          → (variable_of E t.formula_to_var g ≡ some c) × (formula_of t.var_to_formula c ≡ some g))
      × (visit_atomic E f t ≡ some (var b, t))

  again_found :
      (f : Formula) (s : Abstractor) (b : Variable)
      → variable_of E s.formula_to_var f ≡ some b
      → visit_atomic E f s ≡ some (var b, s)
  unfolding visit_atomic known
  again_found f s b e = rw e refl

  Remembers-found :
      (f : Formula) (s : Abstractor) (b : Variable)
      → IsLinked E base s
      → variable_of E s.formula_to_var f ≡ some b
      → Remembers f s b s
  Remembers-found f s b h e =
      let back = λ (g : Formula) (c : Variable).
        formula_of-variable_of E base s.next s.var_to_formula s.formula_to_var g c h.1 in
      (h, e, back f b e, λ g c k. (k, back g c k), again_found f s b e)

  Remembers-new :
      (f : Formula) (s : Abstractor)
      → Below base f
      → is_named f ≡ true
      → IsLinked E base s
      → variable_of E s.formula_to_var f ≡ none
      → Remembers f s (record { id = s.next; kind = boolean }) (new_variable E f s).1
  Remembers-new f s below named h e =
      let b : Variable = record { id = s.next; kind = boolean } in
      let t = (new_variable E f s).1 in
      let linked = new_variable-Linked E base f s below named e h in
      let entries : t.formula_to_var ≡ (f, b) ∷ s.formula_to_var =
        formula_to_var-new_variable E f s e in
      let found : variable_of E t.formula_to_var f ≡ some b =
        ap (λ es. variable_of E es f) entries ∙ variable_of-head E f b s.formula_to_var in
      let back = λ (g : Formula) (c : Variable).
        formula_of-variable_of E base t.next t.var_to_formula t.formula_to_var g c linked.1 in
      let kept = λ (g : Formula) (c : Variable) (k : variable_of E s.formula_to_var g ≡ some c).
        ap (λ es. variable_of E es g) entries ∙ variable_of-later E f g b c s.formula_to_var e k in
      (
        linked,
        found,
        back f b found,
        λ g c k. (kept g c k, back g c (kept g c k)),
        again_found f t b found,
      )

-- Visiting an atomic formula gives a variable. Afterwards the formula leads to this variable and the
-- variable to the formula, every formula that led to a variable still does and the variable leads
-- back to it, and a second visit gives the same variable and changes nothing. The formula is of a
-- kind that gets a variable, its variables are below `base`, and the maps are linked, as they are
-- afterwards.
pub visit_atomic_lem :
    (E : Eq Formula) (base : ℕ) (f : Formula) (s : Abstractor)
    → Below base f
    → is_named f ≡ true
    → IsLinked E base s
    → (b : Variable) × (t : Abstractor) × (visit_atomic E f s ≡ some (var b, t))
      × Remembers E base f s b t
unfolding visit_atomic known
visit_atomic_lem E base f s below named h = elim (Option-cases (variable_of E s.formula_to_var f)) [
  | inr (b, e) ↦ (b, s, rw e refl, Remembers-found E base f s b h e)
  | inl e ↦ (
    record { id = s.next; kind = boolean },
    (new_variable E f s).1,
    rw e (unfold new_variable in refl),
    Remembers-new E base f s below named h e,
  )
]

module _ (S : Semantics) (B : Builder) (M : MeansWell S B) (F : BuildsFrom B) (E : Eq Formula)
    (base : ℕ) where
  unknown_none :
      (f : Formula) (s : Abstractor) (o : Option (Formula × Abstractor))
      → is_named f ≡ false
      → IsLinked E base s
      → o ≡ none
      → known (variable_of E s.formula_to_var f) s o ≡ none
  unfolding known
  unknown_none f s o e h a =
      rw (variable_of_named E base s.next s.var_to_formula s.formula_to_var f h.1 e) a

  mutual
    unfolding visit is_normal is_named Below

    visit-none :
        (f : Formula) (s : Abstractor)
        → is_normal f ≡ false
        → Below base f
        → IsLinked E base s
        → visit E B f s ≡ none
    visit-none (neq a b) s n below h = unknown_none (neq a b) s none refl h refl
    visit-none (gt a b) s n below h = unknown_none (gt a b) s none refl h refl
    visit-none (geq a b) s n below h = unknown_none (geq a b) s none refl h refl
    visit-none (conj fs) s n below h =
        unknown_none (conj fs) s _ refl h (rw (visit_all-none fs s n below h) refl)
    visit-none (disj fs) s n below h =
        unknown_none (disj fs) s _ refl h (rw (visit_all-none fs s n below h) refl)
    visit-none (neg f) s n below h =
        unknown_none (neg f) s _ refl h (rw (visit-none f s n below h) refl)
    visit-none _ s n below h = let z : ⊥ = cc in absurd z

    visit_all-none :
        (fs : Formulas) (s : Abstractor)
        → are_normal fs ≡ false
        → AllBelow base fs
        → IsLinked E base s
        → visit_all E B fs s ≡ none
    visit_all-none nil s n below h = let z : ⊥ = cc in absurd z
    visit_all-none (cons f fs) s n below h = elim (Bool-cases (is_normal f)) [
      | inl k ↦
          let (g, t, e, boolean_g, later, value) = visit-Abstracts S B M F E base f s k below.0 h in
          let rest = visit_all-none fs t (rw k at n) below.1 later.0 in rw (e, rest) refl
      | inr k ↦ let first = visit-none f s k below.0 h in rw first refl
    ]

-- Of a formula with `!=`, `>` or `>=` outside a quantified formula there is no abstraction: the
-- conversion throws. The formula's variables are below `base` and the maps are linked, and the
-- operations of the symbolic library are taken to mean their connectives and to build their results
-- from their operands.
pub convert_throws :
    (S : Semantics) (B : Builder)
    → MeansWell S B
    → BuildsFrom B
    → (E : Eq Formula) (base : ℕ) (f : Formula) (s : Abstractor) → is_normal f ≡ false
    → Below base f
    → IsLinked E base s
    → convert E B f s ≡ none
unfolding convert
convert_throws S B M F E base f s n below h = visit-none S B M F E base f s n below h
