-- ===== src/Solver/Context/Forall.antt =====
-- `HasForall` and `RejectUnsupportedForall` of src/dreal/solver/context_impl.cc.
use d_real_cmake.Prelude.{
  ◌≡◌, refl, Bool, true, false, ◌||◌, Option, none, some, ◌↔◌, ◌⊎◌, inl, inr, List, sym, ap, ◌∙◌,
  Bool-cases,
}
use d_real_cmake.Symbolic.Syntax.{Variable, Formula, Formulas, conj, disj, neg, forall, nil, cons}

unfoldable mutual
  pub has_forall : Formula → Bool
  has_forall (forall vs f) = true
  has_forall (conj fs) = any_forall fs
  has_forall (disj fs) = any_forall fs
  has_forall (neg f) = has_forall f
  has_forall _ = false

  pub any_forall : Formulas → Bool
  any_forall nil = false
  any_forall (cons f fs) = has_forall f || any_forall fs

-- `none` is the exception.
unfoldable pub refuse : Bool → Option (Unit {0})
refuse true = none
refuse false = some tt

unfoldable pub reject_unsupported_forall : Formula → Option (Unit {0})
reject_unsupported_forall (forall vs f) = refuse (has_forall f)
reject_unsupported_forall f = refuse (has_forall f)

abbrev pub Operand : Formula → Formulas → Type 0
Operand f nil = ⊥
Operand f (cons g gs) = (f ≡ g) ⊎ Operand f gs

-- A universal quantifier in the Boolean structure of a formula.
pub data HasForall : Formula → Type 0 where
  here : (vs : List Variable) (f : Formula) → HasForall (forall vs f)
  in_negation : (f : Formula) → HasForall f → HasForall (neg f)
  in_conjunction : (f : Formula) (fs : Formulas) → Operand f fs → HasForall f → HasForall (conj fs)
  in_disjunction : (f : Formula) (fs : Formulas) → Operand f fs → HasForall f → HasForall (disj fs)

any_forall-true :
    (f : Formula) (fs : Formulas) → Operand f fs → has_forall f ≡ true → any_forall fs ≡ true
unfolding has_forall
any_forall-true f nil m h = absurd m
any_forall-true f (cons g gs) (inl e) h =
    let k : has_forall g ≡ true = ap has_forall (sym e) ∙ h in rw k refl
any_forall-true f (cons g gs) (inr m) h = elim (Bool-cases (has_forall g)) [
  | inl e ↦ rw e refl
  | inr e ↦ rw e (any_forall-true f gs m h)
]

HasForall-has_forall : {f : Formula} → HasForall f → has_forall f ≡ true
unfolding has_forall
HasForall-has_forall (here vs f) = refl
HasForall-has_forall (in_negation f h) = HasForall-has_forall h
HasForall-has_forall (in_conjunction f fs m h) = any_forall-true f fs m (HasForall-has_forall h)
HasForall-has_forall (in_disjunction f fs m h) = any_forall-true f fs m (HasForall-has_forall h)

mutual
  unfolding has_forall

  has_forall-HasForall : (f : Formula) → has_forall f ≡ true → HasForall f
  has_forall-HasForall (forall vs f) h = here vs f
  has_forall-HasForall (neg f) h = in_negation f (has_forall-HasForall f h)
  has_forall-HasForall (conj fs) h =
      let (f, m, k) = any_forall-HasForall fs h in in_conjunction f fs m k
  has_forall-HasForall (disj fs) h =
      let (f, m, k) = any_forall-HasForall fs h in in_disjunction f fs m k
  has_forall-HasForall _ h = let z : ⊥ = cc in absurd z

  any_forall-HasForall :
      (fs : Formulas) → any_forall fs ≡ true → (f : Formula) × Operand f fs × HasForall f
  any_forall-HasForall nil h = let z : ⊥ = cc in absurd z
  any_forall-HasForall (cons f fs) h = elim (Bool-cases (has_forall f)) [
    | inl e ↦ (f, inl refl, has_forall-HasForall f e)
    | inr e ↦ let (g, m, k) = any_forall-HasForall fs (rw e at h) in (g, inr m, k)
  ]

judged :
    (f : Formula)
    → ((refuse (has_forall f) ≡ some tt) ↔ (¬ HasForall f))
      × ((refuse (has_forall f) ≡ none) ↔ (¬ (¬ HasForall f)))
unfolding refuse
judged f = elim (Bool-cases (has_forall f)) [
  | inl e ↦ rw e (
    (λ h. let z : ⊥ = cc in absurd z, λ no. absurd (no (has_forall-HasForall f e))),
    (λ h no. no (has_forall-HasForall f e), λ h. refl),
  )
  | inr e ↦
      let no : HasForall f → ⊥ = λ h. let k = sym (HasForall-has_forall h) ∙ e in cc in
      rw e ((λ h. no, λ k. refl), (λ h. let z : ⊥ = cc in absurd z, λ k. absurd (k no)))
]

-- The quantifiers that the solver takes: at the top, over a body without another one.
abbrev pub IsSupported : Formula → Type 0
IsSupported (forall vs f) = ¬ HasForall f
IsSupported f = ¬ HasForall f

-- A formula is let through if and only if it has no quantifier in its Boolean structure, or is one
-- itself whose body has none; any other is refused with an exception.
pub reject_unsupported_forall_lem :
    (f : Formula)
    → ((reject_unsupported_forall f ≡ some tt) ↔ IsSupported f)
      × ((reject_unsupported_forall f ≡ none) ↔ (¬ IsSupported f))
unfolding reject_unsupported_forall
reject_unsupported_forall_lem (forall vs f) = judged f
reject_unsupported_forall_lem f = judged f
