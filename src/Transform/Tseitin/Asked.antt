-- ===== src/Transform/Tseitin/Asked.antt =====
-- What the clauses of all definitions together ask for.
use d_real_cmake.Prelude.{
  ◌≡◌, ◌≢◌, refl, sym, ◌∙◌, ap, Bool, true, false, ◌&&◌, some, List, [], ◌∷◌, arith, inl, inr,
  Bool-cases, some_injective, bind-some, if◌then◌else◌, ◌==◌, ltb, and_left, and_right, and-true,
}
use d_real_cmake.Symbolic.Syntax.{Variable, Formula}
use d_real_cmake.Symbolic.Meaning.{Semantics, eval}
use d_real_cmake.Symbolic.Builder.{Builder, MeansWell}
use d_real_cmake.Transform.Tseitin.{emplace, emit, collect}
use d_real_cmake.Transform.Tseitin.Cnfize.{
  eval_clauses, same, same-≡, same_refl, eval-cnfize, eval-push_head,
}
use d_real_cmake.Transform.Tseitin.Steps.{Holds, Numbered}

module _ (S : Semantics) (head : Variable) where
  -- What the clauses of one definition ask for, and of all.
  unfoldable pub asked : Variable × Formula → S.Env → Bool
  asked d ρ = if head.id == d.0.id then eval S d.1 ρ else same (S.truth ρ d.0) (eval S d.1 ρ)

  unfoldable pub asked_all : List (Variable × Formula) → S.Env → Bool
  asked_all [] ρ = true
  asked_all (d ∷ ds) ρ = asked d ρ && asked_all ds ρ

  pub asked_all-emplace :
      (b : Variable) (g : Formula) (ds : List (Variable × Formula)) (ρ : S.Env)
      → asked_all (emplace b g ds) ρ ≡ (asked (b, g) ρ && asked_all ds ρ)
  unfolding emplace asked_all
  asked_all-emplace b g [] ρ = refl
  asked_all-emplace b g (d ∷ ds) ρ = elim (Bool-cases (ltb b.id d.0.id)) [
    | inl q ↦ rw q refl
    | inr q ↦ rw q (let rest = asked_all-emplace b g ds ρ in ground arith)
  ]

  other : (d : Variable × Formula) → d.0.id ≢ head.id → (head.id == d.0.id) ≡ false
  other d h = ground arith

  pub asked-Holds :
      (ds : List (Variable × Formula)) (ρ : S.Env)
      → Numbered (λ i. i ≢ head.id) ds
      → asked_all ds ρ ≡ true
      → Holds S ds ρ
  unfolding asked_all asked
  asked-Holds [] ρ h k = tt
  asked-Holds (d ∷ ds) ρ h k =
      let first : same (S.truth ρ d.0) (eval S d.1 ρ) ≡ true =
        (rw (other d h.0) at (and_left (asked d ρ) (asked_all ds ρ) k)) in
      (same-≡ _ _ first, asked-Holds ds ρ h.1 (and_right (asked d ρ) (asked_all ds ρ) k))

  pub Holds-asked :
      (ds : List (Variable × Formula)) (ρ : S.Env)
      → Numbered (λ i. i ≢ head.id) ds
      → Holds S ds ρ
      → asked_all ds ρ ≡ true
  unfolding asked_all asked
  Holds-asked [] ρ h k = refl
  Holds-asked (d ∷ ds) ρ h k =
      and-true (asked d ρ) (asked_all ds ρ) (rw (other d h.0) (rw k.0 (same_refl (eval S d.1 ρ))))
        (Holds-asked ds ρ h.1 k.1)

  pub asked-head :
      (b : Variable) (g : Formula) (ρ : S.Env) → b.id ≡ head.id → asked (b, g) ρ ≡ eval S g ρ
  unfolding asked
  asked-head b g ρ e = let q : (head.id == b.id) ≡ true = ground arith in rw q refl

  module _ (B : Builder) (M : MeansWell S B) where
    eval-emit :
        (b : Variable) (g : Formula) (cs out : List Formula) (ρ : S.Env)
        → emit B head b g cs ≡ some out
        → eval_clauses S out ρ ≡ (eval_clauses S cs ρ && asked (b, g) ρ)
    unfolding emit asked
    eval-emit b g cs out ρ e = elim (Bool-cases (head.id == b.id)) [
      | inl q ↦ rw q (
          ap (λ t. eval_clauses S t ρ) (sym (some_injective (rw q at e)))
          ∙ eval-push_head S B M g cs ρ)
      | inr q ↦ rw q (eval-cnfize S B M b g cs out ρ (rw q at e))
    ]

    pub eval-collect :
        (ds : List (Variable × Formula)) (cs out : List Formula) (ρ : S.Env)
        → collect B head ds cs ≡ some out
        → eval_clauses S out ρ ≡ (eval_clauses S cs ρ && asked_all ds ρ)
    unfolding collect asked_all
    eval-collect [] cs out ρ e =
        ap (λ t. eval_clauses S t ρ) (sym (some_injective e))
        ∙ (let z = eval_clauses S cs ρ in ground arith)
    eval-collect ((b, g) ∷ ds) cs out ρ e =
        let (mid, e1, e2) = bind-some (emit B head b g cs) _ out e in
        let first = eval-emit b g cs mid ρ e1 in
        let rest = eval-collect ds mid out ρ e2 in ground arith
