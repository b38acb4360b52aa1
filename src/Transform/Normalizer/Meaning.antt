-- ===== src/Transform/Normalizer/Meaning.antt =====
-- The conversion gives a formula, which means the same and in which the relations are normal.
use d_real_cmake.Prelude.{
  ℕ, zero, suc, ◌<◌, ◌≤◌, ◌≡◌, refl, sym, ◌∙◌, ap, ap₂, fun_ext, Bool, true, not, ◌&&◌, ◌||◌,
  Option, some, List, [], ◌∷◌, arith, inl, inr, Bool-cases, Option-cases, some_injective, and-true,
  and_left, and_right, Eq,
}
use d_real_cmake.Symbolic.Syntax.{
  Expression, Formula, Formulas, Every, false_formula, true_formula, var, eq, neq, gt, geq, lt, leq,
  conj, disj, neg, forall, forall_t, integral, nil, cons,
}
use d_real_cmake.Symbolic.Meaning.{Semantics, eval, eval_and, eval_or}
use d_real_cmake.Symbolic.Builder.{Builder, MeansWell, BuildsFrom}
use d_real_cmake.Transform.Normalizer.{
  Normalizer, find, remember, height, height_all, is_normal, are_normal, insert, negate_converted,
  convert_all, visit, store, cached, convert,
}

are_normal-Every : (fs : Formulas) → are_normal fs ≡ true → Every (λ f. is_normal f ≡ true) fs
unfolding is_normal
are_normal-Every nil h = tt
are_normal-Every (cons f fs) h =
    (and_left (is_normal f) _ h, are_normal-Every fs (and_right (is_normal f) _ h))

Every-are_normal : (fs : Formulas) → Every (λ f. is_normal f ≡ true) fs → are_normal fs ≡ true
unfolding is_normal
Every-are_normal nil h = refl
Every-are_normal (cons f fs) h = and-true (is_normal f) _ h.0 (Every-are_normal fs h.1)

module _ (B : Builder) (F : BuildsFrom B) where
  abbrev IsNormal : Formula → Type 0
  IsNormal f = is_normal f ≡ true

  negation-IsNormal : (f : Formula) → IsNormal f → IsNormal (B.negation f)
  unfolding is_normal
  negation-IsNormal f h = F.negation_from IsNormal refl refl (λ g k. k) f h

  make_conjunction-IsNormal :
      (fs : Formulas) → are_normal fs ≡ true → IsNormal (B.make_conjunction fs)
  unfolding is_normal
  make_conjunction-IsNormal fs h =
      F.conjunction_from IsNormal refl refl are_normal-Every Every-are_normal fs
        (are_normal-Every fs h)

  make_disjunction-IsNormal :
      (fs : Formulas) → are_normal fs ≡ true → IsNormal (B.make_disjunction fs)
  unfolding is_normal
  make_disjunction-IsNormal fs h =
      F.disjunction_from IsNormal refl refl are_normal-Every Every-are_normal fs
        (are_normal-Every fs h)

  abbrev Flat : Formula → Type 0
  Flat f = height f ≤ 0

  Flat-relations :
      (a b : Expression) → Flat (B.equal a b) × Flat (B.less a b) × Flat (B.less_equal a b)
  unfolding height
  Flat-relations a b =
      let from = F.relation_from Flat (omega arith) (omega arith) a b in
      (from.0 (omega arith), from.4 (omega arith), from.5 (omega arith))

module _ (S : Semantics) (E : Eq Formula) where
  -- What the cache holds of a formula is normal and means the same.
  abbrev pub AreSound : List (Formula × Formula) → Type 0
  AreSound [] = Unit
  AreSound (e ∷ es) =
      (is_normal e.1 ≡ true) × ((ρ : S.Env) → eval S e.1 ρ ≡ eval S e.0 ρ) × AreSound es

  find-AreSound :
      (es : List (Formula × Formula)) (f g : Formula)
      → AreSound es
      → find E es f ≡ some g
      → (is_normal g ≡ true) × ((ρ : S.Env) → eval S g ρ ≡ eval S f ρ)
  unfolding find
  find-AreSound [] f g h e = let z : ⊥ = cc in absurd z
  find-AreSound ((k, v) ∷ es) f g h e = elim (Bool-cases (E.beq f k)) [
    | inl q ↦
        let same_key = (E.beq_iff f k).0 q in
        let hit : v ≡ g = some_injective (rw q at e) in
        (
          rw (← hit) h.0,
          λ ρ. ap (λ t. eval S t ρ) (sym hit) ∙ h.1 ρ ∙ ap (λ t. eval S t ρ) (sym same_key),
        )
    | inr q ↦ find-AreSound es f g h.2 (rw q at e)
  ]

  remember-AreSound :
      (f g : Formula) (es : List (Formula × Formula))
      → is_normal g ≡ true
      → ((ρ : S.Env) → eval S g ρ ≡ eval S f ρ)
      → AreSound es
      → AreSound (remember E f g es)
  unfolding remember
  remember-AreSound f g [] h k q = (h, k, tt)
  remember-AreSound f g ((a, b) ∷ es) h k q = elim (Bool-cases (E.beq f a)) [
    | inl e ↦ rw e q
    | inr e ↦ rw e (q.0, q.1, remember-AreSound f g es h k q.2)
  ]

module _ (S : Semantics) (B : Builder) (M : MeansWell S B) (F : BuildsFrom B) (E : Eq Formula) where
  abbrev pub Converts : Formula → Option (Formula × Normalizer) → Type 0
  Converts f o =
      (g : Formula) × (t : Normalizer) × (o ≡ some (g, t))
      × (is_normal g ≡ true)
      × ((ρ : S.Env) → eval S g ρ ≡ eval S f ρ)
      × AreSound S E t.cache

  abbrev ConvertsAll : Formulas → Option (Formulas × Normalizer) → Type 0
  ConvertsAll fs o =
      (gs : Formulas) × (t : Normalizer) × (o ≡ some (gs, t))
      × (are_normal gs ≡ true)
      × ((ρ : S.Env) → eval_and S gs ρ ≡ eval_and S fs ρ)
      × ((ρ : S.Env) → eval_or S gs ρ ≡ eval_or S fs ρ)
      × AreSound S E t.cache

  module _ (n : ℕ) (recur : Formula → Normalizer → Option (Formula × Normalizer))
      (ok : (f : Formula) (s : Normalizer)
        → height f < n
        → AreSound S E s.cache
        → Converts f (recur f s)) where
    negate_converted-Converts :
        (f g : Formula) (s : Normalizer)
        → height g < n
        → ((ρ : S.Env) → not (eval S g ρ) ≡ eval S f ρ)
        → AreSound S E s.cache
        → Converts f (negate_converted B E recur g s)
    unfolding negate_converted
    negate_converted-Converts f g s h same k =
        let (u, t, e, normal, means, sound) = ok g s h k in
        (
          B.negation u,
          t,
          rw e refl,
          negation-IsNormal B F u normal,
          λ ρ. M.negation_lem u ρ ∙ ap not (means ρ) ∙ same ρ,
          sound,
        )

    convert_all-Converts :
        (fs : Formulas) (s : Normalizer)
        → height_all fs < n
        → AreSound S E s.cache
        → ConvertsAll fs (convert_all B E recur fs s)
    unfolding convert_all height is_normal eval
    convert_all-Converts nil s h k = (nil, s, refl, refl, λ ρ. refl, λ ρ. refl, k)
    convert_all-Converts (cons f fs) s h k =
        let (g, t, e, normal, means, sound) = ok f s (omega (arith, h)) k in
        let (gs, u, e1, normals, and_same, or_same, sounds) =
          convert_all-Converts fs t (omega (arith, h)) sound in
        (
          cons g gs,
          u,
          rw (e, e1) refl,
          and-true (is_normal g) (are_normal gs) normal normals,
          λ ρ. ap₂ ◌&&◌ (means ρ) (and_same ρ),
          λ ρ. ap₂ ◌||◌ (means ρ) (or_same ρ),
          sounds,
        )

    visit-Converts :
        (f : Formula) (s : Normalizer)
        → height f ≤ n
        → AreSound S E s.cache
        → Converts f (visit B E recur f s)
    unfolding visit insert height is_normal eval
    visit-Converts (eq a b) s h k = (eq a b, _, refl, refl, λ ρ. refl, k)
    visit-Converts (lt a b) s h k = (lt a b, _, refl, refl, λ ρ. refl, k)
    visit-Converts (leq a b) s h k = (leq a b, _, refl, refl, λ ρ. refl, k)
    visit-Converts (forall vs f) s h k = (forall vs f, _, refl, refl, λ ρ. refl, k)
    visit-Converts (integral i) s h k = (integral i, _, refl, refl, λ ρ. refl, k)
    visit-Converts false_formula s h k = (false_formula, s, refl, refl, λ ρ. refl, k)
    visit-Converts true_formula s h k = (true_formula, s, refl, refl, λ ρ. refl, k)
    visit-Converts (var b) s h k = (var b, s, refl, refl, λ ρ. refl, k)
    visit-Converts (forall_t i f) s h k =
        let (g, t, e, normal, means, sound) =
          ok f (insert B E (forall_t i f) s) (omega (arith, h)) k in
        (
          forall_t i g,
          t,
          rw e refl,
          refl,
          λ ρ. ap (λ (p : S.Env → Bool). S.all_times i p ρ) (fun_ext means),
          sound,
        )
    visit-Converts (neq a b) s h k =
        let flat = (Flat-relations B F a b).0 in
        negate_converted-Converts (neq a b) (B.equal a b) s (omega (arith, h, flat))
          (λ ρ. ap not (M.equal_lem a b ρ)) k
    visit-Converts (gt a b) s h k =
        let flat = (Flat-relations B F a b).2 in
        negate_converted-Converts (gt a b) (B.less_equal a b) s (omega (arith, h, flat))
          (λ ρ. ap not (M.less_equal_lem a b ρ)) k
    visit-Converts (geq a b) s h k =
        let flat = (Flat-relations B F a b).1 in
        negate_converted-Converts (geq a b) (B.less a b) s (omega (arith, h, flat))
          (λ ρ. let q = M.less_lem a b ρ in ground arith) k
    visit-Converts (conj fs) s h k =
        let (gs, t, e, normal, and_same, or_same, sound) =
          convert_all-Converts fs s (omega (arith, h)) k in
        (
          B.make_conjunction gs,
          t,
          rw e refl,
          make_conjunction-IsNormal B F gs normal,
          λ ρ. M.conjunction_lem gs ρ ∙ and_same ρ,
          sound,
        )
    visit-Converts (disj fs) s h k =
        let (gs, t, e, normal, and_same, or_same, sound) =
          convert_all-Converts fs s (omega (arith, h)) k in
        (
          B.make_disjunction gs,
          t,
          rw e refl,
          make_disjunction-IsNormal B F gs normal,
          λ ρ. M.disjunction_lem gs ρ ∙ or_same ρ,
          sound,
        )
    visit-Converts (neg f) s h k =
        negate_converted-Converts (neg f) f s (omega (arith, h)) (λ ρ. refl) k

-- With fuel for the height of the formula, and a cache of which every entry is normal and means its
-- key, the conversion gives a formula that is normal, that has the value of the given one in every
-- environment, and leaves such a cache. The operations of the symbolic library are taken to mean
-- their connectives and to build their results from their operands.
pub convert-Converts :
    (S : Semantics) (B : Builder)
    → MeansWell S B
    → BuildsFrom B
    → (E : Eq Formula) (fuel : ℕ) (f : Formula) (s : Normalizer) → height f < fuel
    → AreSound S E s.cache
    → (g : Formula) × (t : Normalizer) × (convert B E fuel f s ≡ some (g, t))
      × (is_normal g ≡ true)
      × ((ρ : S.Env) → eval S g ρ ≡ eval S f ρ)
      × AreSound S E t.cache
unfolding convert cached store
convert-Converts S B M F E zero f s h k = absurd (omega (arith, h))
convert-Converts S B M F E (suc fuel) f s h k = elim (Option-cases (find E s.cache f)) [
  | inl miss ↦
      let (g, t, e, normal, means, sound) =
        visit-Converts S B M F E fuel (λ g u. convert B E fuel g u)
          (convert-Converts S B M F E fuel) f s (omega (arith, h)) k in
      (
        g,
        record { cache = remember E f g t.cache; inserted = t.inserted },
        rw (miss, e) refl,
        normal,
        means,
        remember-AreSound S E f g t.cache normal means sound,
      )
  | inr (g, hit) ↦
      let (normal, means) = find-AreSound S E s.cache f g k hit in
      (g, s, rw hit refl, normal, means, k)
]
