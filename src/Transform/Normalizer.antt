-- ===== src/Transform/Normalizer.antt =====
-- src/dreal/util/predicate_normalizer.cc: the relations `!=`, `>` and `>=` become negations of the
-- other three. `inserted` is what was put into the trie of learned patterns. `Convert` calls itself
-- on formulas that the symbolic library builds: it takes fuel, whose end is `none`.
pub mod Meaning
use d_real_cmake.Prelude.{
  ℕ, zero, suc, Bool, true, false, Option, none, some, List, [], ◌∷◌, if◌then◌else◌, ◌>>=◌, Eq,
  ◌&&◌,
}
use Prim.Native.Nat.{max}
use d_real_cmake.Symbolic.Syntax.{
  Formula, Formulas, false_formula, true_formula, var, eq, neq, gt, geq, lt, leq, conj, disj, neg,
  forall, forall_t, integral, nil, cons,
}
use d_real_cmake.Symbolic.Builder.{Builder}

pub record Normalizer : Type 0 where
  pub cache : List (Formula × Formula)
  pub inserted : List Formula

module _ (E : Eq Formula) where
  unfoldable pub find : List (Formula × Formula) → Formula → Option Formula
  find [] f = none
  find ((g, h) ∷ entries) f = let rest = find entries f in if E.beq f g then some h else rest

  -- `cache.emplace`, of a key that may have come in since it was looked for.
  unfoldable pub remember : Formula → Formula → List (Formula × Formula) → List (Formula × Formula)
  remember f g [] = (f, g) ∷ []
  remember f g ((h, k) ∷ entries) =
      let rest = remember f g entries in if E.beq f h then (h, k) ∷ entries else (h, k) ∷ rest

-- How often `Convert` calls itself.
unfoldable mutual
  pub height : Formula → ℕ
  height (neq a b) = 1
  height (gt a b) = 1
  height (geq a b) = 1
  height (conj fs) = suc (height_all fs)
  height (disj fs) = suc (height_all fs)
  height (neg f) = suc (height f)
  height (forall_t k f) = suc (height f)
  height _ = 0

  pub height_all : Formulas → ℕ
  height_all nil = 0
  height_all (cons f fs) = max (height f) (height_all fs)

-- No `!=`, `>` or `>=` outside a quantified formula.
unfoldable mutual
  pub is_normal : Formula → Bool
  is_normal (neq a b) = false
  is_normal (gt a b) = false
  is_normal (geq a b) = false
  is_normal (conj fs) = are_normal fs
  is_normal (disj fs) = are_normal fs
  is_normal (neg f) = is_normal f
  is_normal _ = true

  pub are_normal : Formulas → Bool
  are_normal nil = true
  are_normal (cons f fs) = is_normal f && are_normal fs

module _ (B : Builder) (E : Eq Formula) where
  unfoldable pub insert : Formula → Normalizer → Normalizer
  insert f s = record { cache = s.cache; inserted = B.negation f ∷ f ∷ s.inserted }

  module _ (recur : Formula → Normalizer → Option (Formula × Normalizer)) where
    unfoldable pub negate_converted : Formula → Normalizer → Option (Formula × Normalizer)
    negate_converted f s = recur f s >>= λ ((g, t) : Formula × Normalizer). some (B.negation g, t)

    unfoldable pub convert_all : Formulas → Normalizer → Option (Formulas × Normalizer)
    convert_all nil s = some (nil, s)
    convert_all (cons f fs) s = recur f s >>= λ ((g, t) : Formula × Normalizer).
        convert_all fs t >>= λ ((gs, u) : Formulas × Normalizer). some (cons g gs, u)

    unfoldable pub visit : Formula → Normalizer → Option (Formula × Normalizer)
    visit (eq a b) s = some (eq a b, insert (eq a b) s)
    visit (lt a b) s = some (lt a b, insert (lt a b) s)
    visit (leq a b) s = some (leq a b, insert (leq a b) s)
    visit (forall vs f) s = some (forall vs f, insert (forall vs f) s)
    visit (integral k) s = some (integral k, insert (integral k) s)
    visit (forall_t k f) s =
        recur f (insert (forall_t k f) s) >>= λ ((g, t) : Formula × Normalizer).
        some (forall_t k g, t)
    visit (neq a b) s = negate_converted (B.equal a b) s
    visit (gt a b) s = negate_converted (B.less_equal a b) s
    visit (geq a b) s = negate_converted (B.less a b) s
    visit (conj fs) s =
        convert_all fs s >>= λ ((gs, t) : Formulas × Normalizer). some (B.make_conjunction gs, t)
    visit (disj fs) s =
        convert_all fs s >>= λ ((gs, t) : Formulas × Normalizer). some (B.make_disjunction gs, t)
    visit (neg f) s = negate_converted f s
    visit false_formula s = some (false_formula, s)
    visit true_formula s = some (true_formula, s)
    visit (var b) s = some (var b, s)

  unfoldable pub store : Formula → Formula × Normalizer → Formula × Normalizer
  store f (g, t) = (g, record { cache = remember E f g t.cache; inserted = t.inserted })

  unfoldable pub cached :
      Option Formula
      → Option (Formula × Normalizer)
      → Formula
      → Normalizer
      → Option (Formula × Normalizer)
  cached (some g) visited f s = some (g, s)
  cached none visited f s = visited >>= λ (r : Formula × Normalizer). some (store f r)

  unfoldable pub convert : ℕ → Formula → Normalizer → Option (Formula × Normalizer)
  convert zero f s = none
  convert (suc fuel) f s = cached (find E s.cache f) (visit (λ g t. convert fuel g t) f s) f s
