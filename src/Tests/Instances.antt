-- ===== src/Tests/Instances.antt =====
-- Reals that are natural numbers, of which the even ones are doubles, with intervals and integers.
use d_real_cmake.Prelude.{
  ℕ, zero, suc, ◌+◌, ◌-◌, ◌*◌, ◌/◌, ◌≡◌, refl, ◌⊎◌, inl, inr, Bool, true, false, ◌&&◌, ◌||◌, ap,
  leb, ltb, arith, [], ◌∷◌, Bool-cases,
}
use Prim.Native.Nat.{max, min}
use d_real_cmake.Symbolic.Syntax.{
  Variable, continuous, integer, Expression, variable, constant, real_constant, term, Formula,
  true_formula, false_formula,
}
use d_real_cmake.Symbolic.Numbers.{Numbers}
use d_real_cmake.Symbolic.Meaning.{Semantics, eval}
use d_real_cmake.Symbolic.Builder.{MeansWell, BuildsFrom, plain}
use d_real_cmake.Box.Interval.{Intervals}
use d_real_cmake.Box.{Box}
use d_real_cmake.Box.Points.{Inside}
use d_real_cmake.Box.Bisect.{Integers}
use d_real_cmake.Filter.Fits.{Reads, IsOnGrid}

abbrev pub numbers : Numbers
numbers = record {
  Real = ℕ;
  le = leb;
  le_refl = λ a. ground arith;
  le_trans = λ a b c h k. ground arith;
  le_total = λ a b h. ground arith;
  real = λ d. 2 * d;
  next_up = λ d. suc d;
  next_down = λ d. d - 1;
}

abbrev pub mem : ℕ × ℕ → ℕ → Bool
mem i x = leb (2 * i.0) x && leb x (2 * i.1)

abbrev pub middle : ℕ × ℕ → ℕ
middle i = (i.0 + i.1) / 2

pub covered :
    (i : ℕ × ℕ) (x : ℕ)
    → mem i x ≡ true
    → (mem (i.0, middle i) x ≡ true) ⊎ (mem (middle i, i.1) x ≡ true)
covered i x h = elim (Bool-cases (leb x (2 * middle i))) [
  | inl e ↦ inl (ground arith)
  | inr e ↦ inr (ground arith)
]

abbrev pub intervals : Intervals numbers
intervals = record {
  Interval = ℕ × ℕ;
  mem = mem;
  lb = λ i. i.0;
  ub = λ i. i.1;
  is_empty = λ i. ltb i.1 i.0;
  nothing = (1, 0);
  of_bounds = λ a b. (a, b);
  of_point = λ a. (a, a);
  contains = λ i d. mem i (2 * d);
  intersect = λ i j. (max i.0 j.0, min i.1 j.1);
  hull = λ i j. (min i.0 j.0, max i.1 j.1);
  diam = λ i. i.1 - i.0;
  is_bisectable = λ i. ltb (suc i.0) i.1;
  bisect = λ i ratio. ((i.0, middle i), (middle i, i.1));
  mid = middle;
  is_empty-nothing = refl;
  mem-nothing = λ x. ground arith;
  mem-is_empty = λ i x h. ground arith;
  mem-bounds = λ i x h. refl;
  mem-of_bounds = λ a b x h. refl;
  mem-of_point = λ a x. refl;
  contains_lem = λ i a. refl;
  mem-intersect = λ i j x. ground arith;
  mem-hull_left = λ i j x h. ground arith;
  mem-hull_right = λ i j x h. ground arith;
  mem-bisect = λ i ratio x b h. covered i x h;
}

abbrev pub integers : Integers numbers
integers = record {
  IsInteger = λ x. (k : ℕ) × (x ≡ 4 * k);
  is_integer = λ d. leb (d - 2 * (d / 2)) 0;
  floor = λ d. 2 * (d / 2);
  ceil = λ d. 2 * ((d + 1) / 2);
  successor = λ d. d + 2;
  ceil_lem = λ d x (k, e) h. ground (arith, e);
  floor_lem = λ d x (k, e) h. ground (arith, e);
  successor_lem = λ d x (k, e) h. ground (arith, e);
}

-- A point is an environment; every truth variable is true.
abbrev pub value : (ℕ → ℕ) → Expression → ℕ
value p (variable v) = p v.id
value p (constant d) = 2 * d
value p (real_constant a b) = 2 * a
value p (term n) = n

abbrev pub semantics : Semantics
semantics = record {
  numbers = numbers;
  Env = ℕ → ℕ;
  truth = λ p v. leb 1 (p v.id);
  value = value;
  all = λ vs f p. f p;
  all_times = λ k f p. f p;
  flows = λ k p. true;
}

pub reads : (p : ℕ → ℕ) → Reads semantics p p
reads p = record {
  variable_lem = λ v. refl;
  constant_lem = λ c. refl;
  lower = λ a b h. ground arith;
  upper = λ a b h. h;
}

pub on_grid : (q : ℕ → ℕ) → IsOnGrid numbers (λ i. 2 * q i)
on_grid q = record { above = λ v i h. ground arith; below = λ v i h. ground arith }

and-one : (b : Bool) → (b && true) ≡ b
and-one true = refl
and-one false = refl

or-none : (b : Bool) → (b || false) ≡ b
or-none true = refl
or-none false = refl

same_truth_means :
    (S : Semantics) (f g : Formula) (p : S.Env) → plain.same f g ≡ true → eval S f p ≡ eval S g p
same_truth_means S true_formula true_formula p h = refl
same_truth_means S false_formula false_formula p h = refl
same_truth_means S _ _ p h = let z : ⊥ = cc in absurd z

pub plain_means : (S : Semantics) → MeansWell S plain
unfolding eval
plain_means S = record {
  same_lem = same_truth_means S;
  negation_lem = λ f p. refl;
  conjunction_lem = λ fs p. refl;
  disjunction_lem = λ fs p. refl;
  both_lem = λ f g p. ap (λ b. eval S f p && b) (and-one (eval S g p));
  either_lem = λ f g p. ap (λ b. eval S f p || b) (or-none (eval S g p));
  equal_lem = λ a b p. refl;
  not_equal_lem = λ a b p. refl;
  greater_lem = λ a b p. refl;
  greater_equal_lem = λ a b p. refl;
  less_lem = λ a b p. refl;
  less_equal_lem = λ a b p. refl;
  quantify_lem = λ vs f p. refl;
}

pub plain_builds : BuildsFrom plain
plain_builds = record {
  conjunction_from = λ P t f from to fs h. to fs h;
  disjunction_from = λ P t f from to fs h. to fs h;
  relation_from = λ P t f a b. (λ h. h, λ h. h, λ h. h, λ h. h, λ h. h, λ h. h);
  negation_from = λ P t f from g h. h;
}

abbrev pub x : Variable
x = record { id = 0; kind = continuous }

abbrev pub n : Variable
n = record { id = 1; kind = integer }

-- `x` from 0 to 16 and `n` from 4 to 12, in reals.
abbrev pub box : Box intervals
box = record { variables = x ∷ n ∷ []; values = (0, 8) ∷ (2, 6) ∷ [] }

-- `x` is 6 and `n` is 8, which is the integer 2.
abbrev pub doubles : ℕ → ℕ
doubles zero = 3
doubles (suc i) = 4

abbrev pub point : ℕ → ℕ
point i = 2 * doubles i

pub point-Inside : Inside intervals point box
point-Inside = (refl, (refl, tt))
