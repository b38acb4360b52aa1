-- ===== src/Contractor/Worklist/Bits.antt =====
-- `find_first` and `find_next` of the bit sets, and how many bits are set.
use d_real_cmake.Prelude.{
  ℕ, zero, suc, ◌+◌, ◌<◌, ◌≤◌, ◌≡◌, refl, inl, inr, Bool, true, false, List, [], ◌∷◌, Option, none,
  some, if◌then◌else◌, get_or, set, length, arith, Bool-cases,
}
use d_real_cmake.Contractor.Status.{or_bits}
use d_real_cmake.Solver.Evaluate.{no_bit_set}

-- The first set bit after the first `skip` bits; `pos` is the position of the list's head.
unfoldable pub find_after : ℕ → ℕ → List Bool → Option ℕ
find_after skip pos [] = none
find_after zero pos (b ∷ bs) =
    let rest = find_after zero (suc pos) bs in if b then some pos else rest
find_after (suc skip) pos (b ∷ bs) = find_after skip (suc pos) bs

unfoldable pub find_first : List Bool → Option ℕ
find_first bits = find_after 0 0 bits

unfoldable pub find_next : List Bool → ℕ → Option ℕ
find_next bits i = find_after (suc i) 0 bits

abbrev pub count : List Bool → ℕ
count [] = 0
count (b ∷ bs) = (if b then 1 else 0) + count bs

abbrev pub IsSetAt : List Bool → ℕ → Type 0
IsSetAt bits i = get_or bits i false ≡ true

find_after_set :
    (skip pos : ℕ) (bits : List Bool) (i : ℕ)
    → find_after skip pos bits ≡ some i
    → (j : ℕ) × (i ≡ pos + j) × IsSetAt bits j
unfolding find_after
find_after_set skip pos [] i e = cc
find_after_set zero pos (b ∷ bs) i e = elim (Bool-cases b) [
  | inl q ↦
      let e' : ◌≡◌ {A = Option ℕ} (some pos) (some i) = rw q at e in
      let at : pos ≡ i = cc in (0, omega (arith, at), q)
  | inr q ↦
      let (j, a, s) = find_after_set zero (suc pos) bs i (rw q at e) in (suc j, omega (arith, a), s)
]
find_after_set (suc skip) pos (b ∷ bs) i e =
    let (j, a, s) = find_after_set skip (suc pos) bs i e in (suc j, omega (arith, a), s)

pub find_first-IsSetAt : (bits : List Bool) (i : ℕ) → find_first bits ≡ some i → IsSetAt bits i
unfolding find_first
find_first-IsSetAt bits i e =
    let (j, a, s) = find_after_set 0 0 bits i e in let same : i ≡ j = omega (arith, a) in rw same s

pub find_next-IsSetAt : (bits : List Bool) (k i : ℕ) → find_next bits k ≡ some i → IsSetAt bits i
unfolding find_next
find_next-IsSetAt bits k i e =
    let (j, a, s) = find_after_set (suc k) 0 bits i e in
    let same : i ≡ j = omega (arith, a) in rw same s

find_after-none :
    (pos : ℕ) (bits : List Bool) → find_after 0 pos bits ≡ none → no_bit_set bits ≡ true
unfolding find_after no_bit_set
find_after-none pos [] e = refl
find_after-none pos (b ∷ bs) e = elim (Bool-cases b) [
  | inl q ↦ let e' : ◌≡◌ {A = Option ℕ} (some pos) none = rw q at e in cc
  | inr q ↦ rw q (find_after-none (suc pos) bs (rw q at e))
]

pub find_first-none : (bits : List Bool) → find_first bits ≡ none → no_bit_set bits ≡ true
unfolding find_first
find_first-none bits e = find_after-none 0 bits e

pub count-set : (bits : List Bool) (i : ℕ) → IsSetAt bits i → count (set bits i false) < count bits
count-set [] i s = cc
count-set (b ∷ bs) zero s = rw s (omega arith)
count-set (b ∷ bs) (suc i) s = omega (arith, count-set bs i s)

pub count-length : (bits : List Bool) → count bits ≤ length bits
count-length [] = omega arith
count-length (true ∷ bs) = omega (arith, count-length bs)
count-length (false ∷ bs) = omega (arith, count-length bs)

pub length-set {ℓ} : {A : Type ℓ} (xs : List A) (i : ℕ) (x : A) → length (set xs i x) ≡ length xs
length-set [] i x = refl
length-set (y ∷ ys) zero x = refl
length-set (y ∷ ys) (suc i) x = omega (arith, length-set ys i x)

pub length-or_bits : (xs ys : List Bool) → length (or_bits xs ys) ≡ length xs
unfolding or_bits
length-or_bits [] ys = refl
length-or_bits (x ∷ xs) [] = refl
length-or_bits (x ∷ xs) (y ∷ ys) = omega (arith, length-or_bits xs ys)
