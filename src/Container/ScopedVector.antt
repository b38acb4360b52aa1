-- ===== src/Container/ScopedVector.antt =====
-- src/dreal/util/scoped_vector.h. The head of a list is the back of the vector. `none` is the
-- exception "Nothing to pop.".
pub mod Laws
use d_real_cmake.Prelude.{
  ℕ, zero, suc, ◌+◌, Bool, List, [], ◌∷◌, ◌++◌, Option, none, some, ltb, length,
}
use mathlib.Core.List.{tail, reverse}

pub record ScopedVector {ℓ} (A : Type ℓ) : Type ℓ where
  pub vector : List A
  pub scopes : List ℕ

module _ {ℓ} {A : Type ℓ} where
  pub push_back : A → ScopedVector A → ScopedVector A
  push_back v s = record s { vector = v ∷ s.vector }

  pub push : ScopedVector A → ScopedVector A
  push s = record s { scopes = length s.vector ∷ s.scopes }

  -- `while (cur_size-- > prev_size) { vector_.pop_back(); count++; }`
  shrink : (cur_size prev_size : ℕ) → List A → (count : ℕ) → List A × ℕ
  shrink zero prev_size v count = (v, count)
  shrink (suc cur_size) prev_size v count = elim (ltb prev_size (suc cur_size)) [
    | Bool.true ↦ shrink cur_size prev_size (tail v) (count + 1)
    | Bool.false ↦ (v, count)
  ]

  pop_scope : List ℕ → List A → Option (ℕ × ScopedVector A)
  pop_scope [] v = none
  pop_scope (prev_size ∷ scopes) v =
      let (v', count) = shrink (length v) prev_size v 0 in
      some (count, record { vector = v'; scopes = scopes })

  pub pop : ScopedVector A → Option (ℕ × ScopedVector A)
  unfolding pop_scope shrink
  pop s = pop_scope s.scopes s.vector

  -- The elements from the first to the last.
  pub get_vector : ScopedVector A → List A
  get_vector s = reverse s.vector

  pub get_reverse : ScopedVector A → List A
  get_reverse s = s.vector
