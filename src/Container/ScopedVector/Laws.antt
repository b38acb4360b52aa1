-- ===== src/Container/ScopedVector/Laws.antt =====
-- A scope that is closed leaves no trace, however it was used in between.
use d_real_cmake.Prelude.{
  ℕ, ◌+◌, ◌≡◌, refl, List, [], ◌∷◌, ◌++◌, Option, none, some, length, arith, length-append, ◌>>=◌,
}
use d_real_cmake.Container.ScopedVector.{ScopedVector, push_back, push, pop, shrink}

-- What a client does between a `push` and its `pop`: it adds elements, and opens and closes scopes.
mutual
  pub data Session {ℓ} (A : Type ℓ) : Type ℓ where
    done : Session A
    adds : A → Session A → Session A
    scope : Session A → Session A → Session A

module _ {ℓ} {A : Type ℓ} where
  pub run : Session A → ScopedVector A → Option (ScopedVector A)
  run done s = some s
  run (adds a r) s = run r (push_back a s)
  run (scope inner r) s =
      run inner (push s) >>= λ t. pop t >>= λ (p : ℕ × ScopedVector A). run r p.1

  -- The elements that a session leaves, last first.
  pub added : Session A → List A → List A
  added done acc = acc
  added (adds a r) acc = added r (a ∷ acc)
  added (scope inner r) acc = added r acc

  shrink_lem :
      (xs ys : List A) (count : ℕ)
      → shrink (length (xs ++ ys)) (length ys) (xs ++ ys) count ≡ (ys, count + length xs)
  unfolding shrink
  shrink_lem [] [] count = ground arith
  shrink_lem [] (y ∷ ys) count = ground arith
  shrink_lem (x ∷ xs) ys count = ground (arith, length-append xs ys, shrink_lem xs ys (count + 1))

  -- A vector extended since its scope was opened is cut back.
  pop-append :
      (xs ys : List A) (sc : List ℕ)
      → pop (record { vector = xs ++ ys; scopes = length ys ∷ sc })
        ≡ some (length xs, record { vector = ys; scopes = sc })
  unfolding pop
  pop-append xs ys sc = ground (arith, shrink_lem xs ys 0)

  run_lem :
      (r : Session A) (xs ys : List A) (sc : List ℕ)
      → run r (record { vector = xs ++ ys; scopes = sc })
        ≡ some (record { vector = added r xs ++ ys; scopes = sc })
  unfolding run added push_back push
  run_lem done xs ys sc = refl
  run_lem (adds a r) xs ys sc = run_lem r (a ∷ xs) ys sc
  run_lem (scope inner r) xs ys sc =
      rw (run_lem inner [] (xs ++ ys) (length (xs ++ ys) ∷ sc))
        (rw (pop-append (added inner []) (xs ++ ys) sc) (run_lem r xs ys sc))

  -- Whatever a session adds and whatever scopes it opens and closes in itself, it runs without an
  -- exception, and the `pop` after it brings back the vector and the open scopes as they were at
  -- the `push` before it, and returns the number of elements that the session had left.
  pub vector_pop-run :
      (r : Session A) (s : ScopedVector A)
      → (run r (push s) >>= pop) ≡ some (length (added r []), s)
  unfolding push
  vector_pop-run r s =
      rw (run_lem r [] s.vector (length s.vector ∷ s.scopes))
        (pop-append (added r []) s.vector s.scopes)

  -- `pop` with no open scope throws.
  pub pop_no_scope : (v : List A) → pop (record { vector = v; scopes = [] }) ≡ none
  unfolding pop
  pop_no_scope v = refl
