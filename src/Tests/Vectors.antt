-- ===== src/Tests/Vectors.antt =====
-- A session with a scoped vector.
use d_real_cmake.Prelude.{ℕ, ◌≡◌, [], ◌∷◌, some, length, ◌>>=◌}
use d_real_cmake.Container.ScopedVector.{ScopedVector, push, pop}
use d_real_cmake.Container.ScopedVector.Laws.{
  Session, done, adds, scope, run, added, vector_pop-run,
}

abbrev session : Session ℕ
session = adds 4 (scope (adds 5 (adds 6 done)) (adds 7 done))

abbrev two : ScopedVector ℕ
two = record { vector = 2 ∷ 1 ∷ []; scopes = 1 ∷ [] }

vector_pop-run_example : (run session (push two) >>= pop) ≡ some (length (added session []), two)
vector_pop-run_example = vector_pop-run session two
