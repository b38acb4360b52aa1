-- ===== src/Tests/Maps.antt =====
-- A session with a scoped map.
use d_real_cmake.Prelude.{ℕ, ◌≡◌, [], ◌∷◌, none, some, ◌>>=◌, nat_eq, if◌then◌else◌, ◌==◌}
use d_real_cmake.Container.ScopedMap.{ScopedMap, at, insert, push, pop}
use d_real_cmake.Container.ScopedMap.Laws.{
  Session, done, inserts, scope, run, has_clear, map_pop-run, at-insert,
}

-- The key 1 is overwritten, in an inner scope again.
abbrev session : Session ℕ ℕ
session = inserts 1 20 (scope (inserts 1 30 (inserts 3 9 done)) (inserts 4 8 done))

abbrev entries : ScopedMap ℕ ℕ
entries = record { actions = []; stack = []; map = (1, 10) ∷ (2, 7) ∷ [] }

map_pop-run_example :
    (run nat_eq session (push nat_eq entries) >>= pop nat_eq)
    ≡ (if has_clear nat_eq session then none else some entries)
map_pop-run_example = map_pop-run nat_eq session entries

at-insert_example :
    at nat_eq (insert nat_eq 1 20 entries) 1 ≡ (if 1 == 1 then some 20 else at nat_eq entries 1)
at-insert_example = at-insert nat_eq 1 1 20 entries
