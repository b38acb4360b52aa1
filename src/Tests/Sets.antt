-- ===== src/Tests/Sets.antt =====
-- A session with a scoped set.
use d_real_cmake.Prelude.{ℕ, ◌≡◌, [], ◌∷◌, none, some, ◌>>=◌, nat_eq, if◌then◌else◌}
use d_real_cmake.Container.ScopedSet.{ScopedSet, push, pop}
use d_real_cmake.Container.ScopedSet.Laws.{
  Session, done, inserts, scope, run, has_clear, set_pop-run,
}

abbrev session : Session ℕ
session = inserts 1 (scope (inserts 3 (inserts 2 done)) (inserts 4 done))

abbrev keys : ScopedSet ℕ
keys = record { actions = []; stack = []; set = 1 ∷ 2 ∷ [] }

set_pop-run_example :
    (run nat_eq session (push nat_eq keys) >>= pop nat_eq)
    ≡ (if has_clear nat_eq session then none else some keys)
set_pop-run_example = set_pop-run nat_eq session keys
