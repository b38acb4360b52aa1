-- ===== src/Container/ScopedSet.antt =====
-- src/dreal/util/scoped_unordered_set.h. The hash set is a list; `actions` and `stack` have their
-- backs first. `none` is an exception.
pub mod Laws
use d_real_cmake.Prelude.{
  ℕ, suc, Bool, true, false, List, [], ◌∷◌, Option, none, some, ltb, length, if◌then◌else◌, Eq,
  ◌||◌,
}

module _ {K : Type 0} where
  pub contains : Eq K → List K → K → Bool
  contains e [] k = false
  contains e (j ∷ m) k = e.beq j k || contains e m k

  erase : Eq K → List K → K → List K
  erase e [] k = []
  erase e (j ∷ m) k = if e.beq j k then m else j ∷ erase e m k

-- The only kind of action is the insertion of a key, which is the action here.
pub record ScopedSet (K : Type 0) : Type 0 where
  pub actions : List K
  pub stack : List ℕ
  pub set : List K

module _ {K : Type 0} (e : Eq K) where
  pub insert : K → ScopedSet K → ScopedSet K
  insert k s =
      if contains e s.set k then s else record s { actions = k ∷ s.actions; set = k ∷ s.set }

  pub count : ScopedSet K → K → ℕ
  count s k = if contains e s.set k then 1 else 0

  pub push : ScopedSet K → ScopedSet K
  push s = record s { stack = length s.actions ∷ s.stack }

  -- `while (idx < actions_.size())`
  unwind : ℕ → List K → List K → List K × List K
  unwind idx [] m = ([], m)
  unwind idx (a ∷ as') m = elim (ltb idx (suc (length as'))) [
    | true ↦ unwind idx as' (erase e m a)
    | false ↦ (a ∷ as', m)
  ]

  pop_scope : List ℕ → ScopedSet K → Option (ScopedSet K)
  pop_scope [] s = none
  pop_scope (idx ∷ rest) s =
      let (a, m) = unwind idx s.actions s.set in
      some (record { actions = a; stack = rest; set = m })

  pub pop : ScopedSet K → Option (ScopedSet K)
  unfolding pop_scope unwind
  pop s = pop_scope s.stack s

  pub clear : ScopedSet K → ScopedSet K
  clear s = record { actions = []; stack = []; set = [] }
