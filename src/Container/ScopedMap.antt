-- ===== src/Container/ScopedMap.antt =====
-- src/dreal/util/scoped_unordered_map.h. The hash table is an association list, whose order no
-- client sees; `actions` and `stack` have their backs first. `none` is an exception.
pub mod Laws
use d_real_cmake.Prelude.{
  ℕ, suc, Bool, true, false, List, [], ◌∷◌, Option, none, some, ltb, length, if◌then◌else◌, Eq,
  ◌>>=◌,
}

module _ {K V : Type 0} where
  pub find : Eq K → List (K × V) → K → Option V
  find e [] k = none
  find e ((j, v) ∷ m) k = if e.beq j k then some v else find e m k

  -- `it->second = v` at the entry of `k`.
  pub assign : Eq K → List (K × V) → K → V → List (K × V)
  assign e [] k v = []
  assign e ((j, w) ∷ m) k v = if e.beq j k then (j, v) ∷ m else (j, w) ∷ assign e m k v

  pub erase : Eq K → List (K × V) → K → List (K × V)
  erase e [] k = []
  erase e ((j, w) ∷ m) k = if e.beq j k then m else (j, w) ∷ erase e m k

pub data Action (K V : Type 0) : Type 0 where
  insertion : K → V → Action K V
  update : K → V → Action K V

pub record ScopedMap (K V : Type 0) : Type 0 where
  pub actions : List (Action K V)
  pub stack : List ℕ
  pub map : List (K × V)

module _ {K V : Type 0} (e : Eq K) where
  insert_found : K → V → ScopedMap K V → Option V → ScopedMap K V
  insert_found k v s none = record s { actions = insertion k v ∷ s.actions; map = (k, v) ∷ s.map }
  insert_found k v s (some old) = record s {
    actions = update k old ∷ s.actions;
    map = assign e s.map k v;
  }

  pub insert : K → V → ScopedMap K V → ScopedMap K V
  unfolding insert_found
  insert k v s = insert_found k v s (find e s.map k)

  -- `operator[]`; `none` is the exception for a key that has no entry.
  pub at : ScopedMap K V → K → Option V
  at s k = find e s.map k

  pub push : ScopedMap K V → ScopedMap K V
  push s = record s { stack = length s.actions ∷ s.stack }

  undo : Action K V → List (K × V) → List (K × V)
  undo (insertion k v) m = erase e m k
  undo (update k v) m = assign e m k v

  -- `while (idx < actions_.size())`
  unwind : ℕ → List (Action K V) → List (K × V) → List (Action K V) × List (K × V)
  unwind idx [] m = ([], m)
  unwind idx (a ∷ as') m = elim (ltb idx (suc (length as'))) [
    | true ↦ unwind idx as' (undo a m)
    | false ↦ (a ∷ as', m)
  ]

  pop_scope : List ℕ → ScopedMap K V → Option (ScopedMap K V)
  pop_scope [] s = none
  pop_scope (idx ∷ rest) s =
      let (a, m) = unwind idx s.actions s.map in
      some (record { actions = a; stack = rest; map = m })

  pub pop : ScopedMap K V → Option (ScopedMap K V)
  unfolding pop_scope unwind undo
  pop s = pop_scope s.stack s

  pub clear : ScopedMap K V → ScopedMap K V
  clear s = record { actions = []; stack = []; map = [] }
