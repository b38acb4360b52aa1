-- ===== src/Container/ScopedMap/Laws.antt =====
-- Closing a scope, and `insert` of a key.
use d_real_cmake.Prelude.{
  Bool, true, false, or_left, or_right, Bool-cases, ◌||◌, ◌⊎◌, ℕ, ◌≡◌, refl, sym, ◌∙◌, ap, inl, inr,
  List, [], ◌∷◌, ◌++◌, Option, none, some, length, arith, length-append, ◌>>=◌, Eq, if◌then◌else◌,
  beq_refl, Option-cases,
}
use mathlib.Core.List.{append_assoc}
use d_real_cmake.Container.ScopedMap.{
  ScopedMap, Action, insertion, update, find, assign, erase, insert, insert_found, at, push, pop,
  clear, pop_scope, undo, unwind,
}

-- What a client does between a `push` and its `pop`.
pub data Session (K V : Type 0) : Type 0 where
  done : Session K V
  inserts : K → V → Session K V → Session K V
  scope : Session K V → Session K V → Session K V
  clears : Session K V → Session K V

module _ {K V : Type 0} (e : Eq K) where
  pub run : Session K V → ScopedMap K V → Option (ScopedMap K V)
  run done s = some s
  run (inserts k v r) s = run r (insert e k v s)
  run (scope inner r) s = run inner (push e s) >>= λ t. pop e t >>= λ u. run r u
  run (clears r) s = run r (clear e s)

  -- Whether the session clears, in itself or in one of its scopes.
  pub has_clear : Session K V → Bool
  has_clear done = false
  has_clear (inserts k v r) = has_clear r
  has_clear (scope inner r) = has_clear inner || has_clear r
  has_clear (clears r) = true

  assign-assign :
      (m : List (K × V)) (k : K) (v w : V) → find e m k ≡ some w → assign e (assign e m k v) k w ≡ m
  unfolding find assign
  assign-assign [] k v w h = refl
  assign-assign ((j, x) ∷ m) k v w h = ground (arith, assign-assign m k v w)

  -- An action records how to go back.
  undo-insert :
      (k : K) (v : V) (s : ScopedMap K V)
      → (a : Action K V) × (w : List (K × V)) × (insert e k v s
          ≡ record s { actions = a ∷ s.actions; map = w })
        × (undo e a w ≡ s.map)
  unfolding insert
  undo-insert k v s = elim (Option-cases (find e s.map k)) [
    | inl h ↦ (
      insertion k v,
      (k, v) ∷ s.map,
      rw (h, insert_found) refl,
      unfold undo erase in rw (beq_refl e k) refl,
    )
    | inr (old, h) ↦ (
      update k old,
      assign e s.map k v,
      rw (h, insert_found) refl,
      unfold undo in assign-assign s.map k v old h,
    )
  ]

  undo_all : List (Action K V) → List (K × V) → List (K × V)
  undo_all [] m = m
  undo_all (a ∷ as') m = undo_all as' (undo e a m)

  undo_all-append :
      (xs ys : List (Action K V)) (m : List (K × V))
      → undo_all (xs ++ ys) m ≡ undo_all ys (undo_all xs m)
  unfolding undo_all
  undo_all-append [] ys m = refl
  undo_all-append (x ∷ xs) ys m = undo_all-append xs ys (undo e x m)

  unwind_lem :
      (xs ys : List (Action K V)) (m : List (K × V))
      → unwind e (length ys) (xs ++ ys) m ≡ (ys, undo_all xs m)
  unfolding unwind undo_all
  unwind_lem [] [] m = refl
  unwind_lem [] (y ∷ ys) m = ground arith
  unwind_lem (x ∷ xs) ys m = ground (arith, length-append xs ys, unwind_lem xs ys (undo e x m))

  -- A map on which `xs` was recorded since the scope was opened.
  pop-recorded :
      (xs : List (Action K V)) (s : ScopedMap K V) (m : List (K × V))
      → undo_all xs m ≡ s.map
      → pop e (record { actions = xs ++ s.actions; stack = length s.actions ∷ s.stack; map = m })
        ≡ some s
  unfolding pop
  pop-recorded xs s m h = rw (unwind_lem xs s.actions m, pop_scope) (rw h refl)

  abbrev recorded :
      List (Action K V) → List (K × V) → List (Action K V) → List ℕ → Option (ScopedMap K V)
  recorded xs m acts sc = some (record { actions = xs ++ acts; stack = sc; map = m })

  pop-outside : (s : ScopedMap K V) → s.stack ≡ [] → pop e s ≡ none
  unfolding pop pop_scope
  pop-outside s h = rw h refl

  run_lem :
      (r : Session K V) (s : ScopedMap K V)
      → has_clear r ≡ false
      → (xs : List (Action K V)) × (m : List (K × V)) × (run r s
          ≡ some (record { actions = xs ++ s.actions; stack = s.stack; map = m }))
        × (undo_all xs m ≡ s.map)
  unfolding run has_clear push undo_all
  run_lem done s n = ([], s.map, refl, refl)
  run_lem (inserts k v r) s n =
      let (a, w, p, q) = undo-insert k v s in
      let (xs, m, p', q') = run_lem r (insert e k v s) n in
      (
        xs ++ (a ∷ []),
        m,
        p'
            ∙ ap (λ (t : ScopedMap K V). recorded xs m t.actions t.stack) p
            ∙ ap (λ acts. recorded [] m acts s.stack) (sym (append_assoc xs (a ∷ []) s.actions)),
        undo_all-append xs (a ∷ []) m
            ∙ ap (undo e a) (q' ∙ ap (λ (t : ScopedMap K V). t.map) p)
            ∙ q,
      )
  run_lem (scope inner r) s n =
      let (xs, m, p, q) = run_lem inner (push e s) (or_left (has_clear inner) (has_clear r) n) in
      let (ys, m', p', q') = run_lem r s (or_right (has_clear inner) (has_clear r) n) in
      (ys, m', rw p (rw (pop-recorded xs s m q) p'), q')
  run_lem (clears r) s n = let z : ⊥ = cc in absurd z

  -- A session that clears throws at the end of a scope, or ends outside all scopes.
  run-clears :
      (r : Session K V) (s : ScopedMap K V)
      → has_clear r ≡ true
      → (run r s ≡ none) ⊎ ((t : ScopedMap K V) × (run r s ≡ some t) × (t.stack ≡ []))
  unfolding run has_clear clear
  run-clears done s n = let z : ⊥ = cc in absurd z
  run-clears (inserts k v r) s n = run-clears r (insert e k v s) n
  run-clears (clears r) s n = elim (Bool-cases (has_clear r)) [
    | inl h ↦ run-clears r (clear e s) h
    | inr h ↦ let (xs, m, p, q) = run_lem r (clear e s) h in inr (_, p, refl)
  ]
  run-clears (scope inner r) s n = elim (Bool-cases (has_clear inner)) [
    | inl h ↦ elim (run-clears inner (push e s) h) [
      | inl q ↦ inl (rw q refl)
      | inr (t, q, top) ↦ let throws = pop-outside t top in inl (rw (q, throws) refl)
    ]
    | inr h ↦
        let (xs, m, p, q) = run_lem inner (push e s) h in
        let opened : run inner (push e s)
            ≡ some (record {
              actions = xs ++ s.actions;
              stack = length s.actions ∷ s.stack;
              map = m;
            }) =
          p ∙ unfold push in refl in
        let closed = pop-recorded xs s m (q ∙ unfold push in refl) in
        rw (opened, closed) (run-clears r s (rw h at n))
  ]

  -- Whatever a session inserts, over old entries too, and whatever scopes it opens and closes in
  -- itself, it runs without an exception, and the `pop` after it brings back the entries,
  -- the recorded actions and the open scopes exactly as they were at the `push` before it; but if it
  -- clears, in itself or in one of its scopes, then a `pop` throws.
  pub map_pop-run :
      (r : Session K V) (s : ScopedMap K V)
      → (run r (push e s) >>= pop e) ≡ (if has_clear r then none else some s)
  map_pop-run r s = elim (Bool-cases (has_clear r)) [
    | inl h ↦ elim (run-clears r (push e s) h) [
      | inl q ↦ rw (h, q) refl
      | inr (t, q, top) ↦ let throws = pop-outside t top in rw (h, q) throws
    ]
    | inr h ↦
        let (xs, m, p, q) = run_lem r (push e s) h in
        rw (h, p) (unfold push in pop-recorded xs s m q)
  ]

  find-assign :
      (m : List (K × V)) (k j : K) (v w : V)
      → find e m k ≡ some w
      → find e (assign e m k v) j ≡ (if e.beq k j then some v else find e m j)
  unfolding find assign
  find-assign [] k j v w h = cc
  find-assign ((i, x) ∷ m) k j v w h =
      ground (arith, e.beq_iff i k, e.beq_iff k j, e.beq_iff i j, find-assign m k j v w)

  -- After `insert` the key has the new value and every other key what it had, whether or not the
  -- key had an entry before.
  pub at-insert :
      (k j : K) (v : V) (s : ScopedMap K V)
      → at e (insert e k v s) j ≡ (if e.beq k j then some v else at e s j)
  unfolding at insert
  at-insert k j v s = elim (Option-cases (find e s.map k)) [
    | inl h ↦ rw (h, insert_found) (unfold find in refl)
    | inr (old, h) ↦ rw (h, insert_found) (find-assign s.map k j v old h)
  ]

  -- A map without entries has no value of a key.
  pub at-empty :
      (k : K) → ◌≡◌ {A = Option V} (at e (record { actions = []; stack = []; map = [] }) k) none
  unfolding at find
  at-empty k = refl
