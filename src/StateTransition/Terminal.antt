-- ===== src/StateTransition/Terminal.antt =====
-- The terminal states of a matrix: `getTerminalStates` of src/lib/stateTransition.ts.
use credence_backend.StateTransition.Matrix.{
  Transition, Matrix, empty_matrix, targets_of, with_edge, load, new, has_no_targets,
  get_terminal_states,
}
use credence_backend.StateTransition.Laws.{leaves}
use credence_backend.Base.{
  ◌≡◌, refl, inl, inr, Bool, false, not, ◌&&◌, ◌||◌, some, List, [], ◌∷◌, arith, Eq, ◌==◌, nat_eq,
  contains, add_elem, contains-add_elem, Bool-cases, filter, length,
}
use credence_backend.Base.Dict.{lookup-insert}

module _ {S : Type 0} ⦃e : Eq S⦄ where
  -- Some listed transition leaves or enters `a`.
  abbrev pub mentions : S → List (Transition S) → Bool
  mentions a [] = false
  mentions a (t ∷ ts) = (t.from == a || t.to == a) || mentions a ts

  add_elem-nonempty : (a : S) (xs : List S) → (length (add_elem a xs) == 0) ≡ false
  add_elem-nonempty a [] = refl
  add_elem-nonempty a (x ∷ xs) = ground arith

  contains-filter :
      (p : S → Bool) (a : S) (xs : List S) → contains a (filter p xs) ≡ (contains a xs && p a)
  contains-filter p a [] = refl
  contains-filter p a (x ∷ xs) = elim (Bool-cases (x == a)) [
    | inl same ↦
        let here : x ≡ a = (e.test_iff x a).0 same in ground (arith, contains-filter p a xs)
    | inr other ↦ ground (arith, contains-filter p a xs)
  ]

  with_edge-has_no_targets :
      (t : Transition S) (m : Matrix S) (a : S)
      → has_no_targets (with_edge t m).edges a ≡ (not (t.from == a) && has_no_targets m.edges a)
  unfolding with_edge
  with_edge-has_no_targets t m a = ground (
    arith,
    lookup-insert t.from a (add_elem t.to (targets_of t.from m.edges)) m.edges,
    add_elem-nonempty t.to (targets_of t.from m.edges),
  )

  with_edge-all_states :
      (t : Transition S) (m : Matrix S) (a : S)
      → contains a (with_edge t m).all_states
        ≡ ((t.from == a || t.to == a) || contains a m.all_states)
  unfolding with_edge
  with_edge-all_states t m a = ground (
    arith,
    contains-add_elem a t.to (add_elem t.from m.all_states),
    contains-add_elem a t.from m.all_states,
  )

  load-has_no_targets :
      (ts : List (Transition S)) (m m' : Matrix S) (a : S)
      → load ts m ≡ some m'
      → has_no_targets m'.edges a ≡ (not (leaves a ts) && has_no_targets m.edges a)
  unfolding load
  load-has_no_targets [] m m' a h = ground arith
  load-has_no_targets (t ∷ ts) m m' a h =
      ground (arith, load-has_no_targets ts (with_edge t m) m' a, with_edge-has_no_targets t m a)

  load-all_states :
      (ts : List (Transition S)) (m m' : Matrix S) (a : S)
      → load ts m ≡ some m'
      → contains a m'.all_states ≡ (mentions a ts || contains a m.all_states)
  unfolding load
  load-all_states [] m m' a h = ground arith
  load-all_states (t ∷ ts) m m' a h =
      ground (arith, load-all_states ts (with_edge t m) m' a, with_edge-all_states t m a)

  -- The terminal states are the listed states that no listed transition leaves.
  new-get_terminal_states :
      (ts : List (Transition S)) {m : Matrix S} (a : S)
      → new ts ≡ some m
      → contains a (get_terminal_states m) ≡ (mentions a ts && not (leaves a ts))
  unfolding new get_terminal_states
  new-get_terminal_states ts {m} a h = ground (
    arith,
    contains-filter (has_no_targets m.edges) a m.all_states,
    load-has_no_targets ts (empty_matrix ts) m a h,
    load-all_states ts (empty_matrix ts) m a h,
  )
