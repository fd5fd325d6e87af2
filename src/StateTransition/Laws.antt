-- ===== src/StateTransition/Laws.antt =====
-- What a matrix built by the constructor answers, in terms of the list that it was built from.
use credence_backend.StateTransition.Matrix.{
  Transition, Matrix, empty_matrix, has_key, targets_of, with_edge, load, new, is_valid,
  get_allowed_targets,
}
use credence_backend.Base.{
  ◌≡◌, refl, ◌↔◌, inl, inr, Bool, true, false, not, ◌&&◌, ◌||◌, Option, none, some, List, [], ◌∷◌,
  arith, if◌then◌else◌, Eq, ◌==◌, contains, add_elem, contains-add_elem, Bool-cases, ==_comm,
}
use credence_backend.Base.Dict.{lookup-insert}

module _ {S : Type 0} ⦃e : Eq S⦄ where
  -- Some listed transition leads from `a` to `b`.
  abbrev pub lists : S → S → List (Transition S) → Bool
  lists a b [] = false
  lists a b (t ∷ ts) = (if t.from == a then t.to == b else false) || lists a b ts

  -- Some listed transition leaves `a`.
  abbrev pub leaves : S → List (Transition S) → Bool
  leaves a [] = false
  leaves a (t ∷ ts) = t.from == a || leaves a ts

  -- No two listed transitions have the same ends.
  abbrev pub distinct : List (Transition S) → Bool
  distinct [] = true
  distinct (t ∷ ts) = not (lists t.from t.to ts) && distinct ts

  with_edge-is_valid :
      (t : Transition S) (m : Matrix S) (a b : S)
      → is_valid (with_edge t m) a b
        ≡ ((if t.from == a then t.to == b else false) || is_valid m a b)
  unfolding with_edge is_valid
  with_edge-is_valid t m a b = elim (Bool-cases (t.from == a)) [
    | inl same ↦
        let here : t.from ≡ a = (e.test_iff t.from a).0 same in
        ground (
          arith,
          lookup-insert t.from a (add_elem t.to (targets_of t.from m.edges)) m.edges,
          contains-add_elem b t.to (targets_of t.from m.edges),
        )
    | inr other ↦
        ground (arith, lookup-insert t.from a (add_elem t.to (targets_of t.from m.edges)) m.edges)
  ]

  -- The keys and the valid pairs of a matrix agree.
  abbrev KeysAgree : Matrix S → Type 0
  KeysAgree m = (a b : S) → has_key a b m.edge_keys ≡ is_valid m a b

  with_edge-KeysAgree : (t : Transition S) (m : Matrix S) → KeysAgree m → KeysAgree (with_edge t m)
  unfolding with_edge
  with_edge-KeysAgree t m h a b = ground (arith, h a b, with_edge-is_valid t m a b)

  load-is_valid :
      (ts : List (Transition S)) (m m' : Matrix S) (a b : S)
      → load ts m ≡ some m'
      → is_valid m' a b ≡ (lists a b ts || is_valid m a b)
  unfolding load
  load-is_valid [] m m' a b h = ground arith
  load-is_valid (t ∷ ts) m m' a b h =
      ground (arith, load-is_valid ts (with_edge t m) m' a b, with_edge-is_valid t m a b)

  -- A matrix that the constructor accepts allows exactly the pairs that were listed.
  pub new-is_valid :
      (ts : List (Transition S)) {m : Matrix S} (a b : S)
      → new ts ≡ some m
      → is_valid m a b ≡ lists a b ts
  unfolding new
  new-is_valid ts {m} a b h = ground (arith, load-is_valid ts (empty_matrix ts) m a b h, unlisted)
    where
      unlisted : is_valid (empty_matrix ts) a b ≡ false
      unlisted = unfold is_valid in refl

  -- No listed transition has ends that the matrix holds already.
  abbrev all_new : Matrix S → List (Transition S) → Bool
  all_new m [] = true
  all_new m (t ∷ ts) = not (is_valid m t.from t.to) && all_new m ts

  all_new-with_edge :
      (t : Transition S) (m : Matrix S) (ts : List (Transition S))
      → all_new (with_edge t m) ts ≡ (not (lists t.from t.to ts) && all_new m ts)
  all_new-with_edge t m [] = refl
  all_new-with_edge t m (u ∷ us) = ground (
    arith,
    all_new-with_edge t m us,
    with_edge-is_valid t m u.from u.to,
    ==_comm t.from u.from,
    ==_comm t.to u.to,
  )

  abbrev is_some : Option (Matrix S) → Bool
  is_some none = false
  is_some (some _) = true

  load-distinct :
      (ts : List (Transition S)) (m : Matrix S)
      → KeysAgree m
      → is_some (load ts m) ≡ (distinct ts && all_new m ts)
  unfolding load
  load-distinct [] m h = refl
  load-distinct (t ∷ ts) m h = ground (
    arith,
    h t.from t.to,
    load-distinct ts (with_edge t m) (with_edge-KeysAgree t m h),
    all_new-with_edge t m ts,
  )

  all_new-empty : (ts us : List (Transition S)) → all_new (empty_matrix us) ts ≡ true
  unfolding is_valid
  all_new-empty [] us = refl
  all_new-empty (t ∷ ts) us = all_new-empty ts us

  empty-KeysAgree : (ts : List (Transition S)) → KeysAgree (empty_matrix ts)
  unfolding is_valid
  empty-KeysAgree ts a b = refl

  -- The constructor throws exactly when two listed transitions have the same ends.
  new-eq-none_iff : (ts : List (Transition S)) → (new ts ≡ none) ↔ (distinct ts ≡ false)
  unfolding new
  new-eq-none_iff ts =
      ground (arith, load-distinct ts (empty_matrix ts) (empty-KeysAgree ts), all_new-empty ts ts)

  pub contains-get_allowed_targets :
      (m : Matrix S) (a b : S) → contains b (get_allowed_targets m a) ≡ is_valid m a b
  unfolding get_allowed_targets is_valid
  contains-get_allowed_targets m a b = ground arith
