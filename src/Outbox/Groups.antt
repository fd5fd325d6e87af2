-- ===== src/Outbox/Groups.antt =====
-- The order in which a publisher works on the events of one aggregate.
use credence_backend.Outbox.Table.{OutboxEventRow}
use credence_backend.Outbox.Publisher.{aggregate_key, with_event, add_events, group_by_aggregate}
use credence_backend.Base.{
  String, ◌≡◌, refl, ap, sym, ◌∙◌, inl, inr, none, some, List, [], ◌∷◌, ◌++◌, arith, ◌==◌,
  string_eq, filter, if◌then◌else◌, Bool-cases, Option-cases, ==_iff,
}
use credence_backend.Base.Dict.{Dict, lookup, insert, lookup-insert}

abbrev pub group_of : String → Dict String (List OutboxEventRow) → List OutboxEventRow
group_of key groups = elim (lookup key groups) [ none ↦ [] | some group ↦ group ]

append-one {ℓ} :
    {A : Type ℓ} (xs : List A) (y : A) (zs : List A) → (xs ++ y ∷ []) ++ zs ≡ xs ++ y ∷ zs
append-one [] y zs = refl
append-one (x ∷ xs) y zs = ap (λ r. x ∷ r) (append-one xs y zs)

append-nil {ℓ} : {A : Type ℓ} (xs : List A) → xs ++ [] ≡ xs
append-nil [] = refl
append-nil (x ∷ xs) = ap (λ r. x ∷ r) (append-nil xs)

insert-group_of :
    (key : String) (event : OutboxEventRow) (groups : Dict String (List OutboxEventRow))
    → let own = aggregate_key event in
      group_of key (insert own (with_event event (lookup own groups)) groups)
      ≡ (if own == key then group_of key groups ++ event ∷ [] else group_of key groups)
insert-group_of key event groups =
    let own = aggregate_key event in
    elim (Option-cases (lookup own groups)) [
      | inl absent ↦ ground (
        arith,
        ==_iff own key,
        lookup-insert own key (with_event event (lookup own groups)) groups,
      )
      | inr (g, there) ↦ ground (
        arith,
        ==_iff own key,
        lookup-insert own key (with_event event (lookup own groups)) groups,
      )
    ]

add_events-group_of :
    (key : String) (events : List OutboxEventRow) (groups : Dict String (List OutboxEventRow))
    → group_of key (add_events groups events)
      ≡ group_of key groups ++ filter (λ e. aggregate_key e == key) events
add_events-group_of key [] groups = sym (append-nil (group_of key groups))
add_events-group_of key (event ∷ events) groups =
    let own = aggregate_key event in
    let next = insert own (with_event event (lookup own groups)) groups in
    let step = insert-group_of key event groups in
    let rest = filter (λ e. aggregate_key e == key) events in
    add_events-group_of key events next ∙ elim (Bool-cases (own == key)) [
      | inl hit ↦
          let grown : group_of key next ≡ group_of key groups ++ event ∷ [] = ground arith in
          rw hit (ap (λ g. g ++ rest) grown ∙ append-one (group_of key groups) event rest)
      | inr miss ↦
          let as_before : group_of key next ≡ group_of key groups = ground arith in
          rw miss (ap (λ g. g ++ rest) as_before)
    ]

-- The group of a key are the events of the key in the order of the batch, and no others.
pub group_by_aggregate-order :
    (key : String) (events : List OutboxEventRow)
    → group_of key (group_by_aggregate events) ≡ filter (λ e. aggregate_key e == key) events
unfolding group_by_aggregate
group_by_aggregate-order key events = add_events-group_of key events []
