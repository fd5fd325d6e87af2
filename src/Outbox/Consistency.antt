-- ===== src/Outbox/Consistency.antt =====
-- What every row of `event_outbox` satisfies, and how a row may follow another of the same event.
use credence_backend.Lifecycle.Outbox.{
  OutboxLifecycleStatus, pending, processing, published, failed, dead_letter, status_eq,
  outbox_lifecycle_transitions, is_valid_outbox_transition,
}
use credence_backend.StateTransition.Matrix.{is_valid}
use credence_backend.Outbox.Table.{OutboxEventRow}
use credence_backend.Outbox.Changes.{
  is_null, is_held, is_held_event, is_claimable, with_claim, with_lease, with_release,
  with_publication, with_failure, with_key, with_processing,
}
use credence_backend.Outbox.Claims.{oldest, is_selected}
use credence_backend.Outbox.Events.{can_take_key}
use credence_backend.Base.{
  ℕ, ◌≤◌, String, ◌≡◌, refl, inl, inr, Bool, true, false, Option, none, some, arith, ltb, not,
  if◌then◌else◌, ◌&&◌, ◌||◌, ◌==◌, nat_eq, string_eq, max, List, find_row, rows_distinct, has_row,
  contains, map, [], ◌∷◌, filter, take, sort_by, has_row-filter-passes, has_row-sort_by,
  has_row-take, Bool-cases, ==_comm,
}

-- Held by no consumer, with no lease and no idempotency key.
abbrev pub is_free : OutboxEventRow → Bool
is_free r = is_null r.consumer_id && is_null r.lease_expires_at && is_null r.publish_idempotency_key

abbrev pub has_retries_left : OutboxEventRow → Bool
has_retries_left r = r.retry_count == 0 || ltb r.retry_count r.max_retries

-- The greatest number of failures of an event: one even where no retry is allowed.
abbrev pub attempts : OutboxEventRow → ℕ
attempts r = max 1 r.max_retries

unfoldable pub is_consistent : OutboxEventRow → Bool
is_consistent r = elim r.status [
  | pending ↦ is_free r && is_null r.processed_at && has_retries_left r
  | processing ↦
      is_null r.processed_at
      && has_retries_left r
      && (if is_null r.consumer_id then is_free r else not (is_null r.lease_expires_at))
  | published ↦ is_free r && not (is_null r.processed_at) && has_retries_left r
  | failed ↦ false
  | dead_letter ↦
      is_free r
      && not (is_null r.processed_at)
      && is_null r.next_attempt_at
      && r.retry_count == attempts r
]

abbrev pub same_or_valid : OutboxLifecycleStatus → OutboxLifecycleStatus → Bool
same_or_valid a b = a == b || is_valid_outbox_transition a b

-- A later row of the same event.
abbrev pub Follows : OutboxEventRow → OutboxEventRow → Type 0
Follows r r' =
    (same_or_valid r.status r'.status ≡ true)
    × (r'.max_retries ≡ r.max_retries)
    × (r.retry_count ≤ r'.retry_count)

-- A change of rows of a table that keeps the key, and after which a consistent row is consistent and
-- follows.
abbrev pub Sound :
    List OutboxEventRow → (OutboxEventRow → Bool) → (OutboxEventRow → OutboxEventRow) → Type 0
Sound t p f =
    ((r : OutboxEventRow) → (f r).id ≡ r.id)
    × ((r : OutboxEventRow)
        → find_row (λ x. x.id) r.id t ≡ some r
        → p r ≡ true
        → is_consistent r ≡ true
        → (is_consistent (f r) ≡ true) × Follows r (f r))

pub contains-has_row :
    (id : ℕ) (rows : List OutboxEventRow)
    → contains id (map (λ r. r.id) rows) ≡ has_row (λ r. r.id) id rows
contains-has_row id [] = refl
contains-has_row id (r ∷ rs) = ground (arith, contains-has_row id rs, ==_comm id r.id)

module _ (t : List OutboxEventRow) where
  -- The rows whose ids a query selected passed its test.
  pub selected-passes :
      (p : OutboxEventRow → Bool) (limit : ℕ) {r : OutboxEventRow}
      → rows_distinct (λ x. x.id) t ≡ true
      → find_row (λ x. x.id) r.id t ≡ some r
      → is_selected (oldest limit p t) r ≡ true
      → p r ≡ true
  selected-passes p limit {r} d h sel = has_row-filter-passes (λ x. x.id) p r.id t d h in_filter
    where
      rows : List OutboxEventRow
      rows = filter p t

      in_filter : has_row (λ x. x.id) r.id rows ≡ true
      in_filter = elim (Bool-cases (has_row (λ x. x.id) r.id rows)) [
        | inl here ↦ here
        | inr absent ↦ ground (
          arith,
          contains-has_row r.id (take limit (sort_by (λ x. x.created_at) rows)),
          has_row-take (λ x. x.id) limit r.id (sort_by (λ x. x.created_at) rows),
          has_row-sort_by (λ x. x.id) (λ x. x.created_at) r.id rows,
        )
      ]

  pub with_claim-Sound :
      (p : OutboxEventRow → Bool) (consumer : String) (now expires : ℕ) (shard : Option (ℕ × ℕ))
      → ((r : OutboxEventRow)
          → find_row (λ x. x.id) r.id t ≡ some r
          → p r ≡ true
          → is_claimable now r ≡ true)
      → Sound t p (with_claim consumer expires shard)
  unfolding is_consistent is_valid_outbox_transition outbox_lifecycle_transitions is_valid
  with_claim-Sound p consumer now expires shard can = (
    (λ r. refl),
    λ r e h c. let free = can r e h in (ground arith, (ground arith, refl, omega arith)),
  )

  pub with_lease-Sound :
      (consumer : String) (expires : ℕ) → Sound t (is_held consumer) (with_lease expires)
  unfolding is_consistent is_valid_outbox_transition outbox_lifecycle_transitions is_valid
  with_lease-Sound consumer expires =
      ((λ r. refl), λ r e h c. (ground arith, (ground arith, refl, omega arith)))

  pub with_release-Sound :
      (p : OutboxEventRow → Bool)
      → ((r : OutboxEventRow)
          → find_row (λ x. x.id) r.id t ≡ some r
          → p r ≡ true
          → r.status ≡ processing)
      → Sound t p with_release
  unfolding is_consistent is_valid_outbox_transition outbox_lifecycle_transitions is_valid
  with_release-Sound p on = (
    (λ r. refl),
    λ r e h c. let s = on r e h in (ground arith, (ground arith, refl, omega arith)),
  )

  pub with_publication-Sound :
      (id : ℕ) (consumer : String) (now : ℕ)
      → Sound t (is_held_event id consumer) (with_publication now)
  unfolding is_consistent is_valid_outbox_transition outbox_lifecycle_transitions is_valid
  with_publication-Sound id consumer now =
      ((λ r. refl), λ r e h c. (ground arith, (ground arith, refl, omega arith)))

  pub with_failure-Sound :
      (id : ℕ) (consumer message : String) (now : ℕ)
      → Sound t (is_held_event id consumer) (with_failure message now)
  unfolding is_consistent is_valid_outbox_transition outbox_lifecycle_transitions is_valid
  with_failure-Sound id consumer message now =
      ((λ r. refl), λ r e h c. (ground arith, (ground arith, refl, omega arith)))

  pub with_key-Sound :
      (id : ℕ) (consumer key : String) → Sound t (can_take_key id consumer) (with_key (some key))
  unfolding is_consistent is_valid_outbox_transition outbox_lifecycle_transitions is_valid
  with_key-Sound id consumer key =
      ((λ r. refl), λ r e h c. (ground arith, (ground arith, refl, omega arith)))

  pub without_key-Sound : (p : OutboxEventRow → Bool) → Sound t p (with_key none)
  unfolding is_consistent is_valid_outbox_transition outbox_lifecycle_transitions is_valid
  without_key-Sound p = ((λ r. refl), λ r e h c. (ground arith, (ground arith, refl, omega arith)))

  pub with_processing-Sound :
      (p : OutboxEventRow → Bool)
      → ((r : OutboxEventRow)
          → find_row (λ x. x.id) r.id t ≡ some r
          → p r ≡ true
          → r.status ≡ pending)
      → Sound t p with_processing
  unfolding is_consistent is_valid_outbox_transition outbox_lifecycle_transitions is_valid
  with_processing-Sound p on = (
    (λ r. refl),
    λ r e h c. let s = on r e h in (ground arith, (ground arith, refl, omega arith)),
  )
