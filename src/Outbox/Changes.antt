-- ===== src/Outbox/Changes.antt =====
-- src/db/outbox/repository.ts: what each `UPDATE event_outbox SET …` makes of a row, and the tests of
-- the `WHERE` clauses.
use credence_backend.Lifecycle.Outbox.{pending, processing, published, dead_letter, status_eq}
use credence_backend.Outbox.Table.{OutboxEventRow, max_backoff_seconds}
use credence_backend.Base.{
  ℕ, ◌+◌, ◌^◌, String, Bool, true, false, Option, none, some, if◌then◌else◌, leb, ltb, ◌&&◌, ◌||◌,
  ◌==◌, nat_eq, string_eq, min,
}

-- A column that may be null, equal to a text: false of a null column.
abbrev pub is_text : Option String → String → Bool
is_text none text = false
is_text (some s) text = s == text

abbrev pub is_null {ℓ} : {A : Type ℓ} → Option A → Bool
is_null none = true
is_null (some a) = false

-- `lease_expires_at IS NULL OR lease_expires_at < NOW()`
abbrev pub lease_expired : ℕ → OutboxEventRow → Bool
lease_expired now r = elim r.lease_expires_at [ none ↦ true | some expires ↦ ltb expires now ]

-- `next_attempt_at IS NULL OR next_attempt_at <= NOW()`
abbrev pub attempt_due : ℕ → OutboxEventRow → Bool
attempt_due now r = elim r.next_attempt_at [ none ↦ true | some due ↦ leb due now ]

-- `status = 'pending' OR (status = 'processing' AND …)`, and the next attempt is due
abbrev pub is_claimable : ℕ → OutboxEventRow → Bool
is_claimable now r =
    (r.status == pending || r.status == processing && lease_expired now r) && attempt_due now r

-- `consumer_id = … AND status = 'processing'`
abbrev pub is_held : String → OutboxEventRow → Bool
is_held consumer r = is_text r.consumer_id consumer && r.status == processing

abbrev pub is_held_event : ℕ → String → OutboxEventRow → Bool
is_held_event event_id consumer r = r.id == event_id && is_held consumer r

abbrev pub is_stale : ℕ → OutboxEventRow → Bool
is_stale now r = r.status == processing && lease_expired now r

abbrev pub with_claim : String → ℕ → Option (ℕ × ℕ) → OutboxEventRow → OutboxEventRow
with_claim consumer expires shard r = record r {
  status = processing;
  consumer_id = some consumer;
  lease_expires_at = some expires;
  shard_count = elim shard [ none ↦ none | some s ↦ some s.0 ];
  shard_id = elim shard [ none ↦ none | some s ↦ some s.1 ];
}

abbrev pub with_lease : ℕ → OutboxEventRow → OutboxEventRow
with_lease expires r = record r { lease_expires_at = some expires }

abbrev pub with_release : OutboxEventRow → OutboxEventRow
with_release r = record r {
  status = pending;
  consumer_id = none;
  lease_expires_at = none;
  publish_idempotency_key = none;
}

abbrev pub with_publication : ℕ → OutboxEventRow → OutboxEventRow
with_publication now r = record r {
  status = published;
  processed_at = some now;
  consumer_id = none;
  lease_expires_at = none;
  publish_idempotency_key = none;
}

-- `retry_count + 1 >= max_retries`
abbrev pub is_last_attempt : OutboxEventRow → Bool
is_last_attempt r = leb r.max_retries (r.retry_count + 1)

-- `LEAST(POWER(2, retry_count + 1), MAX_BACKOFF_SECONDS)`
abbrev pub backoff_seconds : ℕ → ℕ
backoff_seconds retry_count = min (2 ^ (retry_count + 1)) max_backoff_seconds

abbrev pub with_failure : String → ℕ → OutboxEventRow → OutboxEventRow
with_failure message now r = record r {
  status = if is_last_attempt r then dead_letter else pending;
  retry_count = r.retry_count + 1;
  error_message = some message;
  processed_at = if is_last_attempt r then some now else none;
  consumer_id = none;
  lease_expires_at = none;
  next_attempt_at = if is_last_attempt r then none else some (now + backoff_seconds r.retry_count);
  publish_idempotency_key = none;
}

abbrev pub with_key : Option String → OutboxEventRow → OutboxEventRow
with_key key r = record r { publish_idempotency_key = key }

-- The legacy fetch only sets the status.
abbrev pub with_processing : OutboxEventRow → OutboxEventRow
with_processing r = record r { status = processing }
