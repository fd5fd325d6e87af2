-- ===== src/Outbox/Events.antt =====
-- src/db/outbox/repository.ts: the creation of an event, the outcomes of its publication, and the
-- queries. `now` is `NOW()`; the message of a failure is the one that `sanitizeErrorMessage` returned.
use credence_backend.Lifecycle.Outbox.{
  OutboxLifecycleStatus, pending, processing, published, failed, dead_letter, status_eq,
}
use credence_backend.Outbox.Table.{
  OutboxEventRow, CreateOutboxEvent, OutboxCleanupConfig, State, normalize_limit,
}
use credence_backend.Outbox.Changes.{
  is_null, is_held_event, with_publication, with_failure, with_key,
}
use credence_backend.Outbox.Claims.{not_positive}
use credence_backend.Base.{
  ℕ, ◌+◌, ◌*◌, ◌-◌, String, Bool, false, Option, none, some, List, [], ◌∷◌, ◌++◌, if◌then◌else◌,
  ltb, leb, ◌&&◌, ◌||◌, ◌==◌, not, nat_eq, string_eq, length, filter, find, take, Result, ok, err,
  update_rows, sort_by_desc, min_by,
}

pub data Error : Type 0 where
  cannot_transition : ℕ → String → Error

abbrev pub new_row : ℕ → ℕ → CreateOutboxEvent → OutboxEventRow
new_row id now event = record {
  id = id;
  aggregate_type = event.aggregate_type;
  aggregate_id = event.aggregate_id;
  event_type = event.event_type;
  payload = event.payload;
  status = pending;
  retry_count = 0;
  max_retries = elim event.max_retries [ none ↦ 5 | some n ↦ n ];
  created_at = now;
  processed_at = none;
  error_message = none;
  consumer_id = none;
  lease_expires_at = none;
  trace_id = event.trace_id;
  span_id = event.span_id;
  tracestate = event.tracestate;
  shard_count = none;
  shard_id = none;
  correlation_id = event.correlation_id;
  publish_idempotency_key = none;
  next_attempt_at = none;
}

unfoldable pub create : ℕ → CreateOutboxEvent → State → ℕ × State
create now event s = (
  s.next_event_id,
  record s {
    event_outbox = s.event_outbox ++ new_row s.next_event_id now event ∷ [];
    next_event_id = s.next_event_id + 1;
  },
)

-- `requireTransition` on the number of changed rows.
unfoldable pub require_transition {ℓ} : {A : Type ℓ} → ℕ → ℕ → String → A → Result Error A
require_transition row_count event_id transition value =
    if row_count == 1 then ok value else err (cannot_transition event_id transition)

unfoldable pub mark_published :
    ℕ → String → ℕ → List OutboxEventRow → Result Error (Unit {0}) × List OutboxEventRow
mark_published event_id consumer now t =
    let p = is_held_event event_id consumer in
    if consumer == "" then (err (cannot_transition event_id "markPublished"), t) else (
      require_transition (length (filter p t)) event_id "markPublished" tt,
      update_rows p (with_publication now) t,
    )

abbrev pub can_take_key : ℕ → String → OutboxEventRow → Bool
can_take_key event_id consumer r =
    is_held_event event_id consumer r && is_null r.publish_idempotency_key

unfoldable pub try_set_publish_idempotency_key :
    ℕ → String → String → List OutboxEventRow → Bool × List OutboxEventRow
try_set_publish_idempotency_key event_id key consumer t =
    let p = can_take_key event_id consumer in
    if key == "" || consumer == ""
    then (false, t)
    else (ltb 0 (length (filter p t)), update_rows p (with_key (some key)) t)

unfoldable pub clear_publish_idempotency_key : ℕ → List OutboxEventRow → List OutboxEventRow
clear_publish_idempotency_key event_id t = update_rows (λ r. r.id == event_id) (with_key none) t

-- The status that is derived from the changed row's counts.
abbrev pub outcome : OutboxEventRow → OutboxLifecycleStatus × ℕ
outcome r = (if leb r.max_retries r.retry_count then dead_letter else pending, r.retry_count)

-- The result, of the row that `RETURNING` gives: an error where there is none.
unfoldable pub mark_failed :
    ℕ
    → String
    → String
    → ℕ
    → List OutboxEventRow
    → Result Error (OutboxLifecycleStatus × ℕ) × List OutboxEventRow
mark_failed event_id message consumer now t =
    let p = is_held_event event_id consumer in
    if consumer == "" then (err (cannot_transition event_id "markFailed"), t) else (
      elim (find p t) [
        | none ↦ err (cannot_transition event_id "markFailed")
        | some r ↦
            require_transition (length (filter p t)) event_id "markFailed"
              (outcome (with_failure message now r))
      ],
      update_rows p (with_failure message now) t,
    )

abbrev pub is_of_aggregate : String → String → OutboxEventRow → Bool
is_of_aggregate aggregate_type aggregate_id r =
    r.aggregate_type == aggregate_type && r.aggregate_id == aggregate_id

unfoldable pub get_by_aggregate :
    String → String → Option ℕ → List OutboxEventRow → List OutboxEventRow
get_by_aggregate aggregate_type aggregate_id limit t =
    if not_positive limit
    then []
    else take (normalize_limit limit)
        (sort_by_desc (λ r. r.created_at) (filter (is_of_aggregate aggregate_type aggregate_id) t))

-- The age of the oldest event that is pending or processing.
unfoldable pub get_oldest_pending_event_lag_seconds : ℕ → List OutboxEventRow → ℕ
get_oldest_pending_event_lag_seconds now t =
    let waiting = filter (λ r. r.status == pending || r.status == processing) t in
    elim (min_by (λ r. r.created_at) waiting) [ none ↦ 0 | some created ↦ now - created ]

-- A retention of a number of days is over.
abbrev pub older_than : ℕ → ℕ → OutboxEventRow → Bool
older_than now days r = elim r.processed_at [
  | none ↦ false
  | some processed ↦ ltb (processed + days * 86400) now
]

abbrev pub is_expired : OutboxCleanupConfig → ℕ → OutboxEventRow → Bool
is_expired config now r =
    r.status == published && older_than now config.published_retention_days r
    || r.status == failed && older_than now config.failed_retention_days r

unfoldable pub cleanup : OutboxCleanupConfig → ℕ → List OutboxEventRow → ℕ × List OutboxEventRow
cleanup config now t =
    (length (filter (is_expired config now) t), filter (λ r. not (is_expired config now r)) t)

pub record Stats : Type 0 where
  pub pending_count : ℕ
  pub processing_count : ℕ
  pub published_count : ℕ
  pub failed_count : ℕ
  pub dead_letter_count : ℕ
  pub quarantined_count : ℕ

abbrev pub count_of : OutboxLifecycleStatus → List OutboxEventRow → ℕ
count_of status t = length (filter (λ r. r.status == status) t)

-- The count of `quarantined` stays 0, since it is no status of a row.
unfoldable pub get_stats : List OutboxEventRow → Stats
get_stats t = record {
  pending_count = count_of pending t;
  processing_count = count_of processing t;
  published_count = count_of published t;
  failed_count = count_of failed t;
  dead_letter_count = count_of dead_letter t;
  quarantined_count = 0;
}
