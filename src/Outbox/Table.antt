-- ===== src/Outbox/Table.antt =====
-- src/db/outbox/repository.ts: the rows of `event_outbox` and `outbox_quarantine`, the state, and the
-- normalisation of arguments. Times are numbers of seconds. A caller's limit or lease is a natural
-- number, of which 0 stands for all that is not positive, or `none` where it is not finite.
use credence_backend.Lifecycle.Outbox.{OutboxLifecycleStatus}
use credence_backend.Base.{
  ℕ, String, Option, none, some, List, if◌then◌else◌, leb, ◌||◌, ◌==◌, nat_eq,
}

abbrev pub max_backoff_seconds : ℕ
max_backoff_seconds = 3600

abbrev pub default_lease_seconds : ℕ
default_lease_seconds = 300

abbrev pub default_claim_limit : ℕ
default_claim_limit = 100

unfoldable pub normalize_lease_seconds : Option ℕ → ℕ
normalize_lease_seconds none = default_lease_seconds
normalize_lease_seconds (some lease_seconds) =
    if lease_seconds == 0 then default_lease_seconds else lease_seconds

unfoldable pub normalize_limit : Option ℕ → ℕ
normalize_limit none = default_claim_limit
normalize_limit (some limit) = if limit == 0 then default_claim_limit else limit

-- A number of shards and a shard, both or neither.
unfoldable pub normalize_shard : Option ℕ → Option ℕ → Option (ℕ × ℕ)
normalize_shard (some shard_count) (some shard_id) =
    if shard_count == 0 || leb shard_count shard_id then none else some (shard_count, shard_id)
normalize_shard _ _ = none

pub record OutboxEventRow : Type 0 where
  pub id : ℕ
  pub aggregate_type : String
  pub aggregate_id : String
  pub event_type : String
  pub payload : String
  pub status : OutboxLifecycleStatus
  pub retry_count : ℕ
  pub max_retries : ℕ
  pub created_at : ℕ
  pub processed_at : Option ℕ
  pub error_message : Option String
  pub consumer_id : Option String
  pub lease_expires_at : Option ℕ
  pub trace_id : Option String
  pub span_id : Option String
  pub tracestate : Option String
  pub shard_count : Option ℕ
  pub shard_id : Option ℕ
  pub correlation_id : Option String
  pub publish_idempotency_key : Option String
  pub next_attempt_at : Option ℕ

pub data OutboxQuarantineReason : Type 0 where
  malformed_json schema_invalid oversized_payload unknown_event_type : OutboxQuarantineReason

pub record OutboxQuarantineRow : Type 0 where
  pub id : ℕ
  pub original_event_id : ℕ
  pub aggregate_type : String
  pub aggregate_id : String
  pub event_type : String
  pub payload : String
  pub reason : OutboxQuarantineReason
  pub error_message : String
  pub retry_count : ℕ
  pub max_retries : ℕ
  pub quarantined_at : ℕ
  pub reinjected_at : Option ℕ
  pub reinjected_by : Option String

-- The two tables, and the next keys of their sequences.
pub record State : Type 0 where
  pub event_outbox : List OutboxEventRow
  pub next_event_id : ℕ
  pub outbox_quarantine : List OutboxQuarantineRow
  pub next_quarantine_id : ℕ

pub record CreateOutboxEvent : Type 0 where
  pub aggregate_type : String
  pub aggregate_id : String
  pub event_type : String
  pub payload : String
  pub max_retries : Option ℕ
  pub trace_id : Option String
  pub span_id : Option String
  pub tracestate : Option String
  pub correlation_id : Option String

pub record OutboxCleanupConfig : Type 0 where
  pub published_retention_days : ℕ
  pub failed_retention_days : ℕ
