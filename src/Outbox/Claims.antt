-- ===== src/Outbox/Claims.antt =====
-- src/db/outbox/repository.ts: how consumers claim, renew, release and recover events.
-- `claimEvents`, `renewLease`, `fetchByConsumer` and `getByAggregate` name variables that no line
-- declares (`effectiveLimit`, `effectiveLeaseSeconds`, `shardCountParam`, `shardIdParam`); they are read
-- as the normalised arguments. `hash` gives the first 32 bits of the MD5 of an event's id as a number.
use credence_backend.Lifecycle.Outbox.{pending, status_eq}
use credence_backend.Outbox.Table.{
  OutboxEventRow, normalize_lease_seconds, normalize_limit, normalize_shard,
}
use credence_backend.Outbox.Changes.{
  is_claimable, is_held, is_stale, with_claim, with_lease, with_release, with_processing,
}
use credence_backend.Base.{
  ℕ, ◌+◌, ◌^◌, ◌%◌, ◌-◌, String, Bool, true, false, Option, none, some, List, [], if◌then◌else◌,
  ltb, ◌&&◌, ◌||◌, ◌==◌, nat_eq, string_eq, length, filter, take, map, contains, update_rows,
  sort_by,
}

-- No limit or a lease of a finite number that is not positive.
abbrev pub not_positive : Option ℕ → Bool
not_positive none = false
not_positive (some n) = n == 0

-- `(…)::bit(32)::int % count = shard`: the 32 bits are a signed number, and the remainder of a negative
-- number is not positive.
unfoldable pub in_shard : (ℕ → ℕ) → Option (ℕ × ℕ) → ℕ → Bool
in_shard hash none id = true
in_shard hash (some (count, shard)) id =
    if ltb (hash id) (2 ^ 31)
    then hash id % count == shard
    else (2 ^ 32 - hash id) % count == 0 && shard == 0

-- The inner `SELECT id … ORDER BY created_at ASC LIMIT`.
abbrev pub oldest : ℕ → (OutboxEventRow → Bool) → List OutboxEventRow → List ℕ
oldest limit p t = map (λ r. r.id) (take limit (sort_by (λ r. r.created_at) (filter p t)))

abbrev pub is_selected : List ℕ → OutboxEventRow → Bool
is_selected ids r = contains r.id ids

-- Whether a row is of the caller's shard and can be claimed.
abbrev pub is_candidate : (ℕ → ℕ) → Option (ℕ × ℕ) → ℕ → OutboxEventRow → Bool
is_candidate hash shard now r = is_claimable now r && in_shard hash shard r.id

-- The claimed rows come in the order of the table.
unfoldable pub claim_events :
    (ℕ → ℕ)
    → String
    → Option ℕ
    → Option ℕ
    → Option ℕ
    → Option ℕ
    → ℕ
    → List OutboxEventRow
    → List OutboxEventRow × List OutboxEventRow
claim_events hash consumer limit lease shard_count shard_id now t =
    let shard = normalize_shard shard_count shard_id in
    let ids = oldest (normalize_limit limit) (is_candidate hash shard now) t in
    let claimed =
      update_rows (is_selected ids)
        (with_claim consumer (now + normalize_lease_seconds lease) shard) t in
    if not_positive limit then ([], t) else (filter (is_selected ids) claimed, claimed)

unfoldable pub renew_lease : String → Option ℕ → ℕ → List OutboxEventRow → ℕ × List OutboxEventRow
renew_lease consumer lease now t = if not_positive lease then (0, t) else (
  length (filter (is_held consumer) t),
  update_rows (is_held consumer) (with_lease (now + normalize_lease_seconds lease)) t,
)

unfoldable pub release_claims : String → List OutboxEventRow → ℕ × List OutboxEventRow
release_claims consumer t =
    if consumer == ""
    then (0, t)
    else (length (filter (is_held consumer) t), update_rows (is_held consumer) with_release t)

unfoldable pub recover_stale_leases : ℕ → List OutboxEventRow → ℕ × List OutboxEventRow
recover_stale_leases now t =
    (length (filter (is_stale now) t), update_rows (is_stale now) with_release t)

unfoldable pub fetch_by_consumer : String → Option ℕ → List OutboxEventRow → List OutboxEventRow
fetch_by_consumer consumer limit t =
    if consumer == "" || not_positive limit
    then []
    else take (normalize_limit limit) (sort_by (λ r. r.created_at) (filter (is_held consumer) t))

unfoldable pub fetch_pending_for_processing :
    Option ℕ → List OutboxEventRow → List OutboxEventRow × List OutboxEventRow
fetch_pending_for_processing limit t =
    let ids = oldest (normalize_limit limit) (λ r. r.status == pending) t in
    let fetched = update_rows (is_selected ids) with_processing t in
    if not_positive limit then ([], t) else (filter (is_selected ids) fetched, fetched)
