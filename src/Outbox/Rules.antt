-- ===== src/Outbox/Rules.antt =====
-- src/db/outbox/types.ts: the rules on events. The file declares some of them twice; the declarations
-- from line 303 on are named `strict` here. Counts are natural numbers, so the refusals of numbers that
-- are not integers or negative do not arise; a payload is an object.
use credence_backend.Lifecycle.Outbox.{
  OutboxLifecycleStatus, pending, processing, published, failed, dead_letter, status_eq,
}
use credence_backend.Outbox.Table.{OutboxEventRow, CreateOutboxEvent}
use credence_backend.Base.{
  ℕ, String, Bool, true, false, not, Option, none, some, List, [], ◌∷◌, ◌++◌, if◌then◌else◌, leb,
  ltb, ◌==◌, ◌&&◌, ◌||◌, nat_eq, string_eq, contains, length,
}
use credence_backend.Base.Text.{codes, trim, utf16_length}

abbrev pub terminal_outbox_statuses : List OutboxLifecycleStatus
terminal_outbox_statuses = published ∷ dead_letter ∷ []

abbrev pub non_terminal_outbox_statuses : List OutboxLifecycleStatus
non_terminal_outbox_statuses = pending ∷ processing ∷ failed ∷ []

unfoldable pub is_terminal_outbox_status : OutboxLifecycleStatus → Bool
is_terminal_outbox_status status = contains status terminal_outbox_statuses

unfoldable pub is_non_terminal_outbox_status : OutboxLifecycleStatus → Bool
is_non_terminal_outbox_status status = contains status non_terminal_outbox_statuses

abbrev pub outbox_status_transitions : OutboxLifecycleStatus → List OutboxLifecycleStatus
outbox_status_transitions pending = processing ∷ []
outbox_status_transitions processing = pending ∷ failed ∷ published ∷ dead_letter ∷ []
outbox_status_transitions failed = processing ∷ dead_letter ∷ []
outbox_status_transitions published = []
outbox_status_transitions dead_letter = []

unfoldable pub can_transition_outbox_status : OutboxLifecycleStatus → OutboxLifecycleStatus → Bool
can_transition_outbox_status from to =
    if from == to then false else contains to (outbox_status_transitions from)

unfoldable pub is_outbox_retry_exhausted : OutboxEventRow → Bool
is_outbox_retry_exhausted r = r.max_retries == 0 || leb r.max_retries r.retry_count

-- A lease that ends now has run out.
unfoldable pub is_outbox_lease_expired : Option ℕ → ℕ → Bool
is_outbox_lease_expired none now = true
is_outbox_lease_expired (some lease) now = leb lease now

unfoldable pub is_outbox_event_claimable : OutboxEventRow → ℕ → Bool
unfolding is_terminal_outbox_status is_outbox_retry_exhausted is_outbox_lease_expired
is_outbox_event_claimable r now =
    if is_terminal_outbox_status r.status
    then false
    else if is_outbox_retry_exhausted r
    then false
    else if r.status == processing && not (is_outbox_lease_expired r.lease_expires_at now)
    then false
    else true

abbrev pub max_retries_limit : ℕ
max_retries_limit = 100

abbrev pub max_identifier_length : ℕ
max_identifier_length = 255

abbrev pub strict_transitions : OutboxLifecycleStatus → List OutboxLifecycleStatus
strict_transitions pending = processing ∷ dead_letter ∷ []
strict_transitions processing = published ∷ failed ∷ dead_letter ∷ []
strict_transitions failed = pending ∷ dead_letter ∷ []
strict_transitions published = []
strict_transitions dead_letter = []

unfoldable pub can_transition_strict : OutboxLifecycleStatus → OutboxLifecycleStatus → Bool
can_transition_strict from to = if from == to then false else contains to (strict_transitions from)

unfoldable pub can_retry_outbox_event : OutboxEventRow → Bool
can_retry_outbox_event r =
    if not (r.status == failed) && not (r.status == pending)
    then false
    else ltb r.retry_count r.max_retries

unfoldable pub is_outbox_event_exhausted : OutboxEventRow → Bool
is_outbox_event_exhausted r = leb r.max_retries r.retry_count

unfoldable pub can_reclaim_outbox_event : OutboxEventRow → ℕ → Bool
unfolding is_outbox_lease_expired
can_reclaim_outbox_event r now =
    if r.status == processing then is_outbox_lease_expired r.lease_expires_at now else false

pub data Complaint : Type 0 where
  empty_field too_long : String → Complaint
  bad_max_retries : Complaint

abbrev pub field_complaints : String → String → List Complaint
field_complaints field value =
    if length (trim (codes value)) == 0
    then empty_field field ∷ []
    else if ltb max_identifier_length (utf16_length (codes value))
    then too_long field ∷ []
    else []

abbrev pub retry_complaints : Option ℕ → List Complaint
retry_complaints none = []
retry_complaints (some n) = if ltb max_retries_limit n then bad_max_retries ∷ [] else []

unfoldable pub validate_create_outbox_event : CreateOutboxEvent → List Complaint
validate_create_outbox_event e =
    field_complaints "aggregateType" e.aggregate_type
    ++ field_complaints "aggregateId" e.aggregate_id
    ++ field_complaints "eventType" e.event_type
    ++ retry_complaints e.max_retries
