-- ===== src/Outbox/Publisher.antt =====
-- src/db/outbox/publisher.ts: the processing of one claimed event. `begin_event` is the part up to the
-- await of the publication and `finish_event` the part after it, so a publisher that stops in between
-- runs only the first. `parse`, `byte_length` and `schema_error` are `JSON.parse` with the check for an
-- object, `Buffer.byteLength` and the schemas of src/schemas/queue.ts, each with the message of a
-- refusal. Times, the span and the metrics are left out. `markFailed` gets a Boolean for the consumer,
-- which the driver writes as a text.
use Prim.Native.String.{◌++◌ as ◌<>◌, ◌∷◌ as ◌:>◌}
use Prim.Native.Char.{Char}
use credence_backend.Lifecycle.Outbox.{OutboxLifecycleStatus}
use credence_backend.Outbox.Table.{
  OutboxEventRow, OutboxQuarantineReason, malformed_json, schema_invalid, oversized_payload,
  unknown_event_type, State,
}
use credence_backend.Outbox.Events.{
  Error, cannot_transition, mark_published, mark_failed, try_set_publish_idempotency_key,
}
use credence_backend.Outbox.Quarantine.{quarantine}
use credence_backend.Base.{
  ℕ, zero, suc, ◌+◌, ◌/◌, ◌%◌, String, Bool, true, false, not, Option, none, some, List, [], ◌∷◌,
  ◌++◌, if◌then◌else◌, ltb, leb, ◌==◌, string_eq, contains, get_elem?, Result, ok, err,
}
use credence_backend.Base.Dict.{Dict, lookup, insert}

abbrev pub digit : ℕ → Char
digit n = elim (get_elem? {A = Char} ("0" ∷ "1" ∷ "2" ∷ "3" ∷ "4" ∷ "5" ∷ "6" ∷ "7" ∷ "8" ∷ []) n) [
  | none ↦ "9"
  | some c ↦ c
]

-- A number in decimal, of at most as many digits as the bound, before a text.
abbrev pub number_text : ℕ → ℕ → String → String
number_text zero n rest = rest
number_text (suc bound) n rest =
    let more = number_text bound (n / 10) (digit (n % 10) :> rest) in
    if ltb n 10 then digit n :> rest else more

unfoldable pub build_publish_idempotency_key : String → ℕ → String
build_publish_idempotency_key consumer event_id =
    "outbox-pub:" <> (consumer <> (":" <> number_text (event_id + 1) event_id ""))

abbrev pub schema_event_types : List String
schema_event_types =
    "attestation.event" ∷ "attestation.add" ∷ "attestation.revoke" ∷ "bond.creation" ∷ "bond.create"
    ∷ "withdrawal.event" ∷ "bond.withdrawal" ∷ []

abbrev pub known_outbox_event_types : List String
known_outbox_event_types =
    "bond.created" ∷ "bond.slashed" ∷ "bond.withdrawn" ∷ "attestation.created"
    ∷ "attestation.revoked" ∷ schema_event_types

abbrev pub default_max_payload_bytes : ℕ
default_max_payload_bytes = 262144

pub record PoisonPillDetection : Type 0 where
  pub reason : OutboxQuarantineReason
  pub message : String

pub record Checks : Type 0 where
  pub parse : String → Option String
  pub byte_length : String → ℕ
  pub schema_error : String → String → Option String
  pub max_payload_bytes : Option ℕ

unfoldable pub detect_poison_pill : Checks → OutboxEventRow → Option PoisonPillDetection
detect_poison_pill c event =
    let max_bytes : ℕ = elim c.max_payload_bytes [
      | none ↦ default_max_payload_bytes
      | some n ↦ n
    ] in
    let of_schema : Option PoisonPillDetection =
      elim (c.schema_error event.event_type event.payload) [
        | none ↦ none
        | some message ↦ some (record { reason = schema_invalid; message = message })
      ] in
    elim (c.parse event.payload) [
      | some message ↦ some (record { reason = malformed_json; message = message })
      | none ↦
          if ltb max_bytes (c.byte_length event.payload)
          then some (record {
            reason = oversized_payload;
            message = "payload exceeds " <> number_text (max_bytes + 1) max_bytes " bytes";
          })
          else if not (contains event.event_type known_outbox_event_types)
          then some (record {
            reason = unknown_event_type;
            message = "unknown event type " <> event.event_type;
          })
          else if contains event.event_type schema_event_types
          then of_schema
          else none
    ]

-- What the first part comes to.
pub data Begun : Type 0 where
  quarantined : Begun
  skipped : Result Error (Unit {0}) → Begun
  publishes : Begun

abbrev pub on_table : State → List OutboxEventRow → State
on_table s t = record s { event_outbox = t }

-- `event` is the row that the claim returned.
unfoldable pub begin_event : Checks → String → OutboxEventRow → ℕ → State → Begun × State
begin_event c consumer event now s =
    let (skip, marked) = mark_published event.id consumer now s.event_outbox in
    let key = build_publish_idempotency_key consumer event.id in
    let (acquired, keyed) = try_set_publish_idempotency_key event.id key consumer s.event_outbox in
    let (late, marked_late) = mark_published event.id consumer now keyed in
    elim (detect_poison_pill c event) [
      | some poison ↦ (quarantined, quarantine event poison.reason poison.message now s)
      | none ↦
          if elim event.publish_idempotency_key [ none ↦ false | some k ↦ not (k == "") ]
          then (skipped skip, on_table s marked)
          else if acquired
          then (publishes, on_table s keyed)
          else (skipped late, on_table s marked_late)
    ]

-- The Boolean as the text that the statement compares the consumer with; `!false` is the refusal of an
-- empty consumer.
abbrev pub consumer_text : Bool → String
consumer_text false = ""
consumer_text true = "true"

unfoldable pub handle_publish_failure :
    OutboxEventRow → String → ℕ → State → Result Error (OutboxLifecycleStatus × ℕ) × State
handle_publish_failure event message now s =
    let last = leb event.max_retries (event.retry_count + 1) in
    let (r, t) = mark_failed event.id message (consumer_text last) now s.event_outbox in
    (r, on_table s t)

abbrev pub error_text : Error → String
error_text (cannot_transition id transition) =
    "Outbox event " <> number_text (id + 1) id (" cannot transition via " <> transition)

-- The failure is handled a second time where the first handling threw.
abbrev pub handle_again :
    OutboxEventRow
    → ℕ
    → Result Error (OutboxLifecycleStatus × ℕ) × State
    → Result Error (Unit {0}) × State
handle_again event now (ok _, s) = (ok tt, s)
handle_again event now (err e, s) =
    let (r, s') = handle_publish_failure event (error_text e) now s in
    elim r [ ok _ ↦ (ok tt, s') | err e' ↦ (err e', s') ]

-- The publication succeeded, or failed with a message; a refusal of `markPublished` is handled as a
-- failure too.
unfoldable pub finish_event :
    String → OutboxEventRow → Option String → ℕ → State → Result Error (Unit {0}) × State
finish_event consumer event (some message) now s =
    handle_again event now (handle_publish_failure event message now s)
finish_event consumer event none now s =
    let (r, t) = mark_published event.id consumer now s.event_outbox in
    elim r [
      | ok _ ↦ (ok tt, on_table s t)
      | err e ↦
          handle_again event now (handle_publish_failure event (error_text e) now (on_table s t))
    ]

unfoldable pub aggregate_key : OutboxEventRow → String
aggregate_key event = event.aggregate_type <> (":" <> event.aggregate_id)

abbrev pub with_event : OutboxEventRow → Option (List OutboxEventRow) → List OutboxEventRow
with_event event none = event ∷ []
with_event event (some group) = group ++ event ∷ []

abbrev pub add_events :
    Dict String (List OutboxEventRow) → List OutboxEventRow → Dict String (List OutboxEventRow)
add_events groups [] = groups
add_events groups (event ∷ events) =
    let key = aggregate_key event in
    add_events (insert key (with_event event (lookup key groups)) groups) events

-- The groups in the order of their first events.
unfoldable pub group_by_aggregate : List OutboxEventRow → Dict String (List OutboxEventRow)
group_by_aggregate events = add_events [] events
