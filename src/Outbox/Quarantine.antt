-- ===== src/Outbox/Quarantine.antt =====
-- src/db/outbox/repository.ts: the quarantine of events and their reinjection. The message is the one
-- that `sanitizeErrorMessage` returned; `listQuarantine` reads its limit and offset as normalised ones.
use credence_backend.Lifecycle.Outbox.{published, status_eq}
use credence_backend.Outbox.Table.{
  OutboxEventRow, OutboxQuarantineRow, OutboxQuarantineReason, State, CreateOutboxEvent,
  malformed_json, schema_invalid, oversized_payload, unknown_event_type, normalize_limit,
}
use credence_backend.Outbox.Changes.{is_null}
use credence_backend.Outbox.Claims.{not_positive}
use credence_backend.Outbox.Events.{new_row}
use credence_backend.Base.{
  ℕ, ◌+◌, String, ◌≡◌, ◌↔◌, Bool, true, Option, none, some, List, [], ◌∷◌, ◌++◌, if◌then◌else◌,
  ◌&&◌, ◌==◌, not, Eq, nat_beq, nat_eq, string_eq, length, filter, find, any, take, drop,
  update_rows, sort_by_desc, arith,
}

abbrev pub reason_rank : OutboxQuarantineReason → ℕ
reason_rank malformed_json = 0
reason_rank schema_invalid = 1
reason_rank oversized_payload = 2
reason_rank unknown_event_type = 3

pub reason_rank_iff :
    (a b : OutboxQuarantineReason) → (nat_beq (reason_rank a) (reason_rank b) ≡ true) ↔ (a ≡ b)
reason_rank_iff a b = ground arith

instance abbrev pub reason_eq : Eq OutboxQuarantineReason
reason_eq = record {
  test = λ a b. nat_beq (reason_rank a) (reason_rank b);
  test_iff = reason_rank_iff;
}

-- The row that a deleted event is copied to.
abbrev pub quarantine_row :
    ℕ → ℕ → OutboxQuarantineReason → String → OutboxEventRow → OutboxQuarantineRow
quarantine_row id now reason message r = record {
  id = id;
  original_event_id = r.id;
  aggregate_type = r.aggregate_type;
  aggregate_id = r.aggregate_id;
  event_type = r.event_type;
  payload = r.payload;
  reason = reason;
  error_message = message;
  retry_count = r.retry_count;
  max_retries = r.max_retries;
  quarantined_at = now;
  reinjected_at = none;
  reinjected_by = none;
}

abbrev pub without_event : ℕ → List OutboxEventRow → List OutboxEventRow
without_event event_id t = filter (λ r. not (r.id == event_id)) t

-- `ON CONFLICT (original_event_id) DO NOTHING`; the key of the sequence is used up all the same.
abbrev pub add_quarantined :
    OutboxQuarantineRow → List OutboxQuarantineRow → List OutboxQuarantineRow
add_quarantined q qs =
    if any (λ e. e.original_event_id == q.original_event_id) qs then qs else qs ++ q ∷ []

-- The caller's copy of the event decides whether anything is done; the row is deleted by its id.
unfoldable pub quarantine : OutboxEventRow → OutboxQuarantineReason → String → ℕ → State → State
quarantine event reason message now s =
    if event.status == published then s else elim (find (λ r. r.id == event.id) s.event_outbox) [
      | none ↦ s
      | some deleted ↦ record s {
        event_outbox = without_event event.id s.event_outbox;
        outbox_quarantine =
            add_quarantined (quarantine_row s.next_quarantine_id now reason message deleted)
              s.outbox_quarantine;
        next_quarantine_id = s.next_quarantine_id + 1;
      }
    ]

abbrev pub is_listed : Option OutboxQuarantineReason → OutboxQuarantineRow → Bool
is_listed none q = is_null q.reinjected_at
is_listed (some reason) q = is_null q.reinjected_at && q.reason == reason

-- Newest first, of one time the greater key first; the total comes with the rows of the page.
unfoldable pub list_quarantine :
    Option ℕ
    → ℕ
    → Option OutboxQuarantineReason
    → List OutboxQuarantineRow
    → List OutboxQuarantineRow × ℕ
list_quarantine limit offset reason qs =
    let rows = filter (is_listed reason) qs in
    let page =
      take (normalize_limit limit)
        (drop offset (sort_by_desc (λ q. q.quarantined_at) (sort_by_desc (λ q. q.id) rows))) in
    if not_positive limit then ([], 0) else (page, elim page [ [] ↦ 0 | _ ∷ _ ↦ length rows ])

-- `id = $1 AND reinjected_at IS NULL`
abbrev pub is_open : ℕ → OutboxQuarantineRow → Bool
is_open id q = q.id == id && is_null q.reinjected_at

abbrev pub with_reinjection : String → ℕ → OutboxQuarantineRow → OutboxQuarantineRow
with_reinjection by now q = record q { reinjected_at = some now; reinjected_by = some by }

-- The event of a reinjection, with the repaired payload.
abbrev pub reinjected_event : String → OutboxQuarantineRow → CreateOutboxEvent
reinjected_event payload q = record {
  aggregate_type = q.aggregate_type;
  aggregate_id = q.aggregate_id;
  event_type = q.event_type;
  payload = payload;
  max_retries = some q.max_retries;
  trace_id = none;
  span_id = none;
  tracestate = none;
  correlation_id = none;
}

unfoldable pub reinject_quarantined : ℕ → String → String → ℕ → State → Option ℕ × State
reinject_quarantined quarantine_id payload by now s =
    if by == "" then (none, s) else elim (find (is_open quarantine_id) s.outbox_quarantine) [
      | none ↦ (none, s)
      | some q ↦ (
        some s.next_event_id,
        record s {
          event_outbox =
              s.event_outbox ++ new_row s.next_event_id now (reinjected_event payload q) ∷ [];
          next_event_id = s.next_event_id + 1;
          outbox_quarantine =
              update_rows (λ e. e.id == quarantine_id) (with_reinjection by now)
                s.outbox_quarantine;
        },
      )
    ]
