-- ===== src/Outbox/PublisherTests.antt =====
-- A publisher at work on one event.
use credence_backend.Lifecycle.Outbox.{status_eq}
use credence_backend.Outbox.Table.{OutboxEventRow, CreateOutboxEvent, State}
use credence_backend.Outbox.Changes.{is_held, with_claim, with_key, with_publication}
use credence_backend.Outbox.Events.{
  new_row, try_set_publish_idempotency_key, mark_published, require_transition,
}
use credence_backend.Outbox.Publisher.{
  Checks, skipped, publishes, begin_event, finish_event, detect_poison_pill,
  build_publish_idempotency_key, group_by_aggregate, aggregate_key,
}
use credence_backend.Outbox.Publications.{begin_event-once, failed_publication-skipped}
use credence_backend.Outbox.Groups.{group_of, group_by_aggregate-order}
use credence_backend.Outbox.Consistency.{is_consistent}
use credence_backend.Outbox.Runs.{IsValid, Steps}
use credence_backend.Outbox.Lifecycles.{key}
use credence_backend.Base.{
  ℕ, String, ◌≡◌, ◌≢◌, refl, true, false, Option, none, some, [], ◌∷◌, ◌==◌, string_eq, arith,
  subst, find_row, filter, ok, is_ok,
}

-- No payload is refused.
abbrev lenient : Checks
lenient = record {
  parse = λ payload. none;
  byte_length = λ payload. 2;
  schema_error = λ event_type payload. none;
  max_payload_bytes = none;
}

abbrev event : CreateOutboxEvent
event = record {
  aggregate_type = "bond";
  aggregate_id = "7";
  event_type = "bond.created";
  payload = "{}";
  max_retries = some 2;
  trace_id = none;
  span_id = none;
  tracestate = none;
  correlation_id = none;
}

abbrev of_w1 : OutboxEventRow
of_w1 = with_claim "w1" 500 none (new_row 1 100 event)

abbrev held : State
held = record {
  event_outbox = of_w1 ∷ [];
  next_event_id = 2;
  outbox_quarantine = [];
  next_quarantine_id = 1;
}

-- A table of one consistent row.
one_row : OutboxEventRow → State
one_row row = record {
  event_outbox = row ∷ [];
  next_event_id = 2;
  outbox_quarantine = [];
  next_quarantine_id = 1;
}

one_row-IsValid :
    (row : OutboxEventRow) → row.id ≡ 1 → is_consistent row ≡ true → IsValid (one_row row)
unfolding one_row
one_row-IsValid row own fine = record {
  distinct = refl;
  below = λ id le. ground arith;
  consistent =
      λ id r found. let eq : row ≡ r = ground arith in subst (λ x. is_consistent x ≡ true) eq fine;
}

held-IsValid : IsValid held
unfolding is_consistent one_row
held-IsValid = one_row-IsValid of_w1 refl refl

begin_event-once_example :
    ((r : OutboxEventRow) × (find_row key 1 held.event_outbox ≡ some r)
      × (is_held "w1" r ≡ true)
      × (r.publish_idempotency_key ≡ none)
      × (find_row key 1 (begin_event lenient "w1" of_w1 210 held).1.event_outbox
          ≡ some (with_key (some (build_publish_idempotency_key "w1" 1)) r)))
    × ((u : State) (r' : OutboxEventRow) (k : String)
        → Steps (λ id. id) (begin_event lenient "w1" of_w1 210 held).1 u
        → find_row key 1 u.event_outbox ≡ some r'
        → r'.publish_idempotency_key ≡ some k
        → (c : Checks) (other : String) (copy : OutboxEventRow) (later : ℕ) → copy.id ≡ 1
        → (begin_event c other copy later u).0 ≢ publishes)
unfolding begin_event detect_poison_pill try_set_publish_idempotency_key
    build_publish_idempotency_key
begin_event-once_example = begin_event-once (λ id. id) held held-IsValid lenient "w1" of_w1 210 refl

-- The event with the key that w1 set before its publication failed.
abbrev keyed : OutboxEventRow
keyed = with_key (some "outbox-pub:w1:1") of_w1

abbrev held_keyed : State
held_keyed = record held { event_outbox = keyed ∷ [] }

held_keyed-IsValid : IsValid held_keyed
unfolding is_consistent one_row
held_keyed-IsValid = one_row-IsValid keyed refl refl

failed_publication-skipped_example :
    ((is_ok (finish_event "w1" keyed (some "timeout") 220 held_keyed).0 ≡ false)
      × (find_row key 1 (finish_event "w1" keyed (some "timeout") 220 held_keyed).1.event_outbox
          ≡ some keyed))
    × ((s' : State) (other : String) (expires later : ℕ) (shard : Option (ℕ × ℕ))
        → IsValid s'
        → (other == "") ≡ false
        → find_row key 1 s'.event_outbox ≡ some (with_claim other expires shard keyed)
        → detect_poison_pill lenient (with_claim other expires shard keyed) ≡ none
        → ((begin_event lenient other (with_claim other expires shard keyed) later s').0
            ≡ skipped (ok tt))
          × (find_row key 1
                (begin_event lenient other
                  (with_claim other expires shard keyed)
                  later
                  s').1.event_outbox
              ≡ some (with_publication later (with_claim other expires shard keyed))))
failed_publication-skipped_example =
    failed_publication-skipped held_keyed held_keyed-IsValid lenient "w1" keyed keyed "timeout"
      "outbox-pub:w1:1" 220 refl refl refl refl

-- Then w2, which claims the event, marks it as published.
lost_at_w2 :
    (begin_event lenient "w2"
      (with_claim "w2" 900 none keyed)
      600
      (one_row (with_claim "w2" 900 none keyed))).0
    ≡ skipped (ok tt)
unfolding begin_event detect_poison_pill mark_published require_transition one_row
lost_at_w2 = refl

group_by_aggregate-order_example :
    group_of "bond:7" (group_by_aggregate (of_w1 ∷ keyed ∷ []))
    ≡ filter (λ e. aggregate_key e == "bond:7") (of_w1 ∷ keyed ∷ [])
group_by_aggregate-order_example = group_by_aggregate-order "bond:7" (of_w1 ∷ keyed ∷ [])

grouped : group_of "bond:7" (group_by_aggregate (of_w1 ∷ keyed ∷ [])) ≡ of_w1 ∷ keyed ∷ []
unfolding group_by_aggregate aggregate_key
grouped = refl
