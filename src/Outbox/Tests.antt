-- ===== src/Outbox/Tests.antt =====
-- Runs of the outbox on small tables.
use credence_backend.Lifecycle.Outbox.{
  processing, pending, dead_letter, outbox_lifecycle_transitions, status_eq,
}
use credence_backend.StateTransition.Reach.{Reaches}
use credence_backend.Outbox.Table.{
  OutboxEventRow, State, CreateOutboxEvent, OutboxQuarantineRow, unknown_event_type,
  normalize_lease_seconds, normalize_limit, normalize_shard,
}
use credence_backend.Outbox.Changes.{is_claimable, attempt_due, is_held, with_claim, with_failure}
use credence_backend.Outbox.Claims.{
  claim_events, oldest, is_selected, is_candidate, in_shard, recover_stale_leases,
}
use credence_backend.Outbox.Events.{
  cannot_transition, new_row, create, mark_failed, require_transition,
}
use credence_backend.Outbox.Quarantine.{is_open, quarantine, quarantine_row, reinject_quarantined}
use credence_backend.Outbox.Consistency.{is_consistent}
use credence_backend.Outbox.Runs.{
  Steps, done, more, creates, claims, fails, recovers, quarantines, IsValid,
}
use credence_backend.Outbox.Lifecycles.{key, Steps-Valid}
use credence_backend.Outbox.Histories.{Steps-Reaches}
use credence_backend.Outbox.Failures.{mark_failed-decides}
use credence_backend.Outbox.Attempts.{failures, failures-bounded}
use credence_backend.Outbox.Leases.{are_rivals, are_rivals-keep}
use credence_backend.Outbox.Selections.{claim_events-oldest}
use credence_backend.Outbox.Shards.{in_shard-decides}
use credence_backend.Outbox.Moves.{quarantine-moves, quarantine-reinject}
use credence_backend.Outbox.Rules.{is_outbox_event_claimable}
use credence_backend.Outbox.Agreement.{ends_now, is_claimable-agrees}
use credence_backend.Base.{
  find, not, ◌&&◌, ℕ, ◌+◌, ◌%◌, ◌-◌, ◌^◌, ◌≤◌, ◌<◌, ◌≡◌, refl, ◌⊎◌, ◌↔◌, Bool, true, false, none,
  some, List, [], ◌∷◌, arith, ◌==◌, nat_eq, string_eq, find_row, filter, length, max, ok, err,
  if◌then◌else◌,
}

-- The ids stand for their hashes.
abbrev hash : ℕ → ℕ
hash id = id

abbrev event : CreateOutboxEvent
event = record {
  aggregate_type = "bond";
  aggregate_id = "7";
  event_type = "bond.created";
  payload = "{}";
  max_retries = some 2;
  trace_id = none;
  span_id = none;
  tracestate = none;
  correlation_id = none;
}

abbrev fresh_state : State
fresh_state = record {
  event_outbox = [];
  next_event_id = 1;
  outbox_quarantine = [];
  next_quarantine_id = 1;
}

abbrev row : OutboxEventRow
row = new_row 1 100 event

-- One pending event.
abbrev one_event : State
one_event = record {
  event_outbox = row ∷ [];
  next_event_id = 2;
  outbox_quarantine = [];
  next_quarantine_id = 1;
}

fresh_state-IsValid : IsValid fresh_state
fresh_state-IsValid = record {
  distinct = refl;
  below = λ id le. refl;
  consistent = λ id r found. absurd (ground arith);
}

to_one_event : Steps hash fresh_state one_event
unfolding create
to_one_event = more done (creates 100 event)

one_event-IsValid : IsValid one_event
one_event-IsValid = Steps-Valid hash fresh_state-IsValid to_one_event

abbrev claimed : OutboxEventRow
claimed = with_claim "w1" 500 none row

-- The event, claimed until 500 by the consumer w1.
abbrev one_claimed : State
one_claimed = record one_event { event_outbox = claimed ∷ [] }

abbrev failed_once : OutboxEventRow
failed_once = with_failure "timeout" 210 claimed

abbrev one_failed : State
one_failed = record one_event { event_outbox = failed_once ∷ [] }

to_claimed : Steps hash one_event one_claimed
unfolding claim_events normalize_limit normalize_lease_seconds normalize_shard in_shard
to_claimed = more done (claims "w1" (some 10) (some 300) none none 200)

to_failed : Steps hash one_event one_failed
unfolding mark_failed
to_failed = more to_claimed (fails 1 "timeout" "w1" 210)

one_claimed-IsValid : IsValid one_claimed
one_claimed-IsValid = Steps-Valid hash one_event-IsValid to_claimed

Steps-Valid_example : IsValid one_failed
Steps-Valid_example = Steps-Valid hash one_event-IsValid to_failed

-- From pending over a failure back to pending.
Steps-Reaches_example :
    ((r r' : OutboxEventRow)
      → find_row key 1 one_event.event_outbox ≡ some r
      → find_row key 1 one_failed.event_outbox ≡ some r'
      → Reaches outbox_lifecycle_transitions r.status r'.status
        × (r'.max_retries ≡ r.max_retries)
        × (r.retry_count ≤ r'.retry_count))
    × (1 < one_event.next_event_id
        → find_row key 1 one_event.event_outbox ≡ none
        → find_row key 1 one_failed.event_outbox ≡ none)
Steps-Reaches_example = Steps-Reaches hash one_event-IsValid to_failed 1

-- The second of the two failures that are allowed.
abbrev dead : State
dead = record one_event {
  event_outbox = with_failure "timeout" 310 (with_claim "w2" 600 none failed_once) ∷ [];
}

to_dead : Steps hash one_event dead
unfolding claim_events normalize_limit normalize_lease_seconds normalize_shard in_shard mark_failed
to_dead =
    more (more to_failed (claims "w2" (some 10) (some 300) none none 300))
      (fails 1 "timeout" "w2" 310)

failures-bounded_example :
    (failures 1 to_dead + row.retry_count ≤ max 1 row.max_retries)
    × ((r' : OutboxEventRow)
        → failures 1 to_dead + row.retry_count ≡ max 1 row.max_retries
        → find_row key 1 dead.event_outbox ≡ some r'
        → (r'.status ≡ dead_letter) × (r'.consumer_id ≡ none) × (r'.next_attempt_at ≡ none))
failures-bounded_example = failures-bounded 1 one_event-IsValid to_dead row refl

counted : failures 1 to_dead ≡ 2
unfolding failures to_dead to_failed to_claimed mark_failed require_transition
counted = refl

-- While w1's lease lasts, w2 claims, recovers and reports a failure.
rival_run : Steps hash one_claimed one_claimed
unfolding claim_events normalize_limit normalize_lease_seconds normalize_shard in_shard
    recover_stale_leases mark_failed
rival_run =
    more (more (more done (claims "w2" (some 10) (some 300) none none 400)) (recovers 500))
      (fails 1 "timeout" "w2" 450)

are_rivals-keep_example : find_row key 1 one_claimed.event_outbox ≡ some claimed
unfolding are_rivals rival_run
are_rivals-keep_example =
    are_rivals-keep "w1" 500 1 refl refl refl one_claimed-IsValid rival_run refl refl

mark_failed-decides_example :
    (is_held "w1" claimed ≡ true
      → ((mark_failed 1 "timeout" "w1" 210 one_claimed.event_outbox).0
          ≡ ok ((with_failure "timeout" 210 claimed).status, claimed.retry_count + 1))
        × (find_row key 1 (mark_failed 1 "timeout" "w1" 210 one_claimed.event_outbox).1
            ≡ some (with_failure "timeout" 210 claimed)))
    × (is_held "w1" claimed ≡ false
        → ((mark_failed 1 "timeout" "w1" 210 one_claimed.event_outbox).0
            ≡ err (cannot_transition 1 "markFailed"))
          × (find_row key 1 (mark_failed 1 "timeout" "w1" 210 one_claimed.event_outbox).1
              ≡ some claimed))
    × ((j : ℕ)
        → (j == 1) ≡ false
        → find_row key j (mark_failed 1 "timeout" "w1" 210 one_claimed.event_outbox).1
          ≡ find_row key j one_claimed.event_outbox)
mark_failed-decides_example =
    mark_failed-decides one_claimed-IsValid 1 "timeout" "w1" 210 {r = claimed} refl refl

-- Three shards: the event of hash 4 is the second's, that of hash 2 ^ 31 is of none.
in_shard-decides_example :
    ((a b : ℕ)
      → in_shard hash (some (3, a)) (2 ^ 31) ≡ true
      → in_shard hash (some (3, b)) (2 ^ 31) ≡ true
      → a ≡ b)
    × (((a : ℕ) × (a < 3) × (in_shard hash (some (3, a)) (2 ^ 31) ≡ true))
        ↔ ((2 ^ 31 < 2 ^ 31) ⊎ ((2 ^ 32 - 2 ^ 31) % 3 ≡ 0)))
in_shard-decides_example = in_shard-decides hash 3 (2 ^ 31) (omega arith)

in_second : in_shard hash (some (3, 1)) 4 ≡ true
unfolding in_shard
in_second = refl

in_none : in_shard hash (some (3, 0)) (2 ^ 31) ≡ false
unfolding in_shard
in_none = refl

abbrev entry : OutboxQuarantineRow
entry = quarantine_row 1 300 unknown_event_type "unknown event type" row

abbrev one_quarantined : State
one_quarantined = record {
  event_outbox = [];
  next_event_id = 2;
  outbox_quarantine = entry ∷ [];
  next_quarantine_id = 2;
}

one_quarantined-IsValid : IsValid one_quarantined
unfolding quarantine
one_quarantined-IsValid =
    Steps-Valid hash {s = one_event} one_event-IsValid
      (more done (quarantines row unknown_event_type "unknown event type" 300))

quarantine-moves_example :
    (find_row key 1
        (quarantine row unknown_event_type "unknown event type" 300 one_event).event_outbox
      ≡ none)
    × ((j : ℕ)
        → (j == 1) ≡ false
        → find_row key j
            (quarantine row unknown_event_type "unknown event type" 300 one_event).event_outbox
          ≡ find_row key j one_event.event_outbox)
    × ((quarantine row unknown_event_type "unknown event type" 300 one_event).outbox_quarantine
        ≡ entry ∷ [])
quarantine-moves_example =
    quarantine-moves one_event one_event-IsValid row row unknown_event_type "unknown event type" 300
      refl refl

abbrev reinjected_rows : List OutboxEventRow
reinjected_rows =
    (reinject_quarantined 1 "{1}" "ops" 400
      (quarantine row unknown_event_type "unknown event type" 300 one_event)).1.event_outbox

quarantine-reinject_example :
    ((r' : OutboxEventRow) × (find_row key 2 reinjected_rows ≡ some r')
      × (r'.aggregate_type ≡ "bond")
      × (r'.aggregate_id ≡ "7")
      × (r'.event_type ≡ "bond.created")
      × (r'.max_retries ≡ 2)
      × (r'.payload ≡ "{1}")
      × (r'.status ≡ pending)
      × (r'.retry_count ≡ 0))
    × ((q : OutboxQuarantineRow) × (find
            (is_open 1)
            (quarantine row unknown_event_type "unknown event type" 300 one_event).outbox_quarantine
          ≡ some q)
        × (q.original_event_id ≡ 1)
        × (q.payload ≡ row.payload)
        × (q.retry_count ≡ 0)
        × (q.reason ≡ unknown_event_type)
        × (q.error_message ≡ "unknown event type")
        × (q.quarantined_at ≡ 300))
    × (find_row key 1 reinjected_rows ≡ none)
    × ((j : ℕ)
        → (j == 1) ≡ false
        → (j == 2) ≡ false
        → find_row key j reinjected_rows ≡ find_row key j one_event.event_outbox)
quarantine-reinject_example =
    quarantine-reinject one_event one_event-IsValid row row unknown_event_type "unknown event type"
      "{1}" "ops" 300 400 refl refl refl refl refl

abbrev two_events : State
two_events = record {
  event_outbox = row ∷ new_row 2 90 event ∷ [];
  next_event_id = 3;
  outbox_quarantine = [];
  next_quarantine_id = 1;
}

two_events-IsValid : IsValid two_events
unfolding create
two_events-IsValid =
    Steps-Valid hash {s = one_event} one_event-IsValid (more done (creates 90 event))

abbrev among : OutboxEventRow → Bool
among r =
    is_selected
      (oldest (normalize_limit (some 1)) (is_candidate hash (normalize_shard none none) 200)
        two_events.event_outbox)
      r

abbrev claim_one : List OutboxEventRow × List OutboxEventRow
claim_one = claim_events hash "w1" (some 1) (some 300) none none 200 two_events.event_outbox

abbrev with_w1 : OutboxEventRow → OutboxEventRow
with_w1 r = with_claim "w1" (200 + normalize_lease_seconds (some 300)) (normalize_shard none none) r

-- With a limit of one, the event of 90 is claimed and that of 100 is left.
claim_events-oldest_example :
    (length claim_one.0 ≤ normalize_limit (some 1))
    × ((id : ℕ) (r : OutboxEventRow)
        → find_row key id two_events.event_outbox ≡ some r
        → (find_row key id claim_one.1 ≡ some (if among r then with_w1 r else r))
          × (find_row key id claim_one.0 ≡ (if among r then some (with_w1 r) else none))
          × (among r ≡ true → is_candidate hash (normalize_shard none none) 200 r ≡ true)
          × (length (
                  filter
                    (is_candidate hash (normalize_shard none none) 200)
                    two_events.event_outbox)
                ≤ normalize_limit (some 1)
              → is_candidate hash (normalize_shard none none) 200 r ≡ true
              → among r ≡ true)
          × ((j : ℕ) (a : OutboxEventRow)
              → find_row key j two_events.event_outbox ≡ some a
              → is_candidate hash (normalize_shard none none) 200 a ≡ true
              → among r ≡ true
              → among a ≡ false
              → r.created_at ≤ a.created_at))
claim_events-oldest_example =
    claim_events-oldest two_events-IsValid hash "w1" (some 1) (some 300) none none 200 refl

-- Claimed until 500, the event is not claimable at 300.
is_claimable-agrees_example : is_claimable 300 claimed ≡ (
    is_outbox_event_claimable claimed 300
    && attempt_due 300 claimed
    && not (claimed.status == processing && ends_now claimed 300))
unfolding is_consistent
is_claimable-agrees_example = is_claimable-agrees claimed 300 refl (omega arith)
