-- ===== src/Outbox/Agreement.antt =====
-- How the rules on events agree with the statements of the repository and with the lifecycle.
use credence_backend.Lifecycle.Outbox.{
  OutboxLifecycleStatus, pending, processing, status_eq, outbox_lifecycle_transitions,
  is_valid_outbox_transition,
}
use credence_backend.StateTransition.Matrix.{is_valid}
use credence_backend.Outbox.Table.{OutboxEventRow, CreateOutboxEvent, State}
use credence_backend.Outbox.Changes.{is_claimable, attempt_due}
use credence_backend.Outbox.Events.{new_row, create}
use credence_backend.Outbox.Rules.{
  is_terminal_outbox_status, is_outbox_retry_exhausted, is_outbox_lease_expired,
  is_outbox_event_claimable, can_transition_outbox_status, can_transition_strict,
  validate_create_outbox_event, retry_complaints, field_complaints, max_retries_limit,
}
use credence_backend.Outbox.Consistency.{is_consistent}
use credence_backend.Outbox.Runs.{Steps, IsValid, more, done, creates}
use credence_backend.Outbox.Lifecycles.{key, Steps-Valid}
use credence_backend.Outbox.Attempts.{failures, failures-bounded}
use credence_backend.Base.{
  ℕ, ◌≤◌, ◌<◌, ◌≡◌, Bool, true, false, not, Option, none, some, [], ◌∷◌, ◌++◌, arith, ◌==◌, ◌&&◌,
  nat_eq, find_row, find_row-append, append-eq-nil,
}

-- The lease ends at this very time.
abbrev pub ends_now : OutboxEventRow → ℕ → Bool
ends_now r now = elim r.lease_expires_at [ none ↦ false | some lease ↦ lease == now ]

-- Of a consistent row of an event that allows a retry, the statement of a claim takes it exactly where
-- the rule lets it be claimed and its next attempt is due, but for a processing event whose lease ends
-- at this very time, which only the rule lets be claimed.
pub is_claimable-agrees :
    (r : OutboxEventRow) (now : ℕ)
    → is_consistent r ≡ true
    → 0 < r.max_retries
    → is_claimable now r ≡ (
        is_outbox_event_claimable r now
        && attempt_due now r
        && not (r.status == processing && ends_now r now))
unfolding is_consistent is_outbox_event_claimable is_terminal_outbox_status
    is_outbox_retry_exhausted is_outbox_lease_expired
is_claimable-agrees r now c pos = ground arith

-- The first table of transitions accepts every valid transition of the lifecycle; the second accepts all
-- of them but the return of a processing event to pending.
can_transition-accepts :
    (a b : OutboxLifecycleStatus)
    → is_valid_outbox_transition a b ≡ true
    → (can_transition_outbox_status a b ≡ true)
      × (can_transition_strict a b ≡ not (a == processing && b == pending))
unfolding is_valid_outbox_transition outbox_lifecycle_transitions is_valid
    can_transition_outbox_status can_transition_strict
can_transition-accepts a b h = ground arith

retry_complaints-nil :
    (m : Option ℕ) → retry_complaints m ≡ [] → (elim m [ none ↦ 5 | some n ↦ n ]) ≤ 100
retry_complaints-nil none h = omega arith
retry_complaints-nil (some n) h = ground arith

-- An event that passes the validation and is created in a valid outbox fails at most a hundred times in
-- every run of the repository's operations from then on.
validated-failures :
    (hash : ℕ → ℕ) (s : State) {u : State}
    → IsValid s
    → (e : CreateOutboxEvent) (now : ℕ) → validate_create_outbox_event e ≡ []
    → (run : Steps hash (create now e s).1 u) → failures (create now e s).0 run ≤ max_retries_limit
unfolding validate_create_outbox_event create
validated-failures hash s {u} v e now fine run =
    let row = new_row s.next_event_id now e in
    let w = Steps-Valid hash {s = s} v (more done (creates now e)) in
    let there : find_row key s.next_event_id (s.event_outbox ++ row ∷ []) ≡ some row = ground (
      arith,
      find_row-append key s.next_event_id s.event_outbox row,
      v.below s.next_event_id (omega arith),
    ) in
    let bounded = failures-bounded s.next_event_id w run row there in
    let a = field_complaints "aggregateType" e.aggregate_type in
    let b = field_complaints "aggregateId" e.aggregate_id in
    let c = field_complaints "eventType" e.event_type in
    let d = retry_complaints e.max_retries in
    let few = retry_complaints-nil e.max_retries (append-eq-nil (a ++ b ++ c) d fine).1 in
    omega (arith, bounded, few)
