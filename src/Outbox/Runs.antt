-- ===== src/Outbox/Runs.antt =====
-- The runs of the outbox: the operations of the repository one after another, by any consumers, each at
-- any time and with any arguments; and what one operation does to the table of events.
use credence_backend.Lifecycle.Outbox.{pending, published, status_eq}
use credence_backend.Outbox.Table.{
  OutboxEventRow, State, CreateOutboxEvent, OutboxCleanupConfig, OutboxQuarantineReason,
  normalize_lease_seconds, normalize_limit, normalize_shard,
}
use credence_backend.Outbox.Changes.{
  is_held, is_held_event, is_stale, with_claim, with_lease, with_release, with_publication,
  with_failure, with_key, with_processing,
}
use credence_backend.Outbox.Claims.{
  not_positive, oldest, is_selected, is_candidate, claim_events, renew_lease, release_claims,
  recover_stale_leases, fetch_pending_for_processing,
}
use credence_backend.Outbox.Events.{
  new_row, create, mark_published, mark_failed, can_take_key, try_set_publish_idempotency_key,
  clear_publish_idempotency_key, is_expired, cleanup,
}
use credence_backend.Outbox.Quarantine.{quarantine, reinject_quarantined, is_open, reinjected_event}
use credence_backend.Outbox.Consistency.{
  Sound, with_claim-Sound, with_lease-Sound, with_release-Sound, with_publication-Sound,
  with_failure-Sound, with_key-Sound, without_key-Sound, with_processing-Sound, is_consistent,
  selected-passes,
}
use credence_backend.Base.{
  ℕ, ◌+◌, String, ◌≡◌, inl, inr, Bool, true, not, Option, none, some, List, [], ◌∷◌, ◌++◌, arith,
  ◌==◌, nat_eq, string_eq, ◌||◌, filter, find, update_rows, Bool-cases, Option-cases, find_row,
  rows_distinct, ◌≤◌,
}

abbrev pub on_events : List OutboxEventRow → State → State
on_events t s = record s { event_outbox = t }

module _ (hash : ℕ → ℕ) where
  pub data Step (s : State) : State → Type 0 where
    creates : (now : ℕ) (e : CreateOutboxEvent) → Step s (create now e s).1
    claims :
        (consumer : String) (limit lease shard_count shard_id : Option ℕ) (now : ℕ)
        → Step s (
            on_events
              (claim_events hash consumer limit lease shard_count shard_id now s.event_outbox).1
              s)
    renews :
        (consumer : String) (lease : Option ℕ) (now : ℕ)
        → Step s (on_events (renew_lease consumer lease now s.event_outbox).1 s)
    releases : (consumer : String) → Step s (on_events (release_claims consumer s.event_outbox).1 s)
    recovers : (now : ℕ) → Step s (on_events (recover_stale_leases now s.event_outbox).1 s)
    fetches :
        (limit : Option ℕ)
        → Step s (on_events (fetch_pending_for_processing limit s.event_outbox).1 s)
    publishes :
        (id : ℕ) (consumer : String) (now : ℕ)
        → Step s (on_events (mark_published id consumer now s.event_outbox).1 s)
    sets_key :
        (id : ℕ) (key consumer : String)
        → Step s (on_events (try_set_publish_idempotency_key id key consumer s.event_outbox).1 s)
    clears_key : (id : ℕ) → Step s (on_events (clear_publish_idempotency_key id s.event_outbox) s)
    fails :
        (id : ℕ) (message consumer : String) (now : ℕ)
        → Step s (on_events (mark_failed id message consumer now s.event_outbox).1 s)
    quarantines :
        (event : OutboxEventRow) (reason : OutboxQuarantineReason) (message : String) (now : ℕ)
        → Step s (quarantine event reason message now s)
    reinjects :
        (id : ℕ) (payload by : String) (now : ℕ)
        → Step s (reinject_quarantined id payload by now s).1
    cleans :
        (config : OutboxCleanupConfig) (now : ℕ)
        → Step s (on_events (cleanup config now s.event_outbox).1 s)

  pub data Steps (s : State) : State → Type 0 where
    done : Steps s s
    more : {t u : State} → Steps s t → Step t u → Steps s u

-- What an operation does to the table of events, with the next key before and after.
pub data Effect (n : ℕ) (t : List OutboxEventRow) : ℕ → List OutboxEventRow → Type 0 where
  keeps : Effect n t n t
  changes :
      (p : OutboxEventRow → Bool) (f : OutboxEventRow → OutboxEventRow)
      → Sound t p f
      → Effect n t n (update_rows p f t)
  removes : (p : OutboxEventRow → Bool) → Effect n t n (filter p t)
  adds : (now : ℕ) (e : CreateOutboxEvent) → Effect n t (n + 1) (t ++ new_row n now e ∷ [])

abbrev pub EffectOf : State → State → Type 0
EffectOf s s' = Effect s.next_event_id s.event_outbox s'.next_event_id s'.event_outbox

-- The keys of the events are distinct and below the next key, and every row is consistent.
pub record Valid (n : ℕ) (t : List OutboxEventRow) : Type 0 where
  pub distinct : rows_distinct (λ r. r.id) t ≡ true
  pub below : (id : ℕ) → n ≤ id → find_row (λ r. r.id) id t ≡ none
  pub consistent :
      (id : ℕ) (r : OutboxEventRow) → find_row (λ x. x.id) id t ≡ some r → is_consistent r ≡ true

abbrev pub IsValid : State → Type 0
IsValid s = Valid s.next_event_id s.event_outbox

module _ (hash : ℕ → ℕ) (s : State) (v : IsValid s) where
  claim_events-Effect :
      (consumer : String) (limit lease shard_count shard_id : Option ℕ) (now : ℕ)
      → Effect s.next_event_id s.event_outbox s.next_event_id
          (claim_events hash consumer limit lease shard_count shard_id now s.event_outbox).1
  unfolding claim_events
  claim_events-Effect consumer limit lease shard_count shard_id now =
      let t = s.event_outbox in
      let shard = normalize_shard shard_count shard_id in
      let test = is_candidate hash shard now in
      elim (Bool-cases (not_positive limit)) [
        | inl e ↦ rw e keeps
        | inr e ↦ rw e (
            changes (is_selected (oldest (normalize_limit limit) test t))
              (with_claim consumer (now + normalize_lease_seconds lease) shard)
              (with_claim-Sound t (is_selected (oldest (normalize_limit limit) test t)) consumer now
                (now + normalize_lease_seconds lease) shard
                (λ r row sel.
                  let passes = selected-passes t test (normalize_limit limit) v.distinct row sel in
                  ground arith)))
      ]

  fetch_pending_for_processing-Effect :
      (limit : Option ℕ)
      → Effect s.next_event_id s.event_outbox s.next_event_id
          (fetch_pending_for_processing limit s.event_outbox).1
  unfolding fetch_pending_for_processing
  fetch_pending_for_processing-Effect limit =
      let t = s.event_outbox in
      elim (Bool-cases (not_positive limit)) [
        | inl e ↦ rw e keeps
        | inr e ↦ rw e (
            changes (is_selected (oldest (normalize_limit limit) (λ r. r.status == pending) t))
              with_processing
              (with_processing-Sound t
                (is_selected (oldest (normalize_limit limit) (λ r. r.status == pending) t))
                (λ r row sel.
                  let passes =
                    selected-passes t (λ x. x.status == pending) (normalize_limit limit) v.distinct
                      row sel in
                  ground arith)))
      ]

  quarantine-Effect :
      (event : OutboxEventRow) (reason : OutboxQuarantineReason) (message : String) (now : ℕ)
      → EffectOf s (quarantine event reason message now s)
  unfolding quarantine
  quarantine-Effect event reason message now = elim (Bool-cases (event.status == published)) [
    | inl e ↦ rw e keeps
    | inr e ↦ elim (Option-cases (find (λ r. r.id == event.id) s.event_outbox)) [
      | inl absent ↦ rw (e, absent) keeps
      | inr (r, row) ↦ rw (e, row) (removes (λ x. not (x.id == event.id)))
    ]
  ]

  reinject_quarantined-Effect :
      (id : ℕ) (payload by : String) (now : ℕ)
      → EffectOf s (reinject_quarantined id payload by now s).1
  unfolding reinject_quarantined
  reinject_quarantined-Effect id payload by now = elim (Bool-cases (by == "")) [
    | inl e ↦ rw e keeps
    | inr e ↦ elim (Option-cases (find (is_open id) s.outbox_quarantine)) [
      | inl absent ↦ rw (e, absent) keeps
      | inr (q, row) ↦ rw (e, row) (adds now (reinjected_event payload q))
    ]
  ]

  pub Step-Effect : {s' : State} → Step hash s s' → EffectOf s s'
  unfolding create renew_lease release_claims recover_stale_leases mark_published mark_failed
      try_set_publish_idempotency_key clear_publish_idempotency_key cleanup
  Step-Effect (creates now e) = adds now e
  Step-Effect (claims consumer limit lease shard_count shard_id now) =
      claim_events-Effect consumer limit lease shard_count shard_id now
  Step-Effect (renews consumer lease now) = elim (Bool-cases (not_positive lease)) [
    | inl e ↦ rw e keeps
    | inr e ↦ rw e (
        changes (is_held consumer) (with_lease (now + normalize_lease_seconds lease))
          (with_lease-Sound s.event_outbox consumer (now + normalize_lease_seconds lease)))
  ]
  Step-Effect (releases consumer) = elim (Bool-cases (consumer == "")) [
    | inl e ↦ rw e keeps
    | inr e ↦ rw e (
        changes (is_held consumer) with_release
          (with_release-Sound s.event_outbox (is_held consumer) (λ r row h. ground arith)))
  ]
  Step-Effect (recovers now) =
      changes (is_stale now) with_release
        (with_release-Sound s.event_outbox (is_stale now) (λ r row h. ground arith))
  Step-Effect (fetches limit) = fetch_pending_for_processing-Effect limit
  Step-Effect (publishes id consumer now) = elim (Bool-cases (consumer == "")) [
    | inl e ↦ rw e keeps
    | inr e ↦ rw e (
        changes (is_held_event id consumer) (with_publication now)
          (with_publication-Sound s.event_outbox id consumer now))
  ]
  Step-Effect (sets_key id key consumer) = elim (Bool-cases (key == "" || consumer == "")) [
    | inl e ↦ rw e keeps
    | inr e ↦ rw e (
        changes (can_take_key id consumer) (with_key (some key))
          (with_key-Sound s.event_outbox id consumer key))
  ]
  Step-Effect (clears_key id) =
      changes (λ r. r.id == id) (with_key none) (without_key-Sound s.event_outbox (λ r. r.id == id))
  Step-Effect (fails id message consumer now) = elim (Bool-cases (consumer == "")) [
    | inl e ↦ rw e keeps
    | inr e ↦ rw e (
        changes (is_held_event id consumer) (with_failure message now)
          (with_failure-Sound s.event_outbox id consumer message now))
  ]
  Step-Effect (quarantines event reason message now) = quarantine-Effect event reason message now
  Step-Effect (reinjects id payload by now) = reinject_quarantined-Effect id payload by now
  Step-Effect (cleans config now) = removes (λ r. not (is_expired config now r))
