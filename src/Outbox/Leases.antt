-- ===== src/Outbox/Leases.antt =====
-- The lease of an event: while it lasts, no other consumer changes the event.
use credence_backend.Lifecycle.Outbox.{pending, processing, published, status_eq}
use credence_backend.Outbox.Table.{
  OutboxEventRow, State, normalize_limit, normalize_shard, normalize_lease_seconds,
}
use credence_backend.Outbox.Changes.{
  is_held, is_held_event, is_stale, with_claim, with_lease, with_release, with_publication,
  with_failure, with_key, with_processing,
}
use credence_backend.Outbox.Claims.{
  not_positive, oldest, is_selected, is_candidate, claim_events, renew_lease, release_claims,
  recover_stale_leases, fetch_pending_for_processing,
}
use credence_backend.Outbox.Events.{
  create, new_row, cleanup, is_expired, clear_publish_idempotency_key, mark_published, mark_failed,
  can_take_key, try_set_publish_idempotency_key,
}
use credence_backend.Outbox.Consistency.{selected-passes}
use credence_backend.Outbox.Quarantine.{quarantine, reinject_quarantined, is_open, reinjected_event}
use credence_backend.Outbox.Runs.{
  Step, Steps, done, more, creates, claims, renews, releases, recovers, fetches, publishes,
  sets_key, clears_key, fails, quarantines, reinjects, cleans, Valid, IsValid,
}
use credence_backend.Outbox.Lifecycles.{key, Steps-Valid}
use credence_backend.Base.{
  ℕ, ◌+◌, String, ◌≡◌, refl, sym, subst, inl, inr, Bool, true, false, none, some, List, arith, ◌==◌,
  ◌&&◌, nat_eq, string_eq, Bool-cases, Option-cases, find_row, update_rows, ◌||◌, not, find, leb,
  find_row-append, find_row-filter, ==_comm, find_row-update_rows, find_row-key,
}

-- An update passes over a row that fails its test.
update_rows-keeps :
    (p : OutboxEventRow → Bool) (f : OutboxEventRow → OutboxEventRow)
    → ((r : OutboxEventRow) → (f r).id ≡ r.id)
    → (id : ℕ) (t : List OutboxEventRow) {r : OutboxEventRow} → find_row key id t ≡ some r
    → p r ≡ false
    → find_row key id (update_rows p f t) ≡ some r
update_rows-keeps p f keep id t {r} row miss =
    ground (arith, find_row-update_rows key p f keep id t)

-- A step that is another consumer's, or the holder's claim, and that comes while the lease lasts: not an
-- operation of the holder on what it holds, not one that names the event alone (its quarantine and the
-- clearing of its key), and no claim or recovery after the lease has run out.
abbrev pub is_rival : {hash : ℕ → ℕ} {s s' : State} → String → ℕ → ℕ → Step hash s s' → Bool
is_rival holder expires id (claims _ _ _ _ _ now) = leb now expires
is_rival holder expires id (recovers now) = leb now expires
is_rival holder expires id (renews consumer _ _) = not (consumer == holder)
is_rival holder expires id (releases consumer) = not (consumer == holder)
is_rival holder expires id (publishes _ consumer _) = not (consumer == holder)
is_rival holder expires id (sets_key _ _ consumer) = not (consumer == holder)
is_rival holder expires id (fails _ _ consumer _) = not (consumer == holder)
is_rival holder expires id (clears_key i) = not (i == id)
is_rival holder expires id (quarantines event _ _ _) = not (event.id == id)
is_rival holder expires id _ = true

unfoldable pub are_rivals : {hash : ℕ → ℕ} {s s' : State} → String → ℕ → ℕ → Steps hash s s' → Bool
are_rivals holder expires id done = true
are_rivals holder expires id (more run step) =
    are_rivals holder expires id run && is_rival holder expires id step

are_rivals-more :
    {hash : ℕ → ℕ} {s t u : State} (holder : String) (expires id : ℕ) (run : Steps hash s t)
    (step : Step hash t u)
    → are_rivals holder expires id (more run step) ≡ true
    → (are_rivals holder expires id run ≡ true) × (is_rival holder expires id step ≡ true)
unfolding are_rivals
are_rivals-more holder expires id run step h = (ground arith, ground arith)

module _ {n : ℕ} {t : List OutboxEventRow} (v : Valid n t) where
  selected-keeps :
      (test : OutboxEventRow → Bool) (f : OutboxEventRow → OutboxEventRow)
      → ((r : OutboxEventRow) → (f r).id ≡ r.id)
      → (limit id : ℕ) {r : OutboxEventRow} → find_row key id t ≡ some r
      → test r ≡ false
      → find_row key id (update_rows (is_selected (oldest limit test t)) f t) ≡ some r
  selected-keeps test f keep limit id {r} row miss =
      let same = find_row-key key id t row in
      let own = subst (λ i. find_row key i t ≡ some r) (sym same) row in
      elim (Bool-cases (is_selected (oldest limit test t) r)) [
        | inl hit ↦ absurd (ground (arith, selected-passes t test limit v.distinct own hit))
        | inr free ↦ update_rows-keeps (is_selected (oldest limit test t)) f keep id t row free
      ]

module _ {hash : ℕ → ℕ} (holder : String) (expires id : ℕ) {r : OutboxEventRow}
    (on : r.status ≡ processing) (by : r.consumer_id ≡ some holder)
    (lease : r.lease_expires_at ≡ some expires) where
  is_rival-keeps :
      {s u : State}
      → IsValid s
      → (step : Step hash s u) → is_rival holder expires id step ≡ true
      → find_row key id s.event_outbox ≡ some r
      → find_row key id u.event_outbox ≡ some r
  unfolding create claim_events renew_lease release_claims recover_stale_leases
      fetch_pending_for_processing mark_published mark_failed try_set_publish_idempotency_key
      clear_publish_idempotency_key quarantine reinject_quarantined cleanup
  is_rival-keeps {s = s} v (creates now e) h row =
      ground (arith, find_row-append key id s.event_outbox (new_row s.next_event_id now e))
  is_rival-keeps {s = s} v (claims c limit le count shard now) h row =
      elim (Bool-cases (not_positive limit)) [
        | inl none_ ↦ rw none_ row
        | inr some_ ↦ rw some_ (
            selected-keeps v (is_candidate hash (normalize_shard count shard) now)
              (with_claim c (now + normalize_lease_seconds le) (normalize_shard count shard))
              (λ x. refl) (normalize_limit limit) id row (ground arith))
      ]
  is_rival-keeps {s = s} v (renews c le now) h row = elim (Bool-cases (not_positive le)) [
    | inl none_ ↦ rw none_ row
    | inr some_ ↦ rw some_ (
        update_rows-keeps (is_held c) (with_lease (now + normalize_lease_seconds le)) (λ x. refl) id
          s.event_outbox row (ground (arith, ==_comm c holder)))
  ]
  is_rival-keeps {s = s} v (releases c) h row = elim (Bool-cases (c == "")) [
    | inl none_ ↦ rw none_ row
    | inr some_ ↦ rw some_ (
        update_rows-keeps (is_held c) with_release (λ x. refl) id s.event_outbox row
          (ground (arith, ==_comm c holder)))
  ]
  is_rival-keeps {s = s} v (recovers now) h row =
      update_rows-keeps (is_stale now) with_release (λ x. refl) id s.event_outbox row (ground arith)
  is_rival-keeps {s = s} v (fetches limit) h row = elim (Bool-cases (not_positive limit)) [
    | inl none_ ↦ rw none_ row
    | inr some_ ↦ rw some_ (
        selected-keeps v (λ x. x.status == pending) with_processing (λ x. refl)
          (normalize_limit limit) id row (ground arith))
  ]
  is_rival-keeps {s = s} v (publishes i c now) h row = elim (Bool-cases (c == "")) [
    | inl none_ ↦ rw none_ row
    | inr some_ ↦ rw some_ (
        update_rows-keeps (is_held_event i c) (with_publication now) (λ x. refl) id s.event_outbox
          row (ground (arith, ==_comm c holder)))
  ]
  is_rival-keeps {s = s} v (sets_key i k c) h row = elim (Bool-cases (k == "" || c == "")) [
    | inl none_ ↦ rw none_ row
    | inr some_ ↦ rw some_ (
        update_rows-keeps (can_take_key i c) (with_key (some k)) (λ x. refl) id s.event_outbox row
          (ground (arith, ==_comm c holder)))
  ]
  is_rival-keeps {s = s} v (clears_key i) h row =
      let same = find_row-key key id s.event_outbox row in
      update_rows-keeps (λ x. x.id == i) (with_key none) (λ x. refl) id s.event_outbox row
        (ground (arith, ==_comm i id))
  is_rival-keeps {s = s} v (fails i m c now) h row = elim (Bool-cases (c == "")) [
    | inl none_ ↦ rw none_ row
    | inr some_ ↦ rw some_ (
        update_rows-keeps (is_held_event i c) (with_failure m now) (λ x. refl) id s.event_outbox row
          (ground (arith, ==_comm c holder)))
  ]
  is_rival-keeps {s = s} v (quarantines e reason m now) h row =
      elim (Bool-cases (e.status == published)) [
        | inl none_ ↦ rw none_ row
        | inr some_ ↦ elim (Option-cases (find (λ x. x.id == e.id) s.event_outbox)) [
          | inl absent ↦ rw (some_, absent) row
          | inr (x, found) ↦
              let same = find_row-key key id s.event_outbox row in
              rw (some_, found)
                (ground (
                  arith,
                  find_row-filter key (λ y. not (y.id == e.id)) id s.event_outbox v.distinct,
                  ==_comm e.id id,
                ))
        ]
      ]
  is_rival-keeps {s = s} v (reinjects i payload b now) h row = elim (Bool-cases (b == "")) [
    | inl none_ ↦ rw none_ row
    | inr some_ ↦ elim (Option-cases (find (is_open i) s.outbox_quarantine)) [
      | inl absent ↦ rw (some_, absent) row
      | inr (q, found) ↦
          rw (some_, found)
            (ground (
              arith,
              find_row-append key id s.event_outbox
                  (new_row s.next_event_id now (reinjected_event payload q)),
            ))
    ]
  ]
  is_rival-keeps {s = s} v (cleans config now) h row =
      ground (
        arith,
        find_row-filter key (λ y. not (is_expired config now y)) id s.event_outbox v.distinct,
      )

  -- Of a valid outbox, an event that a consumer processes under a lease is left as it is by every run of
  -- operations of other consumers, and by claims and recoveries of all, while the lease lasts. Its
  -- quarantine and the clearing of its key, which name the event and no consumer, are not in the run.
  pub are_rivals-keep :
      {s u : State}
      → IsValid s
      → (run : Steps hash s u) → are_rivals holder expires id run ≡ true
      → find_row key id s.event_outbox ≡ some r
      → find_row key id u.event_outbox ≡ some r
  are_rivals-keep v done h row = row
  are_rivals-keep v (more run step) h row =
      let parts = are_rivals-more holder expires id run step h in
      is_rival-keeps (Steps-Valid hash v run) step parts.1 (are_rivals-keep v run parts.0 row)
