-- ===== src/Outbox/Attempts.antt =====
-- How often the publication of an event can fail.
use credence_backend.Lifecycle.Outbox.{dead_letter, status_eq}
use credence_backend.Outbox.Table.{OutboxEventRow, State}
use credence_backend.Outbox.Changes.{with_failure}
use credence_backend.Outbox.Events.{mark_failed}
use credence_backend.Outbox.Consistency.{is_consistent, attempts}
use credence_backend.Outbox.Runs.{
  Step, Steps, done, more, creates, claims, renews, releases, recovers, fetches, publishes,
  sets_key, clears_key, fails, quarantines, reinjects, cleans, IsValid, Step-Effect,
}
use credence_backend.Outbox.Lifecycles.{key, Effect-back, Steps-Valid, Steps-le}
use credence_backend.Outbox.Histories.{row-below, Steps-Reaches}
use credence_backend.Outbox.Failures.{mark_failed-decides, mark_failed-held}
use credence_backend.Base.{
  ℕ, ◌+◌, ◌≤◌, ◌≡◌, refl, subst, inl, inr, Bool, true, false, none, some, arith, ◌==◌, ◌&&◌, nat_eq,
  string_eq, Bool-cases, Option-cases, find_row, ==_iff, is_ok, if◌then◌else◌, max,
}

-- The mark of a failure that is recorded: the repository returned the new status and count.
abbrev pub is_recorded : {hash : ℕ → ℕ} {s s' : State} → ℕ → Step hash s s' → Bool
is_recorded {s = s} id (fails i message consumer now) =
    i == id && is_ok (mark_failed i message consumer now s.event_outbox).0
is_recorded id _ = false

-- The number of recorded failures of an event in a run.
unfoldable pub failures : {hash : ℕ → ℕ} {s s' : State} → ℕ → Steps hash s s' → ℕ
failures id done = 0
failures id (more run step) = failures id run + (if is_recorded id step then 1 else 0)

failures-done :
    (hash : ℕ → ℕ) (s : State) (id : ℕ) → failures {hash = hash} {s = s} {s' = s} id done ≡ 0
unfolding failures
failures-done hash s id = refl

failures-more :
    {hash : ℕ → ℕ} {s t u : State} (id : ℕ) (run : Steps hash s t) (step : Step hash t u)
    → failures id (more run step) ≡ failures id run + (if is_recorded id step then 1 else 0)
unfolding failures
failures-more id run step = refl

consistent-attempts : (r : OutboxEventRow) → is_consistent r ≡ true → r.retry_count ≤ attempts r
unfolding is_consistent
consistent-attempts r c = ground arith

-- A row with no attempts left is a dead letter, free of consumers.
consistent-exhausted :
    (r : OutboxEventRow)
    → is_consistent r ≡ true
    → attempts r ≤ r.retry_count
    → (r.status ≡ dead_letter) × (r.consumer_id ≡ none) × (r.next_attempt_at ≡ none)
unfolding is_consistent
consistent-exhausted r c most = ground arith

-- A recorded failure is one of a row that is there, and raises its count.
is_recorded-row :
    {hash : ℕ → ℕ} {t u : State}
    → IsValid t
    → (id : ℕ) (step : Step hash t u) → is_recorded id step ≡ true
    → (r r' : OutboxEventRow) × (find_row key id t.event_outbox ≡ some r)
      × (find_row key id u.event_outbox ≡ some r')
      × (r'.retry_count ≡ r.retry_count + 1)
is_recorded-row {t = t} w id (fails i message consumer now) h =
    let here : i ≡ id = ground (arith, ==_iff i id) in
    let worked : is_ok (mark_failed i message consumer now t.event_outbox).0 ≡ true =
      ground arith in
    let held = mark_failed-held w i message consumer now worked in
    let after = (mark_failed-decides w i message consumer now held.0 held.2).0 held.3 in
    (
      held.1,
      with_failure message now held.1,
      subst (λ j. find_row key j t.event_outbox ≡ some held.1) here held.2,
      subst
          (λ j.
            find_row key j (mark_failed i message consumer now t.event_outbox).1
            ≡ some (with_failure message now held.1))
          here after.1,
      refl,
    )
is_recorded-row w id (creates now e) h = absurd (ground arith)
is_recorded-row w id (claims c l le sc si now) h = absurd (ground arith)
is_recorded-row w id (renews c l now) h = absurd (ground arith)
is_recorded-row w id (releases c) h = absurd (ground arith)
is_recorded-row w id (recovers now) h = absurd (ground arith)
is_recorded-row w id (fetches l) h = absurd (ground arith)
is_recorded-row w id (publishes i c now) h = absurd (ground arith)
is_recorded-row w id (sets_key i k c) h = absurd (ground arith)
is_recorded-row w id (clears_key i) h = absurd (ground arith)
is_recorded-row w id (quarantines e r m now) h = absurd (ground arith)
is_recorded-row w id (reinjects i p b now) h = absurd (ground arith)
is_recorded-row w id (cleans c now) h = absurd (ground arith)

module _ {hash : ℕ → ℕ} (id : ℕ) where
  failures-counted :
      {s u : State}
      → IsValid s
      → (run : Steps hash s u) → (r : OutboxEventRow) → find_row key id s.event_outbox ≡ some r
      → ((r' : OutboxEventRow)
          → find_row key id u.event_outbox ≡ some r'
          → failures id run + r.retry_count ≤ r'.retry_count)
        × (find_row key id u.event_outbox ≡ none → failures id run + r.retry_count ≤ attempts r)
  failures-counted {s = s} v done r row = (
    (λ r' row'. let eq : r ≡ r' = ground arith in ground (arith, failures-done hash s id)),
    λ absent. absurd (ground arith),
  )
  failures-counted {u = u} v (more {t} run step) r row =
      let w = Steps-Valid hash v run in
      let rest = failures-counted v run r row in
      let lt = row-below v id row in
      let le = Steps-le hash v run in
      (
        (λ r' row'.
            let back = Effect-back w (Step-Effect hash t w step) id (omega (arith, lt, le)) row' in
            let before = rest.0 back.0 back.1 in
            elim (Bool-cases (is_recorded id step)) [
              | inl yes_ ↦
                  let rows = is_recorded-row w id step yes_ in
                  let at_t : rows.0 ≡ back.0 = ground (arith, rows.2, back.1) in
                  let at_u : rows.1 ≡ r' = ground (arith, rows.3, row') in
                  ground (arith, before, rows.4, failures-more id run step)
              | inr no_ ↦ ground (arith, before, back.2.2, failures-more id run step)
            ]),
        λ absent. elim (Bool-cases (is_recorded id step)) [
          | inl yes_ ↦ let rows = is_recorded-row w id step yes_ in absurd (ground (arith, rows.3))
          | inr no_ ↦ elim (Option-cases (find_row key id t.event_outbox)) [
            | inl gone ↦ ground (arith, rest.1 gone, failures-more id run step)
            | inr (x, there) ↦
                let most = consistent-attempts x (w.consistent id x there) in
                let same = ((Steps-Reaches hash v run id).0 r x row there).1 in
                ground (arith, rest.0 x there, failures-more id run step)
          ]
        ],
      )

  -- In a run of the repository's operations from a valid outbox, at most as many failures of an event
  -- are recorded as its greatest number of retries allows (one where no retry is allowed), with those
  -- that its row already counts, whatever the consumers and their leases; and once that many are, the
  -- row, if it is still there, is a dead letter that no consumer holds, with no next attempt. Only
  -- failures that the repository accepts from the holder are counted: an attempt that ends otherwise,
  -- such as by the end of its lease, is not.
  pub failures-bounded :
      {s u : State}
      → IsValid s
      → (run : Steps hash s u) → (r : OutboxEventRow) → find_row key id s.event_outbox ≡ some r
      → (failures id run + r.retry_count ≤ max 1 r.max_retries)
        × ((r' : OutboxEventRow)
            → failures id run + r.retry_count ≡ max 1 r.max_retries
            → find_row key id u.event_outbox ≡ some r'
            → (r'.status ≡ dead_letter) × (r'.consumer_id ≡ none) × (r'.next_attempt_at ≡ none))
  failures-bounded {u = u} v run r row =
      let w = Steps-Valid hash v run in
      let count = failures-counted v run r row in
      (
        elim (Option-cases (find_row key id u.event_outbox)) [
          | inl absent ↦ count.1 absent
          | inr (r', row') ↦
              let most = consistent-attempts r' (w.consistent id r' row') in
              let same = ((Steps-Reaches hash v run id).0 r r' row row').1 in
              ground (arith, count.0 r' row')
        ],
        λ r' all row'.
            let same = ((Steps-Reaches hash v run id).0 r r' row row').1 in
            consistent-exhausted r' (w.consistent id r' row') (ground (arith, count.0 r' row')),
      )
