-- ===== src/Outbox/Failures.antt =====
-- The failures of an event: the delay before the next attempt, and their number.
use credence_backend.Lifecycle.Outbox.{status_eq}
use credence_backend.Outbox.Table.{OutboxEventRow}
use credence_backend.Outbox.Changes.{is_held, is_held_event, with_failure}
use credence_backend.Outbox.Events.{cannot_transition, mark_failed, require_transition}
use credence_backend.Outbox.Runs.{Valid}
use credence_backend.Outbox.Lifecycles.{key}
use credence_backend.Base.{
  ℕ, ◌+◌, String, ◌≡◌, refl, inl, inr, true, false, none, some, List, arith, ◌==◌, nat_eq,
  string_eq, Option-cases, find_row, ==_iff, find, find-find_row, length-filter-one, find_row-find,
  find_row-update_rows, find_row-key, update_rows, ok, err, is_ok, if◌then◌else◌,
}

pub held-only :
    (id : ℕ) (consumer : String) (r : OutboxEventRow)
    → is_held_event id consumer r ≡ true
    → r.id ≡ id
held-only id consumer r h = ground (arith, ==_iff r.id id)

failure-find_row :
    (id : ℕ) (consumer message : String) (now j : ℕ) (t : List OutboxEventRow)
    → find_row key j (update_rows (is_held_event id consumer) (with_failure message now) t)
      ≡ elim (find_row key j t) [
        | none ↦ none
        | some x ↦ some (if is_held_event id consumer x then with_failure message now x else x)
      ]
failure-find_row id consumer message now j t =
    find_row-update_rows key (is_held_event id consumer) (with_failure message now) (λ x. refl) j t

-- Of a valid outbox, a consumer other than the empty one that reports the failure of an event that is
-- there gets a result exactly where it holds the event. Then the result is the new status and the count
-- raised by one, both as in the new row of the event; else it is an error and the row is as before. The
-- rows of other events are as before in both cases.
pub mark_failed-decides :
    {n : ℕ} {t : List OutboxEventRow}
    → Valid n t
    → (id : ℕ) (message consumer : String) (now : ℕ) {r : OutboxEventRow} → (consumer == "") ≡ false
    → find_row key id t ≡ some r
    → (is_held consumer r ≡ true
        → ((mark_failed id message consumer now t).0
            ≡ ok ((with_failure message now r).status, r.retry_count + 1))
          × (find_row key id (mark_failed id message consumer now t).1
              ≡ some (with_failure message now r)))
      × (is_held consumer r ≡ false
          → ((mark_failed id message consumer now t).0 ≡ err (cannot_transition id "markFailed"))
            × (find_row key id (mark_failed id message consumer now t).1 ≡ some r))
      × ((j : ℕ)
          → (j == id) ≡ false
          → find_row key j (mark_failed id message consumer now t).1 ≡ find_row key j t)
unfolding mark_failed require_transition
mark_failed-decides {n} {t} v id message consumer now {r} named row = (
  (λ held.
      let same = find_row-key key id t row in
      let p_r : is_held_event id consumer r ≡ true = ground (arith, ==_iff r.id id) in
      (
        ground (
          arith,
          named,
          find_row-find key (is_held_event id consumer) id t (held-only id consumer) v.distinct row,
          length-filter-one key (is_held_event id consumer) id t (held-only id consumer) v.distinct
              row,
        ),
        ground (arith, named, failure-find_row id consumer message now id t),
      )),
  (λ free.
      let p_r : is_held_event id consumer r ≡ false = ground (arith, ==_iff r.id id) in
      (
        ground (
          arith,
          named,
          find_row-find key (is_held_event id consumer) id t (held-only id consumer) v.distinct row,
        ),
        ground (arith, named, failure-find_row id consumer message now id t),
      )),
  λ j other. elim (Option-cases (find_row key j t)) [
    | inl absent ↦ ground (arith, named, failure-find_row id consumer message now j t)
    | inr (x, there) ↦ ground (
      arith,
      named,
      failure-find_row id consumer message now j t,
      held-only id consumer x,
      find_row-key key j t there,
      ==_iff j id,
    )
  ],
)

-- A result means that the caller is named and holds the event.
pub mark_failed-held :
    {n : ℕ} {t : List OutboxEventRow}
    → Valid n t
    → (id : ℕ) (message consumer : String) (now : ℕ)
    → is_ok (mark_failed id message consumer now t).0 ≡ true
    → ((consumer == "") ≡ false)
      × (r : OutboxEventRow) × (find_row key id t ≡ some r)
      × (is_held consumer r ≡ true)
unfolding mark_failed
mark_failed-held {n} {t} v id message consumer now h =
    elim (Option-cases (find (is_held_event id consumer) t)) [
      | inl absent ↦ absurd (ground arith)
      | inr (r, found) ↦
          let row =
            find-find_row key (is_held_event id consumer) id t (held-only id consumer) v.distinct
              found in
          (ground arith, r, row.0, ground (arith, row.1))
    ]
