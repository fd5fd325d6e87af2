-- ===== src/Outbox/Publications.antt =====
-- The publication of an event: once for each idempotency key, and what becomes of a failed one.
use credence_backend.Lifecycle.Outbox.{OutboxLifecycleStatus, status_eq}
use credence_backend.Outbox.Table.{OutboxEventRow, State}
use credence_backend.Outbox.Changes.{is_held, is_held_event, with_claim, with_key, with_publication}
use credence_backend.Outbox.Events.{
  Error, cannot_transition, require_transition, mark_published, mark_failed, can_take_key,
  try_set_publish_idempotency_key,
}
use credence_backend.Outbox.Publisher.{
  Checks, detect_poison_pill, skipped, publishes, on_table, begin_event,
  build_publish_idempotency_key, consumer_text, handle_publish_failure, handle_again, finish_event,
  error_text,
}
use credence_backend.Outbox.Runs.{Steps, Valid, IsValid, more, done, sets_key, fails}
use credence_backend.Outbox.Lifecycles.{key, Steps-Valid}
use credence_backend.Outbox.Failures.{held-only, mark_failed-decides}
use credence_backend.Base.{
  ℕ, ◌+◌, String, ◌≡◌, ◌≢◌, refl, ap, sym, subst, ◌∙◌, inl, inr, Bool, true, false, Option, none,
  some, List, [], ◌∷◌, arith, ◌==◌, ◌||◌, nat_eq, string_eq, Option-cases, find_row, find, filter,
  length, leb, find_row-update_rows, find_row-key, length-filter-one, find-find_row, ==_iff,
  ==_refl, Result, ok, err, is_ok,
}

taken-only :
    (id : ℕ) (consumer : String) (r : OutboxEventRow)
    → can_take_key id consumer r ≡ true
    → r.id ≡ id
taken-only id consumer r h = ground (arith, ==_iff r.id id)

-- A publication is recorded of a row that the caller holds.
mark_published-held :
    {n : ℕ} {t : List OutboxEventRow}
    → Valid n t
    → (id : ℕ) (consumer : String) (now : ℕ) {r : OutboxEventRow} → (consumer == "") ≡ false
    → find_row key id t ≡ some r
    → is_held consumer r ≡ true
    → ((mark_published id consumer now t).0 ≡ ok tt)
      × (find_row key id (mark_published id consumer now t).1 ≡ some (with_publication now r))
unfolding mark_published require_transition
mark_published-held {n} {t} v id consumer now {r} named row held =
    let same = find_row-key key id t row in
    let hit : is_held_event id consumer r ≡ true = ground (arith, ==_iff r.id id) in
    (
      ground (
        arith,
        named,
        length-filter-one key (is_held_event id consumer) id t (held-only id consumer) v.distinct
            row,
      ),
      ground (
        arith,
        named,
        find_row-update_rows key (is_held_event id consumer) (with_publication now) (λ x. refl) id
            t,
      ),
    )

-- A key is set on the row that can take it, if that is the row of the event.
try_set-acquired :
    {n : ℕ} {t : List OutboxEventRow}
    → Valid n t
    → (id : ℕ) (k consumer : String) → (try_set_publish_idempotency_key id k consumer t).0 ≡ true
    → (r : OutboxEventRow) × (find_row key id t ≡ some r)
      × (is_held consumer r ≡ true)
      × (r.publish_idempotency_key ≡ none)
      × (find_row key id (try_set_publish_idempotency_key id k consumer t).1
          ≡ some (with_key (some k) r))
unfolding try_set_publish_idempotency_key
try_set-acquired {n} {t} v id k consumer h =
    elim (Option-cases (find (can_take_key id consumer) t)) [
      | inl absent ↦ absurd (ground (arith, none-filter (can_take_key id consumer) t absent))
      | inr (r, found) ↦
          let row =
            find-find_row key (can_take_key id consumer) id t (taken-only id consumer) v.distinct
              found in
          let open_ : (k == "" || consumer == "") ≡ false = ground arith in
          (
            r,
            row.0,
            ground (arith, row.1),
            ground (arith, row.1),
            ground (
              arith,
              row.1,
              find_row-update_rows key (can_take_key id consumer) (with_key (some k)) (λ x. refl) id
                  t,
            ),
          )
    ]
  where
    none-filter :
        (p : OutboxEventRow → Bool) (rs : List OutboxEventRow)
        → find p rs ≡ none
        → length (filter p rs) ≡ 0
    none-filter p [] e = refl
    none-filter p (x ∷ xs) e = ground (arith, none-filter p xs)

-- No key is set on a row that has one.
try_set-refused :
    {n : ℕ} {t : List OutboxEventRow}
    → Valid n t
    → (id : ℕ) (k consumer : String) {r : OutboxEventRow} {k' : String} → find_row key id t ≡ some r
    → r.publish_idempotency_key ≡ some k'
    → (try_set_publish_idempotency_key id k consumer t).0 ≡ false
unfolding try_set_publish_idempotency_key
try_set-refused {n} {t} v id k consumer {r} row has = ground (
  arith,
  length-filter-one key (can_take_key id consumer) id t (taken-only id consumer) v.distinct row,
)

begin_event-acquired :
    (c : Checks) (consumer : String) (event : OutboxEventRow) (now : ℕ) (s : State)
    → (begin_event c consumer event now s).0 ≡ publishes
    → let k = build_publish_idempotency_key consumer event.id in
      ((try_set_publish_idempotency_key event.id k consumer s.event_outbox).0 ≡ true)
      × ((begin_event c consumer event now s).1
          ≡ on_table s (try_set_publish_idempotency_key event.id k consumer s.event_outbox).1)
unfolding begin_event
begin_event-acquired c consumer event now s h = elim (Option-cases (detect_poison_pill c event)) [
  | inr (poison, e) ↦ absurd (ground arith)
  | inl clean ↦ ground arith
]

-- No publication of an event starts while its row has a key.
begin_event-keyed :
    (u : State)
    → IsValid u
    → (id : ℕ) {r : OutboxEventRow} {k : String} → find_row key id u.event_outbox ≡ some r
    → r.publish_idempotency_key ≡ some k
    → (c : Checks) (other : String) (copy : OutboxEventRow) (later : ℕ) → copy.id ≡ id
    → (begin_event c other copy later u).0 ≢ publishes
begin_event-keyed u w id {r} row has c other copy later same again =
    let second = begin_event-acquired c other copy later u again in
    let no_key =
      try_set-refused w copy.id (build_publish_idempotency_key other copy.id) other
        (subst (λ i. find_row key i u.event_outbox ≡ some r) (sym same) row) has in
    ground (arith, second.0, no_key)

-- Of a valid outbox, a publisher starts a publication only of an event that it holds and whose row has
-- no idempotency key. The row then has the key; and after every run of the repository's operations, by
-- any consumers, at whose end the row of the event still has a key, no publisher, with whatever checks
-- and copy of the event, starts the publication again.
pub begin_event-once :
    (hash : ℕ → ℕ) (s : State)
    → IsValid s
    → (c : Checks) (consumer : String) (event : OutboxEventRow) (now : ℕ)
    → (begin_event c consumer event now s).0 ≡ publishes
    → ((r : OutboxEventRow) × (find_row key event.id s.event_outbox ≡ some r)
        × (is_held consumer r ≡ true)
        × (r.publish_idempotency_key ≡ none)
        × (find_row key event.id (begin_event c consumer event now s).1.event_outbox
            ≡ some (with_key (some (build_publish_idempotency_key consumer event.id)) r)))
      × ((u : State) (r' : OutboxEventRow) (k : String)
          → Steps hash (begin_event c consumer event now s).1 u
          → find_row key event.id u.event_outbox ≡ some r'
          → r'.publish_idempotency_key ≡ some k
          → (c' : Checks) (other : String) (copy : OutboxEventRow) (later : ℕ) → copy.id ≡ event.id
          → (begin_event c' other copy later u).0 ≢ publishes)
begin_event-once hash s v c consumer event now h =
    let k = build_publish_idempotency_key consumer event.id in
    let first = begin_event-acquired c consumer event now s h in
    let row = try_set-acquired v event.id k consumer first.0 in
    let w : IsValid (begin_event c consumer event now s).1 =
      subst IsValid (sym first.1)
        (Steps-Valid (λ x. 0) {s = s} v (more done (sets_key event.id k consumer))) in
    (
      (row.0, row.1, row.2, row.3, ap (λ x. find_row key event.id x.event_outbox) first.1 ∙ row.4),
      λ u r' k' run row' has. begin_event-keyed u (Steps-Valid hash w run) event.id row' has,
    )

mark_failed-free :
    {n : ℕ} {t : List OutboxEventRow}
    → Valid n t
    → (id : ℕ) (message : String) (last : Bool) (now : ℕ) {r : OutboxEventRow}
    → find_row key id t ≡ some r
    → is_held "true" r ≡ false
    → ((mark_failed id message (consumer_text last) now t).0
        ≡ err (cannot_transition id "markFailed"))
      × (find_row key id (mark_failed id message (consumer_text last) now t).1 ≡ some r)
unfolding mark_failed
mark_failed-free v id message true now row free =
    (mark_failed-decides v id message "true" now refl row).1 free
mark_failed-free v id message false now row free = (refl, row)

handle_publish_failure-lost :
    (s : State)
    → IsValid s
    → (event : OutboxEventRow) (message : String) (now : ℕ) {r : OutboxEventRow}
    → find_row key event.id s.event_outbox ≡ some r
    → is_held "true" r ≡ false
    → ((handle_publish_failure event message now s).0
        ≡ err (cannot_transition event.id "markFailed"))
      × (find_row key event.id (handle_publish_failure event message now s).1.event_outbox ≡ some r)
      × IsValid (handle_publish_failure event message now s).1
unfolding handle_publish_failure
handle_publish_failure-lost s v event message now {r} row free =
    let last = leb event.max_retries (event.retry_count + 1) in
    let valid =
      Steps-Valid (λ x. 0) {s = s} v
        (more done (fails event.id message (consumer_text last) now)) in
    let d = mark_failed-free v event.id message last now row free in (d.0, d.1, valid)

again-lost :
    (out : Result Error (OutboxLifecycleStatus × ℕ) × State) (event : OutboxEventRow) (now : ℕ)
    {r : OutboxEventRow}
    → is_ok out.0 ≡ false
    → IsValid out.1
    → find_row key event.id out.1.event_outbox ≡ some r
    → is_held "true" r ≡ false
    → (is_ok (handle_again event now out).0 ≡ false)
      × (find_row key event.id (handle_again event now out).1.event_outbox ≡ some r)
again-lost (ok x, s) event now h v row free = absurd (ground arith)
again-lost (err e, s) event now h v row free =
    let d = handle_publish_failure-lost s v event (error_text e) now row free in
    (ground (arith, d.0), ground (arith, d.0, d.1))

finish_event-lost :
    (s : State)
    → IsValid s
    → (consumer : String) (event : OutboxEventRow) (message : String) (now : ℕ) {r : OutboxEventRow}
    → find_row key event.id s.event_outbox ≡ some r
    → is_held "true" r ≡ false
    → (is_ok (finish_event consumer event (some message) now s).0 ≡ false)
      × (find_row key event.id (finish_event consumer event (some message) now s).1.event_outbox
          ≡ some r)
unfolding finish_event
finish_event-lost s v consumer event message now {r} row free =
    let once = handle_publish_failure-lost s v event message now row free in
    again-lost (handle_publish_failure event message now s) event now (ground (arith, once.0))
      once.2 once.1 free

-- Of a valid outbox, when the publication of an event that a consumer holds under an idempotency key
-- fails, the publisher ends with an error and the row is as before, unless the consumer is named true:
-- the failure is not counted. Once a consumer that is not the empty one has claimed the row again, with
-- its key, the publisher marks the event as published without a publication, if the row is no poison.
pub failed_publication-skipped :
    (s : State)
    → IsValid s
    → (c : Checks) (consumer : String) (event r : OutboxEventRow) (message k : String) (now : ℕ)
    → find_row key event.id s.event_outbox ≡ some r
    → is_held "true" r ≡ false
    → r.publish_idempotency_key ≡ some k
    → (k == "") ≡ false
    → ((is_ok (finish_event consumer event (some message) now s).0 ≡ false)
        × (find_row key event.id (finish_event consumer event (some message) now s).1.event_outbox
            ≡ some r))
      × ((s' : State) (other : String) (expires later : ℕ) (shard : Option (ℕ × ℕ))
          → IsValid s'
          → (other == "") ≡ false
          → find_row key event.id s'.event_outbox ≡ some (with_claim other expires shard r)
          → detect_poison_pill c (with_claim other expires shard r) ≡ none
          → ((begin_event c other (with_claim other expires shard r) later s').0 ≡ skipped (ok tt))
            × (find_row key event.id
                  (begin_event c other (with_claim other expires shard r) later s').1.event_outbox
                ≡ some (with_publication later (with_claim other expires shard r))))
unfolding begin_event
failed_publication-skipped s v c consumer event r message k now row free has named = (
  finish_event-lost s v consumer event message now row free,
  λ s' other expires later shard w somebody claimed clean.
      let copy = with_claim other expires shard r in
      let same : r.id ≡ event.id = find_row-key key event.id s'.event_outbox claimed in
      let own = subst (λ i. find_row key i s'.event_outbox ≡ some copy) (sym same) claimed in
      let marked =
        mark_published-held w r.id other later {r = copy} somebody own
          (ground (arith, ==_refl other)) in
      (
        ground (arith, marked.0, clean),
        subst
            (λ i.
              find_row key i (begin_event c other copy later s').1.event_outbox
              ≡ some (with_publication later copy))
            same (ground (arith, marked.1, clean)),
      ),
)
