-- ===== src/Outbox/Moves.antt =====
-- The way of an event into the quarantine and back.
use credence_backend.Lifecycle.Outbox.{pending, published, status_eq}
use credence_backend.Outbox.Table.{
  OutboxEventRow, OutboxQuarantineRow, OutboxQuarantineReason, State,
}
use credence_backend.Outbox.Events.{new_row}
use credence_backend.Outbox.Quarantine.{
  quarantine_row, quarantine, is_open, with_reinjection, reinjected_event, reinject_quarantined,
}
use credence_backend.Outbox.Runs.{IsValid, more, done, quarantines}
use credence_backend.Outbox.Lifecycles.{key, Steps-Valid}
use credence_backend.Base.{
  ℕ, String, ◌≡◌, refl, ap, subst, sym, ◌∙◌, inl, inr, Bool, true, false, not, none, some, List, [],
  ◌∷◌, ◌++◌, arith, ◌==◌, nat_eq, string_eq, Bool-cases, Option-cases, find_row, find, any,
  update_rows, find_row-filter, find_row-append, find_row-key, ==_iff, if◌then◌else◌,
}

abbrev pub has_quarantined : ℕ → List OutboxQuarantineRow → Bool
has_quarantined id qs = any (λ q. q.original_event_id == id) qs

-- Of a valid outbox, the quarantine of an event that is there, given with a status other than published,
-- takes it and no other from the table of events. Where no entry is of the event it adds one, with the
-- row's data as the table has them; where one is, nothing is added, and the row is lost.
pub quarantine-moves :
    (s : State)
    → IsValid s
    → (event r : OutboxEventRow) (reason : OutboxQuarantineReason) (message : String) (now : ℕ)
    → (event.status == published) ≡ false
    → find_row key event.id s.event_outbox ≡ some r
    → (find_row key event.id (quarantine event reason message now s).event_outbox ≡ none)
      × ((j : ℕ)
          → (j == event.id) ≡ false
          → find_row key j (quarantine event reason message now s).event_outbox
            ≡ find_row key j s.event_outbox)
      × ((quarantine event reason message now s).outbox_quarantine ≡ (
          if has_quarantined event.id s.outbox_quarantine
          then s.outbox_quarantine
          else s.outbox_quarantine
            ++ quarantine_row s.next_quarantine_id now reason message r ∷ []))
unfolding quarantine
quarantine-moves s v event r reason message now waits row =
    let same = find_row-key key event.id s.event_outbox row in
    (
      rw (waits, row)
          (ground (
            arith,
            find_row-filter key (λ x. not (x.id == event.id)) event.id s.event_outbox v.distinct,
            ==_iff r.id event.id,
          )),
      (λ j other.
          rw (waits, row)
            (elim (Option-cases (find_row key j s.event_outbox)) [
              | inl absent ↦ ground (
                arith,
                find_row-filter key (λ x. not (x.id == event.id)) j s.event_outbox v.distinct,
              )
              | inr (x, there) ↦ ground (
                arith,
                find_row-filter key (λ y. not (y.id == event.id)) j s.event_outbox v.distinct,
                find_row-key key j s.event_outbox there,
                ==_iff x.id event.id,
                ==_iff j event.id,
              )
            ])),
      rw (waits, row)
          (ground (arith, ap (λ i. any (λ q. q.original_event_id == i) s.outbox_quarantine) same)),
    )

find-reinjected :
    (id : ℕ) (by : String) (now : ℕ) (qs : List OutboxQuarantineRow)
    → find (is_open id) (update_rows (λ q. q.id == id) (with_reinjection by now) qs) ≡ none
find-reinjected id by now [] = refl
find-reinjected id by now (q ∷ qs) = ground (arith, find-reinjected id by now qs)

find-append :
    (p : OutboxQuarantineRow → Bool) (qs : List OutboxQuarantineRow) (q : OutboxQuarantineRow)
    → find p qs ≡ none
    → p q ≡ true
    → find p (qs ++ q ∷ []) ≡ some q
find-append p [] q h hit = ground arith
find-append p (x ∷ xs) q h hit = ground (arith, find-append p xs q)

reinject_quarantined-nothing :
    (s : State) (id : ℕ) (payload by : String) (now : ℕ)
    → find (is_open id) s.outbox_quarantine ≡ none
    → reinject_quarantined id payload by now s ≡ (none, s)
unfolding reinject_quarantined
reinject_quarantined-nothing s id payload by now absent = elim (Bool-cases (by == "")) [
  | inl nobody ↦ rw nobody refl
  | inr somebody ↦ rw (somebody, absent) refl
]

-- Of a valid outbox, the reinjection by a named person of an entry that was not reinjected adds one
-- event under the next key, pending, with no failures, with the entry's data and the repaired payload,
-- and keeps the other events; every later reinjection of the entry does nothing.
reinject_quarantined-once :
    (s : State)
    → IsValid s
    → (id : ℕ) (payload by : String) (now : ℕ) (q : OutboxQuarantineRow) → (by == "") ≡ false
    → find (is_open id) s.outbox_quarantine ≡ some q
    → ((reinject_quarantined id payload by now s).0 ≡ some s.next_event_id)
      × (find_row key s.next_event_id (reinject_quarantined id payload by now s).1.event_outbox
          ≡ some (new_row s.next_event_id now (reinjected_event payload q)))
      × ((j : ℕ)
          → (j == s.next_event_id) ≡ false
          → find_row key j (reinject_quarantined id payload by now s).1.event_outbox
            ≡ find_row key j s.event_outbox)
      × ((payload' by' : String) (now' : ℕ)
          → reinject_quarantined id payload' by' now' (reinject_quarantined id payload by now s).1
            ≡ (none, (reinject_quarantined id payload by now s).1))
unfolding reinject_quarantined
reinject_quarantined-once s v id payload by now q named waits =
    let n = s.next_event_id in
    let row = new_row n now (reinjected_event payload q) in
    (
      rw (named, waits) refl,
      rw (named, waits)
          (ground
            (arith, find_row-append key n s.event_outbox row, v.below n (omega arith), ==_iff n n)),
      (λ j other.
          rw (named, waits)
            (elim (Option-cases (find_row key j s.event_outbox)) [
              | inl absent ↦
                  ground (arith, find_row-append key j s.event_outbox row, ==_iff n j, ==_iff j n)
              | inr (x, there) ↦ ground (arith, find_row-append key j s.event_outbox row)
            ])),
      λ payload' by' now'.
          reinject_quarantined-nothing (reinject_quarantined id payload by now s).1 id payload' by'
            now' (rw (named, waits) (find-reinjected id by now s.outbox_quarantine)),
    )

quarantine-next_event_id :
    (s : State) (event : OutboxEventRow) (reason : OutboxQuarantineReason) (message : String)
    (now : ℕ)
    → (quarantine event reason message now s).next_event_id ≡ s.next_event_id
unfolding quarantine
quarantine-next_event_id s event reason message now =
    elim (Bool-cases (event.status == published)) [
      | inl gone ↦ rw gone refl
      | inr waits ↦ elim (Option-cases (find (λ r. r.id == event.id) s.event_outbox)) [
        | inl absent ↦ rw (waits, absent) refl
        | inr (r, row) ↦ rw (waits, row) refl
      ]
    ]

-- Of a valid outbox, an event that is quarantined for the first time and then reinjected by a named
-- person comes back under a new key with its aggregate, type and greatest number of retries, pending and
-- with no failures; the old row is gone, and the other events are as before. In between, the entry has
-- the event's key, payload and failures, with the reason, the message and the time. The key of the new
-- entry is one that no open entry has.
pub quarantine-reinject :
    (s : State)
    → IsValid s
    → (event r : OutboxEventRow) (reason : OutboxQuarantineReason) (message payload by : String)
      (now later : ℕ)
    → (event.status == published) ≡ false
    → find_row key event.id s.event_outbox ≡ some r
    → has_quarantined event.id s.outbox_quarantine ≡ false
    → find (is_open s.next_quarantine_id) s.outbox_quarantine ≡ none
    → (by == "") ≡ false
    → let rows =
        (reinject_quarantined s.next_quarantine_id payload by later
          (quarantine event reason message now s)).1.event_outbox in
      ((r' : OutboxEventRow) × (find_row key s.next_event_id rows ≡ some r')
        × (r'.aggregate_type ≡ r.aggregate_type)
        × (r'.aggregate_id ≡ r.aggregate_id)
        × (r'.event_type ≡ r.event_type)
        × (r'.max_retries ≡ r.max_retries)
        × (r'.payload ≡ payload)
        × (r'.status ≡ pending)
        × (r'.retry_count ≡ 0))
      × ((q : OutboxQuarantineRow) × (find
              (is_open s.next_quarantine_id)
              (quarantine event reason message now s).outbox_quarantine
            ≡ some q)
          × (q.original_event_id ≡ event.id)
          × (q.payload ≡ r.payload)
          × (q.retry_count ≡ r.retry_count)
          × (q.reason ≡ reason)
          × (q.error_message ≡ message)
          × (q.quarantined_at ≡ now))
      × (find_row key event.id rows ≡ none)
      × ((j : ℕ)
          → (j == event.id) ≡ false
          → (j == s.next_event_id) ≡ false
          → find_row key j rows ≡ find_row key j s.event_outbox)
quarantine-reinject s v event r reason message payload by now later waits row free fresh named =
    let s1 = quarantine event reason message now s in
    let valid : IsValid s1 =
      Steps-Valid (λ x. 0) v (more done (quarantines event reason message now)) in
    let entry = quarantine_row s.next_quarantine_id now reason message r in
    let moves = quarantine-moves s v event r reason message now waits row in
    let moved = moves.2 in
    let added : s1.outbox_quarantine ≡ s.outbox_quarantine ++ entry ∷ [] = ground arith in
    let found : find (is_open s.next_quarantine_id) s1.outbox_quarantine ≡ some entry = ground (
      arith,
      find-append (is_open s.next_quarantine_id) s.outbox_quarantine entry fresh,
      ==_iff s.next_quarantine_id s.next_quarantine_id,
    ) in
    let back =
      reinject_quarantined-once s1 valid s.next_quarantine_id payload by later entry named found in
    let key_same = quarantine-next_event_id s event reason message now in
    let kept : (j : ℕ)
        → (j == s.next_event_id) ≡ false
        → find_row key j
            (reinject_quarantined s.next_quarantine_id payload by later s1).1.event_outbox
          ≡ find_row key j s1.event_outbox =
      λ j other. back.2 j (subst (λ i. (j == i) ≡ false) (sym key_same) other) in
    (
      (
        new_row s1.next_event_id later (reinjected_event payload entry),
        subst
            (λ i.
              find_row key i
                (reinject_quarantined s.next_quarantine_id payload by later s1).1.event_outbox
              ≡ some (new_row s1.next_event_id later (reinjected_event payload entry)))
            key_same back.1,
        refl,
        refl,
        refl,
        refl,
        refl,
        refl,
        refl,
      ),
      (entry, found, find_row-key key event.id s.event_outbox row, refl, refl, refl, refl, refl),
      kept event.id (ground (arith, v.below event.id, ==_iff event.id s.next_event_id)) ∙ moves.0,
      λ j other old. kept j old ∙ moves.1 j other,
    )
