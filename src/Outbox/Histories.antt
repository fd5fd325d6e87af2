-- ===== src/Outbox/Histories.antt =====
-- The history of one event over a run of the outbox.
use credence_backend.Lifecycle.Outbox.{
  OutboxLifecycleStatus, status_eq, outbox_lifecycle_transitions, is_valid_outbox_transition,
}
use credence_backend.StateTransition.Reach.{Reaches, here, next}
use credence_backend.Outbox.Table.{OutboxEventRow, State}
use credence_backend.Outbox.Consistency.{same_or_valid}
use credence_backend.Outbox.Runs.{Steps, done, more, Valid, IsValid, Step-Effect}
use credence_backend.Outbox.Lifecycles.{key, Effect-back, Steps-Valid, Steps-le}
use credence_backend.Base.{
  ℕ, ◌≤◌, ◌<◌, ◌≡◌, refl, subst, ◌∙◌, inl, inr, true, none, some, List, arith, ◌==◌, nat_eq,
  Bool-cases, Option-cases, find_row, ==_iff,
}

-- A status that a matrix relates, or the same.
Reaches-same_or_valid :
    {a b c : OutboxLifecycleStatus}
    → Reaches outbox_lifecycle_transitions a b
    → same_or_valid b c ≡ true
    → Reaches outbox_lifecycle_transitions a c
unfolding is_valid_outbox_transition
Reaches-same_or_valid {a} {b} {c} run h = elim (Bool-cases (b == c)) [
  | inl same ↦ subst (Reaches outbox_lifecycle_transitions a) ((==_iff b c).0 same) run
  | inr other ↦ next run (ground arith)
]

-- A row is there at the start of a run, below the next key.
pub row-below :
    {n : ℕ} {t : List OutboxEventRow}
    → Valid n t
    → (id : ℕ) {r : OutboxEventRow} → find_row key id t ≡ some r
    → id < n
row-below {n} v id row = ground (arith, v.below id)

-- In a run of the repository's operations from a valid outbox, the row of an event changes its status
-- only along the lifecycle's transitions, keeps its greatest number of retries, and never lowers the
-- count of its failures; so a row of a final status keeps the status until it is removed, and a removed
-- event never comes back.
pub Steps-Reaches :
    (hash : ℕ → ℕ) {s s' : State}
    → IsValid s
    → Steps hash s s'
    → (id : ℕ)
    → ((r r' : OutboxEventRow)
        → find_row key id s.event_outbox ≡ some r
        → find_row key id s'.event_outbox ≡ some r'
        → Reaches outbox_lifecycle_transitions r.status r'.status
          × (r'.max_retries ≡ r.max_retries)
          × (r.retry_count ≤ r'.retry_count))
      × (id < s.next_event_id
          → find_row key id s.event_outbox ≡ none
          → find_row key id s'.event_outbox ≡ none)
Steps-Reaches hash v done id = (
  (λ r r' row row'.
      let eq : r ≡ r' = ground arith in
      subst
        (λ x.
          Reaches outbox_lifecycle_transitions r.status x.status
          × (x.max_retries ≡ r.max_retries)
          × (r.retry_count ≤ x.retry_count))
        eq (here, refl, omega arith)),
  λ lt h. h,
)
Steps-Reaches hash {s' = s'} v (more {t} run step) id =
    let w = Steps-Valid hash v run in
    let effect = Step-Effect hash t w step in
    let rest = Steps-Reaches hash v run id in
    (
      (λ r r' row row'.
          let lt = row-below v id row in
          let le = Steps-le hash v run in
          let back = Effect-back w effect id (omega (arith, lt, le)) row' in
          let before = rest.0 r back.0 row back.1 in
          (
            Reaches-same_or_valid before.0 back.2.0,
            back.2.1 ∙ before.1,
            omega (arith, back.2.2, before.2),
          )),
      λ lt absent.
          let le = Steps-le hash v run in
          elim (Option-cases (find_row key id s'.event_outbox)) [
            | inl gone ↦ gone
            | inr (r', row') ↦
                let back = Effect-back w effect id (omega (arith, lt, le)) row' in
                absurd (ground (arith, rest.1 lt absent, back.1))
          ],
    )
