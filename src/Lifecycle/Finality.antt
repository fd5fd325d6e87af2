-- ===== src/Lifecycle/Finality.antt =====
-- Which states of the lifecycles are final, and which are reached at all.
use credence_backend.StateTransition.Matrix.{is_valid}
use credence_backend.StateTransition.Reach.{Reaches, here, next, Reaches-inv}
use credence_backend.Lifecycle.Outbox
use credence_backend.Lifecycle.Outbox.{
  OutboxLifecycleStatus, status_eq as outbox_eq, is_terminal_by_list, is_terminal_outbox_status,
  outbox_lifecycle_transitions, outbox_lifecycle_list, is_valid_outbox_transition,
}
use credence_backend.Lifecycle.Settlement
use credence_backend.Lifecycle.Settlement.{
  SettlementLifecycleStatus, settlement_transitions, settlement_list, status_eq as settlement_eq,
}
use credence_backend.Lifecycle.Dispute
use credence_backend.Lifecycle.Dispute.{
  DisputeStatus, dispute_matrix, valid_transitions, status_eq as dispute_eq,
}
use credence_backend.Base.{◌≡◌, refl, ◌≢◌, ◌↔◌, Bool, true, false, not, arith, ◌==◌}

abbrev not_failed : OutboxLifecycleStatus → Bool
not_failed Outbox.failed = false
not_failed _ = true

not_failed_step :
    (b c : OutboxLifecycleStatus)
    → not_failed b ≡ true
    → is_valid outbox_lifecycle_transitions b c ≡ true
    → not_failed c ≡ true
unfolding outbox_lifecycle_transitions is_valid
not_failed_step b c h v = ground arith

-- The two declarations of `isTerminalOutboxStatus` agree, and name the statuses that no valid
-- transition leaves.
is_terminal-agree :
    (s : OutboxLifecycleStatus)
    → (is_terminal_by_list s ≡ is_terminal_outbox_status s)
      × ((is_terminal_outbox_status s ≡ true)
          ↔ ((t : OutboxLifecycleStatus) → is_valid_outbox_transition s t ≡ false))
unfolding is_terminal_by_list is_terminal_outbox_status is_valid_outbox_transition
is_terminal-agree Outbox.pending = (refl, ((λ h. cc), λ f. cc (f Outbox.processing)))
is_terminal-agree Outbox.processing = (refl, ((λ h. cc), λ f. cc (f Outbox.published)))
is_terminal-agree Outbox.published = (refl, ((λ h t. refl), λ f. refl))
is_terminal-agree Outbox.failed = (refl, ((λ h t. refl), λ f. refl))
is_terminal-agree Outbox.dead_letter = (refl, ((λ h t. refl), λ f. refl))

-- No event that starts as pending is ever failed, and a published one stays published.
outbox-reached :
    {s : OutboxLifecycleStatus}
    → (Reaches outbox_lifecycle_transitions Outbox.pending s → s ≢ Outbox.failed)
      × (Reaches outbox_lifecycle_transitions Outbox.published s → s ≡ Outbox.published)
outbox-reached {s} = (
  λ r. ground (arith, Reaches-inv outbox_lifecycle_transitions not_failed not_failed_step r refl),
  λ r.
      ground
        (arith, Reaches-inv outbox_lifecycle_transitions (λ t. t == Outbox.published) stays r refl),
)
  where
    stays :
        (b c : OutboxLifecycleStatus)
        → (b == Outbox.published) ≡ true
        → is_valid outbox_lifecycle_transitions b c ≡ true
        → (c == Outbox.published) ≡ true
    stays b c h v = unfold outbox_lifecycle_transitions is_valid in ground arith

abbrev pub is_final : DisputeStatus → Bool
is_final Dispute.pending = false
is_final Dispute.under_review = false
is_final _ = true

final_stays :
    (s b c : DisputeStatus) → is_final s ≡ true → b ≡ s → is_valid dispute_matrix b c ≡ true → c ≡ s
unfolding dispute_matrix is_valid
final_stays s b c f e v = ground arith

reach-final : {s t : DisputeStatus} → Reaches dispute_matrix s t → is_final s ≡ true → t ≡ s
reach-final here f = refl
reach-final {s} (next {b} {c} r v) f = final_stays s b c f (reach-final r f) v

never_pending :
    (b c : DisputeStatus)
    → not (b == Dispute.pending) ≡ true
    → is_valid dispute_matrix b c ≡ true
    → not (c == Dispute.pending) ≡ true
unfolding dispute_matrix is_valid
never_pending b c h v = ground arith

-- A resolved, dismissed or expired dispute keeps its status whatever is tried, and a dispute that
-- has left the status pending is never pending again.
dispute-reached :
    {s t : DisputeStatus}
    → Reaches dispute_matrix s t
    → (is_final s ≡ true → t ≡ s) × (s ≢ Dispute.pending → t ≢ Dispute.pending)
dispute-reached {s} {t} r = (
  reach-final r,
  λ h. ground (arith, Reaches-inv dispute_matrix (λ x. not (x == Dispute.pending)) never_pending r),
)

settled_stays :
    (b c : SettlementLifecycleStatus)
    → (b == Settlement.settled) ≡ true
    → is_valid settlement_transitions b c ≡ true
    → (c == Settlement.settled) ≡ true
unfolding settlement_transitions is_valid
settled_stays b c h v = ground arith

to_settled : (s : SettlementLifecycleStatus) → Reaches settlement_transitions s Settlement.settled
unfolding settlement_transitions is_valid
to_settled Settlement.pending = next here refl
to_settled Settlement.settled = here
to_settled Settlement.failed =
    next {b = Settlement.pending} (next {b = Settlement.failed} here refl) refl

-- From every status a settlement can come to be settled, and then it stays settled.
settlement-reached :
    (s t : SettlementLifecycleStatus)
    → Reaches settlement_transitions s Settlement.settled
      × (Reaches settlement_transitions Settlement.settled t → t ≡ Settlement.settled)
settlement-reached s t = (
  to_settled s,
  λ r. ground (
    arith,
    Reaches-inv settlement_transitions (λ x. x == Settlement.settled) settled_stays r refl,
  ),
)
