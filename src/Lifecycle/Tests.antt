-- ===== src/Lifecycle/Tests.antt =====
-- The lifecycles at concrete statuses.
use credence_backend.StateTransition.Matrix.{is_valid}
use credence_backend.StateTransition.Reach.{Reaches, here, next}
use credence_backend.Lifecycle.Outbox.{is_outbox_lifecycle_status}
use credence_backend.Lifecycle.Settlement
use credence_backend.Lifecycle.Settlement.{get_allowed_settlement_targets}
use credence_backend.Lifecycle.Keys
use credence_backend.Lifecycle.Keys.{is_valid_signing_key_transition, is_valid_kek_transition}
use credence_backend.Lifecycle.Dispute
use credence_backend.Lifecycle.Dispute.{dispute_matrix, status_eq as dispute_eq}
use credence_backend.Base.{◌≡◌, refl, true, false, [], ◌∷◌}

no_return : is_valid_signing_key_transition Keys.retired Keys.active ≡ false
unfolding is_valid_signing_key_transition
no_return = refl

kek_return : is_valid_kek_transition Keys.retired Keys.active ≡ true
unfolding is_valid_kek_transition
kek_return = refl

retried : get_allowed_settlement_targets Settlement.failed ≡ Settlement.pending ∷ []
unfolding get_allowed_settlement_targets
retried = refl

named : is_outbox_lifecycle_status "dead_letter" ≡ true
unfolding is_outbox_lifecycle_status
named = refl

resolved_by_review : Reaches dispute_matrix Dispute.under_review Dispute.resolved
unfolding dispute_matrix is_valid
resolved_by_review = next {b = Dispute.under_review} here refl
