-- ===== src/Lifecycle/Dispute.antt =====
-- src/services/governance/disputeStateMachine.ts: the lifecycle of a dispute.
use credence_backend.StateTransition.Matrix.{
  Transition, TransitionResult, Matrix, built, is_valid, try_transition,
}
use credence_backend.Base.{ℕ, ◌≡◌, ◌↔◌, Bool, true, some, List, [], ◌∷◌, arith, Eq, nat_beq}

pub data DisputeStatus : Type 0 where
  pending under_review resolved dismissed expired : DisputeStatus

abbrev pub rank : DisputeStatus → ℕ
rank pending = 0
rank under_review = 1
rank resolved = 2
rank dismissed = 3
rank expired = 4

pub rank_iff : (a b : DisputeStatus) → (nat_beq (rank a) (rank b) ≡ true) ↔ (a ≡ b)
rank_iff a b = ground arith

instance abbrev pub status_eq : Eq DisputeStatus
status_eq = record { test = λ a b. nat_beq (rank a) (rank b); test_iff = rank_iff }

-- `VALID_TRANSITIONS`, which repeats the list that the matrix is built from.
abbrev pub valid_transitions : List (Transition DisputeStatus)
valid_transitions =
    record { from = pending; to = under_review; action = some "mark_under_review" }
    ∷ record { from = pending; to = resolved; action = some "resolve" }
    ∷ record { from = pending; to = dismissed; action = some "dismiss" }
    ∷ record { from = pending; to = expired; action = some "expire" }
    ∷ record { from = under_review; to = resolved; action = some "resolve" }
    ∷ record { from = under_review; to = dismissed; action = some "dismiss" }
    ∷ record { from = under_review; to = expired; action = some "expire" }
    ∷ []

unfoldable pub dispute_matrix : Matrix DisputeStatus
unfolding built
dispute_matrix = built valid_transitions

unfoldable pub is_valid_transition : DisputeStatus → DisputeStatus → Bool
unfolding dispute_matrix is_valid
is_valid_transition from to = is_valid dispute_matrix from to

unfoldable pub try_dispute_transition :
    DisputeStatus → DisputeStatus → TransitionResult DisputeStatus
unfolding dispute_matrix try_transition
try_dispute_transition from to = try_transition dispute_matrix from to
