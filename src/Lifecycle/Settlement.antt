-- ===== src/Lifecycle/Settlement.antt =====
-- src/services/settlementTransitions.ts: the lifecycle of a settlement.
use credence_backend.StateTransition.Matrix.{
  Transition, TransitionResult, Matrix, built, try_transition, get_allowed_targets,
}
use credence_backend.Base.{ℕ, ◌≡◌, ◌↔◌, true, some, List, [], ◌∷◌, arith, Eq, nat_beq}

pub data SettlementLifecycleStatus : Type 0 where
  pending settled failed : SettlementLifecycleStatus

abbrev pub rank : SettlementLifecycleStatus → ℕ
rank pending = 0
rank settled = 1
rank failed = 2

pub rank_iff : (a b : SettlementLifecycleStatus) → (nat_beq (rank a) (rank b) ≡ true) ↔ (a ≡ b)
rank_iff a b = ground arith

instance abbrev pub status_eq : Eq SettlementLifecycleStatus
status_eq = record { test = λ a b. nat_beq (rank a) (rank b); test_iff = rank_iff }

abbrev pub settlement_list : List (Transition SettlementLifecycleStatus)
settlement_list =
    record { from = pending; to = settled; action = some "settle" }
    ∷ record { from = pending; to = failed; action = some "fail" }
    ∷ record { from = failed; to = pending; action = some "retry" }
    ∷ []

unfoldable pub settlement_transitions : Matrix SettlementLifecycleStatus
unfolding built
settlement_transitions = built settlement_list

unfoldable pub validate_settlement_transition :
    SettlementLifecycleStatus
    → SettlementLifecycleStatus
    → TransitionResult SettlementLifecycleStatus
unfolding settlement_transitions try_transition
validate_settlement_transition from to = try_transition settlement_transitions from to

unfoldable pub get_allowed_settlement_targets :
    SettlementLifecycleStatus → List SettlementLifecycleStatus
unfolding settlement_transitions get_allowed_targets
get_allowed_settlement_targets current = get_allowed_targets settlement_transitions current
