-- ===== src/Lifecycle/Outbox.antt =====
-- src/db/outbox/transitions.ts: the lifecycle of an outbox event.
-- `isTerminalOutboxStatus` is declared twice there: by the list (lines 114 to 116) and by the matrix
-- (lines 152 to 156).
use credence_backend.StateTransition.Matrix.{
  Transition, TransitionResult, Matrix, built, is_valid, try_transition, get_allowed_targets,
}
use credence_backend.Base.{
  ℕ, String, ◌≡◌, ◌↔◌, Bool, true, some, List, [], ◌∷◌, ◌||◌, arith, Eq, ◌==◌, nat_beq, nat_eq,
  string_eq, contains, length,
}

pub data OutboxLifecycleStatus : Type 0 where
  pending processing published failed dead_letter : OutboxLifecycleStatus

abbrev pub rank : OutboxLifecycleStatus → ℕ
rank pending = 0
rank processing = 1
rank published = 2
rank failed = 3
rank dead_letter = 4

pub rank_iff : (a b : OutboxLifecycleStatus) → (nat_beq (rank a) (rank b) ≡ true) ↔ (a ≡ b)
rank_iff a b = ground arith

instance abbrev pub status_eq : Eq OutboxLifecycleStatus
status_eq = record { test = λ a b. nat_beq (rank a) (rank b); test_iff = rank_iff }

abbrev pub outbox_lifecycle_statuses : List OutboxLifecycleStatus
outbox_lifecycle_statuses = pending ∷ processing ∷ published ∷ failed ∷ dead_letter ∷ []

abbrev pub outbox_lifecycle_list : List (Transition OutboxLifecycleStatus)
outbox_lifecycle_list =
    record { from = pending; to = processing; action = some "claim" }
    ∷ record { from = processing; to = published; action = some "mark_published" }
    ∷ record { from = processing; to = pending; action = some "retry" }
    ∷ record { from = processing; to = dead_letter; action = some "dead_letter" }
    ∷ []

unfoldable pub outbox_lifecycle_transitions : Matrix OutboxLifecycleStatus
unfolding built
outbox_lifecycle_transitions = built outbox_lifecycle_list

abbrev pub outbox_terminal_statuses : List OutboxLifecycleStatus
outbox_terminal_statuses = published ∷ failed ∷ dead_letter ∷ []

-- The first declaration of `isTerminalOutboxStatus`, by the list of terminal statuses.
unfoldable pub is_terminal_by_list : OutboxLifecycleStatus → Bool
is_terminal_by_list status = contains status outbox_terminal_statuses

unfoldable pub is_valid_outbox_transition : OutboxLifecycleStatus → OutboxLifecycleStatus → Bool
unfolding outbox_lifecycle_transitions is_valid
is_valid_outbox_transition from to = is_valid outbox_lifecycle_transitions from to

unfoldable pub is_outbox_lifecycle_status : String → Bool
is_outbox_lifecycle_status status =
    status == "pending"
    || status == "processing"
    || status == "published"
    || status == "failed"
    || status == "dead_letter"

-- The second declaration of `isTerminalOutboxStatus`, by the matrix.
unfoldable pub is_terminal_outbox_status : OutboxLifecycleStatus → Bool
unfolding outbox_lifecycle_transitions get_allowed_targets
is_terminal_outbox_status status =
    length (get_allowed_targets outbox_lifecycle_transitions status) == 0

unfoldable pub try_outbox_transition :
    OutboxLifecycleStatus → OutboxLifecycleStatus → TransitionResult OutboxLifecycleStatus
unfolding outbox_lifecycle_transitions try_transition
try_outbox_transition from to = try_transition outbox_lifecycle_transitions from to

unfoldable pub get_allowed_outbox_targets : OutboxLifecycleStatus → List OutboxLifecycleStatus
unfolding outbox_lifecycle_transitions get_allowed_targets
get_allowed_outbox_targets current = get_allowed_targets outbox_lifecycle_transitions current

unfoldable pub is_self_outbox_transition : OutboxLifecycleStatus → OutboxLifecycleStatus → Bool
is_self_outbox_transition from to = from == to

unfoldable pub can_recover_outbox_transition : OutboxLifecycleStatus → OutboxLifecycleStatus → Bool
unfolding outbox_lifecycle_transitions is_valid
can_recover_outbox_transition from to = is_valid outbox_lifecycle_transitions from to
