-- ===== src/Lifecycle/Keys.antt =====
-- src/services/keyManager/keyTransitions.ts: the lifecycles of signing keys and of KEK versions.
use credence_backend.StateTransition.Matrix.{
  Transition, TransitionResult, Matrix, built, is_valid, try_transition,
}
use credence_backend.Base.{ℕ, ◌≡◌, ◌↔◌, Bool, true, some, List, [], ◌∷◌, arith, Eq, nat_beq}

-- `SigningKeyState` and `KekLifecycleState` are the same two literals.
pub data KeyState : Type 0 where
  active retired : KeyState

abbrev pub rank : KeyState → ℕ
rank active = 0
rank retired = 1

pub rank_iff : (a b : KeyState) → (nat_beq (rank a) (rank b) ≡ true) ↔ (a ≡ b)
rank_iff a b = ground arith

instance abbrev pub state_eq : Eq KeyState
state_eq = record { test = λ a b. nat_beq (rank a) (rank b); test_iff = rank_iff }

abbrev pub signing_key_list : List (Transition KeyState)
signing_key_list = record { from = active; to = retired; action = some "rotate" } ∷ []

unfoldable pub signing_key_transitions : Matrix KeyState
unfolding built
signing_key_transitions = built signing_key_list

unfoldable pub is_valid_signing_key_transition : KeyState → KeyState → Bool
unfolding signing_key_transitions is_valid
is_valid_signing_key_transition from to = is_valid signing_key_transitions from to

unfoldable pub try_signing_key_transition : KeyState → KeyState → TransitionResult KeyState
unfolding signing_key_transitions try_transition
try_signing_key_transition from to = try_transition signing_key_transitions from to

abbrev pub kek_list : List (Transition KeyState)
kek_list =
    record { from = retired; to = active; action = some "activate" }
    ∷ record { from = active; to = retired; action = some "supersede" }
    ∷ []

unfoldable pub kek_transitions : Matrix KeyState
unfolding built
kek_transitions = built kek_list

unfoldable pub is_valid_kek_transition : KeyState → KeyState → Bool
unfolding kek_transitions is_valid
is_valid_kek_transition from to = is_valid kek_transitions from to

unfoldable pub try_kek_transition : KeyState → KeyState → TransitionResult KeyState
unfolding kek_transitions try_transition
try_kek_transition from to = try_transition kek_transitions from to
