-- ===== src/StateTransition/Matrix.antt =====
-- The class `TransitionMatrix` of src/lib/stateTransition.ts: its fields and its methods.
use credence_backend.Base.{
  ℕ, String, Bool, true, false, Option, none, some, List, [], ◌∷◌, ◌||◌, if◌then◌else◌, Eq, ◌==◌,
  contains, add_elem, length, filter, nat_eq,
}
use credence_backend.Base.Dict.{Dict, lookup, insert}

pub record Transition (S : Type 0) : Type 0 where
  pub from : S
  pub to : S
  pub action : Option String

-- `error` is present exactly when `success` is false; its text names `from` and `to`.
pub record TransitionResult (S : Type 0) : Type 0 where
  pub success : Bool
  pub from : S
  pub to : S
  pub error : Option (S × S)

pub record Matrix (S : Type 0) : Type 0 where
  pub edges : Dict S (List S)
  pub edge_keys : List (S × S)
  pub all_states : List S
  pub transitions : List (Transition S)

module _ {S : Type 0} where
  abbrev pub empty_matrix : List (Transition S) → Matrix S
  empty_matrix ts = record { edges = []; edge_keys = []; all_states = []; transitions = ts }

  unfoldable pub size : Matrix S → ℕ
  size m = length m.transitions

  unfoldable pub get_all_states : Matrix S → List S
  get_all_states m = m.all_states

module _ {S : Type 0} ⦃e : Eq S⦄ where
  -- The source looks for the text `from|→|to`, so it also finds a pair whose statuses contain the
  -- separator and make the same text; no status of the repository contains it.
  abbrev pub has_key : S → S → List (S × S) → Bool
  has_key a b [] = false
  has_key a b ((c, d) ∷ ks) = (if c == a then d == b else false) || has_key a b ks

  -- `edges.get(from)`, with a new empty set where there is none.
  abbrev pub targets_of : S → Dict S (List S) → List S
  targets_of a d = elim (lookup a d) [ none ↦ [] | some ts ↦ ts ]

  unfoldable pub with_edge : Transition S → Matrix S → Matrix S
  with_edge t m = record m {
    edges = insert t.from (add_elem t.to (targets_of t.from m.edges)) m.edges;
    edge_keys = (t.from, t.to) ∷ m.edge_keys;
    all_states = add_elem t.to (add_elem t.from m.all_states);
  }

  -- One round of the constructor's loop: `none` is the error for a repeated pair.
  unfoldable pub add_transition : Transition S → Matrix S → Option (Matrix S)
  unfolding with_edge
  add_transition t m = if has_key t.from t.to m.edge_keys then none else some (with_edge t m)

  unfoldable pub load : List (Transition S) → Matrix S → Option (Matrix S)
  unfolding add_transition
  load [] m = some m
  load (t ∷ ts) m = elim (add_transition t m) [ none ↦ none | some m' ↦ load ts m' ]

  unfoldable pub new : List (Transition S) → Option (Matrix S)
  unfolding load
  new ts = load ts (empty_matrix ts)

  unfoldable pub is_valid : Matrix S → S → S → Bool
  is_valid m a b = elim (lookup a m.edges) [ none ↦ false | some ts ↦ contains b ts ]

  unfoldable pub try_transition : Matrix S → S → S → TransitionResult S
  unfolding is_valid
  try_transition m a b =
      if is_valid m a b
      then record { success = true; from = a; to = b; error = none }
      else record { success = false; from = a; to = b; error = some (a, b) }

  unfoldable pub get_allowed_targets : Matrix S → S → List S
  get_allowed_targets m a = elim (lookup a m.edges) [ none ↦ [] | some ts ↦ ts ]

  -- `!edges.has(s) || edges.get(s).size === 0`
  abbrev pub has_no_targets : Dict S (List S) → S → Bool
  has_no_targets d a = elim (lookup a d) [ none ↦ true | some ts ↦ length ts == 0 ]

  unfoldable pub get_terminal_states : Matrix S → List S
  get_terminal_states m = filter (has_no_targets m.edges) m.all_states

  -- The matrix of a list that the constructor accepts; a module that throws at load has none.
  unfoldable pub built : List (Transition S) → Matrix S
  unfolding new
  built ts = elim (new ts) [ none ↦ empty_matrix [] | some m ↦ m ]
