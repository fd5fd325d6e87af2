-- ===== src/Governance/Multisig/Finality.antt =====
-- A call touches one proposal only, and a proposal that is executed, rejected or expired is final.
use credence_backend.Governance.Multisig.{
  MultisigStatus, pending, approved, MultisigProposal, State,
}
use credence_backend.Governance.Multisig.Calls.{Call, create, get, submit, slash, execute, reject}
use credence_backend.Base.{
  nat_eq, String, Bool, true, false, not, ◌&&◌, Option, none, some, List, [], ◌∷◌, ◌==◌, string_eq,
}
use credence_backend.Base.Dict.{Dict, lookup}

abbrev at : String → State → Option MultisigProposal
at target s = lookup target s.proposals

-- The proposal that a call is about.
abbrev pub subject : Call → String
subject (create id _ _) = id
subject (get _ id) = id
subject (submit _ id _ _) = id
subject (slash _ id _) = id
subject (execute id) = id
subject (reject id _) = id

abbrev pub is_final : MultisigStatus → Bool
is_final pending = false
is_final approved = false
is_final _ = true

-- The status and the signatures of a stored proposal.
abbrev pub outcome : String → State → Option (MultisigStatus × Dict String String)
outcome target s = elim (lookup target s.proposals) [
  | none ↦ none
  | some p ↦ some (p.status, p.signatures)
]

-- Every call but `create`, which takes a fresh id.
abbrev pub is_create : Call → Bool
is_create (create _ _ _) = true
is_create _ = false

-- No call of the list creates a proposal under this id.
abbrev pub creates_none : String → List Call → Bool
creates_none target [] = true
creates_none target (c ∷ cs) = not (is_create c && subject c == target) && creates_none target cs
