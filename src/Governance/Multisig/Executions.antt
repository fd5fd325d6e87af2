-- ===== src/Governance/Multisig/Executions.antt =====
-- The events of executions that a call emits.
use credence_backend.Governance.Multisig.{
  MultisigProposal, State, Event, proposal_created, signature_submitted, proposal_approved,
  slashing_vote_added, proposal_executed, proposal_rejected, proposal_expired, is_approved, save,
  emit, create_proposal, check_expiration, get_proposal, with_signature, sign, submit_signature,
  reject_proposal, vote, add_slashing_vote, execute_proposal,
}
use credence_backend.Governance.Multisig.Calls.{
  Call, create, get, submit, slash, execute, reject, step,
}
use credence_backend.Base.{
  ℕ, ◌+◌, String, ◌≡◌, refl, inl, inr, Bool, true, false, some, List, [], ◌∷◌, ◌++◌, arith,
  if◌then◌else◌, ◌==◌, nat_eq, string_eq, add_elem, Option-cases, Bool-cases, ==_iff,
}
use credence_backend.Base.Dict.{lookup}

abbrev is_execution : String → Event → Bool
is_execution target (proposal_executed id) = id == target
is_execution target _ = false

-- How often the execution of a proposal was emitted.
abbrev pub executions : String → List Event → ℕ
executions target [] = 0
executions target (e ∷ es) =
    let rest = executions target es in if is_execution target e then rest + 1 else rest

executions-append :
    (target : String) (es fs : List Event)
    → executions target (es ++ fs) ≡ executions target es + executions target fs
executions-append target [] fs = omega arith
executions-append target (e ∷ es) fs = ground (arith, executions-append target es fs)

check_expiration-executions :
    (now : ℕ) (target : String) (p : MultisigProposal) (s : State)
    → executions target (check_expiration now p s).1.events ≡ executions target s.events
unfolding check_expiration
check_expiration-executions now target p s =
    ground (arith, executions-append target s.events (proposal_expired p.id ∷ []))

approval-executions :
    (target id : String) (approves : Bool)
    → executions target (if approves then proposal_approved id ∷ [] else []) ≡ 0
approval-executions target id true = refl
approval-executions target id false = refl

sign-executions :
    (signer signature target : String) (p : MultisigProposal) (s : State)
    → executions target (sign signer signature p s).1.events ≡ executions target s.events
unfolding sign
sign-executions signer signature target p s =
    let approval =
      if is_approved (with_signature signer signature p).status
      then proposal_approved p.id ∷ []
      else [] in
    ground (
      arith,
      executions-append target s.events (signature_submitted p.id signer ∷ approval),
      approval-executions target p.id (is_approved (with_signature signer signature p).status),
    )

reject_proposal-executions :
    (id reason target : String) (s : State)
    → executions target (reject_proposal id reason s).1.events ≡ executions target s.events
unfolding reject_proposal
reject_proposal-executions id reason target s = elim (Option-cases (lookup id s.proposals)) [
  | inl missing ↦ ground arith
  | inr (p, found) ↦
      ground (arith, executions-append target s.events (proposal_rejected id reason ∷ []))
]

vote-executions :
    (id voter target : String) (p : MultisigProposal) (s : State)
    → executions target (vote id voter p s).1.events ≡ executions target s.events
unfolding vote
vote-executions id voter target p s =
    let q : MultisigProposal = record p { slashing_votes = add_elem voter p.slashing_votes } in
    let voted = emit (slashing_vote_added id voter) (save q s) in
    ground (
      arith,
      executions-append target s.events (slashing_vote_added id voter ∷ []),
      reject_proposal-executions id "Slashing threshold reached" target voted,
    )

-- A call that does not execute the proposal emits no execution of it; nor does one that executes it when
-- it is not approved.
pub step-executions :
    (c : Call) (target : String) (s : State) (p : MultisigProposal)
    → lookup target s.proposals ≡ some p
    → is_approved p.status ≡ false
    → executions target (step c s).events ≡ executions target s.events
unfolding create_proposal get_proposal submit_signature add_slashing_vote execute_proposal
step-executions (create id now input) target s p found f =
    ground (arith, executions-append target s.events (proposal_created id ∷ []))
step-executions (get now id) target s p found f = elim (Option-cases (lookup id s.proposals)) [
  | inl missing ↦ ground arith
  | inr (q, there) ↦ ground (arith, check_expiration-executions now target q s)
]
step-executions (submit now id signer signature) target s p found f =
    elim (Option-cases (lookup id s.proposals)) [
      | inl missing ↦ ground arith
      | inr (q, there) ↦
          let (q', s') = check_expiration now q s in
          ground (
            arith,
            check_expiration-executions now target q s,
            sign-executions signer signature target q' s',
          )
    ]
step-executions (slash now id voter) target s p found f =
    elim (Option-cases (lookup id s.proposals)) [
      | inl missing ↦ ground arith
      | inr (q, there) ↦
          let (q', s') = check_expiration now q s in
          ground (
            arith,
            check_expiration-executions now target q s,
            vote-executions id voter target q' s',
          )
    ]
step-executions (execute id) target s p found f = elim (Bool-cases (id == target)) [
  | inl same ↦ ground (arith, (==_iff id target).0 same)
  | inr other ↦ elim (Option-cases (lookup id s.proposals)) [
    | inl missing ↦ ground arith
    | inr (q, there) ↦ ground (arith, executions-append target s.events (proposal_executed id ∷ []))
  ]
]
step-executions (reject id reason) target s p found f =
    reject_proposal-executions id reason target s
