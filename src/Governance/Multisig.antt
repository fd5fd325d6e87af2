-- ===== src/Governance/Multisig.antt =====
-- src/services/governance/multisig.ts over the store of inMemoryStorage.ts.
-- The state holds the stored proposals and the events that were emitted, oldest first. A method
-- takes the state and gives its result or its error with the state that is reached; a change that
-- precedes an error stays. `randomUUID` and `new Date()` are arguments. A method runs to its end
-- before the next one starts. Payloads are texts.
pub mod Invariant
pub mod Calls
pub mod Executions
pub mod Finality
pub mod Signing
mod Tests
use credence_backend.Base.{
  ℕ, ◌+◌, ◌/◌, String, ◌≡◌, Bool, true, false, not, ◌&&◌, ◌||◌, Option, none, some, List, [], ◌∷◌,
  ◌++◌, if◌then◌else◌, ltb, leb, Eq, ◌==◌, string_eq, contains, add_elem, length, Result, ok, err,
}
use credence_backend.Base.Dict.{Dict, lookup, insert, contains_key}

pub data MultisigStatus : Type 0 where
  pending approved rejected executed cancelled expired : MultisigStatus

pub record MultisigProposal : Type 0 where
  pub id : String
  pub signers : List String
  pub required_signatures : ℕ
  pub action : String
  pub signatures : Dict String String
  pub slashing_votes : List String
  pub payload : String
  pub status : MultisigStatus
  pub created_at : ℕ
  pub expires_at : ℕ

pub record MultisigInput : Type 0 where
  pub signers : List String
  pub required_signatures : ℕ
  pub action : String
  pub payload : String
  pub ttl_ms : ℕ

pub data Event : Type 0 where
  proposal_created : String → Event
  signature_submitted : String → String → Event
  proposal_approved : String → Event
  slashing_vote_added : String → String → Event
  proposal_executed : String → Event
  proposal_rejected : String → String → Event
  proposal_expired : String → Event

pub data Error : Type 0 where
  too_few_signers : Error
  bad_requirement : Error
  not_found : String → Error
  wrong_status : MultisigStatus → Error
  not_authorized : String → Error
  already_signed : String → Error
  already_voted : String → Error

pub record State : Type 0 where
  pub proposals : Dict String MultisigProposal
  pub events : List Event

-- `saveProposal` and `updateProposal`
abbrev pub save : MultisigProposal → State → State
save p s = record s { proposals = insert p.id p s.proposals }

abbrev pub emit : Event → State → State
emit e s = record s { events = s.events ++ e ∷ [] }

abbrev pub is_pending : MultisigStatus → Bool
is_pending pending = true
is_pending _ = false

abbrev pub is_approved : MultisigStatus → Bool
is_approved approved = true
is_approved _ = false

unfoldable pub new_proposal : String → ℕ → MultisigInput → MultisigProposal
new_proposal id now input = record {
  id = id;
  signers = input.signers;
  required_signatures = input.required_signatures;
  action = input.action;
  signatures = [];
  slashing_votes = [];
  payload = input.payload;
  status = pending;
  created_at = now;
  expires_at = now + input.ttl_ms;
}

unfoldable pub create_proposal :
    String → ℕ → MultisigInput → State → Result Error MultisigProposal × State
unfolding new_proposal
create_proposal id now input s =
    if ltb (length input.signers) 2
    then (err too_few_signers, s)
    else (if ltb input.required_signatures 1 || ltb (length input.signers) input.required_signatures
        then (err bad_requirement, s)
        else (
          ok (new_proposal id now input),
          emit (proposal_created id) (save (new_proposal id now input) s),
        ))

-- `checkExpiration`: the proposal after it, and the state.
unfoldable pub check_expiration : ℕ → MultisigProposal → State → MultisigProposal × State
check_expiration now p s =
    if is_pending p.status && ltb p.expires_at now
    then (
      record p { status = expired },
      emit (proposal_expired p.id) (save (record p { status = expired }) s),
    )
    else (p, s)

unfoldable pub get_proposal : ℕ → String → State → Option MultisigProposal × State
unfolding check_expiration
get_proposal now id s = elim (lookup id s.proposals) [
  | none ↦ (none, s)
  | some p ↦ (some (check_expiration now p s).0, (check_expiration now p s).1)
]

-- The proposal with one more signature, approved when there are enough.
unfoldable pub with_signature : String → String → MultisigProposal → MultisigProposal
with_signature signer signature p =
    let signed = insert signer signature p.signatures in
    if leb p.required_signatures (length signed)
    then record p { signatures = signed; status = approved }
    else record p { signatures = signed }

-- The rest of `submitSignature` once the expiration is checked.
unfoldable pub sign :
    String → String → MultisigProposal → State → Result Error MultisigProposal × State
unfolding with_signature
sign signer signature p s =
    if not (is_pending p.status)
    then (err (wrong_status p.status), s)
    else (if not (contains signer p.signers)
        then (err (not_authorized signer), s)
        else (if contains_key signer p.signatures
            then (err (already_signed signer), s)
            else (let q = with_signature signer signature p in
                let approval = if is_approved q.status then proposal_approved p.id ∷ [] else [] in
                (
                  ok q,
                  save q (record s {
                    events = s.events ++ signature_submitted p.id signer ∷ approval;
                  }),
                ))))

unfoldable pub submit_signature :
    ℕ → String → String → String → State → Result Error MultisigProposal × State
unfolding check_expiration sign
submit_signature now id signer signature s = elim (lookup id s.proposals) [
  | none ↦ (err (not_found id), s)
  | some p ↦ sign signer signature (check_expiration now p s).0 (check_expiration now p s).1
]

unfoldable pub reject_proposal : String → String → State → Result Error (Unit {0}) × State
reject_proposal id reason s = elim (lookup id s.proposals) [
  | none ↦ (err (not_found id), s)
  | some p ↦
      if is_pending p.status || is_approved p.status
      then (ok tt, emit (proposal_rejected id reason) (save (record p { status = rejected }) s))
      else (err (wrong_status p.status), s)
]

-- The rest of `addSlashingVote` once the expiration is checked. `Math.ceil(n / 2)` is `(n + 1) / 2`.
unfoldable pub vote : String → String → MultisigProposal → State → Result Error (Unit {0}) × State
unfolding reject_proposal
vote id voter p s =
    if contains voter p.slashing_votes
    then (err (already_voted voter), s)
    else (let q : MultisigProposal = record p {
      slashing_votes = add_elem voter p.slashing_votes;
    } in
        let voted = emit (slashing_vote_added id voter) (save q s) in
        if leb ((length q.signers + 1) / 2) (length q.slashing_votes)
        then reject_proposal id "Slashing threshold reached" voted
        else (ok tt, voted))

unfoldable pub add_slashing_vote : ℕ → String → String → State → Result Error (Unit {0}) × State
unfolding check_expiration vote
add_slashing_vote now id voter s = elim (lookup id s.proposals) [
  | none ↦ (err (not_found id), s)
  | some p ↦ vote id voter (check_expiration now p s).0 (check_expiration now p s).1
]

unfoldable pub execute_proposal : String → State → Result Error String × State
execute_proposal id s = elim (lookup id s.proposals) [
  | none ↦ (err (not_found id), s)
  | some p ↦
      if is_approved p.status
      then (ok p.payload, emit (proposal_executed id) (save (record p { status = executed }) s))
      else (err (wrong_status p.status), s)
]
