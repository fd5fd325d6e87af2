-- ===== src/Governance/Multisig/Tests.antt =====
-- The theorems on proposals at a store of one proposal with two signers.
use credence_backend.Governance.Multisig.{
  MultisigProposal, MultisigInput, State, pending, executed, submit_signature, create_proposal,
  execute_proposal,
}
use credence_backend.Governance.Multisig.Invariant.{AllSound}
use credence_backend.Governance.Multisig.Calls.{
  Call, create, submit, slash, execute, run, run-AllSound,
}
use credence_backend.Governance.Multisig.Executions.{executions}
use credence_backend.Governance.Multisig.Finality.{outcome}
use credence_backend.Base.{◌≡◌, refl, some, List, [], ◌∷◌, arith, string_eq}

abbrev input : MultisigInput
input = record {
  signers = "ann" ∷ "bob" ∷ [];
  required_signatures = 2;
  action = "slash_validator";
  payload = "v1";
  ttl_ms = 100;
}

abbrev empty : State
empty = record { proposals = []; events = [] }

empty-AllSound : AllSound empty
empty-AllSound id p found = ground arith

abbrev fresh : MultisigProposal
fresh = record {
  id = "p";
  signers = "ann" ∷ "bob" ∷ [];
  required_signatures = 2;
  action = "slash_validator";
  signatures = ("ann", "sig") ∷ [];
  slashing_votes = [];
  payload = "v1";
  status = pending;
  created_at = 0;
  expires_at = 100;
}

abbrev store : State
store = record { proposals = ("p", fresh) ∷ []; events = [] }

abbrev done : MultisigProposal
done = record fresh { signatures = ("ann", "x") ∷ ("bob", "y") ∷ []; status = executed }

abbrev calls : List Call
calls = create "p" 0 input ∷ submit 1 "p" "ann" "x" ∷ submit 2 "p" "bob" "y" ∷ execute "p" ∷ []

runs_to_executed : outcome "p" (run calls empty) ≡ some (executed, ("ann", "x") ∷ ("bob", "y") ∷ [])
unfolding create_proposal submit_signature execute_proposal
runs_to_executed = refl

run-AllSound_example : AllSound (run calls empty)
run-AllSound_example = run-AllSound calls empty empty-AllSound

abbrev late_calls : List Call
late_calls = submit 3 "p" "ann" "z" ∷ slash 4 "p" "eve" ∷ execute "p" ∷ []

executed_once : executions "p" (run calls empty).events ≡ 1
unfolding create_proposal submit_signature execute_proposal
executed_once = refl
