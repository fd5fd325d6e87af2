-- ===== src/Governance/Slashing/Tests.antt =====
-- The theorems on slash requests at one request with two votes.
use credence_backend.Governance.Slashing.{
  VoteChoice, approve, reject, pending, approved, Vote, SlashRequest, CreateSlashRequestInput,
  Store, create_slash_request, submit_vote,
}
use credence_backend.Governance.Slashing.Voting.{
  AllSound, create_slash_request-AllSound, submit_vote-AllSound,
}
use credence_backend.Base.{String, some, [], ◌∷◌, arith, string_eq}

abbrev other : String
other = "r2"

abbrev input : CreateSlashRequestInput
input = record {
  target_address = "G1";
  reason = "fraud";
  requested_by = "ann";
  threshold = some 2;
  total_signers = some 3;
}

abbrev vote : String → VoteChoice → Vote
vote voter choice = record { voter_id = voter; choice = choice; timestamp = 1 }

abbrev request : SlashRequest
request = record {
  id = "r";
  target_address = "G1";
  reason = "fraud";
  requested_by = "ann";
  created_at = 0;
  votes = vote "ann" approve ∷ vote "bob" reject ∷ [];
  status = pending;
  threshold = 2;
  total_signers = 3;
}

abbrev decided : SlashRequest
decided = record request { votes = vote "ann" approve ∷ vote "bob" approve ∷ []; status = approved }

abbrev store : Store
store = ("r", request) ∷ []

empty-AllSound : AllSound []
empty-AllSound id req found = ground arith

submit_vote-AllSound_example :
    AllSound (submit_vote "r" "ann" approve 1 (create_slash_request "r" 0 input []).1).1
submit_vote-AllSound_example =
    submit_vote-AllSound "r" "ann" approve 1 (create_slash_request "r" 0 input []).1
      (create_slash_request-AllSound "r" other 0 input [] empty-AllSound).0
