-- ===== src/Governance/Slashing.antt =====
-- src/services/governance/slashingVotes.ts: slash requests and the votes on them.
-- The module's `store` is passed along. `randomBytes` and `new Date()` are the arguments `id` and
-- `now`. Counts, thresholds, limits and offsets are natural numbers; a difference that the source
-- compares is written with the subtracted number on the other side.
pub mod Outcome
pub mod Voting
mod Tests
use credence_backend.Base.{
  ℕ, ◌+◌, String, ◌≡◌, ◌↔◌, Bool, true, false, not, Option, none, some, List, [], ◌∷◌, ◌++◌, arith,
  if◌then◌else◌, ltb, leb, Eq, ◌==◌, nat_beq, string_eq, filter, any, length, Result, ok, err, take,
  drop,
}
use credence_backend.Base.Dict.{Dict, lookup, insert, values}

pub data VoteChoice : Type 0 where
  approve reject : VoteChoice

pub data SlashRequestStatus : Type 0 where
  pending approved rejected : SlashRequestStatus

pub record Vote : Type 0 where
  pub voter_id : String
  pub choice : VoteChoice
  pub timestamp : ℕ

pub record SlashRequest : Type 0 where
  pub id : String
  pub target_address : String
  pub reason : String
  pub requested_by : String
  pub created_at : ℕ
  pub votes : List Vote
  pub status : SlashRequestStatus
  pub threshold : ℕ
  pub total_signers : ℕ

pub record CreateSlashRequestInput : Type 0 where
  pub target_address : String
  pub reason : String
  pub requested_by : String
  pub threshold : Option ℕ
  pub total_signers : Option ℕ

pub record VoteResult : Type 0 where
  pub slash_request_id : String
  pub voter_id : String
  pub choice : VoteChoice
  pub approve_count : ℕ
  pub reject_count : ℕ
  pub status : SlashRequestStatus

abbrev pub Store : Type 0
Store = Dict String SlashRequest

abbrev pub default_threshold : ℕ
default_threshold = 3

abbrev pub default_total_signers : ℕ
default_total_signers = 5

abbrev pub is_approve : Vote → Bool
is_approve v = elim v.choice [ approve ↦ true | reject ↦ false ]

abbrev pub is_reject : Vote → Bool
is_reject v = elim v.choice [ approve ↦ false | reject ↦ true ]

unfoldable pub compute_status : SlashRequest → SlashRequestStatus
compute_status req =
    let approve_count = length (filter is_approve req.votes) in
    let reject_count = length (filter is_reject req.votes) in
    if leb req.threshold approve_count
    then approved
    else (if ltb (approve_count + req.total_signers) (req.threshold + length req.votes)
        then rejected
        else (if ltb req.total_signers (reject_count + req.threshold) then rejected else pending))

-- The errors that the module throws.
pub data Error : Type 0 where
  threshold_too_low : Error
  too_few_signers : Error
  already_resolved : SlashRequestStatus → Error
  already_voted : String → Error

-- `a ?? b`
abbrev pub or_else : Option ℕ → ℕ → ℕ
or_else none d = d
or_else (some n) d = n

abbrev pub resolved_threshold : CreateSlashRequestInput → ℕ
resolved_threshold input = or_else input.threshold default_threshold

abbrev pub resolved_total : CreateSlashRequestInput → ℕ
resolved_total input = or_else input.total_signers default_total_signers

unfoldable pub new_request : String → ℕ → CreateSlashRequestInput → SlashRequest
new_request id now input = record {
  id = id;
  target_address = input.target_address;
  reason = input.reason;
  requested_by = input.requested_by;
  created_at = now;
  votes = [];
  status = pending;
  threshold = resolved_threshold input;
  total_signers = resolved_total input;
}

unfoldable pub create_slash_request :
    String → ℕ → CreateSlashRequestInput → Store → Result Error SlashRequest × Store
unfolding new_request
create_slash_request id now input store =
    if ltb (resolved_threshold input) 1
    then (err threshold_too_low, store)
    else (if ltb (resolved_total input) (resolved_threshold input)
        then (err too_few_signers, store)
        else (ok (new_request id now input), insert id (new_request id now input) store))

abbrev pub is_pending : SlashRequestStatus → Bool
is_pending pending = true
is_pending _ = false

-- The request with a further vote, its status computed anew.
unfoldable pub record_vote : String → VoteChoice → ℕ → SlashRequest → SlashRequest
unfolding compute_status
record_vote voter choice now req =
    let voted : SlashRequest = record req {
      votes = req.votes ++ record { voter_id = voter; choice = choice; timestamp = now } ∷ [];
    } in
    record voted { status = compute_status voted }

unfoldable pub result_of : String → VoteChoice → SlashRequest → VoteResult
result_of voter choice req = record {
  slash_request_id = req.id;
  voter_id = voter;
  choice = choice;
  approve_count = length (filter is_approve req.votes);
  reject_count = length (filter is_reject req.votes);
  status = req.status;
}

unfoldable pub submit_vote :
    String → String → VoteChoice → ℕ → Store → Result Error (Option VoteResult) × Store
unfolding record_vote result_of
submit_vote slash_request_id voter choice now store = elim (lookup slash_request_id store) [
  | none ↦ (ok none, store)
  | some req ↦
      if not (is_pending req.status)
      then (err (already_resolved req.status), store)
      else (if any (λ v. v.voter_id == voter) req.votes
          then (err (already_voted voter), store)
          else (let voted = record_vote voter choice now req in
              (ok (some (result_of voter choice voted)), insert slash_request_id voted store)))
]

unfoldable pub get_slash_request : String → Store → Option SlashRequest
get_slash_request id store = lookup id store

abbrev pub status_rank : SlashRequestStatus → ℕ
status_rank pending = 0
status_rank approved = 1
status_rank rejected = 2

-- The page and the total; the source's defaults are a limit of 20 and an offset of 0.
unfoldable pub list_slash_requests :
    Option SlashRequestStatus → ℕ → ℕ → Store → List SlashRequest × ℕ
list_slash_requests status limit offset store =
    let filtered : List SlashRequest = elim status [
      | none ↦ values store
      | some s ↦ filter (λ r. nat_beq (status_rank r.status) (status_rank s)) (values store)
    ] in
    (take limit (drop offset filtered), length filtered)

unfoldable pub reset_store : Store → Store
reset_store store = []
