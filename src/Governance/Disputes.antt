-- ===== src/Governance/Disputes.antt =====
-- src/services/governance/disputes.ts over the transition matrix of disputeStateMachine.ts.
-- The module's `store` is passed along. `randomUUID` and `new Date()` are arguments; times are
-- milliseconds. Inputs have the types that the source declares, so the `typeof` tests pass.
pub mod Lifecycle
pub mod Expiry
mod Tests
use credence_backend.Base.{
  ℕ, ◌+◌, ◌*◌, String, ◌≡◌, Bool, true, false, not, ◌&&◌, ◌||◌, Option, none, some, List, [], ◌∷◌,
  ◌++◌, if◌then◌else◌, ltb, leb, Eq, ◌==◌, nat_eq, string_eq, all, length, Result, ok, err,
}
use credence_backend.Base.Dict.{Dict, lookup, insert}
use credence_backend.Base.Text.{codes, trim, utf16_length}
use credence_backend.Lifecycle.Dispute.{
  DisputeStatus, pending, under_review, resolved, dismissed, expired, try_dispute_transition,
}
use credence_backend.StateTransition.Matrix.{TransitionResult}

pub record Dispute : Type 0 where
  pub id : String
  pub tenant_id : String
  pub filed_by : String
  pub respondent : String
  pub reason : String
  pub evidence : List String
  pub status : DisputeStatus
  pub created_at : ℕ
  pub deadline : ℕ
  pub resolution : Option String

pub record DisputeInput : Type 0 where
  pub filed_by : String
  pub respondent : String
  pub reason : String
  pub evidence : List String
  pub deadline_ms : ℕ

abbrev pub Store : Type 0
Store = Dict String Dispute

-- 1 hour
abbrev pub min_deadline_ms : ℕ
min_deadline_ms = 60 * 60 * 1000

-- 30 days
abbrev pub max_deadline_ms : ℕ
max_deadline_ms = 30 * 24 * 60 * 60 * 1000

-- `[A-Z2-7]`
abbrev pub is_base32 : ℕ → Bool
is_base32 c = (leb b'A' c && leb c b'Z') || (leb b'2' c && leb c b'7')

abbrev pub matches_stellar : List ℕ → Bool
matches_stellar [] = false
matches_stellar (c ∷ cs) = c == b'G' && (length cs == 55 && all is_base32 cs)

-- `STELLAR_ADDRESS_RE.test`
unfoldable pub is_stellar_address : String → Bool
is_stellar_address address = matches_stellar (codes address)

-- The messages that `validateDisputeInput` collects.
pub data Complaint : Type 0 where
  filed_by_required : Complaint
  filed_by_invalid : Complaint
  respondent_required : Complaint
  respondent_invalid : Complaint
  same_parties : Complaint
  reason_required : Complaint
  reason_short : Complaint
  no_evidence : Complaint
  deadline_short : Complaint
  deadline_long : Complaint

-- The tests that take a list of complaints to a longer one, in order.
abbrev pub when : Bool → Complaint → List Complaint
when true c = c ∷ []
when false c = []

abbrev pub is_empty : String → Bool
is_empty s = s == ""

abbrev pub address_complaints : String → Complaint → Complaint → List Complaint
address_complaints s missing invalid =
    if is_empty s then missing ∷ [] else when (not (is_stellar_address s)) invalid

abbrev pub reason_complaints : String → List Complaint
reason_complaints s =
    if is_empty s
    then reason_required ∷ []
    else when (ltb (utf16_length (trim (codes s))) 10) reason_short

abbrev pub deadline_complaints : ℕ → List Complaint
deadline_complaints ms =
    if ltb ms min_deadline_ms
    then deadline_short ∷ []
    else when (ltb max_deadline_ms ms) deadline_long

unfoldable pub validate_dispute_input : DisputeInput → List Complaint
validate_dispute_input input =
    address_complaints input.filed_by filed_by_required filed_by_invalid
    ++ (address_complaints input.respondent respondent_required respondent_invalid
        ++ (when
              (not (is_empty input.filed_by)
                && (not (is_empty input.respondent) && input.filed_by == input.respondent))
              same_parties
            ++ (reason_complaints input.reason
                ++ (when (length input.evidence == 0) no_evidence
                    ++ deadline_complaints input.deadline_ms))))

pub data Error : Type 0 where
  invalid : List Complaint → Error
  not_found : String → Error
  too_late : Error
  text_required : Error
  illegal : DisputeStatus → DisputeStatus → Error

unfoldable pub new_dispute : String → ℕ → String → DisputeInput → Dispute
new_dispute id now tenant_id input = record {
  id = id;
  tenant_id = tenant_id;
  filed_by = input.filed_by;
  respondent = input.respondent;
  reason = input.reason;
  evidence = input.evidence;
  status = pending;
  created_at = now;
  deadline = now + input.deadline_ms;
  resolution = none;
}

unfoldable pub submit_dispute :
    String → ℕ → DisputeInput → String → Store → Result Error Dispute × Store
unfolding new_dispute
submit_dispute id now input tenant_id store = elim (validate_dispute_input input) [
  | [] ↦ (
    ok (new_dispute id now tenant_id input),
    insert id (new_dispute id now tenant_id input) store,
  )
  | c ∷ cs ↦ (err (invalid (c ∷ cs)), store)
]

unfoldable pub reset_store : Store → Store
reset_store store = []

unfoldable pub get_dispute : String → Store → Option Dispute
get_dispute id store = lookup id store

abbrev pub is_expired : ℕ → Dispute → Bool
is_expired now d = ltb d.deadline now

-- `!text || text.trim().length === 0`
abbrev pub is_blank : String → Bool
is_blank s = is_empty s || utf16_length (trim (codes s)) == 0

-- The dispute under its new status, if the matrix allows the step.
abbrev pub moved : DisputeStatus → Option String → Dispute → Result Error Dispute
moved to resolution d =
    if (try_dispute_transition d.status to).success
    then ok (record d { status = to; resolution = resolution })
    else err (illegal d.status to)

-- A change of the stored dispute, or the error and the store as it was.
abbrev pub stored : String → Result Error Dispute → Store → Result Error Dispute × Store
stored id (ok d) store = (ok d, insert id d store)
stored id (err e) store = (err e, store)

unfoldable pub resolve_dispute : ℕ → String → String → Store → Result Error Dispute × Store
unfolding try_dispute_transition
resolve_dispute now id resolution store = elim (lookup id store) [
  | none ↦ (err (not_found id), store)
  | some d ↦
      if is_expired now d
      then (err too_late, insert id (record d { status = expired }) store)
      else (if is_blank resolution
          then (err text_required, store)
          else stored id (moved resolved (some resolution) d) store)
]

unfoldable pub dismiss_dispute : String → String → Store → Result Error Dispute × Store
unfolding try_dispute_transition
dismiss_dispute id reason store = elim (lookup id store) [
  | none ↦ (err (not_found id), store)
  | some d ↦
      if is_blank reason
      then (err text_required, store)
      else stored id (moved dismissed (some reason) d) store
]

unfoldable pub mark_under_review : String → Store → Result Error Dispute × Store
unfolding try_dispute_transition
mark_under_review id store = elim (lookup id store) [
  | none ↦ (err (not_found id), store)
  | some d ↦ stored id (moved under_review d.resolution d) store
]
