-- ===== src/Governance/Disputes/Tests.antt =====
-- The theorems on disputes at one dispute.
use credence_backend.Governance.Disputes.{
  Dispute, DisputeInput, validate_dispute_input, mark_under_review, is_stellar_address,
  filed_by_required, respondent_invalid, reason_short, no_evidence, deadline_short,
}
use credence_backend.Governance.Disputes.Expiry.{perform, review, perform-valid}
use credence_backend.Lifecycle.Dispute.{pending, under_review, resolved, is_valid_transition}
use credence_backend.Base.{String, ◌≡◌, ◌≢◌, refl, true, none, some, [], ◌∷◌, string_eq}
use credence_backend.Base.Dict.{lookup}

abbrev other : String
other = "e"

abbrev input : DisputeInput
input = record {
  filed_by = "GAAAAAAAAAAAAAAAAAAAAAAAAAAAAAAAAAAAAAAAAAAAAAAAAAAAAAA2";
  respondent = "GBBBBBBBBBBBBBBBBBBBBBBBBBBBBBBBBBBBBBBBBBBBBBBBBBBBBBB7";
  reason = "  late delivery  ";
  evidence = "photo" ∷ [];
  deadline_ms = 3600000;
}

abbrev bad_input : DisputeInput
bad_input = record {
  filed_by = "";
  respondent = "GB";
  reason = "  short ";
  evidence = [];
  deadline_ms = 5;
}

complaints :
    (validate_dispute_input input ≡ [])
    × (validate_dispute_input bad_input
        ≡ filed_by_required ∷ respondent_invalid ∷ reason_short ∷ no_evidence ∷ deadline_short ∷ [])
unfolding validate_dispute_input is_stellar_address
complaints = (refl, refl)

abbrev filed : Dispute
filed = record {
  id = "d";
  tenant_id = "t";
  filed_by = input.filed_by;
  respondent = input.respondent;
  reason = input.reason;
  evidence = input.evidence;
  status = pending;
  created_at = 5;
  deadline = 3600005;
  resolution = none;
}

abbrev reviewed : Dispute
reviewed = record filed { status = under_review }

abbrev settled : Dispute
settled = record filed { status = resolved; resolution = some "refund" }

perform-valid_example :
    (is_valid_transition filed.status under_review ≡ true)
    × (reviewed ≡ record filed { status = under_review; resolution = reviewed.resolution })
    × (lookup "d" (perform review "d" (("d", filed) ∷ [])).1 ≡ some reviewed)
    × (other ≢ "d"
        → lookup other (perform review "d" (("d", filed) ∷ [])).1
          ≡ lookup other (("d", filed) ∷ []))
unfolding mark_under_review
perform-valid_example = perform-valid review "d" other (("d", filed) ∷ []) filed reviewed refl refl
