-- ===== src/Governance/Disputes/Lifecycle.antt =====
-- What the operations do to a dispute, against the transition matrix.
use credence_backend.Governance.Disputes.{
  DisputeInput, Store, validate_dispute_input, new_dispute, submit_dispute, min_deadline_ms,
  max_deadline_ms, is_stellar_address, Complaint, is_empty, address_complaints, reason_complaints,
  deadline_complaints, filed_by_required, filed_by_invalid, respondent_required, respondent_invalid,
}
use credence_backend.Lifecycle.Dispute.{pending}
use credence_backend.Base.{
  ℕ, ◌+◌, ◌≤◌, String, ◌≡◌, ◌≢◌, ◌↔◌, refl, inl, inr, true, false, none, some, [], arith, ◌==◌,
  string_eq, length, ok, is_ok, append-eq-nil, nil-cases, Bool-cases, ==_ne, nat_eq, ==_iff,
}
use credence_backend.Base.Dict.{lookup, lookup-insert_self}
use credence_backend.Base.Text.{codes, trim, utf16_length}

-- What the collected complaints rule out.
abbrev pub IsAcceptable : DisputeInput → Type 0
IsAcceptable input =
    (is_stellar_address input.filed_by ≡ true)
    × (is_stellar_address input.respondent ≡ true)
    × (input.filed_by ≢ input.respondent)
    × (input.evidence ≢ [])
    × (10 ≤ utf16_length (trim (codes input.reason)))
    × (min_deadline_ms ≤ input.deadline_ms)
    × (input.deadline_ms ≤ max_deadline_ms)

address_fine :
    (s : String) (missing invalid : Complaint)
    → address_complaints s missing invalid ≡ []
    → (is_empty s ≡ false) × (is_stellar_address s ≡ true)
address_fine s missing invalid h = ground arith

reason_fine : (s : String) → reason_complaints s ≡ [] → 10 ≤ utf16_length (trim (codes s))
reason_fine s h = ground arith

deadline_fine :
    (ms : ℕ) → deadline_complaints ms ≡ [] → (min_deadline_ms ≤ ms) × (ms ≤ max_deadline_ms)
deadline_fine ms h = ground arith

validate-IsAcceptable :
    (input : DisputeInput) → validate_dispute_input input ≡ [] → IsAcceptable input
unfolding validate_dispute_input
validate-IsAcceptable input h =
    let (filed, h₁) = append-eq-nil _ _ h in
    let (answered, h₂) = append-eq-nil _ _ h₁ in
    let (apart, h₃) = append-eq-nil _ _ h₂ in
    let (reason, h₄) = append-eq-nil _ _ h₃ in
    let (evidence, deadline) = append-eq-nil _ _ h₄ in
    let (from, filed_ok) = address_fine input.filed_by filed_by_required filed_by_invalid filed in
    let (to, answered_ok) =
      address_fine input.respondent respondent_required respondent_invalid answered in
    let (long, short) = deadline_fine input.deadline_ms deadline in
    (
      filed_ok,
      answered_ok,
      (λ same. ground (arith, ==_iff input.filed_by input.respondent)),
      (λ none_given. ground arith),
      reason_fine input.reason reason,
      long,
      short,
    )

stellar-nonempty : (s : String) → is_stellar_address s ≡ true → is_empty s ≡ false
unfolding is_stellar_address
stellar-nonempty s h = elim (Bool-cases (is_empty s)) [
  | inr filled ↦ filled
  | inl empty ↦
      let e : s ≡ "" = (==_iff s "").0 empty in
      let bad : is_stellar_address "" ≡ true = rw e at h in cc (bad)
]

long-nonempty : (s : String) → 10 ≤ utf16_length (trim (codes s)) → is_empty s ≡ false
long-nonempty s h = elim (Bool-cases (is_empty s)) [
  | inr filled ↦ filled
  | inl empty ↦
      let e : s ≡ "" = (==_iff s "").0 empty in
      let bad : 10 ≤ utf16_length (trim (codes "")) = rw e at h in absurd (omega arith)
]

acceptable-validate :
    (input : DisputeInput) → IsAcceptable input → validate_dispute_input input ≡ []
unfolding validate_dispute_input
acceptable-validate input (filed, answered, ne, evidence, reason, early, late) =
    let from : address_complaints input.filed_by filed_by_required filed_by_invalid ≡ [] =
      ground (arith, stellar-nonempty input.filed_by filed) in
    let to : address_complaints input.respondent respondent_required respondent_invalid ≡ [] =
      ground (arith, stellar-nonempty input.respondent answered) in
    let why : reason_complaints input.reason ≡ [] =
      ground (arith, long-nonempty input.reason reason) in
    let shown : (length input.evidence == 0) ≡ false = ground arith in
    let apart : (input.filed_by == input.respondent) ≡ false =
      ==_ne input.filed_by input.respondent ne in
    let when_ok : deadline_complaints input.deadline_ms ≡ [] = ground arith in
    rw (from, to, why, shown, when_ok, apart) (ground arith)

-- An input is accepted exactly when it has two different well-formed addresses, evidence, a reason of
-- ten characters or more after trimming, and a deadline between one hour and thirty days ahead. Then
-- the dispute is stored as pending with that deadline and no resolution; otherwise nothing is stored.
submit_dispute-accepts :
    (id : String) (now : ℕ) (input : DisputeInput) (tenant : String) (store : Store)
    → let (r, store') = submit_dispute id now input tenant store in
      let d = new_dispute id now tenant input in
      ((is_ok r ≡ true) ↔ IsAcceptable input)
      × (is_ok r ≡ true → (r ≡ ok d) × (lookup id store' ≡ some d))
      × (is_ok r ≡ false → store' ≡ store)
      × (d.status ≡ pending)
      × (d.deadline ≡ now + input.deadline_ms)
      × (d.resolution ≡ none)
unfolding submit_dispute
submit_dispute-accepts id now input tenant store = elim (nil-cases (validate_dispute_input input)) [
  | inl none_found ↦
      rw (none_found, submit_dispute)
        (
          ((λ _. validate-IsAcceptable input none_found), λ _. refl),
          (λ _. (refl, lookup-insert_self id (new_dispute id now tenant input) store)),
          (λ h. cc),
          refl,
          refl,
          refl,
        )
  | inr (c, cs, found) ↦
      rw (found, submit_dispute)
        (
          ((λ h. cc), λ a. cc (found, acceptable-validate input a)),
          (λ h. cc),
          (λ _. refl),
          refl,
          refl,
          refl,
        )
]
