-- ===== src/Governance/Multisig/Signing.antt =====
-- When a signature, a slashing vote or an execution is accepted, and what it does.
use credence_backend.Governance.Multisig.{
  approved, rejected, expired, MultisigProposal, State, is_pending, is_approved, with_signature,
  submit_signature, add_slashing_vote,
}
use credence_backend.Base.{
  ℕ, ◌+◌, ◌/◌, String, ◌≡◌, Bool, true, false, not, ◌&&◌, ◌||◌, some, arith, if◌then◌else◌, ltb,
  leb, string_eq, contains, add_elem, length, is_ok, ==_refl,
}
use credence_backend.Base.Dict.{lookup, insert, contains_key, lookup-insert}

-- The proposal takes a signature of this signer at this time.
abbrev pub takes : ℕ → String → MultisigProposal → Bool
takes now signer p =
    (is_pending p.status && not (ltb p.expires_at now))
    && (contains signer p.signers && not (contains_key signer p.signatures))

-- A signature on a stored proposal is accepted exactly when the proposal is pending and not past its
-- expiry and the signer is one of its signers and has not signed. Then the proposal has the
-- signature, and is approved exactly when it now has as many as required. Otherwise the call is
-- refused, and the stored proposal is the old one, or the old one marked as expired when it was
-- pending past its expiry.
submit_signature-effect :
    (now : ℕ) (id signer signature : String) (s : State) (p : MultisigProposal)
    → lookup id s.proposals ≡ some p
    → p.id ≡ id
    → let (r, s') = submit_signature now id signer signature s in
      let signed = insert signer signature p.signatures in
      (takes now signer p ≡ true
        → (lookup id s'.proposals
            ≡ some (record p {
              signatures = signed;
              status = if leb p.required_signatures (length signed) then approved else p.status;
            }))
          × (is_ok r ≡ true))
      × (takes now signer p ≡ false
          → (is_ok r ≡ false)
            × (lookup id s'.proposals
                ≡ some (record p {
                  status =
                      if is_pending p.status && ltb p.expires_at now then expired else p.status;
                })))
unfolding submit_signature
submit_signature-effect now id signer signature s p found key = ground (
  arith,
  lookup-insert id id (with_signature signer signature p) s.proposals,
  lookup-insert id id (record p { status = expired }) s.proposals,
  ==_refl id,
)

-- A first slashing vote of a voter, on a stored proposal that is not pending past its expiry, is
-- stored whatever the proposal's status. When the votes reach half of the signers, rounded up, a
-- pending or approved proposal is rejected; a proposal in any other status keeps its status, and the
-- call reports an error although the vote is stored.
add_slashing_vote-effect :
    (now : ℕ) (id voter : String) (s : State) (p : MultisigProposal)
    → lookup id s.proposals ≡ some p
    → p.id ≡ id
    → is_pending p.status && ltb p.expires_at now ≡ false
    → contains voter p.slashing_votes ≡ false
    → let (r, s') = add_slashing_vote now id voter s in
      let votes = add_elem voter p.slashing_votes in
      let many = leb ((length p.signers + 1) / 2) (length votes) in
      let live = is_pending p.status || is_approved p.status in
      (lookup id s'.proposals
        ≡ some (record p {
          slashing_votes = votes;
          status = if many && live then rejected else p.status;
        }))
      × (is_ok r ≡ (not many || live))
unfolding add_slashing_vote
add_slashing_vote-effect now id voter s p found key timely first =
    let q : MultisigProposal = record p { slashing_votes = add_elem voter p.slashing_votes } in
    ground (
      arith,
      lookup-insert id id q s.proposals,
      lookup-insert id id (record q { status = rejected }) (insert id q s.proposals),
      ==_refl id,
    )
