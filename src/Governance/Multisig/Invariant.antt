-- ===== src/Governance/Multisig/Invariant.antt =====
-- What holds of every stored proposal, whatever calls are made.
use credence_backend.Governance.Multisig.{
  pending, approved, rejected, executed, expired, MultisigProposal, MultisigInput, State, save,
  emit, is_pending, is_approved, new_proposal, create_proposal, check_expiration, get_proposal,
  with_signature, sign, submit_signature, reject_proposal, vote, add_slashing_vote,
  execute_proposal, slashing_vote_added,
}
use credence_backend.Base.{
  ℕ, ◌+◌, ◌/◌, ◌≤◌, ◌<◌, String, ◌≡◌, ◌⊎◌, inl, inr, true, ◌&&◌, ◌||◌, some, List, [], ◌∷◌, arith,
  ltb, leb, ◌==◌, string_eq, contains, add_elem, length, Option-cases, Bool-cases, ==_iff,
}
use credence_backend.Base.Dict.{Dict, lookup, insert, contains_key, lookup-insert}

-- Every signature is by one of the signers.
abbrev pub AllSigners : List String → Dict String String → Type 0
AllSigners signers [] = Unit
AllSigners signers ((k, v) ∷ d) = (contains k signers ≡ true) × AllSigners signers d

pub record IsSound (p : MultisigProposal) : Type 0 where
  pub two_signers : 2 ≤ length p.signers
  pub requirement_positive : 0 < p.required_signatures
  pub requirement_met_by_signers : p.required_signatures ≤ length p.signers
  pub by_signers : AllSigners p.signers p.signatures
  pub short_while_pending : p.status ≡ pending → length p.signatures < p.required_signatures
  pub enough_once_approved :
      (p.status ≡ approved) ⊎ (p.status ≡ executed) → p.required_signatures ≤ length p.signatures

abbrev pub AllSound : State → Type 0
AllSound s =
    (id : String) (p : MultisigProposal) → lookup id s.proposals ≡ some p → (p.id ≡ id) × IsSound p

AllSigners-insert :
    (signers : List String) (k v : String) (d : Dict String String)
    → contains k signers ≡ true
    → AllSigners signers d
    → AllSigners signers (insert k v d)
AllSigners-insert signers k v [] h a = ground arith
AllSigners-insert signers k v ((j, w) ∷ d) h a = ground (arith, AllSigners-insert signers k v d h)

insert-AllSound : (p : MultisigProposal) (s : State) → AllSound s → IsSound p → AllSound (save p s)
insert-AllSound p s all sound id q found = elim (Bool-cases (p.id == id)) [
  | inl same ↦
      let e : q ≡ p = ground (arith, lookup-insert p.id id p s.proposals) in
      rw e ((==_iff p.id id).0 same, sound)
  | inr other ↦ ground (arith, lookup-insert p.id id p s.proposals, all id q)
]

expired-IsSound : (p : MultisigProposal) → IsSound p → IsSound (record p { status = expired })
expired-IsSound p v = ground arith

pub check_expiration-IsSound :
    (now : ℕ) (p : MultisigProposal) (s : State)
    → IsSound p
    → AllSound s
    → IsSound (check_expiration now p s).0 × AllSound (check_expiration now p s).1
unfolding check_expiration
check_expiration-IsSound now p s v all =
    elim (Bool-cases (is_pending p.status && ltb p.expires_at now)) [
      | inl late ↦
          rw (late, check_expiration)
            (
              expired-IsSound p v,
              insert-AllSound (record p { status = expired }) s all (expired-IsSound p v),
            )
      | inr timely ↦ rw (timely, check_expiration) (v, all)
    ]

with_signature-IsSound :
    (signer signature : String) (p : MultisigProposal)
    → IsSound p
    → p.status ≡ pending
    → contains signer p.signers ≡ true
    → IsSound (with_signature signer signature p)
unfolding with_signature
with_signature-IsSound signer signature p v w h =
    ground (arith, AllSigners-insert p.signers signer signature p.signatures h v.by_signers)

sign-AllSound :
    (signer signature : String) (p : MultisigProposal) (s : State)
    → IsSound p
    → AllSound s
    → AllSound (sign signer signature p s).1
unfolding sign
sign-AllSound signer signature p s v all = elim (Bool-cases (is_pending p.status)) [
  | inr closed ↦ rw (closed, sign) all
  | inl open_still ↦ elim (Bool-cases (contains signer p.signers)) [
    | inr stranger ↦ rw (open_still, stranger, sign) all
    | inl known ↦ elim (Bool-cases (contains_key signer p.signatures)) [
      | inl again ↦ rw (open_still, known, again, sign) all
      | inr first ↦
          let q = with_signature signer signature p in
          let sound : IsSound q =
            with_signature-IsSound signer signature p v (ground arith) known in
          rw (open_still, known, first, sign) (insert-AllSound q s all sound)
    ]
  ]
]

pub submit_signature-AllSound :
    (now : ℕ) (id signer signature : String) (s : State)
    → AllSound s
    → AllSound (submit_signature now id signer signature s).1
unfolding submit_signature
submit_signature-AllSound now id signer signature s all =
    elim (Option-cases (lookup id s.proposals)) [
      | inl missing ↦ rw (missing, submit_signature) all
      | inr (p, found) ↦
          let (v, all') = check_expiration-IsSound now p s (all id p found).1 all in
          rw (found, submit_signature)
            (sign-AllSound signer signature (check_expiration now p s).0
              (check_expiration now p s).1 v all')
    ]

pub reject_proposal-AllSound :
    (id reason : String) (s : State) → AllSound s → AllSound (reject_proposal id reason s).1
unfolding reject_proposal
reject_proposal-AllSound id reason s all = elim (Option-cases (lookup id s.proposals)) [
  | inl missing ↦ rw (missing, reject_proposal) all
  | inr (p, found) ↦ elim (Bool-cases (is_pending p.status || is_approved p.status)) [
    | inl live ↦
        let v = (all id p found).1 in
        let sound : IsSound (record p { status = rejected }) = ground arith in
        rw (found, reject_proposal, live)
          (insert-AllSound (record p { status = rejected }) s all sound)
    | inr done ↦ rw (found, reject_proposal, done) all
  ]
]

pub voted-AllSound :
    (voter : String) (p : MultisigProposal) (s : State)
    → IsSound p
    → AllSound s
    → AllSound (save (record p { slashing_votes = add_elem voter p.slashing_votes }) s)
voted-AllSound voter p s v all =
    insert-AllSound (record p { slashing_votes = add_elem voter p.slashing_votes }) s all
      (ground arith)

vote-AllSound :
    (id voter : String) (p : MultisigProposal) (s : State)
    → IsSound p
    → AllSound s
    → AllSound (vote id voter p s).1
unfolding vote
vote-AllSound id voter p s v all =
    let q : MultisigProposal = record p { slashing_votes = add_elem voter p.slashing_votes } in
    let voted = emit (slashing_vote_added id voter) (save q s) in
    let kept : AllSound voted = voted-AllSound voter p s v all in
    elim (Bool-cases (contains voter p.slashing_votes)) [
      | inl again ↦ rw (again, vote) all
      | inr first ↦ elim (Bool-cases (leb ((length q.signers + 1) / 2) (length q.slashing_votes))) [
        | inl many ↦
            rw (first, many, vote)
              (reject_proposal-AllSound id "Slashing threshold reached" voted kept)
        | inr few ↦ rw (first, few, vote) kept
      ]
    ]

pub add_slashing_vote-AllSound :
    (now : ℕ) (id voter : String) (s : State)
    → AllSound s
    → AllSound (add_slashing_vote now id voter s).1
unfolding add_slashing_vote
add_slashing_vote-AllSound now id voter s all = elim (Option-cases (lookup id s.proposals)) [
  | inl missing ↦ rw (missing, add_slashing_vote) all
  | inr (p, found) ↦
      let (v, all') = check_expiration-IsSound now p s (all id p found).1 all in
      rw (found, add_slashing_vote)
        (vote-AllSound id voter (check_expiration now p s).0 (check_expiration now p s).1 v all')
]

pub execute_proposal-AllSound :
    (id : String) (s : State) → AllSound s → AllSound (execute_proposal id s).1
unfolding execute_proposal
execute_proposal-AllSound id s all = elim (Option-cases (lookup id s.proposals)) [
  | inl missing ↦ rw (missing, execute_proposal) all
  | inr (p, found) ↦ elim (Bool-cases (is_approved p.status)) [
    | inl ready ↦
        let v = (all id p found).1 in
        let sound : IsSound (record p { status = executed }) = ground arith in
        rw (found, execute_proposal, ready)
          (insert-AllSound (record p { status = executed }) s all sound)
    | inr other ↦ rw (found, execute_proposal, other) all
  ]
]

pub get_proposal-AllSound :
    (now : ℕ) (id : String) (s : State) → AllSound s → AllSound (get_proposal now id s).1
unfolding get_proposal
get_proposal-AllSound now id s all = elim (Option-cases (lookup id s.proposals)) [
  | inl missing ↦ rw (missing, get_proposal) all
  | inr (p, found) ↦
      rw (found, get_proposal) (check_expiration-IsSound now p s (all id p found).1 all).1
]

new_proposal-IsSound :
    (id : String) (now : ℕ) (input : MultisigInput)
    → 2 ≤ length input.signers
    → 0 < input.required_signatures
    → input.required_signatures ≤ length input.signers
    → IsSound (new_proposal id now input)
unfolding new_proposal
new_proposal-IsSound id now input two some_needed enough = ground arith

pub create_proposal-AllSound :
    (id : String) (now : ℕ) (input : MultisigInput) (s : State)
    → AllSound s
    → AllSound (create_proposal id now input s).1
unfolding create_proposal
create_proposal-AllSound id now input s all =
    let need = input.required_signatures in
    let people = length input.signers in
    elim (Bool-cases (ltb people 2)) [
      | inl few ↦ rw (few, create_proposal) all
      | inr enough ↦ elim (Bool-cases (ltb need 1 || ltb people need)) [
        | inl bad ↦ rw (enough, bad, create_proposal) all
        | inr good ↦
            let sound : IsSound (new_proposal id now input) =
              new_proposal-IsSound id now input (ground arith) (ground arith) (ground arith) in
            rw (enough, good, create_proposal)
              (insert-AllSound (new_proposal id now input) s all sound)
      ]
    ]
