-- ===== src/Governance/Slashing/Voting.antt =====
-- The invariant of the stored slash requests, and what a vote does.
use credence_backend.Governance.Slashing.{
  VoteChoice, pending, Vote, SlashRequest, CreateSlashRequestInput, Store, resolved_threshold,
  resolved_total, new_request, compute_status, create_slash_request, record_vote, result_of,
  submit_vote, is_pending,
}
use credence_backend.Governance.Slashing.Outcome.{pending-room}
use credence_backend.Base.{
  ℕ, ◌≤◌, ◌<◌, String, ◌≡◌, ◌≢◌, ◌↔◌, refl, inl, inr, Bool, true, false, not, ◌&&◌, some, List, [],
  ◌∷◌, ◌++◌, arith, ltb, any, any-append, length, length-append, ok, is_ok, ◌==◌, string_eq, ==_iff,
  ==_refl, ==_comm, Option-cases, Bool-cases,
}
use credence_backend.Base.Dict.{lookup, insert, lookup-insert}

-- No voter has voted twice.
abbrev pub once_each : List Vote → Bool
once_each [] = true
once_each (v ∷ vs) = not (any (λ w. w.voter_id == v.voter_id) vs) && once_each vs

pub record IsSound (req : SlashRequest) : Type 0 where
  pub threshold_positive : 0 < req.threshold
  pub threshold_capped : req.threshold ≤ req.total_signers
  pub votes_capped : length req.votes ≤ req.total_signers
  pub voters_distinct : once_each req.votes ≡ true
  pub status_computed : req.status ≡ compute_status req

abbrev pub AllSound : Store → Type 0
AllSound store = (id : String) (req : SlashRequest) → lookup id store ≡ some req → IsSound req

once_each-snoc :
    (vs : List Vote) (v : Vote)
    → once_each vs ≡ true
    → any (λ w. w.voter_id == v.voter_id) vs ≡ false
    → once_each (vs ++ v ∷ []) ≡ true
once_each-snoc [] v h k = refl
once_each-snoc (u ∷ vs) v h k = ground (
  arith,
  once_each-snoc vs v,
  any-append (λ (w : Vote). w.voter_id == u.voter_id) vs (v ∷ []),
  ==_comm u.voter_id v.voter_id,
)

record_vote-IsSound :
    (voter : String) (choice : VoteChoice) (now : ℕ) (req : SlashRequest)
    → IsSound req
    → req.status ≡ pending
    → any (λ v. v.voter_id == voter) req.votes ≡ false
    → IsSound (record_vote voter choice now req)
unfolding record_vote
record_vote-IsSound voter choice now req s p fresh =
    let vote : Vote = record { voter_id = voter; choice = choice; timestamp = now } in
    let room : length req.votes < req.total_signers = pending-room req (ground arith) in
    record {
      threshold_positive = s.threshold_positive;
      threshold_capped = s.threshold_capped;
      votes_capped = omega (arith, length-append req.votes (vote ∷ []));
      voters_distinct = once_each-snoc req.votes vote s.voters_distinct fresh;
      status_computed = refl;
    }

insert-AllSound :
    (id : String) (req : SlashRequest) (store : Store)
    → AllSound store
    → IsSound req
    → AllSound (insert id req store)
insert-AllSound id req store all s other r found =
    ground (arith, lookup-insert id other req store, all other r)

new_request-IsSound :
    (id : String) (now : ℕ) (input : CreateSlashRequestInput)
    → 0 < resolved_threshold input
    → resolved_threshold input ≤ resolved_total input
    → IsSound (new_request id now input)
unfolding new_request compute_status
new_request-IsSound id now input h k = ground arith

-- Creating a request keeps every stored request sound and those with another id as they were; it
-- succeeds exactly when the threshold is positive and at most the number of signers, and stores
-- nothing otherwise.
pub create_slash_request-AllSound :
    (id other : String) (now : ℕ) (input : CreateSlashRequestInput) (store : Store)
    → AllSound store
    → let (r, store') = create_slash_request id now input store in
      AllSound store'
      × (other ≢ id → lookup other store' ≡ lookup other store)
      × ((is_ok r ≡ true)
          ↔ ((0 < resolved_threshold input) × (resolved_threshold input ≤ resolved_total input)))
      × (is_ok r ≡ false → store' ≡ store)
unfolding create_slash_request
create_slash_request-AllSound id other now input store all =
    let req = new_request id now input in
    elim (Bool-cases (ltb (resolved_threshold input) 1)) [
      | inl low ↦ rw (low, create_slash_request) (all, ground arith, ground arith, ground arith)
      | inr positive ↦ elim (Bool-cases (ltb (resolved_total input) (resolved_threshold input))) [
        | inl few ↦
            rw (positive, few, create_slash_request) (all, ground arith, ground arith, ground arith)
        | inr enough ↦
            rw (positive, enough, create_slash_request)
              (
                insert-AllSound id req store all
                    (new_request-IsSound id now input (ground arith) (ground arith)),
                (λ ne. ground (arith, lookup-insert id other req store, ==_iff id other)),
                ground arith,
                ground arith,
              )
      ]
    ]

-- A vote keeps every stored request sound: no more votes than signers, each voter once, a status
-- that is the outcome of the votes.
pub submit_vote-AllSound :
    (id voter : String) (choice : VoteChoice) (now : ℕ) (store : Store)
    → AllSound store
    → AllSound (submit_vote id voter choice now store).1
unfolding submit_vote
submit_vote-AllSound id voter choice now store all = elim (Option-cases (lookup id store)) [
  | inl missing ↦ rw (missing, submit_vote) all
  | inr (req, found) ↦ elim (Bool-cases (is_pending req.status)) [
    | inl waiting ↦ elim (Bool-cases (any (λ v. v.voter_id == voter) req.votes)) [
      | inl again ↦ rw (found, submit_vote, waiting, again) all
      | inr fresh ↦
          rw (found, submit_vote, waiting, fresh)
            (insert-AllSound id (record_vote voter choice now req) store all
              (record_vote-IsSound voter choice now req (all id req found) (ground arith) fresh))
    ]
    | inr closed ↦ rw (found, submit_vote, closed) all
  ]
]

-- A vote is accepted exactly when its request is stored and pending and the voter has not voted on
-- it; then the request is the stored one with that vote added. In every other case nothing is
-- stored, and no other request changes in any case.
submit_vote-effect :
    (id voter other : String) (choice : VoteChoice) (now : ℕ) (store : Store) (req : SlashRequest)
    → lookup id store ≡ some req
    → let (r, store') = submit_vote id voter choice now store in
      let voted = record_vote voter choice now req in
      let accepts = is_pending req.status && not (any (λ v. v.voter_id == voter) req.votes) in
      (accepts ≡ true
        → (r ≡ ok (some (result_of voter choice voted))) × (lookup id store' ≡ some voted))
      × (accepts ≡ false → (is_ok r ≡ false) × (store' ≡ store))
      × (other ≢ id → lookup other store' ≡ lookup other store)
unfolding submit_vote
submit_vote-effect id voter other choice now store req found =
    let voted = record_vote voter choice now req in
    ground (
      arith,
      lookup-insert id id voted store,
      lookup-insert id other voted store,
      ==_refl id,
      ==_iff id other,
    )

-- A vote as a call: request, voter, choice and time.
abbrev pub Call : Type 0
Call = String × String × VoteChoice × ℕ

abbrev pub submit_all : List Call → Store → Store
submit_all [] store = store
submit_all ((id, voter, choice, now) ∷ calls) store =
    submit_all calls (submit_vote id voter choice now store).1

submit_vote-resolved :
    (id voter target : String) (choice : VoteChoice) (now : ℕ) (store : Store) (req : SlashRequest)
    → lookup target store ≡ some req
    → req.status ≢ pending
    → lookup target (submit_vote id voter choice now store).1 ≡ some req
unfolding submit_vote
submit_vote-resolved id voter target choice now store req found done =
    elim (Option-cases (lookup id store)) [
      | inl missing ↦ rw (missing, submit_vote) found
      | inr (other, there) ↦ ground (
        arith,
        lookup-insert id target (record_vote voter choice now other) store,
        ==_iff id target,
      )
    ]

-- Once a request is approved or rejected no votes of any kind change it.
submit_all-resolved :
    (calls : List Call) (target : String) (store : Store) (req : SlashRequest)
    → lookup target store ≡ some req
    → req.status ≢ pending
    → lookup target (submit_all calls store) ≡ some req
submit_all-resolved [] target store req found done = found
submit_all-resolved ((id, voter, choice, now) ∷ calls) target store req found done =
    submit_all-resolved calls target (submit_vote id voter choice now store).1 req
      (submit_vote-resolved id voter target choice now store req found done) done
