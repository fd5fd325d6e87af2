-- ===== src/Governance/Disputes/Expiry.antt =====
-- How the stored status of a dispute can change, and where it leaves the transition matrix.
use credence_backend.Governance.Disputes.{
  Dispute, Store, resolve_dispute, dismiss_dispute, mark_under_review, Error, too_late,
}
use credence_backend.Lifecycle.Dispute.{
  DisputeStatus, under_review, resolved, dismissed, expired, is_valid_transition,
}
use credence_backend.Base.{
  ℕ, ◌<◌, String, ◌≡◌, ◌≢◌, ◌⊎◌, true, false, some, arith, string_eq, Result, ok, err, ==_iff,
  ==_refl,
}
use credence_backend.Base.Dict.{lookup, lookup-insert}

-- An operation that decides a dispute.
pub data Operation : Type 0 where
  resolve : ℕ → String → Operation
  dismiss : String → Operation
  review : Operation

abbrev pub perform : Operation → String → Store → Result Error Dispute × Store
perform (resolve now text) id store = resolve_dispute now id text store
perform (dismiss text) id store = dismiss_dispute id text store
perform review id store = mark_under_review id store

abbrev pub target : Operation → DisputeStatus
target (resolve _ _) = resolved
target (dismiss _) = dismissed
target review = under_review

-- An operation that succeeds takes the stored dispute along a valid transition to the operation's
-- status and changes nothing of it but the status and the resolution; every other dispute stays.
pub perform-valid :
    (op : Operation) (id other : String) (store : Store) (d d' : Dispute)
    → lookup id store ≡ some d
    → (perform op id store).0 ≡ ok d'
    → (is_valid_transition d.status (target op) ≡ true)
      × (d' ≡ record d { status = target op; resolution = d'.resolution })
      × (lookup id (perform op id store).1 ≡ some d')
      × (other ≢ id → lookup other (perform op id store).1 ≡ lookup other store)
unfolding resolve_dispute dismiss_dispute mark_under_review is_valid_transition
perform-valid (resolve now text) id other store d d' found h = ground (
  arith,
  lookup-insert id id d' store,
  lookup-insert id other d' store,
  ==_refl id,
  ==_iff id other,
)
perform-valid (dismiss text) id other store d d' found h = ground (
  arith,
  lookup-insert id id d' store,
  lookup-insert id other d' store,
  ==_refl id,
  ==_iff id other,
)
perform-valid review id other store d d' found h = ground (
  arith,
  lookup-insert id id d' store,
  lookup-insert id other d' store,
  ==_refl id,
  ==_iff id other,
)

-- `resolveDispute` does not consult the matrix when the deadline has passed: a dispute that was
-- resolved or dismissed in time is then marked as expired, which no valid transition allows.
resolve_dispute-late :
    (now : ℕ) (id text : String) (store : Store) (d : Dispute)
    → lookup id store ≡ some d
    → (d.status ≡ resolved) ⊎ (d.status ≡ dismissed)
    → d.deadline < now
    → ((resolve_dispute now id text store).0 ≡ err too_late)
      × (lookup id (resolve_dispute now id text store).1 ≡ some (record d { status = expired }))
      × (is_valid_transition d.status expired ≡ false)
unfolding resolve_dispute is_valid_transition
resolve_dispute-late now id text store d found s late =
    ground (arith, lookup-insert id id (record d { status = expired }) store, ==_refl id)
