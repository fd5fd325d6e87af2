-- ===== src/Webhooks/Once.antt =====
-- An event that was accepted is not accepted again while its record lasts.
use credence_backend.Webhooks.Admission.{
  Hmac, accepted, replay, conflict, AdmissionInput, AdmissionRecord, Store, key, purge, size,
  body_fingerprint, new_record, claim, complete,
}
use credence_backend.Base.{
  ℕ, ◌+◌, ◌<◌, String, ◌≡◌, refl, inl, inr, Bool, true, Option, some, List, [], ◌∷◌, arith,
  if◌then◌else◌, ltb, ◌==◌, codes_eq, all, Bool-cases, Option-cases, ==_iff,
}
use credence_backend.Base.Dict.{lookup, lookup-insert, lookup-insert_self}

purge-keeps :
    (now : ℕ) (k : List ℕ) (s : Store) {r : AdmissionRecord}
    → lookup k s ≡ some r
    → now < r.expires_at
    → lookup k (purge now s) ≡ some r
unfolding purge
purge-keeps now k [] h live = ground arith
purge-keeps now k ((j, q) ∷ d) {r} h live = ground (arith, purge-keeps now k d {r = r})

-- The calls on a store that do not delete: each with its clock, where it reads one.
pub data Call : Type 0 where
  claims : ℕ → ℕ → ℕ → Option String → AdmissionInput → Call
  completes : String → String → String → ℕ → Option String → Call
  sizes : ℕ → Call

-- The call does not read a clock that has come to `end`.
abbrev pub before : ℕ → Call → Bool
before end (claims now _ _ _ _) = ltb now end
before end (completes _ _ _ _ _) = true
before end (sizes now) = ltb now end

module _ (hmac : Hmac) where
  abbrev pub step : Call → Store → Store
  step (claims now ttl status body i) s = (claim hmac now ttl status body i s).1
  step (completes tenant event raw status body) s = (complete hmac tenant event raw status body s).1
  step (sizes now) s = (size now s).1

  abbrev pub run : List Call → Store → Store
  run [] s = s
  run (c ∷ cs) s = run cs (step c s)

  -- The store has a record under the key, with the fingerprint and the end of its time.
  abbrev Holds : List ℕ → List ℕ → ℕ → Store → Type 0
  Holds k fingerprint end s =
      (r : AdmissionRecord) × (lookup k s ≡ some r)
      × (r.fingerprint ≡ fingerprint)
      × (r.expires_at ≡ end)

  claim-Holds :
      (k fingerprint : List ℕ) (end now ttl status : ℕ) (body : Option String) (i : AdmissionInput)
      (s : Store)
      → now < end
      → Holds k fingerprint end s
      → Holds k fingerprint end (claim hmac now ttl status body i s).1
  unfolding claim
  claim-Holds k fingerprint end now ttl status body i s live (r, found, same, ends) =
      let kept = purge-keeps now k s {r = r} found (ground arith) in
      elim (Option-cases (lookup (key i.tenant_id i.event_id) (purge now s))) [
        | inr (q, other) ↦ rw (other, claim) (r, kept, same, ends)
        | inl none_other ↦
            rw (none_other, claim)
              (
                r,
                ground (
                  arith,
                  kept,
                  lookup-insert (key i.tenant_id i.event_id) k
                      (new_record hmac now ttl status body i) (purge now s),
                  ==_iff (key i.tenant_id i.event_id) k,
                ),
                same,
                ends,
              )
      ]

  complete-Holds :
      (k fingerprint : List ℕ) (end : ℕ) (tenant event raw : String) (status : ℕ)
      (body : Option String) (s : Store)
      → Holds k fingerprint end s
      → Holds k fingerprint end (complete hmac tenant event raw status body s).1
  unfolding complete
  complete-Holds k fingerprint end tenant event raw status body s (r, found, same, ends) =
      elim (Option-cases (lookup (key tenant event) s)) [
        | inl missing ↦ rw (missing, complete) (r, found, same, ends)
        | inr (q, there) ↦ elim (Bool-cases (q.fingerprint == body_fingerprint hmac raw)) [
          | inr other ↦ rw (there, complete, other) (r, found, same, ends)
          | inl equal ↦
              let q' : AdmissionRecord = record q { status_code = status; response_body = body } in
              elim (Bool-cases (key tenant event == k)) [
                | inl here ↦
                    rw (there, complete, equal)
                      (
                        q',
                        ground (
                          arith,
                          lookup-insert (key tenant event) k q' s,
                          ==_iff (key tenant event) k,
                        ),
                        ground (arith, ==_iff (key tenant event) k),
                        ground (arith, ==_iff (key tenant event) k),
                      )
                | inr apart ↦
                    rw (there, complete, equal)
                      (r, ground (arith, lookup-insert (key tenant event) k q' s), same, ends)
              ]
        ]
      ]

  step-Holds :
      (k fingerprint : List ℕ) (end : ℕ) (c : Call) (s : Store)
      → before end c ≡ true
      → Holds k fingerprint end s
      → Holds k fingerprint end (step c s)
  step-Holds k fp end (claims now ttl status body i) s b h =
      claim-Holds k fp end now ttl status body i s (ground arith) h
  step-Holds k fp end (completes tenant event raw status body) s b h =
      complete-Holds k fp end tenant event raw status body s h
  step-Holds k fp end (sizes now) s b (r, found, same, ends) =
      unfold size in (r, purge-keeps now k s {r = r} found (ground arith), same, ends)

  run-Holds :
      (k fingerprint : List ℕ) (end : ℕ) (cs : List Call) (s : Store)
      → all (before end) cs ≡ true
      → Holds k fingerprint end s
      → Holds k fingerprint end (run cs s)
  run-Holds k fp end [] s b h = h
  run-Holds k fp end (c ∷ cs) s b h =
      run-Holds k fp end cs (step c s) (ground arith) (step-Holds k fp end c s (ground arith) h)

  accepted-Holds :
      (now ttl status : ℕ) (body : Option String) (i : AdmissionInput) (s : Store)
      → (claim hmac now ttl status body i s).0.outcome ≡ accepted
      → Holds
          (key i.tenant_id i.event_id)
          (body_fingerprint hmac i.raw_body)
          (now + ttl)
          (claim hmac now ttl status body i s).1
  unfolding claim new_record
  accepted-Holds now ttl status body i s first =
      elim (Option-cases (lookup (key i.tenant_id i.event_id) (purge now s))) [
        | inl free ↦
            rw (free, claim)
              (
                new_record hmac now ttl status body i,
                lookup-insert_self (key i.tenant_id i.event_id)
                    (new_record hmac now ttl status body i) (purge now s),
                refl,
                refl,
              )
        | inr (q, taken) ↦ ground arith
      ]

  -- Once a claim of an event was accepted, then for its time to live, whatever else is claimed,
  -- completed or counted, no claim of that event is accepted: one with the same fingerprint of the body
  -- is a replay and any other is a conflict.
  pub accepted-claim :
      (now ttl later ttl' status status' : ℕ) (body body' : Option String) (i j : AdmissionInput)
      (cs : List Call) (s : Store)
      → (claim hmac now ttl status body i s).0.outcome ≡ accepted
      → all (before (now + ttl)) cs ≡ true
      → later < now + ttl
      → (j.tenant_id ≡ i.tenant_id) × (j.event_id ≡ i.event_id)
      → let s' = run cs (claim hmac now ttl status body i s).1 in
        (claim hmac later ttl' status' body' j s').0.outcome ≡ (
          if body_fingerprint hmac i.raw_body == body_fingerprint hmac j.raw_body
          then replay
          else conflict)
  unfolding claim
  accepted-claim now ttl later ttl' status status' body body' i j cs s first calls live
        (tenant, event) =
      let k = key i.tenant_id i.event_id in
      let (r, found, same, ends) =
        run-Holds k (body_fingerprint hmac i.raw_body) (now + ttl) cs
          (claim hmac now ttl status body i s).1 calls
          (accepted-Holds now ttl status body i s first) in
      ground (
        arith,
        purge-keeps later k (run cs (claim hmac now ttl status body i s).1) {r = r} found
            (ground arith),
      )
