-- ===== src/Webhooks/Signatures.antt =====
-- Which incoming webhooks pass, and that nothing is stored of the others.
use credence_backend.Webhooks.Hex.{decode_hex, is_byte, decode_hex-encode_hex}
use credence_backend.Webhooks.Admission.{
  Hmac, AdmissionInput, Store, is_empty, is_safe, signing_material, supplied_text,
  validate_freshness, sign_incoming_webhook, verify_incoming_signature, claim,
  admit_incoming_webhook,
}
use credence_backend.Base.{
  ℕ, ◌+◌, ◌≤◌, ◌<◌, ◌≡◌, ◌↔◌, inl, inr, true, false, none, List, arith, nat_eq, codes_eq, all,
  is_ok, Result-cases, ==_iff,
}
use credence_backend.Base.Text.{codes}

-- The texts that the check needs are there, the timestamp is a positive safe integer, and the
-- signature is, in hexadecimal, the keyed digest of the signing material.
abbrev pub IsSigned : Hmac → AdmissionInput → Type 0
IsSigned hmac i =
    (is_empty i.tenant_id ≡ false)
    × (is_empty i.event_id ≡ false)
    × (is_empty i.secret ≡ false)
    × (0 < i.timestamp)
    × (is_safe i.timestamp ≡ true)
    × (decode_hex (supplied_text i.signature) ≡ hmac (codes i.secret) (signing_material i))

abbrev pub IsFresh : ℕ → ℕ → ℕ → Type 0
IsFresh timestamp now tolerance = (now ≤ timestamp + tolerance) × (timestamp ≤ now + tolerance)

module _ (hmac : Hmac) (bytes : (k m : List ℕ) → all is_byte (hmac k m) ≡ true) where
  verify-IsSigned :
      (i : AdmissionInput) → (is_ok (verify_incoming_signature hmac i) ≡ true) ↔ IsSigned hmac i
  unfolding verify_incoming_signature sign_incoming_webhook
  verify-IsSigned i =
      let digest = hmac (codes i.secret) (signing_material i) in
      ground (
        arith,
        decode_hex-encode_hex digest (bytes (codes i.secret) (signing_material i)),
        ==_iff (decode_hex (supplied_text i.signature)) digest,
      )

  -- For a digest function that gives bytes and clocks that are safe integers: a webhook is admitted
  -- exactly when it is signed with its secret and its timestamp is within the tolerance of the clock,
  -- on either side. Then the store is the one after the claim; otherwise it stays as it is.
  pub admit-IsSigned :
      (now_seconds tolerance now ttl : ℕ) (i : AdmissionInput) (s : Store)
      → is_safe now_seconds ≡ true
      → is_safe tolerance ≡ true
      → let (answer, s') = admit_incoming_webhook hmac now_seconds tolerance now ttl i s in
        ((is_ok answer ≡ true) ↔ (IsSigned hmac i × IsFresh i.timestamp now_seconds tolerance))
        × (is_ok answer ≡ true → s' ≡ (claim hmac now ttl 202 none i s).1)
        × (is_ok answer ≡ false → s' ≡ s)
  unfolding admit_incoming_webhook validate_freshness
  admit-IsSigned now_seconds tolerance now ttl i s safe safe' =
      elim (Result-cases (verify_incoming_signature hmac i)) [
        | inl (u, signed) ↦ ground (arith, verify-IsSigned i)
        | inr (e, refused) ↦ ground (arith, verify-IsSigned i)
      ]
