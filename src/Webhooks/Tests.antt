-- ===== src/Webhooks/Tests.antt =====
-- A webhook under a digest that joins the key and the text, byte by byte.
use credence_backend.Webhooks.Hex.{is_byte, decode_hex}
use credence_backend.Webhooks.Admission.{
  Hmac, accepted, replay, conflict, AdmissionInput, signing_material, body_fingerprint, claim,
  admit_incoming_webhook, purge,
}
use credence_backend.Webhooks.Once.{completes, sizes, run, accepted-claim}
use credence_backend.Webhooks.Signatures.{IsSigned, IsFresh, admit-IsSigned}
use credence_backend.Base.Text.{digits}
use credence_backend.Base.{
  ℕ, ◌%◌, ◌<◌, ◌≡◌, ◌↔◌, refl, true, false, none, List, [], ◌∷◌, ◌++◌, arith, if◌then◌else◌, ◌==◌,
  codes_eq, all, is_ok,
}

abbrev cut : List ℕ → List ℕ
cut [] = []
cut (c ∷ cs) = c % 256 ∷ cut cs

abbrev joined : Hmac
joined k m = cut (k ++ m)

cut-bytes : (cs : List ℕ) → all is_byte (cut cs) ≡ true
cut-bytes [] = refl
cut-bytes (c ∷ cs) = let small : c % 256 < 256 = omega arith in ground (arith, cut-bytes cs)

joined-bytes : (k m : List ℕ) → all is_byte (joined k m) ≡ true
joined-bytes k m = cut-bytes (k ++ m)

-- The digest of the text `v1:t:e:7:b` under the key `s`.
abbrev input : AdmissionInput
input = record {
  tenant_id = "t";
  event_id = "e";
  timestamp = 7;
  raw_body = "b";
  signature = "v1=7376313a743a653a373a62";
  secret = "s";
}

abbrev other : AdmissionInput
other = record input { raw_body = "c" }

seven : digits 16 1234 ≡ b'1' ∷ b'2' ∷ b'3' ∷ b'4' ∷ []
unfolding digits
seven = refl

first : (claim joined 100 50 202 none input []).0.outcome ≡ accepted
unfolding claim purge
first = refl

accepted-claim_example :
    (claim joined 149 50 202 none other (
      run joined
        (completes "t" "e" "b" 200 none ∷ sizes 120 ∷ [])
        (claim joined 100 50 202 none input []).1)).0.outcome
    ≡ (if body_fingerprint joined input.raw_body == body_fingerprint joined other.raw_body
        then replay
        else conflict)
accepted-claim_example =
    accepted-claim joined 100 50 149 50 202 202 none none input other
      (completes "t" "e" "b" 200 none ∷ sizes 120 ∷ []) [] first refl (omega arith) (refl, refl)

admit-IsSigned_example :
    let (answer, s') = admit_incoming_webhook joined 10 300 1000 50 input [] in
    ((is_ok answer ≡ true) ↔ (IsSigned joined input × IsFresh 7 10 300))
    × (is_ok answer ≡ true → s' ≡ (claim joined 1000 50 202 none input []).1)
    × (is_ok answer ≡ false → s' ≡ [])
admit-IsSigned_example = admit-IsSigned joined joined-bytes 10 300 1000 50 input [] refl refl

input-IsSigned : IsSigned joined input
unfolding signing_material decode_hex digits
input-IsSigned = (refl, refl, refl, omega arith, refl, refl)
