-- ===== src/Webhooks/Admission.antt =====
-- src/services/webhooks/admission.ts. `createHmac('sha256', key).update(text).digest()` is the argument
-- `hmac` on code points, with UTF-8 as a part of it; bodies are texts. Clocks are arguments, times are
-- natural numbers. The body of an answer is a text, or `none` for `null`.
use credence_backend.Webhooks.Hex.{encode_hex, decode_hex}
use credence_backend.Base.{
  ℕ, ◌+◌, ◌-◌, String, Bool, true, false, not, ◌||◌, Option, none, some, List, [], ◌∷◌, ◌++◌,
  if◌then◌else◌, ltb, leb, ◌==◌, nat_eq, codes_eq, drop, length, Result, ok, err,
}
use credence_backend.Base.Dict.{Dict, lookup, insert, erase}
use credence_backend.Base.Text.{codes, starts_with, digits}

abbrev pub Hmac : Type 0
Hmac = List ℕ → List ℕ → List ℕ

pub data Outcome : Type 0 where
  accepted replay conflict : Outcome

pub record AdmissionInput : Type 0 where
  pub tenant_id : String
  pub event_id : String
  pub timestamp : ℕ
  pub raw_body : String
  pub signature : String
  pub secret : String

pub record AdmissionRecord : Type 0 where
  pub tenant_id : String
  pub event_id : String
  pub fingerprint : List ℕ
  pub status_code : ℕ
  pub response_body : Option String
  pub created_at : ℕ
  pub expires_at : ℕ

pub record AdmissionResult : Type 0 where
  pub outcome : Outcome
  pub record_of : AdmissionRecord

pub data Error : Type 0 where
  identity_required timestamp_invalid secret_required signature_invalid : Error
  clock_invalid tolerance_invalid timestamp_out_of_range record_conflict : Error

abbrev pub is_empty : String → Bool
is_empty s = elim (codes s) [ [] ↦ true | _ ∷ _ ↦ false ]

-- `Number.isSafeInteger` on a natural number.
abbrev pub is_safe : ℕ → Bool
is_safe n = ltb n 9007199254740992

abbrev pub default_tolerance_seconds : ℕ
default_tolerance_seconds = 300

abbrev pub default_ttl_ms : ℕ
default_ttl_ms = 86400000

-- A text `v1:tenant:event:timestamp:body`; a safe integer has at most 16 digits.
unfoldable pub signing_material : AdmissionInput → List ℕ
signing_material i =
    codes "v1:"
    ++ codes i.tenant_id
    ++ codes ":"
    ++ codes i.event_id
    ++ codes ":"
    ++ digits 16 i.timestamp
    ++ codes ":"
    ++ codes i.raw_body

-- The signature without its optional mark `v1=`.
abbrev pub supplied_text : String → List ℕ
supplied_text s = if starts_with (codes s) (codes "v1=") then drop 3 (codes s) else codes s

unfoldable pub validate_freshness : ℕ → ℕ → ℕ → Result Error (Unit {0})
validate_freshness timestamp now tolerance =
    if not (is_safe now)
    then err clock_invalid
    else (if not (is_safe tolerance)
        then err tolerance_invalid
        else (if ltb tolerance ((now - timestamp) + (timestamp - now))
            then err timestamp_out_of_range
            else ok tt))

abbrev pub Store : Type 0
Store = Dict (List ℕ) AdmissionRecord

-- The key of the map: both ids with a zero between them.
abbrev pub key : String → String → List ℕ
key tenant event = codes tenant ++ 0 ∷ codes event

-- `purge`
unfoldable pub purge : ℕ → Store → Store
purge now [] = []
purge now ((k, r) ∷ d) =
    let rest = purge now d in if leb r.expires_at now then rest else (k, r) ∷ rest

unfoldable pub get : String → String → Store → Option AdmissionRecord
get tenant event s = lookup (key tenant event) s

unfoldable pub delete : String → String → Store → Store
delete tenant event s = erase (key tenant event) s

unfoldable pub clear : Store → Store
clear s = []

unfoldable pub size : ℕ → Store → ℕ × Store
unfolding purge
size now s = (length (purge now s), purge now s)

module _ (hmac : Hmac) where
  unfoldable pub body_fingerprint : String → List ℕ
  body_fingerprint body = encode_hex (hmac (codes "credence-webhook-fingerprint") (codes body))

  unfoldable pub sign_incoming_webhook : AdmissionInput → String → Result Error (List ℕ)
  sign_incoming_webhook i secret =
      if is_empty secret
      then err secret_required
      else ok (encode_hex (hmac (codes secret) (signing_material i)))

  unfoldable pub verify_incoming_signature : AdmissionInput → Result Error (Unit {0})
  unfolding sign_incoming_webhook
  verify_incoming_signature i =
      if is_empty i.tenant_id || is_empty i.event_id
      then err identity_required
      else (if not (is_safe i.timestamp) || i.timestamp == 0
          then err timestamp_invalid
          else (if is_empty i.secret
              then err secret_required
              else elim (sign_incoming_webhook i i.secret) [
                | err e ↦ err e
                | ok signature ↦
                    let expected = decode_hex signature in
                    let supplied = decode_hex (supplied_text i.signature) in
                    if not (length supplied == length expected) || not (supplied == expected)
                    then err signature_invalid
                    else ok tt
              ]))

  unfoldable pub new_record : ℕ → ℕ → ℕ → Option String → AdmissionInput → AdmissionRecord
  new_record now ttl status body i = record {
    tenant_id = i.tenant_id;
    event_id = i.event_id;
    fingerprint = body_fingerprint i.raw_body;
    status_code = status;
    response_body = body;
    created_at = now;
    expires_at = now + ttl;
  }

  unfoldable pub claim :
      ℕ → ℕ → ℕ → Option String → AdmissionInput → Store → AdmissionResult × Store
  unfolding purge new_record
  claim now ttl status body i s =
      let s' = purge now s in
      elim (lookup (key i.tenant_id i.event_id) s') [
        | some r ↦ (
          record {
            outcome = if r.fingerprint == body_fingerprint i.raw_body then replay else conflict;
            record_of = r;
          },
          s',
        )
        | none ↦
            let r = new_record now ttl status body i in
            (record { outcome = accepted; record_of = r }, insert (key i.tenant_id i.event_id) r s')
      ]

  unfoldable pub complete :
      String → String → String → ℕ → Option String → Store → Result Error AdmissionRecord × Store
  complete tenant event raw_body status body s = elim (lookup (key tenant event) s) [
    | none ↦ (err record_conflict, s)
    | some r ↦
        if r.fingerprint == body_fingerprint raw_body
        then (let r' : AdmissionRecord = record r { status_code = status; response_body = body } in
            (ok r', insert (key tenant event) r' s))
        else (err record_conflict, s)
  ]

  -- `claim` has the status 202 and the body `null` by default; the second clock is the store's.
  unfoldable pub admit_incoming_webhook :
      ℕ → ℕ → ℕ → ℕ → AdmissionInput → Store → Result Error AdmissionResult × Store
  unfolding verify_incoming_signature claim
  admit_incoming_webhook now_seconds tolerance now ttl i s = elim (verify_incoming_signature i) [
    | err e ↦ (err e, s)
    | ok _ ↦ elim (validate_freshness i.timestamp now_seconds tolerance) [
      | err e ↦ (err e, s)
      | ok _ ↦ (ok (claim now ttl 202 none i s).0, (claim now ttl 202 none i s).1)
    ]
  ]
