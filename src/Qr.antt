-- ===== src/Qr.antt =====
-- common/utils/qr-signing.util.ts: the signed and the compact QR token formats. What the code calls
-- of Node (`crypto`, `Buffer`, `JSON`) is the parameter `Runtime`.
pub mod Laws
pub mod Compact
pub mod Signed
pub mod Toy
mod Tests
use creative_backend.Base.{
  ℕ, String, Bool, true, false, not, ◌&&◌, ◌||◌, Option, none, some, List, [], ◌∷◌, leb, eqb, ltb,
  ◌==◌, if◌then◌else◌, length, all,
}
use Prim.Native.Nat.{zero, suc}
use Prim.Native.Char.{Char, code}
use Prim.Native.String.{◌++◌, count}
use text.Mathlib.Text.{starts_with}
use creative_backend.Base.Result.{Result, ok, err, ◌>>=◌, ◌>>◌, throw_if}
use creative_backend.Base.Text.{is_empty, trim, split_dot, every}
use creative_backend.Base.Json.{Json, str, Fields, end, field, obj, get_text}
use creative_backend.Runtime.{Runtime}

pub data QrError : Type 0 where
  token_id_required : QrError
  invalid_signed_format invalid_signed_signature invalid_signed_payload : QrError
  invalid_compact_format invalid_compact_token_id : QrError
  invalid_compact_signature invalid_compact_payload : QrError

pub record QrPayload : Type 0 where
  pub token_id : String
  pub event_id : String
  pub registration_id : String
  pub registration_public_id : String
  pub attendee_type_id : String
  pub attendee_type_code : String
  pub issued_at : String
  pub valid_from : String
  pub valid_until : String
  pub nonce : String

unfoldable pub payload_fields : QrPayload → Fields
payload_fields p = field "tokenId" (str p.token_id) (
    field "eventId" (str p.event_id) (
      field "registrationId" (str p.registration_id) (
        field "registrationPublicId" (str p.registration_public_id) (
          field "attendeeTypeId" (str p.attendee_type_id) (
            field "attendeeTypeCode" (str p.attendee_type_code) (
              field "issuedAt" (str p.issued_at) (
                field "validFrom" (str p.valid_from)
                  (field "validUntil" (str p.valid_until) (field "nonce" (str p.nonce) end)))))))))

abbrev pub compact_qr_prefix : String
compact_qr_prefix = "Q2"

abbrev pub compact_qr_signature_bytes : ℕ
compact_qr_signature_bytes = 16

abbrev pub max_token_id_length : ℕ
max_token_id_length = 128

-- `/^[a-zA-Z0-9_-]+$/` on one character
unfoldable pub is_token_char : Char → Bool
is_token_char c =
    let k = code c in
    (leb 97 k && leb k 122)
    || (leb 65 k && leb k 90)
    || (leb 48 k && leb k 57)
    || eqb k 95
    || eqb k 45

-- `/^[a-zA-Z0-9_-]+$/.test(text)`
unfoldable pub is_token_text : String → Bool
is_token_text s = not (is_empty s) && every is_token_char s

-- `subarray(0, n)`
abbrev pub take {ℓ} : {A : Type ℓ} → ℕ → List A → List A
take zero xs = []
take (suc n) [] = []
take (suc n) (x ∷ xs) = x ∷ take n xs

-- `[a, b, extra] = split('.')` with `a` and `b` not empty and `extra` undefined
abbrev pub two_parts : List String → Option (String × String)
two_parts (a ∷ b ∷ []) = if is_empty a || is_empty b then none else some (a, b)
two_parts _ = none

-- `[prefix, tokenId, signature, extra]` under the test of `verifyCompactQrTokenV2`
abbrev pub compact_parts : List String → Option (String × String)
compact_parts (p ∷ id ∷ sig ∷ []) =
    if not (p == compact_qr_prefix) || is_empty id || is_empty sig then none else some (id, sig)
compact_parts _ = none

abbrev pub require {ℓ} : {A : Type ℓ} {E : Type ℓ} → Option A → E → Result E A
require none e = err e
require (some a) e = ok a

-- `!parsed || typeof parsed !== 'object' || Array.isArray(parsed)`, on the result of `JSON.parse`
abbrev pub as_object : Option Json → Option Fields
as_object (some (obj fs)) = some fs
as_object _ = none

-- `typeof value === 'string' && value.trim().length > 0`
abbrev pub is_filled : Option String → Bool
is_filled none = false
is_filled (some s) = not (is_empty (trim s))

abbrev pub required_fields : List String
required_fields =
    "tokenId" ∷ "eventId" ∷ "registrationId" ∷ "registrationPublicId" ∷ "attendeeTypeId"
    ∷ "attendeeTypeCode" ∷ "issuedAt" ∷ "validFrom" ∷ "validUntil" ∷ "nonce" ∷ []

-- the ten required fields are strings that are not blank
unfoldable pub is_complete : Fields → Bool
is_complete payload = all (λ key. is_filled (get_text key payload)) required_fields

-- the reading of `tokenId` from a legacy payload
abbrev pub legacy_token_id : Option String → Option String
legacy_token_id none = none
legacy_token_id (some s) = if is_empty (trim s) then none else some (trim s)

module _ (node : Runtime) where
  unfoldable pub sign_compact_token_id : String → String → String
  sign_compact_token_id token_id secret = node.base64url (
      take compact_qr_signature_bytes
        (node.hmac_sha256 secret (compact_qr_prefix ++ ("." ++ token_id))))

  unfoldable pub sign_encoded_payload : String → String → String
  sign_encoded_payload encoded secret = node.base64url (node.hmac_sha256 secret encoded)

  unfoldable pub signatures_equal : String → String → Bool
  signatures_equal left right =
      eqb (length (node.utf8 left)) (length (node.utf8 right))
      && node.timing_safe_equal (node.utf8 left) (node.utf8 right)

  unfoldable pub encode_base64_url : String → String
  encode_base64_url value = node.base64url (node.utf8 value)

  unfoldable pub decode_base64_url : String → String
  decode_base64_url value = node.from_utf8 (node.from_base64url value)

  unfoldable pub create_signed_qr_token : QrPayload → String → String
  create_signed_qr_token payload secret =
      let encoded = encode_base64_url (node.json_stringify (obj (payload_fields payload))) in
      encoded ++ ("." ++ sign_encoded_payload encoded secret)

  unfoldable pub reconstruct_signed_qr_token : QrPayload → String → String
  reconstruct_signed_qr_token payload signature =
      encode_base64_url (node.json_stringify (obj (payload_fields payload))) ++ ("." ++ signature)

  unfoldable pub create_compact_qr_token : String → String → Result QrError String
  create_compact_qr_token token_id secret =
      let id = trim token_id in
      if is_empty id
      then err QrError.token_id_required
      else ok (compact_qr_prefix ++ ("." ++ (id ++ ("." ++ sign_compact_token_id id secret))))

  unfoldable pub verify_signed_qr_token : String → String → Result QrError Fields
  verify_signed_qr_token qr_token secret = do
    (encoded, signature) ←
        require (two_parts (split_dot (trim qr_token))) QrError.invalid_signed_format
    throw_if (not (signatures_equal signature (sign_encoded_payload encoded secret)))
        QrError.invalid_signed_signature
    payload ←
        require (as_object (node.json_parse (decode_base64_url encoded)))
          QrError.invalid_signed_payload
    throw_if (not (is_complete payload)) QrError.invalid_signed_payload
    ok payload

  unfoldable pub verify_compact_qr_token_v2 : String → String → Result QrError String
  verify_compact_qr_token_v2 qr_token secret = do
    (token_id, signature) ←
        require (compact_parts (split_dot qr_token)) QrError.invalid_compact_format
    throw_if (ltb max_token_id_length (count token_id) || not (is_token_text token_id))
        QrError.invalid_compact_token_id
    throw_if (not (is_token_text signature)) QrError.invalid_compact_signature
    throw_if (not (signatures_equal signature (sign_compact_token_id token_id secret)))
        QrError.invalid_compact_signature
    ok token_id

  unfoldable pub verify_legacy_compact_qr_token : String → String → Result QrError String
  verify_legacy_compact_qr_token qr_token secret = do
    (encoded, signature) ← require (two_parts (split_dot qr_token)) QrError.invalid_compact_format
    throw_if (not (signatures_equal signature (sign_encoded_payload encoded secret)))
        QrError.invalid_compact_signature
    payload ←
        require (as_object (node.json_parse (decode_base64_url encoded)))
          QrError.invalid_compact_payload
    require (legacy_token_id (get_text "tokenId" payload)) QrError.invalid_compact_payload

  unfoldable pub verify_compact_qr_token : String → String → Result QrError String
  unfolding verify_compact_qr_token_v2 verify_legacy_compact_qr_token
  verify_compact_qr_token qr_token secret =
      let token = trim qr_token in
      if starts_with token (compact_qr_prefix ++ ".")
      then verify_compact_qr_token_v2 token secret
      else verify_legacy_compact_qr_token token secret
