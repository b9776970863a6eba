-- ===== src/Offline.antt =====
-- modules/offline/offline-qr.service.ts: the QR codes that devices sign while they are offline.
mod Payload
pub mod Keys
pub mod Rotation
pub mod Compact
pub mod Trust
pub mod Tests
pub use Payload.{VerifiedOfflineQr}
unfoldable pub use Payload.{
  normalize_offline_qr_payload, assert_offline_qr_payload, parse_signed_offline_qr,
  stable_stringify, hash_payload,
}
use creative_backend.Base.{
  ℕ, String, Bool, true, false, not, ◌&&◌, ◌||◌, Option, none, some, List, leb, ltb, eqb, ◌==◌,
  if◌then◌else◌, find, select, length,
}
use creative_backend.Base.Result.{Result, ok, err, ◌>>=◌, ◌>>◌, throw_if}
use creative_backend.Base.Json.{Json, nat, Fields, get, get_text}
use creative_backend.Base.Text.{is_empty}
use creative_backend.Runtime.{Runtime}
use creative_backend.Store.{Db, Device, DeviceStatus, DeviceOfflineKey, OfflineKeyStatus, Exception}

abbrev or_throw : {A : Type 0} → Option A → String → Result Exception A
or_throw none text = err (Exception.bad_request text)
or_throw (some a) text = ok a

-- `new Date(payload[field])`
abbrev pub date_of : Runtime → Fields → String → Option ℕ
date_of node payload name = elim (get_text name payload) [
  | none ↦ none
  | some text ↦ node.parse_date text
]

-- `payload.eventId !== expectedEventId`, where the payload's may be missing
abbrev pub text_is : Option String → String → Bool
text_is none t = false
text_is (some s) t = s == t

abbrev pub is_active_device : DeviceStatus → Bool
is_active_device DeviceStatus.active = true
is_active_device _ = false

abbrev pub is_revoked_key : OfflineKeyStatus → Bool
is_revoked_key OfflineKeyStatus.revoked = true
is_revoked_key _ = false

-- the test `validUntil is NaN or before now`
abbrev is_expired : Option ℕ → ℕ → Bool
is_expired none now = true
is_expired (some t) now = ltb t now

abbrev after_key_end : Option ℕ → ℕ → Bool
after_key_end none issued = false
after_key_end (some t) issued = ltb t issued

-- `!key.revokedAt || issuedAt >= key.revokedAt`
abbrev not_before_revocation : Option ℕ → ℕ → Bool
not_before_revocation none issued = true
not_before_revocation (some t) issued = leb t issued

-- `key.version === payload.issuerKeyVersion`
abbrev pub is_version : Option Json → ℕ → Bool
is_version (some (nat v)) k = eqb k v
is_version _ k = false

-- `tokensEqual`
unfoldable pub tokens_equal : Runtime → String → String → Bool
tokens_equal node left right =
    eqb (length (node.utf8 left)) (length (node.utf8 right))
    && node.timing_safe_equal (node.utf8 left) (node.utf8 right)

-- A date that is invalid compares as false.
unfoldable pub assert_key_usable_for_payload : DeviceOfflineKey → ℕ → Result Exception Unit
assert_key_usable_for_payload key issued_at = do
  throw_if (ltb issued_at key.valid_from)
      (Exception.bad_request "Offline QR predates issuer key validity")
  throw_if (after_key_end key.valid_until issued_at)
      (Exception.bad_request "Offline QR was issued after key rotation")
  throw_if (is_revoked_key key.status && not_before_revocation key.revoked_at issued_at)
      (Exception.bad_request "Offline QR issuer key is revoked")
  ok tt

unfoldable pub assert_ed25519_public_key : Runtime → String → Result Exception Unit
assert_ed25519_public_key node public_key =
    throw_if (not (text_is (node.public_key_type public_key) "ed25519"))
      (Exception.bad_request "Invalid Ed25519 public key")

-- the device with its key of the version that the payload names
unfoldable pub find_issuer : Db → Fields → Option Device
find_issuer db payload = find (λ d. text_is (get_text "issuerDeviceId" payload) d.id) db.devices

unfoldable pub find_issuer_key : Db → Device → Fields → Option DeviceOfflineKey
find_issuer_key db issuer payload =
    find (λ k. (k.device_id == issuer.id) && is_version (get "issuerKeyVersion" payload) k.version)
      db.offline_keys

-- `expectedEventId && payload.eventId !== expectedEventId`
abbrev pub event_differs : Option String → Option String → Bool
event_differs none actual = false
event_differs (some expected) actual = not (is_empty expected) && not (text_is actual expected)

unfoldable pub verify_signed_offline_qr :
    Runtime → Db → (now : ℕ) → String → Option String → Result Exception VerifiedOfflineQr
verify_signed_offline_qr node db now signed expected_event_id = do
  parsed ← parse_signed_offline_qr node signed
  issued_at ← assert_offline_qr_payload node parsed.payload
  throw_if (event_differs expected_event_id (get_text "eventId" parsed.payload))
      (Exception.bad_request "Offline QR event mismatch")
  throw_if (is_expired (date_of node parsed.payload "validUntil") now)
      (Exception.bad_request "Offline QR expired")
  issuer ← or_throw (find_issuer db parsed.payload) "Offline QR issuer is not trusted"
  throw_if (not (text_is (get_text "eventId" parsed.payload) issuer.event_id))
      (Exception.bad_request "Offline QR issuer is not trusted")
  key ← or_throw (find_issuer_key db issuer parsed.payload) "Offline QR issuer key not found"
  assert_key_usable_for_payload key issued_at
  assert_ed25519_public_key node key.public_key
  throw_if
      (not (
        node.verify_signature (node.utf8 parsed.encoded_payload) key.public_key
          (node.from_base64url parsed.signature)))
      (Exception.bad_request "Invalid offline QR signature")
  ok parsed
