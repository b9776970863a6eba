-- ===== src/Sync/Identity.antt =====
-- Who an offline registration is, and the checks on its code before any row is touched.
use creative_backend.Base.{
  String, Bool, true, false, not, none, some, List, [], ◌∷◌, ◌==◌, eqb, if◌then◌else◌,
}
use Prim.Native.String.{◌++◌}
use creative_backend.Base.Result.{Result, ok, err, throw_if, ◌>>=◌, ◌>>◌}
use creative_backend.Base.Text.{is_empty}
use creative_backend.Base.Json.{Json, null, bool, nat, str, Fields, get, get_text}
use creative_backend.Offline.{VerifiedOfflineQr, verify_signed_offline_qr, text_is}
use creative_backend.Scans.Context.{Env}
use creative_backend.Store.{Db, Exception}
use creative_backend.Sync.Rows.{SubmitSyncBatchDto}
use creative_backend.Sync.Payload.{get_string}

-- `!expected` on a JSON value
abbrev is_falsy : Json → Bool
is_falsy null = true
is_falsy (bool b) = not b
is_falsy (nat n) = eqb n 0
is_falsy (str s) = is_empty s
is_falsy _ = false

abbrev is_text : Json → String → Bool
is_text (str s) t = s == t
is_text _ t = false

-- the loop of `assertOfflineRegistrationPayloadMatchesQr`
unfoldable pub assert_fields_match : (payload qr : Fields) → List String → Result Exception Unit
unfolding get_string
assert_fields_match payload qr [] = ok tt
assert_fields_match payload qr (name ∷ names) =
    let rest = assert_fields_match payload qr names in
    elim (get name qr) [
      | none ↦ rest
      | some expected ↦ if is_falsy expected then rest else elim (get_string payload name) [
        | err e ↦ err e
        | ok value ↦
            if is_text expected value
            then rest
            else err (
                Exception.bad_request
                  ("Offline registration " ++ (name ++ " does not match signed QR")))
      ]
    ]

abbrev pub compared_fields : List String
compared_fields =
    "eventId" ∷ "offlineRegistrationOperationId" ∷ "offlineRegistrationId" ∷ "offlineQrToken"
    ∷ "attendeeTypeId" ∷ []

-- who a registration is, on the device that made it
pub record Identity : Type 0 where
  pub event_id : String
  pub issuer_device_id : String
  pub operation_id : String
  pub registration_id : String
  pub offline_qr_token : String

unfoldable pub read_registration :
    Env → Db → Fields → SubmitSyncBatchDto → Result Exception (VerifiedOfflineQr × Identity)
unfolding get_string assert_fields_match
read_registration env db payload batch = do
  signed ← get_string payload "signedOfflineQr"
  verified ← verify_signed_offline_qr env.node db env.now signed (some batch.event_id)
  throw_if (not (text_is (get_text "issuerDeviceId" verified.payload) batch.device_id))
      (Exception.bad_request "Offline registration issuer must match authenticated device")
  operation_id ← get_string payload "offlineRegistrationOperationId"
  registration_id ← get_string payload "offlineRegistrationId"
  token ← get_string payload "offlineQrToken"
  assert_fields_match payload verified.payload compared_fields
  ok (
    verified,
    record {
      event_id = batch.event_id;
      issuer_device_id = batch.device_id;
      operation_id = operation_id;
      registration_id = registration_id;
      offline_qr_token = token;
    },
  )
