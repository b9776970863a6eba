-- ===== src/Offline/Payload.antt =====
-- The payload of an offline QR code: parsing, the two versions, validation, and its hash.
use creative_backend.Base.{
  ℕ, ◌*◌, String, Bool, true, false, not, ◌||◌, Option, none, some, List, [], ◌∷◌, leb, ltb, eqb,
  ◌==◌, if◌then◌else◌,
}
use Prim.Native.String.{◌++◌, compare}
use text.Mathlib.Text.{is_le}
use creative_backend.Base.Result.{Result, ok, err, ◌>>=◌, ◌>>◌, throw_if}
use creative_backend.Base.Json.{
  Json, nat, negative, str, arr, obj, Items, nil, cons, Fields, end, field, get, get_text,
}
use creative_backend.Base.Text.{is_empty, trim, split_dot}
use creative_backend.Runtime.{Runtime}
use creative_backend.Store.{Exception}
use creative_backend.Qr.{two_parts}

-- `payload` is the object of the token, whatever other properties it has.
pub record VerifiedOfflineQr : Type 0 where
  pub signed_offline_qr : String
  pub encoded_payload : String
  pub signature : String
  pub payload : Fields
  pub payload_hash : String

abbrev refuse : {A : Type 0} → String → Result Exception A
refuse text = err (Exception.bad_request text)

-- Nothing but the texts that are not blank.
abbrev pub filled_text : Json → Option String
filled_text (str s) = if is_empty (trim s) then none else some s
filled_text _ = none

-- The integers that are at least 1.
abbrev pub positive : Json → Option ℕ
positive (nat n) = if leb 1 n then some n else none
positive _ = none

-- the largest instant of a `Date`, in milliseconds
abbrev max_date : ℕ
max_date = 8640000000000000

abbrev or_refuse : {A : Type 0} → Option A → String → Result Exception A
or_refuse none text = refuse text
or_refuse (some a) text = ok a

abbrev offline_registration : String
offline_registration = "OFFLINE_REGISTRATION"

module _ (node : Runtime) where
  -- the object that stands for a compact payload
  abbrev pub compact_payload :
      (event device operation token attendee : String) (version issued until : ℕ) → Fields
  compact_payload event device operation token attendee version issued until = field "v" (nat 2) (
      field "type" (str offline_registration) (
        field "eventId" (str event) (
          field "issuerDeviceId" (str device) (
            field "issuerKeyVersion" (nat version) (
              field "offlineRegistrationOperationId" (str operation) (
                field "offlineQrToken" (str token) (
                  field "attendeeTypeId" (str attendee) (
                    field "issuedAt" (str (node.to_iso_string (issued * 1000)))
                      (field "validUntil" (str (node.to_iso_string (until * 1000))) end)))))))))

  abbrev is_version_2 : Json → Bool
  is_version_2 (nat n) = eqb n 2
  is_version_2 _ = false

  -- An array: the nine elements of version 2.
  unfoldable pub normalize_compact : Items → Result Exception Fields
  normalize_compact
        (cons version (
          cons event (
            cons device (
              cons key
                (cons operation (cons token (cons attendee (cons issued (cons until nil))))))))) =
      do
        throw_if (not (is_version_2 version))
            (Exception.bad_request "Unsupported compact offline QR payload version")
        event_id ← or_refuse (filled_text event) "Compact offline QR contains invalid identifiers"
        device_id ← or_refuse (filled_text device) "Compact offline QR contains invalid identifiers"
        operation_id ←
            or_refuse (filled_text operation) "Compact offline QR contains invalid identifiers"
        token_id ← or_refuse (filled_text token) "Compact offline QR contains invalid identifiers"
        attendee_id ←
            or_refuse (filled_text attendee) "Compact offline QR contains invalid identifiers"
        key_version ← or_refuse (positive key) "Compact offline QR key version is invalid"
        issued_at ← or_refuse (positive issued) "Compact offline QR timestamps are invalid"
        valid_until ← or_refuse (positive until) "Compact offline QR timestamps are invalid"
        throw_if (leb valid_until issued_at)
            (Exception.bad_request "Compact offline QR timestamps are invalid")
        throw_if (ltb max_date (issued_at * 1000) || ltb max_date (valid_until * 1000))
            (Exception.bad_request "Compact offline QR dates are invalid")
        ok (
            compact_payload event_id device_id operation_id token_id attendee_id key_version
              issued_at valid_until)
  normalize_compact _ = refuse "Invalid compact offline QR payload length"

  unfoldable pub normalize_offline_qr_payload : Json → Result Exception Fields
  unfolding normalize_compact
  normalize_offline_qr_payload (arr items) = normalize_compact items
  normalize_offline_qr_payload (obj payload) = ok payload
  normalize_offline_qr_payload _ = refuse "Invalid offline QR payload structure"

  abbrev is_supported : Option Json → Bool
  is_supported (some (nat n)) = eqb n 1 || eqb n 2
  is_supported _ = false

  -- `Number.isInteger`
  abbrev is_integer : Option Json → Bool
  is_integer (some (nat n)) = true
  is_integer (some (negative n)) = true
  is_integer _ = false

  abbrev same_text : Option String → String → Bool
  same_text none t = false
  same_text (some s) t = s == t

  abbrev is_filled_field : Option Json → Bool
  is_filled_field none = false
  is_filled_field (some v) = elim (filled_text v) [ none ↦ false | some s ↦ true ]

  -- the loop over the required fields
  unfoldable pub require_fields : Fields → List String → Result Exception Unit
  require_fields payload [] = ok tt
  require_fields payload (name ∷ names) =
      let rest = require_fields payload names in
      if is_filled_field (get name payload)
      then rest
      else refuse ("Offline QR " ++ (name ++ " is required"))

  abbrev pub required_strings : List String
  required_strings =
      "type" ∷ "eventId" ∷ "issuerDeviceId" ∷ "offlineRegistrationOperationId" ∷ "offlineQrToken"
      ∷ "attendeeTypeId" ∷ "issuedAt" ∷ "validUntil" ∷ []

  abbrev parsed_date : Option String → Option ℕ
  parsed_date none = none
  parsed_date (some text) = node.parse_date text

  -- `assertOfflineQrPayload`, which also returns the instant of `issuedAt` that it has read
  unfoldable pub assert_offline_qr_payload : Fields → Result Exception ℕ
  unfolding require_fields
  assert_offline_qr_payload payload = do
    throw_if
        (not (is_supported (get "v" payload))
          || not (same_text (get_text "type" payload) offline_registration))
        (Exception.bad_request "Unsupported offline QR payload version")
    throw_if (not (is_integer (get "issuerKeyVersion" payload)))
        (Exception.bad_request "Offline QR key version is required")
    require_fields payload required_strings
    or_refuse (parsed_date (get_text "issuedAt" payload)) "Offline QR issuedAt is invalid"

  abbrev Entry : Type 0
  Entry = String × String

  -- `Object.keys(record).sort()`
  unfoldable pub insert_key : Entry → List Entry → List Entry
  insert_key e [] = e ∷ []
  insert_key e (f ∷ r) =
      let rest = insert_key e r in if is_le (compare e.0 f.0) then e ∷ (f ∷ r) else f ∷ rest

  unfoldable pub sort_keys : List Entry → List Entry
  unfolding insert_key
  sort_keys [] = []
  sort_keys (e ∷ r) = insert_key e (sort_keys r)

  abbrev join_comma : List String → String
  join_comma [] = ""
  join_comma (s ∷ []) = s
  join_comma (s ∷ t ∷ r) = s ++ ("," ++ join_comma (t ∷ r))

  abbrev print_entries : List Entry → List String
  print_entries [] = []
  print_entries ((k, v) ∷ r) = (node.json_stringify (str k) ++ (":" ++ v)) ∷ print_entries r

  unfoldable mutual
    unfolding sort_keys

    pub stable_stringify : Json → String
    stable_stringify (arr items) = "[" ++ (join_comma (stringify_items items) ++ "]")
    stable_stringify (obj fields) =
        "{" ++ (join_comma (print_entries (sort_keys (stringify_fields fields))) ++ "}")
    stable_stringify v = node.json_stringify v

    pub stringify_items : Items → List String
    stringify_items nil = []
    stringify_items (cons v vs) = stable_stringify v ∷ stringify_items vs

    pub stringify_fields : Fields → List Entry
    stringify_fields end = []
    stringify_fields (field k v fs) = (k, stable_stringify v) ∷ stringify_fields fs

  unfoldable pub hash_payload : Fields → String
  unfolding stable_stringify
  hash_payload payload = node.sha256_hex (stable_stringify (obj payload))

  abbrev or_encoding : Option Json → Result Exception Json
  or_encoding none = refuse "Invalid offline QR payload encoding"
  or_encoding (some v) = ok v

  unfoldable pub parse_signed_offline_qr : String → Result Exception VerifiedOfflineQr
  unfolding normalize_offline_qr_payload hash_payload
  parse_signed_offline_qr signed = do
    (encoded, signature) ←
        or_refuse (two_parts (split_dot signed)) "Invalid offline QR token format"
    raw ← or_encoding (node.json_parse (node.from_utf8 (node.from_base64url encoded)))
    payload ← normalize_offline_qr_payload raw
    ok (record {
      signed_offline_qr = signed;
      encoded_payload = encoded;
      signature = signature;
      payload = payload;
      payload_hash = hash_payload payload;
    })
