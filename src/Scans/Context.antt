-- ===== src/Scans/Context.antt =====
-- How a scanned text is read: `validateQrForScan` and the two offline readings.
use creative_backend.Base.{
  ℕ, String, Bool, true, false, not, ◌&&◌, ◌||◌, Option, none, some, ltb, ◌==◌, if◌then◌else◌, find,
}
use text.Mathlib.Text.{starts_with}
use creative_backend.Base.Result.{Result, ok, err, ◌>>=◌}
use creative_backend.Base.Text.{is_empty, trim}
use creative_backend.Base.Json.{Json, str, Fields, end, field, get_text}
use creative_backend.Runtime.{Runtime}
use creative_backend.Qr.{verify_signed_qr_token, verify_compact_qr_token}
use creative_backend.Offline.{VerifiedOfflineQr, verify_signed_offline_qr, text_is}
use creative_backend.Scans.Checks.{given}
use creative_backend.Store.{
  Db, QrToken, QrTokenStatus, Registration, RegistrationStatus, OfflineRegistrationMapping,
  MappingStatus, Exception,
}

-- What a request takes from outside: Node, the configuration, the clock, the queue, and whether
-- Prisma lets a disjunct of a filter match everything where its only value is `undefined`.
pub record Env : Type 0 where
  pub node : Runtime
  pub qr_signing_secret : String
  pub now : ℕ
  pub scan_processing_enabled : Bool
  pub queue_accepts : Bool
  pub undefined_disjunct_matches : Bool

pub data QrContext : Type 0 where
  valid : QrToken → Registration → (payload : Fields) → QrContext
  pending_offline : VerifiedOfflineQr → QrContext
  pending_reference :
      (offline_qr_token : String)
      → (payload : Fields) → (registration_id : Option String) → QrContext
  invalid :
      (reason : String)
      → (payload : Option Fields) → (qr_token_id registration_id : Option String) → QrContext

abbrev pub is_revoked : QrTokenStatus → Bool
is_revoked QrTokenStatus.revoked = true
is_revoked _ = false

abbrev pub is_expired : QrTokenStatus → Bool
is_expired QrTokenStatus.expired = true
is_expired _ = false

abbrev pub is_active_registration : RegistrationStatus → Bool
is_active_registration RegistrationStatus.active = true
is_active_registration _ = false

-- a property of the payload that is a text other than `t`
abbrev pub differs : Option String → String → Bool
differs none t = false
differs (some s) t = not (s == t)

-- `id: x ?? undefined` in a filter
abbrev pub matches_if_given : Option String → String → Bool
matches_if_given none t = true
matches_if_given (some s) t = s == t

-- `object[key] = value` on a copy
abbrev pub set_field : String → Json → Fields → Fields
set_field k v end = field k v end
set_field k v (field j w fs) = if j == k then field k v fs else field j w (set_field k v fs)

abbrev pub or_blank : Option String → String
or_blank none = ""
or_blank (some s) = s

-- A token with its registration, which its foreign key promises.
pub record StoredQrToken : Type 0 where
  pub token : QrToken
  pub registration : Registration

unfoldable pub find_stored : Db → (QrToken → Bool) → Option StoredQrToken
find_stored db test = elim (find test db.qr_tokens) [
  | none ↦ none
  | some token ↦ elim (find (λ r. r.id == token.registration_id) db.registrations) [
    | none ↦ none
    | some registration ↦ some (record { token = token; registration = registration })
  ]
]

abbrev deny : String → Fields → StoredQrToken → QrContext
deny reason payload stored =
    invalid reason (some payload) (some stored.token.id) (some stored.token.registration_id)

-- the tests that the three readings make on a stored token
unfoldable pub check_stored :
    (now : ℕ) → (mismatch : Bool) → StoredQrToken → (payload accepted : Fields) → QrContext
check_stored now mismatch stored payload accepted =
    if mismatch
    then deny "EVENT_MISMATCH" payload stored
    else if is_revoked stored.token.status
    then deny "TOKEN_REVOKED" payload stored
    else if is_expired stored.token.status
        || ltb now stored.token.valid_from
        || ltb stored.token.valid_until now
    then deny "TOKEN_EXPIRED" payload stored
    else if not (is_active_registration stored.registration.status)
    then deny "REGISTRATION_INACTIVE" payload stored
    else valid stored.token stored.registration accepted

-- the part of `validateQrForScan` that follows a verified payload
unfoldable pub validate_payload : Env → Db → Fields → String → QrContext
unfolding check_stored
validate_payload env db payload event_id =
    let token_id = or_blank (get_text "tokenId" payload) in
    if is_empty token_id
    then invalid "INVALID_SIGNATURE" (some payload) none none
    else elim (find_stored db (λ t. t.token_id == token_id)) [
      | none ↦ invalid "TOKEN_NOT_FOUND" (some payload) none none
      | some stored ↦
          check_stored env.now
            (not (stored.token.event_id == event_id)
              || differs (get_text "eventId" payload) event_id
              || differs (get_text "registrationId" payload) stored.token.registration_id)
            stored payload payload
    ]

abbrev pub find_mapping : Db → String → Option OfflineRegistrationMapping
find_mapping db token = find (λ m. m.offline_qr_token == token) db.mappings

abbrev pub reference_payload : String → Fields
reference_payload token =
    field "inputType" (str "OFFLINE_REFERENCE") (field "offlineQrToken" (str token) end)

-- the canonical token of a mapping that has a registration
abbrev pub is_canonical : OfflineRegistrationMapping → String → QrToken → Bool
is_canonical mapping registration_id t =
    (t.registration_id == registration_id)
    && matches_if_given (given mapping.canonical_qr_token_id) t.id

unfoldable pub validate_mapped_reference :
    Env → Db → OfflineRegistrationMapping → (registration_id token event_id : String) → QrContext
unfolding check_stored
validate_mapped_reference env db mapping registration_id token event_id =
    let payload = reference_payload token in
    elim (find_stored db (is_canonical mapping registration_id)) [
      | none ↦ invalid "TOKEN_NOT_FOUND" (some payload) none (some registration_id)
      | some stored ↦
          check_stored env.now (not (stored.token.event_id == event_id)) stored payload (
            set_field "registrationId" (str stored.token.registration_id)
              (set_field "canonicalTokenId" (str stored.token.token_id) payload))
    ]

unfoldable pub validate_offline_reference_qr_for_scan : Env → Db → String → String → QrContext
validate_offline_reference_qr_for_scan env db offline_qr_token event_id =
    let token = trim offline_qr_token in
    let payload = reference_payload token in
    elim (find_mapping db token) [
      | none ↦ pending_reference token payload none
      | some mapping ↦
          if not (mapping.event_id == event_id)
          then invalid "EVENT_MISMATCH" (some payload) none mapping.registration_id
          else elim (given mapping.registration_id) [
            | none ↦ pending_reference token payload mapping.registration_id
            | some registration_id ↦ elim mapping.status [
              | MappingStatus.pending ↦ pending_reference token payload mapping.registration_id
              | MappingStatus.conflicted ↦
                  invalid "OFFLINE_QR_CONFLICTED" (some payload) none mapping.registration_id
              | MappingStatus.revoked ↦
                  invalid "TOKEN_REVOKED" (some payload) none mapping.registration_id
              | _ ↦ validate_mapped_reference env db mapping registration_id token event_id
            ]
          ]
    ]

-- a mapping that a signed offline code may be resolved by
abbrev pub resolved :
    Option OfflineRegistrationMapping → Option (OfflineRegistrationMapping × String)
resolved none = none
resolved (some mapping) = elim (given mapping.registration_id) [
  | none ↦ none
  | some registration_id ↦ elim mapping.status [
    | MappingStatus.pending ↦ none
    | MappingStatus.conflicted ↦ none
    | MappingStatus.revoked ↦ none
    | _ ↦ some (mapping, registration_id)
  ]
]

-- the filter for the token that a signed offline code is resolved to
abbrev pub is_mapped : OfflineRegistrationMapping → String → QrToken → Bool
is_mapped mapping registration_id t =
    matches_if_given mapping.canonical_qr_token_id t.id && (t.registration_id == registration_id)

unfoldable pub validate_offline_qr_for_scan :
    Env → Db → String → String → Result Exception QrContext
unfolding check_stored
validate_offline_qr_for_scan env db qr_raw event_id = do
  verified ← verify_signed_offline_qr env.node db env.now qr_raw (some event_id)
  ok (elim (resolved (find_mapping db (or_blank (get_text "offlineQrToken" verified.payload)))) [
    | none ↦ pending_offline verified
    | some (mapping, registration_id) ↦ elim (find_stored db (is_mapped mapping registration_id)) [
      | none ↦ invalid "TOKEN_NOT_FOUND" (some verified.payload) none (some registration_id)
      | some stored ↦
          check_stored env.now
            (not (stored.token.event_id == event_id)
              || not (text_is (get_text "eventId" verified.payload) event_id)
              || not (
                  text_is (get_text "attendeeTypeId" verified.payload)
                    stored.registration.attendee_type_id))
            stored verified.payload
            (set_field "canonicalTokenId" (str stored.token.token_id)
              (set_field "inputType" (str "OFFLINE_SIGNED") verified.payload))
    ]
  ])

-- the readings of a text that does not start with `O2.`, in turn
unfoldable pub read_signed : Env → Db → String → String → QrContext
unfolding validate_payload
read_signed env db qr event_id = elim (verify_signed_qr_token env.node qr env.qr_signing_secret) [
  | ok payload ↦ validate_payload env db payload event_id
  | err _ ↦ elim (verify_compact_qr_token env.node qr env.qr_signing_secret) [
    | ok token_id ↦ validate_payload env db (field "tokenId" (str token_id) end) event_id
    | err _ ↦ elim (validate_offline_qr_for_scan env db qr event_id) [
      | ok context ↦ context
      | err _ ↦ invalid "INVALID_SIGNATURE" none none none
    ]
  ]
]

unfoldable pub validate_qr_for_scan : Env → Db → String → String → QrContext
unfolding read_signed
validate_qr_for_scan env db qr_raw event_id =
    let qr = trim qr_raw in
    if is_empty qr
    then invalid "INVALID_SIGNATURE" none none none
    else if starts_with qr "O2."
    then validate_offline_reference_qr_for_scan env db qr event_id
    else read_signed env db qr event_id
