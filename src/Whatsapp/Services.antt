-- ===== src/Whatsapp/Services.antt =====
-- What whatsapp-ticket-requests.service.ts is configured with and calls, and the checks of a message.
use creative_backend.Base.{
  ℕ, String, Bool, true, false, not, ◌&&◌, ◌||◌, Option, none, some, ltb, eqb, ◌==◌, if◌then◌else◌,
}
use Prim.Native.Char.{code}
use Prim.Native.String.{◌++◌}
use creative_backend.Base.Result.{Result, ok, err, ◌>>=◌, ◌>>◌}
use creative_backend.Base.Text.{is_empty}
use creative_backend.Runtime.{Runtime}
use creative_backend.Scans.Checks.{given}
use creative_backend.Store.{RegistrationStatus, Exception}
use creative_backend.Whatsapp.Texts.{
  normalize_phone, extract_public_id, extract_ticket_request_token, Labels,
}
use creative_backend.Whatsapp.Message.{IncomingMessage, safe_secret_equals}
use creative_backend.Whatsapp.Rows.{DeliveryStatus, TicketImageCall, TicketDb, find_by_public_id}

pub record Image : Type 0 where
  pub image_url : Option String
  pub relative_path : Option String

pub record Url : Type 0 where
  pub protocol : String
  pub hostname : String
  pub text : String

pub data Notification : Type 0 where
  skipped : (reason : String) → (log_id : String) → Notification
  sent : (queued : Bool) → (job_id : String) → (log_id : String) → Notification

-- What the service is configured with and calls. `parse_url` is `none` where `new URL` throws.
pub record Services : Type 0 where
  pub node : Runtime
  pub webhook_secret : Option String
  pub request_phone : String
  pub expires_hours : ℕ
  pub public_base_url : String
  pub labels : Labels
  pub to_lower_case : String → String
  pub parse_url : String → Option Url
  pub encode_uri_component : String → String
  pub resolve_usable_for_registration : String → Result Exception Image
  pub send_registration_ticket_image : TicketImageCall → Result Exception Notification

pub data WebhookResult : Type 0 where
  ignored : (reason : String) → WebhookResult
  not_sent : (reason : String) → (log_id : String) → WebhookResult
  queued : (queued : Bool) → (job_id : String) → (log_id : String) → WebhookResult

-- `replace(/\/+$/, '')` and `replace(/^\/+/, '')`
unfoldable strip_end : String → String
strip_end String.[] = String.[]
strip_end (String.◌∷◌ c s) =
    let rest = strip_end s in
    if eqb (code c) 47 && is_empty rest then String.[] else String.◌∷◌ c rest

unfoldable strip_start : String → String
strip_start String.[] = String.[]
strip_start (String.◌∷◌ c s) =
    let rest = strip_start s in if eqb (code c) 47 then rest else String.◌∷◌ c s

abbrev joined : (base : Option String) → Option String → Option String → Option String
joined (some base) (some path) image_url = some (◌++◌ base (◌++◌ "/" (strip_start path)))
joined _ _ image_url = image_url

abbrev is_local_hostname : String → Bool
is_local_hostname h = h == "localhost" || h == "127.0.0.1" || h == "::1" || h == "[::1]"

abbrev public_url : (String → String) → Option Url → Option String
public_url to_lower_case none = none
public_url to_lower_case (some url) =
    if not (url.protocol == "https:") || is_local_hostname (to_lower_case url.hostname)
    then none
    else some url.text

abbrev parsed : (String → Option Url) → Option String → Option Url
parsed parse_url none = none
parsed parse_url (some candidate) = parse_url candidate

-- a refusal of a message, with the status that its delivery is marked with
pub record Refusal : Type 0 where
  pub status : DeliveryStatus
  pub reason : String

abbrev pub rejected : {A : Type 0} → String → Result Refusal A
rejected reason = err (record { status = DeliveryStatus.rejected; reason = reason })

abbrev pub refuse_if : Bool → DeliveryStatus → String → Result Refusal (Unit {0})
refuse_if true status reason = err (record { status = status; reason = reason })
refuse_if false status reason = ok tt

abbrev pub or_rejected : {A : Type 0} → Option A → String → Result Refusal A
or_rejected none reason = rejected reason
or_rejected (some a) reason = ok a

abbrev pub is_active_registration : RegistrationStatus → Bool
is_active_registration RegistrationStatus.active = true
is_active_registration _ = false

-- the row's token is one and equals the request's
abbrev pub has_token : Runtime → Option String → String → Bool
has_token node stored token = elim (given stored) [
  | none ↦ false
  | some expected ↦ safe_secret_equals node token expected
]

abbrev pub is_expired : (now : ℕ) → Option ℕ → Bool
is_expired now none = true
is_expired now (some expires_at) = not (ltb now expires_at)

-- what the checks of a message find
pub record Request : Type 0 where
  pub registration_id : String
  pub ticket_request_token : String
  pub sender_phone : String

module _ (s : Services) where
  unfoldable pub resolve_public_https_image_url : Image → Option String
  unfolding strip_end strip_start
  resolve_public_https_image_url image = public_url s.to_lower_case (
      parsed s.parse_url (
        given (
          joined (given (some (strip_end s.public_base_url))) (given image.relative_path)
            image.image_url)))

-- The checks of `handleWasenderWebhook` between `recordDelivery` and `claimTicketRequestSender`.
unfoldable pub judge : Runtime → (now : ℕ) → TicketDb → IncomingMessage → Result Refusal Request
judge node now db message = do
  refuse_if (not (message.event_type == "messages.received")) DeliveryStatus.ignored
      "UNSUPPORTED_EVENT"
  refuse_if message.outgoing DeliveryStatus.ignored "OUTGOING_MESSAGE"
  refuse_if message.group DeliveryStatus.ignored "GROUP_MESSAGE"
  public_id ← or_rejected (given (extract_public_id message.text)) "PUBLIC_ID_NOT_FOUND"
  token ←
      or_rejected (given (extract_ticket_request_token message.text))
        "TICKET_REQUEST_TOKEN_NOT_FOUND"
  registration ← or_rejected (find_by_public_id db public_id) "REGISTRATION_NOT_FOUND"
  refuse_if (not (is_active_registration registration.status)) DeliveryStatus.rejected
      "REGISTRATION_INACTIVE"
  refuse_if (not (has_token node registration.ticket_request_token token)) DeliveryStatus.rejected
      "INVALID_TICKET_REQUEST_TOKEN"
  refuse_if (is_expired now registration.ticket_request_expires_at) DeliveryStatus.rejected
      "TICKET_REQUEST_EXPIRED"
  sender_phone ←
      or_rejected (given (some (normalize_phone (some message.sender_phone))))
        "SENDER_PHONE_MISSING"
  ok (record {
    registration_id = registration.id;
    ticket_request_token = token;
    sender_phone = sender_phone;
  })
