-- ===== src/Whatsapp/Tests.antt =====
-- Ticket requests of one registration, and the theorems applied to them.
use creative_backend.Base.{
  String, true, none, some, List, [], ◌∷◌, ◌≡◌, refl, arith, ◌==◌, Memᴰ, Bool-cases, inl, inr,
}
use Prim.Native.String.{◌++◌}
use creative_backend.Base.Decimal.{is_digit}
use creative_backend.Base.Json.{Json, Fields}
use creative_backend.Base.Result.{ok, err}
use creative_backend.Qr.Toy.{toy, runs}
use creative_backend.Store.{RegistrationStatus, Exception}
use creative_backend.Whatsapp.Texts.{
  normalize_phone, extract_public_id, extract_ticket_request_token, request_message,
}
use creative_backend.Whatsapp.Message.{
  Headers, HeaderValue, extract_incoming_message, validate_webhook_secret,
}
use creative_backend.Whatsapp.Rows.{
  TicketRegistration, TicketImageCall, TicketDb, find_registration, record_delivery, mark_delivery,
  mark,
}
use creative_backend.Whatsapp.Services.{
  Services, Notification, Request, WebhookResult, judge, resolve_public_https_image_url,
}
use creative_backend.Whatsapp.Claims.{claim_ticket_request_sender}
use creative_backend.Whatsapp.Issue.{create_for_registration, set_token}
use creative_backend.Whatsapp.Requests.{handle_wasender_webhook}
use creative_backend.Whatsapp.Bound.{HasUniqueIds}
use creative_backend.Whatsapp.Race.{idle, claim-same_sender}
use creative_backend.Whatsapp.Recipients.{Call, serve_all, serve_all-same_recipient}
use creative_backend.Whatsapp.Duplicates.{handle-handle}
use creative_backend.Whatsapp.Sends.{SendsOnly, handle-SendsOnly}
use creative_backend.Whatsapp.Links.{create-all_taken, create-unconfigured}

abbrev hex : String
hex = "00112233445566778899aabbccddeeff"

-- a link's token
abbrev token : String
token = "WTR_00112233445566778899aabbccddeeff"

abbrev services : Services
services = record {
  node = toy;
  webhook_secret = some "secret";
  request_phone = "+49 151 1";
  expires_hours = 24;
  public_base_url = "https://example.com/";
  labels = record { for_public_id = "ticket\nid: "; for_token = "\ncode: " };
  to_lower_case = λ text. text;
  parse_url = λ text. some (record { protocol = "https:"; hostname = "example.com"; text = text });
  encode_uri_component = λ text. text;
  resolve_usable_for_registration =
      λ id. ok (record { image_url = none; relative_path = some "/tickets/r1.png" });
  send_registration_ticket_image = λ call. ok (Notification.sent true "j1" "l1");
}

abbrev row : TicketRegistration
row = record {
  id = "r1";
  public_id = "REG_A1";
  status = RegistrationStatus.active;
  ticket_request_token = some token;
  ticket_request_expires_at = some 100;
  ticket_request_created_at = some 1;
  ticket_request_consumed_at = none;
  ticket_request_phone = none;
  ticket_request_claimed_at = none;
}

abbrev store : TicketDb
store = record { registrations = row ∷ []; deliveries = []; sent = []; next_id = 1 }

abbrev headers : Headers
headers = ("authorization", HeaderValue.one "Bearer secret") ∷ []

abbrev payload : (id sender : String) → Fields
payload id sender = Fields.field "event" (Json.str "messages.received") (
    Fields.field "id" (Json.str id) (
      Fields.field "from" (Json.str sender) (
        Fields.field "text"
          (Json.str ("ticket\nid: reg_a1\ncode: " ++ "WTR_00112233445566778899aabbccddeeff"))
          Fields.end)))

unfoldable whatsapp_runs : Unit {0}
unfolding runs normalize_phone extract_public_id extract_ticket_request_token request_message
    extract_incoming_message validate_webhook_secret record_delivery mark_delivery mark judge
    resolve_public_https_image_url handle_wasender_webhook claim_ticket_request_sender
    create_for_registration serve_all set_token is_digit
whatsapp_runs = tt

abbrev first_call : TicketImageCall
first_call = record {
  registration_id = "r1";
  image_url = "https://example.com/tickets/r1.png";
  recipient = "4915111";
  dedupe_key = "DIGITAL_TICKET_REQUEST:r1:m1";
}

request_test :
    (handle_wasender_webhook services 50 idle headers (payload "m1" "4915111@c.us") store).0
    ≡ ok (WebhookResult.queued true "j1" "l1")
unfolding whatsapp_runs
request_test = refl

sent_test :
    (handle_wasender_webhook services 50 idle headers (payload "m1" "4915111@c.us") store).1.sent
    ≡ first_call ∷ []
unfolding whatsapp_runs
sent_test = refl

late_test :
    (handle_wasender_webhook services 100 idle headers (payload "m1" "4915111@c.us") store).0
    ≡ ok (WebhookResult.ignored "TICKET_REQUEST_EXPIRED")
unfolding whatsapp_runs
late_test = refl

abbrev calls : List Call
calls =
    record { now = 50; headers = headers; payload = payload "m1" "4915111@c.us" }
    ∷ record { now = 60; headers = headers; payload = payload "m2" "4915222@c.us" }
    ∷ record { now = 70; headers = headers; payload = payload "m3" "4915111" }
    ∷ []

-- The call from another phone is refused.
history_test :
    (serve_all services calls store).sent
    ≡ first_call ∷ record first_call { dedupe_key = "DIGITAL_TICKET_REQUEST:r1:m3" } ∷ []
unfolding whatsapp_runs
history_test = refl

unique : HasUniqueIds (row ∷ [])
unique id = elim (Bool-cases ("r1" == id)) [
  | inl e ↦ rw e (omega arith)
  | inr e ↦ rw e (omega arith)
]

abbrev last_call : TicketImageCall
last_call = record first_call { dedupe_key = "DIGITAL_TICKET_REQUEST:r1:m3" }

serve_all-same_recipient_example : first_call.recipient ≡ last_call.recipient
unfolding whatsapp_runs
serve_all-same_recipient_example =
    serve_all-same_recipient services calls store first_call last_call unique refl (Memᴰ.head refl)
      (Memᴰ.tail (Memᴰ.head refl)) refl

abbrev request : Request
request = record { registration_id = "r1"; ticket_request_token = token; sender_phone = "4915111" }

claim-same_sender_example : request.sender_phone ≡ request.sender_phone
unfolding whatsapp_runs
claim-same_sender_example =
    claim-same_sender toy 50 request request store unique refl refl refl refl refl

handle-handle_example :
    handle_wasender_webhook services 60 idle headers
      (payload "m1" "4915111@c.us")
      (handle_wasender_webhook services 50 idle headers (payload "m1" "4915111@c.us") store).1
    ≡ (
      ok (WebhookResult.ignored "DUPLICATE_WEBHOOK_DELIVERY"),
      (handle_wasender_webhook services 50 idle headers (payload "m1" "4915111@c.us") store).1,
    )
unfolding whatsapp_runs
handle-handle_example =
    handle-handle services 50 60 idle idle headers headers (payload "m1" "4915111@c.us") store refl
      refl (λ id d h. h)

handle-SendsOnly_example :
    SendsOnly services 50
      (extract_incoming_message toy services.to_lower_case (payload "m1" "4915111@c.us"))
      store
      (handle_wasender_webhook services 50 idle headers (payload "m1" "4915111@c.us") store).1
handle-SendsOnly_example = handle-SendsOnly services 50 headers (payload "m1" "4915111@c.us") store

-- a database in which another registration has the token that is drawn
abbrev taken : TicketDb
taken = record store {
  registrations =
      record row { id = "r2"; public_id = "REG_B1"; ticket_request_token = none } ∷ row ∷ [];
}

abbrev other : TicketRegistration
other = record row { id = "r2"; public_id = "REG_B1"; ticket_request_token = none }

create-all_taken_example :
    create_for_registration services 5 (λ n. hex) "r2" taken
    ≡ (err (Exception.bad_request "Could not generate ticket request token"), taken)
unfolding whatsapp_runs
create-all_taken_example =
    create-all_taken services 5 (λ n. hex) "r2" other taken refl (λ n k. refl)

abbrev silent : Services
silent = record services { request_phone = "" }

abbrev bound : TicketDb
bound = record store { registrations = record row { ticket_request_phone = some "4915111" } ∷ [] }

create-unconfigured_example :
    ((create_for_registration silent 5 (λ n. "0") "r1" bound).0
      ≡ err (Exception.bad_request "WHATSAPP_REQUEST_PHONE is not configured"))
    × (find_registration (create_for_registration silent 5 (λ n. "0") "r1" bound).1 "r1"
        ≡ some (record row {
          ticket_request_token = some "WTR_0";
          ticket_request_expires_at = some 86400005;
          ticket_request_created_at = some 5;
        }))
unfolding whatsapp_runs
create-unconfigured_example =
    create-unconfigured silent 5 (λ n. "0") "r1"
      (record row { ticket_request_phone = some "4915111" }) bound refl refl refl
