-- ===== src/Whatsapp/Warrant.antt =====
-- What the checks of whatsapp-ticket-requests.service.ts ensure of a message that they let through.
use creative_backend.Base.{
  ℕ, String, Bool, true, false, not, Option, none, some, ◌≡◌, refl, sym, ap, ◌∙◌, arith, ◌==◌,
}
use creative_backend.Base.Result.{Result, ok, ◌>>=◌, ◌>>◌}
use creative_backend.Runtime.{Runtime}
use creative_backend.Scans.Checks.{given}
use creative_backend.Whatsapp.Texts.{
  normalize_phone, extract_public_id, extract_ticket_request_token,
}
use creative_backend.Whatsapp.Message.{IncomingMessage}
use creative_backend.Whatsapp.Rows.{DeliveryStatus, TicketRegistration, TicketDb, find_by_public_id}
use creative_backend.Whatsapp.Bound.{normalize-normalize}
use creative_backend.Whatsapp.Services.{
  Refusal, Request, judge, has_token, is_expired, is_active_registration, refuse_if, or_rejected,
}

given-some : (o : Option String) (t : String) → given o ≡ some t → o ≡ some t
given-some none t h = absurd (cc)
given-some (some u) t h = ground (arith, h)

-- The message names an active registration by its public id and carries the registration's token,
-- which has not expired; it is a received message, of one person.
pub record IsWarranted (node : Runtime) (now : ℕ) (db : TicketDb) (message : IncomingMessage)
    (req : Request) : Type 0 where
  pub public_id : String
  pub registration : TicketRegistration
  pub event : (message.event_type == "messages.received") ≡ true
  pub incoming : message.outgoing ≡ false
  pub single : message.group ≡ false
  pub named : extract_public_id message.text ≡ some public_id
  pub found : find_by_public_id db public_id ≡ some registration
  pub own : registration.id ≡ req.registration_id
  pub active : is_active_registration registration.status ≡ true
  pub carried : extract_ticket_request_token message.text ≡ some req.ticket_request_token
  pub token : has_token node registration.ticket_request_token req.ticket_request_token ≡ true
  pub unexpired : is_expired now registration.ticket_request_expires_at ≡ false
  pub sender : normalize_phone (some message.sender_phone) ≡ req.sender_phone

refuse_if_ok :
    {A : Type 0} (b : Bool) (status : DeliveryStatus) (reason : String) (rest : Result Refusal A)
    {a : A}
    → (refuse_if b status reason >> rest) ≡ ok a
    → (b ≡ false) × (rest ≡ ok a)
refuse_if_ok true status reason rest h = absurd (cc)
refuse_if_ok false status reason rest h = (refl, h)

or_rejected_ok :
    {A B : Type 0} (o : Option A) (reason : String) (f : A → Result Refusal B) {b : B}
    → (or_rejected o reason >>= f) ≡ ok b
    → (a : A) × (o ≡ some a) × (f a ≡ ok b)
or_rejected_ok none reason f h = absurd (cc)
or_rejected_ok (some a) reason f h = (a, refl, h)

pub judge-IsWarranted :
    (node : Runtime) (now : ℕ) (db : TicketDb) (message : IncomingMessage) (req : Request)
    → judge node now db message ≡ ok req
    → IsWarranted node now db message req
unfolding judge
judge-IsWarranted node now db message req h =
    let event =
      refuse_if_ok (not (message.event_type == "messages.received")) DeliveryStatus.ignored
        "UNSUPPORTED_EVENT" _ h in
    let outgoing =
      refuse_if_ok message.outgoing DeliveryStatus.ignored "OUTGOING_MESSAGE" _ event.1 in
    let group = refuse_if_ok message.group DeliveryStatus.ignored "GROUP_MESSAGE" _ outgoing.1 in
    let id =
      or_rejected_ok (given (extract_public_id message.text)) "PUBLIC_ID_NOT_FOUND" _ group.1 in
    let token =
      or_rejected_ok (given (extract_ticket_request_token message.text))
        "TICKET_REQUEST_TOKEN_NOT_FOUND" _ id.2 in
    let row = or_rejected_ok (find_by_public_id db id.0) "REGISTRATION_NOT_FOUND" _ token.2 in
    let active =
      refuse_if_ok (not (is_active_registration row.0.status)) DeliveryStatus.rejected
        "REGISTRATION_INACTIVE" _ row.2 in
    let valid =
      refuse_if_ok (not (has_token node row.0.ticket_request_token token.0)) DeliveryStatus.rejected
        "INVALID_TICKET_REQUEST_TOKEN" _ active.1 in
    let unexpired =
      refuse_if_ok (is_expired now row.0.ticket_request_expires_at) DeliveryStatus.rejected
        "TICKET_REQUEST_EXPIRED" _ valid.1 in
    let phone =
      or_rejected_ok (given (some (normalize_phone (some message.sender_phone))))
        "SENDER_PHONE_MISSING" _ unexpired.1 in
    record {
      public_id = id.0;
      registration = row.0;
      event = ground (arith, event.0);
      incoming = outgoing.0;
      single = group.0;
      named = given-some _ _ id.1;
      found = row.1;
      own = ground (arith, phone.2);
      active = ground (arith, active.0);
      carried = given-some _ _ token.1 ∙ ground (arith, phone.2);
      token = ground (arith, valid.0, phone.2);
      unexpired = unexpired.0;
      sender = ground (
        arith,
        given-some (some (normalize_phone (some message.sender_phone))) phone.0 phone.1,
        phone.2,
      );
    }

pub judge-normal :
    (node : Runtime) (now : ℕ) (db : TicketDb) (message : IncomingMessage) (req : Request)
    → judge node now db message ≡ ok req
    → normalize_phone (some req.sender_phone) ≡ req.sender_phone
judge-normal node now db message req h =
    let w = judge-IsWarranted node now db message req h in
    ap (λ (t : String). normalize_phone (some t)) (sym w.sender)
    ∙ (normalize-normalize (some message.sender_phone) ∙ w.sender)
