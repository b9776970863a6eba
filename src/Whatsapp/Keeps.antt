-- ===== src/Whatsapp/Keeps.antt =====
-- What a webhook call of whatsapp-ticket-requests.service.ts keeps: a property of the database that
-- each of its writes keeps, the call to the notifications under what the claim has ensured.
use creative_backend.Base.{ℕ, String, Bool, true, false, Option, none, some, ◌≡◌, refl}
use creative_backend.Base.Exec.{bind-keeps}
use creative_backend.Base.Json.{Fields}
use creative_backend.Base.Result.{Result, ok, err}
use creative_backend.Store.{Exception}
use creative_backend.Whatsapp.Texts.{normalize_phone}
use creative_backend.Whatsapp.Message.{
  Headers, IncomingMessage, extract_incoming_message, validate_webhook_secret,
}
use creative_backend.Whatsapp.Rows.{
  DeliveryStatus, TicketImageCall, TicketDb, Recorded, record_delivery, mark, mark_delivery,
}
use creative_backend.Whatsapp.Services.{
  Services, Image, Notification, Refusal, Request, judge, resolve_public_https_image_url,
}
use creative_backend.Whatsapp.Claims.{claim_ticket_request_sender}
use creative_backend.Whatsapp.Requests.{
  refuse, consume, note_call, after_send, image_call, send_image, send_ticket, answer_claim, answer,
  answer_recorded, handle_message, handle_wasender_webhook,
}
use creative_backend.Whatsapp.Warrant.{judge-normal}

-- `P` is kept by the writes of a webhook call at the instant `now`.
pub record IsKept (s : Services) (now : ℕ) (meanwhile : TicketDb → TicketDb) (P : TicketDb → Type 0)
    : Type 0 where
  pub recorded :
      (id : String) (payload : Fields) (d : TicketDb) → P d → P (record_delivery id payload d).1
  pub marked :
      (id : Option ℕ) (status : DeliveryStatus) (reason : Option String) (d : TicketDb)
      → P d
      → P (mark now id status reason d)
  pub claimed :
      (req : Request) (d : TicketDb)
      → P d
      → P (claim_ticket_request_sender s.node now meanwhile req d).1
  pub noted :
      (req : Request) (call : TicketImageCall) (d : TicketDb)
      → P d
      → normalize_phone (some req.sender_phone) ≡ req.sender_phone
      → (claim_ticket_request_sender s.node now meanwhile req d).0 ≡ ok true
      → call.registration_id ≡ req.registration_id
      → call.recipient ≡ req.sender_phone
      → P (note_call call (claim_ticket_request_sender s.node now meanwhile req d).1)
  pub consumed : (req : Request) (d : TicketDb) → P d → P (consume now req d)

module _ (s : Services) (now : ℕ) (meanwhile : TicketDb → TicketDb) (P : TicketDb → Type 0)
    (k : IsKept s now meanwhile P) where
  refuse-IsKept :
      (delivery : Recorded) (refusal : Refusal) (d : TicketDb)
      → P d
      → P (refuse now delivery refusal d).1
  unfolding refuse mark_delivery
  refuse-IsKept delivery refusal d h = k.marked delivery.id refusal.status _ d h

  after_send-IsKept :
      (delivery : Recorded) (req : Request) (r : Result Exception Notification) (d : TicketDb)
      → P d
      → P (after_send s now delivery req r d).1
  unfolding after_send mark_delivery
  after_send-IsKept delivery req (err e) d h = k.marked delivery.id _ _ d h
  after_send-IsKept delivery req (ok n) d h =
      k.marked delivery.id _ _ (consume now req d) (k.consumed req d h)

  -- what is known of the database behind a claim
  answer_claim-IsKept :
      (delivery : Recorded) (message : IncomingMessage) (req : Request) (claimed : Bool)
      (d : TicketDb)
      → P d
      → (claimed ≡ true
          → (call : TicketImageCall) → call.registration_id ≡ req.registration_id
          → call.recipient ≡ req.sender_phone
          → P (note_call call d))
      → P (answer_claim s now delivery message req claimed d).1
  unfolding answer_claim send_ticket send_image image_call
  answer_claim-IsKept delivery message req false d h noted = refuse-IsKept delivery _ d h
  answer_claim-IsKept delivery message req true d h noted =
      ticket (s.resolve_usable_for_registration req.registration_id)
    where
      image : (url : Option String) → P (send_image s now delivery message req url d).1
      image none = refuse-IsKept delivery _ d h
      image (some url) =
          after_send-IsKept delivery req _ _
            (noted refl (image_call s now message req url) refl refl)

      ticket : (r : Result Exception Image) → P (send_ticket s now delivery message req r d).1
      ticket (err e) = refuse-IsKept delivery _ d h
      ticket (ok i) = image (resolve_public_https_image_url s i)

  answer-IsKept :
      (delivery : Recorded) (message : IncomingMessage) (judged : Result Refusal Request)
      (d : TicketDb)
      → ((req : Request)
          → judged ≡ ok req
          → normalize_phone (some req.sender_phone) ≡ req.sender_phone)
      → P d
      → P (answer s now meanwhile delivery message judged d).1
  unfolding answer
  answer-IsKept delivery message (err refusal) d normal h = refuse-IsKept delivery refusal d h
  answer-IsKept delivery message (ok req) d normal h =
      bind-keeps P (claim_ticket_request_sender s.node now meanwhile req)
        (answer_claim s now delivery message req) d (k.claimed req d h)
        (λ b found.
          answer_claim-IsKept delivery message req b _ (k.claimed req d h)
            (λ t call own to. k.noted req call d h (normal req refl) (rw found (rw t refl)) own to))

  pub answer_recorded-IsKept :
      (delivery : Recorded) (duplicate : Bool) (message : IncomingMessage) (d : TicketDb)
      → P d
      → P (answer_recorded s now meanwhile delivery duplicate message d).1
  unfolding answer_recorded
  answer_recorded-IsKept delivery true message d h = h
  answer_recorded-IsKept delivery false message d h =
      answer-IsKept delivery message (judge s.node now d message) d
        (λ req e. judge-normal s.node now d message req e) h

  -- A webhook call keeps what its writes keep.
  pub handle-IsKept :
      (headers : Headers) (payload : Fields) (d : TicketDb)
      → P d
      → P (handle_wasender_webhook s now meanwhile headers payload d).1
  unfolding handle_wasender_webhook handle_message
  handle-IsKept headers payload d h =
      bind-keeps P (λ db. (validate_webhook_secret s.node s.webhook_secret headers, db))
        (λ a. handle_message s now meanwhile (message_of payload) payload) d h
        (λ a found.
          bind-keeps P (record_delivery (message_of payload).delivery_id payload)
            (λ delivery.
              answer_recorded s now meanwhile delivery delivery.duplicate (message_of payload))
            d (k.recorded (message_of payload).delivery_id payload d h)
            (λ delivery e.
              answer_recorded-IsKept delivery delivery.duplicate (message_of payload) _
                (k.recorded (message_of payload).delivery_id payload d h)))
    where
      message_of : Fields → IncomingMessage
      message_of fields = extract_incoming_message s.node s.to_lower_case fields
