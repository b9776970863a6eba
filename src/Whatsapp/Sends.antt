-- ===== src/Whatsapp/Sends.antt =====
-- When whatsapp-ticket-requests.service.ts has a ticket sent.
use creative_backend.Base.{
  ℕ, String, Bool, true, false, Option, none, some, List, [], ◌∷◌, ◌++◌, ◌≡◌, refl, sym, ap, ◌∙◌,
  ◌⊎◌, inl, inr,
}
use creative_backend.Base.Exec.{bind-keeps}
use creative_backend.Base.Json.{Fields}
use creative_backend.Base.Result.{Result, ok, err}
use creative_backend.Store.{Exception}
use creative_backend.Whatsapp.Message.{
  Headers, IncomingMessage, extract_incoming_message, validate_webhook_secret,
}
use creative_backend.Whatsapp.Rows.{
  DeliveryStatus, TicketImageCall, TicketDb, Recorded, record_delivery, mark, mark_delivery,
}
use creative_backend.Whatsapp.Services.{
  Services, Image, Notification, Refusal, Request, judge, resolve_public_https_image_url,
}
use creative_backend.Whatsapp.Claims.{claim_ticket_request_sender}
use creative_backend.Whatsapp.Requests.{
  refuse, consume, note_call, after_send, image_call, send_image, send_ticket, answer_claim, answer,
  answer_recorded, handle_message, handle_wasender_webhook,
}
use creative_backend.Whatsapp.Race.{idle}
use creative_backend.Whatsapp.Recipients.{claim-sent, record_delivery-tables}
use creative_backend.Whatsapp.Warrant.{IsWarranted, judge-IsWarranted}

-- one call more than before, and it is the request's
abbrev AddsFor : (before after : List TicketImageCall) → Request → Type 0
AddsFor before after req =
    (call : TicketImageCall) × (after ≡ before ++ call ∷ [])
    × (call.registration_id ≡ req.registration_id)
    × (call.recipient ≡ req.sender_phone)

mark-sent :
    (now : ℕ) (id : Option ℕ) (status : DeliveryStatus) (reason : Option String) (d : TicketDb)
    → (mark now id status reason d).sent ≡ d.sent
unfolding mark
mark-sent now none status reason d = refl
mark-sent now (some id) status reason d = refl

module _ (s : Services) (now : ℕ) where
  refuse-sent :
      (delivery : Recorded) (refusal : Refusal) (d : TicketDb)
      → (refuse now delivery refusal d).1.sent ≡ d.sent
  unfolding refuse mark_delivery
  refuse-sent delivery refusal d = mark-sent now delivery.id refusal.status _ d

  after_send-sent :
      (delivery : Recorded) (req : Request) (r : Result Exception Notification) (d : TicketDb)
      → (after_send s now delivery req r d).1.sent ≡ d.sent
  unfolding after_send mark_delivery consume
  after_send-sent delivery req (err e) d = mark-sent now delivery.id _ _ d
  after_send-sent delivery req (ok n) d = mark-sent now delivery.id _ _ (consume now req d)

  answer_claim-sent :
      (delivery : Recorded) (message : IncomingMessage) (req : Request) (claimed : Bool)
      (d : TicketDb)
      → ((answer_claim s now delivery message req claimed d).1.sent ≡ d.sent)
        ⊎ AddsFor d.sent (answer_claim s now delivery message req claimed d).1.sent req
  unfolding answer_claim send_ticket send_image image_call
  answer_claim-sent delivery message req false d = inl (refuse-sent delivery _ d)
  answer_claim-sent delivery message req true d =
      ticket (s.resolve_usable_for_registration req.registration_id)
    where
      image :
          (url : Option String)
          → ((send_image s now delivery message req url d).1.sent ≡ d.sent)
            ⊎ AddsFor d.sent (send_image s now delivery message req url d).1.sent req
      image none = inl (refuse-sent delivery _ d)
      image (some url) = inr (
        image_call s now message req url,
        after_send-sent delivery req _ (note_call (image_call s now message req url) d),
        refl,
        refl,
      )

      ticket :
          (r : Result Exception Image)
          → ((send_ticket s now delivery message req r d).1.sent ≡ d.sent)
            ⊎ AddsFor d.sent (send_ticket s now delivery message req r d).1.sent req
      ticket (err e) = inl (refuse-sent delivery _ d)
      ticket (ok i) = image (resolve_public_https_image_url s i)

  -- nothing was sent, or one ticket that the message warrants
  abbrev pub SendsOnly : IncomingMessage → (db after : TicketDb) → Type 0
  SendsOnly message db after =
      (after.sent ≡ db.sent)
      ⊎ ((req : Request) × IsWarranted s.node now db message req × AddsFor db.sent after.sent req)

  answer-SendsOnly :
      (delivery : Recorded) (message : IncomingMessage) (d : TicketDb)
      (judged : Result Refusal Request)
      → judge s.node now d message ≡ judged
      → SendsOnly message d (answer s now idle delivery message judged d).1
  unfolding answer
  answer-SendsOnly delivery message d (err refusal) e = inl (refuse-sent delivery refusal d)
  answer-SendsOnly delivery message d (ok req) e =
      bind-keeps (SendsOnly message d) (claim_ticket_request_sender s.node now idle req)
        (answer_claim s now delivery message req) d (inl (claim-sent s now req d))
        (λ claimed found. elim (answer_claim-sent delivery message req claimed _) [
          | inl same ↦ inl (same ∙ claim-sent s now req d)
          | inr (call, more, own, to) ↦ inr (
            req,
            judge-IsWarranted s.node now d message req e,
            (call, more ∙ ap (λ xs. xs ++ call ∷ []) (claim-sent s now req d), own, to),
          )
        ])

  answer_recorded-SendsOnly :
      (delivery : Recorded) (duplicate : Bool) (message : IncomingMessage) (d : TicketDb)
      → SendsOnly message d (answer_recorded s now idle delivery duplicate message d).1
  unfolding answer_recorded
  answer_recorded-SendsOnly delivery true message d = inl refl
  answer_recorded-SendsOnly delivery false message d = answer-SendsOnly delivery message d _ refl

  earlier :
      (message : IncomingMessage) (db d after : TicketDb)
      → d.registrations ≡ db.registrations
      → d.sent ≡ db.sent
      → SendsOnly message d after
      → SendsOnly message db after
  earlier message db d after r t (inl same) = inl (same ∙ t)
  earlier message db d after r t (inr (req, w, (call, more, own, to))) = inr (
    req,
    record {
      public_id = w.public_id;
      registration = w.registration;
      event = w.event;
      incoming = w.incoming;
      single = w.single;
      named = w.named;
      found = rw (sym r) w.found;
      own = w.own;
      active = w.active;
      carried = w.carried;
      token = w.token;
      unexpired = w.unexpired;
      sender = w.sender;
    },
    (call, more ∙ ap (λ xs. xs ++ call ∷ []) t, own, to),
  )

  -- A webhook call that nothing interrupts has no ticket sent, or one: then the payload is a received
  -- message of one person, its text names an active registration by its public id and carries the
  -- token of that registration, which has not expired, and the ticket is that registration's and goes
  -- to the sender's phone, normalized.
  pub handle-SendsOnly :
      (headers : Headers) (payload : Fields) (db : TicketDb)
      → SendsOnly
          (extract_incoming_message s.node s.to_lower_case payload)
          db
          (handle_wasender_webhook s now idle headers payload db).1
  unfolding handle_wasender_webhook handle_message
  handle-SendsOnly headers payload db =
      bind-keeps (SendsOnly message db)
        (λ d. (validate_webhook_secret s.node s.webhook_secret headers, d))
        (λ a. handle_message s now idle message payload) db (inl refl)
        (λ a found.
          let (r, t) = record_delivery-tables message.delivery_id payload db in
          bind-keeps (SendsOnly message db) (record_delivery message.delivery_id payload)
            (λ delivery. answer_recorded s now idle delivery delivery.duplicate message) db (inl t)
            (λ delivery e.
              earlier message db recorded
                (answer_recorded s now idle delivery delivery.duplicate message recorded).1 r t
                (answer_recorded-SendsOnly delivery delivery.duplicate message recorded)))
    where
      message : IncomingMessage
      message = extract_incoming_message s.node s.to_lower_case payload

      recorded : TicketDb
      recorded = (record_delivery message.delivery_id payload db).1
