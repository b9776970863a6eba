-- ===== src/Whatsapp/Duplicates.antt =====
-- Messages that the provider delivers twice to whatsapp-ticket-requests.service.ts.
use creative_backend.Base.{
  ℕ, String, Bool, true, Option, none, some, List, [], ◌∷◌, ◌++◌, ◌≡◌, refl, arith, ◌==◌, ==_self,
  eqb, update, find, Option-cases, inl, inr, Bool-cases,
}
use creative_backend.Base.Exec.{bind-keeps, bind_ran}
use creative_backend.Base.Json.{Fields}
use creative_backend.Base.Result.{ok}
use creative_backend.Whatsapp.Message.{
  Headers, IncomingMessage, extract_incoming_message, validate_webhook_secret,
}
use creative_backend.Whatsapp.Rows.{
  DeliveryStatus, TicketDb, WebhookDelivery, record_delivery, mark, find_delivery, new_delivery,
  marked,
}
use creative_backend.Whatsapp.Services.{Services, Request, WebhookResult}
use creative_backend.Whatsapp.Claims.{
  Claim, read_claim, bind_phone, update_claim, after_read, claim_ticket_request_sender,
}
use creative_backend.Whatsapp.Requests.{
  consume, answer_recorded, handle_message, handle_wasender_webhook,
}
use creative_backend.Whatsapp.Keeps.{IsKept, answer_recorded-IsKept}

-- a message has been delivered
abbrev pub IsDelivered : String → TicketDb → Type 0
IsDelivered id db = (d : WebhookDelivery) × (find_delivery db id ≡ some d)

found_append :
    (id : String) (x : WebhookDelivery) (xs : List WebhookDelivery)
    → (x.delivery_id == id) ≡ true
    → (d : WebhookDelivery) × (find (λ d. d.delivery_id == id) (xs ++ x ∷ []) ≡ some d)
found_append id x [] own = (x, rw own refl)
found_append id x (y ∷ xs) own = elim (Bool-cases (y.delivery_id == id)) [
  | inl e ↦ (y, rw e refl)
  | inr e ↦ let (d, found) = found_append id x xs own in (d, rw e found)
]

kept_append :
    (id : String) (x d : WebhookDelivery) (xs : List WebhookDelivery)
    → find (λ d. d.delivery_id == id) xs ≡ some d
    → find (λ d. d.delivery_id == id) (xs ++ x ∷ []) ≡ some d
kept_append id x d [] h = absurd (cc)
kept_append id x d (y ∷ xs) h = ground (arith, h, kept_append id x d xs)

kept_update :
    (id : String) (test : WebhookDelivery → Bool) (f : WebhookDelivery → WebhookDelivery)
    (d : WebhookDelivery) (xs : List WebhookDelivery)
    → ((x : WebhookDelivery) → (f x).delivery_id ≡ x.delivery_id)
    → find (λ d. d.delivery_id == id) xs ≡ some d
    → (e : WebhookDelivery) × (find (λ d. d.delivery_id == id) (update test f xs) ≡ some e)
kept_update id test f d [] same h = absurd (cc)
kept_update id test f d (x ∷ xs) same h = elim (Bool-cases (x.delivery_id == id)) [
  | inl e ↦ elim (Bool-cases (test x)) [
    | inl t ↦ (f x, rw (t, same x, e) refl)
    | inr t ↦ (x, rw (t, e) refl)
  ]
  | inr e ↦
      let (r, found) = kept_update id test f d xs same (ground (arith, h, e)) in
      (r, elim (Bool-cases (test x)) [ inl t ↦ rw (t, same x, e) found | inr t ↦ rw (t, e) found ])
]

-- A recorded message has been delivered, and deliveries stay.
record_delivery-IsDelivered :
    (id : String) (payload : Fields) (db : TicketDb)
    → IsDelivered id (record_delivery id payload db).1
unfolding record_delivery
record_delivery-IsDelivered id payload db = elim (Option-cases (find_delivery db id)) [
  | inl e ↦
      let (d, found) = found_append id (new_delivery db id payload) db.deliveries (==_self id) in
      (d, ground (arith, e, found))
  | inr (d, e) ↦ (d, ground (arith, e))
]

record_delivery-keeps :
    (id key : String) (payload : Fields) (db : TicketDb)
    → IsDelivered key db
    → IsDelivered key (record_delivery id payload db).1
unfolding record_delivery
record_delivery-keeps id key payload db (d, h) = elim (Option-cases (find_delivery db id)) [
  | inl e ↦ (d, ground (arith, e, kept_append key (new_delivery db id payload) d db.deliveries h))
  | inr (r, e) ↦ (d, ground (arith, e, h))
]

mark-IsDelivered :
    (key : String) (now : ℕ) (id : Option ℕ) (status : DeliveryStatus) (reason : Option String)
    (db : TicketDb)
    → IsDelivered key db
    → IsDelivered key (mark now id status reason db)
unfolding mark
mark-IsDelivered key now none status reason db h = h
mark-IsDelivered key now (some id) status reason db (d, h) =
    kept_update key (λ x. eqb x.id id) (marked now status reason) d db.deliveries (λ x. refl) h

claim-IsDelivered :
    (key : String) (s : Services) (now : ℕ) (meanwhile : TicketDb → TicketDb) (req : Request)
    (db : TicketDb)
    → ((d : TicketDb) → IsDelivered key d → IsDelivered key (meanwhile d))
    → IsDelivered key db
    → IsDelivered key (claim_ticket_request_sender s.node now meanwhile req db).1
unfolding claim_ticket_request_sender after_read update_claim bind_phone
claim-IsDelivered key s now meanwhile req db keeps h = go (read_claim s.node now req _)
  where
    go : (c : Claim) → IsDelivered key (after_read s.node now meanwhile req c db).1
    go Claim.refused = h
    go (Claim.bound p) = h
    go Claim.unbound = keeps db h

IsDelivered-IsKept :
    (key : String) (s : Services) (now : ℕ) (meanwhile : TicketDb → TicketDb)
    → ((d : TicketDb) → IsDelivered key d → IsDelivered key (meanwhile d))
    → IsKept s now meanwhile (IsDelivered key)
unfolding consume
IsDelivered-IsKept key s now meanwhile keeps = record {
  recorded = λ id payload d h. record_delivery-keeps id key payload d h;
  marked = mark-IsDelivered key now;
  claimed = λ req d h. claim-IsDelivered key s now meanwhile req d keeps h;
  noted = λ req call d h normal done own to. claim-IsDelivered key s now meanwhile req d keeps h;
  consumed = λ req d h. h;
}

recorded_again :
    (id : String) (payload : Fields) (db : TicketDb) (d : WebhookDelivery)
    → find_delivery db id ≡ some d
    → record_delivery id payload db ≡ (ok (record { id = none; duplicate = true }), db)
unfolding record_delivery
recorded_again id payload db d h = rw (h, record_delivery) refl

-- a message that was delivered is ignored
again :
    (s : Services) (now : ℕ) (meanwhile : TicketDb → TicketDb) (headers : Headers)
    (payload : Fields) (db : TicketDb)
    → validate_webhook_secret s.node s.webhook_secret headers ≡ ok tt
    → IsDelivered (extract_incoming_message s.node s.to_lower_case payload).delivery_id db
    → handle_wasender_webhook s now meanwhile headers payload db
      ≡ (ok (WebhookResult.ignored "DUPLICATE_WEBHOOK_DELIVERY"), db)
unfolding handle_wasender_webhook handle_message answer_recorded
again s now meanwhile headers payload db valid (d, h) = rw valid (
    bind_ran
      (record_delivery (extract_incoming_message s.node s.to_lower_case payload).delivery_id
        payload)
      (λ delivery.
        answer_recorded s now meanwhile delivery delivery.duplicate
          (extract_incoming_message s.node s.to_lower_case payload))
      db db _ (recorded_again _ payload db d h))

message_recorded :
    (s : Services) (now : ℕ) (meanwhile : TicketDb → TicketDb) (message : IncomingMessage)
    (payload : Fields) (db : TicketDb)
    → ((d : TicketDb)
        → IsDelivered message.delivery_id d
        → IsDelivered message.delivery_id (meanwhile d))
    → IsDelivered message.delivery_id (handle_message s now meanwhile message payload db).1
unfolding handle_message
message_recorded s now meanwhile message payload db keeps =
    let there = record_delivery-IsDelivered message.delivery_id payload db in
    bind-keeps (IsDelivered message.delivery_id) (record_delivery message.delivery_id payload)
      (λ delivery. answer_recorded s now meanwhile delivery delivery.duplicate message) db there
      (λ delivery e.
        answer_recorded-IsKept s now meanwhile (IsDelivered message.delivery_id)
          (IsDelivered-IsKept message.delivery_id s now meanwhile keeps) delivery delivery.duplicate
          message _ there)

-- the delivery of a payload that was handled is recorded
handle-IsDelivered :
    (s : Services) (now : ℕ) (meanwhile : TicketDb → TicketDb) (headers : Headers)
    (payload : Fields) (db : TicketDb)
    → validate_webhook_secret s.node s.webhook_secret headers ≡ ok tt
    → ((d : TicketDb)
        → IsDelivered (extract_incoming_message s.node s.to_lower_case payload).delivery_id d
        → IsDelivered
            (extract_incoming_message s.node s.to_lower_case payload).delivery_id
            (meanwhile d))
    → IsDelivered
        (extract_incoming_message s.node s.to_lower_case payload).delivery_id
        (handle_wasender_webhook s now meanwhile headers payload db).1
unfolding handle_wasender_webhook
handle-IsDelivered s now meanwhile headers payload db valid keeps = rw valid (
    message_recorded s now meanwhile (extract_incoming_message s.node s.to_lower_case payload)
      payload db keeps)

-- Where the second call has the secret, and what runs beside the first keeps the deliveries: a call
-- with a payload that has been handled, at whatever instant, is answered as a duplicate and changes
-- nothing, whatever the first call's answer was, an exception behind its checks included.
pub handle-handle :
    (s : Services) (now later : ℕ) (meanwhile meanwhile' : TicketDb → TicketDb)
    (headers headers' : Headers) (payload : Fields) (db : TicketDb)
    → validate_webhook_secret s.node s.webhook_secret headers ≡ ok tt
    → validate_webhook_secret s.node s.webhook_secret headers' ≡ ok tt
    → ((id : String) (d : TicketDb) → IsDelivered id d → IsDelivered id (meanwhile d))
    → handle_wasender_webhook s later meanwhile' headers' payload
        (handle_wasender_webhook s now meanwhile headers payload db).1
      ≡ (
        ok (WebhookResult.ignored "DUPLICATE_WEBHOOK_DELIVERY"),
        (handle_wasender_webhook s now meanwhile headers payload db).1,
      )
handle-handle s now later meanwhile meanwhile' headers headers' payload db valid valid' keeps =
    again s later meanwhile' headers' payload _ valid'
      (handle-IsDelivered s now meanwhile headers payload db valid (keeps _))
