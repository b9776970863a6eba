-- ===== src/Whatsapp/Requests.antt =====
-- `handleWasenderWebhook` of whatsapp-ticket-requests.service.ts: a webhook call.
use creative_backend.Base.{
  ℕ, zero, suc, ◌+◌, ◌*◌, String, Bool, true, false, not, ◌&&◌, ◌||◌, Option, none, some, ltb, eqb,
  ◌==◌, if◌then◌else◌, update, count_where, List, [], ◌∷◌,
}
use Prim.Native.String.{◌++◌}
use creative_backend.Base.Exec.{pure, throw, check, modify, ◌>>=◌, ◌>>◌}
use creative_backend.Base.Json.{Fields}
use creative_backend.Base.Result.{Result, ok, err}
use creative_backend.Store.{Exception}
use creative_backend.Whatsapp.Message.{
  Headers, IncomingMessage, extract_incoming_message, validate_webhook_secret,
}
use creative_backend.Whatsapp.Rows.{
  DeliveryStatus, TicketImageCall, TicketDb, Action, Recorded, record_delivery, mark_delivery,
}
use creative_backend.Whatsapp.Services.{
  Services, Image, Notification, WebhookResult, Refusal, Request, judge,
  resolve_public_https_image_url,
}
use creative_backend.Whatsapp.Claims.{same_text, is_none, claim_ticket_request_sender}

unfoldable pub refuse : (now : ℕ) → Recorded → Refusal → Action WebhookResult
refuse now delivery refusal = do
  mark_delivery now delivery.id refusal.status (some refusal.reason)
  pure (WebhookResult.ignored refusal.reason)

abbrev pub reject : (now : ℕ) → Recorded → String → Action WebhookResult
reject now delivery reason =
    refuse now delivery (record { status = DeliveryStatus.rejected; reason = reason })

abbrev ticket_reason : Exception → String
ticket_reason (Exception.not_found text) = "DIGITAL_TICKET_TEMPLATE_NOT_FOUND"
ticket_reason _ = "DIGITAL_TICKET_UNAVAILABLE"

-- the update that notes that the request has been used
unfoldable pub consume : (now : ℕ) → Request → TicketDb → TicketDb
consume now req db = record db {
  registrations =
      update
        (λ r.
          r.id == req.registration_id
          && same_text r.ticket_request_token req.ticket_request_token
          && is_none r.ticket_request_consumed_at)
        (λ r. record r { ticket_request_consumed_at = some now }) db.registrations;
}

abbrev notified : Notification → WebhookResult
notified (Notification.skipped reason log_id) = WebhookResult.not_sent reason log_id
notified (Notification.sent was_queued job_id log_id) =
    WebhookResult.queued was_queued job_id log_id

abbrev pub note_call : TicketImageCall → TicketDb → TicketDb
note_call call db = record db { sent = creative_backend.Base.◌++◌ db.sent (call ∷ []) }

module _ (s : Services) (now : ℕ) where
  unfoldable pub after_send :
      Recorded → Request → Result Exception Notification → Action WebhookResult
  unfolding consume
  after_send delivery req (err e) = do
    mark_delivery now delivery.id DeliveryStatus.rejected (some "NOTIFICATION_QUEUE_FAILED")
    throw e
  after_send delivery req (ok notification) = do
    modify (consume now req)
    mark_delivery now delivery.id DeliveryStatus.processed none
    pure (notified notification)

  unfoldable pub image_call :
      (message : IncomingMessage) → Request → (image_url : String) → TicketImageCall
  image_call message req image_url = record {
    registration_id = req.registration_id;
    image_url = image_url;
    recipient = req.sender_phone;
    dedupe_key = "DIGITAL_TICKET_REQUEST:" ++ (req.registration_id ++ (":" ++ message.delivery_id));
  }

  unfoldable pub send_image :
      Recorded → IncomingMessage → Request → Option String → Action WebhookResult
  unfolding after_send image_call
  send_image delivery message req none = reject now delivery "PUBLIC_IMAGE_URL_UNAVAILABLE"
  send_image delivery message req (some image_url) = do
    modify (note_call (image_call message req image_url))
    after_send delivery req (s.send_registration_ticket_image (image_call message req image_url))

  unfoldable pub send_ticket :
      Recorded → IncomingMessage → Request → Result Exception Image → Action WebhookResult
  unfolding send_image resolve_public_https_image_url
  send_ticket delivery message req (err e) = reject now delivery (ticket_reason e)
  send_ticket delivery message req (ok image) =
      send_image delivery message req (resolve_public_https_image_url s image)

  unfoldable pub answer_claim :
      Recorded → IncomingMessage → Request → (claimed : Bool) → Action WebhookResult
  unfolding send_ticket
  answer_claim delivery message req false = reject now delivery "TICKET_REQUEST_ALREADY_BOUND"
  answer_claim delivery message req true =
      send_ticket delivery message req (s.resolve_usable_for_registration req.registration_id)

  unfoldable pub answer :
      (meanwhile : TicketDb → TicketDb)
      → Recorded
      → IncomingMessage
      → Result Refusal Request
      → Action WebhookResult
  unfolding answer_claim claim_ticket_request_sender refuse
  answer meanwhile delivery message (err refusal) = refuse now delivery refusal
  answer meanwhile delivery message (ok req) = do
    claimed ← claim_ticket_request_sender s.node now meanwhile req
    answer_claim delivery message req claimed

  unfoldable pub answer_recorded :
      (meanwhile : TicketDb → TicketDb)
      → Recorded
      → (duplicate : Bool) → IncomingMessage
      → Action WebhookResult
  unfolding answer
  answer_recorded meanwhile delivery true message =
      pure (WebhookResult.ignored "DUPLICATE_WEBHOOK_DELIVERY")
  answer_recorded meanwhile delivery false message = do
    judged ← check (λ db. ok (judge s.node now db message))
    answer meanwhile delivery message judged

  unfoldable pub handle_message :
      (meanwhile : TicketDb → TicketDb) → IncomingMessage → Fields → Action WebhookResult
  unfolding answer_recorded record_delivery
  handle_message meanwhile message payload = do
    delivery ← record_delivery message.delivery_id payload
    answer_recorded meanwhile delivery delivery.duplicate message

  unfoldable pub handle_wasender_webhook :
      (meanwhile : TicketDb → TicketDb) → Headers → Fields → Action WebhookResult
  unfolding handle_message
  handle_wasender_webhook meanwhile headers payload = do
    check (λ db. validate_webhook_secret s.node s.webhook_secret headers)
    handle_message meanwhile (extract_incoming_message s.node s.to_lower_case payload) payload
