-- ===== src/Whatsapp/Rows.antt =====
-- The rows that whatsapp-ticket-requests.service.ts reads and writes: `Registration` with the columns
-- of its ticket request, `WebhookDelivery`, and the calls of `sendRegistrationTicketImage`, which is
-- another service's method, in the order they were made. Of `Registration`, the columns that other
-- parts use are left out. An instant is a number of milliseconds, and one call's readings of the clock
-- are one instant.
use creative_backend.Base.{
  ℕ, ◌+◌, String, Bool, Option, none, some, List, [], ◌∷◌, ◌++◌, ◌==◌, eqb, find, update,
}
use creative_backend.Base.Exec.{Exec, modify}
use creative_backend.Base.Json.{Fields}
use creative_backend.Base.Result.{ok}
use creative_backend.Store.{RegistrationStatus, Exception}

pub record TicketRegistration : Type 0 where
  pub id : String
  pub public_id : String
  pub status : RegistrationStatus
  pub ticket_request_token : Option String
  pub ticket_request_expires_at : Option ℕ
  pub ticket_request_created_at : Option ℕ
  pub ticket_request_consumed_at : Option ℕ
  pub ticket_request_phone : Option String
  pub ticket_request_claimed_at : Option ℕ

pub data DeliveryStatus : Type 0 where
  received ignored rejected processed : DeliveryStatus

pub record WebhookDelivery : Type 0 where
  pub id : ℕ
  pub delivery_id : String
  pub status : DeliveryStatus
  pub reason : Option String
  pub payload : Fields
  pub processed_at : Option ℕ

-- what `sendRegistrationTicketImage` is called with; the locale and `forceResend` never change
pub record TicketImageCall : Type 0 where
  pub registration_id : String
  pub image_url : String
  pub recipient : String
  pub dedupe_key : String

pub record TicketDb : Type 0 where
  pub registrations : List TicketRegistration
  pub deliveries : List WebhookDelivery
  pub sent : List TicketImageCall
  pub next_id : ℕ

abbrev pub Action : Type 0 → Type 0
Action A = Exec TicketDb Exception A

abbrev pub find_registration : TicketDb → String → Option TicketRegistration
find_registration db id = find (λ r. r.id == id) db.registrations

abbrev pub find_by_public_id : TicketDb → String → Option TicketRegistration
find_by_public_id db public_id = find (λ r. r.public_id == public_id) db.registrations

abbrev pub find_delivery : TicketDb → String → Option WebhookDelivery
find_delivery db delivery_id = find (λ d. d.delivery_id == delivery_id) db.deliveries

-- the row's id is `none` for the text that is empty
pub record Recorded : Type 0 where
  pub id : Option ℕ
  pub duplicate : Bool

abbrev pub new_delivery : TicketDb → String → Fields → WebhookDelivery
new_delivery db delivery_id payload = record {
  id = db.next_id;
  delivery_id = delivery_id;
  status = DeliveryStatus.received;
  reason = none;
  payload = payload;
  processed_at = none;
}

abbrev pub add_delivery : WebhookDelivery → TicketDb → TicketDb
add_delivery d db = record db { deliveries = db.deliveries ++ d ∷ []; next_id = db.next_id + 1 }

-- The column is unique, so a second row for a message is refused.
unfoldable pub record_delivery : String → Fields → Action Recorded
record_delivery delivery_id payload db = elim (find_delivery db delivery_id) [
  | none ↦ (
    ok (record { id = some db.next_id; duplicate = Bool.false }),
    add_delivery (new_delivery db delivery_id payload) db,
  )
  | some d ↦ (ok (record { id = none; duplicate = Bool.true }), db)
]

abbrev pub marked : (now : ℕ) → DeliveryStatus → Option String → WebhookDelivery → WebhookDelivery
marked now status reason d = record d { status = status; reason = reason; processed_at = some now }

unfoldable pub mark : (now : ℕ) → Option ℕ → DeliveryStatus → Option String → TicketDb → TicketDb
mark now none status reason db = db
mark now (some id) status reason db = record db {
  deliveries = update (λ d. eqb d.id id) (marked now status reason) db.deliveries;
}

unfoldable pub mark_delivery :
    (now : ℕ) → Option ℕ → DeliveryStatus → Option String → Action (Unit {0})
mark_delivery now id status reason = modify (mark now id status reason)
