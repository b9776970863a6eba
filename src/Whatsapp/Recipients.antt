-- ===== src/Whatsapp/Recipients.antt =====
-- To whom whatsapp-ticket-requests.service.ts has tickets sent, over any history of webhook calls.
use creative_backend.Base.{
  ℕ, String, Option, none, some, List, [], ◌∷◌, ◌++◌, ◌≡◌, refl, arith, Memᴰ, subst, Option-cases,
  inl, inr, ◌⊎◌,
}
use creative_backend.Base.Json.{Fields}
use creative_backend.Whatsapp.Message.{Headers}
use creative_backend.Whatsapp.Rows.{
  DeliveryStatus, TicketImageCall, TicketDb, record_delivery, mark, find_delivery,
}
use creative_backend.Whatsapp.Services.{Services, Request}
use creative_backend.Whatsapp.Claims.{
  claim_ticket_request_sender, update_claim, after_read, read_claim, Claim, bind_phone,
}
use creative_backend.Whatsapp.Requests.{consume, note_call, handle_wasender_webhook}
use creative_backend.Whatsapp.Bound.{
  phone_of, phone_of-update, HasUniqueIds, HasUniqueIds-update, IsBound, claim-IsBound,
}
use creative_backend.Whatsapp.Race.{idle, same_phone, claim-phone_of, claim-HasUniqueIds}
use creative_backend.Whatsapp.Keeps.{IsKept, handle-IsKept}

-- Ids of registrations are unique, and every ticket was sent to the phone on its registration.
pub record IsAddressed (db : TicketDb) : Type 0 where
  pub unique : HasUniqueIds db.registrations
  pub addressed :
      (call : TicketImageCall) → Memᴰ call db.sent → IsBound db call.registration_id call.recipient

-- What a webhook call leaves in the database, from a caller with any headers and payload.
pub record Call : Type 0 where
  pub now : ℕ
  pub headers : Headers
  pub payload : Fields

unfoldable pub serve_all : Services → List Call → TicketDb → TicketDb
serve_all s [] db = db
serve_all s (c ∷ calls) db =
    serve_all s calls (handle_wasender_webhook s c.now idle c.headers c.payload db).1

-- the calls that a claim finds stay as they are
pub claim-sent :
    (s : Services) (now : ℕ) (req : Request) (db : TicketDb)
    → (claim_ticket_request_sender s.node now idle req db).1.sent ≡ db.sent
unfolding claim_ticket_request_sender after_read update_claim bind_phone
claim-sent s now req db = go (read_claim s.node now req _)
  where
    go : (c : Claim) → (after_read s.node now idle req c db).1.sent ≡ db.sent
    go Claim.refused = refl
    go (Claim.bound p) = refl
    go Claim.unbound = refl

pub record_delivery-tables :
    (id : String) (payload : Fields) (d : TicketDb)
    → ((record_delivery id payload d).1.registrations ≡ d.registrations)
      × ((record_delivery id payload d).1.sent ≡ d.sent)
unfolding record_delivery
record_delivery-tables id payload d = elim (Option-cases (find_delivery d id)) [
  | inl e ↦ (ground (arith, e), ground (arith, e))
  | inr (row, e) ↦ (ground (arith, e), ground (arith, e))
]

-- only these two tables count
same_tables :
    (d d' : TicketDb)
    → d'.registrations ≡ d.registrations
    → d'.sent ≡ d.sent
    → IsAddressed d
    → IsAddressed d'
same_tables d d' r t h = record {
  unique = rw r h.unique;
  addressed = λ call m. rw r (h.addressed call (subst (λ xs. Memᴰ call xs) t m));
}

mark-IsAddressed :
    (now : ℕ) (id : Option ℕ) (status : DeliveryStatus) (reason : Option String) (d : TicketDb)
    → IsAddressed d
    → IsAddressed (mark now id status reason d)
unfolding mark
mark-IsAddressed now none status reason d h = h
mark-IsAddressed now (some id) status reason d h = same_tables d _ refl refl h

consume-IsAddressed :
    (now : ℕ) (req : Request) (d : TicketDb) → IsAddressed d → IsAddressed (consume now req d)
unfolding consume
consume-IsAddressed now req d h = record {
  unique = HasUniqueIds-update _ _ (λ r. refl) d.registrations h.unique;
  addressed = λ call m.
      let (p, e, own) = h.addressed call m in
      (
        p,
        phone_of-update _ _ (λ r. refl) (λ r q t f. f) d.registrations call.registration_id p e,
        own,
      );
}

claim-IsAddressed :
    (s : Services) (now : ℕ) (req : Request) (d : TicketDb)
    → IsAddressed d
    → IsAddressed (claim_ticket_request_sender s.node now idle req d).1
claim-IsAddressed s now req d h = record {
  unique = claim-HasUniqueIds s.node now idle req d h.unique h.unique;
  addressed = λ call m.
      let (p, e, own) = h.addressed call (subst (λ xs. Memᴰ call xs) (claim-sent s now req d) m) in
      (p, claim-phone_of s.node now idle req d call.registration_id p (λ x k. k) e, own);
}

append-cases : {A : Type 0} (x y : A) (xs : List A) → Memᴰ x (xs ++ y ∷ []) → Memᴰ x xs ⊎ (x ≡ y)
append-cases x y [] (Memᴰ.head e) = inr e
append-cases x y [] (Memᴰ.tail m) = elim m [ ]
append-cases x y (z ∷ xs) (Memᴰ.head e) = inl (Memᴰ.head e)
append-cases x y (z ∷ xs) (Memᴰ.tail m) = elim (append-cases x y xs m) [
  | inl old ↦ inl (Memᴰ.tail old)
  | inr e ↦ inr e
]

note_call-IsAddressed :
    (call : TicketImageCall) (d : TicketDb)
    → IsAddressed d
    → IsBound d call.registration_id call.recipient
    → IsAddressed (note_call call d)
note_call-IsAddressed call d h own = record {
  unique = h.unique;
  addressed =
      λ c m. elim (append-cases c call d.sent m) [ inl old ↦ h.addressed c old | inr e ↦ rw e own ];
}

IsAddressed-IsKept : (s : Services) (now : ℕ) → IsKept s now idle IsAddressed
IsAddressed-IsKept s now = record {
  recorded =
      λ id payload d h. let (r, t) = record_delivery-tables id payload d in same_tables d _ r t h;
  marked = mark-IsAddressed now;
  claimed = claim-IsAddressed s now;
  noted = λ req call d h normal done own to.
      note_call-IsAddressed call _ (claim-IsAddressed s now req d h)
        (rw (own, to) (claim-IsBound s.node now idle req d h.unique normal done));
  consumed = consume-IsAddressed now;
}

-- Webhook calls, however many, with whatever headers and payloads, on a database whose registrations
-- have unique ids and whose recorded sendings went to the phones that the registrations are bound to,
-- leave it so: each ticket goes to the phone that its registration is bound to.
pub serve_all-IsAddressed :
    (s : Services) (calls : List Call) (db : TicketDb)
    → IsAddressed db
    → IsAddressed (serve_all s calls db)
unfolding serve_all
serve_all-IsAddressed s [] db h = h
serve_all-IsAddressed s (c ∷ calls) db h =
    serve_all-IsAddressed s calls _
      (handle-IsKept s c.now idle IsAddressed (IsAddressed-IsKept s c.now) c.headers c.payload db h)

-- Where no ticket was sent yet and ids of registrations are unique, any two tickets that webhook calls
-- have sent for one registration go to one phone.
pub serve_all-same_recipient :
    (s : Services) (calls : List Call) (db : TicketDb) (a b : TicketImageCall)
    → HasUniqueIds db.registrations
    → db.sent ≡ []
    → Memᴰ a (serve_all s calls db).sent
    → Memᴰ b (serve_all s calls db).sent
    → a.registration_id ≡ b.registration_id
    → a.recipient ≡ b.recipient
serve_all-same_recipient s calls db a b unique fresh ma mb same =
    let h = serve_all-IsAddressed s calls db start in
    let (p, e, own) = h.addressed a ma in
    let (q, f, other) = h.addressed b mb in
    same_phone (phone_of (serve_all s calls db).registrations a.registration_id) p q a.recipient
      b.recipient e (rw same f) own other
  where
    start : IsAddressed db
    start = record {
      unique = unique;
      addressed = λ call m. elim (subst (λ xs. Memᴰ call xs) fresh m) [ ];
    }
