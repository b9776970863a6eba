-- ===== src/Whatsapp/Race.antt =====
-- Two claims of one ticket request, in whatsapp-ticket-requests.service.ts: the second runs between
-- the first one's query and its update.
use creative_backend.Base.{ℕ, String, true, Option, some, ◌≡◌, refl, sym, arith, ==_sound}
use creative_backend.Base.Result.{ok}
use creative_backend.Runtime.{Runtime}
use creative_backend.Whatsapp.Texts.{normalize_phone}
use creative_backend.Whatsapp.Rows.{TicketDb, find_registration}
use creative_backend.Whatsapp.Services.{Request}
use creative_backend.Whatsapp.Claims.{
  Claim, read_claim, is_unclaimed, claimed_by, bind_phone, is_phone, update_claim, after_read,
  claim_ticket_request_sender,
}
use creative_backend.Whatsapp.Bound.{
  phone_of, phone_of-update, HasUniqueIds, HasUniqueIds-update, IsBound, claim-IsBound,
  read_claim-bound,
}

bind_phone-phone_of :
    (now : ℕ) (req : Request) (db : TicketDb) (id p : String)
    → phone_of db.registrations id ≡ some p
    → phone_of (bind_phone now req db).registrations id ≡ some p
unfolding bind_phone is_unclaimed
bind_phone-phone_of now req db id p h =
    phone_of-update (is_unclaimed now req) (claimed_by now req.sender_phone) (λ r. refl)
      (λ r q t e. absurd (ground (arith, t, e))) db.registrations id p h

-- A claim keeps the phones that are there, if what runs in between does.
pub claim-phone_of :
    (node : Runtime) (now : ℕ) (meanwhile : TicketDb → TicketDb) (req : Request) (db : TicketDb)
    (id p : String)
    → ((d : TicketDb)
        → phone_of d.registrations id ≡ some p
        → phone_of (meanwhile d).registrations id ≡ some p)
    → phone_of db.registrations id ≡ some p
    → phone_of (claim_ticket_request_sender node now meanwhile req db).1.registrations id ≡ some p
unfolding claim_ticket_request_sender after_read update_claim
claim-phone_of node now meanwhile req db id p keeps h =
    go (read_claim node now req (find_registration db req.registration_id))
  where
    go : (c : Claim) → phone_of (after_read node now meanwhile req c db).1.registrations id ≡ some p
    go Claim.refused = h
    go (Claim.bound q) = h
    go Claim.unbound = bind_phone-phone_of now req (meanwhile db) id p (keeps db h)

-- A claim keeps the ids apart, if what runs in between does.
pub claim-HasUniqueIds :
    (node : Runtime) (now : ℕ) (meanwhile : TicketDb → TicketDb) (req : Request) (db : TicketDb)
    → HasUniqueIds (meanwhile db).registrations
    → HasUniqueIds db.registrations
    → HasUniqueIds (claim_ticket_request_sender node now meanwhile req db).1.registrations
unfolding claim_ticket_request_sender after_read update_claim bind_phone
claim-HasUniqueIds node now meanwhile req db unique' unique =
    go (read_claim node now req (find_registration db req.registration_id))
  where
    go : (c : Claim) → HasUniqueIds (after_read node now meanwhile req c db).1.registrations
    go Claim.refused = unique
    go (Claim.bound q) = unique
    go Claim.unbound =
        HasUniqueIds-update (is_unclaimed now req) (claimed_by now req.sender_phone) (λ r. refl)
          (meanwhile db).registrations unique'

pub same_phone :
    (o : Option String) (p q a b : String)
    → o ≡ some p
    → o ≡ some q
    → is_phone a p ≡ true
    → is_phone b q ≡ true
    → a ≡ b
same_phone o p q a b e f ha hb =
    let ea = ==_sound (normalize_phone (some p)) a ha in
    let eb = ==_sound (normalize_phone (some q)) b hb in cc

abbrev pub idle : TicketDb → TicketDb
idle db = db

-- the database after a claim that nothing interrupts
abbrev pub after_claim : Runtime → (now : ℕ) → Request → TicketDb → TicketDb
after_claim node now req db = (claim_ticket_request_sender node now idle req db).1

-- Where the ids of registrations are unique and the senders' phones normalized: if a claim succeeds
-- that is interrupted, between its query and its update, by another claim of the same registration,
-- and that one succeeds too, then both come from one phone.
pub claim-same_sender :
    (node : Runtime) (now : ℕ) (a b : Request) (db : TicketDb)
    → HasUniqueIds db.registrations
    → normalize_phone (some a.sender_phone) ≡ a.sender_phone
    → normalize_phone (some b.sender_phone) ≡ b.sender_phone
    → a.registration_id ≡ b.registration_id
    → (claim_ticket_request_sender node now (after_claim node now b) a db).0 ≡ ok true
    → (claim_ticket_request_sender node now idle b db).0 ≡ ok true
    → a.sender_phone ≡ b.sender_phone
unfolding claim_ticket_request_sender after_read update_claim
claim-same_sender node now a b db unique na nb same ha hb =
    go (read_claim node now a (find_registration db a.registration_id))
      (read_claim-bound node now a _) ha
      (claim-IsBound node now (after_claim node now b) a db unique' na ha)
  where
    unique' : HasUniqueIds (after_claim node now b db).registrations
    unique' = claim-HasUniqueIds node now idle b db unique unique

    second : IsBound (after_claim node now b db) b.registration_id b.sender_phone
    second = claim-IsBound node now idle b db unique nb hb

    go :
        (c : Claim)
        → ((p : String) → c ≡ Claim.bound p → phone_of db.registrations a.registration_id ≡ some p)
        → (after_read node now (after_claim node now b) a c db).0 ≡ ok true
        → IsBound
            (after_read node now (after_claim node now b) a c db).1
            a.registration_id
            a.sender_phone
        → a.sender_phone ≡ b.sender_phone
    go Claim.refused found h (p, e, own) = absurd (cc)
    go (Claim.bound q) found h (p, e, own) =
        let (r, f, other) = second in
        same_phone _ p r a.sender_phone b.sender_phone
          (claim-phone_of node now idle b db b.registration_id p (λ d k. k) (rw (sym same) e)) f own
          other
    go Claim.unbound found h (p, e, own) =
        let (r, f, other) = second in
        same_phone _ p r a.sender_phone b.sender_phone e
          (bind_phone-phone_of now a (after_claim node now b db) a.registration_id r (rw same f))
          own other
