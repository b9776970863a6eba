-- ===== src/Whatsapp/Bound.antt =====
-- Phones that a ticket request is bound to, in whatsapp-ticket-requests.service.ts: a claim that
-- succeeds leaves its sender's phone on the row, and a phone that is there stays.
use creative_backend.Base.{
  ℕ, ◌≤◌, String, Bool, true, Option, none, some, List, [], ◌∷◌, ◌≡◌, refl, ap, ◌∙◌, arith, eqb,
  eqb_iff, ◌==◌, ==_self, find, update, count_where, inl, inr, Bool-cases,
}
use creative_backend.Base.Decimal.{is_digit}
use creative_backend.Base.Result.{ok}
use creative_backend.Base.Text.{every}
use creative_backend.Runtime.{Runtime}
use creative_backend.Whatsapp.Texts.{normalize_phone, strip_account, keep_digits, or_empty}
use creative_backend.Whatsapp.Rows.{TicketRegistration, TicketDb, find_registration}
use creative_backend.Whatsapp.Services.{Request}
use creative_backend.Whatsapp.Claims.{
  Claim, read_claim, is_unclaimed, claimed_by, bind_phone, is_phone, accepts, update_claim,
  after_read, claim_ticket_request_sender,
}

every-keep_digits : (t : String) → every is_digit (keep_digits t) ≡ true
unfolding keep_digits
every-keep_digits String.[] = refl
every-keep_digits (String.◌∷◌ c t) = ground (arith, every-keep_digits t)

keep_digits_id : (t : String) → every is_digit t ≡ true → keep_digits t ≡ t
unfolding keep_digits
keep_digits_id String.[] h = refl
keep_digits_id (String.◌∷◌ c t) h = ground (arith, keep_digits_id t)

strip_account_id : (t : String) → every is_digit t ≡ true → strip_account t ≡ t
unfolding strip_account is_digit
strip_account_id String.[] h = refl
strip_account_id (String.◌∷◌ c t) h = ground (arith, strip_account_id t)

pub normalize-normalize :
    (o : Option String) → normalize_phone (some (normalize_phone o)) ≡ normalize_phone o
unfolding normalize_phone
normalize-normalize o =
    let digits = every-keep_digits (strip_account (or_empty o)) in
    ap keep_digits (strip_account_id _ digits) ∙ keep_digits_id _ digits

-- the phone on the row of a registration
abbrev pub phone_in : Option TicketRegistration → Option String
phone_in none = none
phone_in (some r) = r.ticket_request_phone

abbrev pub phone_of : List TicketRegistration → String → Option String
phone_of rows id = phone_in (find (λ r. r.id == id) rows)

-- A change that keeps the ids and the phones that are there keeps the phone of every registration.
pub phone_of-update :
    (test : TicketRegistration → Bool) (f : TicketRegistration → TicketRegistration)
    → ((r : TicketRegistration) → (f r).id ≡ r.id)
    → ((r : TicketRegistration) (p : String)
        → test r ≡ true
        → r.ticket_request_phone ≡ some p
        → (f r).ticket_request_phone ≡ some p)
    → (rows : List TicketRegistration) (id p : String) → phone_of rows id ≡ some p
    → phone_of (update test f rows) id ≡ some p
phone_of-update test f ids phones [] id p h = h
phone_of-update test f ids phones (r ∷ rows) id p h = elim (Bool-cases (test r)) [
  | inl t ↦ ground (arith, t, h, ids r, phones r p, phone_of-update test f ids phones rows id p)
  | inr t ↦ ground (arith, t, h, phone_of-update test f ids phones rows id p)
]

abbrev pub HasUniqueIds : List TicketRegistration → Type 0
HasUniqueIds rows = (id : String) → count_where (λ r. r.id == id) rows ≤ 1

pub HasUniqueIds-update :
    (test : TicketRegistration → Bool) (f : TicketRegistration → TicketRegistration)
    → ((r : TicketRegistration) → (f r).id ≡ r.id)
    → (rows : List TicketRegistration) → HasUniqueIds rows
    → HasUniqueIds (update test f rows)
HasUniqueIds-update test f ids rows unique id = rw (counted rows) (unique id)
  where
    counted :
        (rows : List TicketRegistration)
        → count_where (λ r. r.id == id) (update test f rows) ≡ count_where (λ r. r.id == id) rows
    counted [] = refl
    counted (r ∷ rows) = elim (Bool-cases (test r)) [
      | inl t ↦ rw (t, ids r, counted rows) refl
      | inr t ↦ rw (t, counted rows) refl
    ]

count_mono :
    {A : Type 0} (p q : A → Bool) (xs : List A)
    → ((x : A) → p x ≡ true → q x ≡ true)
    → count_where p xs ≤ count_where q xs
count_mono p q [] k = omega arith
count_mono p q (x ∷ xs) k = ground (arith, k x, count_mono p q xs k)

is_unclaimed-id :
    (now : ℕ) (req : Request) (r : TicketRegistration)
    → is_unclaimed now req r ≡ true
    → (r.id == req.registration_id) ≡ true
unfolding is_unclaimed
is_unclaimed-id now req r h = ground (arith, h)

phone_of-claimed :
    (now : ℕ) (req : Request) (rows : List TicketRegistration)
    → count_where (λ r. r.id == req.registration_id) rows ≤ 1
    → count_where (is_unclaimed now req) rows ≡ 1
    → phone_of
        (update (is_unclaimed now req) (claimed_by now req.sender_phone) rows)
        req.registration_id
      ≡ some req.sender_phone
phone_of-claimed now req [] unique once = absurd (omega arith)
phone_of-claimed now req (r ∷ rows) unique once =
    let few =
      count_mono (is_unclaimed now req) (λ r. r.id == req.registration_id) rows
        (is_unclaimed-id now req) in
    elim (Bool-cases (is_unclaimed now req r)) [
      | inl t ↦ ground (arith, t, is_unclaimed-id now req r)
      | inr t ↦ elim (Bool-cases (r.id == req.registration_id)) [
        | inl own ↦ absurd (ground (arith, t, own, unique, once, few))
        | inr other ↦ ground (arith, t, other, unique, once, phone_of-claimed now req rows)
      ]
    ]

pub read_claim-bound :
    (node : Runtime) (now : ℕ) (req : Request) (o : Option TicketRegistration) (p : String)
    → read_claim node now req o ≡ Claim.bound p
    → phone_in o ≡ some p
unfolding read_claim
read_claim-bound node now req none p h = absurd (cc)
read_claim-bound node now req (some r) p h = ground (arith, h)

accepts-bound :
    (node : Runtime) (now : ℕ) (req : Request) (o : Option TicketRegistration)
    → accepts (read_claim node now req o) req.sender_phone ≡ true
    → (p : String) × (phone_in o ≡ some p) × (is_phone req.sender_phone p ≡ true)
accepts-bound node now req o h = go (read_claim node now req o) (read_claim-bound node now req o) h
  where
    go :
        (c : Claim)
        → ((p : String) → c ≡ Claim.bound p → phone_in o ≡ some p)
        → accepts c req.sender_phone ≡ true
        → (p : String) × (phone_in o ≡ some p) × (is_phone req.sender_phone p ≡ true)
    go Claim.refused found h = absurd (cc)
    go Claim.unbound found h = absurd (cc)
    go (Claim.bound p) found h = (p, found p refl, h)

-- the registration has a phone, and it is the sender's
abbrev pub IsBound : TicketDb → (registration_id sender_phone : String) → Type 0
IsBound db id sender_phone =
    (p : String) × (phone_of db.registrations id ≡ some p) × (is_phone sender_phone p ≡ true)

update_claim-IsBound :
    (node : Runtime) (now : ℕ) (req : Request) (db : TicketDb)
    → HasUniqueIds db.registrations
    → normalize_phone (some req.sender_phone) ≡ req.sender_phone
    → (update_claim node now req db).0 ≡ ok true
    → IsBound (update_claim node now req db).1 req.registration_id req.sender_phone
unfolding update_claim bind_phone
update_claim-IsBound node now req db unique normal h =
    elim (Bool-cases (eqb (count_where (is_unclaimed now req) db.registrations) 1)) [
      | inl once ↦ (
        req.sender_phone,
        phone_of-claimed now req db.registrations (unique req.registration_id)
            ((eqb_iff _ _).0 once),
        rw normal (==_self _),
      )
      | inr more ↦
          accepts-bound node now req (find_registration (bind_phone now req db) req.registration_id)
            (ground (arith, h, more))
    ]

-- A claim that succeeds leaves its sender's phone on the row.
pub claim-IsBound :
    (node : Runtime) (now : ℕ) (meanwhile : TicketDb → TicketDb) (req : Request) (db : TicketDb)
    → HasUniqueIds (meanwhile db).registrations
    → normalize_phone (some req.sender_phone) ≡ req.sender_phone
    → (claim_ticket_request_sender node now meanwhile req db).0 ≡ ok true
    → IsBound
        (claim_ticket_request_sender node now meanwhile req db).1
        req.registration_id
        req.sender_phone
unfolding claim_ticket_request_sender after_read
claim-IsBound node now meanwhile req db unique normal h =
    go (read_claim node now req (find_registration db req.registration_id))
      (read_claim-bound node now req _) h
  where
    go :
        (c : Claim)
        → ((p : String)
            → c ≡ Claim.bound p
            → phone_of db.registrations req.registration_id ≡ some p)
        → (after_read node now meanwhile req c db).0 ≡ ok true
        → IsBound (after_read node now meanwhile req c db).1 req.registration_id req.sender_phone
    go Claim.refused found h = absurd (cc)
    go (Claim.bound p) found h = (p, found p refl, ground (arith, h))
    go Claim.unbound found h = update_claim-IsBound node now req (meanwhile db) unique normal h
