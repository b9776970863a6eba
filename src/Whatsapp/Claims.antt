-- ===== src/Whatsapp/Claims.antt =====
-- `claimTicketRequestSender` of whatsapp-ticket-requests.service.ts: a ticket request is bound to the
-- phone of its first sender.
use creative_backend.Base.{
  ℕ, String, Bool, true, false, not, ◌&&◌, ◌||◌, Option, none, some, eqb, ◌==◌, if◌then◌else◌,
  update, count_where,
}
use creative_backend.Base.Exec.{pure, check, modify, ◌>>=◌, ◌>>◌}
use creative_backend.Base.Result.{ok}
use creative_backend.Runtime.{Runtime}
use creative_backend.Scans.Checks.{given}
use creative_backend.Whatsapp.Texts.{normalize_phone}
use creative_backend.Whatsapp.Rows.{TicketRegistration, TicketDb, Action, find_registration}
use creative_backend.Whatsapp.Services.{Request, has_token, is_expired}

-- what the first query of a claim finds
pub data Claim : Type 0 where
  refused unbound : Claim
  bound : (phone : String) → Claim

abbrev pub phone_claim : Option String → Claim
phone_claim none = Claim.unbound
phone_claim (some phone) = Claim.bound phone

unfoldable pub read_claim : Runtime → (now : ℕ) → Request → Option TicketRegistration → Claim
read_claim node now req none = Claim.refused
read_claim node now req (some r) =
    if not (has_token node r.ticket_request_token req.ticket_request_token)
      || is_expired now r.ticket_request_expires_at
    then Claim.refused
    else phone_claim (given r.ticket_request_phone)

abbrev pub same_text : Option String → String → Bool
same_text none t = false
same_text (some s) t = s == t

abbrev pub is_none : {A : Type 0} → Option A → Bool
is_none none = true
is_none (some a) = false

-- the filter of the update that binds a phone
unfoldable pub is_unclaimed : (now : ℕ) → Request → TicketRegistration → Bool
is_unclaimed now req r =
    r.id == req.registration_id
    && same_text r.ticket_request_token req.ticket_request_token
    && not (is_expired now r.ticket_request_expires_at)
    && is_none r.ticket_request_phone

abbrev pub claimed_by : (now : ℕ) → String → TicketRegistration → TicketRegistration
claimed_by now phone r = record r {
  ticket_request_phone = some phone;
  ticket_request_claimed_at = some now;
}

unfoldable pub bind_phone : (now : ℕ) → Request → TicketDb → TicketDb
bind_phone now req db = record db {
  registrations = update (is_unclaimed now req) (claimed_by now req.sender_phone) db.registrations;
}

abbrev pub is_phone : (sender_phone phone : String) → Bool
is_phone sender_phone phone = normalize_phone (some phone) == sender_phone

abbrev pub accepts : Claim → (sender_phone : String) → Bool
accepts (Claim.bound phone) sender_phone = is_phone sender_phone phone
accepts _ sender_phone = false

-- The last query of a claim makes the same checks, and an unbound row is refused.
unfoldable pub update_claim : Runtime → (now : ℕ) → Request → Action Bool
unfolding is_unclaimed bind_phone read_claim
update_claim node now req = do
  count ← check (λ db. ok (count_where (is_unclaimed now req) db.registrations))
  modify (bind_phone now req)
  latest ← check (λ db. ok (find_registration db req.registration_id))
  pure (eqb count 1 || accepts (read_claim node now req latest) req.sender_phone)

unfoldable pub after_read :
    Runtime → (now : ℕ) → (meanwhile : TicketDb → TicketDb) → Request → Claim → Action Bool
unfolding update_claim
after_read node now meanwhile req Claim.refused = pure false
after_read node now meanwhile req (Claim.bound phone) = pure (is_phone req.sender_phone phone)
after_read node now meanwhile req Claim.unbound = do modify meanwhile; update_claim node now req

-- `meanwhile` is what other calls do to the database between the first query and the update.
unfoldable pub claim_ticket_request_sender :
    Runtime → (now : ℕ) → (meanwhile : TicketDb → TicketDb) → Request → Action Bool
unfolding after_read read_claim
claim_ticket_request_sender node now meanwhile req = do
  current ← check (λ db. ok (find_registration db req.registration_id))
  after_read node now meanwhile req (read_claim node now req current)
