-- ===== src/Whatsapp/Issue.antt =====
-- `createForRegistration` of whatsapp-ticket-requests.service.ts: a new token and its link.
use creative_backend.Base.{
  ℕ, zero, suc, ◌+◌, ◌*◌, String, Bool, not, ◌&&◌, none, some, eqb, ◌==◌, if◌then◌else◌, update,
  count_where,
}
use Prim.Native.String.{◌++◌}
use creative_backend.Base.Exec.{pure, throw, check, try_catch, ◌>>=◌, ◌>>◌}
use creative_backend.Base.Result.{Result, ok, err}
use creative_backend.Base.Text.{is_empty}
use creative_backend.Scans.Checks.{or_not_found}
use creative_backend.Store.{Exception}
use creative_backend.Whatsapp.Texts.{normalize_phone, request_message}
use creative_backend.Whatsapp.Rows.{TicketRegistration, TicketDb, Action, find_registration}
use creative_backend.Whatsapp.Services.{Services}
use creative_backend.Whatsapp.Claims.{same_text}

pub record Link : Type 0 where
  pub ticket_request_token : String
  pub url : String
  pub expires_at : ℕ

-- the rows that have an id, and those of others that have a token
abbrev pub is_known : TicketDb → String → Bool
is_known db id = not (eqb (count_where (λ r. r.id == id) db.registrations) 0)

abbrev pub is_taken : TicketDb → (id token : String) → Bool
is_taken db id token = not (
    eqb
      (count_where (λ r. not (r.id == id) && same_text r.ticket_request_token token)
        db.registrations)
      0)

-- only a conflict is tried again
abbrev pub retry : Action String → Exception → Action String
retry again Exception.unique_constraint = again
retry again e = throw e

abbrev pub max_attempts : ℕ
max_attempts = 5

module _ (s : Services) (now : ℕ) where
  abbrev pub renewed : (expires_at : ℕ) → String → TicketRegistration → TicketRegistration
  renewed expires_at token r = record r {
    ticket_request_token = some token;
    ticket_request_expires_at = some expires_at;
    ticket_request_created_at = some now;
    ticket_request_consumed_at = none;
    ticket_request_phone = none;
    ticket_request_claimed_at = none;
  }

  unfoldable pub set_token : String → (expires_at : ℕ) → String → TicketDb → TicketDb
  set_token id expires_at token db = record db {
    registrations = update (λ r. r.id == id) (renewed expires_at token) db.registrations;
  }

  -- `registration.update` with a new token; the token's column is unique
  unfoldable pub store_token : String → (expires_at : ℕ) → String → Action (Unit {0})
  unfolding set_token
  store_token id expires_at token db =
      if not (is_known db id)
      then (err (Exception.failure "Record to update not found."), db)
      else (if is_taken db id token
          then (err Exception.unique_constraint, db)
          else (ok tt, set_token id expires_at token db))

  unfoldable pub attempt : String → (expires_at : ℕ) → String → Action String
  unfolding store_token
  attempt id expires_at token = store_token id expires_at token >> pure token

  -- `left` attempts are left. `draw n` is the hexadecimal text of the random bytes of the attempt after
  -- which `n` are left. The token's is the one unique column that the update writes.
  unfoldable pub persist_token :
      (draw : ℕ → String) → String → (expires_at left : ℕ) → Action String
  unfolding attempt
  persist_token draw id expires_at zero =
      throw (Exception.bad_request "Could not generate ticket request token")
  persist_token draw id expires_at (suc left) =
      try_catch (attempt id expires_at ("WTR_" ++ draw left))
        (retry (persist_token draw id expires_at left))

  unfoldable pub persist_unique_token :
      (draw : ℕ → String) → String → (expires_at : ℕ) → Action String
  unfolding persist_token
  persist_unique_token draw id expires_at = persist_token draw id expires_at max_attempts

  unfoldable pub build_whatsapp_url : (public_id token : String) → Result Exception String
  unfolding normalize_phone
  build_whatsapp_url public_id token =
      let phone = normalize_phone (some s.request_phone) in
      if is_empty phone
      then err (Exception.bad_request "WHATSAPP_REQUEST_PHONE is not configured")
      else ok (
          "https://wa.me/"
          ++ (phone
              ++ ("?text=" ++ s.encode_uri_component (request_message s.labels public_id token))))

  abbrev pub expiry : ℕ
  expiry = now + s.expires_hours * 3600000

  unfoldable pub finish : TicketRegistration → (token : String) → Action Link
  unfolding build_whatsapp_url
  finish registration token = do
    url ← check (λ db. build_whatsapp_url registration.public_id token)
    pure (record { ticket_request_token = token; url = url; expires_at = expiry })

  unfoldable pub issue : (draw : ℕ → String) → TicketRegistration → Action Link
  unfolding persist_unique_token finish
  issue draw registration = do
    token ← persist_unique_token draw registration.id expiry
    finish registration token

  unfoldable pub create_for_registration : (draw : ℕ → String) → String → Action Link
  unfolding issue
  create_for_registration draw id = do
    registration ← check (λ db. or_not_found (find_registration db id) "Registration not found")
    issue draw registration
