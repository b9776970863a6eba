-- ===== src/Whatsapp/Links.antt =====
-- New links in whatsapp-ticket-requests.service.ts: the attempts to store a token, and what an error
-- leaves behind.
use creative_backend.Base.{
  ℕ, zero, suc, ◌<◌, ap, ==_sound, List, [], ◌∷◌, String, true, false, not, some, ◌≡◌, refl, sym,
  ◌∙◌, arith, eqb, ◌==◌, count_where, Bool-cases, inl, inr, find, update, ◌+◌, ◌*◌, none, subst,
  Bool,
}
use Prim.Native.String.{◌++◌}
use creative_backend.Base.Exec.{pure, bind_failed, bind_ran, try_failed, try_ran}
use creative_backend.Base.Result.{ok, err}
use creative_backend.Base.Text.{is_empty}
use creative_backend.Scans.Checks.{or_not_found}
use creative_backend.Store.{Exception}
use creative_backend.Whatsapp.Texts.{normalize_phone}
use creative_backend.Whatsapp.Rows.{TicketDb, TicketRegistration, find_registration}
use creative_backend.Whatsapp.Services.{Services}
use creative_backend.Whatsapp.Issue.{
  is_known, is_taken, retry, renewed, set_token, store_token, attempt, persist_token,
  persist_unique_token, build_whatsapp_url, finish, issue, create_for_registration, expiry,
}

module _ (s : Services) (now : ℕ) (draw : ℕ → String) where
  store_token-taken :
      (id : String) (expires_at : ℕ) (token : String) (db : TicketDb)
      → is_known db id ≡ true
      → is_taken db id token ≡ true
      → store_token s now id expires_at token db ≡ (err Exception.unique_constraint, db)
  unfolding store_token
  store_token-taken id expires_at token db known taken = ground (arith, known, taken)

  store_token-free :
      (id : String) (expires_at : ℕ) (token : String) (db : TicketDb)
      → is_known db id ≡ true
      → is_taken db id token ≡ false
      → store_token s now id expires_at token db ≡ (ok tt, set_token s now id expires_at token db)
  unfolding store_token
  store_token-free id expires_at token db known free = ground (arith, known, free)

  attempt-taken :
      (id : String) (expires_at : ℕ) (token : String) (db : TicketDb)
      → is_known db id ≡ true
      → is_taken db id token ≡ true
      → attempt s now id expires_at token db ≡ (err Exception.unique_constraint, db)
  unfolding attempt
  attempt-taken id expires_at token db known taken =
      bind_failed (store_token s now id expires_at token) (λ stored. pure token) db db _
        (store_token-taken id expires_at token db known taken)

  attempt-free :
      (id : String) (expires_at : ℕ) (token : String) (db : TicketDb)
      → is_known db id ≡ true
      → is_taken db id token ≡ false
      → attempt s now id expires_at token db ≡ (ok token, set_token s now id expires_at token db)
  unfolding attempt
  attempt-free id expires_at token db known free =
      bind_ran (store_token s now id expires_at token) (λ stored. pure token) db _ tt
        (store_token-free id expires_at token db known free)

  persist_token-taken :
      (id : String) (expires_at left : ℕ) (db : TicketDb)
      → is_known db id ≡ true
      → ((n : ℕ) → n < left → is_taken db id ("WTR_" ++ draw n) ≡ true)
      → persist_token s now draw id expires_at left db
        ≡ (err (Exception.bad_request "Could not generate ticket request token"), db)
  unfolding persist_token
  persist_token-taken id expires_at zero db known taken = refl
  persist_token-taken id expires_at (suc left) db known taken =
      try_failed (attempt s now id expires_at ("WTR_" ++ draw left))
        (retry (persist_token s now draw id expires_at left)) db db Exception.unique_constraint
        (attempt-taken id expires_at _ db known (taken left (omega arith)))
      ∙ persist_token-taken id expires_at left db known (λ n k. taken n (omega arith))

  persist_token-free :
      (id : String) (expires_at left : ℕ) (db : TicketDb)
      → is_known db id ≡ true
      → is_taken db id ("WTR_" ++ draw left) ≡ false
      → persist_token s now draw id expires_at (suc left) db
        ≡ (ok ("WTR_" ++ draw left), set_token s now id expires_at ("WTR_" ++ draw left) db)
  unfolding persist_token
  persist_token-free id expires_at left db known free =
      try_ran (attempt s now id expires_at ("WTR_" ++ draw left))
        (retry (persist_token s now draw id expires_at left)) db _ _
        (attempt-free id expires_at ("WTR_" ++ draw left) db known free)

  -- a registration's row is known by its id
  known_of :
      (id : String) (r : TicketRegistration) (db : TicketDb)
      → find_registration db id ≡ some r
      → (r.id ≡ id) × (is_known db id ≡ true)
  known_of id r db h = go db.registrations h
    where
      same :
          (x : TicketRegistration) (rows : List TicketRegistration)
          → (x.id == id) ≡ true
          → find (λ x. x.id == id) (x ∷ rows) ≡ some r
          → x ≡ r
      same x rows own e = ground (arith, own, e)

      go :
          (rows : List TicketRegistration)
          → find (λ x. x.id == id) rows ≡ some r
          → (r.id ≡ id) × (not (eqb (count_where (λ x. x.id == id) rows) 0) ≡ true)
      go [] e = absurd (cc)
      go (x ∷ rows) e = elim (Bool-cases (x.id == id)) [
        | inl own ↦ (
          sym (ap (λ (y : TicketRegistration). y.id) (same x rows own e)) ∙ ==_sound x.id id own,
          ground (arith, own),
        )
        | inr other ↦
            let (a, b) = go rows (ground (arith, e, other)) in (a, ground (arith, b, other))
      ]

  create-issue :
      (id : String) (r : TicketRegistration) (db : TicketDb)
      → find_registration db id ≡ some r
      → create_for_registration s now draw id db ≡ issue s now draw r db
  unfolding create_for_registration
  create-issue id r db found =
      bind_ran (λ d. (or_not_found (find_registration d id) "Registration not found", d))
        (issue s now draw) db db r (rw found refl)

  -- A new link for a registration that is there: if the tokens of all five attempts are taken by other
  -- registrations, it is an error and nothing has changed.
  pub create-all_taken :
      (id : String) (r : TicketRegistration) (db : TicketDb)
      → find_registration db id ≡ some r
      → ((n : ℕ) → n < 5 → is_taken db id ("WTR_" ++ draw n) ≡ true)
      → create_for_registration s now draw id db
        ≡ (err (Exception.bad_request "Could not generate ticket request token"), db)
  unfolding issue persist_unique_token
  create-all_taken id r db found taken =
      let (own, known) = known_of id r db found in
      create-issue id r db found
      ∙ bind_failed (persist_unique_token s now draw r.id (expiry s now)) (finish s now r) db db _
          (rw own (persist_token-taken id (expiry s now) 5 db known taken))

  find_head :
      {A : Type 0} (p : A → Bool) (x : A) (xs : List A) → p x ≡ true → find p (x ∷ xs) ≡ some x
  find_head p x xs e = rw e refl

  -- a row that is changed is found as the change leaves it
  find_changed :
      (id : String) (f : TicketRegistration → TicketRegistration) (r : TicketRegistration)
      (rows : List TicketRegistration)
      → ((x : TicketRegistration) → (f x).id ≡ x.id)
      → find (λ x. x.id == id) rows ≡ some r
      → find (λ x. x.id == id) (update (λ x. x.id == id) f rows) ≡ some (f r)
  find_changed id f r [] same h = absurd (cc)
  find_changed id f r (x ∷ rows) same h = elim (Bool-cases (x.id == id)) [
    | inl e ↦
        let found : x ≡ r = ground (arith, h, e) in
        rw e (
          find_head (λ y. y.id == id) (f x) _ (subst (λ k. (k == id) ≡ true) (sym (same x)) e)
          ∙ ap (λ (y : TicketRegistration). some (f y)) found)
    | inr e ↦ rw (e, e) (find_changed id f r rows same (ground (arith, h, e)))
  ]

  -- Where no phone for requests is configured, and the token of the first attempt is free: a new link
  -- for a registration that is there is an error, and all the same its row has the new token and its
  -- period, and is neither bound to a phone any more nor consumed.
  pub create-unconfigured :
      (id : String) (r : TicketRegistration) (db : TicketDb)
      → find_registration db id ≡ some r
      → is_taken db id ("WTR_" ++ draw 4) ≡ false
      → is_empty (normalize_phone (some s.request_phone)) ≡ true
      → ((create_for_registration s now draw id db).0
          ≡ err (Exception.bad_request "WHATSAPP_REQUEST_PHONE is not configured"))
        × (find_registration (create_for_registration s now draw id db).1 id
            ≡ some (record r {
              ticket_request_token = some ("WTR_" ++ draw 4);
              ticket_request_expires_at = some (now + s.expires_hours * 3600000);
              ticket_request_created_at = some now;
              ticket_request_consumed_at = none;
              ticket_request_phone = none;
              ticket_request_claimed_at = none;
            }))
  unfolding issue persist_unique_token finish build_whatsapp_url set_token
  create-unconfigured id r db found free missing =
      let (own, known) = known_of id r db found in
      let ran : create_for_registration s now draw id db ≡ (
        err (Exception.bad_request "WHATSAPP_REQUEST_PHONE is not configured"),
        set_token s now id (expiry s now) ("WTR_" ++ draw 4) db,
      ) =
        create-issue id r db found
        ∙ bind_ran (persist_unique_token s now draw r.id (expiry s now)) (finish s now r) db
            (set_token s now id (expiry s now) ("WTR_" ++ draw 4) db) ("WTR_" ++ draw 4)
            (rw own (persist_token-free id (expiry s now) 4 db known free))
        ∙ rw missing refl in
      rw ran (
        refl,
        find_changed id (renewed s now (expiry s now) ("WTR_" ++ draw 4)) r db.registrations
            (λ x. refl) found,
      )
