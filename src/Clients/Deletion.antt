-- ===== src/Clients/Deletion.antt =====
-- What deactivating and deleting a client leave, in client-lifecycle.service.ts.
use creative_backend.Base.{
  ℕ, String, Bool, true, false, not, ◌&&◌, ◌||◌, some, List, [], ◌∷◌, ◌≡◌, refl, ap, ◌∙◌, sym,
  arith, select, update, Bool-cases, inl, inr, ◌⊎◌, all, ==_self, subst,
}
use creative_backend.Base.Exec.{
  pure, throw, check, transaction, bind_ran, bind_failed, ◌>>◌, try_failed, try_ran,
  transaction-cases,
}
use creative_backend.Base.Queries.{all_mono}
use creative_backend.Base.Result.{Result, ok, err, Result-cases}
use creative_backend.Scans.Checks.{or_not_found, includes}
use creative_backend.Store.{Exception}
use creative_backend.Clients.{
  Client, ClientUser, RefreshToken, ClientDb, find_client, is_some_text, is_live, users_of,
  user_ids, revoke_tokens, write_active, switch, set_found, set_active_status, check_deletion,
  clear_primary, tombstone, bury_users, is_referenced, delete_client, erase, erasure, as_conflict,
  erase_or_conflict, delete_permanently,
}

erase_or_conflict-cases :
    (now : ℕ) (id : String) (db : ClientDb)
    → ((e : Exception) × (erase_or_conflict now id db ≡ (err e, db)))
      ⊎ (erase_or_conflict now id db ≡ (ok tt, (erasure now id db).1))
unfolding erase_or_conflict erase
erase_or_conflict-cases now id db = elim (transaction-cases (erasure now id) db) [
  | inl (e, thrown) ↦ inl (
    as_conflict e,
    try_failed (transaction (erasure now id)) (λ x. throw (as_conflict x)) db db e thrown,
  )
  | inr (u, done) ↦
      inr (try_ran (transaction (erasure now id)) (λ x. throw (as_conflict x)) db _ u done)
]

-- What a deletion can be: refused by a check or in the transaction, or carried out.
delete_permanently-cases :
    (now : ℕ) (id : String) (db : ClientDb)
    → ((e : Exception) × (delete_permanently now id db ≡ (err e, db)))
      ⊎ ((check_deletion id db ≡ ok tt)
          × (delete_permanently now id db ≡ (ok id, (erasure now id db).1)))
unfolding delete_permanently
delete_permanently-cases now id db = elim (Result-cases (check_deletion id db)) [
  | inl (x, refused) ↦ inl (
    x,
    bind_failed (check (check_deletion id)) (λ u. erase_or_conflict now id >> pure id) db db x
        (ap (λ r. (r, db)) refused),
  )
  | inr (u, passed) ↦
      let ran =
        bind_ran (check (check_deletion id)) (λ u. erase_or_conflict now id >> pure id) db db u
          (ap (λ r. (r, db)) passed) in
      elim (erase_or_conflict-cases now id db) [
        | inl (e, thrown) ↦
            inl (e, ran ∙ bind_failed (erase_or_conflict now id) (λ u. pure id) db db e thrown)
        | inr done ↦
            inr (passed, ran ∙ bind_ran (erase_or_conflict now id) (λ u. pure id) db _ tt done)
      ]
]

-- A deletion that is refused, for whatever reason, has changed nothing.
pub delete_permanently-error :
    (now : ℕ) (id : String) (db : ClientDb) (e : Exception)
    → (delete_permanently now id db).0 ≡ err e
    → (delete_permanently now id db).1 ≡ db
delete_permanently-error now id db e h = elim (delete_permanently-cases now id db) [
  | inl (x, refused) ↦ ap (λ (r : Result Exception String × ClientDb). r.1) refused
  | inr (passed, done) ↦ absurd (cc)
]

abbrev pub belongs : String → ClientUser → Bool
belongs id u = is_some_text u.client_id id

-- a user of the client is one of `ids`
abbrev listed : String → List String → ClientUser → Bool
listed id ids u = not (belongs id u) || includes ids u.id

all-listed :
    (id : String) (users : List ClientUser)
    → all (listed id (user_ids (select (belongs id) users))) users ≡ true
all-listed id [] = refl
all-listed id (u ∷ users) = elim (Bool-cases (belongs id u)) [
  | inl own ↦
      subst (λ ids. all (listed id ids) (u ∷ users) ≡ true) (sym (kept own))
        (rw (own, ==_self u.id)
          (all_mono (listed id (user_ids (select (belongs id) users)))
            (listed id (u.id ∷ user_ids (select (belongs id) users))) users
            (λ v h. ground (arith, h)) (all-listed id users)))
  | inr other ↦
      subst (λ ids. all (listed id ids) (u ∷ users) ≡ true) (sym (dropped other))
        (rw other (all-listed id users))
]
  where
    kept :
        belongs id u ≡ true
        → user_ids (select (belongs id) (u ∷ users)) ≡ u.id ∷ user_ids (select (belongs id) users)
    kept own = rw own refl

    dropped :
        belongs id u ≡ false
        → user_ids (select (belongs id) (u ∷ users)) ≡ user_ids (select (belongs id) users)
    dropped other = rw other refl

all-buried :
    (now : ℕ) (id : String) (ids : List String) (users : List ClientUser)
    → all (listed id ids) users ≡ true
    → all (λ u. not (belongs id u)) (update (λ u. includes ids u.id) (tombstone now) users) ≡ true
unfolding tombstone
all-buried now id ids [] h = refl
all-buried now id ids (u ∷ users) h = elim (Bool-cases (includes ids u.id)) [
  | inl e ↦ rw e (all-buried now id ids users (ground (arith, h, e)))
  | inr e ↦ ground (arith, h, e, all-buried now id ids users)
]

-- no live token of a user in `ids`
abbrev pub is_cut : List String → RefreshToken → Bool
is_cut ids t = not (is_live t && includes ids t.user_id)

all-revoked :
    (now : ℕ) (ids : List String) (db : ClientDb)
    → all (is_cut ids) (revoke_tokens now ids db).refresh_tokens ≡ true
unfolding revoke_tokens
all-revoked now ids db = go db.refresh_tokens
  where
    go :
        (ts : List RefreshToken)
        → all (is_cut ids) (
            update
              (λ t. is_live t && includes ids t.user_id)
              (λ t. record t { revoked_at = some now })
              ts)
          ≡ true
    go [] = refl
    go (t ∷ ts) = elim (Bool-cases (is_live t && includes ids t.user_id)) [
      | inl e ↦ rw e (go ts)
      | inr e ↦ rw e (rw e (go ts))
    ]

delete_client-rest :
    (id : String) (db : ClientDb)
    → ((delete_client id db).1.users ≡ db.users)
      × ((delete_client id db).1.refresh_tokens ≡ db.refresh_tokens)
unfolding delete_client
delete_client-rest id db = elim (Bool-cases (is_referenced id db)) [
  | inl e ↦ (ground (arith, e), ground (arith, e))
  | inr e ↦ (ground (arith, e), ground (arith, e))
]

-- A deletion that is answered leaves no user of the client, and none of those who were its users has
-- a refresh token that is not revoked; the client was inactive and had no events.
pub delete_permanently-users :
    (now : ℕ) (id answer : String) (db : ClientDb)
    → (delete_permanently now id db).0 ≡ ok answer
    → (all (λ u. not (belongs id u)) (delete_permanently now id db).1.users ≡ true)
      × (all (is_cut (user_ids (users_of id db))) (delete_permanently now id db).1.refresh_tokens
          ≡ true)
      × (check_deletion id db ≡ ok tt)
unfolding erasure bury_users clear_primary revoke_tokens
delete_permanently-users now id answer db h = elim (delete_permanently-cases now id db) [
  | inl (x, refused) ↦ absurd (cc)
  | inr (passed, done) ↦
      let ids = user_ids (users_of id db) in
      let rest =
        delete_client-rest id (bury_users now ids (revoke_tokens now ids (clear_primary id db))) in
      (
        rw (done, rest.0) (all-buried now id ids db.users (all-listed id db.users)),
        rw (done, rest.1) (all-revoked now ids (clear_primary id db)),
        passed,
      )
]

set_active_status-found :
    (now : ℕ) (id : String) (client : Client) (db : ClientDb) (is_active : Bool)
    → find_client db id ≡ some client
    → set_active_status now id is_active db ≡ set_found now client is_active db
unfolding set_active_status
set_active_status-found now id client db is_active found =
    bind_ran (check (λ d. or_not_found (find_client d id) "Client not found"))
      (λ c. set_found now c is_active) db db client (rw found refl)

-- Behind the deactivation of a client that is there and active, none of its users has a refresh token
-- that is not revoked.
pub set_active_status-cut :
    (now : ℕ) (id : String) (client : Client) (db : ClientDb)
    → find_client db id ≡ some client
    → client.is_active ≡ true
    → all
        (is_cut (user_ids (users_of client.id db)))
        (set_active_status now id false db).1.refresh_tokens
      ≡ true
unfolding set_found switch write_active
set_active_status-cut now id client db found active =
    rw (set_active_status-found now id client db false found, active)
      (all-revoked now (user_ids (users_of client.id db)) (write_active client.id false db))
