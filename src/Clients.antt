-- ===== src/Clients.antt =====
-- src/modules/clients/client-lifecycle.service.ts: clients are deactivated, and deleted for good.
use creative_backend.Base.{
  ℕ, String, Bool, true, false, not, ◌&&◌, ◌||◌, Option, none, some, List, [], ◌∷◌, ◌==◌, eqb, ltb,
  if◌then◌else◌, find, select, update, count_where, map, length,
}
use creative_backend.Base.Exec.{
  Exec, pure, throw, check, modify, transaction, try_catch, ◌>>=◌, ◌>>◌,
}
use creative_backend.Base.Result.{Result, ok, err}
use creative_backend.Scans.Checks.{or_not_found, includes}
use creative_backend.Store.{UserStatus, Exception}
pub mod Deletion
mod Tests

pub record Client : Type 0 where
  pub id : String
  pub is_active : Bool
  pub primary_user_id : Option String

pub record ClientUser : Type 0 where
  pub id : String
  pub client_id : Option String
  pub status : UserStatus
  pub deleted_at : Option ℕ
  pub email : Option String
  pub phone : Option String
  pub full_name : String

pub record RefreshToken : Type 0 where
  pub id : String
  pub user_id : String
  pub revoked_at : Option ℕ

pub record ClientEvent : Type 0 where
  pub id : String
  pub client_id : String

-- Rows of other tables that name a client, which a foreign key keeps from being deleted, are those of
-- `referenced`.
pub record ClientDb : Type 0 where
  pub clients : List Client
  pub users : List ClientUser
  pub refresh_tokens : List RefreshToken
  pub events : List ClientEvent
  pub referenced : List String

abbrev pub Action : Type 0 → Type 0
Action A = Exec ClientDb Exception A

abbrev pub find_client : ClientDb → String → Option Client
find_client db id = find (λ c. c.id == id) db.clients

abbrev pub is_some_text : Option String → String → Bool
is_some_text none t = false
is_some_text (some s) t = s == t

abbrev pub is_live : RefreshToken → Bool
is_live t = elim t.revoked_at [ none ↦ true | some instant ↦ false ]

abbrev pub users_of : String → ClientDb → List ClientUser
users_of id db = select (λ u. is_some_text u.client_id id) db.users

abbrev pub user_ids : List ClientUser → List String
user_ids users = map (λ (u : ClientUser). u.id) users

abbrev revoke : (now : ℕ) → RefreshToken → RefreshToken
revoke now t = record t { revoked_at = some now }

-- `refreshToken.updateMany` for the users of a list
unfoldable pub revoke_tokens : (now : ℕ) → List String → ClientDb → ClientDb
revoke_tokens now ids db = record db {
  refresh_tokens = update (λ t. is_live t && includes ids t.user_id) (revoke now) db.refresh_tokens;
}

pub record Changed : Type 0 where
  pub changed : Bool
  pub client : Client

abbrev pub same_bool : Bool → Bool → Bool
same_bool true b = b
same_bool false b = not b

unfoldable pub write_active : String → Bool → ClientDb → ClientDb
write_active id is_active db = record db {
  clients = update (λ c. c.id == id) (λ c. record c { is_active = is_active }) db.clients;
}

-- the transaction of `setActiveStatus`; the tokens are those of the client's users
unfoldable pub switch : (now : ℕ) → Client → Bool → Action Changed
unfolding write_active revoke_tokens
switch now client is_active = transaction do
  modify (write_active client.id is_active)
  modify (λ db. if is_active then db else revoke_tokens now (user_ids (users_of client.id db)) db)
  pure (record { changed = true; client = record client { is_active = is_active } })

unfoldable pub set_found : (now : ℕ) → Client → Bool → Action Changed
unfolding switch
set_found now client is_active =
    if same_bool client.is_active is_active
    then pure (record { changed = false; client = client })
    else switch now client is_active

unfoldable pub set_active_status : (now : ℕ) → String → Bool → Action Changed
unfolding set_found
set_active_status now id is_active = do
  client ← check (λ db. or_not_found (find_client db id) "Client not found")
  set_found now client is_active

abbrev pub events_of : String → ClientDb → ℕ
events_of id db = count_where (λ e. e.client_id == id) db.events

-- the checks of `deletePermanently`
unfoldable pub check_deletion : String → ClientDb → Result Exception (Unit {0})
check_deletion id db = elim (find_client db id) [
  | none ↦ err (Exception.not_found "Client not found")
  | some client ↦
      if client.is_active
      then err (Exception.conflict "Deactivate the client before permanent deletion")
      else if not (eqb (events_of id db) 0)
      then err (
          Exception.conflict
            "Client has related events and cannot be permanently deleted. Keep it deactivated to preserve event history.")
      else ok tt
]

unfoldable pub clear_primary : String → ClientDb → ClientDb
clear_primary id db = record db {
  clients = update (λ c. c.id == id) (λ c. record c { primary_user_id = none }) db.clients;
}

-- a user's row that stays for the records that name it
unfoldable pub tombstone : (now : ℕ) → ClientUser → ClientUser
tombstone now u = record u {
  client_id = none;
  status = UserStatus.deleted;
  deleted_at = some now;
  email = none;
  phone = none;
  full_name = "Deleted client account";
}

unfoldable pub bury_users : (now : ℕ) → List String → ClientDb → ClientDb
unfolding tombstone
bury_users now ids db = record db {
  users = update (λ u. includes ids u.id) (tombstone now) db.users;
}

-- The foreign keys of the users and of the other tables refuse with the code P2003.
abbrev pub is_referenced : String → ClientDb → Bool
is_referenced id db =
    includes db.referenced id
    || not (eqb (length (users_of id db)) 0)
    || not (eqb (events_of id db) 0)

unfoldable pub delete_client : String → Action (Unit {0})
delete_client id db =
    if is_referenced id db
    then (err (Exception.failure "P2003"), db)
    else (ok tt, record db { clients = select (λ c. not (c.id == id)) db.clients })

-- the transaction of `deletePermanently`; an empty list of users makes no change
unfoldable pub erasure : (now : ℕ) → String → Action (Unit {0})
unfolding clear_primary revoke_tokens bury_users delete_client
erasure now id = do
  ids ← check (λ db. ok (user_ids (users_of id db)))
  modify (clear_primary id)
  modify (revoke_tokens now ids)
  modify (bury_users now ids)
  delete_client id

unfoldable pub erase : (now : ℕ) → String → Action (Unit {0})
unfolding erasure
erase now id = transaction (erasure now id)

abbrev pub as_conflict : Exception → Exception
as_conflict (Exception.failure code) =
    if code == "P2003"
    then Exception.conflict "Client still has related records and cannot be permanently deleted"
    else Exception.failure code
as_conflict e = e

unfoldable pub erase_or_conflict : (now : ℕ) → String → Action (Unit {0})
unfolding erase
erase_or_conflict now id = try_catch (erase now id) (λ e. throw (as_conflict e))

unfoldable pub delete_permanently : (now : ℕ) → String → Action String
unfolding check_deletion erase_or_conflict
delete_permanently now id = do check (check_deletion id); erase_or_conflict now id; pure id
