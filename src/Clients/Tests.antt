-- ===== src/Clients/Tests.antt =====
-- A client with one user, and the theorems applied to it.
use creative_backend.Base.{true, false, not, none, some, [], ◌∷◌, ◌≡◌, refl, all}
use creative_backend.Base.Result.{ok}
use creative_backend.Store.{UserStatus, Exception}
use creative_backend.Clients.{
  Client, ClientUser, ClientDb, users_of, user_ids, check_deletion, set_active_status,
  delete_permanently,
}
use creative_backend.Clients.Deletion.{
  belongs, is_cut, delete_permanently-error, delete_permanently-users, set_active_status-cut,
}

abbrev client : Client
client = record { id = "k1"; is_active = true; primary_user_id = some "u1" }

abbrev user : ClientUser
user = record {
  id = "u1";
  client_id = some "k1";
  status = UserStatus.active;
  deleted_at = none;
  email = some "a@example.com";
  phone = none;
  full_name = "A";
}

abbrev active : ClientDb
active = record {
  clients = client ∷ [];
  users = user ∷ record user { id = "u2"; client_id = some "k2" } ∷ [];
  refresh_tokens =
      record { id = "t1"; user_id = "u1"; revoked_at = none }
      ∷ record { id = "t2"; user_id = "u2"; revoked_at = none }
      ∷ [];
  events = [];
  referenced = [];
}

abbrev inactive : ClientDb
inactive = record active { clients = record client { is_active = false } ∷ [] }

unfoldable client_runs : Unit {0}
unfolding set_active_status delete_permanently
client_runs = tt

deletion_test : delete_permanently 7 "k1" inactive ≡ (
  ok "k1",
  record active {
    clients = [];
    users =
        record {
          id = "u1";
          client_id = none;
          status = UserStatus.deleted;
          deleted_at = some 7;
          email = none;
          phone = none;
          full_name = "Deleted client account";
        }
        ∷ record user { id = "u2"; client_id = some "k2" }
        ∷ [];
    refresh_tokens =
        record { id = "t1"; user_id = "u1"; revoked_at = some 7 }
        ∷ record { id = "t2"; user_id = "u2"; revoked_at = none }
        ∷ [];
  },
)
unfolding client_runs
deletion_test = refl

delete_permanently-error_example :
    (delete_permanently 7 "k1" (record inactive { referenced = "k1" ∷ [] })).1
    ≡ record inactive { referenced = "k1" ∷ [] }
unfolding client_runs
delete_permanently-error_example =
    delete_permanently-error 7 "k1" (record inactive { referenced = "k1" ∷ [] })
      (Exception.conflict "Client still has related records and cannot be permanently deleted") refl

delete_permanently-users_example :
    (all (λ u. not (belongs "k1" u)) (delete_permanently 7 "k1" inactive).1.users ≡ true)
    × (all
          (is_cut (user_ids (users_of "k1" inactive)))
          (delete_permanently 7 "k1" inactive).1.refresh_tokens
        ≡ true)
    × (check_deletion "k1" inactive ≡ ok tt)
unfolding client_runs
delete_permanently-users_example = delete_permanently-users 7 "k1" "k1" inactive refl

set_active_status-cut_example :
    all
      (is_cut (user_ids (users_of "k1" active)))
      (set_active_status 7 "k1" false active).1.refresh_tokens
    ≡ true
set_active_status-cut_example = set_active_status-cut 7 "k1" client active refl refl
