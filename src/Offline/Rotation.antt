-- ===== src/Offline/Rotation.antt =====
-- The rotation of a device's key: `provisionDevicePublicKey` of modules/offline/offline-qr.service.ts.
use creative_backend.Base.{
  ℕ, ◌≤◌, ◌≡◌, refl, sym, ◌∙◌, ap, ◌↔◌, Bool, true, not, none, some, List, [], ◌∷◌, ◌++◌, map,
  arith, eqb_self, ==_self, find, find_satisfies, update, all, find-update, inl, inr, Option-cases,
}
use creative_backend.Base.Result.{ok}
use creative_backend.Runtime.{Runtime}
use creative_backend.Offline.{assert_key_usable_for_payload}
use creative_backend.Offline.Keys.{
  ProvisionInput, is_active_key, has_version, is_replaced, rotate_key, created_key, renewed_key,
  upsert_key, provision_device_public_key,
}
use creative_backend.Store.{Db, DeviceOfflineKey}

-- A key that provisioning rotates vouches from then on for exactly the codes that were issued after
-- it became valid and not after the rotation.
pub rotate_key-usable_iff :
    (now issued : ℕ) (input : ProvisionInput) (key : DeviceOfflineKey)
    → is_replaced input key ≡ true
    → (assert_key_usable_for_payload (rotate_key now input key) issued ≡ ok tt)
      ↔ ((key.valid_from ≤ issued) × (issued ≤ now))
unfolding assert_key_usable_for_payload rotate_key
rotate_key-usable_iff now issued input key h =
    (λ e. (ground (arith, h, e), ground (arith, h, e)), λ (a, b). ground (arith, h, a, b))

-- the key is not an active one of the device with another version
abbrev pub is_current : ProvisionInput → DeviceOfflineKey → Bool
is_current input key = not (is_replaced input key)

rotated-all_current :
    (now : ℕ) (input : ProvisionInput) (keys : List DeviceOfflineKey)
    → all (is_current input) (map (rotate_key now input) keys) ≡ true
unfolding rotate_key
rotated-all_current now input [] = refl
rotated-all_current now input (k ∷ ks) = ground (arith, rotated-all_current now input ks)

all-append_one :
    (p : DeviceOfflineKey → Bool) (k : DeviceOfflineKey) (keys : List DeviceOfflineKey)
    → all p keys ≡ true
    → p k ≡ true
    → all p (keys ++ k ∷ []) ≡ true
all-append_one p k [] h own = rw own refl
all-append_one p k (x ∷ xs) h own = ground (arith, all-append_one p k xs)

all-update :
    (p test : DeviceOfflineKey → Bool) (k : DeviceOfflineKey) (keys : List DeviceOfflineKey)
    → all p keys ≡ true
    → p k ≡ true
    → all p (update test (λ x. k) keys) ≡ true
all-update p test k [] h own = refl
all-update p test k (x ∷ xs) h own = ground (arith, own, all-update p test k xs)

find-append_one :
    (p : DeviceOfflineKey → Bool) (k : DeviceOfflineKey) (keys : List DeviceOfflineKey)
    → find p keys ≡ none
    → p k ≡ true
    → find p (keys ++ k ∷ []) ≡ some k
find-append_one p k [] h own = rw own refl
find-append_one p k (x ∷ xs) h own = ground (arith, find-append_one p k xs)

-- The rows of `db` have no active key of the device with another version, and the key is stored.
abbrev IsRotated : ProvisionInput → DeviceOfflineKey → Db → Type 0
IsRotated input key db =
    (all (is_current input) db.offline_keys ≡ true)
    × (find (has_version input.device_id input.key_version) db.offline_keys ≡ some key)

upsert_key-IsRotated :
    (now : ℕ) (input : ProvisionInput) (key : DeviceOfflineKey) (db : Db)
    → all (is_current input) db.offline_keys ≡ true
    → (upsert_key now input db).0 ≡ ok key
    → IsRotated input key (upsert_key now input db).1
unfolding upsert_key
upsert_key-IsRotated now input key db h e =
    elim (Option-cases (find (has_version input.device_id input.key_version) db.offline_keys)) [
      | inl new ↦
          let own : has_version input.device_id input.key_version (created_key now input) ≡ true =
            rw (==_self, eqb_self) refl in
          let current : is_current input (created_key now input) ≡ true =
            rw (eqb_self, ==_self) refl in
          let same : created_key now input ≡ key = ground (arith, new, e) in
          rw (new, upsert_key)
            (
              all-append_one (is_current input) (created_key now input) db.offline_keys h current,
              find-append_one _ (created_key now input) db.offline_keys new own ∙ ap some same,
            )
      | inr (old, found) ↦
          let own : has_version input.device_id input.key_version old ≡ true =
            find_satisfies (has_version input.device_id input.key_version) db.offline_keys old
              found in
          let current : is_current input (renewed_key input old) ≡ true = ground (arith, own) in
          let same : renewed_key input old ≡ key = ground (arith, found, e) in
          rw (found, upsert_key)
            (
              all-update (is_current input) _ (renewed_key input old) db.offline_keys h current,
              find-update _ (renewed_key input old) old db.offline_keys own found ∙ ap some same,
            )
    ]

-- Where provisioning with rotation returns a key, that key is active and stored for the device and
-- the version that were given, and no other version of the device has an active key.
pub provision-is_only_active :
    (node : Runtime) (now : ℕ) (input : ProvisionInput) (key : DeviceOfflineKey) (db : Db)
    → input.rotate_existing ≡ true
    → (provision_device_public_key node now input db).0 ≡ ok key
    → (is_active_key key.status ≡ true)
      × (find
            (has_version input.device_id input.key_version)
            (provision_device_public_key node now input db).1.offline_keys
          ≡ some key)
      × (all (is_current input) (provision_device_public_key node now input db).1.offline_keys
          ≡ true)
unfolding provision_device_public_key upsert_key
provision-is_only_active node now input key db rotate h =
    let rotated : Db = record db { offline_keys = map (rotate_key now input) db.offline_keys } in
    let step : provision_device_public_key node now input db ≡ upsert_key now input rotated =
      ground (arith, rotate, h) in
    let r =
      upsert_key-IsRotated now input key rotated (rotated-all_current now input db.offline_keys)
        (sym (ap (λ x. x.0) step) ∙ h) in
    (ground (arith, rotate, h), rw step r.1, rw step r.0)
