-- ===== src/Offline/Keys.antt =====
-- The keys of the devices: `provisionDevicePublicKey` and `getTrustBundle` of
-- modules/offline/offline-qr.service.ts. The audit log row that provisioning adds is left out.
use creative_backend.Base.{
  ℕ, String, Bool, true, false, not, ◌&&◌, Option, none, some, List, [], ◌∷◌, ◌++◌, map, ltb, eqb,
  ◌==◌, if◌then◌else◌, find, select, update,
}
use Prim.Native.String.{compare}
use text.Mathlib.Text.{is_le}
use creative_backend.Base.Result.{Result, ok, err}
use creative_backend.Base.Exec.{Exec, check, modify, transaction, ◌>>=◌, ◌>>◌}
use creative_backend.Runtime.{Runtime}
use creative_backend.Offline.{is_active_device, is_revoked_key, assert_ed25519_public_key}
use creative_backend.Store.{Db, Device, DeviceOfflineKey, OfflineKeyStatus, Exception}

pub record ProvisionInput : Type 0 where
  pub device_id : String
  pub public_key : String
  pub key_version : ℕ
  pub rotate_existing : Bool

abbrev pub is_active_key : OfflineKeyStatus → Bool
is_active_key OfflineKeyStatus.active = true
is_active_key _ = false

abbrev pub has_version : String → ℕ → DeviceOfflineKey → Bool
has_version device_id version key = (key.device_id == device_id) && eqb key.version version

-- an active key of the device with another version
abbrev pub is_replaced : ProvisionInput → DeviceOfflineKey → Bool
is_replaced input key =
    (key.device_id == input.device_id)
    && is_active_key key.status
    && not (eqb key.version input.key_version)

unfoldable pub rotate_key : (now : ℕ) → ProvisionInput → DeviceOfflineKey → DeviceOfflineKey
rotate_key now input key =
    if is_replaced input key
    then record key { status = OfflineKeyStatus.rotated; valid_until = some now }
    else key

-- the row that `upsert` creates, and what it makes of the row that is there
abbrev pub created_key : (now : ℕ) → ProvisionInput → DeviceOfflineKey
created_key now input = record {
  device_id = input.device_id;
  version = input.key_version;
  public_key = input.public_key;
  status = OfflineKeyStatus.active;
  valid_from = now;
  valid_until = none;
  revoked_at = none;
}

abbrev pub renewed_key : ProvisionInput → DeviceOfflineKey → DeviceOfflineKey
renewed_key input key = record key {
  public_key = input.public_key;
  status = OfflineKeyStatus.active;
  valid_until = none;
  revoked_at = none;
}

unfoldable pub upsert_key : (now : ℕ) → ProvisionInput → Exec Db Exception DeviceOfflineKey
upsert_key now input db =
    elim (find (has_version input.device_id input.key_version) db.offline_keys) [
      | none ↦ (
        ok (created_key now input),
        record db { offline_keys = db.offline_keys ++ created_key now input ∷ [] },
      )
      | some key ↦ (
        ok (renewed_key input key),
        record db {
          offline_keys =
              update (has_version input.device_id input.key_version) (λ k. renewed_key input key)
                db.offline_keys;
        },
      )
    ]

abbrev find_device : String → Db → Result Exception Device
find_device id db = elim (find (λ d. d.id == id) db.devices) [
  | none ↦ err (Exception.not_found "Device not found")
  | some device ↦ ok device
]

unfoldable pub provision_device_public_key :
    Runtime → (now : ℕ) → ProvisionInput → Exec Db Exception DeviceOfflineKey
unfolding rotate_key upsert_key
provision_device_public_key node now input = do
  check (λ db. assert_ed25519_public_key node input.public_key)
  device ← check (find_device input.device_id)
  transaction do
    modify (λ db.
        if input.rotate_existing
        then record db { offline_keys = map (rotate_key now input) db.offline_keys }
        else db)
    upsert_key now input

-- what devices are told about a key
pub record TrustedKey : Type 0 where
  pub device_id : String
  pub key_version : ℕ
  pub public_key : String
  pub status : OfflineKeyStatus
  pub valid_from : ℕ
  pub valid_until : Option ℕ

abbrev trusted_key : DeviceOfflineKey → TrustedKey
trusted_key key = record {
  device_id = key.device_id;
  key_version = key.version;
  public_key = key.public_key;
  status = key.status;
  valid_from = key.valid_from;
  valid_until = key.valid_until;
}

-- `device: { eventId, status: ACTIVE }`
abbrev pub is_of_active_device : Db → String → DeviceOfflineKey → Bool
is_of_active_device db event_id key = elim (find (λ d. d.id == key.device_id) db.devices) [
  | none ↦ false
  | some device ↦ (device.event_id == event_id) && is_active_device device.status
]

-- ACTIVE or ROTATED, of an active device of the event
unfoldable pub is_trusted : Db → String → DeviceOfflineKey → Bool
is_trusted db event_id key = is_of_active_device db event_id key && not (is_revoked_key key.status)

-- by device, and for one device the newest version first
abbrev comes_before : DeviceOfflineKey → DeviceOfflineKey → Bool
comes_before a b =
    if a.device_id == b.device_id
    then ltb b.version a.version
    else is_le (compare a.device_id b.device_id)

abbrev insert_by_device : DeviceOfflineKey → List DeviceOfflineKey → List DeviceOfflineKey
insert_by_device key [] = key ∷ []
insert_by_device key (k ∷ ks) =
    let rest = insert_by_device key ks in if comes_before k key then k ∷ rest else key ∷ k ∷ ks

abbrev pub sort_by_device : List DeviceOfflineKey → List DeviceOfflineKey
sort_by_device [] = []
sort_by_device (k ∷ ks) = insert_by_device k (sort_by_device ks)

unfoldable pub get_trust_bundle : Db → String → Result Exception (List TrustedKey)
unfolding is_trusted
get_trust_bundle db device_id = elim (find (λ d. d.id == device_id) db.devices) [
  | none ↦ err (Exception.bad_request "Device must be ACTIVE")
  | some device ↦
      if is_active_device device.status
      then ok (
          map trusted_key (sort_by_device (select (is_trusted db device.event_id) db.offline_keys)))
      else err (Exception.bad_request "Device must be ACTIVE")
]
