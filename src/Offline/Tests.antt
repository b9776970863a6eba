-- ===== src/Offline/Tests.antt =====
-- Runs of the verification of offline codes on a small database, and instances of the theorems.
use creative_backend.Base.{ℕ, List, ◌≤◌, ◌↔◌, true, map, find, all, ◌≡◌, refl, some, none, [], ◌∷◌}
use creative_backend.Base.Result.{Result, ok, err}
use creative_backend.Base.Json.{Json, nat, str, arr, nil, cons}
use creative_backend.Runtime.{Runtime}
use creative_backend.Qr.Toy.{toy, runs}
use creative_backend.Offline.{
  VerifiedOfflineQr, normalize_offline_qr_payload, assert_offline_qr_payload,
  parse_signed_offline_qr, hash_payload, assert_key_usable_for_payload, assert_ed25519_public_key,
  find_issuer, find_issuer_key, verify_signed_offline_qr,
}
use creative_backend.Offline.Payload.{normalize_compact, require_fields, compact_payload}
use creative_backend.Offline.Keys.{
  TrustedKey, ProvisionInput, is_active_key, has_version, rotate_key, created_key, upsert_key,
  provision_device_public_key, is_trusted, get_trust_bundle,
}
use creative_backend.Offline.Rotation.{is_current, rotate_key-usable_iff, provision-is_only_active}
use creative_backend.Offline.Trust.{IsVouched, verify_signed_offline-IsVouched}
use creative_backend.Store.{Db, DeviceOfflineKey, DeviceStatus, OfflineKeyStatus, Exception}

offline_runs : Unit {0}
unfolding runs normalize_offline_qr_payload normalize_compact require_fields
    assert_offline_qr_payload parse_signed_offline_qr hash_payload assert_key_usable_for_payload
    assert_ed25519_public_key find_issuer find_issuer_key verify_signed_offline_qr rotate_key
    upsert_key provision_device_public_key is_trusted get_trust_bundle
offline_runs = tt

-- a code that device `d1` issues at 10 s for an hour
abbrev code_json : Json
code_json = arr (
    cons (nat 2) (
      cons (str "e1") (
        cons (str "d1") (
          cons (nat 3) (
            cons (str "op1")
              (cons (str "O2.t1") (cons (str "t1") (cons (nat 10) (cons (nat 3610) nil)))))))))

abbrev node : Runtime
node = record toy {
  json_parse = λ text. some code_json;
  to_iso_string = λ t. "2026";
  parse_date = λ text. some 10000;
}

abbrev trusting : OfflineKeyStatus → Db
trusting status = record {
  events = [];
  users = [];
  staff_assignments = [];
  devices =
      record { id = "d1"; event_id = "e1"; status = DeviceStatus.active; last_seen_at = none } ∷ [];
  staff_sessions = [];
  checkpoints = [];
  registrations = [];
  qr_tokens = [];
  scans = [];
  movements = [];
  offline_keys =
      record {
        device_id = "d1";
        version = 3;
        public_key = "key";
        status = status;
        valid_from = 5000;
        valid_until = none;
        revoked_at = some 9000;
      }
      ∷ [];
  mappings = [];
  offline_scans = [];
  next_id = 0;
}

abbrev verified : VerifiedOfflineQr
verified = record {
  signed_offline_qr = "a.b";
  encoded_payload = "a";
  signature = "b";
  payload = compact_payload node "e1" "d1" "op1" "O2.t1" "t1" 3 10 3610;
  payload_hash = hash_payload node (compact_payload node "e1" "d1" "op1" "O2.t1" "t1" 3 10 3610);
}

offline_tests :
    (verify_signed_offline_qr node (trusting OfflineKeyStatus.active) 9999 "a.b" (some "e1")
      ≡ ok verified)
    × (verify_signed_offline_qr node (trusting OfflineKeyStatus.active) 10001 "a.b" (some "e1")
        ≡ err (Exception.bad_request "Offline QR expired"))
    × (verify_signed_offline_qr node (trusting OfflineKeyStatus.revoked) 9999 "a.b" (some "e1")
        ≡ err (Exception.bad_request "Offline QR issuer key is revoked"))
    × (verify_signed_offline_qr node (trusting OfflineKeyStatus.active) 9999 "a.b" (some "e2")
        ≡ err (Exception.bad_request "Offline QR event mismatch"))
unfolding offline_runs
offline_tests = (refl, refl, refl, refl)

verify_signed_offline-IsVouched_example :
    (parse_signed_offline_qr node "a.b" ≡ ok verified)
    × IsVouched node (trusting OfflineKeyStatus.active) 9999 "e1" verified
unfolding offline_runs
verify_signed_offline-IsVouched_example =
    verify_signed_offline-IsVouched node (trusting OfflineKeyStatus.active) 9999 "e1" "a.b" verified
      refl refl

abbrev rotation : ProvisionInput
rotation = record { device_id = "d1"; public_key = "new"; key_version = 4; rotate_existing = true }

abbrev first_key : DeviceOfflineKey
first_key = record {
  device_id = "d1";
  version = 3;
  public_key = "key";
  status = OfflineKeyStatus.active;
  valid_from = 5000;
  valid_until = none;
  revoked_at = some 9000;
}

abbrev versions : Result Exception (List TrustedKey) → List ℕ
versions (err e) = []
versions (ok keys) = map (λ k. k.key_version) keys

rotation_tests :
    ((provision_device_public_key node 9999 rotation
        (trusting OfflineKeyStatus.active)).1.offline_keys
      ≡ rotate_key 9999 rotation first_key ∷ created_key 9999 rotation ∷ [])
    × (versions (
          get_trust_bundle
            (provision_device_public_key node 9999 rotation (trusting OfflineKeyStatus.active)).1
            "d1")
        ≡ 4 ∷ 3 ∷ [])
unfolding offline_runs
rotation_tests = (refl, refl)

rotate_key-usable_iff_example :
    (assert_key_usable_for_payload (rotate_key 9999 rotation first_key) 7000 ≡ ok tt)
    ↔ ((5000 ≤ 7000) × (7000 ≤ 9999))
rotate_key-usable_iff_example = rotate_key-usable_iff 9999 7000 rotation first_key refl

provision-is_only_active_example :
    (is_active_key OfflineKeyStatus.active ≡ true)
    × (find
          (has_version "d1" 4)
          (provision_device_public_key node 9999 rotation
            (trusting OfflineKeyStatus.active)).1.offline_keys
        ≡ some (created_key 9999 rotation))
    × (all
          (is_current rotation)
          (provision_device_public_key node 9999 rotation
            (trusting OfflineKeyStatus.active)).1.offline_keys
        ≡ true)
unfolding offline_runs
provision-is_only_active_example =
    provision-is_only_active node 9999 rotation (created_key 9999 rotation)
      (trusting OfflineKeyStatus.active) refl refl
