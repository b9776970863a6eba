-- ===== src/Scans/Offline.antt =====
-- `ingestOfflineScan`, `processOfflineScanOperation` and `reconcileOfflineRegistration`: scans that
-- were made offline, and their settlement once the registration is known.
use creative_backend.Base.{
  ℕ, String, Bool, true, false, ◌&&◌, ◌||◌, Option, none, some, ◌==◌, if◌then◌else◌, find,
}
use creative_backend.Base.Result.{Result, ok, err}
use creative_backend.Base.Exec.{pure, gets, ◌>>=◌, ◌>>◌}
use creative_backend.Base.Json.{null, str, Fields, end, field, get_text}
use creative_backend.Scans.Checks.{
  Place, given, ensure_event_can_be_modified, ensure_active_device, ensure_active_checkpoint,
  ensure_staff_session_for_offline_replay, verdict, result_of, is_allowed,
}
use creative_backend.Scans.Context.{Env, StoredQrToken, find_stored, matches_if_given, set_field}
use creative_backend.Scans.Records.{
  Action, CreateScanDto, find_scan_by_operation, movement_of, find_offline_scan,
  update_offline_scan, touch_activity, create_processed_scan_and_movement,
  update_raw_scan_and_create_movement,
}
use creative_backend.Store.{
  Db, QrTokenStatus, ScanEventRaw, MovementLog, OfflineRegistrationMapping, OfflineScanOperation,
  OfflineScanStatus, Exception,
}

pub data Settlement : Type 0 where
  settled :
      (allowed : Bool)
      → (reason : String) → OfflineScanOperation
      → ScanEventRaw
      → MovementLog
      → Settlement
  already_settled : OfflineScanOperation → Settlement
  waiting : (retryable : Bool) → OfflineScanOperation → Settlement
  conflict : OfflineScanOperation → Settlement
  duplicate : OfflineScanOperation → Settlement
  failed : OfflineScanOperation → Settlement

abbrev pub is_processed : OfflineScanStatus → Bool
is_processed OfflineScanStatus.processed = true
is_processed _ = false

abbrev pub is_conflicted : OfflineScanStatus → Bool
is_conflicted OfflineScanStatus.conflicted = true
is_conflicted _ = false

-- PENDING_LINK or FAILED
abbrev pub is_retried : OfflineScanStatus → Bool
is_retried OfflineScanStatus.pending_link = true
is_retried OfflineScanStatus.failed = true
is_retried _ = false

-- PENDING_LINK, LINKED or FAILED
abbrev pub is_open : OfflineScanStatus → Bool
is_open OfflineScanStatus.processed = false
is_open OfflineScanStatus.conflicted = false
is_open _ = true

abbrev is_active_token : QrTokenStatus → Bool
is_active_token QrTokenStatus.active = true
is_active_token _ = false

abbrev pub is_some {ℓ} : {A : Type ℓ} → Option A → Bool
is_some none = false
is_some (some a) = true

abbrev fields_of : Option Fields → Fields
fields_of none = end
fields_of (some fields) = fields

-- `inputType` of the stored payload, or what the hash tells
abbrev input_type : OfflineScanOperation → String
input_type o = elim (get_text "inputType" (fields_of o.qr_payload)) [
  | some text ↦ text
  | none ↦ elim (given o.qr_payload_hash) [
    | some hash ↦ "OFFLINE_SIGNED"
    | none ↦ "OFFLINE_REFERENCE"
  ]
]

-- the second disjunct of the query for a mapping
abbrev same_operation : Env → Option String → String → Bool
same_operation env none operation_id = env.undefined_disjunct_matches
same_operation env (some id) operation_id = operation_id == id

unfoldable pub find_canonical_mapping :
    Env → Db → OfflineScanOperation → Option OfflineRegistrationMapping
find_canonical_mapping env db o =
    find
      (λ m.
        (m.event_id == o.event_id)
        && ((m.offline_qr_token == o.offline_qr_token)
            || same_operation env o.offline_registration_operation_id
                m.offline_registration_operation_id)
        && is_some m.registration_id)
      db.mappings

-- a stored token with the payload that the scan will carry
pub record Canonical : Type 0 where
  pub stored : StoredQrToken
  pub payload : Fields

unfoldable pub get_canonical_context_for_offline_scan :
    Env → OfflineScanOperation → Db → Result Exception (Option Canonical)
unfolding find_canonical_mapping
get_canonical_context_for_offline_scan env o db = elim (find_canonical_mapping env db o) [
  | none ↦ ok none
  | some mapping ↦ elim (given mapping.registration_id) [
    | none ↦ ok none
    | some registration_id ↦
        elim (find_stored db (λ t.
          matches_if_given mapping.canonical_qr_token_id t.id
          && (t.registration_id == registration_id)
          && is_active_token t.status)) [
            | none ↦ err (Exception.bad_request "Canonical QR token not found")
            | some stored ↦ ok (
                some (record {
                  stored = stored;
                  payload =
                      set_field "canonicalTokenId" (str stored.token.token_id)
                        (set_field "inputType" (str (input_type o)) (fields_of o.qr_payload));
                }))
          ]
  ]
]

-- the request that is replayed
abbrev pub replay_dto : OfflineScanOperation → CreateScanDto
replay_dto o = record {
  operation_id = o.operation_id;
  event_id = o.event_id;
  device_id = o.scanner_device_id;
  staff_session_id = o.staff_session_id;
  checkpoint_id = some o.checkpoint_id;
  qr_token = o.offline_qr_token;
  type = o.movement_type;
  scanned_at_device = o.scanned_at_device;
  payload = some (
      field "inputType" (str (input_type o)) (elim o.local_result [
        | none ↦ field "localResult" null end
        | some text ↦ field "localResult" (str text) end
      ]));
}

-- the checks before a replay; the session may have ended
unfoldable pub replay_place : OfflineScanOperation → Db → Result Exception Place
replay_place o db = elim (ensure_event_can_be_modified db o.event_id) [
  | err e ↦ err e
  | ok event ↦ elim (ensure_active_device db o.scanner_device_id o.event_id) [
    | err e ↦ err e
    | ok device ↦
        elim (ensure_staff_session_for_offline_replay db o.staff_session_id o.event_id
          o.scanner_device_id o.checkpoint_id) [
            | err e ↦ err e
            | ok session ↦ elim (ensure_active_checkpoint db (some o.checkpoint_id) o.event_id) [
              | err e ↦ err e
              | ok checkpoint ↦ ok (record {
                event = event;
                device = device;
                session = session;
                checkpoint = checkpoint;
              })
            ]
          ]
  ]
]

module _ (env : Env) where
  -- the scan and the movement of a replay, on the raw scan of its operation id if there is one
  unfoldable pub replay_scan :
      OfflineScanOperation
      → Option ScanEventRaw
      → Canonical
      → (reason : String) → Action (ScanEventRaw × MovementLog)
  replay_scan o (some scan) c reason =
      update_raw_scan_and_create_movement env.now scan c.stored.token c.stored.registration
        c.payload (result_of reason) reason
  replay_scan o none c reason =
      create_processed_scan_and_movement env.now (replay_dto o) c.stored.token c.stored.registration
        c.payload (result_of reason) reason

  unfoldable pub settle :
      OfflineScanOperation → Option ScanEventRaw → Canonical → Place → Action Settlement
  unfolding replay_scan
  settle o raw c place = do
    reason ← gets (λ db.
        verdict db place.event place.checkpoint c.stored.registration.attendee_type_code
          c.stored.registration.id o.movement_type)
    (scan, movement) ← replay_scan o raw c reason
    updated ← update_offline_scan (record o {
      status = OfflineScanStatus.processed;
      registration_id = some c.stored.registration.id;
      movement_id = some movement.id;
      scan_event_raw_id = some scan.id;
      synced_at = some env.now;
    })
    touch_activity env.now o.scanner_device_id place.session
    pure (settled (is_allowed (result_of reason)) reason updated scan movement)

  -- an operation whose movement exists already
  unfoldable pub adopt : OfflineScanOperation → ScanEventRaw → MovementLog → Action Settlement
  adopt o scan movement = do
    updated ← update_offline_scan (record o {
      status = OfflineScanStatus.processed;
      scan_event_raw_id = some scan.id;
      movement_id = some movement.id;
      registration_id = scan.registration_id;
      synced_at = some env.now;
    })
    pure (already_settled updated)

  abbrev pub movement_of_raw : Db → Option ScanEventRaw → Option (ScanEventRaw × MovementLog)
  movement_of_raw db none = none
  movement_of_raw db (some scan) = elim (movement_of db scan.id) [
    | none ↦ none
    | some movement ↦ some (scan, movement)
  ]

  unfoldable pub process_open : OfflineScanOperation → Action Settlement
  unfolding settle adopt
  process_open o db =
      let raw = find_scan_by_operation db o.operation_id in
      elim (movement_of_raw db raw) [
        | some (scan, movement) ↦ adopt o scan movement db
        | none ↦ elim (get_canonical_context_for_offline_scan env o db) [
          | err e ↦ (err e, db)
          | ok none ↦ (ok (waiting false o), db)
          | ok (some c) ↦ elim (replay_place o db) [
            | err e ↦ (err e, db)
            | ok place ↦ settle o raw c place db
          ]
        ]
      ]

  unfoldable pub process_offline_scan_operation : (id : ℕ) → Action Settlement
  process_offline_scan_operation id db = elim (find_offline_scan db id) [
    | none ↦ (err (Exception.not_found "Offline scan operation not found"), db)
    | some o ↦
        if is_processed o.status && is_some o.movement_id
        then (ok (already_settled o), db)
        else process_open o db
  ]
