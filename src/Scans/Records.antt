-- ===== src/Scans/Records.antt =====
-- The writes of scans.service.ts: scans, movements, offline operations and activity.
use creative_backend.Base.{
  ℕ, ◌+◌, String, not, Option, none, some, [], ◌∷◌, ◌++◌, eqb, ◌==◌, find, select, update,
}
use creative_backend.Base.Result.{ok, err}
use creative_backend.Base.Exec.{Exec, pure, throw, gets, transaction, ◌>>=◌}
use creative_backend.Base.Json.{Fields, get_text}
use creative_backend.Offline.{VerifiedOfflineQr}
use creative_backend.Scans.Checks.{given}
use creative_backend.Scans.Context.{or_blank}
use creative_backend.Store.{
  Db, QrToken, Registration, StaffSession, ScanEventRaw, ScanEventStatus, MovementLog, MovementType,
  MovementResult, OfflineScanOperation, OfflineScanStatus, Exception,
}

abbrev pub Action : Type 0 → Type 0
Action A = Exec Db Exception A

-- dto/create-scan.dto.ts; `scannedAtDevice` is a valid date
pub record CreateScanDto : Type 0 where
  pub operation_id : String
  pub event_id : String
  pub device_id : String
  pub staff_session_id : Option String
  pub checkpoint_id : Option String
  pub qr_token : String
  pub type : MovementType
  pub scanned_at_device : ℕ
  pub payload : Option Fields

abbrev pub find_scan_by_operation : Db → String → Option ScanEventRaw
find_scan_by_operation db operation_id = find (λ e. e.operation_id == operation_id) db.scans

abbrev pub find_scan : Db → ℕ → Option ScanEventRaw
find_scan db id = find (λ e. eqb e.id id) db.scans

-- the `movementLog` of a scan
abbrev pub movement_of : Db → ℕ → Option MovementLog
movement_of db scan_id = find (λ m. eqb m.scan_event_raw_id scan_id) db.movements

abbrev pub find_offline_scan : Db → ℕ → Option OfflineScanOperation
find_offline_scan db id = find (λ o. eqb o.id id) db.offline_scans

abbrev pub find_offline_scan_by_operation : Db → String → Option OfflineScanOperation
find_offline_scan_by_operation db operation_id =
    find (λ o. o.operation_id == operation_id) db.offline_scans

-- `scanEventRaw.create`: the operation id is unique. The row gets a new id.
unfoldable pub create_scan : ScanEventRaw → Action ScanEventRaw
create_scan row db = elim (find_scan_by_operation db row.operation_id) [
  | some other ↦ (err Exception.unique_constraint, db)
  | none ↦
      let scan = record row { id = db.next_id } in
      (ok scan, record db { scans = db.scans ++ scan ∷ []; next_id = db.next_id + 1 })
]

-- `scanEventRaw.update` of a row that was read before
unfoldable pub update_scan : ScanEventRaw → Action ScanEventRaw
update_scan row db =
    (ok row, record db { scans = update (λ e. eqb e.id row.id) (λ e. row) db.scans })

unfoldable pub delete_scan : ℕ → Action Unit
delete_scan id db = (ok tt, record db { scans = select (λ e. not (eqb e.id id)) db.scans })

-- `movementLog.create`: a scan has at most one movement.
unfoldable pub create_movement : MovementLog → Action MovementLog
create_movement row db = elim (movement_of db row.scan_event_raw_id) [
  | some other ↦ (err Exception.unique_constraint, db)
  | none ↦
      let movement = record row { id = db.next_id } in
      (
        ok movement,
        record db { movements = db.movements ++ movement ∷ []; next_id = db.next_id + 1 },
      )
]

unfoldable pub create_offline_scan : OfflineScanOperation → Action OfflineScanOperation
create_offline_scan row db = elim (find_offline_scan_by_operation db row.operation_id) [
  | some other ↦ (err Exception.unique_constraint, db)
  | none ↦
      let operation = record row { id = db.next_id } in
      (
        ok operation,
        record db { offline_scans = db.offline_scans ++ operation ∷ []; next_id = db.next_id + 1 },
      )
]

unfoldable pub update_offline_scan : OfflineScanOperation → Action OfflineScanOperation
update_offline_scan row db = (
  ok row,
  record db { offline_scans = update (λ o. eqb o.id row.id) (λ o. row) db.offline_scans },
)

unfoldable pub touch_activity : (now : ℕ) → (device_id : String) → Option StaffSession → Action Unit
touch_activity now device_id session db = (
  ok tt,
  record db {
    devices =
        update (λ d. d.id == device_id) (λ d. record d { last_seen_at = some now }) db.devices;
    staff_sessions = elim session [
      | none ↦ db.staff_sessions
      | some open' ↦
          update (λ s. s.id == open'.id) (λ s. record s { last_seen_at = some now })
            db.staff_sessions
    ];
  },
)

-- the row that `createInvalidScan` creates
abbrev invalid_row :
    (now : ℕ)
    → CreateScanDto
    → String
    → Option Fields
    → (qr_token_id registration_id : Option String) → ScanEventRaw
invalid_row now dto reason payload qr_token_id registration_id = record {
  id = 0;
  operation_id = dto.operation_id;
  event_id = dto.event_id;
  device_id = dto.device_id;
  staff_session_id = dto.staff_session_id;
  checkpoint_id = dto.checkpoint_id;
  registration_id = registration_id;
  qr_token_id = qr_token_id;
  qr_payload = payload;
  qr_raw = some dto.qr_token;
  type = dto.type;
  status = ScanEventStatus.invalid_qr;
  result = some MovementResult.denied;
  reason = some reason;
  scanned_at_device = dto.scanned_at_device;
  processed_at = some now;
  payload = dto.payload;
}

unfoldable pub create_invalid_scan :
    (now : ℕ)
    → CreateScanDto
    → String
    → Option Fields
    → (qr_token_id registration_id : Option String) → Action ScanEventRaw
unfolding create_scan
create_invalid_scan now dto reason payload qr_token_id registration_id =
    create_scan (invalid_row now dto reason payload qr_token_id registration_id)

abbrev pub processed_row :
    (now : ℕ)
    → CreateScanDto
    → QrToken
    → Registration
    → Fields
    → MovementResult
    → String
    → ScanEventRaw
processed_row now dto token registration payload result reason = record {
  id = 0;
  operation_id = dto.operation_id;
  event_id = dto.event_id;
  device_id = dto.device_id;
  staff_session_id = dto.staff_session_id;
  checkpoint_id = dto.checkpoint_id;
  registration_id = some registration.id;
  qr_token_id = some token.id;
  qr_payload = some payload;
  qr_raw = some dto.qr_token;
  type = dto.type;
  status = ScanEventStatus.processed;
  result = some result;
  reason = some reason;
  scanned_at_device = dto.scanned_at_device;
  processed_at = some now;
  payload = dto.payload;
}

-- the movement of a processed scan; both creations fill it from the same values
abbrev pub movement_row :
    ScanEventRaw → QrToken → Registration → MovementResult → String → MovementLog
movement_row scan token registration result reason = record {
  id = 0;
  event_id = scan.event_id;
  registration_id = registration.id;
  qr_token_id = some token.id;
  scan_event_raw_id = scan.id;
  device_id = scan.device_id;
  staff_session_id = scan.staff_session_id;
  checkpoint_id = scan.checkpoint_id;
  type = scan.type;
  result = result;
  reason = some reason;
  occurred_at = scan.scanned_at_device;
}

unfoldable pub create_processed_scan_and_movement :
    (now : ℕ)
    → CreateScanDto
    → QrToken
    → Registration
    → Fields
    → MovementResult
    → String
    → Action (ScanEventRaw × MovementLog)
unfolding create_scan create_movement
create_processed_scan_and_movement now dto token registration payload result reason = transaction do
  scan ← create_scan (processed_row now dto token registration payload result reason)
  movement ← create_movement (movement_row scan token registration result reason)
  pure (scan, movement)

-- `undefined` in an update leaves the column as it is.
abbrev or_kept : Option String → Option String → Option String
or_kept none old = old
or_kept (some new) old = some new

unfoldable pub update_invalid_raw_scan :
    (now : ℕ)
    → ScanEventRaw
    → String
    → Option Fields
    → (qr_token_id registration_id : Option String) → Action ScanEventRaw
unfolding update_scan
update_invalid_raw_scan now scan reason payload qr_token_id registration_id =
    update_scan (record scan {
      qr_token_id = or_kept qr_token_id scan.qr_token_id;
      registration_id = or_kept registration_id scan.registration_id;
      qr_payload = payload;
      status = ScanEventStatus.invalid_qr;
      result = some MovementResult.denied;
      reason = some reason;
      processed_at = some now;
    })

-- a stored scan once it is processed
abbrev pub settled_row :
    (now : ℕ)
    → ScanEventRaw
    → QrToken
    → Registration
    → Fields
    → MovementResult
    → String
    → ScanEventRaw
settled_row now scan token registration payload result reason = record scan {
  registration_id = some registration.id;
  qr_token_id = some token.id;
  qr_payload = some payload;
  status = ScanEventStatus.processed;
  result = some result;
  reason = some reason;
  processed_at = some now;
}

unfoldable pub update_raw_scan_and_create_movement :
    (now : ℕ)
    → ScanEventRaw
    → QrToken
    → Registration
    → Fields
    → MovementResult
    → String
    → Action (ScanEventRaw × MovementLog)
unfolding update_scan create_movement
update_raw_scan_and_create_movement now scan token registration payload result reason =
    transaction do
      updated ← update_scan (settled_row now scan token registration payload result reason)
      movement ← create_movement (movement_row updated token registration result reason)
      pure (updated, movement)

-- the offline operation of a scan whose registration has not been synced
abbrev pub operation_row :
    (now : ℕ) → CreateScanDto → (checkpoint_id token : String) → Fields → OfflineScanOperation
operation_row now dto checkpoint_id token payload = record {
  id = 0;
  operation_id = dto.operation_id;
  event_id = dto.event_id;
  scanner_device_id = dto.device_id;
  checkpoint_id = checkpoint_id;
  staff_session_id = dto.staff_session_id;
  offline_qr_token = token;
  offline_registration_operation_id = none;
  scanned_at_device = dto.scanned_at_device;
  movement_type = dto.type;
  local_result = elim dto.payload [ none ↦ none | some fields ↦ get_text "localResult" fields ];
  qr_payload = some payload;
  qr_payload_hash = none;
  status = OfflineScanStatus.pending_link;
  registration_id = none;
  movement_id = none;
  scan_event_raw_id = none;
  conflict_code = none;
  conflict_message = none;
  synced_at = some now;
}

-- the row is created unless the operation id has one
abbrev find_or_create : OfflineScanOperation → Action OfflineScanOperation
find_or_create row = do
  existing ← gets (λ db. find_offline_scan_by_operation db row.operation_id)
  elim existing [ some operation ↦ pure operation | none ↦ create_offline_scan row ]

unfoldable pub create_pending_offline_reference_scan_from_online_scan :
    (now : ℕ)
    → CreateScanDto
    → (token : String) → Fields
    → Option String
    → Action OfflineScanOperation
unfolding create_offline_scan
create_pending_offline_reference_scan_from_online_scan now dto token payload registration_id =
    elim (given dto.checkpoint_id) [
      | none ↦ throw (Exception.bad_request "Offline scans require a checkpoint")
      | some checkpoint_id ↦
          find_or_create (record (operation_row now dto checkpoint_id token payload) {
            status = elim (given registration_id) [
              | none ↦ OfflineScanStatus.pending_link
              | some id ↦ OfflineScanStatus.linked
            ];
            registration_id = registration_id;
          })
    ]

unfoldable pub create_pending_offline_scan_from_online_scan :
    (now : ℕ) → CreateScanDto → VerifiedOfflineQr → Action OfflineScanOperation
unfolding create_offline_scan
create_pending_offline_scan_from_online_scan now dto verified = elim (given dto.checkpoint_id) [
  | none ↦ throw (Exception.bad_request "Offline scans require a checkpoint")
  | some checkpoint_id ↦
      find_or_create
        (record (operation_row now dto checkpoint_id
          (or_blank (get_text "offlineQrToken" verified.payload)) verified.payload) {
            offline_registration_operation_id =
                get_text "offlineRegistrationOperationId" verified.payload;
            qr_payload_hash = some verified.payload_hash;
          })
]
