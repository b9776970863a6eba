-- ===== src/Scans/Ingest.antt =====
-- `ingest` and `ingestFast`: a scan that a device sends while it is online.
use creative_backend.Base.{String, Bool, true, false, ◌&&◌, Option, none, some, ◌==◌, if◌then◌else◌}
use creative_backend.Base.Result.{ok, err}
use creative_backend.Base.Exec.{pure, gets, ◌>>=◌, ◌>>◌}
use creative_backend.Scans.Checks.{
  Place, prerequisites, verdict, result_of, is_allowed, to_scan_denial_reason,
}
use creative_backend.Scans.Context.{
  Env, QrContext, valid, pending_offline, pending_reference, invalid, validate_qr_for_scan,
}
use creative_backend.Scans.Records.{
  Action, CreateScanDto, find_scan_by_operation, movement_of, create_scan, delete_scan,
  touch_activity, create_invalid_scan, create_processed_scan_and_movement,
  create_pending_offline_reference_scan_from_online_scan,
  create_pending_offline_scan_from_online_scan,
}
use creative_backend.Store.{
  ScanEventRaw, ScanEventStatus, MovementLog, MovementResult, OfflineScanOperation,
}

-- What is answered. The parts that `formatScanResponse` reads for display are left out.
pub data Response : Type 0 where
  formatted :
      (duplicate allowed : Bool) → (reason : String) → ScanEventRaw → Option MovementLog → Response
  duplicate_scan : ScanEventRaw → Response
  not_synced : OfflineScanOperation → Response
  provisional : (reason : String) → OfflineScanOperation → Response

abbrev pub is_invalid_qr : ScanEventStatus → Bool
is_invalid_qr ScanEventStatus.invalid_qr = true
is_invalid_qr _ = false

-- PROCESSED or INVALID_QR
abbrev pub is_answered : ScanEventStatus → Bool
is_answered ScanEventStatus.processed = true
is_answered ScanEventStatus.invalid_qr = true
is_answered _ = false

abbrev reason_is : Option String → String → Bool
reason_is none t = false
reason_is (some s) t = s == t

abbrev is_missing : Option MovementLog → Bool
is_missing none = true
is_missing (some m) = false

-- `result === ALLOWED`
abbrev pub was_allowed : Option MovementResult → Bool
was_allowed none = false
was_allowed (some r) = is_allowed r

abbrev pub reason_or_duplicate : Option String → String
reason_or_duplicate none = "DUPLICATE_SCAN"
reason_or_duplicate (some s) = s

-- `retryableOfflineReference`
unfoldable pub is_retryable : ScanEventRaw → Option MovementLog → Bool
is_retryable scan movement =
    is_invalid_qr scan.status
    && reason_is scan.reason "OFFLINE_REGISTRATION_NOT_SYNCED"
    && is_missing movement

-- Accepted: whether it is a duplicate, whether it was queued, and the scan.
pub record Accepted : Type 0 where
  pub duplicate : Bool
  pub queued : Bool
  pub scan : ScanEventRaw

module _ (env : Env) (dto : CreateScanDto) where
  -- the write and the answer for each reading of the code
  unfoldable pub record_scan : Place → QrContext → Action Response
  record_scan place (pending_reference token payload registration_id) = do
    operation ←
        create_pending_offline_reference_scan_from_online_scan env.now dto token payload
          registration_id
    touch_activity env.now place.device.id place.session
    pure (not_synced operation)
  record_scan place (pending_offline verified) = do
    operation ← create_pending_offline_scan_from_online_scan env.now dto verified
    touch_activity env.now place.device.id place.session
    pure (provisional "OFFLINE_QR_PENDING_SYNC" operation)
  record_scan place (invalid reason payload qr_token_id registration_id) = do
    scan ←
        create_invalid_scan env.now dto (to_scan_denial_reason reason) payload qr_token_id
          registration_id
    touch_activity env.now place.device.id place.session
    pure (formatted false false (to_scan_denial_reason reason) scan none)
  record_scan place (valid token registration payload) = do
    reason ← gets (λ db.
        verdict db place.event place.checkpoint registration.attendee_type_code registration.id
          dto.type)
    (scan, movement) ←
        create_processed_scan_and_movement env.now dto token registration payload (result_of reason)
          reason
    touch_activity env.now place.device.id place.session
    pure (formatted false (is_allowed (result_of reason)) reason scan (some movement))

  -- a scan whose operation id is new
  unfoldable pub ingest_new : Action Response
  ingest_new db =
      elim (prerequisites db dto.event_id dto.device_id dto.staff_session_id dto.checkpoint_id) [
        | err e ↦ (err e, db)
        | ok place ↦ record_scan place (validate_qr_for_scan env db dto.qr_token dto.event_id) db
      ]

  -- a scan whose operation id is known
  unfoldable pub ingest_known : ScanEventRaw → Action Response
  unfolding is_retryable
  ingest_known scan db =
      let movement = movement_of db scan.id in
      if is_retryable scan movement
      then (delete_scan scan.id >> ingest_new) db
      else if is_answered scan.status
      then (
        ok (
            formatted true (was_allowed scan.result) (reason_or_duplicate scan.reason) scan
              movement),
        db,
      )
      else (ok (duplicate_scan scan), db)

  unfoldable pub ingest : Action Response
  ingest db = elim (find_scan_by_operation db dto.operation_id) [
    | none ↦ ingest_new db
    | some scan ↦ ingest_known scan db
  ]

  -- the row that `ingestFast` stores
  abbrev pending_row : ScanEventRaw
  pending_row = record {
    id = 0;
    operation_id = dto.operation_id;
    event_id = dto.event_id;
    device_id = dto.device_id;
    staff_session_id = dto.staff_session_id;
    checkpoint_id = dto.checkpoint_id;
    registration_id = none;
    qr_token_id = none;
    qr_payload = none;
    qr_raw = some dto.qr_token;
    type = dto.type;
    status = ScanEventStatus.pending;
    result = none;
    reason = none;
    scanned_at_device = dto.scanned_at_device;
    processed_at = none;
    payload = dto.payload;
  }

  unfoldable pub ingest_fast : Action Accepted
  unfolding create_scan
  ingest_fast = do
    existing ← gets (λ db. find_scan_by_operation db dto.operation_id)
    elim existing [
      | some scan ↦ pure (record { duplicate = true; queued = false; scan = scan })
      | none ↦ do
        scan ← create_scan pending_row
        pure (record {
          duplicate = false;
          queued = env.scan_processing_enabled && env.queue_accepts;
          scan = scan;
        })
    ]
