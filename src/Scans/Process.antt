-- ===== src/Scans/Process.antt =====
-- `processRawScan`: a stored scan that the queue hands over.
use creative_backend.Base.{ℕ, String, Bool, true, false, Option, none, some, if◌then◌else◌}
use creative_backend.Base.Result.{ok, err}
use creative_backend.Base.Exec.{pure, gets, try_catch, ◌>>=◌, ◌>>◌}
use creative_backend.Scans.Checks.{
  Place, prerequisites, verdict, result_of, is_allowed, to_scan_denial_reason,
}
use creative_backend.Scans.Context.{
  Env, QrContext, valid, pending_offline, pending_reference, invalid, validate_qr_for_scan,
  or_blank,
}
use creative_backend.Scans.Records.{
  Action, CreateScanDto, find_scan, update_scan, touch_activity, update_invalid_raw_scan,
  update_raw_scan_and_create_movement, create_pending_offline_reference_scan_from_online_scan,
  create_pending_offline_scan_from_online_scan,
}
use creative_backend.Store.{
  ScanEventRaw, ScanEventStatus, MovementLog, MovementResult, Exception, message,
}

pub data Outcome : Type 0 where
  skipped : (reason : String) → Outcome
  not_synced : ScanEventRaw → Outcome
  provisional : (reason : String) → ScanEventRaw → Outcome
  formatted : (allowed : Bool) → (reason : String) → ScanEventRaw → Option MovementLog → Outcome
  failed : ScanEventRaw → Outcome

abbrev pub is_pending : ScanEventStatus → Bool
is_pending ScanEventStatus.pending = true
is_pending _ = false

-- the request that a stored scan came from
abbrev pub as_dto : ScanEventRaw → CreateScanDto
as_dto scan = record {
  operation_id = scan.operation_id;
  event_id = scan.event_id;
  device_id = scan.device_id;
  staff_session_id = scan.staff_session_id;
  checkpoint_id = scan.checkpoint_id;
  qr_token = or_blank scan.qr_raw;
  type = scan.type;
  scanned_at_device = scan.scanned_at_device;
  payload = scan.payload;
}

-- a scan that cannot be settled, with a warning or a denial
abbrev pub settled : (now : ℕ) → ScanEventRaw → MovementResult → String → ScanEventRaw
settled now scan result reason = record scan {
  status = ScanEventStatus.failed;
  result = some result;
  reason = some reason;
  processed_at = some now;
}

module _ (env : Env) (scan : ScanEventRaw) where
  -- the end of both offline branches: the raw scan fails with a warning
  unfoldable pub warn : Place → String → (ScanEventRaw → Outcome) → Action Outcome
  unfolding update_scan touch_activity
  warn place reason answer = do
    updated ← update_scan (settled env.now scan MovementResult.warning reason)
    touch_activity env.now place.device.id place.session
    pure (answer updated)

  unfoldable pub process_context : Place → QrContext → Action Outcome
  process_context place (pending_reference token payload registration_id) = do
    create_pending_offline_reference_scan_from_online_scan env.now (as_dto scan) token payload
        registration_id
    warn place "OFFLINE_REGISTRATION_NOT_SYNCED" not_synced
  process_context place (pending_offline verified) = do
    create_pending_offline_scan_from_online_scan env.now (as_dto scan) verified
    warn place "OFFLINE_QR_PENDING_SYNC" (provisional "OFFLINE_QR_PENDING_SYNC")
  process_context place (invalid reason payload qr_token_id registration_id) = do
    updated ←
        update_invalid_raw_scan env.now scan (to_scan_denial_reason reason) payload qr_token_id
          registration_id
    touch_activity env.now place.device.id place.session
    pure (formatted false (to_scan_denial_reason reason) updated none)
  process_context place (valid token registration payload) = do
    reason ← gets (λ db.
        verdict db place.event place.checkpoint registration.attendee_type_code registration.id
          scan.type)
    (updated, movement) ←
        update_raw_scan_and_create_movement env.now scan token registration payload
          (result_of reason) reason
    touch_activity env.now place.device.id place.session
    pure (formatted (is_allowed (result_of reason)) reason updated (some movement))

  -- the body of the `try`
  unfoldable pub process_pending : Action Outcome
  process_pending db =
      elim (prerequisites db scan.event_id scan.device_id scan.staff_session_id
        scan.checkpoint_id) [
          | err e ↦ (err e, db)
          | ok place ↦
              process_context place
                (validate_qr_for_scan env db (or_blank scan.qr_raw) scan.event_id) db
        ]

  -- the body of the `catch`
  unfoldable pub process_failed : Exception → Action Outcome
  unfolding update_scan
  process_failed error = do
    updated ← update_scan (settled env.now scan MovementResult.denied (message error))
    pure (failed updated)

unfoldable pub process_raw_scan : Env → ℕ → Action Outcome
process_raw_scan env scan_id db = elim (find_scan db scan_id) [
  | none ↦ (ok (skipped "SCAN_EVENT_NOT_FOUND"), db)
  | some scan ↦
      if is_pending scan.status
      then try_catch (process_pending env scan) (process_failed env scan) db
      else (ok (skipped "SCAN_EVENT_NOT_PENDING"), db)
]
