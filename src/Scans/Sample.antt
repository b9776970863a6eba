-- ===== src/Scans/Sample.antt =====
-- A small database and the requests that the runs of the scan service are made with.
use creative_backend.Base.{String, true, false, none, some, [], ◌∷◌}
use creative_backend.Store.{
  Db, EventStatus, DeviceStatus, RegistrationStatus, QrTokenStatus, MovementType, CheckpointType,
}
use creative_backend.Qr.Toy.{toy, runs}
use creative_backend.Offline.{verify_signed_offline_qr, parse_signed_offline_qr}
use creative_backend.Scans.Checks.{
  prerequisites, ensure_event_can_be_modified, ensure_active_device, ensure_active_staff_session,
  ensure_active_checkpoint, verdict, result_of, to_scan_denial_reason, is_allowed_entry,
}
use creative_backend.Scans.Context.{
  Env, validate_qr_for_scan, validate_offline_reference_qr_for_scan, validate_mapped_reference,
  validate_offline_qr_for_scan, find_stored,
}
use creative_backend.Scans.Records.{
  CreateScanDto, delete_scan, touch_activity, create_invalid_scan,
  create_processed_scan_and_movement, update_invalid_raw_scan, update_raw_scan_and_create_movement,
  create_pending_offline_reference_scan_from_online_scan,
  create_pending_offline_scan_from_online_scan,
}
use creative_backend.Scans.Ingest.{record_scan, ingest_new, ingest_known, ingest, ingest_fast}
use creative_backend.Scans.Process.{
  process_context, process_pending, process_failed, process_raw_scan,
}

abbrev pub env : Env
env = record {
  node = toy;
  qr_signing_secret = "key";
  now = 50;
  scan_processing_enabled = true;
  queue_accepts = true;
  undefined_disjunct_matches = false;
}

-- One event without re-entry, a gate for VIPs, and one VIP.
abbrev pub sample : Db
sample = record {
  events = record { id = "e1"; status = EventStatus.active; allow_re_entry = false } ∷ [];
  users = [];
  staff_assignments = [];
  devices =
      record { id = "d1"; event_id = "e1"; status = DeviceStatus.active; last_seen_at = none } ∷ [];
  staff_sessions = [];
  checkpoints =
      record {
        id = "c1";
        event_id = "e1";
        type = CheckpointType.vip_area;
        is_active = true;
        allowed_attendee_types = some ("VIP" ∷ []);
      }
      ∷ [];
  registrations =
      record {
        id = "r1";
        event_id = "e1";
        attendee_type_id = "t1";
        attendee_type_code = "VIP";
        status = RegistrationStatus.active;
        public_id = "REG-1";
        external_id = none;
      }
      ∷ [];
  qr_tokens =
      record {
        id = "q1";
        registration_id = "r1";
        event_id = "e1";
        token_id = "QRT_1";
        status = QrTokenStatus.active;
        valid_from = 10;
        valid_until = 90;
      }
      ∷ [];
  scans = [];
  movements = [];
  offline_keys = [];
  mappings = [];
  offline_scans = [];
  next_id = 7;
}

abbrev pub request : String → String → CreateScanDto
request operation_id qr_token = record {
  operation_id = operation_id;
  event_id = "e1";
  device_id = "d1";
  staff_session_id = none;
  checkpoint_id = some "c1";
  qr_token = qr_token;
  type = MovementType.entry;
  scanned_at_device = 49;
  payload = none;
}

-- what a run of the service computes with
unfoldable pub scan_runs : Unit {0}
unfolding runs prerequisites ensure_event_can_be_modified ensure_active_device
    ensure_active_staff_session ensure_active_checkpoint verdict result_of to_scan_denial_reason
    is_allowed_entry validate_qr_for_scan validate_offline_reference_qr_for_scan
    validate_mapped_reference validate_offline_qr_for_scan verify_signed_offline_qr
    parse_signed_offline_qr find_stored touch_activity create_invalid_scan
    create_processed_scan_and_movement update_invalid_raw_scan update_raw_scan_and_create_movement
    delete_scan create_pending_offline_reference_scan_from_online_scan
    create_pending_offline_scan_from_online_scan record_scan ingest_new ingest_known ingest
    ingest_fast process_context process_pending process_failed process_raw_scan
scan_runs = tt
