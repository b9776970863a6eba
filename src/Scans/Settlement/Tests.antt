-- ===== src/Scans/Settlement/Tests.antt =====
-- A run of `processOfflineScanOperation`, and an instance of the theorem.
use creative_backend.Base.{◌≡◌, refl, Option, none, some, [], ◌∷◌}
use creative_backend.Base.Result.{Result, ok, err}
use creative_backend.Qr.Toy.{runs}
use creative_backend.Scans.Checks.{
  ensure_event_can_be_modified, ensure_active_device, ensure_staff_session_for_offline_replay,
  ensure_active_checkpoint, verdict, result_of, is_allowed_entry,
}
use creative_backend.Scans.Context.{find_stored}
use creative_backend.Scans.Records.{
  touch_activity, update_offline_scan, create_processed_scan_and_movement,
  update_raw_scan_and_create_movement,
}
use creative_backend.Scans.Offline.{
  Settlement, already_settled, replay_place, process_open, process_offline_scan_operation,
  get_canonical_context_for_offline_scan,
}
use creative_backend.Scans.Sample.{env, sample}
use creative_backend.Scans.Settlement.{settled_operation, process_offline-twice}
use creative_backend.Store.{
  Db, MappingStatus, OfflineScanOperation, OfflineScanStatus, MovementType, Exception,
}

settlement_runs : Unit {0}
unfolding runs ensure_event_can_be_modified ensure_active_device
    ensure_staff_session_for_offline_replay ensure_active_checkpoint verdict result_of
    is_allowed_entry find_stored touch_activity update_offline_scan
    create_processed_scan_and_movement update_raw_scan_and_create_movement replay_place
    get_canonical_context_for_offline_scan process_open process_offline_scan_operation
settlement_runs = tt

abbrev linked : OfflineScanOperation
linked = record {
  id = 3;
  operation_id = "s1";
  event_id = "e1";
  scanner_device_id = "d1";
  checkpoint_id = "c1";
  staff_session_id = none;
  offline_qr_token = "O2.t1";
  offline_registration_operation_id = none;
  scanned_at_device = 40;
  movement_type = MovementType.entry;
  local_result = none;
  qr_payload = none;
  qr_payload_hash = none;
  status = OfflineScanStatus.linked;
  registration_id = some "r1";
  movement_id = none;
  scan_event_raw_id = none;
  conflict_code = none;
  conflict_message = none;
  synced_at = none;
}

-- the registration of the code has been synced, and one scan of it waits
abbrev synced : Db
synced = record sample {
  mappings =
      record {
        id = "m1";
        event_id = "e1";
        offline_registration_operation_id = "op1";
        offline_qr_token = "O2.t1";
        registration_id = some "r1";
        canonical_qr_token_id = some "q1";
        status = MappingStatus.synced;
        issuer_device_id = "d1";
        offline_registration_id = "l1";
        payload_hash = "h";
        conflict_code = none;
        conflict_message = none;
        synced_at = none;
      }
      ∷ [];
  offline_scans = linked ∷ [];
}

abbrev processed : OfflineScanOperation
processed = record linked {
  status = OfflineScanStatus.processed;
  movement_id = some 8;
  scan_event_raw_id = some 7;
  synced_at = some 50;
}

abbrev settled_by : Result Exception Settlement → Option OfflineScanOperation
settled_by (err e) = none
settled_by (ok answer) = settled_operation answer

abbrev answer_of : Result Exception Settlement → Settlement
answer_of (err e) = already_settled linked
answer_of (ok answer) = answer

settlement_test : settled_by (process_offline_scan_operation env 3 synced).0 ≡ some processed
unfolding settlement_runs
settlement_test = refl

process_offline-twice_example :
    process_offline_scan_operation
      (record env { now = 60 })
      3
      (process_offline_scan_operation env 3 synced).1
    ≡ (ok (already_settled processed), (process_offline_scan_operation env 3 synced).1)
unfolding settlement_runs
process_offline-twice_example =
    process_offline-twice env (record env { now = 60 }) 3 processed
      (answer_of (process_offline_scan_operation env 3 synced).0) synced refl refl
