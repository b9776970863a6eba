-- ===== src/Sync/Tests.antt =====
-- Runs of sync on a small database, and instances of the theorems.
use creative_backend.Base.{
  ◌+◌, ◌≤◌, String, ◌≡◌, refl, true, false, not, none, some, List, [], ◌∷◌, ◌++◌, map, all, select,
  length, count_where,
}
use creative_backend.Base.Result.{Result, ok, err}
use creative_backend.Base.Json.{field, str, end, obj}
use creative_backend.Scans.Sample.{env, sample, scan_runs}
use creative_backend.Store.{Exception, message}
use creative_backend.Sync.Rows.{
  SyncDb, Services, SyncOperationType, SyncOperationStatus, SyncBatchStatus, SubmitSyncOperationDto,
  SubmitSyncBatchDto, object_response, update_operation, update_batch,
}
use creative_backend.Sync.Payload.{
  get_string, get_optional_string, get_optional_record, to_record, classify_sync_operation_error,
  can_retry_failed_offline_operation, movement_type,
}
use creative_backend.Sync.Sort.{sort_operations, comes_first}
use creative_backend.Sync.Sort.Buckets.{of_rank, sort_operations-of_rank}
use creative_backend.Sync.Identity.{read_registration}
use creative_backend.Sync.Register.{run_offline_registration}
use creative_backend.Sync.Operation.{run_operation, process_operation}
use creative_backend.Sync.Batch.{
  ids, get_batch_status, submit_batch, process_all, process_batch, create_batch, Submitted,
}
use creative_backend.Sync.Batch.Answers.{is_counted}
use creative_backend.Sync.Batch.Submit.{submit_batch-answers}
use creative_backend.Sync.Batch.Again.{submit_batch-again}
use creative_backend.Sync.Recover.{
  RecoverInput, RecoverAnswer, Recovered, wet, failed_operations,
  recover_failed_offline_registrations, attempt_all,
}
use creative_backend.Sync.Recover.Accounts.{
  was_claimed, attempted_id, operation_ids, recover-accounts,
}

sync_runs : Unit {0}
unfolding scan_runs comes_first sort_operations get_string get_optional_string get_optional_record
    to_record classify_sync_operation_error can_retry_failed_offline_operation movement_type
    read_registration run_offline_registration run_operation process_operation update_operation
    update_batch get_batch_status process_all process_batch create_batch submit_batch attempt_all
    recover_failed_offline_registrations
sync_runs = tt

-- services that create no registration, and Nest's body of an exception that is made from a text
abbrev services : Services
services = record {
  env = env;
  create_registration =
      λ dto db. (err (Exception.conflict "Duplicate registration for this event"), db);
  generate_qr =
      λ id db. (ok (record { qr_token = "q"; compact_qr_token = none; token_id = "QRT_1" }), db);
  cuid = λ n. "m";
  queue_accepts = true;
  to_upper_case = λ text. text;
  get_response = λ error. object_response (field "message" (str (message error)) end);
}

abbrev empty : SyncDb
empty = record {
  work = record { db = sample; local_registrations = [] };
  batches = [];
  operations = [];
  next_id = 0;
}

abbrev online_scan : SubmitSyncOperationDto
online_scan = record {
  operation_id = "o1";
  type = SyncOperationType.scan_event;
  payload =
      field "qrToken" (str "Q2.QRT_1.BBBBBBBBBBBBBBBB")
        (field "type" (str "ENTRY") (field "scannedAtDevice" (str "2026") end));
}

abbrev new_code : SubmitSyncOperationDto
new_code = record {
  operation_id = "o2";
  type = SyncOperationType.qr_generation;
  payload = field "localRegistrationId" (str "l1") end;
}

abbrev batch : String → SubmitSyncBatchDto
batch id = record {
  batch_id = id;
  event_id = "e1";
  device_id = "d1";
  staff_session_id = none;
  operations = online_scan ∷ new_code ∷ [];
}

abbrev statuses : Result Exception Submitted → List SyncOperationStatus
statuses (err e) = []
statuses (ok done) = map (λ r. r.status) done.batch.result

abbrev answered : Result Exception Submitted → Submitted
answered (ok done) = done
answered (err e) = record {
  duplicate = false;
  batch = record {
    id = 0;
    batch_id = message e;
    event_id = "";
    device_id = "";
    staff_session_id = none;
    status = SyncBatchStatus.failed;
    total_operations = 0;
    processed_count = 0;
    failed_count = 0;
    duplicate_count = 0;
    result = [];
    processed_at = none;
  };
}

batch_tests :
    (statuses (submit_batch services (batch "b1") empty).0
      ≡ SyncOperationStatus.failed ∷ SyncOperationStatus.processed ∷ [])
    × ((answered (submit_batch services (batch "b1") empty).0).batch.status
        ≡ SyncBatchStatus.partial_failed)
    × (statuses (submit_batch services (batch "b2") (submit_batch services (batch "b1") empty).1).0
        ≡ SyncOperationStatus.failed ∷ SyncOperationStatus.duplicate ∷ [])
unfolding sync_runs
batch_tests = (refl, refl, refl)

abbrev first : SyncDb
first = (submit_batch services (batch "b1") empty).1

sort_operations-of_rank_example :
    sort_operations (online_scan ∷ new_code ∷ [])
    ≡ of_rank 0 (online_scan ∷ new_code ∷ [])
      ++ (of_rank 1 (online_scan ∷ new_code ∷ [])
          ++ (of_rank 2 (online_scan ∷ new_code ∷ []) ++ of_rank 3 (online_scan ∷ new_code ∷ [])))
sort_operations-of_rank_example = sort_operations-of_rank (online_scan ∷ new_code ∷ [])

abbrev done : Submitted
done = answered (submit_batch services (batch "b1") empty).0

submit_batch-answers_example :
    (map (λ r. r.operation_id) done.batch.result ≡ ids (sort_operations (batch "b1").operations))
    × (all is_counted done.batch.result ≡ true)
    × (done.batch.processed_count + done.batch.failed_count + done.batch.duplicate_count ≡ 2)
    × (done.batch.total_operations ≡ 2)
    × (done.duplicate ≡ false)
unfolding sync_runs
submit_batch-answers_example = submit_batch-answers services (batch "b1") empty done refl refl

submit_batch-again_example :
    submit_batch services (batch "b1") first
    ≡ (ok (record { duplicate = true; batch = done.batch }), first)
unfolding sync_runs
submit_batch-again_example =
    submit_batch-again services services (batch "b1") (batch "b1") empty done refl refl

abbrev repeat : SubmitSyncBatchDto
repeat = record (batch "b2") { operations = online_scan ∷ [] }

-- one failed registration of the batch `b1`
abbrev broken : SyncDb
broken = record first {
  operations =
      record {
        id = 9;
        sync_batch_id = 0;
        operation_id = "o3";
        type = SyncOperationType.offline_registration;
        status = SyncOperationStatus.failed;
        input = obj end;
        output = none;
        error_code = some "OPERATION_FAILED";
        error_message = none;
        processed_at = none;
      }
      ∷ [];
}

abbrev everything : RecoverInput
everything = record { event_id = none; device_id = none; limit = none; dry_run = false }

abbrev report_of : Result Exception RecoverAnswer → Recovered
report_of (ok (wet report)) = report
report_of _ = record {
  scanned = 0;
  attempted = 0;
  processed = 0;
  failed = 0;
  skipped_permanent = 0;
  results = [];
}

abbrev report : Recovered
report = report_of (recover_failed_offline_registrations services everything broken).0

recover-accounts_example :
    (map attempted_id report.results
      ≡ operation_ids (
          select
            (can_retry_failed_offline_operation services.to_upper_case)
            (failed_operations everything broken)))
    × (report.skipped_permanent
        ≡ count_where
            (λ o. not (can_retry_failed_offline_operation services.to_upper_case o))
            (failed_operations everything broken))
    × (report.processed + report.failed + count_where was_claimed report.results ≡ report.attempted)
    × (report.attempted ≡ length report.results)
    × (report.attempted + report.skipped_permanent ≡ report.scanned)
    × (report.scanned ≡ length (failed_operations everything broken))
    × (report.scanned ≤ 1000)
unfolding sync_runs
recover-accounts_example = recover-accounts services everything broken report refl refl
