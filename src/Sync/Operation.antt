-- ===== src/Sync/Operation.antt =====
-- `runOperation` and `processOperation`.
use creative_backend.Base.{String, false, none, some, ◌==◌, find}
use creative_backend.Base.Result.{Result, ok, err}
use creative_backend.Base.Exec.{Exec, pure, check, try_catch, ◌>>=◌, ◌>>◌}
use creative_backend.Base.Json.{Fields}
use creative_backend.Scans.Ingest.{ingest}
use creative_backend.Scans.Reconcile.{ingest_offline_scan}
use creative_backend.Store.{Exception}
use creative_backend.Sync.Rows.{
  SyncDb, Work, Services, SyncOperation, SyncOperationType, SyncOperationStatus, OperationResult,
  SubmitSyncOperationDto, SubmitSyncBatchDto, Output, registered, scan_settled, qr_generated,
  scanned, on_db, on_work, update_operation,
}
use creative_backend.Sync.Payload.{
  get_string, get_optional_string, get_optional_record, movement_type, instant,
  classify_sync_operation_error,
}
use creative_backend.Sync.Register.{run_offline_registration}

module _ (services : Services) where
  unfoldable pub run_offline_scan :
      SubmitSyncOperationDto → SubmitSyncBatchDto → Exec Work Exception Output
  unfolding get_string get_optional_string movement_type
  run_offline_scan dto batch = do
    checkpoint_id ← check (λ w. get_string dto.payload "checkpointId")
    signed ← check (λ w. get_string dto.payload "signedOfflineQr")
    type_text ← check (λ w. get_string dto.payload "movementType")
    type ← check (λ w. movement_type type_text)
    time_text ← check (λ w. get_string dto.payload "scannedAtDevice")
    scanned_at ← check (λ w. instant services.env.node.parse_date time_text)
    settlement ← on_db (
        ingest_offline_scan services.env (record {
          operation_id = dto.operation_id;
          event_id = batch.event_id;
          scanner_device_id = batch.device_id;
          staff_session_id = batch.staff_session_id;
          checkpoint_id = checkpoint_id;
          signed_offline_qr = signed;
          offline_qr_token = get_optional_string dto.payload "offlineQrToken";
          offline_registration_operation_id =
              get_optional_string dto.payload "offlineRegistrationOperationId";
          movement_type = type;
          scanned_at_device = scanned_at;
          local_result = get_optional_string dto.payload "localResult";
        }))
    pure (scan_settled settlement)

  -- `resolveLocalRegistrationId`
  unfoldable pub resolve_local_registration_id : Fields → Work → Result Exception String
  unfolding get_string
  resolve_local_registration_id payload w = elim (get_string payload "localRegistrationId") [
    | err e ↦ err e
    | ok local_id ↦ elim (find (λ entry. entry.0 == local_id) w.local_registrations) [
      | none ↦ err (Exception.bad_request "Local registration was not found in batch")
      | some (key, registration) ↦ ok registration.id
    ]
  ]

  unfoldable pub run_qr_generation : SubmitSyncOperationDto → Exec Work Exception Output
  unfolding get_optional_string resolve_local_registration_id
  run_qr_generation dto = do
    registration_id ← check (λ w. elim (get_optional_string dto.payload "registrationId") [
      | some id ↦ ok id
      | none ↦ resolve_local_registration_id dto.payload w
    ])
    qr ← on_db (services.generate_qr registration_id)
    pure (qr_generated qr)

  unfoldable pub run_scan_event :
      SubmitSyncOperationDto → SubmitSyncBatchDto → Exec Work Exception Output
  unfolding get_string get_optional_string get_optional_record movement_type
  run_scan_event dto batch = do
    qr_token ← check (λ w. get_string dto.payload "qrToken")
    type_text ← check (λ w. get_string dto.payload "type")
    type ← check (λ w. movement_type type_text)
    time_text ← check (λ w. get_string dto.payload "scannedAtDevice")
    scanned_at ← check (λ w. instant services.env.node.parse_date time_text)
    response ← on_db (
        ingest services.env (record {
          operation_id = dto.operation_id;
          event_id = batch.event_id;
          device_id = batch.device_id;
          staff_session_id = batch.staff_session_id;
          checkpoint_id = get_optional_string dto.payload "checkpointId";
          qr_token = qr_token;
          type = type;
          scanned_at_device = scanned_at;
          payload = get_optional_record dto.payload "payload";
        }))
    pure (scanned response)

  abbrev run_by_type :
      SyncOperationType → SubmitSyncOperationDto → SubmitSyncBatchDto → Exec Work Exception Output
  run_by_type SyncOperationType.offline_registration dto batch = do
    answer ← run_offline_registration services dto batch
    pure (registered answer)
  run_by_type SyncOperationType.offline_scan dto batch = run_offline_scan dto batch
  run_by_type SyncOperationType.qr_generation dto batch = run_qr_generation dto
  run_by_type SyncOperationType.scan_event dto batch = run_scan_event dto batch

  unfoldable pub run_operation :
      SubmitSyncOperationDto → SubmitSyncBatchDto → Exec Work Exception Output
  unfolding run_offline_scan run_qr_generation run_scan_event
  run_operation dto batch = run_by_type dto.type dto batch

  -- the end of the `try`
  unfoldable pub finish : SyncOperation → Output → Exec SyncDb Exception OperationResult
  unfolding update_operation
  finish operation output = do
    update_operation operation.id (λ o. record o {
      status = SyncOperationStatus.processed;
      output = some output;
      error_code = none;
      error_message = none;
      processed_at = some services.env.now;
    })
    pure (record {
      operation_id = operation.operation_id;
      status = SyncOperationStatus.processed;
      output = some output;
      error_code = none;
      error_message = none;
      retryable = none;
      retried = false;
    })

  -- the `catch`
  unfoldable pub fail : SyncOperation → Exception → Exec SyncDb Exception OperationResult
  unfolding update_operation classify_sync_operation_error
  fail operation error =
      let classified = classify_sync_operation_error services.get_response error in
      (do
        update_operation operation.id (λ o. record o {
          status = SyncOperationStatus.failed;
          error_code = some classified.code;
          error_message = some classified.message;
          processed_at = some services.env.now;
        })
        pure (record {
          operation_id = operation.operation_id;
          status = SyncOperationStatus.failed;
          output = none;
          error_code = some classified.code;
          error_message = some classified.message;
          retryable = some classified.retryable;
          retried = false;
        }))

  unfoldable pub process_operation :
      SyncOperation
      → SubmitSyncOperationDto
      → SubmitSyncBatchDto
      → Exec SyncDb Exception OperationResult
  unfolding finish fail
  process_operation operation dto batch =
      try_catch (do output ← on_work (run_operation dto batch); finish operation output)
        (fail operation)
