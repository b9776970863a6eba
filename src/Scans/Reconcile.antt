-- ===== src/Scans/Reconcile.antt =====
-- `ingestOfflineScan`: a scan that was made offline and is uploaded; and
-- `reconcileOfflineRegistration`: the waiting scans of a registration that has been synced.
use creative_backend.Base.{
  ℕ, String, Bool, true, false, not, ◌&&◌, ◌||◌, Option, none, some, List, [], ◌∷◌, ◌==◌, leb,
  if◌then◌else◌, find, select, length,
}
use creative_backend.Base.Result.{Result, ok, err}
use creative_backend.Base.Exec.{pure, gets, try_catch, ◌>>=◌, ◌>>◌}
use creative_backend.Base.Json.{get_text}
use creative_backend.Offline.{VerifiedOfflineQr, verify_signed_offline_qr, tokens_equal, text_is}
use creative_backend.Scans.Checks.{given, prerequisites}
use creative_backend.Scans.Context.{Env, or_blank}
use creative_backend.Scans.Records.{
  Action, find_offline_scan_by_operation, create_offline_scan, update_offline_scan,
}
use creative_backend.Scans.Offline.{
  Settlement, waiting, conflict, duplicate, failed, is_processed, is_conflicted, is_retried,
  is_open, process_offline_scan_operation,
}
use creative_backend.Store.{
  Db, MovementType, OfflineScanOperation, OfflineScanStatus, Exception, message,
}

pub record OfflineScanInput : Type 0 where
  pub operation_id : String
  pub event_id : String
  pub scanner_device_id : String
  pub staff_session_id : Option String
  pub checkpoint_id : String
  pub signed_offline_qr : String
  pub offline_qr_token : Option String
  pub offline_registration_operation_id : Option String
  pub movement_type : MovementType
  pub scanned_at_device : ℕ
  pub local_result : Option String

abbrev or_given : Option String → Option String → Option String
or_given none b = b
or_given (some a) b = some a

-- `existing.qrPayloadHash && existing.qrPayloadHash !== hash`
abbrev hash_differs : Option String → String → Bool
hash_differs stored hash = elim (given stored) [ none ↦ false | some h ↦ not (h == hash) ]

-- the registration of a mapping, `mapping?.registrationId`
abbrev pub mapped_registration : Db → String → Option String
mapped_registration db token = elim (find (λ m. m.offline_qr_token == token) db.mappings) [
  | none ↦ none
  | some mapping ↦ given mapping.registration_id
]

-- the token that the scan is stored under
abbrev pub token_of : OfflineScanInput → VerifiedOfflineQr → String
token_of input verified = elim input.offline_qr_token [
  | none ↦ or_blank (get_text "offlineQrToken" verified.payload)
  | some token ↦ token
]

-- the registration that an open operation can be linked to
abbrev linkable : OfflineScanStatus → Option String → Option String
linkable status none = none
linkable status (some id) = if is_processed status || is_conflicted status then none else some id

module _ (env : Env) where
  -- the checks of `ingestOfflineScan`, and the verified code
  unfoldable pub verify_input : OfflineScanInput → Db → Result Exception VerifiedOfflineQr
  verify_input input db =
      elim (verify_signed_offline_qr env.node db env.now input.signed_offline_qr
        (some input.event_id)) [
          | err e ↦ err e
          | ok verified ↦
              if tokens_equal env.node (token_of input verified)
                (or_blank (get_text "offlineQrToken" verified.payload))
              then elim (prerequisites db input.event_id input.scanner_device_id
                  input.staff_session_id (some input.checkpoint_id)) [
                    | err e ↦ err e
                    | ok place ↦ ok verified
                  ]
              else err (Exception.bad_request "Offline scan token mismatch")
        ]

  -- an uploaded operation that is stored already
  unfoldable pub ingest_offline_known :
      OfflineScanInput
      → VerifiedOfflineQr
      → OfflineScanOperation
      → Option String
      → Action Settlement
  ingest_offline_known input verified existing registration_id =
      if hash_differs existing.qr_payload_hash verified.payload_hash
      then (do
        conflicted ← update_offline_scan (record existing {
          status = OfflineScanStatus.conflicted;
          conflict_code = some "OFFLINE_SCAN_CONFLICT";
          conflict_message =
              some "Same offline scan operationId was submitted with a different signed QR payload";
        })
        pure (conflict conflicted))
      else elim (linkable existing.status registration_id) [
        | some id ↦ do
          update_offline_scan (record existing {
            status = OfflineScanStatus.linked;
            registration_id = some id;
            conflict_code = none;
            conflict_message = none;
            staff_session_id = or_given input.staff_session_id existing.staff_session_id;
          })
          process_offline_scan_operation env existing.id
        | none ↦
            if is_retried existing.status
            then pure (waiting true existing)
            else pure (duplicate existing)
      ]

  abbrev uploaded_row : OfflineScanInput → VerifiedOfflineQr → Option String → OfflineScanOperation
  uploaded_row input verified registration_id = record {
    id = 0;
    operation_id = input.operation_id;
    event_id = input.event_id;
    scanner_device_id = input.scanner_device_id;
    checkpoint_id = input.checkpoint_id;
    staff_session_id = input.staff_session_id;
    offline_qr_token = token_of input verified;
    offline_registration_operation_id =
        or_given input.offline_registration_operation_id
          (get_text "offlineRegistrationOperationId" verified.payload);
    scanned_at_device = input.scanned_at_device;
    movement_type = input.movement_type;
    local_result = input.local_result;
    qr_payload = some verified.payload;
    qr_payload_hash = some verified.payload_hash;
    status = elim registration_id [
      | none ↦ OfflineScanStatus.pending_link
      | some id ↦ OfflineScanStatus.linked
    ];
    registration_id = registration_id;
    movement_id = none;
    scan_event_raw_id = none;
    conflict_code = none;
    conflict_message = none;
    synced_at = some env.now;
  }

  unfoldable pub ingest_offline_new :
      OfflineScanInput → VerifiedOfflineQr → Option String → Action Settlement
  ingest_offline_new input verified registration_id = do
    operation ← create_offline_scan (uploaded_row input verified registration_id)
    elim registration_id [
      | none ↦ pure (waiting false operation)
      | some id ↦ process_offline_scan_operation env operation.id
    ]

  unfoldable pub ingest_offline_scan : OfflineScanInput → Action Settlement
  ingest_offline_scan input db = elim (verify_input input db) [
    | err e ↦ (err e, db)
    | ok verified ↦
        let registration_id = mapped_registration db (token_of input verified) in
        elim (find_offline_scan_by_operation db input.operation_id) [
          | some existing ↦ ingest_offline_known input verified existing registration_id db
          | none ↦ ingest_offline_new input verified registration_id db
        ]
  ]

  -- `orderBy: { scannedAtDevice: 'asc' }`
  abbrev insert_by_time :
      OfflineScanOperation → List OfflineScanOperation → List OfflineScanOperation
  insert_by_time o [] = o ∷ []
  insert_by_time o (p ∷ r) =
      let rest = insert_by_time o r in
      if leb o.scanned_at_device p.scanned_at_device then o ∷ (p ∷ r) else p ∷ rest

  abbrev pub sort_by_time : List OfflineScanOperation → List OfflineScanOperation
  sort_by_time [] = []
  sort_by_time (o ∷ r) = insert_by_time o (sort_by_time r)

  -- the filter of the query for waiting scans
  abbrev waits_for : (event_id token operation_id : String) → OfflineScanOperation → Bool
  waits_for event_id token operation_id o =
      (o.event_id == event_id)
      && is_open o.status
      && ((o.offline_qr_token == token) || text_is o.offline_registration_operation_id operation_id)

  -- one round of the loop, with its `try` and `catch`
  unfoldable pub reconcile_one :
      (registration_id : String) → OfflineScanOperation → Action Settlement
  reconcile_one registration_id o =
      try_catch
        (do
          update_offline_scan (record o {
            status = OfflineScanStatus.linked;
            registration_id = some registration_id;
          })
          process_offline_scan_operation env o.id)
        (λ error. do
          row ← update_offline_scan (record o {
            status = OfflineScanStatus.failed;
            registration_id = some registration_id;
            conflict_code = some "OFFLINE_RECONCILIATION_FAILED";
            conflict_message = some (message error);
          })
          pure (failed row))

  unfoldable pub reconcile_all :
      (registration_id : String) → List OfflineScanOperation → Action (List Settlement)
  unfolding reconcile_one
  reconcile_all registration_id [] = pure []
  reconcile_all registration_id (o ∷ rest) = do
    result ← reconcile_one registration_id o
    results ← reconcile_all registration_id rest
    pure (result ∷ results)

  unfoldable pub reconcile_offline_registration :
      (event_id token operation_id registration_id : String) → Action (ℕ × List Settlement)
  unfolding reconcile_all
  reconcile_offline_registration event_id token operation_id registration_id = do
    pending ←
        gets (λ db. sort_by_time (select (waits_for event_id token operation_id) db.offline_scans))
    results ← reconcile_all registration_id pending
    pure (length results, results)
