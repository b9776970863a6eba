-- ===== src/Sync/Register.antt =====
-- `runOfflineRegistration`: a registration that a device made offline gets its place on the server.
use creative_backend.Base.{
  ◌+◌, String, Bool, true, false, not, ◌&&◌, ◌||◌, Option, none, some, [], ◌∷◌, ◌++◌, ◌==◌,
  if◌then◌else◌, find, update,
}
use creative_backend.Base.Result.{ok, err}
use creative_backend.Base.Exec.{Exec, pure, throw, gets, check, modify, try_catch, ◌>>=◌, ◌>>◌}
use creative_backend.Base.Json.{Fields}
use creative_backend.Scans.Checks.{given}
use creative_backend.Scans.Records.{Action}
use creative_backend.Scans.Reconcile.{reconcile_offline_registration}
use creative_backend.Store.{
  Db, QrToken, Registration, OfflineRegistrationMapping, MappingStatus, Exception, message,
}
use creative_backend.Sync.Rows.{
  Work, Services, GeneratedQr, Registered, SubmitSyncOperationDto, SubmitSyncBatchDto, on_db,
}
use creative_backend.Sync.Payload.{get_string, get_optional_string, get_optional_record}
use creative_backend.Sync.Identity.{Identity, read_registration}

abbrev has_operation : Identity → OfflineRegistrationMapping → Bool
has_operation who m =
    (m.issuer_device_id == who.issuer_device_id)
    && (m.offline_registration_operation_id == who.operation_id)

abbrev has_local_id : Identity → OfflineRegistrationMapping → Bool
has_local_id who m =
    (m.issuer_device_id == who.issuer_device_id)
    && (m.offline_registration_id == who.registration_id)

unfoldable pub find_existing_offline_mapping : Db → Identity → Option OfflineRegistrationMapping
find_existing_offline_mapping db who =
    find
      (λ m.
        (m.event_id == who.event_id)
        && (has_operation who m
            || has_local_id who m
            || (m.offline_qr_token == who.offline_qr_token)))
      db.mappings

unfoldable pub update_mapping :
    String → (OfflineRegistrationMapping → OfflineRegistrationMapping) → Action Unit
update_mapping id change db =
    (ok tt, record db { mappings = update (λ m. m.id == id) change db.mappings })

abbrev new_mapping : (id payload_hash : String) → Identity → OfflineRegistrationMapping
new_mapping id payload_hash who = record {
  id = id;
  event_id = who.event_id;
  offline_registration_operation_id = who.operation_id;
  offline_qr_token = who.offline_qr_token;
  registration_id = none;
  canonical_qr_token_id = none;
  status = MappingStatus.pending;
  issuer_device_id = who.issuer_device_id;
  offline_registration_id = who.registration_id;
  payload_hash = payload_hash;
  conflict_code = none;
  conflict_message = none;
  synced_at = none;
}

-- `upsert` with an empty update; a token, and a local id of a device and an event, are unique.
unfoldable pub upsert_mapping :
    Services → Identity → (payload_hash : String) → Action OfflineRegistrationMapping
upsert_mapping services who payload_hash db =
    elim (find (λ m. (m.event_id == who.event_id) && has_operation who m) db.mappings) [
      | some mapping ↦ (ok mapping, db)
      | none ↦
          elim (find
            (λ m.
              (m.offline_qr_token == who.offline_qr_token)
              || ((m.event_id == who.event_id) && has_local_id who m))
            db.mappings) [
              | some other ↦ (err Exception.unique_constraint, db)
              | none ↦
                  let mapping = new_mapping (services.cuid db.next_id) payload_hash who in
                  (
                    ok mapping,
                    record db { mappings = db.mappings ++ mapping ∷ []; next_id = db.next_id + 1 },
                  )
            ]
    ]

abbrev external_id_is : String → Option String → Bool
external_id_is id none = false
external_id_is id (some other) = other == id

abbrev is_permanent : Exception → Bool
is_permanent (Exception.conflict text) = true
is_permanent (Exception.bad_request text) = true
is_permanent (Exception.not_found text) = true
is_permanent _ = false

abbrev failure_code : Exception → String
failure_code (Exception.conflict text) = "DUPLICATE_REGISTRATION"
failure_code error =
    if is_permanent error
    then "INVALID_OFFLINE_REGISTRATION"
    else "OFFLINE_REGISTRATION_RETRYABLE_FAILURE"

abbrev or_same : Option QrToken → Option String → Option String
or_same none id = id
or_same (some token) id = some token.id

abbrev id_of : Option QrToken → Option String
id_of none = none
id_of (some token) = some token.id

abbrev remember : String → Registration → Exec Work Exception Unit
remember local_id registration =
    modify
      (λ w. record w { local_registrations = (local_id, registration) ∷ w.local_registrations })

abbrev canonical : GeneratedQr → String
canonical qr = elim qr.compact_qr_token [ none ↦ qr.qr_token | some token ↦ token ]

abbrev answer : String → Registration → Identity → Option String → GeneratedQr → Registered
answer status registration who qr_token_id qr = record {
  status = status;
  registration = registration;
  offline_registration_operation_id = who.operation_id;
  offline_registration_id = who.registration_id;
  offline_qr_token = who.offline_qr_token;
  canonical_qr_token_id = qr_token_id;
  canonical_qr_token = canonical qr;
  canonical_signed_qr_token = qr.qr_token;
}

module _ (services : Services) (who : Identity) where
  -- the job of the queue, or the work itself where the queue fails
  unfoldable pub enqueue_offline_reconciliation : (registration_id : String) → Action Unit
  enqueue_offline_reconciliation registration_id = if services.queue_accepts then pure tt else do
    done ←
        reconcile_offline_registration services.env who.event_id who.offline_qr_token
          who.operation_id registration_id
    pure tt

  -- the end of both branches that give the mapping its registration
  unfoldable pub link :
      (status : String)
      → (OfflineRegistrationMapping → OfflineRegistrationMapping)
      → OfflineRegistrationMapping
      → Registration
      → Exec Work Exception Registered
  unfolding update_mapping enqueue_offline_reconciliation
  link status clear mapping registration = do
    qr ← on_db (services.generate_qr registration.id)
    token ← gets (λ w. find (λ t. t.token_id == qr.token_id) w.db.qr_tokens)
    on_db (
        update_mapping mapping.id (λ m. record (clear m) {
          registration_id = some registration.id;
          canonical_qr_token_id = or_same token m.canonical_qr_token_id;
          status = MappingStatus.synced;
          synced_at = some services.env.now;
        }))
    remember who.registration_id registration
    on_db (enqueue_offline_reconciliation registration.id)
    pure (answer status registration who (id_of token) qr)

  unfoldable pub register_new : Fields → OfflineRegistrationMapping → Action Registration
  unfolding update_mapping get_string get_optional_string get_optional_record
  register_new payload mapping =
      try_catch
        (do
          attendee_type_id ← check (λ db. get_string payload "attendeeTypeId")
          full_name ← check (λ db. get_string payload "fullName")
          phone ← check (λ db. get_string payload "phone")
          services.create_registration (record {
            event_id = who.event_id;
            attendee_type_id = attendee_type_id;
            full_name = full_name;
            phone = phone;
            email = get_optional_string payload "email";
            company_name = get_optional_string payload "companyName";
            job_title = get_optional_string payload "jobTitle";
            external_id = get_optional_string payload "externalId";
            custom_fields = get_optional_record payload "customFields";
            notes = get_optional_string payload "notes";
          }))
        (λ error. do
          update_mapping mapping.id (λ m. record m {
            status = if is_permanent error then MappingStatus.conflicted else MappingStatus.pending;
            conflict_code = some (failure_code error);
            conflict_message = some (message error);
          })
          throw error)

  -- no registration is linked to the identity yet
  unfoldable pub register_unlinked :
      Fields → (payload_hash : String) → Exec Work Exception Registered
  unfolding upsert_mapping link register_new get_optional_string
  register_unlinked payload payload_hash = do
    mapping ← on_db (upsert_mapping services who payload_hash)
    partial ← gets (λ w.
        find
          (λ r.
            (r.event_id == who.event_id)
            && external_id_is
                (elim (get_optional_string payload "externalId") [
                  | none ↦ who.operation_id
                  | some id ↦ id
                ])
                r.external_id)
          w.db.registrations)
    elim partial [
      | some registration ↦
          link "RECOVERED_EXISTING"
            (λ m. record m { conflict_code = none; conflict_message = none }) mapping registration
      | none ↦ do
        registration ← on_db (register_new payload mapping)
        link "CREATED" (λ m. m) mapping registration
    ]

  unfoldable pub answer_known :
      OfflineRegistrationMapping → Registration → Exec Work Exception Registered
  answer_known mapping registration = do
    remember who.registration_id registration
    qr ← on_db (services.generate_qr registration.id)
    pure (answer "ALREADY_SYNCED" registration who mapping.canonical_qr_token_id qr)

  abbrev linked_registration : Db → OfflineRegistrationMapping → Option Registration
  linked_registration db mapping = elim (given mapping.registration_id) [
    | none ↦ none
    | some id ↦ find (λ r. r.id == id) db.registrations
  ]

  -- what is done once the identity is known and the code is verified
  unfoldable pub register_identity :
      Fields → (payload_hash : String) → Exec Work Exception Registered
  unfolding find_existing_offline_mapping update_mapping answer_known register_unlinked
  register_identity payload payload_hash w = elim (find_existing_offline_mapping w.db who) [
    | none ↦ register_unlinked payload payload_hash w
    | some mapping ↦
        if not (mapping.offline_qr_token == who.offline_qr_token)
          || not (mapping.payload_hash == payload_hash)
        then (do
          on_db (
              update_mapping mapping.id (λ m. record m {
                status = MappingStatus.conflicted;
                conflict_code = some "OFFLINE_REGISTRATION_CONFLICT";
                conflict_message =
                    some
                      "Same offline registration identity was submitted with a different payload";
              }))
          throw (Exception.conflict "OFFLINE_REGISTRATION_CONFLICT"))
            w
        else elim (linked_registration w.db mapping) [
          | none ↦ register_unlinked payload payload_hash w
          | some registration ↦ answer_known mapping registration w
        ]
  ]

module _ (services : Services) where
  unfoldable pub run_offline_registration :
      SubmitSyncOperationDto → SubmitSyncBatchDto → Exec Work Exception Registered
  unfolding read_registration register_identity
  run_offline_registration dto batch = do
    (verified, who) ← check (λ w. read_registration services.env w.db dto.payload batch)
    register_identity services who dto.payload verified.payload_hash
