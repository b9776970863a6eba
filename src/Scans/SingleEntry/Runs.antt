-- ===== src/Scans/SingleEntry/Runs.antt =====
-- Every operation of the service keeps the single entry, and so does every run of operations.
use creative_backend.Base.{
  ℕ, String, ◌≡◌, refl, Bool, true, false, Option, some, List, [], ◌∷◌, arith, inl, inr,
  Option-cases, Bool-cases,
}
use creative_backend.Base.Result.{Result, ok, err}
use creative_backend.Base.Exec.{pure, ◌>>◌}
use creative_backend.Scans.Checks.{
  Place, prerequisites, verdict, result_of, find_event, is_allowed, ensure_event_can_be_modified,
}
use creative_backend.Scans.Context.{
  Env, QrContext, valid, pending_offline, pending_reference, invalid,
}
use creative_backend.Scans.Records.{
  CreateScanDto, find_scan_by_operation, find_scan, movement_of, delete_scan, touch_activity,
  create_processed_scan_and_movement, update_raw_scan_and_create_movement,
}
use creative_backend.Scans.Ingest.{
  Response, record_scan, ingest_new, ingest_known, ingest, ingest_fast, is_retryable, is_answered,
}
use creative_backend.Scans.Process.{
  process_context, process_pending, process_failed, process_raw_scan, Outcome, is_pending, warn,
}
use creative_backend.Scans.Keeps.{Keeps, bind_at, Keeps-bind, Keeps-try_catch}
use creative_backend.Scans.SingleEntry.{
  HasSingleEntry, Adds-HasSingleEntry, create_processed-Adds, update_raw-Adds,
}
use creative_backend.Scans.SingleEntry.Writes.{writes, delete_scan-Keeps}
use creative_backend.Store.{Db, ScanEventRaw, Exception}

prerequisites-event :
    (db : Db) (event_id device_id : String) (session checkpoint : Option String) (place : Place)
    → prerequisites db event_id device_id session checkpoint ≡ ok place
    → find_event db event_id ≡ some place.event
unfolding prerequisites ensure_event_can_be_modified
prerequisites-event db event_id device_id session checkpoint place h = ground arith

-- a context that adds no movement
abbrev is_valid : QrContext → Bool
is_valid (valid token registration payload) = true
is_valid _ = false

module _ (env : Env) where
  record_unsettled-Keeps :
      (dto : CreateScanDto) (place : Place) (context : QrContext)
      → is_valid context ≡ false
      → Keeps HasSingleEntry (record_scan env dto place context)
  unfolding record_scan
  record_unsettled-Keeps dto place (pending_reference token payload id) h = search writes
  record_unsettled-Keeps dto place (pending_offline verified) h = search writes
  record_unsettled-Keeps dto place (invalid reason payload t r) h = search writes
  record_unsettled-Keeps dto place (valid token registration payload) h = absurd (cc)

  record_scan-keeps :
      (dto : CreateScanDto) (place : Place) (context : QrContext) (db : Db)
      → find_event db dto.event_id ≡ some place.event
      → HasSingleEntry db
      → HasSingleEntry (record_scan env dto place context db).1
  unfolding record_scan
  record_scan-keeps dto place (valid token registration payload) db found h =
      let code = registration.attendee_type_code in
      let reason = verdict db place.event place.checkpoint code registration.id dto.type in
      bind_at {P = HasSingleEntry}
        (create_processed_scan_and_movement env.now dto token registration payload
          (result_of reason) reason)
        (λ x.
          touch_activity env.now place.device.id place.session
          >> pure (Response.formatted false (is_allowed (result_of reason)) reason x.0 (some x.1)))
        db
        (Adds-HasSingleEntry place.event place.checkpoint code dto.event_id registration.id dto.type
          found
          (create_processed-Adds env.now token registration payload (result_of reason) reason dto
            db)
          h)
        (λ x. search writes)
  record_scan-keeps dto place context db found h =
      (record_unsettled-Keeps dto place context refl).at db h

  ingest_new-Keeps : (dto : CreateScanDto) → Keeps HasSingleEntry (ingest_new env dto)
  unfolding ingest_new
  ingest_new-Keeps dto = record { at = λ db h. go db h _ refl }
    where
      go :
          (db : Db)
          → HasSingleEntry db
          → (r : Result Exception Place)
          → prerequisites db dto.event_id dto.device_id dto.staff_session_id dto.checkpoint_id ≡ r
          → HasSingleEntry (ingest_new env dto db).1
      go db h (ok place) e =
          rw (e, ingest_new)
            (record_scan-keeps dto place _ db
              (prerequisites-event db dto.event_id dto.device_id dto.staff_session_id
                dto.checkpoint_id place e)
              h)
      go db h (err x) e = rw (e, ingest_new) h

  warn-Keeps :
      (scan : ScanEventRaw) (place : Place) (reason : String) (answer : ScanEventRaw → Outcome)
      → Keeps HasSingleEntry (warn env scan place reason answer)
  unfolding warn
  warn-Keeps scan place reason answer = record { at = λ db h. record { at = h.at } }

  process_unsettled-Keeps :
      (scan : ScanEventRaw) (place : Place) (context : QrContext)
      → is_valid context ≡ false
      → Keeps HasSingleEntry (process_context env scan place context)
  unfolding process_context
  process_unsettled-Keeps scan place (pending_reference token payload id) h =
      search (writes, warn-Keeps)
  process_unsettled-Keeps scan place (pending_offline verified) h = search (writes, warn-Keeps)
  process_unsettled-Keeps scan place (invalid reason payload t r) h = search writes
  process_unsettled-Keeps scan place (valid token registration payload) h = absurd (cc)

  process_context-keeps :
      (scan : ScanEventRaw) (place : Place) (context : QrContext) (db : Db)
      → find_event db scan.event_id ≡ some place.event
      → HasSingleEntry db
      → HasSingleEntry (process_context env scan place context db).1
  unfolding process_context
  process_context-keeps scan place (valid token registration payload) db found h =
      let code = registration.attendee_type_code in
      let reason = verdict db place.event place.checkpoint code registration.id scan.type in
      bind_at {P = HasSingleEntry}
        (update_raw_scan_and_create_movement env.now scan token registration payload
          (result_of reason) reason)
        (λ x.
          touch_activity env.now place.device.id place.session
          >> pure (Outcome.formatted (is_allowed (result_of reason)) reason x.0 (some x.1)))
        db
        (Adds-HasSingleEntry place.event place.checkpoint code scan.event_id registration.id
          scan.type found
          (update_raw-Adds env.now token registration payload (result_of reason) reason scan db) h)
        (λ x. search writes)
  process_context-keeps scan place context db found h =
      (process_unsettled-Keeps scan place context refl).at db h

  process_pending-Keeps : (scan : ScanEventRaw) → Keeps HasSingleEntry (process_pending env scan)
  unfolding process_pending
  process_pending-Keeps scan = record { at = λ db h. go db h _ refl }
    where
      go :
          (db : Db)
          → HasSingleEntry db
          → (r : Result Exception Place)
          → prerequisites db scan.event_id scan.device_id scan.staff_session_id scan.checkpoint_id
            ≡ r
          → HasSingleEntry (process_pending env scan db).1
      go db h (ok place) e =
          rw (e, process_pending)
            (process_context-keeps scan place _ db
              (prerequisites-event db scan.event_id scan.device_id scan.staff_session_id
                scan.checkpoint_id place e)
              h)
      go db h (err x) e = rw (e, process_pending) h

  process_failed-Keeps :
      (scan : ScanEventRaw) (error : Exception)
      → Keeps HasSingleEntry (process_failed env scan error)
  unfolding process_failed
  process_failed-Keeps scan error = record { at = λ db h. record { at = h.at } }

  ingest_known-Keeps :
      (dto : CreateScanDto) (scan : ScanEventRaw) → Keeps HasSingleEntry (ingest_known env dto scan)
  unfolding ingest_known
  ingest_known-Keeps dto scan = record {
    at = λ db h.
        let again =
          Keeps-bind (delete_scan scan.id) (λ _. ingest_new env dto) (delete_scan-Keeps scan.id)
            (λ _. ingest_new-Keeps dto) in
        elim (Bool-cases (is_retryable scan (movement_of db scan.id))) [
          | inl e ↦ rw (e, ingest_known) (again.at db h)
          | inr e ↦ elim (Bool-cases (is_answered scan.status)) [
            | inl a ↦ rw (e, a, ingest_known) h
            | inr b ↦ rw (e, b, ingest_known) h
          ]
        ];
  }

  -- An online scan keeps the single entry, whether it is answered or refused.
  pub ingest-Keeps : (dto : CreateScanDto) → Keeps HasSingleEntry (ingest env dto)
  unfolding ingest
  ingest-Keeps dto = record {
    at = λ db h. elim (Option-cases (find_scan_by_operation db dto.operation_id)) [
      | inl new ↦ rw (new, ingest) ((ingest_new-Keeps dto).at db h)
      | inr (scan, old) ↦ rw (old, ingest) ((ingest_known-Keeps dto scan).at db h)
    ];
  }

  ingest_fast-Keeps : (dto : CreateScanDto) → Keeps HasSingleEntry (ingest_fast env dto)
  unfolding ingest_fast
  ingest_fast-Keeps dto = record {
    at = λ db h. record { at = λ e r closed. ground (arith, h.at e r) };
  }

  process_raw_scan-Keeps : (id : ℕ) → Keeps HasSingleEntry (process_raw_scan env id)
  unfolding process_raw_scan
  process_raw_scan-Keeps id = record {
    at = λ db h. elim (Option-cases (find_scan db id)) [
      | inl missing ↦ rw (missing, process_raw_scan) h
      | inr (scan, found) ↦ elim (Bool-cases (is_pending scan.status)) [
        | inl open' ↦
            rw (found, open', process_raw_scan)
              ((Keeps-try_catch (process_pending env scan) (process_failed env scan)
                  (process_pending-Keeps scan) (process_failed-Keeps scan)).at
                db h)
        | inr done ↦ rw (found, done, process_raw_scan) h
      ]
    ];
  }

-- One call of the online service, with what it takes from outside.
pub data Call : Type 0 where
  ingests : Env → CreateScanDto → Call
  ingests_fast : Env → CreateScanDto → Call
  processes : Env → (scan_id : ℕ) → Call

unfoldable pub after : Call → Db → Db
after (ingests env dto) db = (ingest env dto db).1
after (ingests_fast env dto) db = (ingest_fast env dto db).1
after (processes env id) db = (process_raw_scan env id db).1

-- the database after a history of calls
unfoldable pub run : List Call → Db → Db
unfolding after
run [] db = db
run (call ∷ calls) db = run calls (after call db)

after-HasSingleEntry : (call : Call) (db : Db) → HasSingleEntry db → HasSingleEntry (after call db)
unfolding after
after-HasSingleEntry (ingests env dto) db h = (ingest-Keeps env dto).at db h
after-HasSingleEntry (ingests_fast env dto) db h = (ingest_fast-Keeps env dto).at db h
after-HasSingleEntry (processes env id) db h = (process_raw_scan-Keeps env id).at db h

-- From a database in which every registration has at most one allowed ENTRY movement for each event
-- that allows no re-entry, every history of `ingest`, `ingestFast` and `processRawScan` calls, one
-- after the other, leads to a database of that kind.
pub run-HasSingleEntry :
    (calls : List Call) (db : Db) → HasSingleEntry db → HasSingleEntry (run calls db)
unfolding run
run-HasSingleEntry [] db h = h
run-HasSingleEntry (call ∷ calls) db h =
    run-HasSingleEntry calls (after call db) (after-HasSingleEntry call db h)
