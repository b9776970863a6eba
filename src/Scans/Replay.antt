-- ===== src/Scans/Replay.antt =====
-- A scan that was settled and is sent again: the same answer, and nothing changes.
use creative_backend.Base.{
  ◌+◌, String, ◌≡◌, refl, ap, subst, sym, ◌∙◌, Bool, true, false, not, none, some, List, [], ◌∷◌,
  ◌++◌, arith, eqb, eqb_self, ==_self, ◌⊎◌, inl, inr, Option-cases, Bool-cases, find, select,
}
use creative_backend.Base.Result.{Result, ok, err}
use creative_backend.Base.Exec.{pure, ◌>>◌}
use creative_backend.Base.Json.{Fields}
use creative_backend.Scans.Checks.{Place, prerequisites, verdict, result_of, is_allowed}
use creative_backend.Scans.Context.{
  Env, QrContext, valid, pending_offline, pending_reference, invalid, validate_qr_for_scan,
}
use creative_backend.Scans.Records.{
  CreateScanDto, find_scan_by_operation, movement_of, processed_row, movement_row, touch_activity,
  create_processed_scan_and_movement, delete_scan,
}
use creative_backend.Scans.Ingest.{
  Response, formatted, record_scan, ingest_new, ingest_known, ingest, is_retryable, is_answered,
  is_invalid_qr, was_allowed, reason_or_duplicate,
}
use creative_backend.Store.{
  Db, QrToken, Registration, ScanEventRaw, MovementLog, MovementResult, Exception, Device,
  StaffSession,
}

find-append_new :
    {A : Type 0} (p : A → Bool) (xs : List A) (x : A)
    → find p xs ≡ none
    → p x ≡ true
    → find p (xs ++ x ∷ []) ≡ some x
find-append_new p [] x h e = rw e
find-append_new p (y ∷ ys) x h e = ground (arith, find-append_new p ys x)

-- The operation is stored as processed, with its movement, both under the session of the request, and
-- answers `allowed` and `reason`.
pub record IsAnswered (dto : CreateScanDto) (allowed : Bool) (reason : String) (scan : ScanEventRaw)
    (movement : MovementLog) (db : Db) : Type 0 where
  pub known : find_scan_by_operation db dto.operation_id ≡ some scan
  pub moved : movement_of db scan.id ≡ some movement
  pub answered : is_answered scan.status ≡ true
  pub processed : is_invalid_qr scan.status ≡ false
  pub same_result : was_allowed scan.result ≡ allowed
  pub same_reason : reason_or_duplicate scan.reason ≡ reason
  pub scan_session : scan.staff_session_id ≡ dto.staff_session_id
  pub movement_session : movement.staff_session_id ≡ dto.staff_session_id

-- what a result says of the database, where it is an answer with a movement
abbrev Describes : CreateScanDto → Result Exception Response → Db → Type 0
Describes dto (ok (formatted duplicate allowed reason scan (some movement))) db =
    IsAnswered dto allowed reason scan movement db
Describes dto _ db = Unit

replayed :
    (later : Env) (dto : CreateScanDto) (allowed : Bool) (reason : String) (scan : ScanEventRaw)
    (movement : MovementLog) (db : Db)
    → IsAnswered dto allowed reason scan movement db
    → ingest later dto db ≡ (ok (formatted true allowed reason scan (some movement)), db)
unfolding ingest ingest_known is_retryable
replayed later dto allowed reason scan movement db a =
    ground (arith, a.known, a.moved, a.answered, a.processed, a.same_result, a.same_reason)

-- Activity does not touch scans and movements.
moved_on :
    {dto : CreateScanDto} {reason : String} {allowed : Bool} {scan : ScanEventRaw}
    {movement : MovementLog} {db : Db} {devices : List Device} {sessions : List StaffSession}
    → IsAnswered dto allowed reason scan movement db
    → IsAnswered dto allowed reason scan movement
        (record db { devices = devices; staff_sessions = sessions })
moved_on a = record {
  known = a.known;
  moved = a.moved;
  answered = a.answered;
  processed = a.processed;
  same_result = a.same_result;
  same_reason = a.same_reason;
  scan_session = a.scan_session;
  movement_session = a.movement_session;
}

module _ (env : Env) (dto : CreateScanDto) where
  module _ (token : QrToken) (registration : Registration) (payload : Fields)
      (result : MovementResult) (reason : String) (db : Db) where
    abbrev new_scan : ScanEventRaw
    new_scan = record (processed_row env.now dto token registration payload result reason) {
      id = db.next_id;
    }

    abbrev new_movement : MovementLog
    new_movement = record (movement_row new_scan token registration result reason) {
      id = db.next_id + 1;
    }

    abbrev new_db : Db
    new_db = record db {
      scans = db.scans ++ new_scan ∷ [];
      movements = db.movements ++ new_movement ∷ [];
      next_id = db.next_id + 1 + 1;
    }

    create_new :
        find_scan_by_operation db dto.operation_id ≡ none
        → movement_of db db.next_id ≡ none
        → create_processed_scan_and_movement env.now dto token registration payload result reason db
          ≡ (ok (new_scan, new_movement), new_db)
    unfolding create_processed_scan_and_movement
    create_new n m = ground (arith, n, m)

    create_refused :
        ((scan : ScanEventRaw) × (find_scan_by_operation db dto.operation_id ≡ some scan))
          ⊎ ((m : MovementLog) × (movement_of db db.next_id ≡ some m))
        → create_processed_scan_and_movement env.now dto token registration payload result reason db
          ≡ (err Exception.unique_constraint, db)
    unfolding create_processed_scan_and_movement
    create_refused (inl (scan, e)) = ground (arith, e)
    create_refused (inr (m, e)) = ground (arith, e)

  rest_of :
      Place
      → Registration
      → String
      → Result Exception (ScanEventRaw × MovementLog) × Db
      → Result Exception Response × Db
  unfolding touch_activity
  rest_of place registration reason (ok (scan, movement), db') =
      (touch_activity env.now place.device.id place.session
          >> pure (formatted false (is_allowed (result_of reason)) reason scan (some movement)))
        db'
  rest_of place registration reason (err e, db') = (err e, db')

  finished :
      (place : Place) (token : QrToken) (registration : Registration) (payload : Fields) (db : Db)
      (x : Result Exception (ScanEventRaw × MovementLog) × Db)
      → (let reason =
            verdict db place.event place.checkpoint registration.attendee_type_code registration.id
              dto.type in
          create_processed_scan_and_movement env.now dto token registration payload
            (result_of reason)
            reason
            db)
        ≡ x
      → record_scan env dto place (valid token registration payload) db
        ≡ rest_of place registration
            (verdict db place.event place.checkpoint registration.attendee_type_code registration.id
              dto.type)
            x
  unfolding record_scan rest_of
  finished place token registration payload db (ok y, db') e = ground (arith, e)
  finished place token registration payload db (err y, db') e = ground (arith, e)

  new-IsAnswered :
      (token : QrToken) (registration : Registration) (payload : Fields) (why : String) (db : Db)
      → find_scan_by_operation db dto.operation_id ≡ none
      → movement_of db db.next_id ≡ none
      → IsAnswered dto
          (is_allowed (result_of why))
          why
          (new_scan token registration payload (result_of why) why db)
          (new_movement token registration payload (result_of why) why db)
          (new_db token registration payload (result_of why) why db)
  new-IsAnswered token registration payload why db n m = record {
    known = find-append_new _ db.scans _ n (==_self dto.operation_id);
    moved = find-append_new _ db.movements _ m (eqb_self db.next_id);
    answered = refl;
    processed = refl;
    same_result = refl;
    same_reason = refl;
    scan_session = refl;
    movement_session = refl;
  }

  valid-IsAnswered :
      (place : Place) (token : QrToken) (registration : Registration) (payload : Fields) (db : Db)
      (allowed : Bool) (reason : String) (scan : ScanEventRaw) (movement : MovementLog)
      → (record_scan env dto place (valid token registration payload) db).0
        ≡ ok (formatted false allowed reason scan (some movement))
      → IsAnswered dto allowed reason scan movement
          (record_scan env dto place (valid token registration payload) db).1
  unfolding rest_of
  valid-IsAnswered place token registration payload db allowed reason scan movement h =
      let why =
        verdict db place.event place.checkpoint registration.attendee_type_code registration.id
          dto.type in
      let done = finished place token registration payload db in
      elim (Option-cases (find_scan_by_operation db dto.operation_id)) [
        | inr known ↦ absurd (
            cc (
              h,
              done _ (create_refused token registration payload (result_of why) why db (inl known)),
            ))
        | inl n ↦ elim (Option-cases (movement_of db db.next_id)) [
          | inr moved ↦ absurd (
              cc (
                h,
                done _
                    (create_refused token registration payload (result_of why) why db (inr moved)),
              ))
          | inl m ↦
              let eq = done _ (create_new token registration payload (result_of why) why db n m) in
              subst
                (λ r.
                  Describes dto r
                    (record_scan env dto place (valid token registration payload) db).1)
                h
                (subst (λ x. Describes dto x.0 x.1) (sym eq)
                  (moved_on (new-IsAnswered token registration payload why db n m)))
        ]
      ]

  context-IsAnswered :
      (place : Place) (context : QrContext) (db : Db) (allowed : Bool) (reason : String)
      (scan : ScanEventRaw) (movement : MovementLog)
      → (record_scan env dto place context db).0
        ≡ ok (formatted false allowed reason scan (some movement))
      → IsAnswered dto allowed reason scan movement (record_scan env dto place context db).1
  context-IsAnswered place (valid token registration payload) db allowed reason scan movement h =
      valid-IsAnswered place token registration payload db allowed reason scan movement h
  context-IsAnswered place (pending_reference t p r) db allowed reason scan movement h =
      absurd (unfold record_scan in ground arith)
  context-IsAnswered place (pending_offline v) db allowed reason scan movement h =
      absurd (unfold record_scan in ground arith)
  context-IsAnswered place (invalid r p q i) db allowed reason scan movement h =
      absurd (unfold record_scan in ground arith)

  ingest_new-IsAnswered :
      (db : Db) (allowed : Bool) (reason : String) (scan : ScanEventRaw) (movement : MovementLog)
      → (ingest_new env dto db).0 ≡ ok (formatted false allowed reason scan (some movement))
      → IsAnswered dto allowed reason scan movement (ingest_new env dto db).1
  ingest_new-IsAnswered db allowed reason scan movement h = go _ refl
    where
      go :
          (r : Result Exception Place)
          → prerequisites db dto.event_id dto.device_id dto.staff_session_id dto.checkpoint_id ≡ r
          → IsAnswered dto allowed reason scan movement (ingest_new env dto db).1
      go (err x) e = absurd (unfold ingest_new in ground (arith, e))
      go (ok place) e =
          let context = validate_qr_for_scan env db dto.qr_token dto.event_id in
          let eq : ingest_new env dto db ≡ record_scan env dto place context db =
            unfold ingest_new in ground (arith, e) in
          subst (λ x. IsAnswered dto allowed reason scan movement x.1) (sym eq)
            (context-IsAnswered place context db allowed reason scan movement
              (sym (ap (λ x. x.0) eq) ∙ h))

  pub ingest-IsAnswered :
      (db : Db) (allowed : Bool) (reason : String) (scan : ScanEventRaw) (movement : MovementLog)
      → (ingest env dto db).0 ≡ ok (formatted false allowed reason scan (some movement))
      → IsAnswered dto allowed reason scan movement (ingest env dto db).1
  ingest-IsAnswered db allowed reason scan movement h =
      elim (Option-cases (find_scan_by_operation db dto.operation_id)) [
        | inl new ↦
            let eq : ingest env dto db ≡ ingest_new env dto db =
              unfold ingest in ground (arith, new) in
            subst (λ x. IsAnswered dto allowed reason scan movement x.1) (sym eq)
              (ingest_new-IsAnswered db allowed reason scan movement (sym (ap (λ x. x.0) eq) ∙ h))
        | inr (old, known) ↦ elim (Bool-cases (is_retryable old (movement_of db old.id))) [
          | inr kept ↦ absurd (unfold ingest ingest_known in ground (arith, known, kept))
          | inl again ↦
              let emptied = record db { scans = select (λ e. not (eqb e.id old.id)) db.scans } in
              let eq : ingest env dto db ≡ ingest_new env dto emptied =
                unfold ingest ingest_known delete_scan in ground (arith, known, again) in
              subst (λ x. IsAnswered dto allowed reason scan movement x.1) (sym eq)
                (ingest_new-IsAnswered emptied allowed reason scan movement
                  (sym (ap (λ x. x.0) eq) ∙ h))
        ]
      ]

-- If `ingest` answers a scan that is not a duplicate with a movement, allowed or denied, then sending
-- it again, at any later time, gives the same answer, scan and movement, marked as a duplicate, and
-- changes nothing in the database.
pub ingest_twice :
    (env later : Env) (dto : CreateScanDto) (db : Db) (allowed : Bool) (reason : String)
    (scan : ScanEventRaw) (movement : MovementLog)
    → (ingest env dto db).0 ≡ ok (formatted false allowed reason scan (some movement))
    → ingest later dto (ingest env dto db).1
      ≡ (ok (formatted true allowed reason scan (some movement)), (ingest env dto db).1)
ingest_twice env later dto db allowed reason scan movement h =
    replayed later dto allowed reason scan movement (ingest env dto db).1
      (ingest-IsAnswered env dto db allowed reason scan movement h)
