-- ===== src/Scans/Progress.antt =====
-- `processRawScan` settles every pending scan, and a second delivery of the job changes nothing.
use creative_backend.Base.{
  find-update, ℕ, ◌+◌, ◌++◌, String, ◌≡◌, refl, subst, sym, true, false, Option, none, some, List,
  [], ◌∷◌, arith, eqb, eqb_iff, eqb_self, inl, inr, Option-cases, Bool-cases, find, update,
  find_satisfies,
}
use creative_backend.Base.Result.{Result, ok, err}
use creative_backend.Base.Exec.{pure, try_catch, ◌>>=◌, ◌>>◌}
use creative_backend.Base.Json.{Fields}
use creative_backend.Offline.{VerifiedOfflineQr}
use creative_backend.Scans.Checks.{Place, prerequisites, verdict, result_of, is_allowed}
use creative_backend.Scans.Context.{
  Env, QrContext, or_blank, valid, pending_offline, pending_reference, invalid,
  validate_qr_for_scan,
}
use creative_backend.Scans.Records.{
  Action, find_scan, movement_of, settled_row, movement_row, update_scan, touch_activity,
  update_invalid_raw_scan, update_raw_scan_and_create_movement,
  create_pending_offline_reference_scan_from_online_scan,
  create_pending_offline_scan_from_online_scan,
}
use creative_backend.Scans.Process.{
  Outcome, is_pending, process_context, process_pending, process_failed, process_raw_scan, settled,
  as_dto, warn,
}
use creative_backend.Store.{
  message, Db, ScanEventRaw, Exception, MovementResult, QrToken, Registration, MovementLog,
}

-- The scan `id` is stored and not pending.
pub record IsSettled (id : ℕ) (db : Db) : Type 0 where
  pub scan : ScanEventRaw
  pub found : find_scan db id ≡ some scan
  pub done : is_pending scan.status ≡ false

-- The scan `id` is stored.
pub record IsStored (id : ℕ) (db : Db) : Type 0 where
  pub scan : ScanEventRaw
  pub found : find_scan db id ≡ some scan

find_scan-update :
    (row old : ScanEventRaw) (scans : List ScanEventRaw)
    → find (λ e. eqb e.id row.id) scans ≡ some old
    → find (λ e. eqb e.id row.id) (update (λ e. eqb e.id row.id) (λ e. row) scans) ≡ some row
find_scan-update row old scans h =
    find-update (λ e. eqb e.id row.id) row old scans (eqb_self row.id) h

-- After the body of the `try`: settled if it returned, and still stored if it threw.
abbrev Post : ℕ → Result Exception Outcome → Db → Type 0
Post id (ok outcome) db = IsSettled id db
Post id (err error) db = IsStored id db

resume :
    {A : Type 0} (id : ℕ) (r : Result Exception A) (f : A → Action Outcome) (db : Db)
    → ((a : A) (db' : Db) → IsStored id db' → Post id (f a db').0 (f a db').1)
    → IsStored id db
    → (let x : Result Exception Outcome × Db = elim r [ ok a ↦ f a db | err e ↦ (err e, db) ] in
        Post id x.0 x.1)
resume id (ok a) f db k h = k a db h
resume id (err e) f db k h = h

Post-bind :
    {A : Type 0} (id : ℕ) (m : Action A) (f : A → Action Outcome) (db : Db)
    → IsStored id (m db).1
    → ((a : A) (db' : Db) → IsStored id db' → Post id (f a db').0 (f a db').1)
    → Post id ((m >>= f) db).0 ((m >>= f) db).1
Post-bind id m f db h k = let (r, db') = m db in resume id r f db' k h

update_scan-IsSettled :
    (row : ScanEventRaw) (db : Db)
    → is_pending row.status ≡ false
    → IsStored row.id db
    → IsSettled row.id (update_scan row db).1
unfolding update_scan
update_scan-IsSettled row db done h = record {
  scan = row;
  found = find_scan-update row h.scan db.scans h.found;
  done = done;
}

module _ (env : Env) (scan : ScanEventRaw) where
  pending_reference-IsStored :
      (token : String) (payload : Fields) (registration_id : Option String) (db : Db)
      → IsStored scan.id db
      → IsStored scan.id
          (create_pending_offline_reference_scan_from_online_scan env.now
            (as_dto scan)
            token
            payload
            registration_id
            db).1
  unfolding create_pending_offline_reference_scan_from_online_scan
  pending_reference-IsStored token payload registration_id db h = record {
    scan = h.scan;
    found = ground (arith, h.found);
  }

  pending_offline-IsStored :
      (verified : VerifiedOfflineQr) (db : Db)
      → IsStored scan.id db
      → IsStored scan.id
          (create_pending_offline_scan_from_online_scan env.now (as_dto scan) verified db).1
  unfolding create_pending_offline_scan_from_online_scan
  pending_offline-IsStored verified db h = record { scan = h.scan; found = ground (arith, h.found) }

  warn-IsSettled :
      (place : Place) (reason : String) (answer : ScanEventRaw → Outcome) (db : Db)
      → IsStored scan.id db
      → Post scan.id
          (warn env scan place reason answer db).0
          (warn env scan place reason answer db).1
  unfolding warn
  warn-IsSettled place reason answer db h = record {
    scan = settled env.now scan MovementResult.warning reason;
    found = find_scan-update _ h.scan db.scans h.found;
    done = refl;
  }

  module _ (token : QrToken) (registration : Registration) (payload : Fields)
      (result : MovementResult) (reason : String) (db : Db) where
    abbrev done_row : ScanEventRaw
    done_row = settled_row env.now scan token registration payload result reason

    abbrev done_movement : MovementLog
    done_movement = record (movement_row done_row token registration result reason) {
      id = db.next_id;
    }

    update_raw-new :
        movement_of db scan.id ≡ none
        → update_raw_scan_and_create_movement env.now scan token registration payload result reason
            db
          ≡ (
            ok (done_row, done_movement),
            record db {
              scans = update (λ e. eqb e.id scan.id) (λ e. done_row) db.scans;
              movements = db.movements ++ done_movement ∷ [];
              next_id = db.next_id + 1;
            },
          )
    unfolding update_raw_scan_and_create_movement
    update_raw-new new = ground (arith, new)

    update_raw-known :
        (m : MovementLog)
        → movement_of db scan.id ≡ some m
        → update_raw_scan_and_create_movement env.now scan token registration payload result reason
            db
          ≡ (err Exception.unique_constraint, db)
    unfolding update_raw_scan_and_create_movement
    update_raw-known m old = ground (arith, old)

  -- the rest of the branch after the transaction
  rest_of :
      Place
      → Registration
      → Db
      → Result Exception (ScanEventRaw × MovementLog) × Db
      → Result Exception Outcome × Db
  unfolding touch_activity
  rest_of place registration db (ok (updated, movement), db') =
      let reason =
        verdict db place.event place.checkpoint registration.attendee_type_code registration.id
          scan.type in
      (touch_activity env.now place.device.id place.session
          >> pure
              (Outcome.formatted (is_allowed (result_of reason)) reason updated (some movement)))
        db'
  rest_of place registration db (err e, db') = (err e, db')

  finished :
      (place : Place) (token : QrToken) (registration : Registration) (payload : Fields) (db : Db)
      (x : Result Exception (ScanEventRaw × MovementLog) × Db)
      → (let reason =
            verdict db place.event place.checkpoint registration.attendee_type_code registration.id
              scan.type in
          update_raw_scan_and_create_movement env.now scan token registration payload
            (result_of reason)
            reason
            db)
        ≡ x
      → process_context env scan place (valid token registration payload) db
        ≡ rest_of place registration db x
  unfolding process_context rest_of
  finished place token registration payload db (ok y, db') e = ground (arith, e)
  finished place token registration payload db (err y, db') e = ground (arith, e)

  valid-Post :
      (place : Place) (token : QrToken) (registration : Registration) (payload : Fields) (db : Db)
      → IsStored scan.id db
      → Post scan.id
          (process_context env scan place (valid token registration payload) db).0
          (process_context env scan place (valid token registration payload) db).1
  unfolding rest_of
  valid-Post place token registration payload db h =
      let reason =
        verdict db place.event place.checkpoint registration.attendee_type_code registration.id
          scan.type in
      elim (Option-cases (movement_of db scan.id)) [
        | inl new ↦
            let row = done_row token registration payload (result_of reason) reason db in
            subst (λ x. Post scan.id x.0 x.1)
              (sym (
                finished place token registration payload db _
                  (update_raw-new token registration payload (result_of reason) reason db new)))
              (record {
                scan = row;
                found = find_scan-update row h.scan db.scans h.found;
                done = refl;
              })
        | inr (m, old) ↦
            subst (λ x. Post scan.id x.0 x.1)
              (sym (
                finished place token registration payload db _
                  (update_raw-known token registration payload (result_of reason) reason db m old)))
              h
      ]

  context-Post :
      (place : Place) (context : QrContext) (db : Db)
      → IsStored scan.id db
      → Post scan.id
          (process_context env scan place context db).0
          (process_context env scan place context db).1
  unfolding process_context update_scan touch_activity update_invalid_raw_scan
  context-Post place (pending_reference token payload id) db h =
      Post-bind scan.id
        (create_pending_offline_reference_scan_from_online_scan env.now (as_dto scan) token payload
          id)
        (λ _. warn env scan place "OFFLINE_REGISTRATION_NOT_SYNCED" Outcome.not_synced) db
        (pending_reference-IsStored token payload id db h)
        (λ a db' s. warn-IsSettled place "OFFLINE_REGISTRATION_NOT_SYNCED" Outcome.not_synced db' s)
  context-Post place (pending_offline verified) db h =
      Post-bind scan.id
        (create_pending_offline_scan_from_online_scan env.now (as_dto scan) verified)
        (λ _.
          warn env scan place "OFFLINE_QR_PENDING_SYNC"
            (Outcome.provisional "OFFLINE_QR_PENDING_SYNC"))
        db (pending_offline-IsStored verified db h)
        (λ a db' s.
          warn-IsSettled place "OFFLINE_QR_PENDING_SYNC"
            (Outcome.provisional "OFFLINE_QR_PENDING_SYNC") db' s)
  context-Post place (invalid reason payload t r) db h = record {
    scan = _;
    found = find_scan-update _ h.scan db.scans h.found;
    done = refl;
  }
  context-Post place (valid token registration payload) db h =
      valid-Post place token registration payload db h

  process_pending-Post :
      (db : Db)
      → IsStored scan.id db
      → Post scan.id (process_pending env scan db).0 (process_pending env scan db).1
  process_pending-Post db h = go _ refl
    where
      go :
          (r : Result Exception Place)
          → prerequisites db scan.event_id scan.device_id scan.staff_session_id scan.checkpoint_id
            ≡ r
          → Post scan.id (process_pending env scan db).0 (process_pending env scan db).1
      go (ok place) e =
          let eq : process_pending env scan db
              ≡ process_context env scan place
                  (validate_qr_for_scan env db (or_blank scan.qr_raw) scan.event_id) db =
            unfold process_pending in ground (arith, e) in
          subst (λ x. Post scan.id x.0 x.1) (sym eq)
            (context-Post place (validate_qr_for_scan env db (or_blank scan.qr_raw) scan.event_id)
              db h)
      go (err x) e =
          let eq : process_pending env scan db ≡ (err x, db) =
            unfold process_pending in ground (arith, e) in
          subst (λ x. Post scan.id x.0 x.1) (sym eq) h

  -- the `catch`
  rescued :
      (x : Result Exception Outcome × Db)
      → Post scan.id x.0 x.1
      → (let y : Result Exception Outcome × Db =
            try_catch (λ (_ : Db). x) (process_failed env scan) x.1 in
          IsSettled scan.id y.1 × ((outcome : Outcome) × (y.0 ≡ ok outcome)))
  unfolding process_failed
  rescued (ok outcome, db) h = (h, (outcome, refl))
  rescued (err e, db) h = (
    record {
      scan = settled env.now scan MovementResult.denied (message e);
      found = find_scan-update _ h.scan db.scans h.found;
      done = refl;
    },
    (Outcome.failed (settled env.now scan MovementResult.denied (message e)), refl),
  )

-- Where the stored scan `id` is pending, `processRawScan` returns an outcome and never throws, and
-- afterwards the scan `id` is stored and is not pending, whichever branch or exception was taken.
pub process_raw_scan-IsSettled :
    (env : Env) (id : ℕ) (db : Db) (scan : ScanEventRaw)
    → find_scan db id ≡ some scan
    → is_pending scan.status ≡ true
    → IsSettled id (process_raw_scan env id db).1
      × ((outcome : Outcome) × ((process_raw_scan env id db).0 ≡ ok outcome))
process_raw_scan-IsSettled env id db scan found open' =
    let same : scan.id ≡ id =
      (eqb_iff _ _).0 (find_satisfies (λ (e : ScanEventRaw). eqb e.id id) db.scans scan found) in
    let at_scan : find_scan db scan.id ≡ some scan =
      subst (λ k. find_scan db k ≡ some scan) (sym same) found in
    let r =
      rescued env scan (process_pending env scan db)
        (process_pending-Post env scan db (record { scan = scan; found = at_scan })) in
    let step : process_raw_scan env id db
        ≡ try_catch (process_pending env scan) (process_failed env scan) db =
      unfold process_raw_scan in ground (arith, found, open') in
    subst (λ x. IsSettled id x.1 × ((outcome : Outcome) × (x.0 ≡ ok outcome))) (sym step)
      (
        subst
            (λ k. IsSettled k (try_catch (process_pending env scan) (process_failed env scan) db).1)
            same r.0,
        r.1,
      )

-- A scan that is not pending is left alone, and so is everything else.
process_raw_scan-settled :
    (env : Env) (id : ℕ) (db : Db) → IsSettled id db → (process_raw_scan env id db).1 ≡ db
unfolding process_raw_scan
process_raw_scan-settled env id db s = ground (arith, s.found, s.done)

-- Delivering the job of a scan twice leaves the database as delivering it once does, also if the
-- second delivery comes at another time or under another configuration.
pub process_raw_scan-twice :
    (env later : Env) (id : ℕ) (db : Db)
    → (process_raw_scan later id (process_raw_scan env id db).1).1 ≡ (process_raw_scan env id db).1
process_raw_scan-twice env later id db = elim (Option-cases (find_scan db id)) [
  | inl missing ↦
      let same : (process_raw_scan env id db).1 ≡ db =
        unfold process_raw_scan in ground (arith, missing) in
      let again : (process_raw_scan later id db).1 ≡ db =
        unfold process_raw_scan in ground (arith, missing) in
      subst (λ x. (process_raw_scan later id x).1 ≡ x) (sym same) again
  | inr (scan, found) ↦ elim (Bool-cases (is_pending scan.status)) [
    | inl open' ↦
        process_raw_scan-settled later id _
          (process_raw_scan-IsSettled env id db scan found open').0
    | inr done ↦
        let s : IsSettled id db = record { scan = scan; found = found; done = done } in
        subst (λ x. (process_raw_scan later id x).1 ≡ x)
          (sym (process_raw_scan-settled env id db s)) (process_raw_scan-settled later id db s)
  ]
]
