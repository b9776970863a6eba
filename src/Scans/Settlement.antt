-- ===== src/Scans/Settlement.antt =====
-- `processOfflineScanOperation` sent again: what is settled stays as it is.
mod Tests
use creative_backend.Base.{
  ℕ, String, ◌≡◌, ◌⊎◌, refl, sym, ◌∙◌, ap, subst, Bool, true, false, ◌&&◌, Option, none, some, List,
  arith, eqb, eqb_iff, eqb_self, find, update, find_satisfies, find-update, inl, inr, Bool-cases,
  Option-cases, if◌then◌else◌,
}
use creative_backend.Base.Result.{Result, ok, err, Result-cases}
use creative_backend.Scans.Checks.{Place, result_of, verdict}
use creative_backend.Scans.Context.{Env}
use creative_backend.Scans.Records.{
  find_scan_by_operation, find_offline_scan, update_offline_scan, create_scan, update_scan,
  create_movement, touch_activity, create_processed_scan_and_movement,
  update_raw_scan_and_create_movement,
}
use creative_backend.Scans.Offline.{
  Settlement, Canonical, settled, already_settled, waiting, conflict, duplicate, failed,
  is_processed, is_some, replay_scan, settle, adopt, movement_of_raw, replay_place,
  get_canonical_context_for_offline_scan, process_open, process_offline_scan_operation,
}
use creative_backend.Store.{
  Db, OfflineScanOperation, OfflineScanStatus, ScanEventRaw, MovementLog, Exception,
}

-- the operation of an answer that settles it
abbrev pub settled_operation : Settlement → Option OfflineScanOperation
settled_operation (settled allowed reason o scan movement) = some o
settled_operation (already_settled o) = some o
settled_operation _ = none

-- The operation `o` is stored under `id`, processed, with a movement.
pub record IsDone (id : ℕ) (o : OfflineScanOperation) (db : Db) : Type 0 where
  pub found : find_offline_scan db id ≡ some o
  pub done : (is_processed o.status && is_some o.movement_id) ≡ true

module _ (env : Env) where
  replay_scan-offline_scans :
      (o : OfflineScanOperation) (raw : Option ScanEventRaw) (c : Canonical) (reason : String)
      (db : Db)
      → (replay_scan env o raw c reason db).1.offline_scans ≡ db.offline_scans
  unfolding replay_scan update_raw_scan_and_create_movement create_processed_scan_and_movement
      update_scan create_scan create_movement
  replay_scan-offline_scans o raw c reason db = ground arith

  settle-IsDone :
      (o o' : OfflineScanOperation) (raw : Option ScanEventRaw) (c : Canonical) (place : Place)
      (answer : Settlement) (db : Db)
      → find_offline_scan db o.id ≡ some o
      → (settle env o raw c place db).0 ≡ ok answer
      → settled_operation answer ≡ some o'
      → IsDone o.id o' (settle env o raw c place db).1
  unfolding settle update_offline_scan touch_activity
  settle-IsDone o o' raw c place answer db found h s =
      let reason : String =
        verdict db place.event place.checkpoint c.stored.registration.attendee_type_code
          c.stored.registration.id o.movement_type in
      elim (Result-cases (replay_scan env o raw c reason db).0) [
        | inl (e, bad) ↦ absurd (ground (arith, bad, h))
        | inr (pair, good) ↦
            let new : OfflineScanOperation = record o {
              status = OfflineScanStatus.processed;
              registration_id = some c.stored.registration.id;
              movement_id = some pair.1.id;
              scan_event_raw_id = some pair.0.id;
              synced_at = some env.now;
            } in
            let is_new : o' ≡ new = ground (arith, good, h, s) in
            let ends : (settle env o raw c place db).1.offline_scans
                ≡ update (λ x. eqb x.id o.id) (λ x. new) db.offline_scans =
              ground (arith, good, replay_scan-offline_scans o raw c reason db) in
            record {
              found =
                  ap (find (λ x. eqb x.id o.id)) ends
                  ∙ find-update (λ x. eqb x.id o.id) new o db.offline_scans (eqb_self o.id) found
                  ∙ ap some (sym is_new);
              done = rw is_new refl;
            }
      ]

  adopt-IsDone :
      (o o' : OfflineScanOperation) (scan : ScanEventRaw) (movement : MovementLog)
      (answer : Settlement) (db : Db)
      → find_offline_scan db o.id ≡ some o
      → (adopt env o scan movement db).0 ≡ ok answer
      → settled_operation answer ≡ some o'
      → IsDone o.id o' (adopt env o scan movement db).1
  unfolding adopt update_offline_scan
  adopt-IsDone o o' scan movement answer db found h s =
      let new : OfflineScanOperation = record o {
        status = OfflineScanStatus.processed;
        scan_event_raw_id = some scan.id;
        movement_id = some movement.id;
        registration_id = scan.registration_id;
        synced_at = some env.now;
      } in
      let is_new : o' ≡ new = ground (arith, h, s) in
      record {
        found =
            find-update (λ x. eqb x.id o.id) new o db.offline_scans (eqb_self o.id) found
            ∙ ap some (sym is_new);
        done = rw is_new refl;
      }

  process_open-IsDone :
      (o o' : OfflineScanOperation) (answer : Settlement) (db : Db)
      → find_offline_scan db o.id ≡ some o
      → (process_open env o db).0 ≡ ok answer
      → settled_operation answer ≡ some o'
      → IsDone o.id o' (process_open env o db).1
  unfolding process_open
  process_open-IsDone o o' answer db found h s =
      let raw = find_scan_by_operation db o.operation_id in
      go (movement_of_raw env db raw) (get_canonical_context_for_offline_scan env o db)
        (replay_place o db) refl refl refl
    where
      go :
          (m : Option (ScanEventRaw × MovementLog)) (c : Result Exception (Option Canonical))
          (p : Result Exception Place)
          → movement_of_raw env db (find_scan_by_operation db o.operation_id) ≡ m
          → get_canonical_context_for_offline_scan env o db ≡ c
          → replay_place o db ≡ p
          → IsDone o.id o' (process_open env o db).1
      go (some (scan, movement)) c p em ec ep =
          let step : process_open env o db ≡ adopt env o scan movement db = ground (arith, em) in
          subst (λ x. IsDone o.id o' x.1) (sym step)
            (adopt-IsDone o o' scan movement answer db found (sym (ap (λ x. x.0) step) ∙ h) s)
      go none (err e) p em ec ep = absurd (ground (arith, em, ec, h))
      go none (ok none) p em ec ep = absurd (ground (arith, em, ec, h, s))
      go none (ok (some c)) (err e) em ec ep = absurd (ground (arith, em, ec, ep, h))
      go none (ok (some c)) (ok place) em ec ep =
          let step : process_open env o db
              ≡ settle env o (find_scan_by_operation db o.operation_id) c place db =
            ground (arith, em, ec, ep) in
          subst (λ x. IsDone o.id o' x.1) (sym step)
            (settle-IsDone o o' (find_scan_by_operation db o.operation_id) c place answer db found
              (sym (ap (λ x. x.0) step) ∙ h) s)

  process_offline-IsDone :
      (id : ℕ) (o : OfflineScanOperation) (answer : Settlement) (db : Db)
      → (process_offline_scan_operation env id db).0 ≡ ok answer
      → settled_operation answer ≡ some o
      → IsDone id o (process_offline_scan_operation env id db).1
  unfolding process_offline_scan_operation
  process_offline-IsDone id o' answer db h s = elim (Option-cases (find_offline_scan db id)) [
    | inl missing ↦ absurd (ground (arith, missing, h))
    | inr (o, found) ↦ elim (Bool-cases (is_processed o.status && is_some o.movement_id)) [
      | inl done ↦
          let step : process_offline_scan_operation env id db ≡ (ok (already_settled o), db) =
            ground (arith, found, done) in
          let same : o ≡ o' = ground (arith, step, h, s) in
          subst (λ x. IsDone id o' x.1) (sym step)
            (record { found = found ∙ ap some same; done = rw (sym same) done })
      | inr open' ↦
          let step : process_offline_scan_operation env id db ≡ process_open env o db =
            ground (arith, found, open') in
          let own : o.id ≡ id =
            (eqb_iff _ _).0 (
              find_satisfies (λ (x : OfflineScanOperation). eqb x.id id) db.offline_scans o
                found) in
          let opened =
            process_open-IsDone o o' answer db
              (subst (λ k. find_offline_scan db k ≡ some o) (sym own) found)
              (sym (ap (λ x. x.0) step) ∙ h) s in
          subst (λ x. IsDone id o' x.1) (sym step)
            (subst (λ k. IsDone k o' (process_open env o db).1) own opened)
    ]
  ]

IsDone-processed :
    (later : Env) (id : ℕ) (o : OfflineScanOperation) (db : Db)
    → IsDone id o db
    → process_offline_scan_operation later id db ≡ (ok (already_settled o), db)
unfolding process_offline_scan_operation
IsDone-processed later id o db d = ground (arith, d.found, d.done)

-- If an offline scan operation is answered as settled, then processing it again, at any later time
-- and under any configuration, answers that it is settled already, and changes nothing.
pub process_offline-twice :
    (env later : Env) (id : ℕ) (o : OfflineScanOperation) (answer : Settlement) (db : Db)
    → (process_offline_scan_operation env id db).0 ≡ ok answer
    → settled_operation answer ≡ some o
    → process_offline_scan_operation later id (process_offline_scan_operation env id db).1
      ≡ (ok (already_settled o), (process_offline_scan_operation env id db).1)
process_offline-twice env later id o answer db h s =
    IsDone-processed later id o (process_offline_scan_operation env id db).1
      (process_offline-IsDone env id o answer db h s)
