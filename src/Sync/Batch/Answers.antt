-- ===== src/Sync/Batch/Answers.antt =====
-- What the answers to a batch are: one result for each operation.
use creative_backend.Base.{
  String, ◌≡◌, refl, sym, ap, ap₂, ◌∙◌, subst, Bool, true, ◌&&◌, ◌||◌, List, [], ◌∷◌, map, arith,
  eqb, &&_both, ◌==◌, ==_sound, all, find_satisfies, count_where, inl, inr, Bool-cases,
  Option-cases,
}
use creative_backend.Base.Result.{Result, ok, err, Result-cases}
use creative_backend.Base.Exec.{Exec}
use creative_backend.Scans.Checks.{includes}
use creative_backend.Scans.Offline.{is_some}
use creative_backend.Store.{Exception}
use creative_backend.Sync.Rows.{
  SyncDb, Services, SyncOperation, SyncOperationStatus, OperationResult, SubmitSyncOperationDto,
  SubmitSyncBatchDto, Output, on_work,
}
use creative_backend.Sync.Operation.{run_operation, finish, fail, process_operation}
use creative_backend.Sync.Batch.{
  is_processed, is_failed, is_duplicate, ids, pick, claim, process_failed_before, process_by_status,
  process_duplicate, process_all,
}
use creative_backend.Sync.Payload.{to_record, can_retry_failed_offline_operation}

-- the status of a result is one of the three that are counted
abbrev pub is_counted : OperationResult → Bool
is_counted r = is_processed r.status || is_failed r.status || is_duplicate r.status

-- an action has returned a counted result for an operation
abbrev pub Answers : String → Result Exception OperationResult × SyncDb → Type 0
Answers operation_id x =
    (r : OperationResult) × (x.0 ≡ ok r)
    × (r.operation_id ≡ operation_id)
    × (is_counted r ≡ true)
    × ((is_processed r.status || is_failed r.status) ≡ true)

-- an operation that the loop answers
abbrev pub knows : (duplicates : List String) (created : List SyncOperation) → String → Bool
knows duplicates created operation_id =
    includes duplicates operation_id || is_some (pick created operation_id)

-- the rest of the loop, after a first result
abbrev then_rest :
    Result Exception OperationResult × SyncDb
    → Exec SyncDb Exception (List OperationResult)
    → Result Exception (List OperationResult) × SyncDb
then_rest (err e, s) rest = (err e, s)
then_rest (ok r, s) rest =
    let (rs, s') = rest s in elim rs [ ok results ↦ (ok (r ∷ results), s') | err e ↦ (err e, s') ]

module _ (services : Services) (batch : SubmitSyncBatchDto) where
  -- `processOperation` catches everything.
  pub process_operation-Answers :
      (operation : SyncOperation) (dto : SubmitSyncOperationDto) (s : SyncDb)
      → Answers operation.operation_id (process_operation services operation dto batch s)
  unfolding process_operation finish fail
  process_operation-Answers operation dto s = go (on_work (run_operation services dto batch) s) refl
    where
      go :
          (x : Result Exception Output × SyncDb)
          → on_work (run_operation services dto batch) s ≡ x
          → Answers operation.operation_id (process_operation services operation dto batch s)
      go (ok output, s') e =
          let step : process_operation services operation dto batch s
              ≡ finish services operation output s' =
            ground (arith, e) in
          subst (Answers operation.operation_id) (sym step) (_, refl, refl, refl, refl)
      go (err error, s') e =
          let step : process_operation services operation dto batch s
              ≡ fail services operation error s' =
            ground (arith, e) in
          subst (Answers operation.operation_id) (sym step) (_, refl, refl, refl, refl)

  process_failed_before-answers :
      (stored : SyncOperation) (s : SyncDb) (r : OperationResult)
      → (process_failed_before services batch stored s).0 ≡ ok r
      → (r.operation_id ≡ stored.operation_id) × (is_counted r ≡ true)
  unfolding process_failed_before claim
  process_failed_before-answers stored s r h =
      elim (Bool-cases (can_retry_failed_offline_operation services.to_upper_case stored)) [
        | inr no' ↦ (ground (arith, no', h), ground (arith, no', h))
        | inl retry ↦
            elim (Bool-cases
              (eqb (count_where (λ o. eqb o.id stored.id && is_failed o.status) s.operations) 1)) [
                | inr taken ↦ (ground (arith, retry, taken, h), ground (arith, retry, taken, h))
                | inl claimed ↦ elim (Result-cases (to_record stored.input)) [
                  | inl (e, bad) ↦ absurd (ground (arith, retry, claimed, bad, h))
                  | inr (payload, good) ↦
                      let dto : SubmitSyncOperationDto = record {
                        operation_id = stored.operation_id;
                        type = stored.type;
                        payload = payload;
                      } in
                      let a = process_operation-Answers stored dto (claim stored.id s).1 in
                      let made : r ≡ record a.0 { retried = true } =
                        ground (arith, retry, claimed, good, h, a.1) in
                      (
                        ap (λ (x : OperationResult). x.operation_id) made ∙ a.2,
                        ap is_counted made ∙ a.3,
                      )
                ]
              ]
      ]

  process_duplicate-answers :
      (stored_before : List SyncOperation) (dto : SubmitSyncOperationDto) (s : SyncDb)
      (r : OperationResult)
      → (process_duplicate services batch stored_before dto s).0 ≡ ok r
      → (r.operation_id ≡ dto.operation_id) × (is_counted r ≡ true)
  unfolding process_duplicate
  process_duplicate-answers stored_before dto s r h =
      elim (Option-cases (pick stored_before dto.operation_id)) [
        | inl missing ↦ (ground (arith, missing, h), ground (arith, missing, h))
        | inr (stored, found) ↦
            let same : stored.operation_id ≡ dto.operation_id = ==_sound _ _ (
              find_satisfies (λ (o : SyncOperation). o.operation_id == dto.operation_id)
                stored_before stored found) in
            by_status stored.status stored same refl (ground (arith, found, h))
      ]
    where
      by_status :
          (status : SyncOperationStatus) (stored : SyncOperation)
          → stored.operation_id ≡ dto.operation_id
          → stored.status ≡ status
          → (process_by_status services batch status stored s).0 ≡ ok r
          → (r.operation_id ≡ dto.operation_id) × (is_counted r ≡ true)
      by_status SyncOperationStatus.pending stored same e k =
          (ground (arith, k, same), ground (arith, k))
      by_status SyncOperationStatus.processed stored same e k =
          (ground (arith, k, same), ground (arith, k))
      by_status SyncOperationStatus.duplicate stored same e k =
          (ground (arith, k, same), ground (arith, k))
      by_status SyncOperationStatus.skipped stored same e k =
          (ground (arith, k, same), ground (arith, k))
      by_status SyncOperationStatus.failed stored same e k =
          let a = process_failed_before-answers stored s r k in (a.0 ∙ same, a.1)

  pub process_all-answers :
      (duplicates : List String) (created stored_before : List SyncOperation)
      (dtos : List SubmitSyncOperationDto) (s : SyncDb) (results : List OperationResult)
      → all (λ o. knows duplicates created o.operation_id) dtos ≡ true
      → (process_all services batch duplicates created stored_before dtos s).0 ≡ ok results
      → (map (λ r. r.operation_id) results ≡ ids dtos) × (all is_counted results ≡ true)
  unfolding process_all
  process_all-answers duplicates created stored_before [] s results known h =
      (ground (arith, h), ground (arith, h))
  process_all-answers duplicates created stored_before (dto ∷ rest) s results known h =
      elim (Bool-cases (includes duplicates dto.operation_id)) [
        | inl old ↦
            after_first (process_duplicate services batch stored_before dto s)
              (ground (arith, old, h)) (process_duplicate-answers stored_before dto s)
              (λ s1 rs.
                process_all-answers duplicates created stored_before rest s1 rs
                  (&&_both _ _ known).1)
        | inr new ↦ elim (Option-cases (pick created dto.operation_id)) [
          | inl missing ↦ absurd (ground (arith, new, missing, known))
          | inr (operation, found) ↦
              let same : operation.operation_id ≡ dto.operation_id = ==_sound _ _ (
                find_satisfies (λ (o : SyncOperation). o.operation_id == dto.operation_id) created
                  operation found) in
              let a = process_operation-Answers operation dto s in
              after_first (process_operation services operation dto batch s)
                (ground (arith, new, found, h))
                (λ r e.
                  let same_r : a.0 ≡ r = ground (arith, a.1, e) in
                  (
                    ap (λ (x : OperationResult). x.operation_id) (sym same_r) ∙ (a.2 ∙ same),
                    ap is_counted (sym same_r) ∙ a.3,
                  ))
                (λ s1 rs.
                  process_all-answers duplicates created stored_before rest s1 rs
                    (&&_both _ _ known).1)
        ]
      ]
    where
      after_first :
          (x : Result Exception OperationResult × SyncDb)
          → (then_rest x (process_all services batch duplicates created stored_before rest)).0
            ≡ ok results
          → ((r : OperationResult)
              → x.0 ≡ ok r
              → (r.operation_id ≡ dto.operation_id) × (is_counted r ≡ true))
          → ((s1 : SyncDb) (rs : List OperationResult)
              → (process_all services batch duplicates created stored_before rest s1).0 ≡ ok rs
              → (map (λ r. r.operation_id) rs ≡ ids rest) × (all is_counted rs ≡ true))
          → (map (λ r. r.operation_id) results ≡ ids (dto ∷ rest)) × (all is_counted results ≡ true)
      after_first (err e, s1) k first ih = absurd (ground (arith, k))
      after_first (ok r, s1) k first ih =
          elim (Result-cases
            (process_all services batch duplicates created stored_before rest s1).0) [
              | inl (e, bad) ↦ absurd (ground (arith, bad, k))
              | inr (rs, good) ↦
                  let made : results ≡ r ∷ rs = ground (arith, good, k) in
                  let i = ih s1 rs good in
                  (
                    ap (map (λ r. r.operation_id)) made ∙ ap₂ ◌∷◌ (first r refl).0 i.0,
                    ap (all is_counted) made ∙ rw ((first r refl).1, i.1) refl,
                  )
            ]
