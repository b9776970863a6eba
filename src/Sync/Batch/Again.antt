-- ===== src/Sync/Batch/Again.antt =====
-- A batch that is submitted again.
use creative_backend.Base.{
  ◌+◌, String, ◌≡◌, refl, sym, ap, ◌∙◌, subst, Bool, true, not, none, some, List, [], ◌∷◌, ◌++◌,
  arith, eqb, eqb_self, ◌==◌, ==_self, find, select, update, length, inl, inr, Bool-cases,
  Option-cases,
}
use creative_backend.Base.Result.{Result, ok, err, Result-cases}
use creative_backend.Base.Exec.{Exec}
use creative_backend.Scans.Checks.{includes}
use creative_backend.Store.{Exception}
use creative_backend.Sync.Rows.{
  SyncDb, Services, SyncBatch, SyncBatchStatus, SyncOperation, SyncOperationStatus,
  SubmitSyncOperationDto, SubmitSyncBatchDto, Output, find_batch, update_batch, update_operation,
  on_work,
}
use creative_backend.Sync.Payload.{to_record}
use creative_backend.Sync.Sort.{sort_operations}
use creative_backend.Sync.Operation.{run_operation, finish, fail, process_operation}
use creative_backend.Sync.Batch.{
  ids, pick, claim, process_failed_before, process_by_status, process_duplicate, process_all,
  process_batch, conclude, new_operations, new_batch, create_batch, check_submitter,
  find_duplicate_operation_ids, submit_batch, Submitted,
}

-- the table of batches is left as it is
abbrev Spares : {A : Type 0} → Exec SyncDb Exception A → Type 0
Spares m = (s : SyncDb) → (m s).1.batches ≡ s.batches

module _ (services : Services) (batch : SubmitSyncBatchDto) where
  process_operation-Spares :
      (operation : SyncOperation) (dto : SubmitSyncOperationDto)
      → Spares (process_operation services operation dto batch)
  unfolding process_operation finish fail update_operation
  process_operation-Spares operation dto s =
      go (on_work (run_operation services dto batch) s) refl refl
    where
      go :
          (x : Result Exception Output × SyncDb)
          → on_work (run_operation services dto batch) s ≡ x
          → x.1.batches ≡ s.batches
          → (process_operation services operation dto batch s).1.batches ≡ s.batches
      go (ok output, s') e b = ground (arith, e, b)
      go (err error, s') e b = ground (arith, e, b)

  process_failed_before-Spares :
      (stored : SyncOperation) → Spares (process_failed_before services batch stored)
  unfolding process_failed_before claim
  process_failed_before-Spares stored s = elim (Result-cases (to_record stored.input)) [
    | inl (e, bad) ↦ ground (arith, bad)
    | inr (payload, good) ↦ ground (
      arith,
      good,
      process_operation-Spares stored
          (record { operation_id = stored.operation_id; type = stored.type; payload = payload })
          (claim stored.id s).1,
    )
  ]

  process_by_status-Spares :
      (status : SyncOperationStatus) (stored : SyncOperation)
      → Spares (process_by_status services batch status stored)
  process_by_status-Spares SyncOperationStatus.pending stored s = refl
  process_by_status-Spares SyncOperationStatus.processed stored s = refl
  process_by_status-Spares SyncOperationStatus.duplicate stored s = refl
  process_by_status-Spares SyncOperationStatus.skipped stored s = refl
  process_by_status-Spares SyncOperationStatus.failed stored s =
      process_failed_before-Spares stored s

  process_duplicate-Spares :
      (stored_before : List SyncOperation) (dto : SubmitSyncOperationDto)
      → Spares (process_duplicate services batch stored_before dto)
  unfolding process_duplicate
  process_duplicate-Spares stored_before dto s =
      elim (Option-cases (pick stored_before dto.operation_id)) [
        | inl missing ↦ ground (arith, missing)
        | inr (stored, found) ↦
            ground (arith, found, process_by_status-Spares stored.status stored s)
      ]

  process_all-Spares :
      (duplicates : List String) (created stored_before : List SyncOperation)
      (dtos : List SubmitSyncOperationDto)
      → Spares (process_all services batch duplicates created stored_before dtos)
  unfolding process_all
  process_all-Spares duplicates created stored_before [] s = refl
  process_all-Spares duplicates created stored_before (dto ∷ rest) s =
      let ih = process_all-Spares duplicates created stored_before rest in
      elim (Bool-cases (includes duplicates dto.operation_id)) [
        | inl old ↦ ground (
          arith,
          old,
          process_duplicate-Spares stored_before dto s,
          ih (process_duplicate services batch stored_before dto s).1,
        )
        | inr new ↦ elim (Option-cases (pick created dto.operation_id)) [
          | inl missing ↦ ground (arith, new, missing, ih s)
          | inr (operation, found) ↦ ground (
            arith,
            new,
            found,
            process_operation-Spares operation dto s,
            ih (process_operation services operation dto batch s).1,
          )
        ]
      ]

-- a change of some rows that keeps what a test says
find-update_kept :
    (q p : SyncBatch → Bool) (f : SyncBatch → SyncBatch) (row : SyncBatch) (rows : List SyncBatch)
    → ((x : SyncBatch) → q (f x) ≡ q x)
    → find q rows ≡ some row
    → p row ≡ true
    → find q (update p f rows) ≡ some (f row)
find-update_kept q p f row [] keep h own = absurd (cc)
find-update_kept q p f row (x ∷ xs) keep h own = elim (Bool-cases (q x)) [
  | inl e ↦
      let same : x ≡ row = ground (arith, e, h) in
      rw same (rw own (rw (keep row) (rw (sym (ap q same) ∙ e) refl)))
  | inr e ↦ ground (arith, e, h, own, keep x, find-update_kept q p f row xs keep)
]

find-append_row :
    (q : SyncBatch → Bool) (row : SyncBatch) (rows : List SyncBatch)
    → find q rows ≡ none
    → q row ≡ true
    → find q (rows ++ row ∷ []) ≡ some row
find-append_row q row [] h own = rw own refl
find-append_row q row (x ∷ xs) h own = ground (arith, h, own, find-append_row q row xs)

module _ (services : Services) (batch : SubmitSyncBatchDto) where
  process_batch-stores :
      (row done : SyncBatch) (duplicates : List String) (s : SyncDb)
      → find_batch s batch.batch_id ≡ some row
      → (process_batch services batch row duplicates s).0 ≡ ok done
      → find_batch (process_batch services batch row duplicates s).1 batch.batch_id ≡ some done
  unfolding process_batch update_batch conclude
  process_batch-stores row done duplicates s stored h =
      let created : List SyncOperation = select (λ o. eqb o.sync_batch_id row.id) s.operations in
      let before : List SyncOperation =
        select (λ o. includes duplicates o.operation_id) s.operations in
      let begin : SyncBatch → SyncBatch = λ b. record b { status = SyncBatchStatus.processing } in
      let s1 : SyncDb = (update_batch row.id begin s).1 in
      let begun =
        find-update_kept (λ b. b.batch_id == batch.batch_id) (λ b. eqb b.id row.id) begin row
          s.batches (λ x. refl) stored (eqb_self row.id) in
      elim (Result-cases
        (process_all services batch duplicates created before (sort_operations batch.operations)
          s1).0) [
            | inl (e, bad) ↦ absurd (ground (arith, bad, h))
            | inr (results, good) ↦
                let s3 : SyncDb =
                  (process_all services batch duplicates created before
                    (sort_operations batch.operations) s1).1 in
                let kept : s3.batches ≡ s1.batches =
                  process_all-Spares services batch duplicates created before
                    (sort_operations batch.operations) s1 in
                let made : done ≡ conclude services batch results row = ground (arith, good, h) in
                let ended =
                  find-update_kept (λ b. b.batch_id == batch.batch_id) (λ b. eqb b.id row.id)
                    (conclude services batch results) (begin row) s3.batches (λ x. refl)
                    (ap (find (λ b. b.batch_id == batch.batch_id)) kept ∙ begun)
                    (eqb_self row.id) in
                let last : (process_batch services batch row duplicates s).1.batches
                    ≡ update (λ b. eqb b.id row.id) (conclude services batch results) s3.batches =
                  ground (arith, good) in
                ap (find (λ b. b.batch_id == batch.batch_id)) last ∙ ended ∙ ap some (sym made)
          ]

  submit_batch-stores :
      (s : SyncDb) (done : Submitted)
      → (submit_batch services batch s).0 ≡ ok done
      → find_batch (submit_batch services batch s).1 batch.batch_id ≡ some done.batch
  unfolding submit_batch create_batch
  submit_batch-stores s done h =
      let duplicates : List String = find_duplicate_operation_ids s (ids batch.operations) in
      let fresh : List SubmitSyncOperationDto =
        select (λ o. not (includes duplicates o.operation_id)) batch.operations in
      let s0 : SyncDb = record s { work = record s.work { local_registrations = [] } } in
      elim (Option-cases (find_batch s batch.batch_id)) [
        | inr (row, known) ↦ ground (arith, known, h)
        | inl new ↦ elim (Result-cases (check_submitter batch s0)) [
          | inl (e, bad) ↦ absurd (ground (arith, new, bad, h))
          | inr (u, good) ↦ elim (Option-cases (new_operations (s.next_id + 1) s.next_id fresh)) [
            | inl clash ↦ absurd (ground (arith, new, good, clash, h))
            | inr (rows, e) ↦
                let s2 : SyncDb = (create_batch batch (length duplicates) fresh s0).1 in
                let row : SyncBatch = new_batch s.next_id batch (length duplicates) in
                let listed : s2.batches ≡ s.batches ++ row ∷ [] = ground (arith, e) in
                let stored =
                  ap (find (λ b. b.batch_id == batch.batch_id)) listed
                  ∙ find-append_row (λ b. b.batch_id == batch.batch_id) row s.batches new
                      (==_self batch.batch_id) in
                elim (Result-cases (process_batch services batch row duplicates s2).0) [
                  | inl (e', bad) ↦ absurd (ground (arith, new, good, e, bad, h))
                  | inr (d, ran) ↦
                      let last : (submit_batch services batch s).1
                          ≡ (process_batch services batch row duplicates s2).1 =
                        ground (arith, new, good, e, ran) in
                      let made : done.batch ≡ d = ground (arith, new, good, e, ran, h) in
                      ap (λ (x : SyncDb). find_batch x batch.batch_id) last
                      ∙ process_batch-stores row d duplicates s2 stored ran
                      ∙ ap some (sym made)
                ]
          ]
        ]
      ]

found_again :
    (services : Services) (batch : SubmitSyncBatchDto) (s : SyncDb) (row : SyncBatch)
    → find_batch s batch.batch_id ≡ some row
    → submit_batch services batch s ≡ (ok (record { duplicate = true; batch = row }), s)
unfolding submit_batch
found_again services batch s row h = ground (arith, h)

-- A batch that was answered and is submitted again, with the same id, whatever operations it lists
-- then and under any configuration, is answered with the stored batch, and nothing changes.
pub submit_batch-again :
    (services later : Services) (batch again : SubmitSyncBatchDto) (s : SyncDb) (done : Submitted)
    → again.batch_id ≡ batch.batch_id
    → (submit_batch services batch s).0 ≡ ok done
    → submit_batch later again (submit_batch services batch s).1
      ≡ (ok (record { duplicate = true; batch = done.batch }), (submit_batch services batch s).1)
submit_batch-again services later batch again s done same h =
    found_again later again (submit_batch services batch s).1 done.batch (
      subst (λ id. find_batch (submit_batch services batch s).1 id ≡ some done.batch) (sym same)
        (submit_batch-stores services batch s done h))
