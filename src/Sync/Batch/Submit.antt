-- ===== src/Sync/Batch/Submit.antt =====
-- A batch that is submitted is answered, operation by operation, and its counters add up.
use creative_backend.Base.{
  ℕ, ◌+◌, String, ◌≡◌, refl, sym, ap, ◌∙◌, subst, Bool, true, false, not, none, some, List, [], ◌∷◌,
  ◌++◌, map, arith, eqb, eqb_self, ==_self, all, select, length, count_where, inl, inr, Bool-cases,
  Option-cases,
}
use creative_backend.Base.Result.{ok, Result-cases}
use creative_backend.Scans.Checks.{includes}
use creative_backend.Scans.Offline.{is_some}
use creative_backend.Sync.Rows.{
  SyncDb, Services, SyncBatch, SyncBatchStatus, SyncOperation, SyncOperationType, OperationResult,
  SubmitSyncOperationDto, SubmitSyncBatchDto, find_batch, update_batch,
}
use creative_backend.Sync.Sort.{rank, sort_operations}
use creative_backend.Sync.Sort.Buckets.{of_rank, sort_operations-of_rank}
use creative_backend.Sync.Batch.{
  is_processed, is_failed, is_duplicate, ids, pick, new_operations, new_operation, new_batch,
  create_batch, check_submitter, find_duplicate_operation_ids, process_all, process_batch, conclude,
  submit_batch, Submitted,
}
use creative_backend.Sync.Batch.Answers.{is_counted, knows, process_all-answers}

-- facts about looking up and filtering rows

pick-append :
    (xs ys : List SyncOperation) (id : String)
    → is_some (pick ys id) ≡ true
    → is_some (pick (xs ++ ys) id) ≡ true
pick-append [] ys id h = h
pick-append (x ∷ xs) ys id h = ground (arith, pick-append xs ys id h)

select-append :
    (p : SyncOperation → Bool) (xs ys : List SyncOperation)
    → select p (xs ++ ys) ≡ select p xs ++ select p ys
select-append p [] ys = refl
select-append p (x ∷ xs) ys = elim (Bool-cases (p x)) [
  | inl e ↦ rw e (ap (◌∷◌ x) (select-append p xs ys))
  | inr e ↦ rw e (select-append p xs ys)
]

all_picked-cons :
    (row : SyncOperation) (rows : List SyncOperation) (os : List SubmitSyncOperationDto)
    → all (λ o. is_some (pick rows o.operation_id)) os ≡ true
    → all (λ o. is_some (pick (row ∷ rows) o.operation_id)) os ≡ true
all_picked-cons row rows [] h = refl
all_picked-cons row rows (o ∷ os) h = ground (arith, h, all_picked-cons row rows os)

new_operations-picked :
    (id batch_id : ℕ) (fresh : List SubmitSyncOperationDto) (rows : List SyncOperation)
    → new_operations id batch_id fresh ≡ some rows
    → all
        (λ o. is_some (pick (select (λ x. eqb x.sync_batch_id batch_id) rows) o.operation_id))
        fresh
      ≡ true
unfolding new_operations
new_operations-picked id batch_id [] rows h = refl
new_operations-picked id batch_id (o ∷ rest) rows h =
    elim (Option-cases (new_operations (id + 1) batch_id rest)) [
      | inl none' ↦ absurd (ground (arith, none', h))
      | inr (more, e) ↦
          let made : new_operation id batch_id o ∷ more ≡ rows = ground (arith, e, h) in
          let ih = new_operations-picked (id + 1) batch_id rest more e in
          let kept =
            all_picked-cons (new_operation id batch_id o)
              (select (λ x. eqb x.sync_batch_id batch_id) more) rest ih in
          let own : new_operation id batch_id o ∷ select (λ x. eqb x.sync_batch_id batch_id) more
              ≡ select (λ x. eqb x.sync_batch_id batch_id) (new_operation id batch_id o ∷ more) =
            rw (eqb_self batch_id) refl in
          let both : all
                (λ x. is_some (
                  pick
                    (new_operation id batch_id o ∷ select (λ y. eqb y.sync_batch_id batch_id) more)
                    x.operation_id))
                (o ∷ rest)
              ≡ true =
            rw (==_self o.operation_id) kept in
          subst (λ rs. all (λ x. is_some (pick rs x.operation_id)) (o ∷ rest) ≡ true)
            (own ∙ ap (select (λ x. eqb x.sync_batch_id batch_id)) made) both
    ]

all_picked-append :
    (xs ys : List SyncOperation) (os : List SubmitSyncOperationDto)
    → all (λ o. is_some (pick ys o.operation_id)) os ≡ true
    → all (λ o. is_some (pick (xs ++ ys) o.operation_id)) os ≡ true
all_picked-append xs ys [] h = refl
all_picked-append xs ys (o ∷ os) h =
    ground (arith, h, pick-append xs ys o.operation_id, all_picked-append xs ys os)

all-knows :
    (duplicates : List String) (created : List SyncOperation) (os : List SubmitSyncOperationDto)
    → all
        (λ o. is_some (pick created o.operation_id))
        (select (λ o. not (includes duplicates o.operation_id)) os)
      ≡ true
    → all (λ o. knows duplicates created o.operation_id) os ≡ true
all-knows duplicates created [] h = refl
all-knows duplicates created (o ∷ os) h = ground (arith, h, all-knows duplicates created os)

all-of_rank :
    (p : SubmitSyncOperationDto → Bool) (r : ℕ) (os : List SubmitSyncOperationDto)
    → all p os ≡ true
    → all p (of_rank r os) ≡ true
all-of_rank p r [] h = refl
all-of_rank p r (o ∷ os) h = ground (arith, h, all-of_rank p r os)

all-append :
    (p : SubmitSyncOperationDto → Bool) (xs ys : List SubmitSyncOperationDto)
    → all p xs ≡ true
    → all p ys ≡ true
    → all p (xs ++ ys) ≡ true
all-append p [] ys h k = k
all-append p (x ∷ xs) ys h k = ground (arith, h, all-append p xs ys)

pub all-sort_operations :
    (p : SubmitSyncOperationDto → Bool) (os : List SubmitSyncOperationDto)
    → all p os ≡ true
    → all p (sort_operations os) ≡ true
all-sort_operations p os h = rw (sort_operations-of_rank os) (
    all-append p (of_rank 0 os) _ (all-of_rank p 0 os h) (
      all-append p (of_rank 1 os) _ (all-of_rank p 1 os h)
        (all-append p (of_rank 2 os) _ (all-of_rank p 2 os h) (all-of_rank p 3 os h))))

length-append : (xs ys : List SubmitSyncOperationDto) → length (xs ++ ys) ≡ length xs + length ys
length-append [] ys = omega arith
length-append (x ∷ xs) ys = omega (arith, length-append xs ys)

length-of_rank :
    (os : List SubmitSyncOperationDto)
    → length (of_rank 0 os)
        + (length (of_rank 1 os) + (length (of_rank 2 os) + length (of_rank 3 os)))
      ≡ length os
unfolding rank
length-of_rank [] = refl
length-of_rank (o ∷ os) = go o.type refl (length-of_rank os)
  where
    go :
        (type : SyncOperationType)
        → o.type ≡ type
        → length (of_rank 0 os)
            + (length (of_rank 1 os) + (length (of_rank 2 os) + length (of_rank 3 os)))
          ≡ length os
        → length (of_rank 0 (o ∷ os))
            + (length (of_rank 1 (o ∷ os))
                + (length (of_rank 2 (o ∷ os)) + length (of_rank 3 (o ∷ os))))
          ≡ length (o ∷ os)
    go SyncOperationType.offline_registration e ih = simp e (omega (arith, ih))
    go SyncOperationType.offline_scan e ih = simp e (omega (arith, ih))
    go SyncOperationType.qr_generation e ih = simp e (omega (arith, ih))
    go SyncOperationType.scan_event e ih = simp e (omega (arith, ih))

length-sort_operations :
    (os : List SubmitSyncOperationDto) → length (sort_operations os) ≡ length os
length-sort_operations os = rw (sort_operations-of_rank os) (
    omega (
      arith,
      length-append (of_rank 0 os) (of_rank 1 os ++ (of_rank 2 os ++ of_rank 3 os)),
      length-append (of_rank 1 os) (of_rank 2 os ++ of_rank 3 os),
      length-append (of_rank 2 os) (of_rank 3 os),
      length-of_rank os,
    ))

length-map : {A : Type 0} (f : A → String) (xs : List A) → length (map f xs) ≡ length xs
length-map f [] = refl
length-map f (x ∷ xs) = omega (arith, length-map f xs)

count-is_counted :
    (results : List OperationResult)
    → all is_counted results ≡ true
    → count_where (λ r. is_processed r.status) results
        + count_where (λ r. is_failed r.status) results
        + count_where (λ r. is_duplicate r.status) results
      ≡ length results
count-is_counted [] h = refl
count-is_counted (r ∷ rs) h = ground (arith, h, count-is_counted rs)

module _ (services : Services) (batch : SubmitSyncBatchDto) where
  process_batch-answers :
      (row : SyncBatch) (duplicates : List String) (s : SyncDb) (done : SyncBatch)
      → all
          (λ o.
            knows duplicates (select (λ o. eqb o.sync_batch_id row.id) s.operations) o.operation_id)
          batch.operations
        ≡ true
      → (process_batch services batch row duplicates s).0 ≡ ok done
      → (results : List OperationResult) × (done ≡ conclude services batch results row)
        × (map (λ r. r.operation_id) results ≡ ids (sort_operations batch.operations))
        × (all is_counted results ≡ true)
  unfolding process_batch update_batch
  process_batch-answers row duplicates s done known h =
      let created : List SyncOperation = select (λ o. eqb o.sync_batch_id row.id) s.operations in
      let stored : List SyncOperation =
        select (λ o. includes duplicates o.operation_id) s.operations in
      let s1 : SyncDb =
        (update_batch row.id (λ b. record b { status = SyncBatchStatus.processing }) s).1 in
      elim (Result-cases
        (process_all services batch duplicates created stored (sort_operations batch.operations)
          s1).0) [
            | inl (e, bad) ↦ absurd (ground (arith, bad, h))
            | inr (results, good) ↦
                let a =
                  process_all-answers services batch duplicates created stored
                    (sort_operations batch.operations) s1 results
                    (all-sort_operations (λ o. knows duplicates created o.operation_id)
                      batch.operations known)
                    good in
                (results, ground (arith, good, h), a.0, a.1)
          ]

  created-knows :
      (id : ℕ) (s : SyncDb) (duplicates : List String) (rows : List SyncOperation)
      → new_operations
          (id + 1)
          id
          (select (λ o. not (includes duplicates o.operation_id)) batch.operations)
        ≡ some rows
      → all
          (λ o.
            knows duplicates
              (select (λ x. eqb x.sync_batch_id id) (s.operations ++ rows))
              o.operation_id)
          batch.operations
        ≡ true
  created-knows id s duplicates rows e = all-knows duplicates _ batch.operations (
      subst
        (λ c.
          all (λ o. is_some (pick c o.operation_id))
            (select (λ o. not (includes duplicates o.operation_id)) batch.operations)
          ≡ true)
        (sym (select-append (λ x. eqb x.sync_batch_id id) s.operations rows))
        (all_picked-append (select (λ x. eqb x.sync_batch_id id) s.operations) _ _ (
          new_operations-picked (id + 1) id
            (select (λ o. not (includes duplicates o.operation_id)) batch.operations) rows e)))

  -- A batch with a new id that is answered has one result for each of its operations, in the order in
  -- which they are sorted; every result is processed, failed or a duplicate, the three counters add up
  -- to the number of operations, and that is the total that is stored.
  pub submit_batch-answers :
      (s : SyncDb) (done : Submitted)
      → find_batch s batch.batch_id ≡ none
      → (submit_batch services batch s).0 ≡ ok done
      → (map (λ r. r.operation_id) done.batch.result ≡ ids (sort_operations batch.operations))
        × (all is_counted done.batch.result ≡ true)
        × (done.batch.processed_count + done.batch.failed_count + done.batch.duplicate_count
            ≡ length batch.operations)
        × (done.batch.total_operations ≡ length batch.operations)
        × (done.duplicate ≡ false)
  unfolding submit_batch create_batch conclude
  submit_batch-answers s done new h =
      let duplicates : List String = find_duplicate_operation_ids s (ids batch.operations) in
      let s0 : SyncDb = record s { work = record s.work { local_registrations = [] } } in
      elim (Result-cases (check_submitter batch s0)) [
        | inl (e, bad) ↦ absurd (ground (arith, new, bad, h))
        | inr (u, good) ↦
            elim (Option-cases (
              new_operations (s.next_id + 1) s.next_id
                (select (λ o. not (includes duplicates o.operation_id)) batch.operations))) [
                  | inl clash ↦ absurd (ground (arith, new, good, clash, h))
                  | inr (rows, e) ↦
                      let s2 : SyncDb =
                        (create_batch batch (length duplicates)
                          (select (λ o. not (includes duplicates o.operation_id)) batch.operations)
                          s0).1 in
                      let row : SyncBatch = new_batch s.next_id batch (length duplicates) in
                      let stored : s2.operations ≡ s.operations ++ rows = ground (arith, e) in
                      elim (Result-cases (process_batch services batch row duplicates s2).0) [
                        | inl (e', bad) ↦ absurd (ground (arith, new, good, e, bad, h))
                        | inr (d, ran) ↦
                            let known =
                              subst
                                (λ os.
                                  all
                                    (λ o.
                                      knows duplicates
                                        (select (λ x. eqb x.sync_batch_id s.next_id) os)
                                        o.operation_id)
                                    batch.operations
                                  ≡ true)
                                (sym stored) (created-knows s.next_id s duplicates rows e) in
                            let (results, made, named, counted) =
                              process_batch-answers row duplicates s2 d known ran in
                            let is_done : done ≡ record {
                              duplicate = false;
                              batch = conclude services batch results row;
                            } =
                              ground (arith, new, good, e, ran, made, h) in
                            let total : length results ≡ length batch.operations =
                              sym (length-map (λ r. r.operation_id) results)
                              ∙ (ap length named
                                  ∙ (length-map (λ o. o.operation_id)
                                        (sort_operations batch.operations)
                                      ∙ length-sort_operations batch.operations)) in
                            rw is_done
                              (named, counted, count-is_counted results counted ∙ total, refl, refl)
                      ]
                ]
      ]
