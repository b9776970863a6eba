-- ===== src/Sync/Recover/Accounts.antt =====
-- The report of a recovery adds up.
use creative_backend.Base.{
  ℕ, zero, suc, String, map, not, ap₂, ◌+◌, ◌-◌, ◌≤◌, ◌≡◌, refl, ap, ◌∙◌, Bool, true, false, ◌&&◌,
  ◌||◌, List, [], ◌∷◌, arith, eqb, select, count_where, length, all, inl, inr, Bool-cases,
  Option-cases,
}
use creative_backend.Base.Result.{ok, Result-cases}
use creative_backend.Sync.Rows.{SyncDb, Services, SyncBatch, SyncOperation}
use creative_backend.Sync.Recover.{
  RecoverInput, Attempt, already_claimed, ran, Recovered, batch_of, is_wanted, with_batch,
  retry_dto, single, wet, recover_limit, failed_operations, was_processed, has_failed, attempt,
  attempt_all, recover_failed_offline_registrations,
}
use creative_backend.Qr.{take}
use creative_backend.Scans.Offline.{is_some}
use creative_backend.Sync.Payload.{to_record, can_retry_failed_offline_operation}
use creative_backend.Sync.Batch.{is_failed, claim}
use creative_backend.Sync.Batch.Answers.{process_operation-Answers}

abbrev pub was_claimed : Attempt → Bool
was_claimed (already_claimed id) = true
was_claimed (ran r) = false

-- the operation that an attempt was made for
abbrev pub attempted_id : Attempt → String
attempted_id (already_claimed id) = id
attempted_id (ran r) = r.operation_id

abbrev pub operation_ids : List SyncOperation → List String
operation_ids = map (λ (o : SyncOperation). o.operation_id)

abbrev pair_ids : List (SyncOperation × SyncBatch) → List String
pair_ids = map (λ (p : SyncOperation × SyncBatch). p.0.operation_id)

abbrev is_accounted : Attempt → Bool
is_accounted a = was_processed a || has_failed a || was_claimed a

count-is_accounted :
    (results : List Attempt)
    → all is_accounted results ≡ true
    → count_where was_processed results
        + count_where has_failed results
        + count_where was_claimed results
      ≡ length results
count-is_accounted [] h = refl
count-is_accounted (already_claimed id ∷ rs) h = ground (arith, h, count-is_accounted rs)
count-is_accounted (ran r ∷ rs) h = ground (arith, h, count-is_accounted rs)

length-with_batch :
    (s : SyncDb) (os : List SyncOperation)
    → all (λ o. is_some (batch_of s o)) os ≡ true
    → length (with_batch s os) ≡ length os
length-with_batch s [] h = refl
length-with_batch s (o ∷ os) h = ground (arith, h, length-with_batch s os)

pair_ids-with_batch :
    (s : SyncDb) (os : List SyncOperation)
    → all (λ o. is_some (batch_of s o)) os ≡ true
    → pair_ids (with_batch s os) ≡ operation_ids os
pair_ids-with_batch s [] h = refl
pair_ids-with_batch s (o ∷ os) h = elim (Option-cases (batch_of s o)) [
  | inl missing ↦ absurd (ground (arith, h, missing))
  | inr (b, found) ↦
      rw (found, with_batch)
        (ap (λ ids. o.operation_id ∷ ids) (pair_ids-with_batch s os (ground (arith, h, found))))
]

length-complement :
    (p : SyncOperation → Bool) (os : List SyncOperation)
    → length os ≡ length (select p os) + count_where (λ o. not (p o)) os
length-complement p [] = refl
length-complement p (o ∷ os) = ground (arith, length-complement p os)

all-take :
    (p : SyncOperation → Bool) (n : ℕ) (os : List SyncOperation)
    → all p os ≡ true
    → all p (take n os) ≡ true
all-take p zero os h = refl
all-take p (suc n) [] h = refl
all-take p (suc n) (o ∷ os) h = ground (arith, h, all-take p n os)

all-select :
    (p q : SyncOperation → Bool) (os : List SyncOperation)
    → all p os ≡ true
    → all p (select q os) ≡ true
all-select p q [] h = refl
all-select p q (o ∷ os) h = ground (arith, h, all-select p q os)

all-is_wanted :
    (input : RecoverInput) (s : SyncDb) (os : List SyncOperation)
    → all (λ o. is_some (batch_of s o)) (select (is_wanted input s) os) ≡ true
all-is_wanted input s [] = refl
all-is_wanted input s (o ∷ os) =
    let ih = all-is_wanted input s os in
    elim (Bool-cases (is_wanted input s o)) [
      | inr e ↦ rw e ih
      | inl e ↦ elim (Option-cases (batch_of s o)) [
        | inl missing ↦ absurd (ground (arith, e, missing))
        | inr (b, found) ↦ rw e (rw found ih)
      ]
    ]

length-select :
    (p : SyncOperation → Bool) (os : List SyncOperation) → length (select p os) ≤ length os
length-select p [] = omega arith
length-select p (o ∷ os) = ground (arith, length-select p os)

length-take : (n : ℕ) (os : List SyncOperation) → length (take n os) ≤ n
length-take zero os = omega arith
length-take (suc n) [] = omega arith
length-take (suc n) (o ∷ os) = omega (arith, length-take n os)

module _ (services : Services) where
  attempt-is_accounted :
      (operation : SyncOperation) (batch : SyncBatch) (s : SyncDb) (a : Attempt)
      → (attempt services operation batch s).0 ≡ ok a
      → (is_accounted a ≡ true) × (attempted_id a ≡ operation.operation_id)
  unfolding attempt claim
  attempt-is_accounted operation batch s a h =
      elim (Bool-cases
        (eqb (count_where (λ o. eqb o.id operation.id && is_failed o.status) s.operations) 1)) [
          | inr taken ↦ (ground (arith, taken, h), ground (arith, taken, h))
          | inl claimed ↦ elim (Result-cases (to_record operation.input)) [
            | inl (e, bad) ↦ absurd (ground (arith, claimed, bad, h))
            | inr (payload, good) ↦
                let s1 : SyncDb = (claim operation.id s).1 in
                let s2 : SyncDb = record s1 {
                  work = record s1.work { local_registrations = [] };
                } in
                let r =
                  process_operation-Answers services (single batch (retry_dto operation payload))
                    operation (retry_dto operation payload) s2 in
                let made : a ≡ ran r.0 = ground (arith, claimed, good, h, r.1) in
                (ap is_accounted made ∙ ground (arith, r.4), ap attempted_id made ∙ r.2)
          ]
        ]

  attempt_all-accounts :
      (pairs : List (SyncOperation × SyncBatch)) (s : SyncDb) (results : List Attempt)
      → (attempt_all services pairs s).0 ≡ ok results
      → (all is_accounted results ≡ true)
        × (length results ≡ length pairs)
        × (map attempted_id results ≡ pair_ids pairs)
  unfolding attempt_all
  attempt_all-accounts [] s results h = (ground (arith, h), ground (arith, h), ground (arith, h))
  attempt_all-accounts ((operation, batch) ∷ rest) s results h =
      elim (Result-cases (attempt services operation batch s).0) [
        | inl (e, bad) ↦ absurd (ground (arith, bad, h))
        | inr (a, good) ↦
            elim (Result-cases
              (attempt_all services rest (attempt services operation batch s).1).0) [
                | inl (e, bad) ↦ absurd (ground (arith, good, bad, h))
                | inr (others, more) ↦
                    let made : results ≡ a ∷ others = ground (arith, good, more, h) in
                    let ih =
                      attempt_all-accounts rest (attempt services operation batch s).1 others
                        more in
                    let first = attempt-is_accounted operation batch s a good in
                    (
                      ap (all is_accounted) made ∙ ground (arith, first.0, ih.0),
                      ap length made ∙ ap suc ih.1,
                      ap (map attempted_id) made ∙ ap₂ (λ x xs. x ∷ xs) first.1 ih.2,
                    )
              ]
      ]

  -- A recovery that is not dry and returns has tried, in their order, each of the operations that it
  -- found and that may be retried, and no other, and it counts the others that it found as skipped for
  -- good. What it has tried is what was processed, has failed again or had been claimed by another, and
  -- it found at most 1000.
  pub recover-accounts :
      (input : RecoverInput) (s : SyncDb) (report : Recovered)
      → input.dry_run ≡ false
      → (recover_failed_offline_registrations services input s).0 ≡ ok (wet report)
      → (map attempted_id report.results
          ≡ operation_ids (
              select
                (can_retry_failed_offline_operation services.to_upper_case)
                (failed_operations input s)))
        × (report.skipped_permanent
            ≡ count_where
                (λ o. not (can_retry_failed_offline_operation services.to_upper_case o))
                (failed_operations input s))
        × (report.processed + report.failed + count_where was_claimed report.results
            ≡ report.attempted)
        × (report.attempted ≡ length report.results)
        × (report.attempted + report.skipped_permanent ≡ report.scanned)
        × (report.scanned ≡ length (failed_operations input s))
        × (report.scanned ≤ 1000)
  unfolding recover_failed_offline_registrations failed_operations recover_limit
  recover-accounts input s report wet' h =
      let operations : List SyncOperation = failed_operations input s in
      let recoverable : List SyncOperation =
        select (can_retry_failed_offline_operation services.to_upper_case) operations in
      let batched : all (λ o. is_some (batch_of s o)) operations ≡ true =
        all-take _ (recover_limit input) _ (all-is_wanted input s s.operations) in
      let paired = length-with_batch s recoverable (
        all-select _ (can_retry_failed_offline_operation services.to_upper_case) operations
          batched) in
      let named = pair_ids-with_batch s recoverable (
        all-select _ (can_retry_failed_offline_operation services.to_upper_case) operations
          batched) in
      let apart =
        length-complement (can_retry_failed_offline_operation services.to_upper_case) operations in
      let some' =
        length-select (can_retry_failed_offline_operation services.to_upper_case) operations in
      let few = length-take (recover_limit input) (select (is_wanted input s) s.operations) in
      elim (Result-cases (attempt_all services (with_batch s recoverable) s).0) [
        | inl (e, bad) ↦ absurd (ground (arith, wet', bad, h))
        | inr (results, good) ↦
            let a = attempt_all-accounts (with_batch s recoverable) s results good in
            let made : report ≡ record {
              scanned = length operations;
              attempted = length recoverable;
              processed = count_where was_processed results;
              failed = count_where has_failed results;
              skipped_permanent = length operations - length recoverable;
              results = results;
            } =
              ground (arith, wet', good, h) in
            rw made (
              a.2 ∙ named,
              omega (arith, apart),
              count-is_accounted results a.0 ∙ (a.1 ∙ paired),
              omega (arith, a.1, paired),
              omega (arith, some'),
              refl,
              omega (arith, few),
            )
      ]
