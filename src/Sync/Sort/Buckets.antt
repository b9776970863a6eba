-- ===== src/Sync/Sort/Buckets.antt =====
-- What `sortOperations` gives, without sorting.
use creative_backend.Base.{
  ℕ, suc, ◌≤◌, ◌<◌, ◌≡◌, refl, ap, ap₂, ◌∙◌, Bool, true, not, List, [], ◌∷◌, ◌++◌, map, arith, eqb,
  all, select, inl, inr, Bool-cases,
}
use creative_backend.Sync.Rows.{SyncOperationType, SubmitSyncOperationDto}
use creative_backend.Sync.Sort.{
  rank, Indexed, indexed, comes_first, insert_indexed, sort_indexed, sort_operations,
}

-- the operations of the types with one rank, in the order of the batch
abbrev pub of_rank : ℕ → List SubmitSyncOperationDto → List SubmitSyncOperationDto
of_rank r = select (λ o. eqb (rank o.type) r)

abbrev bucket : ℕ → List Indexed → List Indexed
bucket r = select (λ x. eqb (rank x.operation.type) r)

abbrev buckets : List Indexed → List Indexed
buckets xs = bucket 0 xs ++ (bucket 1 xs ++ (bucket 2 xs ++ bucket 3 xs))

insert_indexed-skip :
    (x : Indexed) (before rest : List Indexed)
    → all (λ y. not (comes_first x y)) before ≡ true
    → insert_indexed x (before ++ rest) ≡ before ++ insert_indexed x rest
unfolding insert_indexed
insert_indexed-skip x [] rest h = refl
insert_indexed-skip x (y ∷ ys) rest h = ground (arith, h, insert_indexed-skip x ys rest)

insert_indexed-front :
    (x : Indexed) (rest : List Indexed)
    → all (comes_first x) rest ≡ true
    → insert_indexed x rest ≡ x ∷ rest
unfolding insert_indexed
insert_indexed-front x [] h = refl
insert_indexed-front x (y ∷ ys) h = ground (arith, h)

all-append :
    (p : Indexed → Bool) (xs ys : List Indexed)
    → all p xs ≡ true
    → all p ys ≡ true
    → all p (xs ++ ys) ≡ true
all-append p [] ys h k = k
all-append p (x ∷ xs) ys h k = ground (arith, h, all-append p xs ys)

-- a bucket of a later or the same rank comes after an operation that stands before it in the batch
bucket-after :
    (x : Indexed) (r n : ℕ) (operations : List SubmitSyncOperationDto)
    → rank x.operation.type ≤ r
    → x.index ≤ n
    → all (comes_first x) (bucket r (indexed n operations)) ≡ true
unfolding comes_first
bucket-after x r n [] h k = refl
bucket-after x r n (o ∷ rest) h k =
    let ih = bucket-after x r (suc n) rest h (omega arith) in ground (arith, ih, h, k)

bucket-before :
    (x : Indexed) (r n : ℕ) (operations : List SubmitSyncOperationDto)
    → r < rank x.operation.type
    → all (λ y. not (comes_first x y)) (bucket r (indexed n operations)) ≡ true
unfolding comes_first
bucket-before x r n [] h = refl
bucket-before x r n (o ∷ rest) h =
    let ih = bucket-before x r (suc n) rest h in ground (arith, ih, h)

module _ (x : Indexed) (n : ℕ) (rest : List SubmitSyncOperationDto) (first : x.index ≤ n) where
  after :
      (r : ℕ) → rank x.operation.type ≤ r → all (comes_first x) (bucket r (indexed n rest)) ≡ true
  after r h = bucket-after x r n rest h first

  before :
      (r : ℕ)
      → r < rank x.operation.type
      → all (λ y. not (comes_first x y)) (bucket r (indexed n rest)) ≡ true
  before r h = bucket-before x r n rest h

  abbrev later : List Indexed
  later = bucket 2 (indexed n rest) ++ bucket 3 (indexed n rest)

  insert_indexed-buckets :
      (type : SyncOperationType)
      → x.operation.type ≡ type
      → insert_indexed x (buckets (indexed n rest)) ≡ buckets (x ∷ indexed n rest)
  unfolding rank
  insert_indexed-buckets SyncOperationType.offline_registration e = simp e (
      insert_indexed-front x _ (
        all-append (comes_first x) (bucket 0 (indexed n rest)) _ (after 0 (rw e (omega arith))) (
          all-append (comes_first x) (bucket 1 (indexed n rest)) _ (after 1 (rw e (omega arith))) (
            all-append (comes_first x) (bucket 2 (indexed n rest)) _ (after 2 (rw e (omega arith)))
              (after 3 (rw e (omega arith)))))))
  insert_indexed-buckets SyncOperationType.offline_scan e = simp e (
      insert_indexed-skip x (bucket 0 (indexed n rest)) _ (before 0 (rw e (omega arith)))
      ∙ ap (λ t. bucket 0 (indexed n rest) ++ t)
          (insert_indexed-front x _ (
            all-append (comes_first x) (bucket 1 (indexed n rest)) _ (after 1 (rw e (omega arith)))
              (all-append (comes_first x) (bucket 2 (indexed n rest)) _
                (after 2 (rw e (omega arith))) (after 3 (rw e (omega arith)))))))
  insert_indexed-buckets SyncOperationType.qr_generation e = simp e (
      insert_indexed-skip x (bucket 0 (indexed n rest)) _ (before 0 (rw e (omega arith)))
      ∙ ap (λ t. bucket 0 (indexed n rest) ++ t)
          (insert_indexed-skip x (bucket 1 (indexed n rest)) _ (before 1 (rw e (omega arith)))
            ∙ ap (λ t. bucket 1 (indexed n rest) ++ t)
                (insert_indexed-front x _ (
                  all-append (comes_first x) (bucket 2 (indexed n rest)) _
                    (after 2 (rw e (omega arith))) (after 3 (rw e (omega arith)))))))
  insert_indexed-buckets SyncOperationType.scan_event e = simp e (
      insert_indexed-skip x (bucket 0 (indexed n rest)) _ (before 0 (rw e (omega arith)))
      ∙ ap (λ t. bucket 0 (indexed n rest) ++ t)
          (insert_indexed-skip x (bucket 1 (indexed n rest)) _ (before 1 (rw e (omega arith)))
            ∙ ap (λ t. bucket 1 (indexed n rest) ++ t)
                (insert_indexed-skip x (bucket 2 (indexed n rest)) _ (before 2 (rw e (omega arith)))
                  ∙ ap (λ t. bucket 2 (indexed n rest) ++ t)
                      (insert_indexed-front x _ (after 3 (rw e (omega arith)))))))

sort_indexed-buckets :
    (n : ℕ) (operations : List SubmitSyncOperationDto)
    → sort_indexed (indexed n operations) ≡ buckets (indexed n operations)
unfolding sort_indexed
sort_indexed-buckets n [] = refl
sort_indexed-buckets n (o ∷ rest) =
    ap (insert_indexed (record { operation = o; index = n })) (sort_indexed-buckets (suc n) rest)
    ∙ insert_indexed-buckets (record { operation = o; index = n }) (suc n) rest (omega arith) o.type
        refl

map-append :
    (xs ys : List Indexed)
    → map (λ x. x.operation) (xs ++ ys) ≡ map (λ x. x.operation) xs ++ map (λ x. x.operation) ys
map-append [] ys = refl
map-append (x ∷ xs) ys = ap (◌∷◌ x.operation) (map-append xs ys)

map-bucket :
    (r n : ℕ) (operations : List SubmitSyncOperationDto)
    → map (λ x. x.operation) (bucket r (indexed n operations)) ≡ of_rank r operations
map-bucket r n [] = refl
map-bucket r n (o ∷ rest) = elim (Bool-cases (eqb (rank o.type) r)) [
  | inl e ↦ rw e (ap (◌∷◌ o) (map-bucket r (suc n) rest))
  | inr e ↦ rw e (map-bucket r (suc n) rest)
]

-- The sorted operations are those of rank 0 (offline registrations), then 1 (offline scans), 2 (codes)
-- and 3 (online scans), each group in the order in which the batch has it.
pub sort_operations-of_rank :
    (operations : List SubmitSyncOperationDto)
    → sort_operations operations
      ≡ of_rank 0 operations
        ++ (of_rank 1 operations ++ (of_rank 2 operations ++ of_rank 3 operations))
unfolding sort_operations
sort_operations-of_rank operations =
    ap (map (λ x. x.operation)) (sort_indexed-buckets 0 operations)
    ∙ (map-append (bucket 0 (indexed 0 operations)) _
        ∙ ap₂ ◌++◌ (map-bucket 0 0 operations) (
            map-append (bucket 1 (indexed 0 operations)) _
            ∙ ap₂ ◌++◌ (map-bucket 1 0 operations) (
                map-append (bucket 2 (indexed 0 operations)) _
                ∙ ap₂ ◌++◌ (map-bucket 2 0 operations) (map-bucket 3 0 operations))))
