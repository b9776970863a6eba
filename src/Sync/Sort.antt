-- ===== src/Sync/Sort.antt =====
-- `sortOperations`: registrations first, then scans made offline, then codes, then online scans.
pub mod Buckets
use creative_backend.Base.{
  ℕ, suc, ◌+◌, Bool, true, false, ◌&&◌, ◌||◌, List, [], ◌∷◌, ltb, leb, eqb, if◌then◌else◌, map,
}
use creative_backend.Sync.Rows.{SyncOperationType, SubmitSyncOperationDto}

-- `order.indexOf(type)`
unfoldable pub rank : SyncOperationType → ℕ
rank SyncOperationType.offline_registration = 0
rank SyncOperationType.offline_scan = 1
rank SyncOperationType.qr_generation = 2
rank SyncOperationType.scan_event = 3

-- an operation with its place in the batch
pub record Indexed : Type 0 where
  pub operation : SubmitSyncOperationDto
  pub index : ℕ

abbrev pub indexed : ℕ → List SubmitSyncOperationDto → List Indexed
indexed n [] = []
indexed n (o ∷ rest) = record { operation = o; index = n } ∷ indexed (suc n) rest

-- the comparison function of `sort` does not answer a positive number
unfoldable pub comes_first : Indexed → Indexed → Bool
unfolding rank
comes_first left right =
    ltb (rank left.operation.type) (rank right.operation.type)
    || (eqb (rank left.operation.type) (rank right.operation.type) && leb left.index right.index)

unfoldable pub insert_indexed : Indexed → List Indexed → List Indexed
insert_indexed x [] = x ∷ []
insert_indexed x (y ∷ ys) =
    let rest = insert_indexed x ys in if comes_first x y then x ∷ y ∷ ys else y ∷ rest

unfoldable pub sort_indexed : List Indexed → List Indexed
unfolding insert_indexed
sort_indexed [] = []
sort_indexed (x ∷ xs) = insert_indexed x (sort_indexed xs)

unfoldable pub sort_operations : List SubmitSyncOperationDto → List SubmitSyncOperationDto
unfolding sort_indexed
sort_operations operations = map (λ x. x.operation) (sort_indexed (indexed 0 operations))
