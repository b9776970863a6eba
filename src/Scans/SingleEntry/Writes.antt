-- ===== src/Scans/SingleEntry/Writes.antt =====
-- The writes that add no movement keep the single entry.
use creative_backend.Base.{ℕ, refl, String, Option, arith}
use creative_backend.Base.Json.{Fields}
use creative_backend.Offline.{VerifiedOfflineQr}
use creative_backend.Scans.Records.{
  Action, CreateScanDto, create_scan, update_scan, delete_scan, create_offline_scan,
  update_offline_scan, touch_activity, create_invalid_scan, update_invalid_raw_scan,
  create_pending_offline_reference_scan_from_online_scan,
  create_pending_offline_scan_from_online_scan,
}
use creative_backend.Scans.Keeps.{Keeps, keeps_rules}
use creative_backend.Scans.SingleEntry.{HasSingleEntry, Spares, Spares-HasSingleEntry}
use creative_backend.Store.{Db, ScanEventRaw, OfflineScanOperation, StaffSession}

spares : {A : Type 0} (m : Action A) → ((db : Db) → Spares db (m db).1) → Keeps HasSingleEntry m
spares m s = record { at = λ db h. Spares-HasSingleEntry (s db) h }

pub create_scan-Keeps : (row : ScanEventRaw) → Keeps HasSingleEntry (create_scan row)
unfolding create_scan
create_scan-Keeps row = spares _ λ db. record { events = ground arith; movements = ground arith }

pub update_scan-Keeps : (row : ScanEventRaw) → Keeps HasSingleEntry (update_scan row)
unfolding update_scan
update_scan-Keeps row = spares _ λ db. record { events = refl; movements = refl }

pub delete_scan-Keeps : (id : ℕ) → Keeps HasSingleEntry (delete_scan id)
unfolding delete_scan
delete_scan-Keeps id = spares _ λ db. record { events = refl; movements = refl }

pub create_offline_scan-Keeps :
    (row : OfflineScanOperation) → Keeps HasSingleEntry (create_offline_scan row)
unfolding create_offline_scan
create_offline_scan-Keeps row =
    spares _ λ db. record { events = ground arith; movements = ground arith }

pub update_offline_scan-Keeps :
    (row : OfflineScanOperation) → Keeps HasSingleEntry (update_offline_scan row)
unfolding update_offline_scan
update_offline_scan-Keeps row = spares _ λ db. record { events = refl; movements = refl }

pub touch_activity-Keeps :
    (now : ℕ) (device : String) (session : Option StaffSession)
    → Keeps HasSingleEntry (touch_activity now device session)
unfolding touch_activity
touch_activity-Keeps now device session = spares _ λ db. record { events = refl; movements = refl }

module _ (now : ℕ) where
  pub create_invalid-Keeps :
      (dto : CreateScanDto) (reason : String) (payload : Option Fields)
      (qr_token_id registration_id : Option String)
      → Keeps HasSingleEntry
          (create_invalid_scan now dto reason payload qr_token_id registration_id)
  unfolding create_invalid_scan
  create_invalid-Keeps dto reason payload qr_token_id registration_id =
      spares _ λ db. record { events = ground arith; movements = ground arith }

  pub update_invalid-Keeps :
      (scan : ScanEventRaw) (reason : String) (payload : Option Fields)
      (qr_token_id registration_id : Option String)
      → Keeps HasSingleEntry
          (update_invalid_raw_scan now scan reason payload qr_token_id registration_id)
  unfolding update_invalid_raw_scan
  update_invalid-Keeps scan reason payload qr_token_id registration_id =
      spares _ λ db. record { events = refl; movements = refl }

  pub pending_reference-Keeps :
      (dto : CreateScanDto) (token : String) (payload : Fields) (registration_id : Option String)
      → Keeps HasSingleEntry (
          create_pending_offline_reference_scan_from_online_scan now dto token payload
            registration_id)
  unfolding create_pending_offline_reference_scan_from_online_scan
  pending_reference-Keeps dto token payload registration_id =
      spares _ λ db. record { events = ground arith; movements = ground arith }

  pub pending_offline-Keeps :
      (dto : CreateScanDto) (verified : VerifiedOfflineQr)
      → Keeps HasSingleEntry (create_pending_offline_scan_from_online_scan now dto verified)
  unfolding create_pending_offline_scan_from_online_scan
  pending_offline-Keeps dto verified =
      spares _ λ db. record { events = ground arith; movements = ground arith }

pub ruleset writes = (
  keeps_rules, create_scan-Keeps, update_scan-Keeps, delete_scan-Keeps, create_offline_scan-Keeps,
  update_offline_scan-Keeps, touch_activity-Keeps, create_invalid-Keeps, update_invalid-Keeps,
  pending_reference-Keeps, pending_offline-Keeps,
)
