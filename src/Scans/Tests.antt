-- ===== src/Scans/Tests.antt =====
-- Runs of the scan service on a small database, and instances of the theorems.
use creative_backend.Base.{
  String, ◌≡◌, refl, Bool, true, false, Option, none, some, List, [], ◌∷◌, arith, length,
}
use creative_backend.Base.Result.{Result, ok}
use creative_backend.Base.Json.{field, str, end}
use creative_backend.Scans.Ingest.{Response, formatted, ingest}
use creative_backend.Scans.Process.{Outcome, process_raw_scan}
use creative_backend.Scans.Sample.{env, sample, request, scan_runs}
use creative_backend.Scans.SingleEntry.{HasSingleEntry}
use creative_backend.Scans.SingleEntry.Runs.{
  Call, ingests, ingests_fast, processes, run, after, run-HasSingleEntry,
}
use creative_backend.Scans.Replay.{ingest_twice}
use creative_backend.Scans.Progress.{IsSettled, process_raw_scan-IsSettled, process_raw_scan-twice}
use creative_backend.Store.{
  Db, ScanEventRaw, ScanEventStatus, MovementLog, MovementType, MovementResult, Exception,
}

abbrev vip : String
vip = "Q2.QRT_1.BBBBBBBBBBBBBBBB"

abbrev summary : Result Exception Response → Option (Bool × Bool × String)
summary (ok (formatted duplicate allowed reason scan movement)) = some (duplicate, allowed, reason)
summary _ = none

ingest_tests :
    (summary (ingest env (request "o1" vip) sample).0 ≡ some (false, true, "ALLOWED"))
    × (summary (ingest env (request "o1" vip) (ingest env (request "o1" vip) sample).1).0
        ≡ some (true, true, "ALLOWED"))
    × (summary (ingest env (request "o2" vip) (ingest env (request "o1" vip) sample).1).0
        ≡ some (false, false, "ALREADY_ENTERED"))
    × (summary (ingest env (request "o3" "nonsense") sample).0 ≡ some (false, false, "INVALID_QR"))
    × (summary (ingest (record env { now = 91 }) (request "o4" vip) sample).0
        ≡ some (false, false, "QR_EXPIRED"))
unfolding scan_runs run
ingest_tests = (refl, refl, refl, refl, refl)

sample-HasSingleEntry : HasSingleEntry sample
sample-HasSingleEntry = record { at = λ e r closed. omega arith }

abbrev calls : List Call
calls =
    ingests env (request "o1" vip)
    ∷ ingests_fast env (request "o2" vip)
    ∷ processes env 9
    ∷ ingests env (request "o1" vip)
    ∷ []

run-HasSingleEntry_example : HasSingleEntry (run calls sample)
run-HasSingleEntry_example = run-HasSingleEntry calls sample sample-HasSingleEntry

history : (length (run calls sample).movements ≡ 2) × (length (run calls sample).scans ≡ 2)
unfolding scan_runs run after
history = (refl, refl)

abbrev first_scan : ScanEventRaw
first_scan = record {
  id = 7;
  operation_id = "o1";
  event_id = "e1";
  device_id = "d1";
  staff_session_id = none;
  checkpoint_id = some "c1";
  registration_id = some "r1";
  qr_token_id = some "q1";
  qr_payload = some (field "tokenId" (str "QRT_1") end);
  qr_raw = some vip;
  type = MovementType.entry;
  status = ScanEventStatus.processed;
  result = some MovementResult.allowed;
  reason = some "ALLOWED";
  scanned_at_device = 49;
  processed_at = some 50;
  payload = none;
}

abbrev first_movement : MovementLog
first_movement = record {
  id = 8;
  event_id = "e1";
  registration_id = "r1";
  qr_token_id = some "q1";
  scan_event_raw_id = 7;
  device_id = "d1";
  staff_session_id = none;
  checkpoint_id = some "c1";
  type = MovementType.entry;
  result = MovementResult.allowed;
  reason = some "ALLOWED";
  occurred_at = 49;
}

first_answer :
    (ingest env (request "o1" vip) sample).0
    ≡ ok (formatted false true "ALLOWED" first_scan (some first_movement))
unfolding scan_runs run
first_answer = refl

ingest_twice_example :
    ingest (record env { now = 99 }) (request "o1" vip) (ingest env (request "o1" vip) sample).1 ≡ (
      ok (formatted true true "ALLOWED" first_scan (some first_movement)),
      (ingest env (request "o1" vip) sample).1,
    )
ingest_twice_example =
    ingest_twice env (record env { now = 99 }) (request "o1" vip) sample true "ALLOWED" first_scan
      first_movement first_answer

-- a scan that `ingestFast` stored
abbrev waiting_scan : ScanEventRaw
waiting_scan = record first_scan {
  registration_id = none;
  qr_token_id = none;
  qr_payload = none;
  status = ScanEventStatus.pending;
  result = none;
  reason = none;
  processed_at = none;
}

abbrev waiting : Db
waiting = record sample { scans = waiting_scan ∷ []; next_id = 8 }

process_raw_scan-IsSettled_example :
    IsSettled 7 (process_raw_scan env 7 waiting).1
    × ((outcome : Outcome) × ((process_raw_scan env 7 waiting).0 ≡ ok outcome))
process_raw_scan-IsSettled_example = process_raw_scan-IsSettled env 7 waiting waiting_scan refl refl

process_raw_scan-twice_example :
    (process_raw_scan (record env { now = 99 }) 7 (process_raw_scan env 7 waiting).1).1
    ≡ (process_raw_scan env 7 waiting).1
process_raw_scan-twice_example = process_raw_scan-twice env (record env { now = 99 }) 7 waiting
