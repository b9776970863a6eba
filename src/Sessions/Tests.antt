-- ===== src/Sessions/Tests.antt =====
-- Sessions of one member of staff at a VIP gate, and the theorems applied to them.
use creative_backend.Base.{◌≡◌, refl, true, false, none, some, List, [], ◌∷◌, arith}
use creative_backend.Base.Result.{ok, err}
use creative_backend.Scans.Checks.{
  Place, prerequisites, ensure_event_can_be_modified, ensure_active_device,
}
use creative_backend.Scans.Sample.{sample}
use creative_backend.Sessions.Guards.{
  AuthUser, StartStaffSessionDto, resolve_staff_user_id, ensure_staff_user, plan_at,
  ensure_active_checkpoint_belongs_to_event, ensure_active_assignment_binding,
  resolve_mode_for_checkpoint, plan_start, newest_assignment, plan_my_session,
}
use creative_backend.Sessions.Start.{
  end_where, touch_device, new_session, add_session, open_session, start, is_reusable,
  find_reusable, is_superfluous, refresh_session, go_on, go_on_or_start, start_my_session,
  end_my_session, end_found, end_session, remove,
}
use creative_backend.Sessions.Single.{HasSingleSessions}
use creative_backend.Sessions.Histories.{Call, Request, serve_all, serve_all-HasSingleSessions}
use creative_backend.Scans.Sample.{env, request, scan_runs}
use creative_backend.Scans.Records.{CreateScanDto}
use creative_backend.Scans.Ingest.{formatted, ingest}
use creative_backend.Sessions.Admitted.{sent_from, IsUnder, start-prerequisites}
use creative_backend.Sessions.Repeat.{session_ids, start_my_session-again}
use creative_backend.Store.{
  Db, UserRole, UserStatus, StaffSession, StaffSessionStatus, StaffScanMode, Exception,
  ScanEventRaw, MovementLog,
}

abbrev pub staffed : Db
staffed = record sample {
  users = record { id = "u1"; role = UserRole.staff; status = UserStatus.active } ∷ [];
  staff_assignments =
      record {
        id = "a1";
        event_id = "e1";
        user_id = "u1";
        checkpoint_id = some "c1";
        device_id = some "d1";
        is_active = true;
        updated_at = 5;
      }
      ∷ [];
}

abbrev member : AuthUser
member = record { id = "u1"; role = UserRole.staff }

abbrev first : StaffSession
first = record {
  id = "s1";
  event_id = "e1";
  device_id = "d1";
  checkpoint_id = "c1";
  staff_user_id = "u1";
  mode = StaffScanMode.vip_access;
  status = StaffSessionStatus.active;
  started_at = 20;
  ended_at = none;
  last_seen_at = some 20;
}

abbrev dto : StaffScanMode → StartStaffSessionDto
dto mode = record {
  event_id = "e1";
  device_id = "d1";
  checkpoint_id = "c1";
  staff_user_id = none;
  mode = mode;
}

unfoldable session_runs : Unit {0}
unfolding resolve_staff_user_id ensure_staff_user plan_at ensure_active_checkpoint_belongs_to_event
    ensure_active_assignment_binding resolve_mode_for_checkpoint plan_start newest_assignment
    plan_my_session end_where touch_device new_session add_session open_session start is_reusable
    find_reusable is_superfluous refresh_session go_on go_on_or_start start_my_session
    end_my_session end_found end_session remove ensure_event_can_be_modified ensure_active_device
session_runs = tt

start_test : (start_my_session 20 "s1" member staffed).0 ≡ ok first
unfolding session_runs
start_test = refl

reuse_test :
    (start_my_session 30 "s2" member (start_my_session 20 "s1" member staffed).1).0
    ≡ ok (record first { last_seen_at = some 30 })
unfolding session_runs
reuse_test = refl

-- a start under another mode is refused
mode_test :
    (start 20 "s1" member (dto StaffScanMode.entry) staffed).0
    ≡ err
        (Exception.bad_request "Staff session mode must match checkpoint type. Expected VIP_ACCESS")
unfolding session_runs
mode_test = refl

-- a second session of the same person ends the first
second_test :
    session_ids
      (start 30 "s2" member
        (dto StaffScanMode.vip_access)
        (start_my_session 20 "s1" member staffed).1).1
    ≡ "s1" ∷ "s2" ∷ []
unfolding session_runs
second_test = refl

end_test : (end_my_session 40 member (start_my_session 20 "s1" member staffed).1).0 ≡ ok 1
unfolding session_runs
end_test = refl

abbrev history : List Call
history =
    record { now = 20; new_id = "s1"; request = Request.start_mine member }
    ∷ record {
      now = 30;
      new_id = "s2";
      request = Request.start_for member (dto StaffScanMode.vip_access);
    }
    ∷ record { now = 40; new_id = "s3"; request = Request.end_one "s2" }
    ∷ []

staffed-HasSingleSessions : HasSingleSessions staffed
staffed-HasSingleSessions = record { of_user = λ u. omega arith; on_device = λ e d. omega arith }

serve_all-HasSingleSessions_example : HasSingleSessions (serve_all history staffed)
serve_all-HasSingleSessions_example =
    serve_all-HasSingleSessions history staffed staffed-HasSingleSessions

abbrev scan_request : CreateScanDto
scan_request = request "o1" "Q2.QRT_1.BBBBBBBBBBBBBBBB"

-- the scan that the session lets through is stored with its movement
scan_under_session :
    let db' : Db = (start 20 "s1" member (dto StaffScanMode.vip_access) staffed).1 in
    let sent : CreateScanDto = sent_from (dto StaffScanMode.vip_access) first scan_request in
    (scan : ScanEventRaw) × (movement : MovementLog) × ((ingest env sent db').0
      ≡ ok (formatted false true "ALLOWED" scan (some movement)))
    × (scan.staff_session_id ≡ some "s1")
    × (movement.staff_session_id ≡ some "s1")
unfolding session_runs scan_runs
scan_under_session = (_, _, refl, refl, refl)

start-prerequisites_example :
    let db' : Db = (start 20 "s1" member (dto StaffScanMode.vip_access) staffed).1 in
    let sent : CreateScanDto = sent_from (dto StaffScanMode.vip_access) first scan_request in
    (place : Place) × (prerequisites db' "e1" "d1" (some "s1") (some "c1") ≡ ok place)
    × (place.session ≡ some first)
    × IsUnder "s1" "o1" (ingest env sent db').0 (ingest env sent db').1
unfolding session_runs
start-prerequisites_example =
    start-prerequisites 20 "s1" member (dto StaffScanMode.vip_access) staffed env scan_request first
      refl refl refl

start_my_session-again_example :
    let db' : Db = (start_my_session 20 "s1" member staffed).1 in
    (again : StaffSession) × ((start_my_session 30 "s2" member db').0 ≡ ok again)
    × (again.id ≡ "s1")
    × (session_ids (start_my_session 30 "s2" member db').1 ≡ session_ids db')
unfolding session_runs
start_my_session-again_example = start_my_session-again 20 30 "s1" "s2" member first staffed refl
