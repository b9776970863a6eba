-- ===== src/Visitors/Tests.antt =====
-- A journal of four changes, followed in pages of two, and the theorems applied to it.
use creative_backend.Base.{ℕ, ◌≡◌, refl, String, none, some, List, [], ◌∷◌, arith, true}
use creative_backend.Base.Decimal.{is_digit, print_onto, to_string, read_from}
use creative_backend.Base.Result.{err}
use creative_backend.Qr.Toy.{toy, runs}
use creative_backend.Sessions.Guards.{newest_assignment}
use creative_backend.Sessions.Tests.{staffed}
use creative_backend.Store.{StaffAssignment, Exception}
use creative_backend.Location.{distinct}
use creative_backend.Visitors.Changes.{
  VisitorChange, VisitorsDb, StaffVisitorChangesQueryDto, Config, insert_by_id, sort_by_id,
  rows_after, has_more_rows, page_rows, page_limit, set_change, latest_change_by_registration,
  effective_rows, max_id, parse_visitor_change_cursor, create_compact_token_for_offline,
  format_offline_visitor, registrations_of, change_item, change_items, page_response,
  find_changes_for_staff,
}
use creative_backend.Visitors.Latest.{last_of}
use creative_backend.Visitors.Pages.{pending}
use creative_backend.Visitors.CatchUp.{catch_up, catch_up-last_of}

abbrev config : Config
config = record { node = toy; qr_signing_secret = "key" }

abbrev change : ℕ → String → String → VisitorChange
change id registration_id operation = record {
  id = id;
  event_id = "e1";
  registration_id = registration_id;
  operation = operation;
  changed_at = 0;
}

abbrev journal : VisitorsDb
journal = record {
  db = staffed;
  changes =
      change 1 "r1" "UPSERT"
      ∷ change 2 "r1" "UPSERT"
      ∷ change 5 "r2" "UPSERT"
      ∷ change 9 "r2" "DELETE"
      ∷ change 12 "r1" "UPSERT"
      ∷ [];
}

abbrev from_start : StaffVisitorChangesQueryDto
from_start = record { after = none; limit = some 2 }

abbrev assigned : StaffAssignment
assigned = record {
  id = "a1";
  event_id = "e1";
  user_id = "u1";
  checkpoint_id = some "c1";
  device_id = some "d1";
  is_active = true;
  updated_at = 5;
}

unfoldable journal_runs : Unit {0}
unfolding runs insert_by_id sort_by_id rows_after has_more_rows page_rows page_limit set_change
    latest_change_by_registration effective_rows max_id parse_visitor_change_cursor
    create_compact_token_for_offline format_offline_visitor registrations_of change_item
    change_items page_response find_changes_for_staff newest_assignment distinct is_digit print_onto
    to_string read_from catch_up
journal_runs = tt

-- two rows of one registration in a page are sent as one
catch_up_test :
    catch_up config journal 4 "u1" from_start
    ≡ some (change 2 "r1" "UPSERT" ∷ change 9 "r2" "DELETE" ∷ change 12 "r1" "UPSERT" ∷ [])
unfolding journal_runs
catch_up_test = refl

cursor_test :
    find_changes_for_staff config journal "u1" (record from_start { after = some "1e3" })
    ≡ err (Exception.bad_request "after must be a non-negative integer")
unfolding journal_runs
cursor_test = refl

catch_up-last_of_example :
    (changes : List VisitorChange) × (catch_up config journal 6 "u1" from_start ≡ some changes)
    × ((id : String) → last_of id changes ≡ last_of id (pending journal.changes "e1" 0))
unfolding journal_runs
catch_up-last_of_example =
    catch_up-last_of config journal assigned "u1" 6 from_start 0 (omega arith) refl refl refl
      (omega arith)
