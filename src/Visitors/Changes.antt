-- ===== src/Visitors/Changes.antt =====
-- `findChangesForStaff` of visitors.service.ts and what it calls. The cursor and the ids of the
-- journal are texts of digits outside, and numbers inside, as `BigInt` is.
use creative_backend.Base.{
  ℕ, suc, min, max, String, Bool, not, ◌&&◌, ◌||◌, Option, none, some, List, [], ◌∷◌, ltb, eqb,
  ◌==◌, if◌then◌else◌, length, find, select, map,
}
use creative_backend.Base.Text.{is_empty, trim, every}
use creative_backend.Base.Decimal.{is_digit, to_string, read_from}
use creative_backend.Base.Result.{Result, ok, err, ◌>>=◌}
use creative_backend.Location.{distinct}
use creative_backend.Qr.{take, create_compact_qr_token}
use creative_backend.Runtime.{Runtime}
use creative_backend.Scans.Checks.{includes, or_not_found}
use creative_backend.Sessions.Guards.{newest_assignment}
use creative_backend.Store.{Db, Registration, QrToken, Exception}

-- The operation is `UPSERT` or `DELETE`.
pub record VisitorChange : Type 0 where
  pub id : ℕ
  pub event_id : String
  pub registration_id : String
  pub operation : String
  pub changed_at : ℕ

pub record VisitorsDb : Type 0 where
  pub db : Db
  pub changes : List VisitorChange

pub record StaffVisitorChangesQueryDto : Type 0 where
  pub after : Option String
  pub limit : Option ℕ

-- what the service is configured with
pub record Config : Type 0 where
  pub node : Runtime
  pub qr_signing_secret : String

-- by `id`, ascending
unfoldable pub insert_by_id : VisitorChange → List VisitorChange → List VisitorChange
insert_by_id c [] = c ∷ []
insert_by_id c (x ∷ xs) =
    let rest = insert_by_id c xs in if ltb x.id c.id then x ∷ rest else c ∷ x ∷ xs

unfoldable pub sort_by_id : List VisitorChange → List VisitorChange
unfolding insert_by_id
sort_by_id [] = []
sort_by_id (c ∷ cs) = insert_by_id c (sort_by_id cs)

-- `value?.trim() || '0'`
abbrev pub or_zero : Option String → String
or_zero none = "0"
or_zero (some s) = if is_empty (trim s) then "0" else trim s

unfoldable pub parse_visitor_change_cursor : Option String → Result Exception ℕ
parse_visitor_change_cursor value =
    let normalized = or_zero value in
    if not (is_empty normalized) && every is_digit normalized
    then ok (read_from 0 normalized)
    else err (Exception.bad_request "after must be a non-negative integer")

-- `query.limit || 500`
abbrev or_500 : Option ℕ → ℕ
or_500 none = 500
or_500 (some n) = if eqb n 0 then 500 else n

unfoldable pub page_limit : Option ℕ → ℕ
page_limit limit = min (max (or_500 limit) 1) 1000

-- the rows of the event behind a cursor, in the order of the query
unfoldable pub rows_after :
    List VisitorChange → (event_id : String) → (after : ℕ) → List VisitorChange
rows_after changes event_id after =
    sort_by_id (select (λ c. (c.event_id == event_id) && ltb after c.id) changes)

unfoldable pub has_more_rows : (limit : ℕ) → List VisitorChange → Bool
has_more_rows limit rows = ltb limit (length rows)

-- `rows` has at most `limit + 1` rows, and the page is the first `limit` of them
unfoldable pub page_rows : (limit : ℕ) → List VisitorChange → List VisitorChange
page_rows limit rows = if has_more_rows limit rows then take limit rows else rows

-- `map.set(change.registrationId, change)`
unfoldable pub set_change : VisitorChange → List VisitorChange → List VisitorChange
set_change c [] = c ∷ []
set_change c (x ∷ xs) =
    if x.registration_id == c.registration_id then c ∷ xs else x ∷ set_change c xs

unfoldable pub latest_change_by_registration :
    List VisitorChange → List VisitorChange → List VisitorChange
unfolding set_change
latest_change_by_registration acc [] = acc
latest_change_by_registration acc (c ∷ cs) = latest_change_by_registration (set_change c acc) cs

unfoldable pub effective_rows : List VisitorChange → List VisitorChange
effective_rows rows = sort_by_id (latest_change_by_registration [] rows)

abbrev pub is_upsert : VisitorChange → Bool
is_upsert c = c.operation == "UPSERT"

-- `_max: { id: true }`, with `?? 0n`
unfoldable pub max_id : List VisitorChange → ℕ
max_id [] = 0
max_id (c ∷ cs) = max c.id (max_id cs)

-- `at(-1)?.id`, or the cursor
abbrev pub last_id : ℕ → List VisitorChange → ℕ
last_id after [] = after
last_id after (c ∷ cs) = last_id c.id cs

unfoldable pub create_compact_token_for_offline : Config → String → Result Exception String
create_compact_token_for_offline config token_id =
    if is_empty (trim token_id)
    then err (Exception.bad_request "QR token ID is required")
    else elim (create_compact_qr_token config.node (trim token_id) config.qr_signing_secret) [
      | ok token ↦ ok token
      | err _ ↦ err (Exception.failure "QR token ID is required")
    ]

-- a visitor as the device keeps it: the row, and the code of its token
pub record OfflineVisitor : Type 0 where
  pub registration : Registration
  pub qr_token : Option QrToken
  pub compact_qr_token : Option String

unfoldable pub format_offline_visitor : Config → Db → Registration → Result Exception OfflineVisitor
format_offline_visitor config db registration =
    elim (find (λ t. t.registration_id == registration.id) db.qr_tokens) [
      | none ↦ ok (record { registration = registration; qr_token = none; compact_qr_token = none })
      | some token ↦ do
        compact ← create_compact_token_for_offline config token.token_id
        ok (record {
          registration = registration;
          qr_token = some token;
          compact_qr_token = some compact;
        })
    ]

pub record ChangeItem : Type 0 where
  pub change : VisitorChange
  pub visitor : Option OfflineVisitor

-- the registrations of the changes that are upserts
unfoldable pub registrations_of : Db → String → List VisitorChange → List Registration
registrations_of db event_id rows =
    let ids =
      distinct [] (map (λ (c : VisitorChange). c.registration_id) (select is_upsert rows)) in
    select (λ r. (r.event_id == event_id) && includes ids r.id) db.registrations

unfoldable pub change_item :
    Config → Db → List Registration → VisitorChange → Result Exception ChangeItem
change_item config db registrations change =
    elim (if is_upsert change
      then find (λ r. r.id == change.registration_id) registrations
      else none) [
        | none ↦ ok (record { change = change; visitor = none })
        | some registration ↦ do
          visitor ← format_offline_visitor config db registration
          ok (record { change = change; visitor = some visitor })
      ]

-- `effectiveRows.map`
unfoldable pub change_items :
    Config → Db → List Registration → List VisitorChange → Result Exception (List ChangeItem)
change_items config db registrations [] = ok []
change_items config db registrations (c ∷ cs) = do
  item ← change_item config db registrations c
  items ← change_items config db registrations cs
  ok (item ∷ items)

pub record ChangesResponse : Type 0 where
  pub event_id : String
  pub after_cursor : String
  pub next_cursor : String
  pub latest_cursor : String
  pub has_more : Bool
  pub changes : List ChangeItem

abbrev of_event : String → VisitorChange → Bool
of_event event_id c = c.event_id == event_id

unfoldable pub page_response :
    Config → VisitorsDb → (event_id : String) → (after limit : ℕ) → Result Exception ChangesResponse
unfolding rows_after has_more_rows page_rows effective_rows
page_response config s event_id after limit = do
  let rows = take (suc limit) (rows_after s.changes event_id after)
  let page = page_rows limit rows
  let effective = effective_rows page
  let registrations = registrations_of s.db event_id effective
  let next = last_id after page
  let latest = max_id (select (of_event event_id) s.changes)
  items ← change_items config s.db registrations effective
  ok (record {
    event_id = event_id;
    after_cursor = to_string after;
    next_cursor = to_string next;
    latest_cursor = to_string latest;
    has_more = has_more_rows limit rows || ltb next latest;
    changes = items;
  })

unfoldable pub find_changes_for_staff :
    Config
    → VisitorsDb
    → (user_id : String) → StaffVisitorChangesQueryDto
    → Result Exception ChangesResponse
unfolding page_response parse_visitor_change_cursor page_limit
find_changes_for_staff config s user_id query = do
  assignment ← or_not_found (newest_assignment s.db user_id) "No active staff assignment found"
  after ← parse_visitor_change_cursor query.after
  page_response config s assignment.event_id after (page_limit query.limit)
