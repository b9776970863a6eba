-- ===== src/Scans/SingleEntry.antt =====
-- In an event without re-entry nobody is let in twice: the invariant, and the writes that keep it.
mod Writes
pub mod Runs
use creative_backend.Base.{
  ℕ, ◌+◌, ◌≤◌, String, ◌≡◌, refl, ap, subst, sym, ◌∙◌, Bool, true, false, not, ◌&&◌, ◌||◌, Option,
  none, some, List, [], ◌∷◌, ◌++◌, arith, eqb, ◌==◌, eq_iff, if◌then◌else◌, find, count_where,
  count_where-append, find-eq-none_count, find_satisfies, ==_sound, ==_self, inl, inr, Bool-cases,
  Option-cases, &&_both,
}
use creative_backend.Base.Result.{Result, ok, err}
use creative_backend.Base.Exec.{Exec, pure, throw, gets, transaction, ◌>>=◌, ◌>>◌}
use creative_backend.Base.Json.{Fields}
use creative_backend.Scans.Checks.{
  is_entry, is_allowed, find_event, or_else, admits, is_allowed_entry, get_reentry_denial,
  get_checkpoint_access_denial, verdict, result_of,
}
use creative_backend.Scans.Records.{
  Action, CreateScanDto, create_scan, create_movement, update_scan, movement_of,
  find_scan_by_operation, create_processed_scan_and_movement, update_raw_scan_and_create_movement,
}
use creative_backend.Store.{
  Db, Event, Checkpoint, QrToken, Registration, ScanEventRaw, MovementLog, MovementType,
  MovementResult, Exception,
}

-- an event that exists and allows no second entry
abbrev pub no_re_entry : Db → String → Bool
no_re_entry db event_id = elim (find_event db event_id) [
  | none ↦ false
  | some e ↦ not e.allow_re_entry
]

-- how often a registration was let in
abbrev pub entries : Db → (event_id registration_id : String) → ℕ
entries db event_id registration_id =
    count_where (is_allowed_entry event_id registration_id) db.movements

pub record HasSingleEntry (db : Db) : Type 0 where
  pub at :
      (event_id registration_id : String)
      → no_re_entry db event_id ≡ true
      → entries db event_id registration_id ≤ 1

-- A write leaves the events alone, and adds at most one movement, of the stated kind.
pub record Adds (event registration : String) (type : MovementType) (result : MovementResult)
    (db db' : Db) : Type 0 where
  pub events : db'.events ≡ db.events
  pub counts :
      (e r : String)
      → entries db' e r
        ≤ entries db e r
          + (if (event == e) && (registration == r) && is_entry type && is_allowed result
              then 1
              else 0)

-- A write leaves events and movements alone.
pub record Spares (db db' : Db) : Type 0 where
  pub events : db'.events ≡ db.events
  pub movements : db'.movements ≡ db.movements

pub Spares-HasSingleEntry : {db db' : Db} → Spares db db' → HasSingleEntry db → HasSingleEntry db'
Spares-HasSingleEntry s v = record { at = λ e r. rw (s.events, s.movements) (v.at e r) }

create_movement-counts :
    (row : MovementLog) (db : Db) (e r : String)
    → entries (create_movement row db).1 e r
      ≤ entries db e r
        + (if (row.event_id == e)
              && (row.registration_id == r)
              && is_entry row.type
              && is_allowed row.result
            then 1
            else 0)
unfolding create_movement is_allowed_entry
create_movement-counts row db e r = ground (
  arith,
  count_where-append (is_allowed_entry e r) db.movements (record row { id = db.next_id } ∷ []),
)

create_movement-events :
    (row : MovementLog) (db : Db) → (create_movement row db).1.events ≡ db.events
unfolding create_movement
create_movement-events row db = ground arith

create_scan-Spares : (row : ScanEventRaw) (db : Db) → Spares db (create_scan row db).1
unfolding create_scan
create_scan-Spares row db = record { events = ground arith; movements = ground arith }

-- what `create_scan` returns carries the event and the type of the row
create_scan-row :
    (row : ScanEventRaw) (db : Db) (scan : ScanEventRaw)
    → (create_scan row db).0 ≡ ok scan
    → (scan.event_id ≡ row.event_id) × (scan.type ≡ row.type)
unfolding create_scan
create_scan-row row db scan h = ground arith

module _ (now : ℕ) (token : QrToken) (registration : Registration) (payload : Fields)
    (result : MovementResult) (reason : String) where
  pub create_processed-Adds :
      (dto : CreateScanDto) (db : Db)
      → Adds dto.event_id registration.id dto.type result db
          (create_processed_scan_and_movement now dto token registration payload result reason db).1
  unfolding create_processed_scan_and_movement is_allowed_entry
  create_processed-Adds dto db = record {
    events = ground arith;
    counts = λ e r. grind (arith, count_where-append);
  }

  pub update_raw-Adds :
      (scan : ScanEventRaw) (db : Db)
      → Adds scan.event_id registration.id scan.type result db
          (update_raw_scan_and_create_movement now scan token registration payload result reason
            db).1
  unfolding update_raw_scan_and_create_movement is_allowed_entry
  update_raw-Adds scan db = record {
    events = (ground arith);
    counts = λ e r. grind (arith, count_where-append);
  }

reentry-denied :
    (db : Db) (event : Event) (registration : String) (type : MovementType) (m : MovementLog)
    → event.allow_re_entry ≡ false
    → is_entry type ≡ true
    → find (is_allowed_entry event.id registration) db.movements ≡ some m
    → get_reentry_denial db event registration type ≡ some "ALREADY_ENTERED"
unfolding get_reentry_denial
reentry-denied db event registration type m closed entry found = rw (closed, entry, found)

denied_again :
    (admitted : Bool)
    → is_allowed (
        result_of (
          or_else
            (if admitted then none else some "ATTENDEE_TYPE_NOT_ALLOWED")
            (or_else (some "ALREADY_ENTERED") "ALLOWED")))
      ≡ false
unfolding result_of
denied_again true = refl
denied_again false = refl

verdict-denied :
    (db : Db) (event : Event) (checkpoint : Option Checkpoint) (code registration : String)
    (type : MovementType)
    → get_reentry_denial db event registration type ≡ some "ALREADY_ENTERED"
    → is_allowed (result_of (verdict db event checkpoint code registration type)) ≡ false
unfolding verdict
verdict-denied db event checkpoint code registration type again =
    let e : verdict db event checkpoint code registration type
        ≡ or_else (get_checkpoint_access_denial checkpoint code)
            (or_else (some "ALREADY_ENTERED") "ALLOWED") =
      ap (λ x. or_else (get_checkpoint_access_denial checkpoint code) (or_else x "ALLOWED"))
        again in
    rw e (denied_again (admits checkpoint code))

-- If the verdict lets an entry pass where there is no re-entry, then there was none before.
pub verdict-entry :
    (db : Db) (event : Event) (checkpoint : Option Checkpoint) (code registration : String)
    (type : MovementType)
    → event.allow_re_entry ≡ false
    → is_entry type ≡ true
    → is_allowed (result_of (verdict db event checkpoint code registration type)) ≡ true
    → entries db event.id registration ≡ 0
verdict-entry db event checkpoint code registration type closed entry passed =
    elim (Option-cases (find (is_allowed_entry event.id registration) db.movements)) [
      | inl first ↦ find-eq-none_count (is_allowed_entry event.id registration) db.movements first
      | inr (m, again) ↦ absurd (
          cc (
            verdict-denied db event checkpoint code registration type
              (reentry-denied db event registration type m closed entry again)))
    ]

closed-allow :
    (db : Db) (event_id : String) (event : Event)
    → find_event db event_id ≡ some event
    → no_re_entry db event_id ≡ true
    → event.allow_re_entry ≡ false
closed-allow db event_id event found closed = ground (arith, found)

-- The movement that an `Adds` may count for `e` and `r` is the first one.
first_entry :
    (db : Db) (event : Event) (checkpoint : Option Checkpoint) (code event_id registration : String)
    (type : MovementType) (e r : String)
    → find_event db event_id ≡ some event
    → no_re_entry db e ≡ true
    → ((event_id == e)
        && (registration == r)
        && is_entry type
        && is_allowed (result_of (verdict db event checkpoint code registration type)))
      ≡ true
    → entries db e r ≡ 0
first_entry db event checkpoint code event_id registration type e r found closed fits =
    let same_e : (event_id == e) ≡ true = ground arith in
    let same_r : (registration == r) ≡ true = ground arith in
    let entry : is_entry type ≡ true = ground arith in
    let passed : is_allowed (result_of (verdict db event checkpoint code registration type))
        ≡ true =
      ground arith in
    let row : event.id ≡ event_id =
      ==_sound _ _ (find_satisfies (λ (x : Event). x.id == event_id) db.events event found) in
    let at_e : event_id ≡ e = ==_sound _ _ same_e in
    let open_no =
      closed-allow db event_id event found
        (subst (λ x. no_re_entry db x ≡ true) (sym at_e) closed) in
    subst (λ x. entries db x r ≡ 0) (row ∙ at_e)
      (subst (λ x. entries db event.id x ≡ 0) (==_sound _ _ same_r)
        (verdict-entry db event checkpoint code registration type open_no entry passed))

-- A movement with the verdict's result keeps the invariant.
pub Adds-HasSingleEntry :
    {db db' : Db} (event : Event) (checkpoint : Option Checkpoint)
    (code event_id registration : String) (type : MovementType)
    → find_event db event_id ≡ some event
    → Adds event_id registration type
        (result_of (verdict db event checkpoint code registration type))
        db
        db'
    → HasSingleEntry db
    → HasSingleEntry db'
Adds-HasSingleEntry {db} {db'} event checkpoint code event_id registration type found adds v =
    record {
      at = λ e r closed.
          let closed' : no_re_entry db e ≡ true = rw adds.events at closed in
          elim (Bool-cases (
            (event_id == e)
            && (registration == r)
            && is_entry type
            && is_allowed (result_of (verdict db event checkpoint code registration type)))) [
              | inl fits ↦ ground (
                arith,
                fits,
                adds.counts e r,
                first_entry db event checkpoint code event_id registration type e r found closed'
                    fits,
              )
              | inr other ↦ ground (arith, other, adds.counts e r, v.at e r closed')
            ];
    }
