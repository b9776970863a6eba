-- ===== src/Sessions/Again.antt =====
-- `startMySession` again goes on with the session that the first call answered with.
use creative_backend.Base.{
  ℕ, ◌≡◌, refl, sym, ap, String, Bool, true, false, not, ◌||◌, Option, none, some, List, [], ◌∷◌,
  ◌++◌, arith, ==_self, ==_sound, find, all, update, ◌==◌, Bool-cases, inl, inr, Memᴰ,
}
use mathlib.Core.Option
use creative_backend.Base.Queries.{
  first_by-all, all-select, all-select_self, first_by-select, update-Memᴰ,
}
use creative_backend.Base.Result.{ok}
use creative_backend.Sessions.Guards.{AuthUser, MyPlan, plan_my_session, ensure_staff_user, plan_at}
use creative_backend.Sessions.Start.{
  ended, end_where, is_active_of, touch_device, is_reusable, find_reusable, is_superfluous, seen,
  seen_later, refresh_session, go_on,
}
use creative_backend.Sessions.Admitted.{touch, find_touched}
use creative_backend.Store.{Db, Device, StaffAssignment, Checkpoint, StaffSession}

-- The plan of `startMySession` reads nothing that a start, or going on, changes.
pub record IsSettled (now : ℕ) (device_id : String) (db db' : Db) : Type 0 where
  pub users : db'.users ≡ db.users
  pub assignments : db'.staff_assignments ≡ db.staff_assignments
  pub checkpoints : db'.checkpoints ≡ db.checkpoints
  pub devices :
      db'.devices
      ≡ update (λ d. d.id == device_id) (λ d. record d { last_seen_at = some now }) db.devices

status-touch : (now : ℕ) (id : String) (d : Device) → (touch now id d).status ≡ d.status
status-touch now id d = ground arith

plan_at-touch :
    (now : ℕ) (id : String) (a : StaffAssignment) (checkpoint_id : String) (c : Checkpoint)
    (device_id : String) (o : Option Device)
    → plan_at a checkpoint_id c device_id (Option.map (touch now id) o)
      ≡ plan_at a checkpoint_id c device_id o
unfolding plan_at
plan_at-touch now id a checkpoint_id c device_id none = refl
plan_at-touch now id a checkpoint_id c device_id (some d) = rw status-touch refl

pub plan_settled :
    (now : ℕ) (device_id : String) (db db' : Db) (user : AuthUser) (plan : MyPlan)
    → IsSettled now device_id db db'
    → plan_my_session db user ≡ ok plan
    → plan_my_session db' user ≡ ok plan
unfolding plan_my_session ensure_staff_user
plan_settled now device_id db db' user plan s h =
    simp (s.users, s.assignments, s.checkpoints, s.devices, find_touched, plan_at-touch) h

-- The sessions of `db'` have no active one of the user but those with the id.
abbrev pub is_only : AuthUser → String → StaffSession → Bool
is_only user id s = not (is_active_of user.id s) || (s.id == id)

-- What a call of `startMySession` that answered with `session` leaves behind.
pub record IsOnly (user : AuthUser) (plan : MyPlan) (session : StaffSession) (db : Db)
    : Type 0 where
  pub only : all (is_only user session.id) db.staff_sessions ≡ true
  pub stored : (s : StaffSession) × Memᴰ s db.staff_sessions × (is_reusable user plan s ≡ true)

-- the session that is found is the only one
pub find_reusable-IsOnly :
    (user : AuthUser) (plan : MyPlan) (session : StaffSession) (db : Db)
    → IsOnly user plan session db
    → (s : StaffSession) × (find_reusable user plan db ≡ some s) × (s.id ≡ session.id)
unfolding find_reusable
find_reusable-IsOnly user plan session db h =
    let (s, stored, fits) = h.stored in
    let (y, found) =
      first_by-select seen_later (is_reusable user plan) db.staff_sessions s stored fits in
    let reusable : is_reusable user plan y ≡ true =
      first_by-all seen_later (is_reusable user plan) _ y (all-select_self _ db.staff_sessions)
        found in
    let only : is_only user session.id y ≡ true =
      first_by-all seen_later (is_only user session.id) _ y
        (all-select _ (is_reusable user plan) db.staff_sessions h.only) found in
    let same : (y.id == session.id) ≡ true = unfold is_reusable in ground (arith, reusable, only) in
    (y, found, ==_sound y.id session.id same)

module _ (user : AuthUser) (plan : MyPlan) (id : String) (now : ℕ) where
  gone_on-is_only :
      (xs : List StaffSession)
      → all (is_only user id) (
          update (λ r. r.id == id) (seen now) (update (is_superfluous user plan id) (ended now) xs))
        ≡ true
  unfolding is_superfluous
  gone_on-is_only [] = refl
  gone_on-is_only (x ∷ xs) = ground (arith, gone_on-is_only xs)

  pub opened-is_only :
      (test : StaffSession → Bool) (new : StaffSession) (xs : List StaffSession)
      → new.id ≡ id
      → all
          (is_only user id)
          (update test (ended now) (update (is_active_of user.id) (ended now) xs) ++ new ∷ [])
        ≡ true
  opened-is_only test new [] e = rw e (rw (==_self id) (ground arith))
  opened-is_only test new (x ∷ xs) e = ground (arith, opened-is_only test new xs e)

-- What a call of `startMySession` leaves, for the next one.
pub record Leaves (now : ℕ) (user : AuthUser) (plan : MyPlan) (session : StaffSession) (db db' : Db)
    : Type 0 where
  pub settled : IsSettled now plan.device_id db db'
  pub only : IsOnly user plan session db'

Memᴰ-find :
    (s : StaffSession) (xs : List StaffSession)
    → Memᴰ s xs
    → (r : StaffSession) × (find (λ x. x.id == s.id) xs ≡ some r) × (r.id ≡ s.id)
Memᴰ-find s [] m = elim m [ ]
Memᴰ-find s (x ∷ xs) (Memᴰ.head e) = (x, rw e (rw (==_self x.id) refl), ap (λ y. y.id) (sym e))
Memᴰ-find s (x ∷ xs) (Memᴰ.tail m) = elim (Bool-cases (x.id == s.id)) [
  | inl e ↦ (x, rw e refl, ==_sound x.id s.id e)
  | inr e ↦ let (r, found, same) = Memᴰ-find s xs m in (r, rw e found, same)
]

-- going on ends the others, and leaves the session as it was but for the time
module _ (now : ℕ) (user : AuthUser) (plan : MyPlan) (s : StaffSession) (db : Db) where
  abbrev pub spared : Db
  spared = end_where now (is_superfluous user plan s.id) db

  abbrev pub gone_on : Db
  gone_on = touch_device now plan.device_id (record spared {
    staff_sessions = update (λ r. r.id == s.id) (seen now) spared.staff_sessions;
  })

  spared-Memᴰ : Memᴰ s db.staff_sessions → Memᴰ s spared.staff_sessions
  unfolding end_where
  spared-Memᴰ m =
      let kept : is_superfluous user plan s.id s ≡ false =
        unfold is_superfluous in ground (arith, ==_self s.id) in
      rw kept at (update-Memᴰ (is_superfluous user plan s.id) (ended now) s db.staff_sessions m)

  pub go_on_lem :
      Memᴰ s db.staff_sessions
      → (r : StaffSession) × (go_on now user plan s db ≡ (ok (seen now r), gone_on)) × (r.id ≡ s.id)
  unfolding go_on refresh_session
  go_on_lem m =
      let (r, found, same) = Memᴰ-find s spared.staff_sessions (spared-Memᴰ m) in
      (r, ground (arith, found), same)

  pub go_on-Leaves :
      (session : StaffSession)
      → Memᴰ s db.staff_sessions
      → is_reusable user plan s ≡ true
      → session.id ≡ s.id
      → Leaves now user plan session db gone_on
  unfolding end_where touch_device
  go_on-Leaves session m fits same = record {
    settled = record { users = refl; assignments = refl; checkpoints = refl; devices = refl };
    only = record {
      only = rw same (gone_on-is_only user plan s.id now db.staff_sessions);
      stored = (
        seen now s,
        rw (==_self s.id) at
            (update-Memᴰ (λ r. r.id == s.id) (seen now) s spared.staff_sessions (spared-Memᴰ m)),
        unfold is_reusable in fits,
      );
    };
  }
