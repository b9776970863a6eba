-- ===== src/Sessions/Single.antt =====
-- A member of staff has at most one active session, and so has a device in an event.
use creative_backend.Base.{
  ℕ, ◌≤◌, ◌≡◌, refl, String, Bool, true, [], ◌∷◌, ◌++◌, arith, ==_sound, count_where,
  count_where-append, count_where-update_le, count_where-update_zero,
}
use creative_backend.Sessions.Guards.{StartStaffSessionDto, Plan}
use creative_backend.Sessions.Start.{
  ended, end_where, is_active_of, is_active_on, touch_device, new_session, add_session,
}
use creative_backend.Store.{Db, StaffSession}

pub record HasSingleSessions (db : Db) : Type 0 where
  pub of_user : (user_id : String) → count_where (is_active_of user_id) db.staff_sessions ≤ 1
  pub on_device :
      (event_id device_id : String)
      → count_where (is_active_on event_id device_id) db.staff_sessions ≤ 1

-- `db'` has no more active sessions than `db`, for any user and on any device.
pub record HasFewer (db db' : Db) : Type 0 where
  pub of_user :
      (user_id : String)
      → count_where (is_active_of user_id) db'.staff_sessions
        ≤ count_where (is_active_of user_id) db.staff_sessions
  pub on_device :
      (event_id device_id : String)
      → count_where (is_active_on event_id device_id) db'.staff_sessions
        ≤ count_where (is_active_on event_id device_id) db.staff_sessions

pub end_where-HasFewer :
    (now : ℕ) (test : StaffSession → Bool) (db : Db) → HasFewer db (end_where now test db)
unfolding end_where
end_where-HasFewer now test db = record {
  of_user = λ u.
      count_where-update_le (is_active_of u) test (ended now) db.staff_sessions
        (λ s h. absurd (ground (arith, h)));
  on_device = λ e d.
      count_where-update_le (is_active_on e d) test (ended now) db.staff_sessions
        (λ s h. absurd (ground (arith, h)));
}

pub HasFewer-keeps : {db db' : Db} → HasFewer db db' → HasSingleSessions db → HasSingleSessions db'
HasFewer-keeps f h = record {
  of_user = λ u. omega (arith, f.of_user u, h.of_user u);
  on_device = λ e d. omega (arith, f.on_device e d, h.on_device e d);
}

pub HasFewer-trans : {a b c : Db} → HasFewer a b → HasFewer b c → HasFewer a c
HasFewer-trans f g = record {
  of_user = λ u. omega (arith, f.of_user u, g.of_user u);
  on_device = λ e d. omega (arith, f.on_device e d, g.on_device e d);
}

-- the database that `open_session` leaves
abbrev pub opened : (now : ℕ) → (id : String) → StartStaffSessionDto → Plan → Db → Db
opened now id dto plan db = touch_device now dto.device_id (
    add_session (new_session now id dto plan) (
      end_where now (is_active_on dto.event_id dto.device_id)
        (end_where now (is_active_of plan.staff_user_id) db)))

module _ (now : ℕ) (id : String) (dto : StartStaffSessionDto) (plan : Plan) (db : Db) where
  abbrev pub after_user : Db
  after_user = end_where now (is_active_of plan.staff_user_id) db

  abbrev pub after_device : Db
  after_device = end_where now (is_active_on dto.event_id dto.device_id) after_user

  fewer : HasFewer db after_device
  fewer = HasFewer-trans (end_where-HasFewer now _ db) (end_where-HasFewer now _ after_user)

  pub user_is_free : count_where (is_active_of plan.staff_user_id) after_device.staff_sessions ≡ 0
  unfolding end_where
  user_is_free =
      let free : count_where (is_active_of plan.staff_user_id) after_user.staff_sessions ≡ 0 =
        count_where-update_zero (is_active_of plan.staff_user_id) _ (ended now) db.staff_sessions
          (λ s h. h) (λ s. ground arith) in
      omega (
        arith,
        free,
        (end_where-HasFewer now (is_active_on dto.event_id dto.device_id) after_user).of_user
            plan.staff_user_id,
      )

  pub device_is_free :
      count_where (is_active_on dto.event_id dto.device_id) after_device.staff_sessions ≡ 0
  unfolding end_where
  device_is_free =
      count_where-update_zero (is_active_on dto.event_id dto.device_id) _ (ended now)
        after_user.staff_sessions (λ s h. h) (λ s. ground arith)

  -- the rows that `open_session` leaves
  pub opened_rows :
      (opened now id dto plan db).staff_sessions
      ≡ after_device.staff_sessions ++ new_session now id dto plan ∷ []
  unfolding touch_device add_session
  opened_rows = refl

  opened-count :
      (q : StaffSession → Bool)
      → count_where q after_device.staff_sessions ≤ 1
      → (q (new_session now id dto plan) ≡ true → count_where q after_device.staff_sessions ≡ 0)
      → count_where q (opened now id dto plan db).staff_sessions ≤ 1
  opened-count q few free = rw opened_rows (
      ground (
        arith,
        few,
        free,
        count_where-append q after_device.staff_sessions (new_session now id dto plan ∷ []),
      ))

  pub opened-HasSingleSessions :
      HasSingleSessions db → HasSingleSessions (opened now id dto plan db)
  unfolding new_session
  opened-HasSingleSessions h = record {
    of_user = λ u.
        opened-count (is_active_of u) (omega (arith, fewer.of_user u, h.of_user u))
          (λ e. rw (← ==_sound plan.staff_user_id u (ground (arith, e))) user_is_free);
    on_device = λ v d.
        opened-count (is_active_on v d) (omega (arith, fewer.on_device v d, h.on_device v d)) (λ e.
          rw
            (
              ← ==_sound dto.event_id v (ground (arith, e)),
              ← ==_sound dto.device_id d (ground (arith, e)),
            )
            device_is_free);
  }
