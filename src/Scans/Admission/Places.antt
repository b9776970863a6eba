-- ===== src/Scans/Admission/Places.antt =====
-- Where a scan is made, when the checks before its code is read let it through.
use creative_backend.Base.{
  String, ◌≡◌, ◌≢◌, refl, ap, true, false, Option, some, arith, inl, inr, Option-cases, ◌==◌,
  ==_sound, find-Memᴰ, find_satisfies, Memᴰ,
}
use creative_backend.Base.Result.{ok, bind_ok}
use creative_backend.Scans.Checks.{
  Place, prerequisites, given, find_event, find_device, find_session, find_checkpoint, is_archived,
  is_active_device, is_active_session, ensure_event_can_be_modified, ensure_active_device,
  ensure_active_staff_session, ensure_active_checkpoint,
}
use creative_backend.Store.{
  Db, Event, EventStatus, Device, DeviceStatus, StaffSession, StaffSessionStatus, Checkpoint,
}

-- The event is stored and not archived; the device is stored, of the event and active.
pub record IsOpen (db : Db) (event_id device_id : String) (event : Event) (device : Device)
    : Type 0 where
  pub event_stored : Memᴰ event db.events
  pub event_named : event.id ≡ event_id
  pub not_archived : event.status ≢ EventStatus.archived
  pub device_stored : Memᴰ device db.devices
  pub device_named : device.id ≡ device_id
  pub device_of_event : device.event_id ≡ event_id
  pub device_active : device.status ≡ DeviceStatus.active

-- A session that is named is stored, of the event and active.
pub record IsSessionOf (db : Db) (event_id id : String) (session : StaffSession) : Type 0 where
  pub stored : Memᴰ session db.staff_sessions
  pub named : session.id ≡ id
  pub of_event : session.event_id ≡ event_id
  pub active : session.status ≡ StaffSessionStatus.active

-- A checkpoint that is named is stored, of the event and active.
pub record IsCheckpointOf (db : Db) (event_id id : String) (checkpoint : Checkpoint) : Type 0 where
  pub stored : Memᴰ checkpoint db.checkpoints
  pub named : checkpoint.id ≡ id
  pub of_event : checkpoint.event_id ≡ event_id
  pub active : checkpoint.is_active ≡ true

device_is_active : (s : DeviceStatus) → is_active_device s ≡ true → s ≡ DeviceStatus.active
device_is_active DeviceStatus.active h = refl
device_is_active DeviceStatus.pending h = absurd (cc)
device_is_active DeviceStatus.suspended h = absurd (cc)
device_is_active DeviceStatus.revoked h = absurd (cc)

session_is_active :
    (s : StaffSessionStatus) → is_active_session s ≡ true → s ≡ StaffSessionStatus.active
session_is_active StaffSessionStatus.active h = refl
session_is_active StaffSessionStatus.ended h = absurd (cc)
session_is_active StaffSessionStatus.expired h = absurd (cc)

module _ (db : Db) (event_id : String) where
  opens :
      (device_id : String) (event : Event) (device : Device)
      → ensure_event_can_be_modified db event_id ≡ ok event
      → ensure_active_device db device_id event_id ≡ ok device
      → IsOpen db event_id device_id event device
  unfolding ensure_event_can_be_modified ensure_active_device
  opens device_id event device e d =
      let found : find_event db event_id ≡ some event = ground (arith, e) in
      let known : find_device db device_id ≡ some device = ground (arith, d) in
      let open' : is_archived event.status ≡ false = ground (arith, e, found) in
      record {
        event_stored = find-Memᴰ (λ (x : Event). x.id == event_id) db.events event found;
        event_named =
            ==_sound _ _ (find_satisfies (λ (x : Event). x.id == event_id) db.events event found);
        not_archived = λ k. absurd (cc (ap is_archived k, open'));
        device_stored = find-Memᴰ (λ (x : Device). x.id == device_id) db.devices device known;
        device_named =
            ==_sound _ _
              (find_satisfies (λ (x : Device). x.id == device_id) db.devices device known);
        device_of_event = ==_sound _ _ (ground (arith, d, known));
        device_active = device_is_active device.status (ground (arith, d, known));
      }

  session-IsSessionOf :
      (named : Option String) (id : String) (o : Option StaffSession)
      → ensure_active_staff_session db named event_id ≡ ok o
      → given named ≡ some id
      → (s : StaffSession) × (o ≡ some s) × IsSessionOf db event_id id s
  unfolding ensure_active_staff_session
  session-IsSessionOf named id o h g = elim (Option-cases (find_session db id)) [
    | inl e ↦ absurd (ground (arith, h, g, e))
    | inr (s, e) ↦ (
      s,
      ground (arith, h, g, e),
      record {
        stored = find-Memᴰ (λ (x : StaffSession). x.id == id) db.staff_sessions s e;
        named =
            ==_sound _ _ (find_satisfies (λ (x : StaffSession). x.id == id) db.staff_sessions s e);
        of_event = ==_sound _ _ (ground (arith, h, g, e));
        active = session_is_active s.status (ground (arith, h, g, e));
      },
    )
  ]

  checkpoint-IsCheckpointOf :
      (named : Option String) (id : String) (o : Option Checkpoint)
      → ensure_active_checkpoint db named event_id ≡ ok o
      → given named ≡ some id
      → (c : Checkpoint) × (o ≡ some c) × IsCheckpointOf db event_id id c
  unfolding ensure_active_checkpoint
  checkpoint-IsCheckpointOf named id o h g = elim (Option-cases (find_checkpoint db id)) [
    | inl e ↦ absurd (ground (arith, h, g, e))
    | inr (c, e) ↦ (
      c,
      ground (arith, h, g, e),
      record {
        stored = find-Memᴰ (λ (x : Checkpoint). x.id == id) db.checkpoints c e;
        named = ==_sound _ _ (find_satisfies (λ (x : Checkpoint). x.id == id) db.checkpoints c e);
        of_event = ==_sound _ _ (ground (arith, h, g, e));
        active = ground (arith, h, g, e);
      },
    )
  ]

-- What the place of a scan is, whatever the checks are written with.
pub record IsPlaced (db : Db) (event_id device_id : String)
    (staff_session_id checkpoint_id : Option String) (place : Place) : Type 0 where
  pub opened : IsOpen db event_id device_id place.event place.device
  pub session :
      (id : String)
      → given staff_session_id ≡ some id
      → (s : StaffSession) × (place.session ≡ some s) × IsSessionOf db event_id id s
  pub checkpoint :
      (id : String)
      → given checkpoint_id ≡ some id
      → (c : Checkpoint) × (place.checkpoint ≡ some c) × IsCheckpointOf db event_id id c

pub prerequisites-IsPlaced :
    (db : Db) (event_id device_id : String) (staff_session_id checkpoint_id : Option String)
    (place : Place)
    → prerequisites db event_id device_id staff_session_id checkpoint_id ≡ ok place
    → IsPlaced db event_id device_id staff_session_id checkpoint_id place
unfolding prerequisites
prerequisites-IsPlaced db event_id device_id staff_session_id checkpoint_id place h =
    let event = bind_ok (ensure_event_can_be_modified db event_id) _ h in
    let device = bind_ok (ensure_active_device db device_id event_id) _ event.2 in
    let session = bind_ok (ensure_active_staff_session db staff_session_id event_id) _ device.2 in
    let point = bind_ok (ensure_active_checkpoint db checkpoint_id event_id) _ session.2 in
    let made : place
        ≡ record { event = event.0; device = device.0; session = session.0; checkpoint = point.0 } =
      ground (arith, point.2) in
    rw made (record {
      opened = opens db event_id device_id event.0 device.0 event.1 device.1;
      session = λ id g. session-IsSessionOf db event_id staff_session_id id session.0 session.1 g;
      checkpoint = λ id g. checkpoint-IsCheckpointOf db event_id checkpoint_id id point.0 point.1 g;
    })
