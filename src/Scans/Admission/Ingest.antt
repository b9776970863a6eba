-- ===== src/Scans/Admission/Ingest.antt =====
-- What holds when `ingest` answers that a scan is allowed.
use creative_backend.Base.{◌≡◌, true, false}
use creative_backend.Base.Result.{Result}
use creative_backend.Scans.Checks.{Place, is_entry, admits}
use creative_backend.Scans.Context.{Env}
use creative_backend.Scans.Records.{CreateScanDto}
use creative_backend.Scans.SingleEntry.{entries}
use creative_backend.Base.Text.{trim}
use creative_backend.Scans.Admission.{IsAdmissible, StandsFor}
use creative_backend.Scans.Admission.Places.{IsPlaced}
use creative_backend.Store.{Db, QrToken, Registration}

-- The grounds on which a scan is allowed.
pub record IsAdmitted (env : Env) (dto : CreateScanDto) (db : Db) : Type 0 where
  pub place : Place
  pub token : QrToken
  pub registration : Registration
  pub placed : IsPlaced db dto.event_id dto.device_id dto.staff_session_id dto.checkpoint_id place
  pub stands : StandsFor env db dto.event_id (trim dto.qr_token) token
  pub admissible : IsAdmissible db env.now dto.event_id token registration
  pub admitted : admits place.checkpoint registration.attendee_type_code ≡ true
  pub first :
      is_entry dto.type ≡ true
      → place.event.allow_re_entry ≡ false
      → entries db place.event.id registration.id ≡ 0
