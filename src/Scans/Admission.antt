-- ===== src/Scans/Admission.antt =====
-- What has been checked when a scan is allowed.
pub mod Places
pub mod Ingest
use creative_backend.Base.{
  ℕ, ◌≤◌, String, ◌≡◌, refl, subst, sym, ap, ◌∙◌, &&_both, Bool, true, false, not, ◌&&◌, ◌||◌,
  Option, none, some, List, [], ◌∷◌, arith, ltb, ◌==◌, inl, inr, Option-cases, Bool-cases, find,
  find-Memᴰ, find_satisfies, ==_sound, if◌then◌else◌, Memᴰ,
}
use text.Mathlib.Text.{starts_with}
use creative_backend.Base.Result.{Result, ok, err}
use creative_backend.Base.Json.{Fields, str, field, end, get_text}
use creative_backend.Base.Text.{is_empty, trim, trim-trim}
use creative_backend.Qr.{QrError, verify_signed_qr_token, verify_compact_qr_token}
use creative_backend.Offline.{verify_signed_offline_qr, text_is, VerifiedOfflineQr}
use creative_backend.Scans.Checks.{given}
use creative_backend.Scans.Context.{
  Env, QrContext, valid, pending_offline, pending_reference, invalid, StoredQrToken, find_stored,
  check_stored, validate_payload, validate_mapped_reference, validate_offline_reference_qr_for_scan,
  validate_offline_qr_for_scan, read_signed, validate_qr_for_scan, or_blank, differs, is_mapped,
  is_canonical, reference_payload, set_field, resolved, find_mapping, matches_if_given, is_revoked,
  is_expired, is_active_registration,
}
use creative_backend.Store.{
  Db, QrToken, Registration, OfflineRegistrationMapping, MappingStatus, Exception,
}

-- A stored token that admits its registration to an event at an instant.
pub record IsAdmissible (db : Db) (now : ℕ) (event_id : String) (token : QrToken)
    (registration : Registration) : Type 0 where
  pub stored : Memᴰ token db.qr_tokens
  pub registered : Memᴰ registration db.registrations
  pub owner : registration.id ≡ token.registration_id
  pub same_event : token.event_id ≡ event_id
  pub not_revoked : is_revoked token.status ≡ false
  pub not_expired : is_expired token.status ≡ false
  pub begun : token.valid_from ≤ now
  pub not_over : now ≤ token.valid_until
  pub is_active : is_active_registration registration.status ≡ true

-- How a text stands for a stored token: it is a signed code of the server that names the token, in
-- either format, or a device's mapping with a registration leads from it to a token of that
-- registration.
pub data StandsFor (env : Env) (db : Db) (event_id qr : String) (token : QrToken) : Type 0 where
  signed :
      (payload : Fields)
      → verify_signed_qr_token env.node qr env.qr_signing_secret ≡ ok payload
      → or_blank (get_text "tokenId" payload) ≡ token.token_id
      → StandsFor env db event_id qr token
  compact :
      verify_compact_qr_token env.node qr env.qr_signing_secret ≡ ok token.token_id
      → StandsFor env db event_id qr token
  reference :
      (mapping : OfflineRegistrationMapping)
      → Memᴰ mapping db.mappings
      → mapping.offline_qr_token ≡ qr
      → mapping.event_id ≡ event_id
      → given mapping.registration_id ≡ some token.registration_id
      → StandsFor env db event_id qr token
  offline :
      (verified : VerifiedOfflineQr) (mapping : OfflineRegistrationMapping)
      → verify_signed_offline_qr env.node db env.now qr (some event_id) ≡ ok verified
      → Memᴰ mapping db.mappings
      → mapping.offline_qr_token ≡ or_blank (get_text "offlineQrToken" verified.payload)
      → given mapping.registration_id ≡ some token.registration_id
      → StandsFor env db event_id qr token

resolved-some :
    (o : Option OfflineRegistrationMapping) (mapping : OfflineRegistrationMapping) (id : String)
    → resolved o ≡ some (mapping, id)
    → (o ≡ some mapping) × (given mapping.registration_id ≡ some id)
resolved-some none mapping id h = absurd (cc)
resolved-some (some m) mapping id h = elim (Option-cases (given m.registration_id)) [
  | inl e ↦ absurd (ground (arith, h, e))
  | inr (x, e) ↦ (ground (arith, h, e), ground (arith, h, e))
]

find_stored-some :
    (db : Db) (test : QrToken → Bool) (s : StoredQrToken)
    → find_stored db test ≡ some s
    → (find test db.qr_tokens ≡ some s.token)
      × (find (λ r. r.id == s.token.registration_id) db.registrations ≡ some s.registration)
unfolding find_stored
find_stored-some db test s h = ground arith

module _ (db : Db) (now : ℕ) (event_id : String) (token : QrToken) (registration : Registration)
    (p : Fields) where
  check_stored-valid :
      (mismatch : Bool) (s : StoredQrToken) (payload accepted : Fields) (test : QrToken → Bool)
      → find_stored db test ≡ some s
      → check_stored now mismatch s payload accepted ≡ valid token registration p
      → (mismatch ≡ false → s.token.event_id ≡ event_id)
      → IsAdmissible db now event_id token registration × (test token ≡ true)
  unfolding check_stored
  check_stored-valid mismatch s payload accepted test found h event =
      let (t, r) = find_stored-some db test s found in
      let stored_t = find-Memᴰ test db.qr_tokens s.token t in
      let stored_r =
        find-Memᴰ (λ r. r.id == s.token.registration_id) db.registrations s.registration r in
      let owned =
        ==_sound _ _ (
          find_satisfies (λ r. r.id == s.token.registration_id) db.registrations s.registration
            r) in
      let base : IsAdmissible db now event_id s.token s.registration = record {
        stored = stored_t;
        registered = stored_r;
        owner = owned;
        same_event = event (ground arith);
        not_revoked = ground arith;
        not_expired = ground arith;
        begun = ground arith;
        not_over = ground arith;
        is_active = ground arith;
      } in
      let same_t : s.token ≡ token = ground arith in
      let same_r : s.registration ≡ registration = ground arith in
      (
        subst (λ x. IsAdmissible db now event_id x registration) same_t
            (subst (λ y. IsAdmissible db now event_id s.token y) same_r base),
        subst (λ x. test x ≡ true) same_t (find_satisfies test db.qr_tokens s.token t),
      )

module _ (env : Env) (db : Db) (event_id : String) (token : QrToken) (registration : Registration)
    (p : Fields) where
  payload-IsAdmissible :
      (payload : Fields)
      → validate_payload env db payload event_id ≡ valid token registration p
      → IsAdmissible db env.now event_id token registration
        × (or_blank (get_text "tokenId" payload) ≡ token.token_id)
  unfolding validate_payload
  payload-IsAdmissible payload h =
      elim (Option-cases
        (find_stored db (λ t. t.token_id == or_blank (get_text "tokenId" payload)))) [
          | inl e ↦ absurd (ground (arith, e))
          | inr (s, e) ↦
              let other =
                not (s.token.event_id == event_id)
                || differs (get_text "eventId" payload) event_id
                || differs (get_text "registrationId" payload) s.token.registration_id in
              let (a, named) =
                check_stored-valid db env.now event_id token registration p other s payload payload
                  (λ t. t.token_id == or_blank (get_text "tokenId" payload)) e (ground (arith, e))
                  (λ m. ==_sound _ _ (ground arith)) in
              (a, sym (==_sound _ _ named))
        ]

  mapped-IsAdmissible :
      (mapping : OfflineRegistrationMapping) (registration_id code : String)
      → validate_mapped_reference env db mapping registration_id code event_id
        ≡ valid token registration p
      → IsAdmissible db env.now event_id token registration
        × (registration_id ≡ token.registration_id)
  unfolding validate_mapped_reference
  mapped-IsAdmissible mapping registration_id code h =
      elim (Option-cases (find_stored db (is_canonical mapping registration_id))) [
        | inl e ↦ absurd (ground (arith, e))
        | inr (s, e) ↦
            let (a, named) =
              check_stored-valid db env.now event_id token registration p
                (not (s.token.event_id == event_id)) s (reference_payload code)
                (set_field "registrationId" (str s.token.registration_id)
                  (set_field "canonicalTokenId" (str s.token.token_id) (reference_payload code)))
                (is_canonical mapping registration_id) e (ground (arith, e))
                (λ m. ==_sound _ _ (ground arith)) in
            (a, sym (==_sound _ _ (&&_both _ _ named).0))
      ]

  reference-IsAdmissible :
      (text : String)
      → validate_offline_reference_qr_for_scan env db text event_id ≡ valid token registration p
      → IsAdmissible db env.now event_id token registration
        × StandsFor env db event_id (trim text) token
  unfolding validate_offline_reference_qr_for_scan
  reference-IsAdmissible text h = elim (Option-cases (find_mapping db (trim text))) [
    | inl e ↦ absurd (ground (arith, e))
    | inr (mapping, e) ↦ elim (Option-cases (given mapping.registration_id)) [
      | inl g ↦ absurd (ground (arith, e, g))
      | inr (id, g) ↦
          let (a, owned) = mapped-IsAdmissible mapping id (trim text) (ground (arith, e, g)) in
          let test = λ (m : OfflineRegistrationMapping). m.offline_qr_token == trim text in
          (
            a,
            reference mapping (find-Memᴰ test db.mappings mapping e)
                (==_sound _ _ (find_satisfies test db.mappings mapping e))
                (==_sound _ _ (ground (arith, e, g))) (g ∙ ap some owned),
          )
    ]
  ]

  offline-IsAdmissible :
      (qr : String)
      → validate_offline_qr_for_scan env db qr event_id ≡ ok (valid token registration p)
      → IsAdmissible db env.now event_id token registration × StandsFor env db event_id qr token
  unfolding validate_offline_qr_for_scan
  offline-IsAdmissible qr h = go _ _ refl refl
    where
      resolves : Result Exception VerifiedOfflineQr → Option (OfflineRegistrationMapping × String)
      resolves (ok verified) =
          resolved (find_mapping db (or_blank (get_text "offlineQrToken" verified.payload)))
      resolves (err x) = none

      go :
          (v : Result Exception VerifiedOfflineQr)
          (r : Option (OfflineRegistrationMapping × String))
          → verify_signed_offline_qr env.node db env.now qr (some event_id) ≡ v
          → resolves v ≡ r
          → IsAdmissible db env.now event_id token registration × StandsFor env db event_id qr token
      go (err x) r ev er = absurd (ground (arith, ev))
      go (ok v) none ev er = absurd (ground (arith, ev, er))
      go (ok v) (some (mapping, id)) ev er =
          elim (Option-cases (find_stored db (is_mapped mapping id))) [
            | inl e ↦ absurd (ground (arith, ev, er, e))
            | inr (s, e) ↦
                let other =
                  not (s.token.event_id == event_id)
                  || not (text_is (get_text "eventId" v.payload) event_id)
                  || not (
                      text_is (get_text "attendeeTypeId" v.payload)
                        s.registration.attendee_type_id) in
                let (a, named) =
                  check_stored-valid db env.now event_id token registration p other s v.payload
                    (set_field "canonicalTokenId" (str s.token.token_id)
                      (set_field "inputType" (str "OFFLINE_SIGNED") v.payload))
                    (is_mapped mapping id) e (ground (arith, ev, er, e))
                    (λ m. ==_sound _ _ (ground arith)) in
                let name = or_blank (get_text "offlineQrToken" v.payload) in
                let test = λ (m : OfflineRegistrationMapping). m.offline_qr_token == name in
                let (found, given') = resolved-some (find_mapping db name) mapping id er in
                (
                  a,
                  offline v mapping ev (find-Memᴰ test db.mappings mapping found)
                      (==_sound _ _ (find_satisfies test db.mappings mapping found))
                      (given' ∙ ap some (sym (==_sound _ _ (&&_both _ _ named).1))),
                )
          ]

  read_signed-IsAdmissible :
      (qr : String)
      → read_signed env db qr event_id ≡ valid token registration p
      → IsAdmissible db env.now event_id token registration × StandsFor env db event_id qr token
  read_signed-IsAdmissible qr h = go _ _ _ refl refl refl
    where
      go :
          (a : Result QrError Fields) (b : Result QrError String) (c : Result Exception QrContext)
          → verify_signed_qr_token env.node qr env.qr_signing_secret ≡ a
          → verify_compact_qr_token env.node qr env.qr_signing_secret ≡ b
          → validate_offline_qr_for_scan env db qr event_id ≡ c
          → IsAdmissible db env.now event_id token registration × StandsFor env db event_id qr token
      go (ok payload) b c ea eb ec =
          let (a, named) =
            payload-IsAdmissible payload (unfold read_signed in ground (arith, ea)) in
          (a, signed payload ea named)
      go (err x) (ok id) c ea eb ec =
          let (a, named) =
            payload-IsAdmissible (field "tokenId" (str id) end)
              (unfold read_signed in ground (arith, ea, eb)) in
          (a, compact (eb ∙ ap ok named))
      go (err x) (err y) (ok context) ea eb ec =
          offline-IsAdmissible qr (unfold read_signed in ground (arith, ea, eb, ec))
      go (err x) (err y) (err z) ea eb ec =
          absurd (unfold read_signed in ground (arith, ea, eb, ec))

  -- A reading is valid only for a stored token of the event that the text stands for, that is neither
  -- revoked nor expired nor out of its period, and whose registration is active.
  pub validate_qr-IsAdmissible :
      (qr : String)
      → validate_qr_for_scan env db qr event_id ≡ valid token registration p
      → IsAdmissible db env.now event_id token registration
        × StandsFor env db event_id (trim qr) token
  unfolding validate_qr_for_scan
  validate_qr-IsAdmissible qr h = elim (Bool-cases (is_empty (trim qr))) [
    | inl blank ↦ absurd (ground (arith, blank))
    | inr some' ↦ elim (Bool-cases (starts_with (trim qr) "O2.")) [
      | inl referring ↦
          let (a, b) = reference-IsAdmissible (trim qr) (ground (arith, some', referring)) in
          (a, subst (λ t. StandsFor env db event_id t token) (trim-trim qr) b)
      | inr signed' ↦ read_signed-IsAdmissible (trim qr) (ground (arith, some', signed'))
    ]
  ]
