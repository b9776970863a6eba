-- ===== src/Offline/Trust.antt =====
-- What a verified offline code rests on: `verifySignedOfflineQr` of
-- modules/offline/offline-qr.service.ts.
use creative_backend.Base.{
  ℕ, ◌≤◌, ◌<◌, ◌⊎◌, String, ◌≡◌, ap, true, false, ◌&&◌, Option, none, some, arith, ltb, ◌==◌,
  ==_sound, &&_both, find_satisfies, find-Memᴰ, Memᴰ, inl, inr, Bool-cases, Option-cases,
}
use creative_backend.Base.Result.{ok, Result-cases}
use creative_backend.Base.Json.{get, get_text}
use creative_backend.Base.Text.{is_empty}
use creative_backend.Runtime.{Runtime}
use creative_backend.Offline.{
  VerifiedOfflineQr, date_of, text_is, is_version, is_revoked_key, verify_signed_offline_qr,
  find_issuer, find_issuer_key, assert_offline_qr_payload, parse_signed_offline_qr,
  assert_key_usable_for_payload,
}
use creative_backend.Store.{Db, Device, DeviceOfflineKey}

-- The key vouches for a code that was issued at the instant `issued`.
pub record CoversInstant (key : DeviceOfflineKey) (issued : ℕ) : Type 0 where
  pub begun : key.valid_from ≤ issued
  pub before_end :
      (key.valid_until ≡ none) ⊎ ((end : ℕ) × (key.valid_until ≡ some end) × (issued ≤ end))
  pub not_revoked :
      (is_revoked_key key.status ≡ false)
      ⊎ ((revoked : ℕ) × (key.revoked_at ≡ some revoked) × (issued < revoked))

-- Who signed a code: a device of the event that the code names, with the key that the code names.
pub record IsVouched (node : Runtime) (db : Db) (now : ℕ) (event_id : String)
    (qr : VerifiedOfflineQr) : Type 0 where
  pub issuer : Device
  pub key : DeviceOfflineKey
  pub issued : ℕ
  pub end : ℕ
  pub is_issuer : get_text "issuerDeviceId" qr.payload ≡ some issuer.id
  pub issuer_stored : Memᴰ issuer db.devices
  pub key_stored : Memᴰ key db.offline_keys
  pub is_key : key.device_id ≡ issuer.id
  pub is_named : is_version (get "issuerKeyVersion" qr.payload) key.version ≡ true
  pub of_event : issuer.event_id ≡ event_id
  pub for_event : get_text "eventId" qr.payload ≡ some event_id
  pub was_issued : assert_offline_qr_payload node qr.payload ≡ ok issued
  pub covers : CoversInstant key issued
  pub ends : date_of node qr.payload "validUntil" ≡ some end
  pub not_ended : now ≤ end
  pub is_signed :
      node.verify_signature
        (node.utf8 qr.encoded_payload)
        key.public_key
        (node.from_base64url qr.signature)
      ≡ true

usable-CoversInstant :
    (key : DeviceOfflineKey) (issued : ℕ)
    → assert_key_usable_for_payload key issued ≡ ok tt
    → CoversInstant key issued
unfolding assert_key_usable_for_payload
usable-CoversInstant key issued h = record {
  begun = ground (arith, h);
  before_end = elim (Option-cases key.valid_until) [
    | inl e ↦ inl e
    | inr (end, e) ↦ inr (end, e, ground (arith, h, e))
  ];
  not_revoked = elim (Bool-cases (is_revoked_key key.status)) [
    | inr e ↦ inl e
    | inl e ↦ elim (Option-cases key.revoked_at) [
      | inl r ↦ absurd (ground (arith, h, e, r))
      | inr (revoked, r) ↦ inr (revoked, r, ground (arith, h, e, r))
    ]
  ];
}

text_is_sound : (t : Option String) (s : String) → text_is t s ≡ true → t ≡ some s
text_is_sound none s h = cc
text_is_sound (some t) s h = ap some (==_sound t s h)

module _ (node : Runtime) (db : Db) (now : ℕ) (event_id : String) where
  signed-IsVouched :
      (signed : String) (qr : VerifiedOfflineQr) (issued end : ℕ) (issuer : Device)
      (key : DeviceOfflineKey)
      → is_empty event_id ≡ false
      → parse_signed_offline_qr node signed ≡ ok qr
      → assert_offline_qr_payload node qr.payload ≡ ok issued
      → date_of node qr.payload "validUntil" ≡ some end
      → find_issuer db qr.payload ≡ some issuer
      → find_issuer_key db issuer qr.payload ≡ some key
      → verify_signed_offline_qr node db now signed (some event_id) ≡ ok qr
      → IsVouched node db now event_id qr
  unfolding verify_signed_offline_qr
  signed-IsVouched signed qr issued end issuer key named parsed asserted dated found keyed h =
      let for_event : text_is (get_text "eventId" qr.payload) event_id ≡ true =
        ground (arith, named, parsed, asserted, h) in
      let of_event : text_is (get_text "eventId" qr.payload) issuer.event_id ≡ true =
        ground (arith, parsed, asserted, found, h) in
      let live : ltb end now ≡ false = ground (arith, parsed, asserted, dated, h) in
      let usable : assert_key_usable_for_payload key issued ≡ ok tt =
        ground (arith, parsed, asserted, found, keyed, h) in
      let signature : node.verify_signature (node.utf8 qr.encoded_payload) key.public_key
            (node.from_base64url qr.signature)
          ≡ true =
        ground (arith, parsed, asserted, found, keyed, h) in
      let stored = &&_both _ _ (
        find_satisfies
          (λ (k : DeviceOfflineKey).
            (k.device_id == issuer.id) && is_version (get "issuerKeyVersion" qr.payload) k.version)
          db.offline_keys key (unfold find_issuer_key in keyed)) in
      let same : get_text "eventId" qr.payload ≡ some event_id =
        text_is_sound _ event_id for_event in
      record {
        issuer = issuer;
        key = key;
        issued = issued;
        end = end;
        is_issuer = text_is_sound _ issuer.id (
            find_satisfies (λ (d : Device). text_is (get_text "issuerDeviceId" qr.payload) d.id)
              db.devices issuer (unfold find_issuer in found));
        issuer_stored =
            find-Memᴰ (λ (d : Device). text_is (get_text "issuerDeviceId" qr.payload) d.id)
              db.devices issuer (unfold find_issuer in found);
        key_stored =
            find-Memᴰ
              (λ (k : DeviceOfflineKey).
                (k.device_id == issuer.id)
                && is_version (get "issuerKeyVersion" qr.payload) k.version)
              db.offline_keys key (unfold find_issuer_key in keyed);
        is_key = ==_sound _ _ stored.0;
        is_named = stored.1;
        of_event = cc (text_is_sound _ issuer.event_id of_event);
        for_event = same;
        was_issued = asserted;
        covers = usable-CoversInstant key issued usable;
        ends = dated;
        not_ended = ground (arith, live);
        is_signed = signature;
      }

  -- A signed code that is accepted for an event that is named was issued by a stored device of that
  -- event, within the time of a stored key of that device with the version in the code, which was not
  -- revoked by then; it has not expired, and its signature verifies under that key.
  pub verify_signed_offline-IsVouched :
      (signed : String) (qr : VerifiedOfflineQr)
      → is_empty event_id ≡ false
      → verify_signed_offline_qr node db now signed (some event_id) ≡ ok qr
      → (parse_signed_offline_qr node signed ≡ ok qr) × IsVouched node db now event_id qr
  unfolding verify_signed_offline_qr
  verify_signed_offline-IsVouched signed qr named h =
      let parsed : parse_signed_offline_qr node signed ≡ ok qr = ground (arith, h) in
      (
        parsed,
        elim (Result-cases (assert_offline_qr_payload node qr.payload)) [
          | inl (e, bad) ↦ absurd (ground (arith, parsed, bad, h))
          | inr (issued, asserted) ↦ elim (Option-cases (date_of node qr.payload "validUntil")) [
            | inl bad ↦ absurd (ground (arith, parsed, asserted, bad, h))
            | inr (end, dated) ↦ elim (Option-cases (find_issuer db qr.payload)) [
              | inl bad ↦ absurd (ground (arith, parsed, asserted, bad, h))
              | inr (issuer, found) ↦ elim (Option-cases (find_issuer_key db issuer qr.payload)) [
                | inl bad ↦ absurd (ground (arith, parsed, asserted, found, bad, h))
                | inr (key, keyed) ↦
                    signed-IsVouched signed qr issued end issuer key named parsed asserted dated
                      found keyed h
              ]
            ]
          ]
        ],
      )
