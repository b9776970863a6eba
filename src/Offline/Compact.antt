-- ===== src/Offline/Compact.antt =====
-- The compact payload, version 2, of offline codes: what `normalizeOfflineQrPayload` lets through.
mod Tests
use creative_backend.Base.{
  ℕ, zero, suc, ap, ◌*◌, ◌<◌, ◌≤◌, String, ◌≡◌, refl, sym, Bool, true, false, Option, none, some,
  List, arith, leb, ltb, inl, inr, Option-cases,
}
use creative_backend.Base.Result.{Result, ok, err, ◌>>=◌, ◌>>◌, throw_if}
use creative_backend.Base.Json.{Json, nat, str, Items, nil, cons, Fields}
use creative_backend.Base.Text.{is_empty, trim}
use creative_backend.Runtime.{Runtime}
use creative_backend.Offline.Payload.{
  filled_text, positive, normalize_compact, compact_payload, assert_offline_qr_payload,
  require_fields,
}
use creative_backend.Offline.{date_of}
use creative_backend.Store.{Exception}

-- What the documentation of `Date` says of instants in its range: `toISOString` gives a text that is
-- not blank and that parses to the same instant.
pub record IsIso (node : Runtime) : Type 0 where
  pub filled : (t : ℕ) → t ≤ 8640000000000000 → is_empty (trim (node.to_iso_string t)) ≡ false
  pub parses : (t : ℕ) → t ≤ 8640000000000000 → node.parse_date (node.to_iso_string t) ≡ some t

-- the element with an index, from 0
abbrev pub element : ℕ → Items → Option Json
element n nil = none
element zero (cons v items) = some v
element (suc n) (cons v items) = element n items

positive-eq : (v : Json) (n : ℕ) → positive v ≡ some n → v ≡ nat n
positive-eq v n h = ground (arith, h)

filled_text-eq : (v : Json) (s : String) → filled_text v ≡ some s → is_empty (trim s) ≡ false
filled_text-eq v s h = ground (arith, h)

module _ (node : Runtime) (laws : IsIso node) where
  compact_payload-asserts :
      (event device operation token attendee : String) (version issued until : ℕ)
      → is_empty (trim event) ≡ false
      → is_empty (trim device) ≡ false
      → is_empty (trim operation) ≡ false
      → is_empty (trim token) ≡ false
      → is_empty (trim attendee) ≡ false
      → issued * 1000 ≤ 8640000000000000
      → until * 1000 ≤ 8640000000000000
      → assert_offline_qr_payload node
          (compact_payload node event device operation token attendee version issued until)
        ≡ ok (issued * 1000)
  unfolding assert_offline_qr_payload require_fields trim
  compact_payload-asserts event device operation token attendee version issued until e d o t a le
        le' =
      ground (
        arith,
        e,
        d,
        o,
        t,
        a,
        le,
        laws.filled (issued * 1000) le,
        laws.filled (until * 1000) le',
        laws.parses (issued * 1000),
      )

  nine-asserts :
      (version event device operation token attendee key issued until : Json) (payload : Fields)
      → normalize_compact node (
          cons version (
            cons event (
              cons device (
                cons key
                  (cons operation (cons token (cons attendee (cons issued (cons until nil)))))))))
        ≡ ok payload
      → (i : ℕ) × (u : ℕ) × (issued ≡ nat i)
        × (until ≡ nat u)
        × (assert_offline_qr_payload node payload ≡ ok (i * 1000))
        × (date_of node payload "validUntil" ≡ some (u * 1000))
        × (i < u)
  unfolding normalize_compact
  nine-asserts version event device operation token attendee key issued until payload h =
      elim (Option-cases (filled_text event)) [
        | inl bad ↦ absurd (ground (arith, bad, h))
        | inr (e, ee) ↦ elim (Option-cases (filled_text device)) [
          | inl bad ↦ absurd (ground (arith, ee, bad, h))
          | inr (d, ed) ↦ elim (Option-cases (filled_text operation)) [
            | inl bad ↦ absurd (ground (arith, ee, ed, bad, h))
            | inr (o, eo) ↦ elim (Option-cases (filled_text token)) [
              | inl bad ↦ absurd (ground (arith, ee, ed, eo, bad, h))
              | inr (t, et) ↦ elim (Option-cases (filled_text attendee)) [
                | inl bad ↦ absurd (ground (arith, ee, ed, eo, et, bad, h))
                | inr (a, ea) ↦ elim (Option-cases (positive key)) [
                  | inl bad ↦ absurd (ground (arith, ee, ed, eo, et, ea, bad, h))
                  | inr (k, ek) ↦ elim (Option-cases (positive issued)) [
                    | inl bad ↦ absurd (ground (arith, ee, ed, eo, et, ea, ek, bad, h))
                    | inr (i, ei) ↦ elim (Option-cases (positive until)) [
                      | inl bad ↦ absurd (ground (arith, ee, ed, eo, et, ea, ek, ei, bad, h))
                      | inr (u, eu) ↦
                          let built : compact_payload node e d o t a k i u ≡ payload =
                            ground (arith, ee, ed, eo, et, ea, ek, ei, eu, h) in
                          let early : i * 1000 ≤ 8640000000000000 =
                            ground (arith, ee, ed, eo, et, ea, ek, ei, eu, h) in
                          let late : u * 1000 ≤ 8640000000000000 =
                            ground (arith, ee, ed, eo, et, ea, ek, ei, eu, h) in
                          let before : i < u = ground (arith, ee, ed, eo, et, ea, ek, ei, eu, h) in
                          (
                            i,
                            u,
                            positive-eq issued i ei,
                            positive-eq until u eu,
                            rw (sym built) (
                                compact_payload-asserts e d o t a k i u (filled_text-eq event e ee)
                                  (filled_text-eq device d ed) (filled_text-eq operation o eo)
                                  (filled_text-eq token t et) (filled_text-eq attendee a ea) early
                                  late),
                            rw (sym built) (laws.parses (u * 1000) late),
                            before,
                          )
                    ]
                  ]
                ]
              ]
            ]
          ]
        ]
      ]

  -- A compact payload that is normalised has whole numbers of seconds as its eighth and its ninth
  -- element. It passes every later check of the payload, with the instant of the eighth as that of its
  -- issue; it is valid until the instant of the ninth, which comes after.
  pub normalize_compact-asserts :
      (items : Items) (payload : Fields)
      → normalize_compact node items ≡ ok payload
      → (issued : ℕ) × (until : ℕ) × (element 7 items ≡ some (nat issued))
        × (element 8 items ≡ some (nat until))
        × (assert_offline_qr_payload node payload ≡ ok (issued * 1000))
        × (date_of node payload "validUntil" ≡ some (until * 1000))
        × (issued < until)
  unfolding normalize_compact
  normalize_compact-asserts nil payload h = absurd (cc)
  normalize_compact-asserts (cons v nil) payload h = absurd (cc)
  normalize_compact-asserts (cons v (cons e nil)) payload h = absurd (cc)
  normalize_compact-asserts (cons v (cons e (cons d nil))) payload h = absurd (cc)
  normalize_compact-asserts (cons v (cons e (cons d (cons k nil)))) payload h = absurd (cc)
  normalize_compact-asserts (cons v (cons e (cons d (cons k (cons o nil))))) payload h = absurd (cc)
  normalize_compact-asserts (cons v (cons e (cons d (cons k (cons o (cons t nil)))))) payload h =
      absurd (cc)
  normalize_compact-asserts (cons v (cons e (cons d (cons k (cons o (cons t (cons a nil)))))))
        payload h =
      absurd (cc)
  normalize_compact-asserts
        (cons v (cons e (cons d (cons k (cons o (cons t (cons a (cons i nil)))))))) payload h =
      absurd (cc)
  normalize_compact-asserts
        (cons v (cons e (cons d (cons k (cons o (cons t (cons a (cons i (cons u nil))))))))) payload
        h =
      let (is, us, ei, eu, asserted, dated, before) = nine-asserts v e d o t a k i u payload h in
      (is, us, ap some ei, ap some eu, asserted, dated, before)
  normalize_compact-asserts
        (cons v
          (cons e (cons d (cons k (cons o (cons t (cons a (cons i (cons u (cons x rest))))))))))
        payload h =
      absurd (cc)
