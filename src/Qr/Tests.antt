-- ===== src/Qr/Tests.antt =====
-- Runs of the token functions over a toy runtime, and instances of the theorems.
use creative_backend.Base.{String, ◌≡◌, refl, ◌↔◌, true, some, arith}
use Prim.Native.String.{◌++◌}
use creative_backend.Base.Result.{ok, err, ◌>>=◌}
use creative_backend.Base.Json.{obj}
use creative_backend.Base.Text.{trim}
use creative_backend.Qr.{
  QrError, payload_fields, sign_encoded_payload, decode_base64_url, create_signed_qr_token,
  verify_signed_qr_token, create_compact_qr_token, verify_compact_qr_token, is_complete,
}
use creative_backend.Qr.Compact.{IsTokenId, compact_text, verify_compact-create, verify_compact_iff}
use creative_backend.Qr.Signed.{verify_signed_sound, verify_signed-compact, verify_signed-create}
use creative_backend.Qr.Toy.{payload, toy, toy-IsRuntime, runs}

qrt_1-IsTokenId : IsTokenId "QRT_1"
unfolding runs
qrt_1-IsTokenId = record { letters = refl; short = omega arith }

compact_runs :
    (create_compact_qr_token toy " QRT_1 " "key" ≡ ok "Q2.QRT_1.BBBBBBBBBBBBBBBB")
    × (verify_compact_qr_token toy " Q2.QRT_1.BBBBBBBBBBBBBBBB" "key" ≡ ok "QRT_1")
    × (verify_compact_qr_token toy "Q2.QRT_1.ABBBBBBBBBBBBBBB" "key"
        ≡ err QrError.invalid_compact_signature)
    × (verify_compact_qr_token toy "Q2..BBBBBBBBBBBBBBBB" "key"
        ≡ err QrError.invalid_compact_format)
    × (create_compact_qr_token toy "  " "key" ≡ err QrError.token_id_required)
unfolding runs
compact_runs = (refl, refl, refl, refl, refl)

verify_compact-create_example :
    (create_compact_qr_token toy "QRT_1" "key" >>= λ token. verify_compact_qr_token toy token "key")
    ≡ ok "QRT_1"
verify_compact-create_example =
    verify_compact-create toy toy-IsRuntime "key" "QRT_1" qrt_1-IsTokenId

verify_compact_iff_example :
    (verify_compact_qr_token toy " Q2.QRT_1.B" "key" ≡ ok "QRT_1")
    ↔ ((trim " Q2.QRT_1.B" ≡ compact_text toy "key" "QRT_1") × IsTokenId "QRT_1")
unfolding runs
verify_compact_iff_example = verify_compact_iff toy toy-IsRuntime "key" " Q2.QRT_1.B" "QRT_1" refl

-- an id that the compact format creates a token for and does not read back
verify_signed-compact_example :
    verify_signed_qr_token toy (compact_text toy "key" "QRT.1") "key"
    ≡ err QrError.invalid_signed_format
unfolding runs
verify_signed-compact_example =
    verify_signed-compact toy toy-IsRuntime "key" " QRT.1 " (compact_text toy "key" "QRT.1") refl

verify_signed-create_example :
    verify_signed_qr_token toy (create_signed_qr_token toy payload "key") "key"
    ≡ ok (payload_fields payload)
unfolding runs
verify_signed-create_example = verify_signed-create toy toy-IsRuntime "key" payload refl refl refl

verify_signed_sound_example :
    (encoded : String) × (trim (create_signed_qr_token toy payload "key")
      ≡ encoded ++ ("." ++ sign_encoded_payload toy encoded "key"))
    × (toy.json_parse (decode_base64_url toy encoded) ≡ some (obj (payload_fields payload)))
    × (is_complete (payload_fields payload) ≡ true)
unfolding runs
verify_signed_sound_example =
    verify_signed_sound toy toy-IsRuntime "key" (create_signed_qr_token toy payload "key")
      (payload_fields payload) refl
