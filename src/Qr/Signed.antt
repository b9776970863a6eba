-- ===== src/Qr/Signed.antt =====
-- The format `<payload>.<signature>`, base64url of JSON and its HMAC.
use creative_backend.Base.{
  String, ◌≡◌, refl, ap, ◌∙◌, sym, true, none, some, List, [], ◌∷◌, arith, inl, inr, Option-cases,
}
use Prim.Native.String.{◌++◌}
use creative_backend.Runtime.{Runtime}
use creative_backend.Base.Result.{ok, err}
use creative_backend.Base.Json.{obj, Fields}
use creative_backend.Base.Text.{
  trim, split_dot, not_space, is_space, split_dot-append, split_dot-no_dot, join_dot,
  join_dot-split_dot, trim_id, every-append, trim_end_id, trim_end-append, is_empty-append,
  trim-append, split_dot-many,
}
use creative_backend.Qr.{
  QrError, QrPayload, payload_fields, is_token_text, signatures_equal, sign_encoded_payload,
  encode_base64_url, decode_base64_url, two_parts, is_complete, create_signed_qr_token,
  verify_signed_qr_token, create_compact_qr_token, sign_compact_token_id, compact_qr_prefix,
}
use creative_backend.Qr.Laws.{
  IsRuntime, token_text-parts, signatures_equal_iff, compact_signature-is_token_text,
  encoded_signature-is_token_text,
}
use creative_backend.Qr.Compact.{text-no_dot, text-not_space}

two_parts-eq-some :
    (parts : List String) (a b : String) → two_parts parts ≡ some (a, b) → parts ≡ a ∷ b ∷ []
two_parts-eq-some [] a b h = cc
two_parts-eq-some (x ∷ []) a b h = cc
two_parts-eq-some (x ∷ y ∷ []) a b h = ground arith
two_parts-eq-some (x ∷ y ∷ z ∷ r) a b h = cc

module _ (node : Runtime) (laws : IsRuntime node) (secret : String) where
  -- An accepted token is, trimmed, a text and the signature of that text under the secret; what is
  -- returned is the object that the text encodes, and its ten fields are strings that are not blank.
  pub verify_signed_sound :
      (token : String) (payload : Fields)
      → verify_signed_qr_token node token secret ≡ ok payload
      → (encoded : String) × (trim token
          ≡ encoded ++ ("." ++ sign_encoded_payload node encoded secret))
        × (node.json_parse (decode_base64_url node encoded) ≡ some (obj payload))
        × (is_complete payload ≡ true)
  unfolding verify_signed_qr_token
  verify_signed_sound token payload h = elim (Option-cases (two_parts (split_dot (trim token)))) [
    | inl e ↦ absurd (ground (arith, e))
    | inr ((encoded, sig), e) ↦
        let signed : signatures_equal node sig (sign_encoded_payload node encoded secret) ≡ true =
          ground (arith, e) in
        (
          encoded,
          (sym (join_dot-split_dot (trim token))
                ∙ ap join_dot (two_parts-eq-some (split_dot (trim token)) encoded sig e))
              ∙ ap (λ (t : String). encoded ++ ("." ++ t))
                  ((signatures_equal_iff node laws sig _).0 signed),
          ground (arith, e),
          ground (arith, e),
        )
  ]

  not_two_parts :
      (id signature : String)
      → two_parts (split_dot (compact_qr_prefix ++ ("." ++ (id ++ ("." ++ signature))))) ≡ none
  not_two_parts id signature =
      let (p, q, rest, e) = split_dot-many id signature in
      ap two_parts (
        split_dot-append compact_qr_prefix (id ++ ("." ++ signature)) refl
        ∙ ap (λ (r : List String). compact_qr_prefix ∷ r) e)

  -- The text of a created compact token has no white space at its ends, whatever its id.
  trim-created :
      (id signature : String)
      → is_token_text signature ≡ true
      → trim (compact_qr_prefix ++ ("." ++ (id ++ ("." ++ signature))))
        ≡ compact_qr_prefix ++ ("." ++ (id ++ ("." ++ signature)))
  unfolding is_space
  trim-created id signature letters =
      let filled = (token_text-parts signature letters).0 in
      let solid = trim_end_id signature (text-not_space signature letters) in
      let end = trim_end-append "." signature filled solid in
      let some' = is_empty-append "." signature filled in
      let tail = trim_end-append id ("." ++ signature) some' end in
      let more = is_empty-append id ("." ++ signature) some' in
      trim-append "Q" "2" ("." ++ (id ++ ("." ++ signature))) refl
        (is_empty-append "." (id ++ ("." ++ signature)) more)
        (trim_end-append "." (id ++ ("." ++ signature)) more tail)

  -- The two formats do not overlap: a token that is created in the compact format, for whatever id, is
  -- never accepted in the signed one, since it has more than two parts.
  pub verify_signed-compact :
      (id token : String)
      → create_compact_qr_token node id secret ≡ ok token
      → verify_signed_qr_token node token secret ≡ err QrError.invalid_signed_format
  unfolding verify_signed_qr_token create_compact_qr_token
  verify_signed-compact id token h =
      let signature = sign_compact_token_id node (trim id) secret in
      let made : compact_qr_prefix ++ ("." ++ (trim id ++ ("." ++ signature))) ≡ token =
        ground (arith, h) in
      rw (sym made) (
        rw
          (
            trim-created (trim id) signature
                (compact_signature-is_token_text node laws (trim id) secret),
            not_two_parts (trim id) signature,
          )
          refl)

  verify_signed_text :
      (encoded : String) (payload : Fields)
      → is_complete payload ≡ true
      → is_token_text encoded ≡ true
      → node.json_parse (decode_base64_url node encoded) ≡ some (obj payload)
      → verify_signed_qr_token node
          (encoded ++ ("." ++ sign_encoded_payload node encoded secret))
          secret
        ≡ ok payload
  unfolding verify_signed_qr_token
  verify_signed_text encoded payload complete letters parsed =
      let sig = sign_encoded_payload node encoded secret in
      let sig_letters = encoded_signature-is_token_text node laws encoded secret in
      let spaceless =
        every-append not_space encoded ("." ++ sig) (text-not_space encoded letters) (
          unfold is_space in
          every-append not_space "." sig refl (text-not_space sig sig_letters)) in
      let parts =
        split_dot-append encoded sig (text-no_dot encoded letters)
        ∙ ap (λ (r : List String). encoded ∷ r)
            (split_dot-no_dot sig (text-no_dot sig sig_letters)) in
      rw (
        trim_id (encoded ++ ("." ++ sig)) spaceless,
        parts,
        (token_text-parts encoded letters).0,
        (token_text-parts sig sig_letters).0,
        (signatures_equal_iff node laws sig sig).1 refl,
        parsed,
        complete,
      )

  -- A created token is accepted and gives its payload back, if no field of the payload is blank and
  -- the JSON text of the payload, encoded as base64url, is a token text that decodes and parses to
  -- the payload again.
  pub verify_signed-create :
      (payload : QrPayload)
      → is_complete (payload_fields payload) ≡ true
      → is_token_text (encode_base64_url node (node.json_stringify (obj (payload_fields payload))))
        ≡ true
      → node.json_parse (
          decode_base64_url node
            (encode_base64_url node (node.json_stringify (obj (payload_fields payload)))))
        ≡ some (obj (payload_fields payload))
      → verify_signed_qr_token node (create_signed_qr_token node payload secret) secret
        ≡ ok (payload_fields payload)
  unfolding create_signed_qr_token
  verify_signed-create payload complete letters parsed =
      verify_signed_text _ (payload_fields payload) complete letters parsed
