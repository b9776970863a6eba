-- ===== src/Qr/Toy.antt =====
-- A concrete runtime, a payload, and the list of what a run of the token functions computes with.
use creative_backend.Base.{
  ℕ, suc, zero, ◌+◌, ◌%◌, String, ◌≡◌, refl, ap₂, Bool, true, false, ◌&&◌, some, List, [], ◌∷◌,
  arith, eqb, if◌then◌else◌, inl, inr, Bool-cases,
}
use Prim.Native.Char.{Char, code}
use text.Mathlib.TextEquality.{Char-path}
use creative_backend.Runtime.{Runtime}
use creative_backend.Base.Json.{obj}
use creative_backend.Base.Text.{every, trim, split_dot}
use creative_backend.Qr.{
  QrPayload, payload_fields, is_token_char, is_token_text, signatures_equal, sign_compact_token_id,
  sign_encoded_payload, encode_base64_url, decode_base64_url, create_signed_qr_token,
  verify_signed_qr_token, create_compact_qr_token, verify_compact_qr_token, is_complete,
}
use creative_backend.Qr.Laws.{IsRuntime}

unfoldable pub codes : String → List ℕ
codes String.[] = []
codes (String.◌∷◌ c s) = code c ∷ codes s

codes_injective : (s t : String) → codes s ≡ codes t → s ≡ t
unfolding codes
codes_injective String.[] String.[] h = refl
codes_injective String.[] (String.◌∷◌ d t) h = absurd (cc)
codes_injective (String.◌∷◌ c s) String.[] h = absurd (cc)
codes_injective (String.◌∷◌ c s) (String.◌∷◌ d t) h =
    ap₂ (λ (x : Char) (u : String). String.◌∷◌ x u) (Char-path c d (cc)) (codes_injective s t (cc))

unfoldable pub sum : List ℕ → ℕ
sum [] = 0
sum (x ∷ xs) = x + sum xs

unfoldable pub repeat : ℕ → ℕ → List ℕ
repeat zero x = []
repeat (suc n) x = x ∷ repeat n x

unfoldable pub letters : List ℕ → String
letters [] = ""
letters (b ∷ bs) = String.◌∷◌ (if eqb (b % 2) 0 then "A" else "B") (letters bs)

unfoldable pub same_bytes : List ℕ → List ℕ → Bool
same_bytes [] [] = true
same_bytes (a ∷ as') (b ∷ bs) = eqb a b && same_bytes as' bs
same_bytes _ _ = false

same_bytes_sound : (a b : List ℕ) → same_bytes a b ≡ true → a ≡ b
unfolding same_bytes
same_bytes_sound [] [] h = refl
same_bytes_sound [] (b ∷ bs) h = absurd (cc)
same_bytes_sound (a ∷ xs) [] h = absurd (cc)
same_bytes_sound (a ∷ xs) (b ∷ bs) h = ground (arith, same_bytes_sound xs bs)

same_bytes_refl : (a : List ℕ) → same_bytes a a ≡ true
unfolding same_bytes
same_bytes_refl [] = refl
same_bytes_refl (a ∷ xs) = ground (arith, same_bytes_refl xs)

letters-token_chars : (bs : List ℕ) → every is_token_char (letters bs) ≡ true
unfolding letters is_token_char
letters-token_chars [] = refl
letters-token_chars (b ∷ bs) = elim (Bool-cases (eqb (b % 2) 0)) [
  | inl e ↦ rw e (letters-token_chars bs)
  | inr e ↦ rw e (letters-token_chars bs)
]

abbrev pub payload : QrPayload
payload = record {
  token_id = "QRT_1";
  event_id = "e1";
  registration_id = "r1";
  registration_public_id = "REG-1";
  attendee_type_id = "t1";
  attendee_type_code = "VIP";
  issued_at = "2026-01-01";
  valid_from = "2026-01-01";
  valid_until = "2026-02-01";
  nonce = "n";
}

-- Every text that decodes is taken for the JSON of `payload`.
abbrev pub toy : Runtime
toy = record {
  hmac_sha256 = λ key text. repeat 32 (sum (codes key) + sum (codes text));
  base64url = letters;
  from_base64url = codes;
  utf8 = codes;
  from_utf8 = letters;
  timing_safe_equal = same_bytes;
  json_parse = λ text. some (obj (payload_fields payload));
  json_stringify = λ json. "{}";
  sha256_hex = λ text. text;
  public_key_type = λ key. some "ed25519";
  verify_signature = λ text key signature. true;
  parse_date = λ text. some 0;
  to_iso_string = λ n. "";
}

pub toy-IsRuntime : IsRuntime toy
unfolding letters repeat
toy-IsRuntime = record {
  mac_length = λ key text. refl;
  alphabet = letters-token_chars;
  nonempty = λ b bytes. refl;
  utf8_injective = codes_injective;
  timing_safe_equal_iff = λ a b e. (same_bytes_sound a b, λ h. rw h (same_bytes_refl b));
}

unfoldable pub runs : Unit {0}
unfolding codes sum repeat letters same_bytes is_token_text is_token_char signatures_equal
    sign_compact_token_id sign_encoded_payload encode_base64_url decode_base64_url
    create_signed_qr_token verify_signed_qr_token create_compact_qr_token verify_compact_qr_token
    is_complete trim split_dot payload_fields
runs = tt
