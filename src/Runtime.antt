-- ===== src/Runtime.antt =====
-- Node's `crypto`, `Buffer`, `JSON` and `Date`, which the code calls.
use creative_backend.Base.{ℕ, String, Bool, Option, List}
use creative_backend.Base.Json.{Json}

-- A byte is a number, an instant the milliseconds since 1970. `json_parse` is `none` where
-- `JSON.parse` throws, `parse_date` where `new Date(text)` is invalid, and `public_key_type` where
-- `createPublicKey` throws.
pub record Runtime : Type 0 where
  pub hmac_sha256 : String → String → List ℕ
  pub base64url : List ℕ → String
  pub from_base64url : String → List ℕ
  pub utf8 : String → List ℕ
  pub from_utf8 : List ℕ → String
  pub timing_safe_equal : List ℕ → List ℕ → Bool
  pub json_parse : String → Option Json
  pub json_stringify : Json → String
  pub sha256_hex : String → String
  pub public_key_type : String → Option String
  pub verify_signature : (text : List ℕ) (public_key : String) (signature : List ℕ) → Bool
  pub parse_date : String → Option ℕ
  pub to_iso_string : ℕ → String
