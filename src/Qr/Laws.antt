-- ===== src/Qr/Laws.antt =====
-- What the signature primitives promise, on the assumptions about Node that each section names.
use creative_backend.Base.{
  ℕ, suc, ◌<◌, String, ◌≡◌, refl, ◌↔◌, Bool, true, false, List, [], ◌∷◌, arith, length, eqb_iff,
  eqb_self, &&_both,
}
use Prim.Native.Char.{Char}
use Prim.Native.String.{◌++◌}
use creative_backend.Runtime.{Runtime}
use creative_backend.Base.Text.{is_empty, every, is_space, no_dot, not_space}
use creative_backend.Qr.{
  is_token_char, is_token_text, signatures_equal, take, sign_compact_token_id, sign_encoded_payload,
  compact_qr_prefix,
}

pub token_char-no_dot : (c : Char) → is_token_char c ≡ true → no_dot c ≡ true
unfolding is_token_char
token_char-no_dot c h = ground arith

pub token_char-not_space : (c : Char) → is_token_char c ≡ true → not_space c ≡ true
unfolding is_token_char is_space
token_char-not_space c h = ground arith

pub every_weaken :
    (p q : Char → Bool) (f : (c : Char) → p c ≡ true → q c ≡ true) (s : String)
    → every p s ≡ true
    → every q s ≡ true
every_weaken p q f String.[] h = refl
every_weaken p q f (String.◌∷◌ c s) h = ground (arith, f c, every_weaken p q f s)

-- What Node's documentation says of the functions of `Runtime` that the tokens rest on.
pub record IsRuntime (node : Runtime) : Type 0 where
  pub mac_length : (key text : String) → length (node.hmac_sha256 key text) ≡ 32
  pub alphabet : (bytes : List ℕ) → every is_token_char (node.base64url bytes) ≡ true
  pub nonempty : (b : ℕ) (bytes : List ℕ) → is_empty (node.base64url (b ∷ bytes)) ≡ false
  pub utf8_injective : (s t : String) → node.utf8 s ≡ node.utf8 t → s ≡ t
  pub timing_safe_equal_iff :
      (a b : List ℕ) → length a ≡ length b → (node.timing_safe_equal a b ≡ true) ↔ (a ≡ b)

pub token_text-parts :
    (s : String) → is_token_text s ≡ true → (is_empty s ≡ false) × (every is_token_char s ≡ true)
unfolding is_token_text
token_text-parts s h = ground arith

module _ (node : Runtime) (laws : IsRuntime node) where
  pub signatures_equal_iff : (s t : String) → (signatures_equal node s t ≡ true) ↔ (s ≡ t)
  unfolding signatures_equal
  signatures_equal_iff s t = (
    λ h.
        laws.utf8_injective s t (
          (laws.timing_safe_equal_iff _ _ ((eqb_iff _ _).0 (&&_both _ _ h).0)).0 (&&_both _ _ h).1),
    λ e. rw e (rw (eqb_self _) ((laws.timing_safe_equal_iff _ _ refl).1 refl)),
  )

  base64url-is_token_text :
      (bytes : List ℕ) → 0 < length bytes → is_token_text (node.base64url bytes) ≡ true
  unfolding is_token_text
  base64url-is_token_text [] h = absurd (omega arith)
  base64url-is_token_text (b ∷ bytes) h = rw (laws.nonempty b bytes, laws.alphabet (b ∷ bytes))

  length-take_pos : (k : ℕ) (xs : List ℕ) → 0 < length xs → 0 < length (take (suc k) xs)
  length-take_pos k [] h = h
  length-take_pos k (x ∷ xs) h = omega arith

  pub compact_signature-is_token_text :
      (id secret : String) → is_token_text (sign_compact_token_id node id secret) ≡ true
  unfolding sign_compact_token_id
  compact_signature-is_token_text id secret = base64url-is_token_text _ (
      length-take_pos 15 _
        (omega (arith, laws.mac_length secret (compact_qr_prefix ++ ("." ++ id)))))

  pub encoded_signature-is_token_text :
      (text secret : String) → is_token_text (sign_encoded_payload node text secret) ≡ true
  unfolding sign_encoded_payload
  encoded_signature-is_token_text text secret =
      base64url-is_token_text _ (omega (arith, laws.mac_length secret text))
