-- ===== src/Qr/Compact.antt =====
-- The compact format `Q2.<tokenId>.<signature>`: which tokens are accepted, and that what is
-- created is.
use creative_backend.Base.{
  ◌≤◌, String, ◌≡◌, refl, ap, subst, ◌∙◌, sym, ◌↔◌, true, some, List, [], ◌∷◌, arith, eq_iff, inl,
  inr, Option-cases,
}
use Prim.Native.String.{◌++◌, count}
use text.Mathlib.Text.{starts_with}
use text.Mathlib.TextEquality.{starts_with_iff}
use text.Mathlib.TextLemmas.{append_assoc}
use mathlib.Core.Path.{ap₂}
use creative_backend.Runtime.{Runtime}
use creative_backend.Base.Result.{ok, ◌>>=◌}
use creative_backend.Base.Text.{
  is_space, trim, split_dot, every, no_dot, not_space, split_dot-append, split_dot-no_dot, join_dot,
  join_dot-split_dot, trim_id, every-append,
}
use creative_backend.Qr.{
  is_token_text, signatures_equal, sign_compact_token_id, compact_qr_prefix, compact_parts,
  max_token_id_length, create_compact_qr_token, verify_compact_qr_token, verify_compact_qr_token_v2,
}
use creative_backend.Qr.Laws.{
  IsRuntime, every_weaken, token_char-no_dot, token_char-not_space, token_text-parts,
  signatures_equal_iff, compact_signature-is_token_text,
}

-- An id that the compact format can carry.
pub record IsTokenId (id : String) : Type 0 where
  pub letters : is_token_text id ≡ true
  pub short : count id ≤ max_token_id_length

abbrev pub compact_text : Runtime → String → String → String
compact_text node secret id =
    compact_qr_prefix ++ ("." ++ (id ++ ("." ++ sign_compact_token_id node id secret)))

pub text-no_dot : (s : String) → is_token_text s ≡ true → every no_dot s ≡ true
text-no_dot s h = every_weaken _ _ token_char-no_dot s (token_text-parts s h).1

pub text-not_space : (s : String) → is_token_text s ≡ true → every not_space s ≡ true
text-not_space s h = every_weaken _ _ token_char-not_space s (token_text-parts s h).1

compact_parts-eq-some :
    (parts : List String) (id sig : String)
    → compact_parts parts ≡ some (id, sig)
    → parts ≡ compact_qr_prefix ∷ id ∷ sig ∷ []
compact_parts-eq-some [] id sig h = cc
compact_parts-eq-some (a ∷ []) id sig h = cc
compact_parts-eq-some (a ∷ b ∷ []) id sig h = cc
compact_parts-eq-some (a ∷ b ∷ c ∷ []) id sig h = ground (arith, eq_iff a compact_qr_prefix)
compact_parts-eq-some (a ∷ b ∷ c ∷ d ∷ r) id sig h = cc

module _ (node : Runtime) (laws : IsRuntime node) (secret : String) where
  pub split-compact_text :
      (id : String)
      → IsTokenId id
      → split_dot (compact_text node secret id)
        ≡ compact_qr_prefix ∷ id ∷ sign_compact_token_id node id secret ∷ []
  split-compact_text id h =
      split_dot-append compact_qr_prefix _ refl
      ∙ ap (λ (r : List String). compact_qr_prefix ∷ r)
          (split_dot-append id _ (text-no_dot id h.letters)
            ∙ ap (λ (r : List String). id ∷ r)
                (split_dot-no_dot _
                  (text-no_dot _ (compact_signature-is_token_text node laws id secret))))

  pub compact_text-not_space :
      (id : String) → IsTokenId id → every not_space (compact_text node secret id) ≡ true
  unfolding is_space
  compact_text-not_space id h =
      let sig = sign_compact_token_id node id secret in
      let tail =
        every-append not_space "." sig refl
          (text-not_space sig (compact_signature-is_token_text node laws id secret)) in
      let body = every-append not_space id ("." ++ sig) (text-not_space id h.letters) tail in
      every-append not_space compact_qr_prefix ("." ++ (id ++ ("." ++ sig))) refl
        (every-append not_space "." (id ++ ("." ++ sig)) refl body)

  pub compact_text-starts_with :
      (id : String) → starts_with (compact_text node secret id) (compact_qr_prefix ++ ".") ≡ true
  compact_text-starts_with id =
      (starts_with_iff _ _).1
        (id ++ ("." ++ sign_compact_token_id node id secret), append_assoc compact_qr_prefix "." _)

  verify_v2-compact_text :
      (id : String)
      → IsTokenId id
      → verify_compact_qr_token_v2 node (compact_text node secret id) secret ≡ ok id
  unfolding verify_compact_qr_token_v2
  verify_v2-compact_text id h = rw (split-compact_text id h) (
      ground (
        arith,
        h.letters,
        h.short,
        token_text-parts id h.letters,
        token_text-parts _ (compact_signature-is_token_text node laws id secret),
        compact_signature-is_token_text node laws id secret,
        (signatures_equal_iff node laws (sign_compact_token_id node id secret)
              (sign_compact_token_id node id secret)).1
            refl,
      ))

  verify-compact_text :
      (id : String)
      → IsTokenId id
      → verify_compact_qr_token node (compact_text node secret id) secret ≡ ok id
  unfolding verify_compact_qr_token
  verify-compact_text id h =
      rw (trim_id _ (compact_text-not_space id h), compact_text-starts_with id)
        (verify_v2-compact_text id h)

  -- A token that is created for an id of at most 128 letters, digits, `_` and `-` is accepted, and
  -- gives that id back.
  pub verify_compact-create :
      (id : String)
      → IsTokenId id
      → (create_compact_qr_token node id secret >>= λ token.
          verify_compact_qr_token node token secret)
        ≡ ok id
  unfolding create_compact_qr_token
  verify_compact-create id h =
      rw (trim_id id (text-not_space id h.letters), (token_text-parts id h.letters).0)
        (verify-compact_text id h)

  compact_of_v2 :
      (token id : String)
      → verify_compact_qr_token_v2 node token secret ≡ ok id
      → (token ≡ compact_text node secret id) × IsTokenId id
  unfolding verify_compact_qr_token_v2
  compact_of_v2 token id h = elim (Option-cases (compact_parts (split_dot token))) [
    | inl e ↦ ground (arith, e)
    | inr ((i, sig), e) ↦
        let facts : (i ≡ id)
            × (signatures_equal node sig (sign_compact_token_id node i secret) ≡ true)
            × IsTokenId i =
          (
            ground (arith, e),
            ground (arith, e),
            record { letters = ground (arith, e); short = ground (arith, e) },
          ) in
        (
          (sym (join_dot-split_dot token)
                ∙ ap join_dot (compact_parts-eq-some (split_dot token) i sig e))
              ∙ ap₂ (λ (j t : String). compact_qr_prefix ++ ("." ++ (j ++ ("." ++ t)))) facts.0
                  ((signatures_equal_iff node laws sig (sign_compact_token_id node i secret)).0
                      facts.1
                    ∙ ap (λ (j : String). sign_compact_token_id node j secret) facts.0),
          subst IsTokenId facts.0 facts.2,
        )
  ]

  -- A token that starts with `Q2.` after trimming is accepted as `id` exactly when it is, trimmed,
  -- the token that is created for `id`, and `id` is at most 128 letters, digits, `_` and `-`.
  pub verify_compact_iff :
      (token id : String)
      → starts_with (trim token) (compact_qr_prefix ++ ".") ≡ true
      → (verify_compact_qr_token node token secret ≡ ok id)
        ↔ ((trim token ≡ compact_text node secret id) × IsTokenId id)
  unfolding verify_compact_qr_token
  verify_compact_iff token id marked = (
    λ h. compact_of_v2 (trim token) id (ground (arith, marked)),
    λ (e, valid). rw marked (rw e (verify_v2-compact_text id valid)),
  )
