-- ===== src/Whatsapp/Texts.antt =====
-- The texts of whatsapp-ticket-requests.service.ts: phone numbers, and the two patterns that find the
-- registration's id and the request's token in a message. A character that may stand in either is one
-- of `A-Za-z0-9_-`, and the characters around a match are of another kind or none, so a match is a
-- whole run of such characters; the first that fits is taken.
use creative_backend.Base.{
  ℕ, ◌+◌, Bool, true, false, ◌&&◌, ◌||◌, Option, none, some, eqb, leb, if◌then◌else◌,
}
use mathlib.Core.List.{List}
use Prim.Native.Char.{Char, code}
use Prim.Native.String.{String, [], ◌∷◌, ◌++◌, count}
use creative_backend.Base.Decimal.{is_digit}
use creative_backend.Qr.{is_token_char}

-- the code of a letter in lower case, of `A-Z` only, as the flag `i` compares
abbrev pub folded : Char → ℕ
folded c = if leb 65 (code c) && leb (code c) 90 then code c + 32 else code c

abbrev same_folded : String → String → Bool
same_folded [] [] = true
same_folded (c ∷ s) (d ∷ t) = eqb (folded c) (folded d) && same_folded s t
same_folded _ _ = false

abbrev is_account_suffix : String → Bool
is_account_suffix s = same_folded s "s.whatsapp.net" || same_folded s "c.us"

-- `replace(/@(?:s\.whatsapp\.net|c\.us)$/i, '')`
unfoldable pub strip_account : String → String
strip_account [] = []
strip_account (c ∷ s) =
    let rest = strip_account s in if eqb (code c) 64 && is_account_suffix s then [] else c ∷ rest

-- `replace(/\D/g, '')`
unfoldable pub keep_digits : String → String
keep_digits [] = []
keep_digits (c ∷ s) = let rest = keep_digits s in if is_digit c then c ∷ rest else rest

abbrev pub or_empty : Option String → String
or_empty none = ""
or_empty (some s) = s

unfoldable pub normalize_phone : Option String → String
unfolding strip_account keep_digits
normalize_phone value = keep_digits (strip_account (or_empty value))

-- the run of characters at the head of a text, and the runs behind it
unfoldable pub head_run : String → String
head_run [] = []
head_run (c ∷ s) = let run = head_run s in if is_token_char c then c ∷ run else []

unfoldable pub find_run : (String → Bool) → String → Option String
find_run fits [] = none
find_run fits (c ∷ s) =
    let rest = find_run fits s in
    if is_token_char c then rest else (if fits (head_run s) then some (head_run s) else rest)

-- the first run of characters that fits, at the start of the text or behind another character
unfoldable pub first_run : (String → Bool) → String → Option String
unfolding head_run find_run
first_run fits text = if fits (head_run text) then some (head_run text) else find_run fits text

-- `REG_` and 1 to 60 characters, in any case
unfoldable pub is_public_id : String → Bool
is_public_id (r ∷ e ∷ g ∷ u ∷ rest) =
    eqb (folded r) 114
    && eqb (folded e) 101
    && eqb (folded g) 103
    && eqb (code u) 95
    && leb 1 (count rest)
    && leb (count rest) 60
is_public_id _ = false

-- `WTR_` and 20 to 100 characters
unfoldable pub is_ticket_request_token : String → Bool
is_ticket_request_token (w ∷ t ∷ r ∷ u ∷ rest) =
    eqb (code w) 87
    && eqb (code t) 84
    && eqb (code r) 82
    && eqb (code u) 95
    && leb 20 (count rest)
    && leb (count rest) 100
is_ticket_request_token _ = false

abbrev letters : List (Char × Char)
letters =
    List.◌∷◌ ("a", "A")
      (List.◌∷◌ ("b", "B")
        (List.◌∷◌ ("c", "C")
          (List.◌∷◌ ("d", "D")
            (List.◌∷◌ ("e", "E")
              (List.◌∷◌ ("f", "F")
                (List.◌∷◌ ("g", "G")
                  (List.◌∷◌ ("h", "H")
                    (List.◌∷◌ ("i", "I")
                      (List.◌∷◌ ("j", "J")
                        (List.◌∷◌ ("k", "K")
                          (List.◌∷◌ ("l", "L")
                            (List.◌∷◌ ("m", "M")
                              (List.◌∷◌ ("n", "N")
                                (List.◌∷◌ ("o", "O")
                                  (List.◌∷◌ ("p", "P")
                                    (List.◌∷◌ ("q", "Q")
                                      (List.◌∷◌ ("r", "R")
                                        (List.◌∷◌ ("s", "S")
                                          (List.◌∷◌ ("t", "T")
                                            (List.◌∷◌ ("u", "U")
                                              (List.◌∷◌ ("v", "V")
                                                (List.◌∷◌ ("w", "W")
                                                  (List.◌∷◌ ("x", "X")
                                                    (List.◌∷◌ ("y", "Y")
                                                      (List.◌∷◌ ("z", "Z")
                                                        List.[])))))))))))))))))))))))))

abbrev upper_in : List (Char × Char) → Char → Char
upper_in List.[] c = c
upper_in (List.◌∷◌ (low, high) rest) c = if eqb (code low) (code c) then high else upper_in rest c

-- `toUpperCase()` of a run
unfoldable pub to_upper : String → String
to_upper [] = []
to_upper (c ∷ s) = upper_in letters c ∷ to_upper s

abbrev map_upper : Option String → Option String
map_upper none = none
map_upper (some s) = some (to_upper s)

unfoldable pub extract_public_id : String → Option String
unfolding first_run is_public_id to_upper
extract_public_id text = map_upper (first_run is_public_id text)

unfoldable pub extract_ticket_request_token : String → Option String
unfolding first_run is_ticket_request_token
extract_ticket_request_token text = first_run is_ticket_request_token text

-- The texts of the message in front of the registration's id and of the token. They are in Arabic, and
-- this language's source has no characters that are written from right to left.
pub record Labels : Type 0 where
  pub for_public_id : String
  pub for_token : String

-- the message that a link carries, before it is encoded
unfoldable pub request_message : Labels → (public_id ticket_request_token : String) → String
request_message labels public_id ticket_request_token =
    labels.for_public_id ++ (public_id ++ (labels.for_token ++ ticket_request_token))
