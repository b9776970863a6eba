-- ===== src/Whatsapp/Message.antt =====
-- What whatsapp-ticket-requests.service.ts reads of a request: the secret in the headers, and the
-- message in the payload, whose shape depends on the provider's version.
use creative_backend.Base.{
  String, Bool, true, false, not, ◌&&◌, ◌||◌, Option, none, some, List, [], ◌∷◌, eqb, ◌==◌,
  if◌then◌else◌, find,
}
use Prim.Native.Char.{Char, code}
use Prim.Native.String.{◌++◌}
use creative_backend.Base.Json.{Json, Fields, get}
use creative_backend.Base.Result.{Result, ok, err, ◌>>=◌, throw_if}
use creative_backend.Base.Text.{trim, trim_start, is_empty, is_space, every, split_dot}
use creative_backend.Qr.{signatures_equal}
use creative_backend.Runtime.{Runtime}
use creative_backend.Scans.Checks.{given}
use creative_backend.Store.{Exception}
use creative_backend.Whatsapp.Texts.{folded}

pub data HeaderValue : Type 0 where
  one : String → HeaderValue
  many : List String → HeaderValue

abbrev pub Headers : Type 0
Headers = List (String × HeaderValue)

abbrev header_text : Option (String × HeaderValue) → Option String
header_text none = none
header_text (some (key, HeaderValue.one value)) = some value
header_text (some (key, HeaderValue.many [])) = none
header_text (some (key, HeaderValue.many (value ∷ values))) = some value

-- The keys that are asked for are in lower case already.
unfoldable pub get_header : Headers → String → Option String
get_header headers key = header_text (find (λ h. h.0 == key) headers)

abbrev is_line_end : Char → Bool
is_line_end c = eqb (code c) 10 || eqb (code c) 13 || eqb (code c) 8232 || eqb (code c) 8233

abbrev bearer_value : Char → String → Option String
bearer_value c rest =
    let value = trim_start rest in
    if is_space c && not (is_empty value) && every (λ d. not (is_line_end d)) value
    then some (trim value)
    else none

-- the rest behind a text that is compared without its case
unfoldable after_folded : (prefix value : String) → Option String
after_folded String.[] value = some value
after_folded (String.◌∷◌ p prefix) String.[] = none
after_folded (String.◌∷◌ p prefix) (String.◌∷◌ c value) =
    let rest = after_folded prefix value in if eqb (folded p) (folded c) then rest else none

abbrev bearer_rest : Option String → Option String
bearer_rest none = none
bearer_rest (some String.[]) = none
bearer_rest (some (String.◌∷◌ c rest)) = bearer_value c rest

-- `/^Bearer\s+(.+)$/i`. Where only white space follows, the source may have the empty text, which its
-- caller refuses like a missing one.
unfoldable pub get_bearer_token : Option String → Option String
unfolding after_folded
get_bearer_token none = none
get_bearer_token (some value) = bearer_rest (after_folded "Bearer" value)

-- `??`
infixr 4 ◌or◌
abbrev ◌or◌ : {A : Type 0} → Option A → Option A → Option A
none or other = other
some a or other = some a

abbrev pub or_else : {A : Type 0} → Option A → A → A
or_else none a = a
or_else (some b) a = b

unfoldable pub provided_secret : Headers → Option String
unfolding get_header get_bearer_token
provided_secret headers =
    get_header headers "x-webhook-signature"
    or get_header headers "x-wasender-webhook-secret"
    or get_header headers "x-webhook-secret"
    or get_bearer_token (get_header headers "authorization")

abbrev or_unauthorized : {A : Type 0} → Option A → String → Result Exception A
or_unauthorized none text = err (Exception.unauthorized text)
or_unauthorized (some a) text = ok a

-- `safeSecretEquals`, the same comparison as that of the signatures of a QR token
unfoldable pub safe_secret_equals : Runtime → (provided expected : String) → Bool
unfolding signatures_equal
safe_secret_equals node provided expected = signatures_equal node provided expected

unfoldable pub validate_webhook_secret :
    Runtime → (configured : Option String) → Headers → Result Exception (Unit {0})
unfolding provided_secret safe_secret_equals
validate_webhook_secret node configured headers = do
  expected ← or_unauthorized (given configured) "WASENDER_WEBHOOK_SECRET is not configured"
  provided ← or_unauthorized (given (provided_secret headers)) "Invalid webhook secret"
  throw_if (not (safe_secret_equals node (trim provided) (trim expected)))
      (Exception.unauthorized "Invalid webhook secret")

unfoldable pub follow : Option Json → List String → Option Json
follow current [] = current
follow (some (Json.obj fs)) (part ∷ parts) = follow (get part fs) parts
follow _ (part ∷ parts) = follow none parts

unfoldable pub read_path : Fields → String → Option Json
unfolding follow
read_path payload path = follow (some (Json.obj payload)) (split_dot path)

abbrev solid_text : Option Json → Option String
solid_text (some (Json.str value)) = if is_empty (trim value) then none else some (trim value)
solid_text _ = none

unfoldable pub first_string : Fields → List String → Option String
unfolding read_path
first_string payload [] = none
first_string payload (path ∷ paths) =
    solid_text (read_path payload path) or first_string payload paths

abbrev truth : Option Json → Option Bool
truth (some (Json.bool b)) = some b
truth _ = none

unfoldable pub first_boolean : Fields → List String → Option Bool
unfolding read_path
first_boolean payload [] = none
first_boolean payload (path ∷ paths) = truth (read_path payload path) or first_boolean payload paths

pub record IncomingMessage : Type 0 where
  pub delivery_id : String
  pub event_type : String
  pub text : String
  pub sender_phone : String
  pub outgoing : Bool
  pub group : Bool

unfoldable pub is_prefix : (prefix text : String) → Bool
is_prefix String.[] text = true
is_prefix (String.◌∷◌ p prefix) String.[] = false
is_prefix (String.◌∷◌ p prefix) (String.◌∷◌ c text) =
    let rest = is_prefix prefix text in eqb (code p) (code c) && rest

-- `text.includes(part)`
unfoldable pub includes_text : (part text : String) → Bool
unfolding is_prefix
includes_text part String.[] = is_empty part
includes_text part (String.◌∷◌ c text) =
    is_prefix part (String.◌∷◌ c text) || includes_text part text

-- `toLowerCase()` is a parameter: it folds letters of every alphabet.
module _ (node : Runtime) (to_lower_case : String → String) where
  unfoldable hash_payload : Fields → String
  hash_payload payload = node.sha256_hex (node.json_stringify (Json.obj payload))

  unfoldable is_outgoing : Fields → Bool
  unfolding first_string first_boolean
  is_outgoing payload =
      or_else
        (first_boolean payload (
          "data.messages.key.fromMe" ∷ "fromMe" ∷ "isFromMe" ∷ "outgoing" ∷ "isOutgoing"
          ∷ "data.fromMe" ∷ "data.isFromMe" ∷ "data.outgoing" ∷ "data.isOutgoing"
          ∷ "data.key.fromMe" ∷ []))
        false
      || elim (first_string payload ("direction" ∷ "data.direction" ∷ [])) [
        | none ↦ false
        | some direction ↦ to_lower_case direction == "outgoing"
      ]

  unfoldable is_group : Fields → (sender_phone : String) → Bool
  unfolding first_string first_boolean includes_text
  is_group payload sender_phone =
      or_else
        (first_boolean payload
          ("data.messages.isGroup" ∷ "data.messages.key.isGroup" ∷ "isGroup" ∷ "data.isGroup" ∷ []))
        false
      || includes_text "@g.us" (
          to_lower_case (
            or_else
              (first_string payload (
                "data.messages.key.remoteJid" ∷ "remoteJid" ∷ "chatId" ∷ "data.remoteJid"
                ∷ "data.chatId" ∷ "data.key.remoteJid" ∷ []))
              sender_phone))

  unfoldable delivery_id_of : Fields → String
  unfolding first_string hash_payload
  delivery_id_of payload =
      or_else
        (first_string payload (
          "data.messages.key.id" ∷ "id" ∷ "messageId" ∷ "message_id" ∷ "webhookId" ∷ "webhook_id"
          ∷ "data.id" ∷ "data.messageId" ∷ "data.message_id" ∷ "data.key.id" ∷ []))
        ("hash:" ++ hash_payload payload)

  unfoldable sender_phone_of : Fields → String
  unfolding first_string
  sender_phone_of payload =
      or_else
        (first_string payload (
          "data.messages.key.cleanedSenderPn" ∷ "data.messages.key.senderPn"
          ∷ "data.messages.key.remoteJid" ∷ "from" ∷ "sender" ∷ "senderPhone" ∷ "phone"
          ∷ "remoteJid" ∷ "data.from" ∷ "data.sender" ∷ "data.senderPhone" ∷ "data.phone"
          ∷ "data.remoteJid" ∷ "data.key.remoteJid" ∷ []))
        ""

  unfoldable pub extract_incoming_message : Fields → IncomingMessage
  unfolding first_string is_outgoing is_group delivery_id_of sender_phone_of
  extract_incoming_message payload = record {
    delivery_id = delivery_id_of payload;
    event_type =
        elim (first_string payload (
          "event" ∷ "eventType" ∷ "event_type" ∷ "type" ∷ "data.event" ∷ "data.eventType"
          ∷ "data.event_type" ∷ "data.type" ∷ [])) [ none ↦ "" | some event ↦ to_lower_case event ];
    text =
        or_else
          (first_string payload (
            "data.messages.messageBody" ∷ "data.messages.message.conversation"
            ∷ "data.messages.message.extendedTextMessage.text"
            ∷ "data.messages.message.imageMessage.caption"
            ∷ "data.messages.message.videoMessage.caption"
            ∷ "data.messages.message.documentMessage.caption" ∷ "text" ∷ "body" ∷ "message"
            ∷ "caption" ∷ "data.text" ∷ "data.body" ∷ "data.message" ∷ "data.caption"
            ∷ "data.message.conversation" ∷ []))
          "";
    sender_phone = sender_phone_of payload;
    outgoing = is_outgoing payload;
    group = is_group payload (sender_phone_of payload);
  }
