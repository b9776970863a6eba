-- ===== src/Sync/Payload.antt =====
-- How the payload of an operation is read, and how an exception becomes the error of an operation.
use creative_backend.Base.{
  ℕ, String, Bool, true, false, not, ◌&&◌, ◌||◌, Option, none, some, List, [], ◌∷◌, ◌==◌,
  if◌then◌else◌,
}
use Prim.Native.String.{◌++◌}
use text.Mathlib.Text.{starts_with, find?}
use creative_backend.Base.Result.{Result, ok, err}
use creative_backend.Base.Text.{is_empty, trim}
use creative_backend.Base.Json.{Json, str, arr, obj, Items, nil, cons, Fields, get, get_text}
use creative_backend.Store.{Exception, message, MovementType}
use creative_backend.Scans.Checks.{includes}
use creative_backend.Sync.Rows.{
  HttpResponse, text_response, object_response, other_response, SyncOperation, SyncOperationType,
}

unfoldable pub get_string : Fields → String → Result Exception String
get_string payload key = elim (get_text key payload) [
  | none ↦ err (Exception.bad_request (key ++ " is required"))
  | some value ↦
      if is_empty (trim value)
      then err (Exception.bad_request (key ++ " is required"))
      else ok value
]

unfoldable pub get_optional_string : Fields → String → Option String
get_optional_string payload key = elim (get_text key payload) [
  | none ↦ none
  | some value ↦ if is_empty (trim value) then none else some (trim value)
]

unfoldable pub get_optional_record : Fields → String → Option Fields
get_optional_record payload key = elim (get key payload) [
  | some (obj fields) ↦ some fields
  | _ ↦ none
]

-- `toRecord`
unfoldable pub to_record : Json → Result Exception Fields
to_record (obj fields) = ok fields
to_record _ = err (Exception.bad_request "Stored sync operation input is invalid")

pub record Classified : Type 0 where
  pub code : String
  pub message : String
  pub retryable : Bool

-- `filter(string).join(', ')`
abbrev texts : Items → List String
texts nil = []
texts (cons (str s) rest) = s ∷ texts rest
texts (cons _ rest) = texts rest

abbrev pub join_with : String → List String → String
join_with separator [] = ""
join_with separator (s ∷ []) = s
join_with separator (s ∷ t ∷ r) = s ++ (separator ++ join_with separator (t ∷ r))

-- the message of a response that is an object, or else the message of the exception
abbrev pub response_message : Fields → String → String
response_message fields otherwise = elim (get "message" fields) [
  | some (arr items) ↦ join_with ", " (texts items)
  | some (str s) ↦ s
  | _ ↦ otherwise
]

abbrev pub or_text : Option String → String → String
or_text none t = t
or_text (some s) t = s

-- `a || b` on texts
abbrev pub or_if_empty : String → String → String
or_if_empty a b = if is_empty a then b else a

-- `text.includes(part)`
abbrev pub includes_text : String → String → Bool
includes_text text part = elim (find? text part) [ none ↦ false | some k ↦ true ]

unfoldable pub get_conflict_error_code : String → String
get_conflict_error_code text =
    if text == "OFFLINE_REGISTRATION_CONFLICT"
    then "OFFLINE_REGISTRATION_CONFLICT"
    else if includes_text text "Duplicate registration" || includes_text text "unique"
    then "DUPLICATE_REGISTRATION"
    else "SYNC_OPERATION_CONFLICT"

-- `getHttpExceptionMessage`
unfoldable pub get_http_exception_message : HttpResponse → String → String
get_http_exception_message (text_response text) otherwise = text
get_http_exception_message (object_response fields) otherwise = response_message fields otherwise
get_http_exception_message other_response otherwise = otherwise

unfoldable pub classify_conflict : HttpResponse → String → Classified
unfolding get_conflict_error_code
classify_conflict (text_response text) own = record {
  code = get_conflict_error_code text;
  message = text;
  retryable = false;
}
classify_conflict (object_response fields) own = record {
  code =
      or_text (get_text "code" fields)
        (or_text (get_text "errorCode" fields) "DUPLICATE_REGISTRATION");
  message = response_message fields own;
  retryable = false;
}
classify_conflict other_response own = record {
  code = "DUPLICATE_REGISTRATION";
  message = or_if_empty own "Duplicate registration for this event";
  retryable = false;
}

unfoldable pub classify_sync_operation_error : (Exception → HttpResponse) → Exception → Classified
unfolding classify_conflict get_http_exception_message
classify_sync_operation_error get_response (Exception.conflict text) =
    classify_conflict (get_response (Exception.conflict text)) text
classify_sync_operation_error get_response (Exception.bad_request text) = record {
  code = "INVALID_OFFLINE_REGISTRATION";
  message = get_http_exception_message (get_response (Exception.bad_request text)) text;
  retryable = false;
}
classify_sync_operation_error get_response (Exception.not_found text) = record {
  code = "OFFLINE_REGISTRATION_RESOURCE_NOT_FOUND";
  message = get_http_exception_message (get_response (Exception.not_found text)) text;
  retryable = false;
}
classify_sync_operation_error get_response (Exception.forbidden text) = record {
  code = "OPERATION_FAILED";
  message = text;
  retryable = true;
}
classify_sync_operation_error get_response (Exception.unauthorized text) = record {
  code = "OPERATION_FAILED";
  message = text;
  retryable = true;
}
classify_sync_operation_error get_response Exception.unique_constraint = record {
  code = "OPERATION_FAILED";
  message = message Exception.unique_constraint;
  retryable = true;
}
classify_sync_operation_error get_response (Exception.failure text) = record {
  code = "OPERATION_FAILED";
  message = text;
  retryable = true;
}

abbrev pub non_retryable_codes : List String
non_retryable_codes =
    "DUPLICATE_REGISTRATION" ∷ "INVALID_OFFLINE_REGISTRATION"
    ∷ "OFFLINE_REGISTRATION_RESOURCE_NOT_FOUND" ∷ "OFFLINE_REGISTRATION_CONFLICT" ∷ []

abbrev pub retryable_codes : List String
retryable_codes =
    "OPERATION_FAILED" ∷ "OFFLINE_REGISTRATION_FAILED" ∷ "OFFLINE_REGISTRATION_RETRYABLE_FAILURE"
    ∷ "PREVIOUS_OPERATION_FAILED" ∷ "PREVIOUS_OPERATION_NOT_COMPLETED"
    ∷ "OFFLINE_OPERATION_RESULT_MISSING" ∷ "CANONICAL_REGISTRATION_ID_MISSING" ∷ []

abbrev pub is_registration : SyncOperationType → Bool
is_registration SyncOperationType.offline_registration = true
is_registration _ = false

-- the trimmed code in upper case, `none` where it is missing or empty
abbrev pub error_code : (String → String) → Option String → Option String
error_code to_upper_case none = none
error_code to_upper_case (some code) =
    if is_empty (to_upper_case (trim code)) then none else some (to_upper_case (trim code))

abbrev pub is_retryable_code : String → Bool
is_retryable_code code =
    not (includes non_retryable_codes code)
    && (includes retryable_codes code
        || starts_with code "HTTP_5"
        || starts_with code "NETWORK_"
        || starts_with code "UNKNOWN_")

unfoldable pub can_retry_failed_offline_operation : (String → String) → SyncOperation → Bool
can_retry_failed_offline_operation to_upper_case operation =
    is_registration operation.type && (elim (error_code to_upper_case operation.error_code) [
      | none ↦ true
      | some code ↦ is_retryable_code code
    ])

-- The text is cast to a movement type in the source; a text that names none is refused by Prisma.
unfoldable pub movement_type : String → Result Exception MovementType
movement_type text =
    if text == "ENTRY"
    then ok MovementType.entry
    else if text == "EXIT"
    then ok MovementType.exit
    else if text == "CHECKPOINT"
    then ok MovementType.checkpoint
    else if text == "BOOTH_VISIT"
    then ok MovementType.booth_visit
    else if text == "SESSION_ATTENDANCE"
    then ok MovementType.session_attendance
    else if text == "VIP_ACCESS"
    then ok MovementType.vip_access
    else err (Exception.failure "Invalid value for argument `type`")

-- `new Date(text)`, where an invalid date is refused by Prisma
abbrev pub instant : (String → Option ℕ) → String → Result Exception ℕ
instant parse_date text = elim (parse_date text) [
  | none ↦ err (Exception.failure "Invalid value for argument `scannedAtDevice`")
  | some t ↦ ok t
]
