-- ===== src/Errors.antt =====
-- src/istos/errors.py: the application errors, their wire payload, and the rule for a retry. A
-- value of Python that the payload carries is a `Json`, with `null` for None.
pub mod Wire
mod Examples
use istos.Json.{
  Json, null, boolean, number, text, array, object, Items, nil, cons, Fields, end, field, find,
  get_or, truthy,
}
use istos.Prelude.{
  ℕ, zero, suc, ◌≡◌, Bool, true, false, ◌&&◌, ◌||◌, not, Option, none, some, String, ltb, leb,
  if◌then◌else◌, text_key, number_key, ◌==◌, ℤ, pos, negsuc,
}

-- The classes that the module declares under IstosError.
pub data ErrorClass : Type 0 where
  istos_error : ErrorClass
  reply_decode : ErrorClass
  not_found : ErrorClass
  unauthorized : ErrorClass
  forbidden : ErrorClass
  conflict : ErrorClass
  rate_limit : ErrorClass

-- `retryable` is None, or what a subclass sets.
pub record IstosError : Type 0 where
  pub class : ErrorClass
  pub retryable : Option Bool
  pub message : Json
  pub code : Json
  pub status : ℕ
  pub details : Json
  pub correlation_id : Json

unfoldable pub new_error : ErrorClass → String → ℕ → Json → Json → Json → IstosError
new_error class code status message details correlation_id = record {
  class = class;
  retryable = none;
  message = message;
  code = text code;
  status = status;
  details = details;
  correlation_id = correlation_id;
}

-- The classes' own constructors, called with their `details` and `correlation_id`. A plain
-- IstosError has the default code and status here.
unfoldable pub construct : ErrorClass → Json → Json → Json → IstosError
unfolding new_error
construct istos_error m d c = new_error istos_error "internal_error" 500 m d c
construct reply_decode m d c = record (new_error reply_decode "decode_error" 502 m d c) {
  retryable = some false;
}
construct not_found m d c = new_error not_found "not_found" 404 m d c
construct unauthorized m d c = new_error unauthorized "unauthorized" 401 m d c
construct forbidden m d c = new_error forbidden "forbidden" 403 m d c
construct conflict m d c = new_error conflict "conflict" 409 m d c
construct rate_limit m d c = new_error rate_limit "rate_limit_exceeded" 429 m d c

-- `_CODE_TO_ERROR.get`
unfoldable pub code_to_error : String → Option ErrorClass
code_to_error code =
    if code == "not_found"
    then some not_found
    else if code == "unauthorized"
    then some unauthorized
    else if code == "forbidden"
    then some forbidden
    else if code == "conflict"
    then some conflict
    else if code == "rate_limit_exceeded"
    then some rate_limit
    else none

-- `CODE_TO_STATUS.get` with DEFAULT_ERROR_STATUS
unfoldable pub code_to_status : String → ℕ
code_to_status code =
    if code == "unauthorized"
    then 401
    else if code == "forbidden"
    then 403
    else if code == "not_found"
    then 404
    else if code == "validation_error"
    then 400
    else if code == "bad_request"
    then 400
    else if code == "conflict"
    then 409
    else if code == "rate_limit_exceeded"
    then 429
    else 500

-- What a call raises: an IstosError, or any other exception.
pub data Failure : Type 0 where
  application : IstosError → Failure
  other : String → Failure

unfoldable pub by_status : ℕ → Bool
by_status status = status == 409 || status == 429 || not (leb 400 status && ltb status 500)

unfoldable pub is_retryable : Failure → Bool
unfolding by_status
is_retryable (other e) = true
is_retryable (application e) = elim (e.retryable) [ none ↦ by_status e.status | some b ↦ b ]

pub record ErrorResponse : Type 0 where
  pub error : Json
  pub code : Json
  pub message : Json
  pub correlation_id : Json
  pub details : Json

unfoldable pub with_details : Json → Fields
with_details null = end
with_details (boolean b) = field "details" (boolean b) end
with_details (number z) = field "details" (number z) end
with_details (text s) = field "details" (text s) end
with_details (array l) = field "details" (array l) end
with_details (object o) = field "details" (object o) end

unfoldable pub to_dict : ErrorResponse → Fields
unfolding truthy with_details
to_dict r = field "__istos_error" (boolean true) (
    field "error" r.error (
      field "code" r.code (
        field "message" r.message (
          if truthy r.correlation_id
          then field "correlation_id" r.correlation_id (with_details r.details)
          else with_details r.details))))

has_field : String → Fields → Bool
has_field key fields = elim (find key fields) [ none ↦ false | some v ↦ true ]

-- `marker is not None`, and the rule without a marker.
unfoldable pub by_marker : Json → Fields → Bool
unfolding has_field
by_marker null fields =
    has_field "error" fields && has_field "code" fields && has_field "message" fields
by_marker (boolean b) fields = b
by_marker (number z) fields = truthy (number z)
by_marker (text s) fields = truthy (text s)
by_marker (array l) fields = truthy (array l)
by_marker (object o) fields = truthy (object o)

unfoldable pub is_error_payload : Json → Bool
unfolding by_marker
is_error_payload null = false
is_error_payload (boolean b) = false
is_error_payload (number z) = false
is_error_payload (text s) = false
is_error_payload (array l) = false
is_error_payload (object fields) = by_marker (get_or "__istos_error" null fields) fields

unfoldable pub plain : Json → ℕ → Json → Json → Json → IstosError
plain code status message details correlation_id = record {
  class = istos_error;
  retryable = none;
  message = message;
  code = code;
  status = status;
  details = details;
  correlation_id = correlation_id;
}

-- The error of a code: the look-up of a list or a dict as a key raises TypeError, here nothing.
unfoldable pub rebuild : Json → Json → Json → Json → Option IstosError
unfolding plain construct
rebuild (text code) m d c = elim (code_to_error code) [
  | none ↦ some (plain (text code) (code_to_status code) m d c)
  | some class ↦ some (construct class m d c)
]
rebuild null m d c = some (plain null 500 m d c)
rebuild (boolean b) m d c = some (plain (boolean b) 500 m d c)
rebuild (number z) m d c = some (plain (number z) 500 m d c)
rebuild (array l) m d c = none
rebuild (object o) m d c = none

unfoldable pub error_from_payload : Fields → String → Option IstosError
unfolding rebuild get_or
error_from_payload parsed default_code =
    rebuild (get_or "code" (text default_code) parsed)
      (get_or "message" (text "the responder failed") parsed) (get_or "details" null parsed)
      (get_or "correlation_id" null parsed)

-- `_from_istos_error`, the default handler, and the envelope that a handler returns by itself.
unfoldable pub from_istos_error : IstosError → ErrorResponse
from_istos_error e = record {
  error = e.code;
  code = e.code;
  message = e.message;
  correlation_id = null;
  details = e.details;
}

unfoldable pub reply_err : Json → Json → Json → Json → Fields
reply_err message code correlation_id details = to_dict (record {
  error = code;
  code = code;
  message = message;
  correlation_id = correlation_id;
  details = details;
})
