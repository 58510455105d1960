-- ===== src/Errors/Filter.antt =====
-- src/common/filters/global-exception.filter.ts: what a client is answered for an exception. The
-- details of an exception are of any type.
pub mod Codes
pub mod Answers
pub mod Bodies
mod Tests
use ops_flow_ms.Shared.{
  Bool, List, Option, String, [], eqb, if◌then◌else◌, ltb, none, not, or_else, some, trim, ℕ, ◌&&◌,
  ◌+◌, ◌==◌, ◌||◌, ◌∷◌,
}

-- A value that should be a number of seconds: none, NaN or infinite, or a finite number, with its sign,
-- its whole part, and whether there is a fraction.
pub data Seconds : Type 0 where
  no_number not_finite : Seconds
  finite : Bool → ℕ → Bool → Seconds

-- `message` of a response: a text, an array, of which the texts count, or anything else.
pub data Message : Type 0 where
  one : String → Message
  many : List (Option String) → Message
  other : Message

-- The codes are none where they are no texts.
pub record ResponseObject (Details : Type 0) : Type 0 where
  pub message : Message
  pub code : Option String
  pub error_code : Option String
  pub snake_error_code : Option String
  pub details : Option Details
  pub retry_after_seconds : Seconds

pub data ExceptionResponse (Details : Type 0) : Type 0 where
  text_response : String → ExceptionResponse Details
  object_response : ResponseObject Details → ExceptionResponse Details
  neither : ExceptionResponse Details

pub data Exception (Details : Type 0) : Type 0 where
  http_exception : ℕ → ExceptionResponse Details → Exception Details
  error_object : String → Exception Details
  anything : Exception Details

pub record ErrorBody (Details : Type 0) : Type 0 where
  pub status_code : ℕ
  pub code : String
  pub error_code : String
  pub snake_error_code : String
  pub message : String
  pub path : String
  pub timestamp : String
  pub request_id : Option String
  pub trace_id : Option String
  pub details : Option Details
  pub errors : Option (List String)
  pub retry_after_seconds : Option ℕ

-- What the filter does: the status and body that it sends, the header Retry-After, and what it logs.
pub record Reply (Details : Type 0) : Type 0 where
  pub status : ℕ
  pub body : ErrorBody Details
  pub retry_after : Option ℕ
  pub logged : Option String

unfoldable pub map_status_code : ℕ → String
map_status_code status =
    if eqb status 400
    then "BAD_REQUEST"
    else if eqb status 401
    then "UNAUTHORIZED"
    else if eqb status 403
    then "FORBIDDEN"
    else if eqb status 404
    then "NOT_FOUND"
    else if eqb status 429
    then "TOO_MANY_REQUESTS"
    else if eqb status 503
    then "SERVICE_UNAVAILABLE"
    else "HTTP_ERROR"

-- `typeof code === 'string' && code.trim().length > 0`
unfoldable pub filled : Option String → Option String
unfolding trim
filled none = none
filled (some code) = if trim code == "" then none else some code

abbrev pub or_next : Option String → Option String → Option String
or_next none next = next
or_next (some code) next = some code

abbrev pub texts : List (Option String) → List String
texts [] = []
texts (none ∷ items) = texts items
texts (some item ∷ items) = item ∷ texts items

abbrev pub first_or : List String → String → String
first_or [] default = default
first_or (item ∷ items) default = item

abbrev pub message_of : Message → String → String
message_of (one text) default = text
message_of (many items) default = first_or (texts items) default
message_of other default = default

-- `errors && errors.length > 0`
abbrev pub present : List String → Option (List String)
present [] = none
present (e ∷ errors) = some (e ∷ errors)

abbrev pub errors_of : Message → Option (List String)
errors_of (one text) = none
errors_of (many items) = present (texts items)
errors_of other = none

-- `Math.ceil` of a number that is finite and positive.
abbrev pub retry_of : Seconds → Option ℕ
retry_of no_number = none
retry_of not_finite = none
retry_of (finite negative whole fraction) =
    if not negative && (ltb 0 whole || fraction)
    then some (if fraction then whole + 1 else whole)
    else none

abbrev internal_message : String
internal_message = "Internal server error"

module _ {Details : Type 0} where
  abbrev pub code_of : ℕ → ResponseObject Details → String
  code_of status response =
      or_else
        (or_next (filled response.code)
          (or_next (filled response.error_code) (filled response.snake_error_code)))
        (map_status_code status)

  module _ (path timestamp : String) (request_id : Option String) where
    -- The body and the reply that are built from the values that were read.
    abbrev pub reply :
        ℕ
        → String
        → String
        → Option Details
        → Option (List String)
        → Option ℕ
        → Option String
        → Reply Details
    reply status code message details errors retry_after logged = record {
      status = status;
      body = record {
        status_code = status;
        code = code;
        error_code = code;
        snake_error_code = code;
        message = message;
        path = path;
        timestamp = timestamp;
        request_id = request_id;
        trace_id = request_id;
        details = details;
        errors = errors;
        retry_after_seconds = retry_after;
      };
      retry_after = retry_after;
      logged = logged;
    }

    abbrev internal : Option String → Reply Details
    internal logged = reply 500 "INTERNAL_SERVER_ERROR" internal_message none none none logged

    unfoldable pub catch : Exception Details → Reply Details
    unfolding map_status_code filled
    catch (http_exception status (text_response text)) =
        reply status (map_status_code status) text none none none none
    catch (http_exception status neither) =
        reply status (map_status_code status) internal_message none none none none
    catch (http_exception status (object_response response)) =
        reply status (code_of status response) (message_of response.message internal_message)
          response.details (errors_of response.message) (retry_of response.retry_after_seconds) none
    catch (error_object message) = internal (some message)
    catch anything = internal none
