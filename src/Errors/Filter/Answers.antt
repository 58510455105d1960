-- ===== src/Errors/Filter/Answers.antt =====
-- The exceptions of the services as the filter receives them, and how it answers them.
use ops_flow_ms.Errors.{HttpException, Failure, http, thrown, primitive, object, TransitionDetails}
use ops_flow_ms.Errors.Filter.{
  Seconds, no_number, finite, one, Exception, http_exception, error_object, anything,
  object_response, Reply, catch, retry_of,
}
use ops_flow_ms.Errors.Filter.Codes.{
  code_named, code_named-code_text, code_text, code_text-filled, known_codes,
}
use ops_flow_ms.Shared.{Option, String, arith, false, if◌then◌else◌, ltb, none, refl, some, ℕ, ◌≡◌}

abbrev seconds_of : Option ℕ → Seconds
seconds_of none = no_number
seconds_of (some n) = finite false n false

abbrev pub positive : Option ℕ → Option ℕ
positive none = none
positive (some n) = if ltb 0 n then some n else none

retry_of-seconds_of : (o : Option ℕ) → retry_of (seconds_of o) ≡ positive o
retry_of-seconds_of none = refl
retry_of-seconds_of (some n) = ground arith

-- A response object of the services: a code, a text, and the details and seconds where there are any. What a
-- database client throws is an error object, or no object at all.
abbrev pub to_exception : String → Failure → Exception TransitionDetails
to_exception message (http e) = http_exception e.status (
    object_response (record {
      message = one message;
      code = some (code_text e.code);
      error_code = none;
      snake_error_code = none;
      details = e.details;
      retry_after_seconds = seconds_of e.retry_after_seconds;
    }))
to_exception message (thrown primitive) = anything
to_exception message (thrown (object code target)) = error_object message

module _ (path timestamp : String) (request_id : Option String) where
  -- How an exception of a service has to be answered, field by field.
  abbrev pub answered : String → HttpException → Reply TransitionDetails
  answered message e = record {
    status = e.status;
    body = record {
      status_code = e.status;
      code = code_text e.code;
      error_code = code_text e.code;
      snake_error_code = code_text e.code;
      message = message;
      path = path;
      timestamp = timestamp;
      request_id = request_id;
      trace_id = request_id;
      details = e.details;
      errors = none;
      retry_after_seconds = positive e.retry_after_seconds;
    };
    retry_after = positive e.retry_after_seconds;
    logged = none;
  }

  -- An exception that a service throws is answered with its status, the text of its code in all
  -- three fields, its message and details, and its delay where that is positive, and nothing is
  -- logged. The text stands for that code alone: a client that looks it up among all texts finds the code.
  pub catch-to_exception :
      (message : String) (e : HttpException)
      → (catch path timestamp request_id (to_exception message (http e)) ≡ answered message e)
        × (code_named known_codes (code_text e.code) ≡ some e.code)
  unfolding catch
  catch-to_exception message e = (
    rw (code_text-filled e.code, retry_of-seconds_of e.retry_after_seconds),
    code_named-code_text e.code,
  )
