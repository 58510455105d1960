-- ===== src/Errors/Filter/Tests.antt =====
-- The theorems on answers to a transition that is refused and to a validation error.
use ops_flow_ms.Errors.{HttpException, http, cashflow_invalid_transition}
use ops_flow_ms.Errors.Filter.{
  finite, many, Exception, http_exception, object_response, catch, reply,
}
use ops_flow_ms.Errors.Filter.Codes.{code_named, code_text, known_codes}
use ops_flow_ms.Errors.Filter.Answers.{to_exception, catch-to_exception}
use ops_flow_ms.Errors.Filter.Bodies.{IsConsistent, catch-IsConsistent}
use ops_flow_ms.Shared.{String, [], false, none, refl, some, true, ◌∷◌, ◌≡◌}

abbrev invalid_step : HttpException
invalid_step = record {
  status = 409;
  code = cashflow_invalid_transition;
  details = some (record { from = "PENDING"; to = "DELIVERED" });
  retry_after_seconds = none;
}

catch-to_exception_example :
    (catch "/cash-movements/m1/deliver" "t" (some "r") (to_exception "Invalid" (http invalid_step))
      ≡ record {
        status = 409;
        body = record {
          status_code = 409;
          code = "CASHFLOW_INVALID_TRANSITION";
          error_code = "CASHFLOW_INVALID_TRANSITION";
          snake_error_code = "CASHFLOW_INVALID_TRANSITION";
          message = "Invalid";
          path = "/cash-movements/m1/deliver";
          timestamp = "t";
          request_id = some "r";
          trace_id = some "r";
          details = some (record { from = "PENDING"; to = "DELIVERED" });
          errors = none;
          retry_after_seconds = none;
        };
        retry_after = none;
        logged = none;
      })
    × (code_named known_codes "CASHFLOW_INVALID_TRANSITION" ≡ some cashflow_invalid_transition)
unfolding code_text
catch-to_exception_example =
    catch-to_exception "/cash-movements/m1/deliver" "t" (some "r") "Invalid" invalid_step

-- A validation error: several texts, a blank code, and half a second to wait.
abbrev invalid : Exception String
invalid = http_exception 400 (
    object_response (record {
      message = many (none ∷ some "email must be an email" ∷ some "too short" ∷ []);
      code = some " ";
      error_code = none;
      snake_error_code = none;
      details = some "body";
      retry_after_seconds = finite false 0 true;
    }))

answers_invalid :
    catch "/users" "t" none invalid
    ≡ reply "/users" "t" none 400 "BAD_REQUEST" "email must be an email"
        (some "body")
        (some ("email must be an email" ∷ "too short" ∷ []))
        (some 1)
        none
unfolding catch
answers_invalid = refl

catch-IsConsistent_example : IsConsistent (catch "/users" "t" none invalid)
catch-IsConsistent_example = catch-IsConsistent "/users" "t" none invalid
