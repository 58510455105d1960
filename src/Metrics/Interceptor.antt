-- ===== src/Metrics/Interceptor.antt =====
-- src/common/interceptors/request-logging.interceptor.ts: each request is counted and logged when it has
-- been handled.
use mathlib.Core.Option
use ops_flow_ms.Metrics.{
  Milliseconds, forward, backward, MetricsState, RecordHttpRequestInput, record_http_request,
}
use ops_flow_ms.Errors.Filter.{
  Exception, http_exception, error_object, anything, catch, text_response, object_response, neither,
}
use ops_flow_ms.Shared.{
  Bool, List, Option, String, [], if◌then◌else◌, ltb, none, or_else, some, ℕ, ◌-◌, ◌∷◌, map, refl,
  true, ◌≡◌,
}

-- The parts of a request and of its context that the interceptors read.
pub record HttpRequest : Type 0 where
  pub method : String
  pub original_url : Option String
  pub url : String
  pub ip : Option String
  pub user_agent : Option String
  pub request_id : Option String

-- How the handler ends: with a status, or by an exception with the message that it has.
pub data Ending (Details : Type 0) : Type 0 where
  returned : ℕ → Ending Details
  raised : Exception Details → String → Ending Details

pub record LogEntry : Type 0 where
  pub level : String
  pub request_id : Option String
  pub method : String
  pub path : String
  pub status_code : ℕ
  pub duration_ms : Milliseconds
  pub ip : Option String
  pub user_agent : Option String
  pub error : Option String

-- `req.originalUrl ?? req.url`
abbrev pub path_of : HttpRequest → String
path_of req = or_else req.original_url req.url

-- `Date.now() - startedAt`
abbrev pub elapsed : ℕ → ℕ → Milliseconds
elapsed started_at now =
    if ltb now started_at then backward (started_at - now) else forward (now - started_at)

-- `metricsService?.recordHttpRequest(...)`
abbrev count_request : RecordHttpRequestInput → Option MetricsState → Option MetricsState
count_request input metrics = Option.map (record_http_request input) metrics

module _ {Details : Type 0} where
  -- `error instanceof HttpException ? error.getStatus() : 500`
  abbrev status_of : Exception Details → ℕ
  status_of (http_exception status response) = status
  status_of (error_object message) = 500
  status_of anything = 500

  -- `error instanceof Error ? error.message : 'Unhandled exception'`
  abbrev error_text : Exception Details → String → String
  error_text (http_exception status response) message = message
  error_text (error_object text) message = text
  error_text anything message = "Unhandled exception"

  abbrev ending_status : Ending Details → ℕ
  ending_status (returned status) = status
  ending_status (raised e message) = status_of e

  abbrev ending_level : Ending Details → String
  ending_level (returned status) = "info"
  ending_level (raised e message) = "error"

  abbrev ending_error : Ending Details → Option String
  ending_error (returned status) = none
  ending_error (raised e message) = some (error_text e message)

  -- The metrics and the log after a request, on whether the context is one of HTTP.
  unfoldable pub intercept :
      Bool
      → HttpRequest
      → ℕ
      → ℕ
      → Ending Details
      → Option MetricsState
      → Option MetricsState × List LogEntry
  unfolding record_http_request
  intercept is_http req started_at now ending metrics =
      let duration_ms = elapsed started_at now in
      let input : RecordHttpRequestInput = record {
        method = req.method;
        path = path_of req;
        status_code = ending_status ending;
        duration_ms = duration_ms;
      } in
      let entry : LogEntry = record {
        level = ending_level ending;
        request_id = req.request_id;
        method = req.method;
        path = path_of req;
        status_code = ending_status ending;
        duration_ms = duration_ms;
        ip = req.ip;
        user_agent = req.user_agent;
        error = ending_error ending;
      } in
      if is_http then (count_request input metrics, entry ∷ []) else (metrics, [])

  -- A request that fails with any exception is counted and logged under the status with which the
  -- filter answers that exception.
  pub intercept-catch :
      (req : HttpRequest) (started_at now : ℕ) (e : Exception Details) (message timestamp : String)
      (request_id : Option String) (m : MetricsState)
      → ((intercept true req started_at now (raised e message) (some m)).0
          ≡ some (
              record_http_request
                (record {
                  method = req.method;
                  path = path_of req;
                  status_code = (catch (path_of req) timestamp request_id e).status;
                  duration_ms = elapsed started_at now;
                })
                m))
        × (map
              (λ entry'. entry'.status_code)
              (intercept true req started_at now (raised e message) (some m)).1
            ≡ (catch (path_of req) timestamp request_id e).status ∷ [])
  unfolding intercept catch
  intercept-catch req started_at now (http_exception status (text_response text)) message timestamp
        request_id m =
      (refl, refl)
  intercept-catch req started_at now (http_exception status neither) message timestamp request_id
        m =
      (refl, refl)
  intercept-catch req started_at now (http_exception status (object_response response)) message
        timestamp request_id m =
      (refl, refl)
  intercept-catch req started_at now (error_object text) message timestamp request_id m =
      (refl, refl)
  intercept-catch req started_at now anything message timestamp request_id m = (refl, refl)
