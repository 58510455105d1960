-- ===== src/Metrics/Tests.antt =====
-- The theorems on requests to one path.
use ops_flow_ms.Metrics.{
  forward, backward, RecordHttpRequestInput, normalize_path, labels_of, record_http_request,
  render_prometheus,
}
use ops_flow_ms.Metrics.Labels.{read_labels, read_labels-labels_of}
use ops_flow_ms.Metrics.Paths.{IsCountedAs}
use ops_flow_ms.Metrics.Counts.{
  record_all, fresh, count_of, time_of, sum_of, total_at, duration_at, record_all-counts,
}
use ops_flow_ms.Metrics.Interceptor.{
  HttpRequest, raised, intercept, intercept-catch, path_of, elapsed,
}
use ops_flow_ms.Errors.Filter.{Exception, error_object, catch}
use ops_flow_ms.Shared.{
  String, [], concat, map, none, refl, some, to_text, to_upper_case, true, ◌∷◌, ◌≡◌, List, length,
}

-- A path with a quote and a query.
abbrev one_request : RecordHttpRequestInput
one_request = record {
  method = "get";
  path = "/a\"b?x=1";
  status_code = 200;
  duration_ms = forward 12;
}

labels_one : labels_of one_request ≡ "method=\"GET\",path=\"/a\\\"b\",status_code=\"200\""
unfolding labels_of
labels_one = refl

read_labels-labels_of_example :
    (read_labels (labels_of one_request)
      ≡ some (
        to_upper_case one_request.method,
        normalize_path one_request.path,
        concat (to_text 200) "\"",
      ))
    × IsCountedAs (normalize_path one_request.path) one_request.path
read_labels-labels_of_example = read_labels-labels_of one_request

abbrev two_requests : List RecordHttpRequestInput
two_requests = one_request ∷ record one_request { duration_ms = backward 3 } ∷ []

record_all-counts_example :
    (total_at (labels_of one_request) (record_all two_requests (fresh 0))
      ≡ count_of (labels_of one_request) two_requests)
    × (duration_at (labels_of one_request) (record_all two_requests (fresh 0)) ≡ record {
      count = count_of (labels_of one_request) two_requests;
      duration_sum_ms = time_of (labels_of one_request) two_requests;
    })
    × (sum_of (record_all two_requests (fresh 0)).http_request_totals ≡ length two_requests)
record_all-counts_example = record_all-counts two_requests 0 (labels_of one_request)

counts_two : count_of (labels_of one_request) two_requests ≡ 2
unfolding labels_of
counts_two = refl

renders :
    render_prometheus 1500 (record_all (one_request ∷ []) (fresh 0))
    ≡ "# HELP app_uptime_seconds Process uptime in seconds\n# TYPE app_uptime_seconds gauge\napp_uptime_seconds 1.500\n# HELP http_requests_total Total number of HTTP requests\n# TYPE http_requests_total counter\nhttp_requests_total{method=\"GET\",path=\"/a\\\"b\",status_code=\"200\"} 1\n# HELP http_request_duration_ms_sum Sum of HTTP request durations in milliseconds\n# TYPE http_request_duration_ms_sum counter\nhttp_request_duration_ms_sum{method=\"GET\",path=\"/a\\\"b\",status_code=\"200\"} 12.000\n# HELP http_request_duration_ms_count Count of HTTP request durations\n# TYPE http_request_duration_ms_count counter\nhttp_request_duration_ms_count{method=\"GET\",path=\"/a\\\"b\",status_code=\"200\"} 1\n"
unfolding render_prometheus record_all
renders = refl

abbrev get_request : HttpRequest
get_request = record {
  method = "GET";
  original_url = some "/users";
  url = "/";
  ip = none;
  user_agent = none;
  request_id = some "r1";
}

abbrev failure : Exception String
failure = error_object "secret"

intercept-catch_example :
    ((intercept true get_request 10 15 (raised failure "secret") (some (fresh 0))).0
      ≡ some (
          record_http_request
            (record {
              method = "GET";
              path = path_of get_request;
              status_code = (catch (path_of get_request) "t" (some "r1") failure).status;
              duration_ms = elapsed 10 15;
            })
            (fresh 0)))
    × (map
          (λ entry'. entry'.status_code)
          (intercept true get_request 10 15 (raised failure "secret") (some (fresh 0))).1
        ≡ (catch (path_of get_request) "t" (some "r1") failure).status ∷ [])
intercept-catch_example =
    intercept-catch get_request 10 15 failure "secret" "t" (some "r1") (fresh 0)
