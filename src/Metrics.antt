-- ===== src/Metrics.antt =====
-- src/common/metrics/metrics.service.ts: the counters of the requests, and their text for Prometheus. The
-- entries of a map stand in the order of their insertion, which is the order of the text.
pub mod Paths
pub mod Labels
pub mod Counts
pub mod Interceptor
pub mod Health
mod Tests
use Prim.Native.Char.{code}
use ops_flow_ms.Shared.{
  List, Option, String, [], before, concat, eqb, if◌then◌else◌, none, or_else, some, to_text,
  to_upper_case, ℕ, ◌+◌, ◌==◌, ◌∷◌, ltb, map, ◌%◌, ◌++◌, ◌-◌, ◌/◌,
}

-- A difference of two times in milliseconds, which a clock that is set back makes negative.
pub data Milliseconds : Type 0 where
  forward : ℕ → Milliseconds
  backward : ℕ → Milliseconds

pub record HttpMetricValue : Type 0 where
  pub count : ℕ
  pub duration_sum_ms : ℕ

pub record RecordHttpRequestInput : Type 0 where
  pub method : String
  pub path : String
  pub status_code : ℕ
  pub duration_ms : Milliseconds

abbrev pub Entries : Type 0 → Type 0
Entries V = List (String × V)

module _ {V : Type 0} where
  unfoldable pub get : String → Entries V → Option V
  get key [] = none
  get key ((k, v) ∷ entries) = let rest = get key entries in if k == key then some v else rest

  -- A new key comes last, and an old one keeps its place.
  unfoldable pub put : String → V → Entries V → Entries V
  put key value [] = (key, value) ∷ []
  put key value ((k, v) ∷ entries) =
      let rest = put key value entries in if k == key then (k, value) ∷ entries else (k, v) ∷ rest

pub record MetricsState : Type 0 where
  pub http_request_totals : Entries ℕ
  pub http_request_durations : Entries HttpMetricValue
  pub started_at : ℕ

-- `Math.max(0, durationMs)`
abbrev pub at_least_zero : Milliseconds → ℕ
at_least_zero (forward n) = n
at_least_zero (backward n) = 0

unfoldable pub normalize_path : String → String
unfolding before
normalize_path path = let base_path = before b'?' path in if base_path == "" then "/" else base_path

-- `input.replace(/c/g, replacement)` of one character.
unfoldable pub replace_all : ℕ → String → String → String
replace_all wanted replacement String.[] = ""
replace_all wanted replacement (String.◌∷◌ c s) =
    let rest = replace_all wanted replacement s in
    if eqb (code c) wanted then concat replacement rest else String.◌∷◌ c rest

unfoldable pub escape_label : String → String
unfolding replace_all
escape_label input = replace_all b'"' "\\\"" (replace_all b'\\' "\\\\" input)

unfoldable pub labels_of : RecordHttpRequestInput → String
unfolding normalize_path escape_label to_upper_case to_text
labels_of input = concat "method=\"" (
    concat (escape_label (to_upper_case input.method)) (
      concat "\",path=\"" (
        concat (escape_label (normalize_path input.path))
          (concat "\",status_code=\"" (concat (to_text input.status_code) "\"")))))

unfoldable pub record_http_request : RecordHttpRequestInput → MetricsState → MetricsState
unfolding labels_of get put
record_http_request input m =
    let labels = labels_of input in
    let current_count = or_else (get labels m.http_request_totals) 0 in
    let current_duration : HttpMetricValue =
      or_else (get labels m.http_request_durations) (record { count = 0; duration_sum_ms = 0 }) in
    record m {
      http_request_totals = put labels (current_count + 1) m.http_request_totals;
      http_request_durations =
          put labels
            (record {
              count = current_duration.count + 1;
              duration_sum_ms = current_duration.duration_sum_ms + at_least_zero input.duration_ms;
            })
            m.http_request_durations;
    }

abbrev reset_for_tests : MetricsState → MetricsState
reset_for_tests m = record m { http_request_totals = []; http_request_durations = [] }

-- `(ms / 1000).toFixed(3)` of a whole number of milliseconds.
pad_three : ℕ → String
unfolding to_text
pad_three n =
    if ltb n 10
    then concat "00" (to_text n)
    else if ltb n 100
    then concat "0" (to_text n)
    else to_text n

seconds_text : ℕ → String
unfolding pad_three to_text
seconds_text ms = concat (to_text (ms / 1000)) (concat "." (pad_three (ms % 1000)))

abbrev rest_lines : List String → String
rest_lines [] = ""
rest_lines (line ∷ lines) = concat "\n" (concat line (rest_lines lines))

-- `lines.join('\n')`
abbrev join_lines : List String → String
join_lines [] = ""
join_lines (line ∷ lines) = concat line (rest_lines lines)

-- `name{labels} value`
abbrev sample : String → String × String → String
sample name (labels, value) = concat name (concat "{" (concat labels (concat "} " value)))

unfoldable pub render_prometheus : ℕ → MetricsState → String
unfolding seconds_text to_text
render_prometheus now m =
    let uptime = concat "app_uptime_seconds " (seconds_text (now - m.started_at)) in
    let totals =
      map (λ (e : String × ℕ). sample "http_requests_total" (e.0, to_text e.1))
        m.http_request_totals in
    let sums =
      map
        (λ (e : String × HttpMetricValue).
          sample "http_request_duration_ms_sum" (e.0, concat (to_text e.1.duration_sum_ms) ".000"))
        m.http_request_durations in
    let counts =
      map
        (λ (e : String × HttpMetricValue).
          sample "http_request_duration_ms_count" (e.0, to_text e.1.count))
        m.http_request_durations in
    concat
      (join_lines (
        "# HELP app_uptime_seconds Process uptime in seconds"
        ∷ "# TYPE app_uptime_seconds gauge"
        ∷ uptime
        ∷ "# HELP http_requests_total Total number of HTTP requests"
        ∷ "# TYPE http_requests_total counter"
        ∷ (totals
            ++ ("# HELP http_request_duration_ms_sum Sum of HTTP request durations in milliseconds"
                ∷ "# TYPE http_request_duration_ms_sum counter"
                ∷ (sums
                    ++ ("# HELP http_request_duration_ms_count Count of HTTP request durations"
                        ∷ "# TYPE http_request_duration_ms_count counter" ∷ counts))))))
      "\n"
