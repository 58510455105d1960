-- ===== src/Metrics/Counts.antt =====
-- The counters against the requests that were recorded.
use ops_flow_ms.Metrics.{
  HttpMetricValue, RecordHttpRequestInput, Entries, get, put, MetricsState, at_least_zero,
  labels_of, record_http_request,
}
use ops_flow_ms.Shared.{
  Bool-cases, List, String, [], arith, eq_iff, eq_of_beq, if◌then◌else◌, inl, inr, or_else, refl,
  some, ℕ, ◌+◌, ◌==◌, ◌∷◌, ◌≡◌, length, ◌∙◌,
}
use ops_flow_ms.Guards.{differs}

module _ {V : Type 0} where
  get-put :
      (j k : String) (v : V) (entries : Entries V)
      → get j (put k v entries) ≡ (if k == j then some v else get j entries)
  unfolding get put
  get-put j k v [] = refl
  get-put j k v ((l, w) ∷ entries) = elim (Bool-cases (l == k)) [
    | inl same ↦ rw (same, eq_of_beq l k same) (ground arith)
    | inr differs ↦
        rw differs (ground (arith, get-put j k v entries, eq_iff l k, eq_iff k j, eq_iff l j))
  ]

-- The requests of a list, one after the other.
unfoldable pub record_all : List RecordHttpRequestInput → MetricsState → MetricsState
unfolding record_http_request
record_all [] m = m
record_all (input ∷ inputs) m = record_all inputs (record_http_request input m)

abbrev pub fresh : ℕ → MetricsState
fresh started_at = record {
  http_request_totals = [];
  http_request_durations = [];
  started_at = started_at;
}

-- How many requests have the labels, and how long they took together.
abbrev pub count_of : String → List RecordHttpRequestInput → ℕ
count_of labels [] = 0
count_of labels (input ∷ inputs) =
    (if labels_of input == labels then 1 else 0) + count_of labels inputs

abbrev pub time_of : String → List RecordHttpRequestInput → ℕ
time_of labels [] = 0
time_of labels (input ∷ inputs) =
    (if labels_of input == labels then at_least_zero input.duration_ms else 0)
    + time_of labels inputs

abbrev no_requests : HttpMetricValue
no_requests = record { count = 0; duration_sum_ms = 0 }

abbrev pub total_at : String → MetricsState → ℕ
total_at labels m = or_else (get labels m.http_request_totals) 0

abbrev pub duration_at : String → MetricsState → HttpMetricValue
duration_at labels m = or_else (get labels m.http_request_durations) no_requests

total-record :
    (labels : String) (input : RecordHttpRequestInput) (m : MetricsState)
    → total_at labels (record_http_request input m)
      ≡ total_at labels m + (if labels_of input == labels then 1 else 0)
unfolding record_http_request
total-record labels input m =
    rw (get-put labels (labels_of input) (total_at (labels_of input) m + 1) m.http_request_totals)
      (elim (Bool-cases (labels_of input == labels)) [
        | inl same ↦ rw (same, eq_of_beq (labels_of input) labels same)
        | inr differs ↦ rw differs (omega arith)
      ])

-- One more request of a duration.
abbrev add_request : ℕ → HttpMetricValue → HttpMetricValue
add_request ms v = record { count = v.count + 1; duration_sum_ms = v.duration_sum_ms + ms }

duration-record :
    (labels : String) (input : RecordHttpRequestInput) (m : MetricsState)
    → duration_at labels (record_http_request input m) ≡ (
        if labels_of input == labels
        then add_request (at_least_zero input.duration_ms) (duration_at labels m)
        else duration_at labels m)
unfolding record_http_request
duration-record labels input m =
    rw
      (get-put labels (labels_of input)
        (add_request (at_least_zero input.duration_ms) (duration_at (labels_of input) m))
        m.http_request_durations)
      (elim (Bool-cases (labels_of input == labels)) [
        | inl same ↦ rw (same, eq_of_beq (labels_of input) labels same)
        | inr differs ↦ rw differs refl
      ])

total-record_all :
    (labels : String) (inputs : List RecordHttpRequestInput) (m : MetricsState)
    → total_at labels (record_all inputs m) ≡ total_at labels m + count_of labels inputs
unfolding record_all
total-record_all labels [] m = omega arith
total-record_all labels (input ∷ inputs) m = omega (
  arith,
  total-record_all labels inputs (record_http_request input m),
  total-record labels input m,
)

duration-record_all :
    (labels : String) (inputs : List RecordHttpRequestInput) (m : MetricsState)
    → duration_at labels (record_all inputs m) ≡ record {
      count = (duration_at labels m).count + count_of labels inputs;
      duration_sum_ms = (duration_at labels m).duration_sum_ms + time_of labels inputs;
    }
unfolding record_all
duration-record_all labels [] m = ground arith
duration-record_all labels (input ∷ inputs) m =
    duration-record_all labels inputs (record_http_request input m)
    ∙ rw (duration-record labels input m) (elim (Bool-cases (labels_of input == labels)) [
      | inl same ↦ rw same (ground arith)
      | inr differs ↦ rw differs (ground arith)
    ])

-- The sum over every entry.
abbrev pub sum_of : Entries ℕ → ℕ
sum_of [] = 0
sum_of ((k, n) ∷ entries) = n + sum_of entries

sum_of-put :
    (k : String) (v : ℕ) (entries : Entries ℕ)
    → sum_of (put k v entries) + or_else (get k entries) 0 ≡ sum_of entries + v
unfolding get put
sum_of-put k v [] = omega arith
sum_of-put k v ((l, n) ∷ entries) = elim (Bool-cases (l == k)) [
  | inl same ↦ rw (same, get, put) (omega arith)
  | inr differs ↦ rw (differs, get, put) (omega (arith, sum_of-put k v entries))
]

sum_of-record_all :
    (inputs : List RecordHttpRequestInput) (m : MetricsState)
    → sum_of (record_all inputs m).http_request_totals
      ≡ sum_of m.http_request_totals + length inputs
unfolding record_all record_http_request
sum_of-record_all [] m = omega arith
sum_of-record_all (input ∷ inputs) m = omega (
  arith,
  sum_of-record_all inputs (record_http_request input m),
  sum_of-put (labels_of input) (total_at (labels_of input) m + 1) m.http_request_totals,
)

-- After any requests from a fresh start, the counters under any labels are the number of the
-- requests with these labels and the sum of their durations, in both tables, and the totals of all
-- labels add up to the number of requests.
pub record_all-counts :
    (inputs : List RecordHttpRequestInput) (started_at : ℕ) (labels : String)
    → (total_at labels (record_all inputs (fresh started_at)) ≡ count_of labels inputs)
      × (duration_at labels (record_all inputs (fresh started_at))
          ≡ record { count = count_of labels inputs; duration_sum_ms = time_of labels inputs })
      × (sum_of (record_all inputs (fresh started_at)).http_request_totals ≡ length inputs)
unfolding get
record_all-counts inputs started_at labels = (
  omega (arith, total-record_all labels inputs (fresh started_at)),
  duration-record_all labels inputs (fresh started_at) ∙ ground arith,
  omega (arith, sum_of-record_all inputs (fresh started_at)),
)
