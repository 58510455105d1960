-- ===== src/Audit/Tests.antt =====
-- The theorem on a write that fails, a read and another write, whose entries are stored out of order.
use ops_flow_ms.Audit.{AuditEntry, AuditState, settle, failed, intercept, fields, log, completed}
use ops_flow_ms.Shared.{
  Bool, List, String, [], eqb, false, length, none, or_else, refl, some, true, ◌+◌, ◌∷◌, ◌≡◌, ◌≤◌,
}
use ops_flow_ms.Audit.Log.{
  Event, accounted, called, request, run, run-accounted, write_ends, count_where,
}
use ops_flow_ms.Metrics.Interceptor.{HttpRequest}
use ops_flow_ms.Guards.{one_value}

abbrev request_of : String → HttpRequest
request_of method = record {
  method = method;
  original_url = none;
  url = "/branches";
  ip = none;
  user_agent = none;
  request_id = none;
}

abbrev day : List Event
day =
    request (request_of "POST") (one_value "r1") (some "u1") (failed (fields (some 409) none))
    ∷ request (request_of "GET") (one_value "r2") (some "u1") (completed 200)
    ∷ request (request_of "PATCH") (one_value "r3") (some "u1") (completed 200)
    ∷ write_ends 1 true
    ∷ write_ends 0 false
    ∷ []

abbrev nothing : AuditState
nothing = record { pending = []; table = []; refused = [] }

abbrev is_conflict : AuditEntry → Bool
is_conflict e = eqb (or_else e.status_code 0) 409

run-day : (accounted is_conflict (run day nothing) ≡ 1) × (length (run day nothing).table ≡ 1)
unfolding run intercept log settle
run-day = (refl, refl)

run-accounted_example :
    (accounted is_conflict (run day nothing)
      ≡ accounted is_conflict nothing + called is_conflict day)
    × (count_where is_conflict [] ≤ count_where is_conflict (run day nothing).table)
run-accounted_example = run-accounted is_conflict day nothing
