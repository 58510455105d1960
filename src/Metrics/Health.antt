-- ===== src/Metrics/Health.antt =====
-- src/health/health.service.ts. Whether the query that probes the database succeeds is an argument, as is
-- the text of the time.
use ops_flow_ms.Shared.{Bool, String, false, if◌then◌else◌, none, refl, true, ◌≡◌}
use ops_flow_ms.Errors.{Failure, db_unavailable, http}
use ops_flow_ms.Errors.Result.{Result, err, ok, succeeds}

pub record Health : Type 0 where
  pub status : String
  pub timestamp : String

pub record Readiness : Type 0 where
  pub status : String
  pub database : String
  pub timestamp : String

abbrev get_health : String → Health
get_health timestamp = record { status = "ok"; timestamp = timestamp }

abbrev pub service_unavailable : Failure
service_unavailable =
    http
      (record { status = 503; code = db_unavailable; details = none; retry_after_seconds = none })

unfoldable get_readiness : Bool → String → Result Readiness
get_readiness answers timestamp =
    if answers
    then ok (record { status = "ready"; database = "up"; timestamp = timestamp })
    else err service_unavailable

-- The service is ready exactly while the database answers.
get_readiness_iff :
    (answers : Bool) (timestamp : String) → succeeds (get_readiness answers timestamp) ≡ answers
unfolding get_readiness
get_readiness_iff true timestamp = refl
get_readiness_iff false timestamp = refl
