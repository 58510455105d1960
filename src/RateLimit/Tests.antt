-- ===== src/RateLimit/Tests.antt =====
-- The theorems on the rate limit at a limit of two requests in a minute.
use ops_flow_ms.RateLimit.{
  CounterEntry, RateLimitOptions, RateLimitState, Clock, RateLimitHeaders, increment_counter,
  can_activate, cleanup_expired_counters, answer,
}
use ops_flow_ms.RateLimit.Retry.{can_activate_retry}
use ops_flow_ms.RateLimit.Redis.{
  RedisClient, GuardState, LimitedRequest, answers, answers_any, answers-fallback,
}
use ops_flow_ms.RateLimit.Window.{IsFresh, count_passed, count_passed_limit}
use ops_flow_ms.Shared.{
  [], arith, if◌then◌else◌, none, refl, set, some, ℕ, ◌==◌, ◌∷◌, ◌≡◌, inr, ltb, true, ◌+◌,
}
use ops_flow_ms.Errors.Result.{err, ok}
use ops_flow_ms.Errors.{rate_limit_exceeded, too_many_requests}

abbrev two_a_minute : RateLimitOptions
two_a_minute = record { limit = 2; window_ms = 60000 }

abbrev at_time : ℕ → Clock
at_time t = record { started = t; counted = t; answered = t }

abbrev idle : RateLimitState
idle = record { counters = λ k. none; last_memory_cleanup_at = 0 }

idle-IsFresh : IsFresh 100 "k" idle
idle-IsFresh e found = absurd (cc)

count_passed_limit_example :
    count_passed two_a_minute "k" (at_time 100 ∷ at_time 101 ∷ at_time 102 ∷ []) idle ≡ 2
count_passed_limit_example =
    count_passed_limit two_a_minute "k" (at_time 100) (at_time 101 ∷ at_time 102 ∷ []) idle
      idle-IsFresh (omega arith, (omega arith, tt))

abbrev busy_entry : CounterEntry
busy_entry = record { count = 2; reset_at = 60100 }

abbrev busy : RateLimitState
busy = record {
  counters = λ k. if k == "k" then some busy_entry else none;
  last_memory_cleanup_at = 0;
}

abbrev third : CounterEntry
third = record { count = 3; reset_at = 60100 }

abbrev refusal : RateLimitHeaders
refusal = record { limit = 2; remaining = 0; reset = 61; retry_after = some 60 }

abbrev after_third : RateLimitState
after_third = record {
  counters = set "k" third (λ k. if k == "k" then some busy_entry else none);
  last_memory_cleanup_at = 0;
}

refuses :
    can_activate (some two_a_minute) "k" (at_time 200) busy
    ≡ ((err (too_many_requests rate_limit_exceeded 60), some refusal), after_third)
unfolding can_activate increment_counter cleanup_expired_counters answer
refuses = refl

can_activate_retry_example :
    (can_activate (some two_a_minute) "k" (at_time 60200) after_third).0.0 ≡ ok tt
can_activate_retry_example =
    can_activate_retry two_a_minute "k" (at_time 200) (at_time 60200) busy after_third after_third
      60 (some refusal) (omega arith) refuses refl (omega arith)

-- A Redis that counts to two and then fails.
abbrev failing : RedisClient
failing = record {
  Store = ℕ;
  eval = λ key window n. if ltb n 2 then (some (n + 1, window), n + 1) else (none, n);
}

abbrev redis_down : GuardState failing
redis_down = record { redis_enabled = true; redis = 2; memory = busy }

abbrev next_request : LimitedRequest failing
next_request = record { options = two_a_minute; key = "k"; clock = at_time 200 }

answers-fallback_example :
    answers_any failing (next_request ∷ next_request ∷ []) redis_down
    ≡ answers failing (next_request ∷ next_request ∷ []) busy
answers-fallback_example =
    answers-fallback failing next_request (next_request ∷ []) redis_down (inr refl)
