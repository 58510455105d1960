-- ===== src/RateLimit.antt =====
-- src/common/guards/rate-limit.guard.ts without Redis: requests of a client to a route are counted in
-- memory over a window of time. Times are milliseconds.
pub mod Window
pub mod Retry
pub mod Redis
mod Tests
use ops_flow_ms.Shared.{
  Bool, Map, Option, String, before, ceil_div, concat, if◌then◌else◌, leb, ltb, max, none, or_else,
  remove_where, set, some, truthy, ℕ, ◌+◌, ◌-◌,
}
use ops_flow_ms.Errors.Result.{Result, err, ok}
use ops_flow_ms.Errors.{rate_limit_exceeded, too_many_requests}

pub record CounterEntry : Type 0 where
  pub count : ℕ
  pub reset_at : ℕ

pub record RateLimitOptions : Type 0 where
  pub limit : ℕ
  pub window_ms : ℕ

-- The guard's static state.
pub record RateLimitState : Type 0 where
  pub counters : Map CounterEntry
  pub last_memory_cleanup_at : ℕ

-- What `Date.now()` answers as the guard starts, as it counts and as it writes the headers.
pub record Clock : Type 0 where
  pub started : ℕ
  pub counted : ℕ
  pub answered : ℕ

pub record RateLimitHeaders : Type 0 where
  pub limit : ℕ
  pub remaining : ℕ
  pub reset : ℕ
  pub retry_after : Option ℕ

normalize_route : String → String
normalize_route route = or_else (truthy (some (before b'?' route))) "/"

-- `req.ip || req.socket?.remoteAddress || 'unknown'`
abbrev client : Option String → Option String → String
client ip remote = or_else (truthy ip) (or_else (truthy remote) "unknown")

counter_key : Option String → Option String → String → String → String
unfolding normalize_route
counter_key ip remote method url =
    concat (client ip remote) (concat ":" (concat method (concat ":" (normalize_route url))))

-- A counter whose window is over.
abbrev is_over : ℕ → CounterEntry → Bool
is_over now counter = leb counter.reset_at now

unfoldable pub cleanup_expired_counters : ℕ → RateLimitState → RateLimitState
cleanup_expired_counters now s =
    if ltb (now - s.last_memory_cleanup_at) 60000
    then s
    else record { counters = remove_where (is_over now) s.counters; last_memory_cleanup_at = now }

abbrev pub next_entry : ℕ → ℕ → Option CounterEntry → CounterEntry
next_entry now window_ms none = record { count = 1; reset_at = now + window_ms }
next_entry now window_ms (some existing) =
    if is_over now existing
    then record { count = 1; reset_at = now + window_ms }
    else record existing { count = existing.count + 1 }

unfoldable pub increment_counter : ℕ → String → ℕ → RateLimitState → CounterEntry × RateLimitState
unfolding cleanup_expired_counters
increment_counter now key window_ms s =
    let cleaned = cleanup_expired_counters now s in
    let entry = next_entry now window_ms (cleaned.counters key) in
    (entry, record cleaned { counters = set key entry cleaned.counters })

abbrev pub retry_after_seconds : ℕ → ℕ → ℕ
retry_after_seconds reset_at now = max 1 (ceil_div (reset_at - now) 1000)

abbrev pub set_headers : RateLimitOptions → ℕ → ℕ → Clock → Option ℕ → RateLimitHeaders
set_headers options remaining reset_at clock retry_after = record {
  limit = options.limit;
  remaining = remaining;
  reset = ceil_div (clock.answered + (reset_at - clock.started)) 1000;
  retry_after = retry_after;
}

-- The answer for a counter: the result, and the headers that are set in either case.
unfoldable pub answer :
    RateLimitOptions → Clock → CounterEntry → Result (Unit {0}) × RateLimitHeaders
answer options clock entry =
    let remaining = options.limit - entry.count in
    let seconds = retry_after_seconds entry.reset_at clock.started in
    if ltb options.limit entry.count
    then (
      err (too_many_requests rate_limit_exceeded seconds),
      set_headers options remaining entry.reset_at clock (some seconds),
    )
    else (ok tt, set_headers options remaining entry.reset_at clock none)

-- `canActivate`, on the options of the route, if any, and the key of the request.
unfoldable pub can_activate :
    Option RateLimitOptions
    → String
    → Clock
    → RateLimitState
    → (Result (Unit {0}) × Option RateLimitHeaders) × RateLimitState
can_activate none key clock s = ((ok tt, none), s)
can_activate (some options) key clock s =
    let (entry, t) = increment_counter clock.counted key options.window_ms s in
    let (r, headers) = answer options clock entry in ((r, some headers), t)
