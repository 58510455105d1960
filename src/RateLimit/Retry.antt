-- ===== src/RateLimit/Retry.antt =====
-- A refused client that waits as long as it is told is let through.
use ops_flow_ms.RateLimit.{
  CounterEntry, RateLimitOptions, RateLimitState, Clock, RateLimitHeaders, increment_counter,
  answer, can_activate, retry_after_seconds,
}
use ops_flow_ms.RateLimit.Window.{IsFresh, increment_fresh}
use ops_flow_ms.Shared.{
  Bool-cases, Option, String, ap, arith, eq_refl, false, inl, inr, ltb, some, some_inj, subst, sym,
  ℕ, ◌*◌, ◌+◌, ◌∙◌, ◌≡◌, ◌≤◌,
}
use ops_flow_ms.Errors.Result.{err, err-ne-ok, ok}
use ops_flow_ms.Metrics.Counts.{fresh}
use ops_flow_ms.Errors.{rate_limit_exceeded, too_many_requests}

-- The seconds cover what is left of the window.
retry_covers : (reset_at now : ℕ) → reset_at ≤ now + 1000 * retry_after_seconds reset_at now
retry_covers reset_at now = omega arith

increment_stored :
    (now : ℕ) (key : String) (window_ms : ℕ) (s : RateLimitState)
    → (increment_counter now key window_ms s).1.counters key
      ≡ some (increment_counter now key window_ms s).0
unfolding increment_counter
increment_stored now key window_ms s = rw (eq_refl key)

answer_seconds :
    (options : RateLimitOptions) (clock : Clock) (e : CounterEntry) (seconds : ℕ)
    → (answer options clock e).0 ≡ err (too_many_requests rate_limit_exceeded seconds)
    → seconds ≡ retry_after_seconds e.reset_at clock.started
unfolding answer
answer_seconds options clock e seconds refused = elim (Bool-cases (ltb options.limit e.count)) [
  | inr within ↦ absurd (
      err-ne-ok (too_many_requests rate_limit_exceeded seconds) tt
        (sym (rw (within, answer) at refused)))
  | inl over ↦
      let is : err
            (too_many_requests rate_limit_exceeded (retry_after_seconds e.reset_at clock.started))
          ≡ err (too_many_requests rate_limit_exceeded seconds) =
        rw (over, answer) at refused in
      cc
]

-- A counter that is taken up after the window passes.
passes_fresh :
    (options : RateLimitOptions) (key : String) (clock : Clock) (s : RateLimitState)
    → 1 ≤ options.limit
    → IsFresh clock.counted key s
    → (can_activate (some options) key clock s).0.0 ≡ ok tt
unfolding can_activate answer
passes_fresh options key clock s some_limit fresh =
    let (same, _) = increment_fresh clock.counted key options.window_ms s fresh in
    let within : ltb options.limit 1 ≡ false = ground arith in rw (same, within)

-- A refused request is told a number of seconds after which a request of the same client to the
-- same route passes, if nothing counted for them in the meantime and the limit is at least one.
pub can_activate_retry :
    (options : RateLimitOptions) (key : String) (clock later : Clock) (s t u : RateLimitState)
    (seconds : ℕ) (headers : Option RateLimitHeaders)
    → 1 ≤ options.limit
    → can_activate (some options) key clock s
      ≡ ((err (too_many_requests rate_limit_exceeded seconds), headers), t)
    → u.counters key ≡ t.counters key
    → clock.started + 1000 * seconds ≤ later.counted
    → (can_activate (some options) key later u).0.0 ≡ ok tt
unfolding can_activate
can_activate_retry options key clock later s t u seconds headers some_limit refused kept waited =
    let entry = (increment_counter clock.counted key options.window_ms s).0 in
    let told = answer_seconds options clock entry seconds (ap (λ x. x.0.0) refused) in
    let after : (increment_counter clock.counted key options.window_ms s).1 ≡ t =
      ap (λ x. x.1) refused in
    let stored : u.counters key ≡ some entry =
      kept
      ∙ subst (λ x. x.counters key ≡ some entry) after
          (increment_stored clock.counted key options.window_ms s) in
    passes_fresh options key later u some_limit (λ e found.
      let is : entry.reset_at ≡ e.reset_at = ap (λ x. x.reset_at) (some_inj (sym stored ∙ found)) in
      omega (arith, is, told, retry_covers entry.reset_at clock.started, waited))
