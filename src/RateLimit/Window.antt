-- ===== src/RateLimit/Window.antt =====
-- How many requests pass within one window.
use ops_flow_ms.RateLimit.{
  CounterEntry, RateLimitOptions, RateLimitState, Clock, RateLimitHeaders, cleanup_expired_counters,
  next_entry, increment_counter, answer, can_activate, retry_after_seconds, set_headers,
}
use ops_flow_ms.Shared.{
  Bool-cases, List, Option-cases, String, [], arith, beq_of_ne, eq_refl, if◌then◌else◌, inl, inr,
  length, ltb, min, some, ℕ, ◌+◌, ◌-◌, ◌<◌, ◌∙◌, ◌∷◌, ◌≡◌, ◌≢◌, ◌≤◌, Option, ap, refl, sym,
}
use ops_flow_ms.Errors.Result.{Result, err, ok, err-ne-ok}
use ops_flow_ms.Errors.{Failure, rate_limit_exceeded, too_many_requests}
use ops_flow_ms.Metrics.Counts.{fresh}

cleanup_live :
    (now : ℕ) (s : RateLimitState) (k : String) (e : CounterEntry)
    → s.counters k ≡ some e
    → now < e.reset_at
    → (cleanup_expired_counters now s).counters k ≡ some e
unfolding cleanup_expired_counters
cleanup_live now s k e found live = ground arith

cleanup_over :
    (now : ℕ) (s : RateLimitState) (k : String) (e : CounterEntry)
    → (cleanup_expired_counters now s).counters k ≡ some e
    → s.counters k ≡ some e
unfolding cleanup_expired_counters
cleanup_over now s k e found = elim (Bool-cases (ltb (now - s.last_memory_cleanup_at) 60000)) [
  | inl early ↦ rw early at found
  | inr due ↦ elim (Option-cases (s.counters k)) [
    | inl missing ↦ absurd (let f = rw (due, missing) at found in cc)
    | inr (q, here') ↦ let f = rw (due, here') at found in here' ∙ ground arith
  ]
]

-- A request of another client or route leaves a counter whose window is not over as it is.
increment_counter_others :
    (now : ℕ) (key : String) (window_ms : ℕ) (s : RateLimitState) (k : String) (e : CounterEntry)
    → k ≢ key
    → now < e.reset_at
    → s.counters k ≡ some e
    → (increment_counter now key window_ms s).1.counters k ≡ some e
unfolding increment_counter
increment_counter_others now key window_ms s k e other live found =
    rw (beq_of_ne k key other) (cleanup_live now s k e found live)

-- A counter whose window is not over counts on.
increment_live :
    (now : ℕ) (key : String) (window_ms : ℕ) (s : RateLimitState) (e : CounterEntry)
    → s.counters key ≡ some e
    → now < e.reset_at
    → let next : CounterEntry = record e { count = e.count + 1 } in
      ((increment_counter now key window_ms s).0 ≡ next)
      × ((increment_counter now key window_ms s).1.counters key ≡ some next)
unfolding increment_counter
increment_live now key window_ms s e found live =
    let kept = cleanup_live now s key e found live in
    let counts : next_entry now window_ms (some e) ≡ record e { count = e.count + 1 } =
      ground arith in
    (rw (kept, counts), rw (eq_refl key, kept, counts))

-- The state has no counter for the key, or one whose window is over.
abbrev pub IsFresh : ℕ → String → RateLimitState → Type 0
IsFresh now key s = (e : CounterEntry) → s.counters key ≡ some e → e.reset_at ≤ now

pub increment_fresh :
    (now : ℕ) (key : String) (window_ms : ℕ) (s : RateLimitState)
    → IsFresh now key s
    → let next : CounterEntry = record { count = 1; reset_at = now + window_ms } in
      ((increment_counter now key window_ms s).0 ≡ next)
      × ((increment_counter now key window_ms s).1.counters key ≡ some next)
unfolding increment_counter
increment_fresh now key window_ms s fresh =
    elim (Option-cases ((cleanup_expired_counters now s).counters key)) [
      | inl missing ↦ (rw missing, rw (eq_refl key, missing))
      | inr (e, found) ↦
          let over = fresh e (cleanup_over now s key e found) in
          let starts : next_entry now window_ms (some e)
              ≡ record { count = 1; reset_at = now + window_ms } =
            ground (arith, over) in
          (rw (found, starts), rw (eq_refl key, found, starts))
    ]

abbrev pub passed : Result (Unit {0}) → ℕ
passed (ok _) = 1
passed (err _) = 0

passed-answer :
    (options : RateLimitOptions) (clock : Clock) (e : CounterEntry)
    → passed (answer options clock e).0 ≡ (if ltb options.limit e.count then 0 else 1)
unfolding answer
passed-answer options clock e = ground arith

module _ (options : RateLimitOptions) (key : String) where
  -- How many of the requests pass, one after another.
  unfoldable pub count_passed : List Clock → RateLimitState → ℕ
  count_passed [] s = 0
  count_passed (clock ∷ later) s =
      let (r, t) = can_activate (some options) key clock s in passed r.0 + count_passed later t

  abbrev AllBefore : ℕ → List Clock → Type 0
  AllBefore end [] = Unit
  AllBefore end (clock ∷ later) = (clock.counted < end) × AllBefore end later

  count_passed_live :
      (requests : List Clock) (s : RateLimitState) (e : CounterEntry)
      → s.counters key ≡ some e
      → AllBefore e.reset_at requests
      → count_passed requests s + min e.count options.limit
        ≡ min (e.count + length requests) options.limit
  unfolding count_passed can_activate
  count_passed_live [] s e found before' = omega arith
  count_passed_live (clock ∷ later) s e found (live, before') =
      let next : CounterEntry = record e { count = e.count + 1 } in
      let (same, stored) = increment_live clock.counted key options.window_ms s e found live in
      let rest =
        count_passed_live later (increment_counter clock.counted key options.window_ms s).1 next
          stored before' in
      let one = passed-answer options clock next in rw (same, one) (ground (arith, rest))

  -- Of the requests that a client makes to a route within one window, from the one that opens it,
  -- exactly as many pass as the limit allows: all of them up to the limit, and the limit beyond.
  pub count_passed_limit :
      (first : Clock) (later : List Clock) (s : RateLimitState)
      → IsFresh first.counted key s
      → AllBefore (first.counted + options.window_ms) later
      → count_passed (first ∷ later) s ≡ min (length (first ∷ later)) options.limit
  unfolding count_passed can_activate
  count_passed_limit first later s fresh before' =
      let start : CounterEntry = record {
        count = 1;
        reset_at = first.counted + options.window_ms;
      } in
      let (same, stored) = increment_fresh first.counted key options.window_ms s fresh in
      let rest =
        count_passed_live later (increment_counter first.counted key options.window_ms s).1 start
          stored before' in
      let one = passed-answer options first start in rw (same, one) (ground (arith, rest))

-- A request that the guard refuses is answered 429 RATE_LIMIT_EXCEEDED with the header Retry-After,
-- both naming the same number of seconds, at least one, and none remain.
pub can_activate_refused :
    (options : RateLimitOptions) (key : String) (clock : Clock) (s t : RateLimitState)
    (error : Failure) (headers : Option RateLimitHeaders)
    → can_activate (some options) key clock s ≡ ((err error, headers), t)
    → (seconds : ℕ) × (h : RateLimitHeaders) × (headers ≡ some h)
      × (1 ≤ seconds)
      × (error ≡ too_many_requests rate_limit_exceeded seconds)
      × (h.retry_after ≡ some seconds)
      × (h.remaining ≡ 0)
unfolding can_activate answer
can_activate_refused options key clock s t error headers e =
    let entry = (increment_counter clock.counted key options.window_ms s).0 in
    let refused = ap (λ x. x.0) e in
    elim (Bool-cases (ltb options.limit entry.count)) [
      | inr within ↦
          let e' = rw (within, answer) at refused in
          absurd (err-ne-ok error tt (sym (ap (λ x. x.0) e')))
      | inl over ↦
          let e' = rw (over, answer) at refused in
          let seconds = retry_after_seconds entry.reset_at clock.started in
          let h =
            set_headers options (options.limit - entry.count) entry.reset_at clock (some seconds) in
          (
            seconds,
            h,
            sym (ap (λ x. x.1) e'),
            omega arith,
            (let q : err (too_many_requests rate_limit_exceeded seconds) ≡ err error =
                  ap (λ x. x.0) e' in
                cc),
            refl,
            ground arith,
          )
    ]
