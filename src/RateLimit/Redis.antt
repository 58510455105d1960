-- ===== src/RateLimit/Redis.antt =====
-- src/common/guards/rate-limit.guard.ts with Redis, which counts for several processes. Where its client
-- cannot be loaded or a call fails, the guard goes over to the counters in memory.
use ops_flow_ms.RateLimit.{
  CounterEntry, RateLimitOptions, RateLimitState, Clock, RateLimitHeaders, increment_counter,
  answer, can_activate,
}
use ops_flow_ms.Shared.{
  Bool, Option, String, concat, false, if◌then◌else◌, is_some, ltb, none, some, truthy, ℕ, ◌+◌,
  Bool-cases, List, [], ap, inl, inr, ◌∙◌, ◌∷◌, ◌≡◌, ◌⊎◌,
}
use ops_flow_ms.Errors.Result.{Result, ok}

-- The client of Redis: the script that counts a request, on the key and the window, answers the count
-- and the time to live, as 0 where Redis gives none, or fails.
pub record RedisClient : Type 1 where
  pub Store : Type 0
  pub eval : String → ℕ → Store → Option (ℕ × ℕ) × Store

cons_eq {ℓ} : {A : Type ℓ} {a b : A} {xs ys : List A} → a ≡ b → xs ≡ ys → a ∷ xs ≡ b ∷ ys
cons_eq h k = cc

module _ (client : RedisClient) where
  open client use {Store, eval}

  pub record GuardState : Type 0 where
    pub redis_enabled : Bool
    pub redis : Store
    pub memory : RateLimitState

  -- `onModuleInit`, on the variable REDIS_URL and on whether the client connects.
  on_module_init : Option String → Bool → GuardState → GuardState
  on_module_init redis_url connects g =
      if is_some (truthy redis_url) then record g { redis_enabled = connects } else g

  on_module_destroy : Bool → GuardState → GuardState
  on_module_destroy has_client g = if has_client then record g { redis_enabled = false } else g

  -- The count in memory.
  pub increment_memory : ℕ → String → ℕ → GuardState → CounterEntry × GuardState
  unfolding increment_counter
  increment_memory now key window_ms g =
      let (entry, memory) = increment_counter now key window_ms g.memory in
      (entry, record g { memory = memory })

  abbrev pub counted : ℕ → String → ℕ → GuardState → Option (ℕ × ℕ) → CounterEntry × GuardState
  counted now key window_ms g (some (count, ttl)) =
      (record { count = count; reset_at = now + (if ltb 0 ttl then ttl else window_ms) }, g)
  counted now key window_ms g none =
      increment_memory now key window_ms (record g { redis_enabled = false })

  -- `incrementCounter`.
  increment : ℕ → String → ℕ → GuardState → CounterEntry × GuardState
  unfolding increment_memory
  increment now key window_ms g =
      let (reply, redis) = eval (concat "rl:" key) window_ms g.redis in
      if g.redis_enabled
      then counted now key window_ms (record g { redis = redis }) reply
      else increment_memory now key window_ms g

  pub can_activate_any :
      Option RateLimitOptions
      → String
      → Clock
      → GuardState
      → (Result (Unit {0}) × Option RateLimitHeaders) × GuardState
  unfolding increment answer
  can_activate_any none key clock g = ((ok tt, none), g)
  can_activate_any (some options) key clock g =
      let (entry, g') = increment clock.counted key options.window_ms g in
      let (r, headers) = answer options clock entry in ((r, some headers), g')

  -- Redis is off, or the next call of it fails.
  abbrev IsOff : String → ℕ → GuardState → Type 0
  IsOff key window_ms g =
      (g.redis_enabled ≡ false) ⊎ ((eval (concat "rl:" key) window_ms g.redis).0 ≡ none)

  can_activate_off :
      (options : RateLimitOptions) (key : String) (clock : Clock) (g : GuardState)
      → IsOff key options.window_ms g
      → ((can_activate_any (some options) key clock g).0
          ≡ (can_activate (some options) key clock g.memory).0)
        × ((can_activate_any (some options) key clock g).1.memory
            ≡ (can_activate (some options) key clock g.memory).1)
        × ((can_activate_any (some options) key clock g).1.redis_enabled ≡ false)
  unfolding can_activate_any increment increment_memory can_activate
  can_activate_off options key clock g (inl off) =
      (rw (off, increment), rw (off, increment), rw (off, increment))
  can_activate_off options key clock g (inr fails) = elim (Bool-cases g.redis_enabled) [
    | inl on ↦ (
      rw (on, increment, fails, increment_memory),
      rw (on, increment, fails, increment_memory),
      rw (on, increment, fails, increment_memory),
    )
    | inr off ↦ (rw (off, increment), rw (off, increment), rw (off, increment))
  ]

  -- A request to a route with a limit.
  pub record LimitedRequest : Type 0 where
    pub options : RateLimitOptions
    pub key : String
    pub clock : Clock

  -- What requests are answered, one after the other, with and without Redis.
  unfoldable pub answers_any :
      List LimitedRequest → GuardState → List (Result (Unit {0}) × Option RateLimitHeaders)
  answers_any [] g = []
  answers_any (q ∷ later) g =
      let (a, g') = can_activate_any (some q.options) q.key q.clock g in a ∷ answers_any later g'

  unfoldable pub answers :
      List LimitedRequest → RateLimitState → List (Result (Unit {0}) × Option RateLimitHeaders)
  answers [] s = []
  answers (q ∷ later) s =
      let (a, s') = can_activate (some q.options) q.key q.clock s in a ∷ answers later s'

  -- From the first request at which Redis is off or fails, any sequence of requests is answered
  -- exactly as by the guard that counts in memory.
  pub answers-fallback :
      (first : LimitedRequest) (later : List LimitedRequest) (g : GuardState)
      → IsOff first.key first.options.window_ms g
      → answers_any (first ∷ later) g ≡ answers (first ∷ later) g.memory
  unfolding answers_any answers
  answers-fallback first [] g off =
      let (same, _, _) = can_activate_off first.options first.key first.clock g off in
      ap (λ a. a ∷ []) same
  answers-fallback first (next ∷ later) g off =
      let (same, memory, disabled) = can_activate_off first.options first.key first.clock g off in
      let rest =
        answers-fallback next later
          (can_activate_any (some first.options) first.key first.clock g).1 (inl disabled) in
      cons_eq same (rest ∙ ap (answers (next ∷ later)) memory)
