-- ===== src/LoginAttempts/Redis.antt =====
-- src/auth/login-attempt.service.ts with Redis, which counts for several processes. A call of its
-- client that fails makes the method fail, here with `none`; nothing falls back to the memory then.
pub mod Lockout
mod Tests
use Prim.Native.String.{char_at}
use Prim.Native.Char.{code}
use text.Mathlib.TextLemmas.{cons-append}
use ops_flow_ms.Shared.{
  Bool, Option, String, concat, eqb, false, if◌then◌else◌, is_some, leb, ltb, none, number_of, some,
  truthy, ℕ, ◌&&◌, ◌+◌, ◌<◌, ◌≡◌, ◌≢◌, Bool-cases, List, [], inl, inr, ◌∷◌, ◌≤◌, ap, ◌∙◌, arith,
  length, refl, subst, true, or_else, sym, suc, zero,
}
use ops_flow_ms.LoginAttempts.{
  LoginAttemptState, LoginProtection, assert_not_locked, build_key, get_max_failures, get_window_ms,
  is_enabled, lock_ms, record_failure, record_success, throw_locked,
}
use ops_flow_ms.Errors.Result.{Result, ok, ◌>>=◌, ◌>>◌}
use ops_flow_ms.RateLimit.Redis.{counted}
use ops_flow_ms.LoginAttempts.Locking.{locks}

-- The client of Redis and the commands that the script runs on a key, each at a time. `counter` is the
-- number that INCR finds, 0 where no key is stored, and adds one to; `works` tells whether the next call gets through.
pub record LoginRedis : Type 1 where
  pub Store : Type 0
  pub works : Store → Bool
  pub counter : ℕ → String → Store → ℕ
  pub get : ℕ → String → Store → Option String
  pub incr : ℕ → String → Store → Store
  pub pexpire : ℕ → String → ℕ → Store → Store
  pub set_px : ℕ → String → String → ℕ → Store → Store
  pub del : String → Store → Store
  pub tostring : ℕ → String
  pub counter-incr_first :
      (now later : ℕ) (key : String) (window : ℕ) (s : Store)
      → counter now key s ≡ 0
      → later < now + window
      → counter later key (pexpire now key window (incr now key s)) ≡ 1
  pub counter-incr_next :
      (now later : ℕ) (key : String) (s : Store) (n : ℕ)
      → counter now key s ≡ n + 1
      → counter later key s ≡ n + 1
      → counter later key (incr now key s) ≡ n + 1 + 1
  pub counter-set_px :
      (now later : ℕ) (key other value : String) (ms : ℕ) (s : Store)
      → key ≢ other
      → counter later key (set_px now other value ms s) ≡ counter later key s
  pub get-set_px :
      (now later : ℕ) (key value : String) (ms : ℕ) (s : Store)
      → later < now + ms
      → get later key (set_px now key value ms s) ≡ some value
  pub number_of-tostring : (n : ℕ) → n < 100000000000000 → number_of (tostring n) ≡ some n

unfoldable pub failure_key : String → String
failure_key key = concat "login_lock:failures:" key

unfoldable pub lock_key : String → String
lock_key key = concat "login_lock:lock_until:" key

module _ (config : LoginProtection) (client : LoginRedis) where
  open client use {Store, works, counter, get, incr, pexpire, set_px, del, tostring}

  pub record LoginStore : Type 0 where
    pub redis_enabled : Bool
    pub redis : Store
    pub memory : LoginAttemptState

  -- `onModuleInit`, on the configured address and on whether the client connects.
  on_module_init : Option String → Bool → LoginStore → LoginStore
  on_module_init redis_url connects g =
      if is_some (truthy redis_url) then record g { redis_enabled = connects } else g

  on_module_destroy : Bool → LoginStore → LoginStore
  on_module_destroy has_client g = if has_client then record g { redis_enabled = false } else g

  reset_for_tests : LoginStore → LoginStore
  reset_for_tests g = record g {
    memory = record { attempts = λ k. none; last_memory_cleanup_at = 0 };
  }

  -- What `assertNotLocked` makes of the text under the key of the lock.
  abbrev check_lock : ℕ → Option ℕ → Result (Unit {0})
  check_lock now none = ok tt
  check_lock now (some lock_until) =
      if ltb now lock_until then throw_locked config lock_until now else ok tt

  abbrev lock_until_of : Option String → Option ℕ
  lock_until_of none = none
  lock_until_of (some raw) = number_of raw

  unfoldable pub assert_not_locked_any :
      ℕ → String → Option String → LoginStore → Option (Result (Unit {0}) × LoginStore)
  unfolding assert_not_locked number_of build_key lock_key
  assert_not_locked_any now email ip g =
      if is_enabled config && g.redis_enabled
      then (if works g.redis
          then some
              (check_lock now (lock_until_of (get now (lock_key (build_key email ip)) g.redis)), g)
          else none)
      else (let (r, memory) = assert_not_locked config now email ip g.memory in
          some (r, record g { memory = memory }))

  unfoldable pub record_success_any : String → Option String → LoginStore → Option LoginStore
  unfolding record_success build_key failure_key lock_key
  record_success_any email ip g =
      let key = build_key email ip in
      if is_enabled config && g.redis_enabled
      then (if works g.redis
          then some (record g { redis = del (lock_key key) (del (failure_key key) g.redis) })
          else none)
      else some (record g { memory = record_success config email ip g.memory })

  -- The script of `recordFailure`, with the number of failures that it reads.
  unfoldable pub count_failure : ℕ → String → Store → ℕ × Store
  unfolding failure_key
  count_failure now key s =
      let failures = counter now (failure_key key) s + 1 in
      let counted = incr now (failure_key key) s in
      (
        failures,
        if eqb failures 1
            then pexpire now (failure_key key) (get_window_ms config) counted
            else counted,
      )

  unfoldable pub eval_failure : ℕ → String → Store → Store
  unfolding count_failure lock_key
  eval_failure now key s =
      let (failures, counted) = count_failure now key s in
      let ms = lock_ms config failures in
      if leb (get_max_failures config) failures
      then set_px now (lock_key key) (tostring (now + ms)) ms counted
      else counted

  unfoldable pub record_failure_any : ℕ → String → Option String → LoginStore → Option LoginStore
  unfolding eval_failure record_failure build_key
  record_failure_any now email ip g =
      if is_enabled config && g.redis_enabled
      then (if works g.redis
          then some (record g { redis = eval_failure now (build_key email ip) g.redis })
          else none)
      else some (record g { memory = record_failure config now email ip g.memory })

  -- Failures of one address and account at some times, one after the other.
  unfoldable pub fail_all_any : List ℕ → String → Option String → LoginStore → Option LoginStore
  unfolding record_failure_any
  fail_all_any [] email ip g = some g
  fail_all_any (t ∷ ts) email ip g = elim (record_failure_any t email ip g) [
    | none ↦ none
    | some g' ↦ fail_all_any ts email ip g'
  ]
