-- ===== src/LoginAttempts.antt =====
-- src/auth/login-attempt.service.ts without Redis: failed logins are counted in memory, and too many
-- lock the address and the account out. Times are milliseconds; a difference of times that would be
-- negative stops at 0, on which every comparison here answers as it does on the negative number.
use ops_flow_ms.Errors.Action.{Action}
pub mod Locking
pub mod Failures
pub mod Lockout
pub mod Redis
mod Tests
use ops_flow_ms.Shared.{
  ceil_div, Bool, Map, Option, String, if◌then◌else◌, leb, ltb, max, min, none, or_else, remove,
  remove_where, set, some, to_lower_case, trim, true, truthy, ℕ, ◌&&◌, ◌*◌, ◌++◌, ◌+◌, ◌-◌, ◌^◌,
  concat,
}
use ops_flow_ms.Errors.Result.{Result, err, ok}
use ops_flow_ms.Errors.{auth_login_locked, too_many_requests}

pub record LoginAttemptRecord : Type 0 where
  pub failures : ℕ
  pub last_failure_at : ℕ
  pub lock_until : ℕ

-- The options under `loginProtection`.
pub record LoginProtection : Type 0 where
  pub enabled : Option Bool
  pub max_failures : Option ℕ
  pub window_ms : Option ℕ
  pub base_lock_ms : Option ℕ
  pub max_lock_ms : Option ℕ

-- The service's state.
pub record LoginAttemptState : Type 0 where
  pub attempts : Map LoginAttemptRecord
  pub last_memory_cleanup_at : ℕ

abbrev memory_cleanup_interval_ms : ℕ
memory_cleanup_interval_ms = 60000

-- `(ip ?? 'unknown').trim() || 'unknown'`
abbrev normalized_ip : Option String → String
normalized_ip ip = or_else (truthy (some (trim (or_else ip "unknown")))) "unknown"

unfoldable pub build_key : String → Option String → String
build_key email ip = concat (normalized_ip ip) (concat "|" (to_lower_case (trim email)))

module _ (config : LoginProtection) where
  abbrev pub is_enabled : Bool
  is_enabled = or_else config.enabled true

  abbrev pub get_max_failures : ℕ
  get_max_failures = or_else config.max_failures 5

  abbrev pub get_window_ms : ℕ
  get_window_ms = or_else config.window_ms (15 * 60000)

  abbrev get_base_lock_ms : ℕ
  get_base_lock_ms = or_else config.base_lock_ms 60000

  abbrev pub get_max_lock_ms : ℕ
  get_max_lock_ms = or_else config.max_lock_ms (30 * 60000)

  -- An entry that the cleanup deletes: both the window and the lock are over.
  abbrev pub is_expired : ℕ → LoginAttemptRecord → Bool
  is_expired now r = ltb get_window_ms (now - r.last_failure_at) && leb r.lock_until now

  unfoldable pub cleanup_expired_attempts : ℕ → LoginAttemptState → LoginAttemptState
  cleanup_expired_attempts now s =
      if ltb (now - s.last_memory_cleanup_at) memory_cleanup_interval_ms then s else record {
        attempts = remove_where (is_expired now) s.attempts;
        last_memory_cleanup_at = now;
      }

  abbrev pub retry_after_seconds : ℕ → ℕ → ℕ
  retry_after_seconds lock_until now = max 1 (ceil_div (lock_until - now) 1000)

  abbrev pub throw_locked : ℕ → ℕ → Result (Unit {0})
  throw_locked lock_until now =
      err (too_many_requests auth_login_locked (retry_after_seconds lock_until now))

  -- The part of `assertNotLocked` after the entry has been read.
  abbrev pub check_entry :
      ℕ
      → String
      → Option LoginAttemptRecord
      → LoginAttemptState
      → Result (Unit {0}) × LoginAttemptState
  check_entry now key none s = (ok tt, s)
  check_entry now key (some current) s =
      if ltb now current.lock_until then (throw_locked current.lock_until now, s) else (
        ok tt,
        if ltb get_window_ms (now - current.last_failure_at)
            then record s { attempts = remove key s.attempts }
            else s,
      )

  unfoldable pub assert_not_locked :
      ℕ → String → Option String → Action LoginAttemptState (Unit {0})
  unfolding build_key cleanup_expired_attempts
  assert_not_locked now email ip s =
      if is_enabled
      then (let cleaned = cleanup_expired_attempts now s in
          let key = build_key email ip in check_entry now key (cleaned.attempts key) cleaned)
      else (ok tt, s)

  unfoldable pub record_success : String → Option String → LoginAttemptState → LoginAttemptState
  unfolding build_key
  record_success email ip s =
      if is_enabled then record s { attempts = remove (build_key email ip) s.attempts } else s

  abbrev pub next_failures : ℕ → Option LoginAttemptRecord → ℕ
  next_failures now none = 1
  next_failures now (some current) =
      if leb (now - current.last_failure_at) get_window_ms then current.failures + 1 else 1

  -- `current?.lockUntil ?? 0`
  abbrev pub old_lock : Option LoginAttemptRecord → ℕ
  old_lock none = 0
  old_lock (some current) = current.lock_until

  abbrev pub lock_ms : ℕ → ℕ
  lock_ms failures = min (get_base_lock_ms * 2 ^ (failures - get_max_failures)) get_max_lock_ms

  abbrev pub failed_record : ℕ → Option LoginAttemptRecord → LoginAttemptRecord
  failed_record now current = record {
    failures = next_failures now current;
    last_failure_at = now;
    lock_until =
        if leb get_max_failures (next_failures now current)
        then now + lock_ms (next_failures now current)
        else old_lock current;
  }

  unfoldable pub record_failure : ℕ → String → Option String → LoginAttemptState → LoginAttemptState
  unfolding build_key cleanup_expired_attempts
  record_failure now email ip s =
      if is_enabled
      then (let cleaned = cleanup_expired_attempts now s in
          let key = build_key email ip in
          record cleaned {
            attempts = set key (failed_record now (cleaned.attempts key)) cleaned.attempts;
          })
      else s
