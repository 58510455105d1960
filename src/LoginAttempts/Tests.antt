-- ===== src/LoginAttempts/Tests.antt =====
-- The theorems on failed logins with the default options.
use ops_flow_ms.LoginAttempts.{
  LoginProtection, LoginAttemptRecord, LoginAttemptState, build_key, assert_not_locked,
  throw_locked, record_failure, cleanup_expired_attempts,
}
use ops_flow_ms.LoginAttempts.Failures.{fail_all}
use ops_flow_ms.LoginAttempts.Lockout.{lockout, IsBounded}
use ops_flow_ms.Shared.{List, [], arith, none, refl, some, trim, ℕ, ◌∷◌, ◌≡◌, to_lower_case}

abbrev defaults : LoginProtection
defaults = record {
  enabled = none;
  max_failures = none;
  window_ms = none;
  base_lock_ms = none;
  max_lock_ms = none;
}

abbrev untouched : LoginAttemptState
untouched = record { attempts = λ k. none; last_memory_cleanup_at = 0 }

abbrev five : List ℕ
five = 0 ∷ 1 ∷ 2 ∷ 3 ∷ 4 ∷ []

lockout_example :
    (assert_not_locked defaults 60003 "ana@x.io" none
      (fail_all defaults "ana@x.io" none refl five untouched)).0
    ≡ throw_locked defaults 60004 60003
lockout_example =
    lockout defaults "ana@x.io" none refl 0 (1 ∷ 2 ∷ 3 ∷ 4 ∷ []) untouched 60003
      (omega arith, (omega arith, (omega arith, (omega arith, tt)))) (omega arith) (omega arith)

untouched-IsBounded : IsBounded defaults 3 untouched
untouched-IsBounded k r found = absurd (cc)

abbrev at_nine : LoginAttemptRecord
at_nine = record { failures = 1; last_failure_at = 9; lock_until = 0 }

fails_at_nine :
    (record_failure defaults 9 "a" none untouched).attempts (build_key "a" none) ≡ some at_nine
unfolding record_failure build_key cleanup_expired_attempts trim to_lower_case
fails_at_nine = refl
