-- ===== src/LoginAttempts/Failures.antt =====
-- What a failed login and a successful one change, and that a streak of failures locks.
use ops_flow_ms.LoginAttempts.{
  LoginProtection, LoginAttemptRecord, LoginAttemptState, build_key, is_enabled, get_max_failures,
  get_window_ms, cleanup_expired_attempts, record_failure, next_failures, failed_record, lock_ms,
  old_lock,
}
use ops_flow_ms.LoginAttempts.Locking.{locks, counts_on, cleanup-locks, cleanup-counts_on}
use ops_flow_ms.Shared.{
  Bool-cases, List, Option, String, [], ap, arith, beq_of_ne, eq_refl, if◌then◌else◌, inl, inr, leb,
  length, ltb, none, refl, some, true, ℕ, ◌+◌, ◌-◌, ◌∙◌, ◌∷◌, ◌≡◌, ◌≢◌, ◌≤◌,
}

module _ (config : LoginProtection) where
  next_failures_lem :
      (now : ℕ) (e : Option LoginAttemptRecord)
      → next_failures config now e ≡ counts_on config now e + 1
  next_failures_lem now none = refl
  next_failures_lem now (some r) = ground arith

  old_lock_lem :
      (later : ℕ) (e : Option LoginAttemptRecord) → ltb later (old_lock config e) ≡ locks later e
  old_lock_lem later none = ground arith
  old_lock_lem later (some r) = refl

  module _ (email : String) (ip : Option String) (on : is_enabled config ≡ true) where
    abbrev key : String
    key = build_key email ip

    -- The entry that a failure leaves.
    left :
        (now : ℕ) (s : LoginAttemptState)
        → (record_failure config now email ip s).attempts key
          ≡ some (failed_record config now ((cleanup_expired_attempts config now s).attempts key))
    unfolding record_failure
    left now s = rw on (rw (eq_refl key))

    left_others :
        (now : ℕ) (s : LoginAttemptState) (k : String)
        → k ≢ key
        → (record_failure config now email ip s).attempts k
          ≡ (cleanup_expired_attempts config now s).attempts k
    unfolding record_failure
    left_others now s k other = rw on (rw (beq_of_ne k key other))

    counted :
        (now : ℕ) (s : LoginAttemptState)
        → next_failures config now ((cleanup_expired_attempts config now s).attempts key)
          ≡ counts_on config now (s.attempts key) + 1
    counted now s =
        next_failures_lem now ((cleanup_expired_attempts config now s).attempts key)
        ∙ ap (λ n. n + 1) (cleanup-counts_on config now s key)

    left_locks :
        (now later n : ℕ) (e : Option LoginAttemptRecord)
        → next_failures config now e ≡ n
        → locks later (some (failed_record config now e)) ≡ (
            if leb (get_max_failures config) n
            then ltb later (now + lock_ms config n)
            else locks later e)
    left_locks now later n e same = elim (Bool-cases (leb (get_max_failures config) n)) [
      | inl many ↦ rw (same, many)
      | inr few ↦ rw (same, few) (old_lock_lem later e)
    ]

    -- With the protection on, a failed login counts one more failure for its address and account
    -- than the failures that still count, and from the configured number on locks them for the base
    -- time doubled by each further failure, up to the maximum; below that number an earlier lock
    -- holds as before. No lock of another address or account is set or lifted.
    pub record_failure_lem :
        (now : ℕ) (s : LoginAttemptState)
        → let n = counts_on config now (s.attempts (build_key email ip)) + 1 in
          let after = (record_failure config now email ip s).attempts in
          ((r : LoginAttemptRecord) × (after (build_key email ip) ≡ some r)
            × (r.failures ≡ n)
            × (r.last_failure_at ≡ now)
            × ((later : ℕ)
                → now ≤ later
                → locks later (some r) ≡ (
                    if leb (get_max_failures config) n
                    then ltb later (now + lock_ms config n)
                    else locks later (s.attempts (build_key email ip)))))
          × ((k : String) (later : ℕ)
              → k ≢ build_key email ip
              → now ≤ later
              → locks later (after k) ≡ locks later (s.attempts k))
    record_failure_lem now s =
        let e = (cleanup_expired_attempts config now s).attempts key in
        let n = counts_on config now (s.attempts key) + 1 in
        (
          (
            failed_record config now e,
            left now s,
            counted now s,
            refl,
            λ later after.
                left_locks now later n e (counted now s)
                ∙ ap
                    (λ b.
                      if leb (get_max_failures config) n
                      then ltb later (now + lock_ms config n)
                      else b)
                    (cleanup-locks config now later s key after),
          ),
          λ k later other after.
              ap (locks later) (left_others now s k other)
              ∙ cleanup-locks config now later s k after,
        )

    -- Failures one after another.
    unfoldable pub fail_all : List ℕ → LoginAttemptState → LoginAttemptState
    fail_all [] s = s
    fail_all (t ∷ ts) s = fail_all ts (record_failure config t email ip s)

    -- The time of the last failure.
    abbrev pub last_of : ℕ → List ℕ → ℕ
    last_of t [] = t
    last_of t (u ∷ us) = last_of u us

    -- Each failure comes within the window of the one before.
    abbrev pub IsStreak : ℕ → List ℕ → Type 0
    IsStreak t [] = Unit
    IsStreak t (u ∷ us) = (u - t ≤ get_window_ms config) × IsStreak u us

    pub streak_record :
        (t : ℕ) (ts : List ℕ) (s : LoginAttemptState)
        → IsStreak t ts
        → (r : LoginAttemptRecord) × ((fail_all (t ∷ ts) s).attempts key ≡ some r)
          × (r.failures ≡ counts_on config t (s.attempts key) + 1 + length ts)
          × ((get_max_failures config ≤ r.failures)
              → r.lock_until ≡ last_of t ts + lock_ms config r.failures)
    unfolding fail_all
    streak_record t [] s h =
        let e = (cleanup_expired_attempts config t s).attempts key in
        (failed_record config t e, left t s, omega (arith, counted t s), λ many. ground arith)
    streak_record t (u ∷ us) s (close, h) =
        let e = (cleanup_expired_attempts config t s).attempts key in
        let (r, found, counts, locked) =
          streak_record u us (record_failure config t email ip s) h in
        let one : counts_on config u ((record_failure config t email ip s).attempts key)
            ≡ counts_on config t (s.attempts key) + 1 =
          rw (left t s) (rw (counted t s) (ground arith)) in
        (r, found, omega (arith, counts, one), locked)
