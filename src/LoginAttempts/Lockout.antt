-- ===== src/LoginAttempts/Lockout.antt =====
-- Enough failures in a row refuse the next login, a success clears them, and no lock is too long.
use ops_flow_ms.LoginAttempts.{
  LoginProtection, LoginAttemptRecord, LoginAttemptState, build_key, is_enabled, get_max_failures,
  get_max_lock_ms, cleanup_expired_attempts, assert_not_locked, throw_locked, record_success,
  record_failure, next_failures, failed_record, lock_ms, old_lock,
}
use ops_flow_ms.LoginAttempts.Locking.{locks, counts_on, cleanup_entry, assert_not_locked_iff}
use ops_flow_ms.LoginAttempts.Failures.{fail_all, last_of, IsStreak, streak_record}
use ops_flow_ms.Shared.{
  Bool-cases, List, Option, String, ap, arith, beq_of_ne, eq_refl, inl, inr, leb, length, none,
  refl, some, subst, sym, true, ℕ, ◌+◌, ◌<◌, ◌==◌, ◌∙◌, ◌∷◌, ◌≡◌, ◌≢◌, ◌≤◌,
}
use ops_flow_ms.Errors.Result.{ok}

module _ (config : LoginProtection) where
  pub assert_locked :
      (now : ℕ) (email : String) (ip : Option String) (s : LoginAttemptState)
      (r : LoginAttemptRecord)
      → is_enabled config ≡ true
      → s.attempts (build_key email ip) ≡ some r
      → now < r.lock_until
      → (assert_not_locked config now email ip s).0 ≡ throw_locked config r.lock_until now
  unfolding assert_not_locked
  assert_locked now email ip s r on found locked =
      elim (cleanup_entry config now s (build_key email ip)) [
        | inl same ↦ rw (on, same, found) (ground arith)
        | inr (q, found', over, _) ↦
            absurd (let is : q.lock_until ≡ r.lock_until = ground arith in ground (arith, is))
      ]

  module _ (email : String) (ip : Option String) (on : is_enabled config ≡ true) where
    -- With the protection on, as many failed logins in a row as configured, each within the window
    -- of the one before, refuse a further login of the same address and account with 429
    -- AUTH_LOGIN_LOCKED at every time before the lock of the last failure is over.
    pub lockout :
        (t : ℕ) (ts : List ℕ) (s : LoginAttemptState) (now : ℕ)
        → IsStreak config email ip on t ts
        → get_max_failures config ≤ length (t ∷ ts)
        → let n = counts_on config t (s.attempts (build_key email ip)) + length (t ∷ ts) in
          let until = last_of config email ip on t ts + lock_ms config n in
          now < until
          → (assert_not_locked config now email ip (fail_all config email ip on (t ∷ ts) s)).0
            ≡ throw_locked config until now
    lockout t ts s now streak many early =
        let (r, found, counts, locked) = streak_record config email ip on t ts s streak in
        let n = counts_on config t (s.attempts (build_key email ip)) + length (t ∷ ts) in
        let same : r.failures ≡ n = omega (arith, counts) in
        let until : r.lock_until ≡ last_of config email ip on t ts + lock_ms config n =
          locked (omega (arith, counts))
          ∙ ap (λ k. last_of config email ip on t ts + lock_ms config k) same in
        assert_locked now email ip (fail_all config email ip on (t ∷ ts) s) r on found
          (rw until early)
        ∙ ap (λ k. throw_locked config k now) until

    -- With the protection on, a successful login lifts the lock of its address and account, forgets
    -- their failures, and leaves every other entry alone.
    pub record_success_lem :
        (s : LoginAttemptState)
        → ((now : ℕ)
            → (assert_not_locked config now email ip (record_success config email ip s)).0 ≡ ok tt)
          × ((now : ℕ)
              → counts_on config now
                  ((record_success config email ip s).attempts (build_key email ip))
                ≡ 0)
          × ((k : String)
              → k ≢ build_key email ip
              → (record_success config email ip s).attempts k ≡ s.attempts k)
    unfolding record_success
    record_success_lem s =
        let gone : (record_success config email ip s).attempts (build_key email ip) ≡ none =
          rw on (rw (eq_refl (build_key email ip))) in
        (
          λ now.
              (assert_not_locked_iff config now email ip (record_success config email ip s) on).1
                (ap (locks now) gone),
          λ now. ap (counts_on config now) gone,
          λ k other. rw on (rw (beq_of_ne k (build_key email ip) other)),
        )

  -- Every entry was made by the time, and no lock lasts longer than the maximum after it.
  abbrev pub IsBounded : ℕ → LoginAttemptState → Type 0
  IsBounded now s =
      (k : String) (r : LoginAttemptRecord)
      → s.attempts k ≡ some r
      → (r.last_failure_at ≤ now) × (r.lock_until ≤ now + get_max_lock_ms config)

  old_lock_bound :
      (now later : ℕ) (e : Option LoginAttemptRecord)
      → now ≤ later
      → ((r : LoginAttemptRecord) → e ≡ some r → r.lock_until ≤ now + get_max_lock_ms config)
      → old_lock config e ≤ later + get_max_lock_ms config
  old_lock_bound now later none after h = omega arith
  old_lock_bound now later (some r) after h = omega (arith, h r refl)

  failed_record_bound :
      (now later : ℕ) (e : Option LoginAttemptRecord)
      → now ≤ later
      → ((r : LoginAttemptRecord) → e ≡ some r → r.lock_until ≤ now + get_max_lock_ms config)
      → (failed_record config later e).lock_until ≤ later + get_max_lock_ms config
  failed_record_bound now later e after h =
      let old = old_lock_bound now later e after h in
      elim (Bool-cases (leb (get_max_failures config) (next_failures config later e))) [
        | inl many ↦ rw many (omega arith)
        | inr few ↦ rw few old
      ]

  cleaned_bound :
      (now later : ℕ) (s : LoginAttemptState) (k : String) (r : LoginAttemptRecord)
      → IsBounded now s
      → (cleanup_expired_attempts config later s).attempts k ≡ some r
      → (r.last_failure_at ≤ now) × (r.lock_until ≤ now + get_max_lock_ms config)
  cleaned_bound now later s k r h found = elim (cleanup_entry config later s k) [
    | inl same ↦ h k r (sym same ∙ found)
    | inr (q, _, _, gone) ↦ absurd (cc)
  ]

  -- Whatever login fails at whatever later time, a state in which no lock reaches further than the
  -- maximum from now becomes one in which none reaches further than the maximum from then.
  pub record_failure-IsBounded :
      (now later : ℕ) (email : String) (ip : Option String) (s : LoginAttemptState)
      → now ≤ later
      → IsBounded now s
      → IsBounded later (record_failure config later email ip s)
  unfolding record_failure
  record_failure-IsBounded now later email ip s after h k r found =
      elim (Bool-cases (is_enabled config)) [
        | inr off ↦
            let (made, locked) = h k r (rw off at found) in
            (omega (arith, made), omega (arith, locked))
        | inl on ↦
            let found' = rw on at found in
            let cleaned = cleanup_expired_attempts config later s in
            elim (Bool-cases (k == build_key email ip)) [
              | inl own ↦
                  let e = cleaned.attempts (build_key email ip) in
                  let is : failed_record config later e ≡ r = (let q = rw own at found' in cc) in
                  subst
                    (λ x.
                      (x.last_failure_at ≤ later) × (x.lock_until ≤ later + get_max_lock_ms config))
                    is
                    (
                      omega arith,
                      failed_record_bound now later e after
                          (λ q old. (cleaned_bound now later s (build_key email ip) q h old).1),
                    )
              | inr other ↦
                  let (made, locked) = cleaned_bound now later s k r h (rw other at found') in
                  (omega (arith, made), omega (arith, locked))
            ]
      ]
