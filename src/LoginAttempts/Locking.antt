-- ===== src/LoginAttempts/Locking.antt =====
-- When a login is refused, and what a failure and a success change.
use ops_flow_ms.LoginAttempts.{
  LoginProtection, LoginAttemptRecord, LoginAttemptState, build_key, is_enabled, get_window_ms,
  is_expired, cleanup_expired_attempts, assert_not_locked, check_entry,
}
use ops_flow_ms.Shared.{
  Bool, Bool-cases, Option, Option-cases, String, arith, false, if◌then◌else◌, inl, inr, leb, ltb,
  none, refl, some, sym, true, ℕ, ◌-◌, ◌↔◌, ◌∙◌, ◌≡◌, ◌≤◌, ◌⊎◌,
}
use ops_flow_ms.Errors.Result.{ok}

-- Whether an entry locks at a time.
abbrev pub locks : ℕ → Option LoginAttemptRecord → Bool
locks now none = false
locks now (some r) = ltb now r.lock_until

-- Whether a failure after this entry counts on from it.
abbrev pub counts_on : LoginProtection → ℕ → Option LoginAttemptRecord → ℕ
counts_on config now none = 0
counts_on config now (some r) =
    if leb (now - r.last_failure_at) (get_window_ms config) then r.failures else 0

module _ (config : LoginProtection) where
  pub cleanup_entry :
      (now : ℕ) (s : LoginAttemptState) (k : String)
      → ((cleanup_expired_attempts config now s).attempts k ≡ s.attempts k)
        ⊎ ((r : LoginAttemptRecord) × (s.attempts k ≡ some r)
            × (is_expired config now r ≡ true)
            × ((cleanup_expired_attempts config now s).attempts k ≡ none))
  unfolding cleanup_expired_attempts
  cleanup_entry now s k = elim (Bool-cases (ltb (now - s.last_memory_cleanup_at) 60000)) [
    | inl early ↦ inl (rw early)
    | inr due ↦ elim (Option-cases (s.attempts k)) [
      | inl missing ↦ inl (rw (due, missing))
      | inr (r, found) ↦ elim (Bool-cases (is_expired config now r)) [
        | inl over ↦ inr (r, found, over, rw (due, found, over))
        | inr live ↦ inl (rw (due, found, live))
      ]
    ]
  ]

  -- The cleanup forgets no lock that still holds.
  pub cleanup-locks :
      (now later : ℕ) (s : LoginAttemptState) (k : String)
      → now ≤ later
      → locks later ((cleanup_expired_attempts config now s).attempts k)
        ≡ locks later (s.attempts k)
  cleanup-locks now later s k after = elim (cleanup_entry now s k) [
    | inl same ↦ rw same
    | inr (r, found, over, gone) ↦ rw (found, gone) (ground arith)
  ]

  -- The cleanup forgets no failure that still counts.
  pub cleanup-counts_on :
      (now : ℕ) (s : LoginAttemptState) (k : String)
      → counts_on config now ((cleanup_expired_attempts config now s).attempts k)
        ≡ counts_on config now (s.attempts k)
  cleanup-counts_on now s k = elim (cleanup_entry now s k) [
    | inl same ↦ rw same
    | inr (r, found, over, gone) ↦ rw (found, gone) (ground arith)
  ]

  check_entry_iff :
      (now : ℕ) (key : String) (e : Option LoginAttemptRecord) (s : LoginAttemptState)
      → ((check_entry config now key e s).0 ≡ ok tt) ↔ (locks now e ≡ false)
  check_entry_iff now key none s = ((λ e. refl), λ e. refl)
  check_entry_iff now key (some r) s = elim (Bool-cases (ltb now r.lock_until)) [
    | inl locked ↦ rw locked ((λ e. absurd (cc)), λ e. absurd (cc))
    | inr free ↦ rw free ((λ e. refl), λ e. refl)
  ]

  -- With the protection on, a login may go on exactly when the entry of its address and account,
  -- as it stands before the cleanup, does not lock.
  pub assert_not_locked_iff :
      (now : ℕ) (email : String) (ip : Option String) (s : LoginAttemptState)
      → is_enabled config ≡ true
      → ((assert_not_locked config now email ip s).0 ≡ ok tt)
        ↔ (locks now (s.attempts (build_key email ip)) ≡ false)
  unfolding assert_not_locked
  assert_not_locked_iff now email ip s on =
      let cleaned = cleanup_expired_attempts config now s in
      let (to, from) =
        check_entry_iff now (build_key email ip) (cleaned.attempts (build_key email ip)) cleaned in
      let same = cleanup-locks now now s (build_key email ip) (omega arith) in
      rw on ((λ e. sym same ∙ to e), λ h. from (same ∙ h))
