-- ===== src/Auth/Login.antt =====
-- src/auth/auth.service.ts: a login, over the login attempts and the sessions.
use ops_flow_ms.Auth.{User, user_id, session_id, SessionMeta, Tokens, Secrets, Draw}
use ops_flow_ms.Auth.Sessions.{next_session, tokens, create_session}
use ops_flow_ms.LoginAttempts.Lockout.{assert_locked}
use ops_flow_ms.LoginAttempts.{
  retry_after_seconds, LoginAttemptRecord, LoginProtection, LoginAttemptState, build_key,
  is_enabled, assert_not_locked, record_failure, record_success,
}
use ops_flow_ms.LoginAttempts.Locking.{locks, assert_not_locked_iff}
use ops_flow_ms.Errors.Action.{Action}
use ops_flow_ms.Shared.{
  Bool, Bool-cases, Option, String, ap, arith, false, if◌then◌else◌, inl, inr, none, refl, some,
  subst, sym, true, ℕ, ◌&&◌, ◌==◌, ◌≡◌, ◌≢◌, Option-cases, eq_of_beq, eq_refl, ◌<◌, pair_eq,
}
use ops_flow_ms.Db.{Delegate, Outcome-cases}
use ops_flow_ms.Errors.{
  auth_invalid_credentials, unauthorized_exception, auth_login_locked, thrown, too_many_requests,
}
use ops_flow_ms.Errors.Result.{Result, err, ok, ◌>>◌, err-ne-ok, ok_inj}

module _ (secrets : Secrets) (sessions : Delegate session_id) (max_age : Option ℕ) where
  pub created :
      (draw : Draw) (user : String) (meta : SessionMeta) (s t : sessions.Store) (answered : Tokens)
      → create_session secrets sessions max_age draw user meta none s ≡ (ok answered, t)
      → (answered ≡ tokens secrets sessions max_age draw user)
        × (sessions.find draw.uuid t ≡ some (next_session secrets sessions max_age draw user meta))
  unfolding create_session
  created draw user meta s t answered e =
      let next = next_session secrets sessions max_age draw user meta in
      elim (Outcome-cases (sessions.create next s)) [
        | inr (error, failed) ↦
            let e' : (err (thrown error), s) ≡ (ok answered, t) =
              rw (failed, create_session) at e in
            absurd (err-ne-ok (thrown error) answered (ap (λ x. x.0) e'))
        | inl (t', made) ↦
            let e' : (ok (tokens secrets sessions max_age draw user), t') ≡ (ok answered, t) =
              rw (made, create_session) at e in
            let law : sessions.find draw.uuid t' ≡ some next =
              rw (eq_refl draw.uuid) at (sessions.find-create next s draw.uuid made) in
            (
              sym (ok_inj (tokens secrets sessions max_age draw user) answered (ap (λ x. x.0) e')),
              subst (λ x. sessions.find draw.uuid x ≡ some next) (ap (λ x. x.1) e') law,
            )
      ]

module _ (secrets : Secrets) (sessions : Delegate session_id) (max_age : Option ℕ)
    (users : Delegate user_id) (config : LoginProtection) where
  open secrets use {compare}

  abbrev pub LoginState : Type 0
  LoginState = LoginAttemptState × sessions.Store

  -- The refusal of wrong credentials, which counts, and may itself be answered as a lock.
  pub fail_login : ℕ → String → Option String → Action LoginState Tokens
  fail_login now email ip (attempts, s) =
      let (checked, after) =
        assert_not_locked config now email ip (record_failure config now email ip attempts) in
      ((do checked; err (unauthorized_exception auth_invalid_credentials)), (after, s))

  -- The user with the address who is active and whose password matches.
  abbrev authenticated : String → Option User → Option User
  authenticated password none = none
  authenticated password (some user) =
      if user.is_active && compare password user.password then some user else none

  abbrev has_email : String → User → Bool
  has_email email user = user.email == email

  -- What follows the first check of the lock.
  unfoldable pub try_login :
      Draw → String → String → SessionMeta → users.Store → Action LoginState Tokens
  try_login draw email password meta us (attempts, s) =
      elim (authenticated password (users.find_first (has_email email) us)) [
        | none ↦ fail_login draw.now email meta.ip (attempts, s)
        | some user ↦
            let (r, t) = create_session secrets sessions max_age draw user.id meta none s in
            (r, (record_success config email meta.ip attempts, t))
      ]

  unfoldable pub login :
      Draw → String → String → SessionMeta → users.Store → Action LoginState Tokens
  login draw email password meta us (attempts, s) =
      let (checked, after) = assert_not_locked config draw.now email meta.ip attempts in
      elim checked [
        | err e ↦ (err e, (after, s))
        | ok _ ↦ try_login draw email password meta us (after, s)
      ]

  authenticated_sound :
      (password : String) (o : Option User) (user : User)
      → authenticated password o ≡ some user
      → (o ≡ some user) × (user.is_active ≡ true) × (compare password user.password ≡ true)
  authenticated_sound password none user e = absurd (cc)
  authenticated_sound password (some row) user e =
      elim (Bool-cases (row.is_active && compare password row.password)) [
        | inr refused ↦ absurd (let q = rw refused at e in cc)
        | inl passes ↦
            let same : row ≡ user = (let q = rw passes at e in cc) in
            subst
              (λ x.
                (some row ≡ some x) × (x.is_active ≡ true) × (compare password x.password ≡ true))
              same (refl, ground (arith, passes), ground (arith, passes))
      ]

  fail_login-ne-ok :
      (now : ℕ) (email : String) (ip : Option String) (st st' : LoginState) (answered : Tokens)
      → fail_login now email ip st ≢ (ok answered, st')
  unfolding fail_login
  fail_login-ne-ok now email ip (attempts, s) st' answered e =
      let q = ap (λ x. x.0) e in
      go (assert_not_locked config now email ip (record_failure config now email ip attempts)).0 q
    where
      go :
          (r : Result (Unit {0}))
          → (r >> err (unauthorized_exception auth_invalid_credentials)) ≡ ok answered
          → ⊥
      go (ok _) h = cc
      go (err _) h = cc

  -- With the protection on, while an address and account are locked, a login is refused as locked
  -- whatever the password, and no session is written.
  pub login_locked :
      (draw : Draw) (email password : String) (meta : SessionMeta) (us : users.Store)
      (attempts : LoginAttemptState) (s : sessions.Store) (r : LoginAttemptRecord)
      → is_enabled config ≡ true
      → attempts.attempts (build_key email meta.ip) ≡ some r
      → draw.now < r.lock_until
      → ((login draw email password meta us (attempts, s)).0
          ≡ err (
              too_many_requests auth_login_locked
                (retry_after_seconds config r.lock_until draw.now)))
        × ((login draw email password meta us (attempts, s)).1.1 ≡ s)
  unfolding login
  login_locked draw email password meta us attempts s r on found locked =
      let refusal = assert_locked config draw.now email meta.ip attempts r on found locked in
      (rw (refusal, login), rw (refusal, login))

  -- What a login that answers with tokens rests on.
  abbrev pub Authentic :
      Draw → String → String → SessionMeta → users.Store → sessions.Store → Tokens → User → Type 0
  Authentic draw email password meta us t answered user =
      (users.find user.id us ≡ some user)
      × (user.email ≡ email)
      × (user.is_active ≡ true)
      × (compare password user.password ≡ true)
      × (answered ≡ tokens secrets sessions max_age draw user.id)
      × (sessions.find draw.uuid t ≡ some (next_session secrets sessions max_age draw user.id meta))

  try_login_sound :
      (draw : Draw) (email password : String) (meta : SessionMeta) (us : users.Store)
      (attempts after : LoginAttemptState) (s t : sessions.Store) (answered : Tokens)
      → try_login draw email password meta us (attempts, s) ≡ (ok answered, (after, t))
      → (user : User) × Authentic draw email password meta us t answered user
  unfolding try_login
  try_login_sound draw email password meta us attempts after s t answered e =
      let o = users.find_first (has_email email) us in
      elim (Option-cases (authenticated password o)) [
        | inl wrong ↦ absurd (
            fail_login-ne-ok draw.now email meta.ip (attempts, s) (after, t) answered
              (rw (wrong, try_login) at e))
        | inr (user, right) ↦
            let (found, active, matches) = authenticated_sound password o user right in
            let (mail, stored) = users.find_first_sound (has_email email) us found in
            let e' = rw (right, try_login) at e in
            let made : create_session secrets sessions max_age draw user.id meta none s
                ≡ (ok answered, t) =
              pair_eq (ap (λ x. x.0) e') (ap (λ x. x.1.1) e') in
            let (same, written') =
              created secrets sessions max_age draw user.id meta s t answered made in
            (user, (stored, eq_of_beq user.email email mail, active, matches, same, written'))
      ]

  -- With the protection on, a login that answers with tokens was made with the address of a
  -- stored, active user and a password that matches the stored hash, while the address and account
  -- were not locked; it answers with tokens of that user, for the session that it wrote.
  pub login_sound :
      (draw : Draw) (email password : String) (meta : SessionMeta) (us : users.Store)
      (attempts after : LoginAttemptState) (s t : sessions.Store) (answered : Tokens)
      → is_enabled config ≡ true
      → login draw email password meta us (attempts, s) ≡ (ok answered, (after, t))
      → (locks draw.now (attempts.attempts (build_key email meta.ip)) ≡ false)
        × ((user : User) × Authentic draw email password meta us t answered user)
  unfolding login
  login_sound draw email password meta us attempts after s t answered on e =
      go (assert_not_locked config draw.now email meta.ip attempts).0 refl
    where
      go :
          (r : Result (Unit {0}))
          → (assert_not_locked config draw.now email meta.ip attempts).0 ≡ r
          → (locks draw.now (attempts.attempts (build_key email meta.ip)) ≡ false)
            × ((user : User) × Authentic draw email password meta us t answered user)
      go (err error) c = absurd (err-ne-ok error answered (ap (λ x. x.0) (rw (c, login) at e)))
      go (ok _) c = (
        (assert_not_locked_iff config draw.now email meta.ip attempts on).0 c,
        try_login_sound draw email password meta us
            (assert_not_locked config draw.now email meta.ip attempts).1 after s t answered
            (rw (c, login) at e),
      )
