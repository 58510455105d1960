-- ===== src/Auth/Sessions.antt =====
-- src/auth/auth.service.ts: sessions are created, rotated and revoked.
pub mod Rotation
pub mod Reuse
use ops_flow_ms.Auth.{User, AuthSession, user_id, session_id, SessionMeta, Tokens, Secrets, Draw}
use ops_flow_ms.Db.Single.{update_one}
use ops_flow_ms.Errors.Action.{Action}
use ops_flow_ms.Shared.{
  Bool, Option, String, false, if◌then◌else◌, is_some, ltb, none, not, or_else, some, truthy, ℕ,
  ◌*◌, ◌+◌, ◌==◌, ◌||◌,
}
use ops_flow_ms.Db.{Delegate, Outcome, threw, done}
use ops_flow_ms.Errors.Result.{Result, err, ok, or_throw, throw_if, ◌>>=◌, ◌>>◌}
use ops_flow_ms.Errors.{
  auth_refresh_reuse_detected, forbidden, thrown, unauthorized, unauthorized_exception,
}

abbrev pub default_refresh_max_age_ms : ℕ
default_refresh_max_age_ms = 7 * 24 * 60 * 60 * 1000

abbrev revoke : ℕ → AuthSession → AuthSession
revoke now session = record session { revoked_at = some now }

abbrev pub revoke_used : ℕ → AuthSession → AuthSession
revoke_used now session = record session { revoked_at = some now; last_used_at = some now }

abbrev pub revoke_replaced : ℕ → String → AuthSession → AuthSession
revoke_replaced now next session = record session {
  revoked_at = some now;
  last_used_at = some now;
  replaced_by_id = some next;
}

abbrev pub active_in : Option User → Bool
active_in none = false
active_in (some user) = user.is_active

module _ (secrets : Secrets) (sessions : Delegate session_id) (refresh_max_age_ms : Option ℕ) where
  open secrets use {hash, compare, sign_access, sign_refresh, verify_refresh}

  -- `nextSessionData`.
  abbrev pub next_session : Draw → String → SessionMeta → AuthSession
  next_session draw user meta = record {
    id = draw.uuid;
    user_id = user;
    hashed_refresh_token = hash draw.salt (sign_refresh draw.now user draw.uuid);
    expires_at = draw.now + or_else refresh_max_age_ms default_refresh_max_age_ms;
    ip = meta.ip;
    user_agent = meta.user_agent;
    revoked_at = none;
    last_used_at = none;
    replaced_by_id = none;
  }

  abbrev pub tokens : Draw → String → Tokens
  tokens draw user = record {
    access_token = sign_access draw.now user draw.uuid;
    refresh_token = sign_refresh draw.now user draw.uuid;
  }

  -- The transaction: both writes, or none.
  unfoldable pub rotate : Draw → AuthSession → String → sessions.Store → Outcome sessions.Store
  rotate draw next replaced s = elim (sessions.create next s) [
    | threw e ↦ threw e
    | done t ↦ elim (update_one sessions replaced (revoke_replaced draw.now next.id) t) [
      | threw e ↦ threw e
      | done (_, t') ↦ done t'
    ]
  ]

  -- What a write leaves and answers.
  abbrev pub written :
      {A : Type 0} → A → sessions.Store → Outcome sessions.Store → Result A × sessions.Store
  written a s (done t) = (ok a, t)
  written a s (threw e) = (err (thrown e), s)

  -- `createSession` without and with a session to replace.
  unfoldable pub create_session :
      Draw → String → SessionMeta → Option String → Action sessions.Store Tokens
  create_session draw user meta none s =
      written (tokens draw user) s (sessions.create (next_session draw user meta) s)
  create_session draw user meta (some replaced) s =
      written (tokens draw user) s (rotate draw (next_session draw user meta) replaced s)

  module _ (users : Delegate user_id) where
    -- The session of a token, if the token is genuine and the session may still be used.
    unfoldable pub usable_session : ℕ → String → users.Store → sessions.Store → Result AuthSession
    usable_session now refresh_token us s = do
      sid ← or_throw (verify_refresh now refresh_token) (unauthorized_exception unauthorized)
      session ← or_throw (sessions.find sid s) (unauthorized_exception unauthorized)
      throw_if
          (not (active_in (users.find session.user_id us))
            || is_some session.revoked_at
            || ltb session.expires_at now)
          (unauthorized_exception unauthorized)
      ok session

    abbrev of_user : String → AuthSession → Bool
    of_user user session = session.user_id == user

    -- Every session of a user is revoked.
    logout_all : ℕ → String → Action sessions.Store (Unit {0})
    logout_all now user s = written tt s (sessions.update_many (of_user user) (revoke now) s)

    -- The branch of the reuse detection.
    unfoldable pub reuse_detected : ℕ → String → Action sessions.Store Tokens
    reuse_detected now user s = elim (sessions.update_many (of_user user) (revoke now) s) [
      | done t ↦ (err (forbidden auth_refresh_reuse_detected), t)
      | threw e ↦ (err (thrown e), s)
    ]

    unfoldable pub refresh :
        Draw → String → SessionMeta → users.Store → Action sessions.Store Tokens
    refresh draw refresh_token meta us s = elim (usable_session draw.now refresh_token us s) [
      | err e ↦ (err e, s)
      | ok session ↦
          if compare refresh_token session.hashed_refresh_token
          then create_session draw session.user_id meta (some session.id) s
          else reuse_detected draw.now session.user_id s
    ]

    abbrev closable : String → Option AuthSession → Option AuthSession
    closable token none = none
    closable token (some session) =
        if is_some session.revoked_at || not (compare token session.hashed_refresh_token)
        then none
        else some session

    -- The session that `logout` revokes, if any.
    unfoldable pub session_to_close : ℕ → String → sessions.Store → Option AuthSession
    session_to_close now refresh_token s = elim (truthy (some refresh_token)) [
      | none ↦ none
      | some token ↦ elim (verify_refresh now token) [
        | none ↦ none
        | some sid ↦ closable token (sessions.find sid s)
      ]
    ]

    unfoldable pub logout : ℕ → String → Action sessions.Store (Unit {0})
    logout now refresh_token s = elim (session_to_close now refresh_token s) [
      | none ↦ (ok tt, s)
      | some session ↦ elim (update_one sessions session.id (revoke_used now) s) [
        | done (_, t) ↦ (ok tt, t)
        | threw e ↦ (err (thrown e), s)
      ]
    ]
