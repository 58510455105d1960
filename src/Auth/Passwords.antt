-- ===== src/Auth/Passwords.antt =====
-- src/auth/auth.service.ts: the password is forgotten, reset or changed. The transactions write all of
-- their rows or none.
pub mod Reset
pub mod Outcomes
use ops_flow_ms.Auth.{
  User, AuthSession, PasswordResetToken, user_id, session_id, token_id, Secrets, Draw,
}
use ops_flow_ms.Db.Single.{update_one}
use ops_flow_ms.Errors.Action.{Action}
use ops_flow_ms.Shared.{Bool, String, is_some, ltb, none, not, some, ℕ, ◌*◌, ◌+◌, ◌==◌, ◌||◌}
use ops_flow_ms.Db.{Delegate, Outcome, threw, done}
use ops_flow_ms.Errors.Result.{Result, err, ok, or_throw, throw_if, ◌>>=◌, ◌>>◌}
use ops_flow_ms.Errors.{
  access_denied, auth_invalid_current_password, auth_invalid_or_expired_reset_token, forbidden,
  thrown,
}

abbrev reset_window_ms : ℕ
reset_window_ms = 1000 * 60 * 30

abbrev pub with_password : String → User → User
with_password hashed user = record user { password = hashed }

abbrev pub used : ℕ → PasswordResetToken → PasswordResetToken
used now token = record token { used_at = some now }

module _ (secrets : Secrets) (users : Delegate user_id) (sessions : Delegate session_id)
    (resets : Delegate token_id) where
  open secrets use {hash, compare, sha256}

  abbrev has_mail : String → User → Bool
  has_mail email user = user.email == email

  abbrev pub of_user : String → AuthSession → Bool
  of_user user session = session.user_id == user

  abbrev pub has_token : String → PasswordResetToken → Bool
  has_token digest token = token.token == digest

  -- `forgotPassword`: the answer is the same message whether the address is known or not. The plain
  -- token goes to a mailer that is not part of the repository.
  forgot_password : Draw → String → String → users.Store → Action resets.Store (Unit {0})
  forgot_password draw row_id email us s = elim (users.find_first (has_mail email) us) [
    | none ↦ (ok tt, s)
    | some user ↦
        let row : PasswordResetToken = record {
          id = row_id;
          user_id = user.id;
          token = sha256 draw.uuid;
          expires_at = draw.now + reset_window_ms;
          used_at = none;
        } in
        elim (resets.create row s) [ done t ↦ (ok tt, t) | threw e ↦ (err (thrown e), s) ]
  ]

  abbrev pub Tables : Type 0
  Tables = users.Store × resets.Store × sessions.Store

  -- The transaction of a reset.
  unfoldable pub write_reset : ℕ → String → PasswordResetToken → Tables → Outcome Tables
  write_reset now hashed row (us, rs, ss) =
      elim (update_one users row.user_id (with_password hashed) us) [
        | threw e ↦ threw e
        | done (_, us') ↦ elim (update_one resets row.id (used now) rs) [
          | threw e ↦ threw e
          | done (_, rs') ↦ elim (sessions.delete_many (of_user row.user_id) ss) [
            | threw e ↦ threw e
            | done ss' ↦ done (us', rs', ss')
          ]
        ]
      ]

  -- The reset token of a text that may still be used.
  unfoldable pub usable_token : ℕ → String → resets.Store → Result PasswordResetToken
  usable_token now token rs = do
    row ←
        or_throw (resets.find_first (has_token (sha256 token)) rs)
          (forbidden auth_invalid_or_expired_reset_token)
    throw_if (is_some row.used_at || ltb row.expires_at now)
        (forbidden auth_invalid_or_expired_reset_token)
    ok row

  unfoldable pub reset_password : Draw → String → String → Action Tables (Unit {0})
  reset_password draw token new_password (us, rs, ss) = elim (usable_token draw.now token rs) [
    | err e ↦ (err e, (us, rs, ss))
    | ok row ↦ elim (write_reset draw.now (hash draw.salt new_password) row (us, rs, ss)) [
      | done t ↦ (ok tt, t)
      | threw e ↦ (err (thrown e), (us, rs, ss))
    ]
  ]

  -- The user of a change whose current password matches.
  unfoldable pub owner_of_change : String → String → users.Store → Result User
  owner_of_change user current_password us = do
    row ← or_throw (users.find user us) (forbidden access_denied)
    throw_if (not (compare current_password row.password)) (forbidden auth_invalid_current_password)
    ok row

  -- The transaction of a change.
  unfoldable pub write_change :
      String → String → users.Store × sessions.Store → Outcome (users.Store × sessions.Store)
  write_change hashed user (us, ss) = elim (update_one users user (with_password hashed) us) [
    | threw e ↦ threw e
    | done (_, us') ↦ elim (sessions.delete_many (of_user user) ss) [
      | threw e ↦ threw e
      | done ss' ↦ done (us', ss')
    ]
  ]

  unfoldable pub change_password :
      Draw → String → String → String → Action (users.Store × sessions.Store) (Unit {0})
  change_password draw user current_password new_password (us, ss) =
      elim (owner_of_change user current_password us) [
        | err e ↦ (err e, (us, ss))
        | ok _ ↦ elim (write_change (hash draw.salt new_password) user (us, ss)) [
          | done t ↦ (ok tt, t)
          | threw e ↦ (err (thrown e), (us, ss))
        ]
      ]
