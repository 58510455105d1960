-- ===== src/Auth/Tests.antt =====
-- The theorems on sessions, logins and passwords with one user, texts that stand for their own hashes
-- and refresh tokens that are the names of their sessions.
pub mod Accounts
pub mod Registrations
use mathlib.Core.Option
use ops_flow_ms.Auth.{
  User, AuthSession, PasswordResetToken, user_id, session_id, token_id, SessionMeta, Tokens,
  Secrets, Draw,
}
use ops_flow_ms.Auth.Sessions.{
  next_session, tokens, rotate, create_session, usable_session, refresh, session_to_close, logout,
  revoke_used, revoke_replaced,
}
use ops_flow_ms.Auth.Sessions.Rotation.{IsUsable, Rotated, refresh_sound, FreshTokens}
use ops_flow_ms.Auth.Sessions.Reuse.{refresh_once, logout-refresh}
use ops_flow_ms.Db.Single.{update_one}
use ops_flow_ms.Db.{Delegate}
use ops_flow_ms.Shared.{
  String, List, [], eq_refl, false, none, refl, some, true, ◌==◌, ◌∷◌, ◌≡◌, some_inj, sym, ◌∙◌,
}
use ops_flow_ms.Errors.{column, object, primitive, unauthorized, unauthorized_exception}
use ops_flow_ms.Errors.Result.{err, ok}
use ops_flow_ms.Db.Memory.{memory}
use ops_flow_ms.Branches.Repository.{branch_id}

abbrev pub secrets : Secrets
secrets = record {
  hash = λ salt text'. text';
  compare = λ text' hashed. text' == hashed;
  sha256 = λ text'. text';
  sign_access = λ now user session. session;
  sign_refresh = λ now user session. session;
  verify_refresh = λ now token. some token;
  refresh_lifetime_ms = 1000;
  compare-hash = λ salt text'. eq_refl text';
  verify-sign = λ signed now user session h. refl;
  verify_once = λ now later token h k. sym (some_inj h) ∙ some_inj k;
}

abbrev pub sessions : Delegate session_id
sessions = memory session_id (λ a b. false) primitive

abbrev pub users : Delegate user_id
users = memory user_id (λ a b. a.email == b.email) (object (some "P2002") (column "email"))

abbrev pub cleo : User
cleo = record {
  id = "u1";
  email = "cleo@x.io";
  password = "old";
  is_active = true;
  organization_id = "acme";
  branch_id = none;
  role_ids = [];
}

abbrev pub one_user : List User
one_user = cleo ∷ []

abbrev pub no_meta : SessionMeta
no_meta = record { ip = none; user_agent = none }

abbrev pub open_session : AuthSession
open_session = record {
  id = "s1";
  user_id = "u1";
  hashed_refresh_token = "s1";
  expires_at = 500;
  ip = none;
  user_agent = none;
  revoked_at = none;
  last_used_at = none;
  replaced_by_id = none;
}

abbrev pub one_session : List AuthSession
one_session = open_session ∷ []

abbrev pub draw : Draw
draw = record { now = 100; uuid = "s2"; salt = "x" }

abbrev again : Draw
again = record { now = 200; uuid = "s3"; salt = "y" }

abbrev next : AuthSession
next = next_session secrets sessions none draw "u1" no_meta

abbrev two_sessions : List AuthSession
two_sessions = next ∷ revoke_replaced 100 "s2" open_session ∷ []

abbrev issued : Tokens
issued = tokens secrets sessions none draw "u1"

refreshes :
    refresh secrets sessions none users draw "s1" no_meta one_user one_session
    ≡ (ok issued, two_sessions)
unfolding refresh usable_session create_session rotate update_one
refreshes = refl

refresh_sound_example :
    (old : AuthSession) × (some "s1" ≡ some old.id)
    × (sessions.find old.id one_session ≡ some old)
    × IsUsable 100 (users.find old.user_id one_user) old
    × (("s1" == old.hashed_refresh_token) ≡ true)
    × FreshTokens secrets sessions none users draw old issued
    × Rotated secrets sessions none users draw old no_meta one_session two_sessions
refresh_sound_example =
    refresh_sound secrets sessions none users draw "s1" no_meta one_user one_session two_sessions
      issued refreshes

refresh_once_example :
    refresh secrets sessions none users again "s1" no_meta one_user two_sessions
    ≡ (err (unauthorized_exception unauthorized), two_sessions)
refresh_once_example =
    refresh_once secrets sessions none users draw again "s1" no_meta no_meta one_user one_user
      one_session two_sessions issued refreshes

abbrev closed : List AuthSession
closed = revoke_used 50 open_session ∷ []

closes : session_to_close secrets sessions none users 50 "s1" one_session ≡ some open_session
unfolding session_to_close
closes = refl

logs_out : logout secrets sessions none users 50 "s1" one_session ≡ (ok tt, closed)
unfolding logout session_to_close update_one
logs_out = refl

logout-refresh_example :
    refresh secrets sessions none users again "s1" no_meta one_user closed
    ≡ (err (unauthorized_exception unauthorized), closed)
logout-refresh_example =
    logout-refresh secrets sessions none users 50 again "s1" no_meta one_user one_session closed
      open_session closes logs_out
