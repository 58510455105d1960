-- ===== src/Auth.antt =====
-- src/auth/auth.service.ts: its tables, and what it uses of the libraries that hash and sign. A handler
-- reads the clock once; the rows of the sessions, the users and the reset tokens stand in delegates.
pub mod Sessions
pub mod Login
pub mod Passwords
pub mod Registration
pub mod Profile
pub mod Tests
use ops_flow_ms.Shared.{Bool, Option, String, some, true, ℕ, ◌+◌, ◌≡◌, ◌≤◌, List}

pub record User : Type 0 where
  pub id : String
  pub email : String
  pub password : String
  pub is_active : Bool
  pub organization_id : String
  pub branch_id : Option String
  -- the roles that join rows give the user
  pub role_ids : List String

pub record AuthSession : Type 0 where
  pub id : String
  pub user_id : String
  pub hashed_refresh_token : String
  pub expires_at : ℕ
  pub ip : Option String
  pub user_agent : Option String
  pub revoked_at : Option ℕ
  pub last_used_at : Option ℕ
  pub replaced_by_id : Option String

pub record PasswordResetToken : Type 0 where
  pub id : String
  pub user_id : String
  pub token : String
  pub expires_at : ℕ
  pub used_at : Option ℕ

abbrev pub user_id : User → String
user_id u = u.id

abbrev pub session_id : AuthSession → String
session_id s = s.id

abbrev pub token_id : PasswordResetToken → String
token_id t = t.id

pub record SessionMeta : Type 0 where
  pub ip : Option String
  pub user_agent : Option String

pub record Tokens : Type 0 where
  pub access_token : String
  pub refresh_token : String

-- `bcryptjs`, `crypto` and the JWT service. A hash depends on a random salt; of a comparison it is
-- only assumed that it accepts what was hashed, since `bcrypt` reads the first 72 bytes alone.
pub record Secrets : Type 0 where
  -- salt and text
  pub hash : String → String → String
  -- text and hash
  pub compare : String → String → Bool
  pub sha256 : String → String
  -- time, user and session
  pub sign_access : ℕ → String → String → String
  pub sign_refresh : ℕ → String → String → String
  -- the session that a refresh token names, if it is genuine and not over at the time
  pub verify_refresh : ℕ → String → Option String
  pub refresh_lifetime_ms : ℕ
  pub compare-hash : (salt text : String) → compare text (hash salt text) ≡ true
  pub verify-sign :
      (signed now : ℕ) (user session : String)
      → now ≤ signed + refresh_lifetime_ms
      → verify_refresh now (sign_refresh signed user session) ≡ some session
  -- The session is part of the token.
  pub verify_once :
      (now later : ℕ) (token : String) {a b : String}
      → verify_refresh now token ≡ some a
      → verify_refresh later token ≡ some b
      → a ≡ b

-- What a handler draws: the time, a random id and a random salt.
pub record Draw : Type 0 where
  pub now : ℕ
  pub uuid : String
  pub salt : String
