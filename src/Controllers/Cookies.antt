-- ===== src/Controllers/Cookies.antt =====
-- src/auth/auth.controller.ts: the cookies that the handlers of the sessions read and write.
use ops_flow_ms.Auth.{user_id, session_id, SessionMeta, Tokens, Secrets, Draw}
use ops_flow_ms.Auth.Sessions.{refresh, logout}
use ops_flow_ms.Auth.Login.{login, LoginState}
use ops_flow_ms.Shared.{Bool, List, Option, String, [], false, or_else, true, ℕ, ◌*◌, ◌∷◌}
use ops_flow_ms.Db.{Delegate}
use ops_flow_ms.LoginAttempts.{LoginProtection}
use ops_flow_ms.Errors.Result.{Result, err, ok}

pub data SameSite : Type 0 where
  lax strict cross_site : SameSite

pub record CookieOptions : Type 0 where
  pub http_only : Bool
  pub same_site : SameSite
  pub secure : Bool
  pub path : String
  pub max_age : ℕ

-- The configuration under `cookies`.
pub record CookieConfig : Type 0 where
  pub same_site : Option SameSite
  pub secure : Option Bool
  pub refresh_max_age_ms : Option ℕ
  pub csrf_max_age_ms : Option ℕ

pub data CookieWrite : Type 0 where
  set_cookie : String → String → CookieOptions → CookieWrite
  clear_cookie : String → CookieOptions → CookieWrite

module _ (config : CookieConfig) where
  abbrev pub refresh_cookie_options : CookieOptions
  refresh_cookie_options = record {
    http_only = true;
    same_site = or_else config.same_site lax;
    secure = or_else config.secure false;
    path = "/";
    max_age = or_else config.refresh_max_age_ms (7 * 24 * 60 * 60 * 1000);
  }

  abbrev csrf_cookie_options : CookieOptions
  csrf_cookie_options = record {
    http_only = false;
    same_site = or_else config.same_site lax;
    secure = or_else config.secure false;
    path = "/";
    max_age = or_else config.csrf_max_age_ms 7200000;
  }

  -- A response: the access token in the body, and the cookies.
  abbrev pub respond_with_tokens : Result Tokens → Result String × List CookieWrite
  respond_with_tokens (ok tokens) = (
    ok tokens.access_token,
    set_cookie "refresh_token" tokens.refresh_token refresh_cookie_options ∷ [],
  )
  respond_with_tokens (err e) = (err e, [])

  -- `typeof req.cookies?.refresh_token === 'string' ? ... : ''`
  abbrev pub refresh_cookie : Option String → String
  refresh_cookie cookie = or_else cookie ""

  -- The handler of GET auth/csrf.
  abbrev get_csrf_handler : String → List CookieWrite
  get_csrf_handler uuid = set_cookie "csrf_token" uuid csrf_cookie_options ∷ []

  module _ (secrets : Secrets) (sessions : Delegate session_id) (max_age : Option ℕ)
      (users : Delegate user_id) where
    unfoldable pub refresh_handler :
        Draw
        → Option String
        → SessionMeta
        → users.Store
        → sessions.Store
        → (Result String × List CookieWrite) × sessions.Store
    unfolding refresh
    refresh_handler draw cookie meta us s =
        let (r, t) =
          refresh secrets sessions max_age users draw (refresh_cookie cookie) meta us s in
        (respond_with_tokens r, t)

    -- The cookie is cleared before the session is closed.
    logout_handler :
        ℕ → Option String → sessions.Store → (Result (Unit {0}) × List CookieWrite) × sessions.Store
    unfolding logout
    logout_handler now cookie s =
        let (r, t) = logout secrets sessions max_age users now (refresh_cookie cookie) s in
        ((r, clear_cookie "refresh_token" refresh_cookie_options ∷ []), t)

    module _ (protection : LoginProtection) where
      unfoldable pub login_handler :
          Draw
          → String
          → String
          → SessionMeta
          → users.Store
          → LoginState secrets sessions max_age users protection
          → (Result String × List CookieWrite)
            × LoginState secrets sessions max_age users protection
      unfolding login
      login_handler draw email password meta us st =
          let (r, st') =
            login secrets sessions max_age users protection draw email password meta us st in
          (respond_with_tokens r, st')
