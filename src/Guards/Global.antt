-- ===== src/Guards/Global.antt =====
-- src/auth/guards/jwt-global.guard.ts, and the guards of a route in their order. The check of a token is
-- passport's: what it makes of a request, a payload or nothing, is a parameter.
use mathlib.Core.Option
use ops_flow_ms.Guards.{Directory, Header, validate, can_activate, csrf_can_activate}
use ops_flow_ms.AuthContext.{AuthenticatedUserContext}
use ops_flow_ms.Shared.{Bool, List, Option, String, if◌then◌else◌, none, some}
use ops_flow_ms.RateLimit.{
  RateLimitOptions, RateLimitState, Clock, can_activate as can_activate_limited,
}
use ops_flow_ms.Errors.Result.{Result, err, ok, ◌>>=◌, ◌>>◌}
use ops_flow_ms.Errors.{unauthorized, unauthorized_exception}

-- The payload of a genuine access token.
pub record Payload : Type 0 where
  pub sub : String
  pub sid : Option String

-- The metadata that decorators give a route.
pub record Route : Type 0 where
  pub is_public : Bool
  pub permissions_guard : Bool
  pub required_roles : List String
  pub required_permissions : List String
  pub csrf_guard : Bool
  pub rate_limit : Option RateLimitOptions

-- What the guards read of a request.
pub record GuardedRequest : Type 0 where
  pub method : String
  pub token : Option Payload
  pub csrf_cookie : Option String
  pub csrf_header : Header
  -- the key under which the rate limit counts the request
  pub limit_key : String

module _ (dir : Directory) where
  -- `super.canActivate(context)`: the payload is handed to the strategy.
  abbrev pub authenticate : Option Payload → Result AuthenticatedUserContext
  authenticate none = err (unauthorized_exception unauthorized)
  authenticate (some payload) = validate dir payload.sub payload.sid

  -- The user that the request is made by; a public route has none.
  unfoldable pub global_can_activate :
      Bool → Option Payload → Result (Option AuthenticatedUserContext)
  unfolding validate
  global_can_activate is_public token =
      if is_public then ok none else (do user ← authenticate token; ok (some user))

  abbrev pub check_permissions : Route → Option AuthenticatedUserContext → Result (Unit {0})
  check_permissions route user =
      if route.permissions_guard
      then can_activate dir route.required_roles route.required_permissions
          (Option.map (λ (u : AuthenticatedUserContext). u.sub) user)
      else ok tt

  abbrev pub check_csrf : Route → GuardedRequest → Result (Unit {0})
  check_csrf route req =
      if route.csrf_guard
      then csrf_can_activate req.method req.csrf_cookie req.csrf_header
      else ok tt

  -- The guards that keep no state: the global one, that of permissions and that of forged requests.
  unfoldable pub check_guards : Route → GuardedRequest → Result (Option AuthenticatedUserContext)
  unfolding global_can_activate can_activate csrf_can_activate
  check_guards route req = do
    user ← global_can_activate route.is_public req.token
    check_permissions route user
    check_csrf route req
    ok user

  abbrev pub and_limit :
      Route
      → GuardedRequest
      → Clock
      → RateLimitState
      → Result (Option AuthenticatedUserContext)
      → Result (Option AuthenticatedUserContext) × RateLimitState
  and_limit route req clock s (err e) = (err e, s)
  and_limit route req clock s (ok user) =
      let ((limit, _), s') = can_activate_limited route.rate_limit req.limit_key clock s in
      ((do limit; ok user), s')

  -- All guards of a route. That of the rate limit comes last; it counts only what the others let through.
  unfoldable pub admit :
      Route
      → GuardedRequest
      → Clock
      → RateLimitState
      → Result (Option AuthenticatedUserContext) × RateLimitState
  unfolding check_guards can_activate_limited
  admit route req clock s = and_limit route req clock s (check_guards route req)
