-- ===== src/Controllers/Tests.antt =====
-- The theorems on the endpoints with a manager, and with a login that is followed by a refresh.
use mathlib.Core.Option
use ops_flow_ms.Auth.{User}
use ops_flow_ms.Auth.Tests.{secrets, sessions, users, one_user, one_session, no_meta, draw}
use ops_flow_ms.Auth.Tests.Accounts.{defaults, untouched, after_success, logged_in}
use ops_flow_ms.Auth.Login.{login, try_login}
use ops_flow_ms.Auth.Sessions.{create_session}
use ops_flow_ms.Auth.Profile.{
  ProfileRow, get_session, SessionResponse, Agrees, get_session-validate,
}
use ops_flow_ms.Controllers.{
  auth, users as users_endpoint, patch_user, post_change_password, route_of,
}
use ops_flow_ms.Controllers.Access.{canonical_grant, allowed, admit-allowed}
use ops_flow_ms.Controllers.Cookies.{
  CookieConfig, CookieWrite, set_cookie, refresh_cookie_options, respond_with_tokens, login_handler,
  refresh_handler,
}
use ops_flow_ms.Controllers.Session.{cookie_named, login-refresh}
use ops_flow_ms.Guards.{Directory, UserRow, absent_value, validate, differs, check_required}
use ops_flow_ms.RateLimit.{Clock, RateLimitState, can_activate as can_activate_limited}
use ops_flow_ms.Guards.Global.{GuardedRequest, admit, check_guards}
use ops_flow_ms.AuthContext.{
  AuthenticatedUserContext, manager, resolve_runtime_role, unique_strings,
}
use ops_flow_ms.Shared.{
  Bool-cases, List, Option, String, [], ap, arith, eq_of_beq, false, if◌then◌else◌, inl, inr,
  ne_of_beq, none, refl, some, sym, true, ◌==◌, ◌∙◌, ◌∷◌, ◌≡◌, ◌&&◌,
}
use ops_flow_ms.LoginAttempts.{assert_not_locked, cleanup_expired_attempts}
use ops_flow_ms.Errors.Result.{ok, succeeds}

abbrev mara : UserRow
mara = record { id = "u9"; is_active = true; organization_id = "acme"; branch_id = none }

abbrev stored : String → Option UserRow
stored k = if k == "u9" then some mara else none

stored_id : (k : String) {r : UserRow} → stored k ≡ some r → r.id ≡ k
stored_id k {r} e = elim (Bool-cases (k == "u9")) [
  | inl same ↦
      let is : mara ≡ r = (let q = rw same at e in cc) in
      ap (λ x. x.id) (sym is) ∙ sym (eq_of_beq k "u9" same)
  | inr differs ↦ absurd (let q = rw differs at e in cc)
]

abbrev managers : Directory
managers = record {
  find_user = stored;
  roles_of = λ k. canonical_grant manager ∷ [];
  find_user_id = stored_id;
}

abbrev approval : GuardedRequest
approval = record {
  method = "POST";
  token = some (record { sub = "u9"; sid = none });
  csrf_cookie = none;
  csrf_header = absent_value;
  limit_key = "k";
}

abbrev at_zero : Clock
at_zero = record { started = 0; counted = 0; answered = 0 }

abbrev no_counters : RateLimitState
no_counters = record { counters = λ k. none; last_memory_cleanup_at = 0 }

admit-allowed_example :
    (succeeds (admit managers (route_of (auth post_change_password)) approval at_zero no_counters).0
      ≡ (allowed manager (auth post_change_password)
          && succeeds
              (can_activate_limited
                (route_of (auth post_change_password)).rate_limit
                "k"
                at_zero
                no_counters).0.0))
    × ((admit managers (route_of (auth post_change_password)) approval at_zero no_counters).1 ≡ (
        if allowed manager (auth post_change_password)
        then (can_activate_limited
            (route_of (auth post_change_password)).rate_limit
            "k"
            at_zero
            no_counters).1
        else no_counters))
admit-allowed_example =
    admit-allowed managers manager "u9" (auth post_change_password) approval none at_zero
      no_counters (ne_of_beq "u9" "" refl) (mara, refl, refl, refl) refl refl refl

refuses_update :
    succeeds (admit managers (route_of (users_endpoint patch_user)) approval at_zero no_counters).0
    ≡ false
unfolding admit check_guards check_required
refuses_update = refl

abbrev profiles : String → Option ProfileRow
profiles k = Option.map (λ (r : UserRow). record { row = r; email = "mara@x.io" }) (stored k)

abbrev mara_context : AuthenticatedUserContext
mara_context = record {
  sub = "u9";
  id = "u9";
  sid = none;
  organization_id = "acme";
  role = manager;
  branch_id = none;
  roles = "MANAGER" ∷ [];
  permissions = (canonical_grant manager).permissions;
}

validates : validate managers "u9" none ≡ ok mara_context
unfolding validate unique_strings resolve_runtime_role
validates = refl

same_rows :
    (k : String) → Option.map (λ (p : ProfileRow). p.row) (profiles k) ≡ managers.find_user k
same_rows k = elim (Bool-cases (k == "u9")) [ inl same ↦ rw same | inr differs ↦ rw differs ]

get_session-validate_example :
    (r : SessionResponse) × (get_session profiles managers.roles_of "u9" ≡ ok r)
    × Agrees r mara_context
get_session-validate_example =
    get_session-validate profiles managers "u9" none mara_context same_rows validates

abbrev no_config : CookieConfig
no_config = record {
  same_site = none;
  secure = none;
  refresh_max_age_ms = none;
  csrf_max_age_ms = none;
}

abbrev login_cookies : List CookieWrite
login_cookies = set_cookie "refresh_token" "s2" (refresh_cookie_options no_config) ∷ []

logs_in :
    login_handler no_config secrets sessions none users defaults draw "cleo@x.io" "old" no_meta
      one_user
      (untouched, one_session)
    ≡ ((ok "s2", login_cookies), (after_success, logged_in))
unfolding login_handler login try_login create_session assert_not_locked cleanup_expired_attempts
logs_in = refl

login-refresh_example :
    (user : User) × (users.find user.id one_user ≡ some user)
    × (user.email ≡ "cleo@x.io")
    × (refresh_handler no_config secrets sessions none users
          (record { now = 150; uuid = "s9"; salt = "y" })
          (cookie_named "refresh_token" login_cookies)
          no_meta
          one_user
          logged_in
        ≡ (let (r, t') =
              create_session secrets sessions none
                (record { now = 150; uuid = "s9"; salt = "y" })
                user.id
                no_meta
                (some "s2")
                logged_in in
            (respond_with_tokens no_config r, t')))
login-refresh_example =
    login-refresh secrets sessions none users defaults no_config draw
      (record { now = 150; uuid = "s9"; salt = "y" }) "cleo@x.io" "old" "s2" login_cookies no_meta
      no_meta one_user untouched after_success one_session logged_in refl logs_in (omega arith)
      (omega arith)
