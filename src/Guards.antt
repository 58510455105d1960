-- ===== src/Guards.antt =====
-- src/auth/guards and src/auth/strategies/jwt.strategy.ts: who a request is made by, and whether it
-- passes. What the guards read of the database client is a parameter.
pub mod Csrf
pub mod Permissions
pub mod Validation
pub mod Global
mod Tests
use ops_flow_ms.AuthContext.{AuthenticatedUserContext, resolve_runtime_role, unique_strings}
use ops_flow_ms.Shared.{
  Bool, List, Option, String, [], any, every, false, if◌then◌else◌, includes, is_empty, map, none,
  not, some, to_upper_case, true, truthy, ◌&&◌, ◌++◌, ◌==◌, ◌∷◌, ◌≡◌,
}
use ops_flow_ms.Errors.Result.{Result, ok, or_throw, throw_if, ◌>>=◌, ◌>>◌}
use ops_flow_ms.Errors.{
  auth_csrf_token_invalid, auth_csrf_token_missing, auth_missing_required_permission,
  auth_missing_required_role, auth_user_has_no_roles, auth_user_inactive, forbidden, unauthorized,
  unauthorized_exception,
}

-- A user as the strategy selects it.
pub record UserRow : Type 0 where
  pub id : String
  pub is_active : Bool
  pub organization_id : String
  pub branch_id : Option String

-- A role of a user, with the keys of its permissions.
pub record RoleGrant : Type 0 where
  pub name : String
  pub permissions : List String

-- The queries of the guards: `user.findUnique` by id and `userRole.findMany` by the user's id.
pub record Directory : Type 0 where
  pub find_user : String → Option UserRow
  pub roles_of : String → List RoleGrant
  pub find_user_id : (k : String) {r : UserRow} → find_user k ≡ some r → r.id ≡ k

abbrev pub role_names : List RoleGrant → List String
role_names grants = map (λ g. g.name) grants

-- `userRoles.flatMap(...)`
abbrev pub permission_keys : List RoleGrant → List String
permission_keys [] = []
permission_keys (g ∷ gs) = g.permissions ++ permission_keys gs

abbrev pub active_user : Option UserRow → Option UserRow
active_user none = none
active_user (some user) = if user.is_active then some user else none

-- The last two tests of the permissions guard.
unfoldable pub check_required : List String → List String → List RoleGrant → Result (Unit {0})
check_required required_roles required_permissions grants = do
  throw_if
      (not (is_empty required_roles) && not (any (includes (role_names grants)) required_roles))
      (forbidden auth_missing_required_role)
  throw_if
      (not (is_empty required_permissions)
        && not (every (includes (permission_keys grants)) required_permissions))
      (forbidden auth_missing_required_permission)

module _ (dir : Directory) where
  -- `JwtStrategy.validate`, on the payload's `sub` and `sid`.
  unfoldable pub validate : String → Option String → Result AuthenticatedUserContext
  validate sub sid = do
    user ← or_throw (active_user (dir.find_user sub)) (unauthorized_exception auth_user_inactive)
    let grants = dir.roles_of user.id
    let names = unique_strings (role_names grants)
    ok (record {
      sub = user.id;
      id = user.id;
      sid = sid;
      organization_id = user.organization_id;
      role = resolve_runtime_role names;
      branch_id = user.branch_id;
      roles = names;
      permissions = unique_strings (permission_keys grants);
    })

  -- `PermissionsGuard.canActivate`, on the metadata of the route and `req.user?.sub`.
  unfoldable pub can_activate : List String → List String → Option String → Result (Unit {0})
  can_activate required_roles required_permissions sub =
      if is_empty required_roles && is_empty required_permissions then ok tt else (do
        user_id ← or_throw (truthy sub) (unauthorized_exception unauthorized)
        _ ←
            or_throw (active_user (dir.find_user user_id))
              (unauthorized_exception auth_user_inactive)
        throw_if (is_empty (dir.roles_of user_id)) (forbidden auth_user_has_no_roles)
        check_required required_roles required_permissions (dir.roles_of user_id))

-- A request header: absent, one value, or several.
pub data Header : Type 0 where
  absent_value : Header
  one_value : String → Header
  values : List String → Header

-- `!csrfHeader`; an array counts as present even where it is empty.
abbrev pub is_absent : Header → Bool
is_absent absent_value = true
is_absent (one_value v) = v == ""
is_absent (values vs) = false

abbrev first_value : List String → Option String
first_value [] = none
first_value (v ∷ vs) = some v

abbrev pub header_value : Header → Option String
header_value absent_value = none
header_value (one_value v) = some v
header_value (values vs) = first_value vs

abbrev pub is_mutating : String → Bool
is_mutating method = includes ("POST" ∷ "PUT" ∷ "PATCH" ∷ "DELETE" ∷ []) (to_upper_case method)

-- `!headerValue || csrfCookie !== headerValue`
abbrev pub differs : Option String → String → Bool
differs none cookie = true
differs (some value) cookie = not (cookie == value)

-- `CsrfGuard.canActivate`, on the method, the cookie and the header.
unfoldable pub csrf_can_activate : String → Option String → Header → Result (Unit {0})
csrf_can_activate method cookie header =
    if is_mutating method
    then (do
      throw_if (is_absent header) (forbidden auth_csrf_token_missing)
      token ← or_throw (truthy cookie) (forbidden auth_csrf_token_missing)
      throw_if (differs (truthy (header_value header)) token) (forbidden auth_csrf_token_invalid))
    else ok tt
