-- ===== src/Controllers.antt =====
-- The controllers of src: the guards, roles and permissions that each endpoint declares.
pub mod Access
pub mod Cookies
pub mod Session
pub mod Tests
use ops_flow_ms.Guards.Global.{Route}
use ops_flow_ms.Rbac.{
  Permission, key, branch_read, branch_create, branch_update, user_read, user_create, user_update,
  cash_movement_create, cash_movement_read, cash_movement_approve, cash_movement_reject,
  cash_movement_deliver, cashflow_stats_read,
}
use ops_flow_ms.Shared.{List, [], false, map, none, some, true, ℕ, ◌∷◌}

-- The endpoints of a controller, named by their method and path.
pub data AuthEndpoint : Type 0 where
  post_register post_login get_auth_me post_refresh post_logout : AuthEndpoint
  get_csrf post_forgot_password post_reset_password post_change_password : AuthEndpoint

pub data UsersEndpoint : Type 0 where
  get_users get_users_me get_user post_users patch_user delete_user : UsersEndpoint

pub data BranchesEndpoint : Type 0 where
  get_branches get_branch post_branches patch_branch : BranchesEndpoint

pub data MovementsEndpoint : Type 0 where
  post_movements get_movements post_approve post_reject post_deliver : MovementsEndpoint

pub data CashflowEndpoint : Type 0 where
  get_cashflow_stats : CashflowEndpoint

pub data HealthEndpoint : Type 0 where
  get_health get_ready get_metrics : HealthEndpoint

pub data Endpoint : Type 0 where
  auth : AuthEndpoint → Endpoint
  users : UsersEndpoint → Endpoint
  branches : BranchesEndpoint → Endpoint
  movements : MovementsEndpoint → Endpoint
  cashflow : CashflowEndpoint → Endpoint
  health : HealthEndpoint → Endpoint
  get_root : Endpoint

-- A route with no decorator but its method: the global guard stands before it.
abbrev pub plain : Route
plain = record {
  is_public = false;
  permissions_guard = false;
  required_roles = [];
  required_permissions = [];
  csrf_guard = false;
  rate_limit = none;
}

abbrev public_route : Route
public_route = record plain { is_public = true }

-- `@RateLimit({ limit, windowMs: 60000 })`
abbrev limited : ℕ → Route → Route
limited limit route = record route {
  rate_limit = some (record { limit = limit; window_ms = 60000 });
}

abbrev with_csrf : Route → Route
with_csrf route = record route { csrf_guard = true }

-- `@UseGuards(PermissionsGuard)` with the permissions of `@RequirePermissions`
abbrev guarded : List Permission → Route
guarded permissions = record plain {
  permissions_guard = true;
  required_permissions = map key permissions;
}

abbrev auth_route : AuthEndpoint → Route
auth_route post_register = public_route
auth_route post_login = limited 10 public_route
auth_route get_auth_me = plain
auth_route post_refresh = limited 20 (with_csrf public_route)
auth_route post_logout = limited 30 (with_csrf public_route)
auth_route get_csrf = public_route
auth_route post_forgot_password = limited 5 public_route
auth_route post_reset_password = limited 5 public_route
auth_route post_change_password = limited 5 plain

abbrev users_route : UsersEndpoint → Route
users_route get_users = guarded (user_read ∷ [])
users_route get_users_me = guarded []
users_route get_user = guarded []
users_route post_users = guarded (user_create ∷ [])
users_route patch_user = guarded (user_update ∷ [])
users_route delete_user = guarded (user_update ∷ [])

abbrev branches_route : BranchesEndpoint → Route
branches_route get_branches = guarded (branch_read ∷ [])
branches_route get_branch = guarded (branch_read ∷ [])
branches_route post_branches = record (guarded (branch_create ∷ [])) {
  required_roles = "ADMIN" ∷ [];
}
branches_route patch_branch = guarded (branch_update ∷ [])

abbrev movements_route : MovementsEndpoint → Route
movements_route post_movements = guarded (cash_movement_create ∷ [])
movements_route get_movements = guarded (cash_movement_read ∷ [])
movements_route post_approve = guarded (cash_movement_approve ∷ [])
movements_route post_reject = guarded (cash_movement_reject ∷ [])
movements_route post_deliver = guarded (cash_movement_deliver ∷ [])

abbrev cashflow_route : CashflowEndpoint → Route
cashflow_route get_cashflow_stats = guarded (cashflow_stats_read ∷ [])

abbrev health_route : HealthEndpoint → Route
health_route get_health = public_route
health_route get_ready = public_route
health_route get_metrics = public_route

-- Every controller, and the root of the application.
abbrev pub route_of : Endpoint → Route
route_of (auth e) = auth_route e
route_of (users e) = users_route e
route_of (branches e) = branches_route e
route_of (movements e) = movements_route e
route_of (cashflow e) = cashflow_route e
route_of (health e) = health_route e
route_of get_root = plain
