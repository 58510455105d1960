-- ===== src/Rbac.antt =====
-- src/common/rbac: the permission catalogue, the canonical roles and the permissions of each role.
pub mod Laws
mod Tests
use ops_flow_ms.Shared.{
  String, List, [], ◌∷◌, Option, none, some, Bool, true, ◌==◌, if◌then◌else◌, includes, every,
  is_empty,
}
use ops_flow_ms.AuthContext.{RuntimeRole, admin, manager, operator}

pub data Permission : Type 0 where
  branch_read branch_create branch_update : Permission
  user_read user_create user_update : Permission
  cash_movement_create cash_movement_read cash_movement_approve : Permission
  cash_movement_reject cash_movement_deliver cashflow_stats_read : Permission

-- The text of a permission, as stored and compared.
abbrev pub key : Permission → String
key branch_read = "BRANCH_READ"
key branch_create = "BRANCH_CREATE"
key branch_update = "BRANCH_UPDATE"
key user_read = "USER_READ"
key user_create = "USER_CREATE"
key user_update = "USER_UPDATE"
key cash_movement_create = "CASH_MOVEMENT_CREATE"
key cash_movement_read = "CASH_MOVEMENT_READ"
key cash_movement_approve = "CASH_MOVEMENT_APPROVE"
key cash_movement_reject = "CASH_MOVEMENT_REJECT"
key cash_movement_deliver = "CASH_MOVEMENT_DELIVER"
key cashflow_stats_read = "CASHFLOW_STATS_READ"

abbrev all_permissions : List Permission
all_permissions =
    branch_read ∷ branch_create ∷ branch_update ∷ user_read ∷ user_create ∷ user_update
    ∷ cash_movement_create ∷ cash_movement_read ∷ cash_movement_approve ∷ cash_movement_reject
    ∷ cash_movement_deliver ∷ cashflow_stats_read ∷ []

abbrev pub role_permissions_map : RuntimeRole → List Permission
role_permissions_map admin = all_permissions
role_permissions_map manager =
    branch_read ∷ user_read ∷ cash_movement_create ∷ cash_movement_read ∷ cash_movement_approve
    ∷ cash_movement_reject ∷ cash_movement_deliver ∷ cashflow_stats_read ∷ []
role_permissions_map operator = cash_movement_create ∷ cash_movement_read ∷ cashflow_stats_read ∷ []

-- The canonical roles, and the legacy alias USER.
unfoldable pub to_canonical_role : String → Option RuntimeRole
to_canonical_role role =
    if role == "ADMIN"
    then some admin
    else if role == "MANAGER"
    then some manager
    else if role == "OPERATOR"
    then some operator
    else if role == "USER"
    then some operator
    else none

abbrev permissions_of : Option RuntimeRole → List Permission
permissions_of none = []
permissions_of (some role) = role_permissions_map role

unfoldable pub get_permissions_for_role : String → List Permission
unfolding to_canonical_role
get_permissions_for_role role = permissions_of (to_canonical_role role)

unfoldable pub has_permissions : List String → List String → Bool
has_permissions user_perms required_perms =
    if is_empty required_perms then true else every (includes user_perms) required_perms
