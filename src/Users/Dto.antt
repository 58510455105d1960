-- ===== src/Users/Dto.antt =====
-- The requests and answers of src/users/users, from its dto folder and its service, and what the service
-- makes of them before and after it asks the tables.
use ops_flow_ms.Users.Repository.{UserRecord, UserUpdateInput}
use ops_flow_ms.Errors.{
  http, Failure, access_denied, forbidden, is_email_unique_violation, thrown, user_already_exists,
}
use ops_flow_ms.AuthContext.{
  RuntimeRole, admin, manager, operator, unique_strings, AuthenticatedUserContext,
  resolve_runtime_role,
}
use ops_flow_ms.Shared.{
  Bool, List, Option, String, [], false, if◌then◌else◌, is_some, map, none, some, true, ◌++◌, ◌==◌,
  ◌||◌,
}
use ops_flow_ms.Errors.Result.{Result, err, ok}
use ops_flow_ms.Auth.Registration.{Role, role_id}
use ops_flow_ms.Auth.{User}

-- A key of an object: absent, present with the value undefined, or present with a value.
pub data Property {ℓ} (A : Type ℓ) : Type ℓ where
  missing : Property A
  undefined : Property A
  given : A → Property A

pub record CreateUserDto : Type 0 where
  pub email : String
  pub password : String
  pub roles : List String
  pub branch_id : Option String

-- Of `branchId`, undefined and null differ; of `roles`, only whether it is there.
pub record UpdateUserDto : Type 0 where
  pub email : Property String
  pub is_active : Property Bool
  pub roles : Option (List String)
  pub branch_id : Option (Option String)

pub record UserResponseDto : Type 0 where
  pub id : String
  pub organization_id : String
  pub branch_id : Option String
  pub role : RuntimeRole
  pub email : String
  pub roles : List String

-- A property of which the value is undefined is left as it is.
abbrev pub value_of {ℓ} : {A : Type ℓ} → Property A → Option A
value_of missing = none
value_of undefined = none
value_of (given a) = some a

abbrev pub has_key {ℓ} : {A : Type ℓ} → Property A → Bool
has_key missing = false
has_key undefined = true
has_key (given a) = true

-- `Object.keys(updateData).length > 0`
abbrev pub has_keys : UpdateUserDto → Bool
has_keys dto = has_key dto.email || has_key dto.is_active || is_some dto.branch_id

abbrev pub update_data : UpdateUserDto → Option (Option String) → UserUpdateInput
update_data dto branch = record {
  email = value_of dto.email;
  is_active = value_of dto.is_active;
  branch_id = branch;
}

abbrev pub is_admin : RuntimeRole → Bool
is_admin admin = true
is_admin manager = false
is_admin operator = false

unfoldable pub assert_can_manage_users : AuthenticatedUserContext → Result (Unit {0})
assert_can_manage_users current_user =
    if is_admin current_user.role then ok tt else err (forbidden access_denied)

unfoldable pub map_user_response : UserRecord → UserResponseDto
map_user_response user =
    let role_names = unique_strings user.roles in
    record {
      id = user.id;
      organization_id = user.organization_id;
      branch_id = user.branch_id;
      role = resolve_runtime_role role_names;
      email = user.email;
      roles = role_names;
    }

-- The `catch` of the writes to a user.
abbrev pub translate_error : Failure → Failure
translate_error (thrown e) =
    if is_email_unique_violation e then forbidden user_already_exists else thrown e
translate_error (http e) = http e

abbrev pub catch_email {ℓ} : {A : Type ℓ} → Result A → Result A
catch_email (ok a) = ok a
catch_email (err e) = err (translate_error e)

abbrev pub clear_roles : User → User
clear_roles u = record u { role_ids = [] }

abbrev pub add_roles : List Role → User → User
add_roles new u = record u { role_ids = u.role_ids ++ map role_id new }

abbrev pub owns : String → User → Bool
owns id u = u.id == id
