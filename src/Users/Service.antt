-- ===== src/Users/Service.antt =====
-- src/users/users/users.service.ts. The role and the branch tables are only read; of the writes an
-- update makes, those made before it throws stay written.
pub mod Access
pub mod Isolation
pub mod Keeping
pub mod Updates
pub mod Creation
pub mod Removal
pub mod Changes
pub mod Columns
pub mod Update
pub mod Lockout
use mathlib.Core.Option
use ops_flow_ms.Users.Repository.{
  UserRecord, UserUpdateInput, UserCreateInput, find_by_id, list, create as create_user,
  update as update_user, soft_delete,
}
use ops_flow_ms.Branches.Repository.{BranchRecord, branch_id, find_by_id as find_branch}
use ops_flow_ms.Errors.{
  http, Failure, access_denied, branch_not_found, forbidden, is_email_unique_violation, not_found,
  thrown, user_already_exists, user_invalid_role, user_not_found, user_role_required,
}
use ops_flow_ms.AuthContext.{
  RuntimeRole, admin, manager, operator, unique_strings, AuthenticatedUserContext,
  resolve_runtime_role,
}
use ops_flow_ms.Errors.Action.{Action}
use ops_flow_ms.Shared.{
  Bool, List, Option, String, [], eqb, false, if◌then◌else◌, includes, is_empty, is_some, length,
  map, none, not, some, true, truthy, ◌++◌, ◌==◌, ◌||◌,
}
use ops_flow_ms.Db.{Delegate, threw, done}
use ops_flow_ms.Errors.Result.{Result, err, ok, or_throw, throw_if, ◌>>=◌, ◌>>◌}
use ops_flow_ms.Auth.Registration.{Role, role_id}
use ops_flow_ms.Auth.{Secrets, User, user_id}
use ops_flow_ms.Guards.{role_names}
use ops_flow_ms.Users.Dto.{
  CreateUserDto, UpdateUserDto, UserResponseDto, add_roles, assert_can_manage_users, catch_email,
  clear_roles, has_keys, is_admin, map_user_response, missing, owns, update_data,
}

module _ (secrets : Secrets) (users : Delegate user_id) (roles : Delegate role_id)
    (branches : Delegate branch_id) where
  open secrets use {hash}

  unfoldable pub find_all :
      AuthenticatedUserContext → roles.Store → users.Store → List UserResponseDto
  unfolding list
  find_all current_user rs us =
      map map_user_response (list users roles current_user.organization_id (some true) rs us)

  -- `findById` of the repository, where a missing user is 404 USER_NOT_FOUND.
  abbrev pub required :
      String → AuthenticatedUserContext → roles.Store → users.Store → Result UserRecord
  required id current_user rs us = do
    user ← find_by_id users roles current_user.organization_id id rs us
    or_throw user (not_found user_not_found)

  unfoldable pub assert_can_access_user :
      String → AuthenticatedUserContext → roles.Store → users.Store → Result (Unit {0})
  unfolding find_by_id
  assert_can_access_user target_user_id current_user rs us = do
    target ← required target_user_id current_user rs us
    if is_admin current_user.role
        then ok tt
        else (if target.id == current_user.id then ok tt else err (forbidden access_denied))

  unfoldable pub find_one :
      String → AuthenticatedUserContext → roles.Store → users.Store → Result UserResponseDto
  unfolding assert_can_access_user find_by_id map_user_response
  find_one id current_user rs us = do
    assert_can_access_user id current_user rs us
    user ← required id current_user rs us
    ok (map_user_response user)

  unfoldable pub load_roles : List String → roles.Store → Result (List Role)
  load_roles role_names rs =
      let db_roles = roles.find_many (λ r. includes role_names r.name) rs in
      (do
        throw_if (not (eqb (length db_roles) (length role_names))) (forbidden user_invalid_role)
        ok db_roles)

  abbrev pub found_branch : Option BranchRecord → Result (Option String)
  found_branch none = err (not_found branch_not_found)
  found_branch (some branch) = ok (some branch.id)

  abbrev pub branch_in : Option String → String → branches.Store → Result (Option String)
  branch_in none organization_id bs = ok none
  branch_in (some branch) organization_id bs = do
    row ← find_branch branches organization_id branch bs
    found_branch row

  unfoldable pub resolve_branch_id :
      Option String → String → branches.Store → Result (Option String)
  unfolding find_branch
  resolve_branch_id branch organization_id bs = branch_in (truthy branch) organization_id bs

  -- What `create` checks, and the row that it then writes.
  unfoldable pub create_input :
      String
      → CreateUserDto
      → AuthenticatedUserContext
      → branches.Store
      → roles.Store
      → users.Store
      → Result UserCreateInput
  unfolding assert_can_manage_users load_roles resolve_branch_id
  create_input salt dto current_user bs rs us = do
    assert_can_manage_users current_user
    throw_if (is_some (users.find_first (λ u. u.email == dto.email) us))
        (forbidden user_already_exists)
    throw_if (is_empty dto.roles) (forbidden user_role_required)
    db_roles ← load_roles dto.roles rs
    branch ← resolve_branch_id dto.branch_id current_user.organization_id bs
    ok (record {
      branch_id = branch;
      email = dto.email;
      password = hash salt dto.password;
      is_active = true;
      role_ids = map role_id db_roles;
    })

  abbrev pub respond : Result UserRecord → Result UserResponseDto
  respond (ok user) = ok (map_user_response user)
  respond (err e) = err e

  unfoldable pub create :
      String
      → String
      → CreateUserDto
      → AuthenticatedUserContext
      → branches.Store
      → roles.Store
      → Action users.Store UserResponseDto
  unfolding create_input create_user map_user_response
  create uuid salt dto current_user bs rs us = elim (create_input salt dto current_user bs rs us) [
    | err e ↦ (err e, us)
    | ok input ↦
        let (r, us') = create_user users roles uuid current_user.organization_id input rs us in
        (respond (catch_email r), us')
  ]

  abbrev pub branch_change :
      Option (Option String) → String → branches.Store → Result (Option (Option String))
  branch_change none organization_id bs = ok none
  branch_change (some branch) organization_id bs = do
    resolved ← resolve_branch_id branch organization_id bs
    ok (some resolved)

  -- What `update` checks before it writes, and the columns that it then sets.
  unfoldable pub update_input :
      String
      → UpdateUserDto
      → AuthenticatedUserContext
      → branches.Store
      → roles.Store
      → users.Store
      → Result UserUpdateInput
  unfolding assert_can_access_user find_by_id resolve_branch_id
  update_input id dto current_user bs rs us = do
    assert_can_access_user id current_user rs us
    _ ← required id current_user rs us
    branch ← branch_change dto.branch_id current_user.organization_id bs
    ok (update_data dto branch)

  abbrev pub done_with {ℓ} : {A : Type ℓ} → Result A → Result (Unit {0})
  done_with (ok a) = ok tt
  done_with (err e) = err e

  -- The write of the columns, if the object has any key.
  unfoldable pub write_columns :
      String
      → UpdateUserDto
      → UserUpdateInput
      → String
      → roles.Store
      → Action users.Store (Unit {0})
  unfolding update_user
  write_columns id dto input organization_id rs us =
      let (r, us') = update_user users roles organization_id id input rs us in
      if has_keys dto then (done_with (catch_email r), us') else (ok tt, us)

  -- `userRole.deleteMany` and `userRole.createMany`, one after the other.
  unfoldable pub replace_roles : String → List Role → Action users.Store (Unit {0})
  replace_roles id new us = elim (users.update_many (owns id) clear_roles us) [
    | threw e ↦ (err (thrown e), us)
    | done us' ↦ elim (users.update_many (owns id) (add_roles new) us') [
      | threw e ↦ (err (thrown e), us')
      | done us'' ↦ (ok tt, us'')
    ]
  ]

  abbrev pub roles_to_set : List String → roles.Store → Result (List Role)
  roles_to_set names rs = do
    throw_if (is_empty names) (forbidden user_role_required)
    load_roles names rs

  unfoldable pub write_roles :
      String → Option (List String) → roles.Store → Action users.Store (Unit {0})
  unfolding load_roles replace_roles
  write_roles id none rs us = (ok tt, us)
  write_roles id (some names) rs us = elim (roles_to_set names rs) [
    | err e ↦ (err e, us)
    | ok new ↦ replace_roles id new us
  ]

  -- The columns are written before the roles are checked.
  unfoldable pub write_update :
      String
      → UpdateUserDto
      → UserUpdateInput
      → String
      → roles.Store
      → Action users.Store (Unit {0})
  unfolding write_columns write_roles
  write_update id dto input organization_id rs us =
      let (r, us') = write_columns id dto input organization_id rs us in
      elim r [ err e ↦ (err e, us') | ok _ ↦ write_roles id dto.roles rs us' ]

  unfoldable pub update :
      String
      → UpdateUserDto
      → AuthenticatedUserContext
      → branches.Store
      → roles.Store
      → Action users.Store UserResponseDto
  unfolding update_input write_update find_by_id map_user_response
  update id dto current_user bs rs us = elim (update_input id dto current_user bs rs us) [
    | err e ↦ (err e, us)
    | ok input ↦
        let (r, us') = write_update id dto input current_user.organization_id rs us in
        elim r [ err e ↦ (err e, us') | ok _ ↦ (respond (required id current_user rs us'), us') ]
  ]

  -- `if (!wasDeleted)`
  abbrev pub removed : Result Bool → Result (Unit {0})
  removed (ok was_deleted) = throw_if (not was_deleted) (not_found user_not_found)
  removed (err e) = err e

  unfoldable pub remove :
      String → AuthenticatedUserContext → roles.Store → Action users.Store (Unit {0})
  unfolding assert_can_access_user soft_delete
  remove id current_user rs us = elim (assert_can_access_user id current_user rs us) [
    | err e ↦ (err e, us)
    | ok _ ↦
        let (r, us') = soft_delete users roles current_user.organization_id id rs us in
        (removed r, us')
  ]
