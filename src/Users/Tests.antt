-- ===== src/Users/Tests.antt =====
-- The theorems on users in an organization of an administrator and an operator.
use ops_flow_ms.Auth.{User}
use ops_flow_ms.Auth.Tests.{secrets, users, sessions, no_meta, draw, open_session, one_session}
use ops_flow_ms.Auth.Registration.{Role, role_id}
use ops_flow_ms.Branches.Tests.{branch_table, two_branches}
use ops_flow_ms.Db.Memory.{memory}
use ops_flow_ms.Users.Repository.{
  UserCreateInput, UserUpdateInput, new_user, selected, apply_input, deactivate,
}
use ops_flow_ms.Users.Service.{
  assert_can_access_user, update, update_input, load_roles, remove, roles_to_set,
}
use ops_flow_ms.Users.Dto.{
  CreateUserDto, UpdateUserDto, UserResponseDto, undefined, given, map_user_response,
}
use ops_flow_ms.Users.Service.Access.{Belongs, MayReach, assert_can_access_user_iff}
use ops_flow_ms.Users.Service.Update.{WasUpdated, update_sound, update_halfway}
use ops_flow_ms.Users.Service.Isolation.{
  change_of, removal, perform_users, UserHistory, perform_users-Isolates,
}
use ops_flow_ms.Users.Service.Lockout.{directory_of, remove_locks_out}
use ops_flow_ms.AuthContext.{
  AuthenticatedUserContext, RuntimeRole, admin, operator, resolve_runtime_role, unique_strings,
}
use ops_flow_ms.Db.{Delegate}
use ops_flow_ms.Shared.{List, String, [], none, refl, true, ◌==◌, ◌∷◌, ◌≡◌, ne_of_beq, some, ◌↔◌}
use ops_flow_ms.Errors.Result.{ok, err}
use ops_flow_ms.Errors.{
  primitive, auth_user_inactive, forbidden, unauthorized, unauthorized_exception, user_invalid_role,
}
use ops_flow_ms.Tenancy.{assert_organization_access}
use ops_flow_ms.Guards.{validate}
use ops_flow_ms.Auth.Sessions.{refresh}

abbrev roles : Delegate role_id
roles = memory role_id (λ a b. a.name == b.name) primitive

abbrev stored_roles : List Role
stored_roles = record { id = "r1"; name = "ADMIN" } ∷ record { id = "r2"; name = "OPERATOR" } ∷ []

abbrev user : String → String → String → String → User
user id email org role = record {
  id = id;
  email = email;
  password = "pw";
  is_active = true;
  organization_id = org;
  branch_id = none;
  role_ids = role ∷ [];
}

abbrev ines : User
ines = user "u1" "ines@x.io" "acme" "r1"

abbrev omar : User
omar = user "u2" "omar@x.io" "acme" "r2"

abbrev foreign_user : User
foreign_user = user "u3" "pia@y.io" "other" "r1"

abbrev stored_users : List User
stored_users = ines ∷ omar ∷ foreign_user ∷ []

abbrev context : String → String → RuntimeRole → AuthenticatedUserContext
context id org role = record {
  sub = id;
  id = id;
  sid = none;
  organization_id = org;
  role = role;
  branch_id = none;
  roles = [];
  permissions = [];
}

abbrev admin_context : AuthenticatedUserContext
admin_context = context "u1" "acme" admin

abbrev new_dto : CreateUserDto
new_dto = record {
  email = "new@x.io";
  password = "secret88";
  roles = "OPERATOR" ∷ [];
  branch_id = none;
}

abbrev new_input : UserCreateInput
new_input = record {
  branch_id = none;
  email = "new@x.io";
  password = "secret88";
  is_active = true;
  role_ids = "r2" ∷ [];
}

abbrev created_user : User
created_user = new_user users roles "u4" "acme" new_input

abbrev created_response : UserResponseDto
created_response = record {
  id = "u4";
  organization_id = "acme";
  branch_id = none;
  role = operator;
  email = "new@x.io";
  roles = "OPERATOR" ∷ [];
}

assert_can_access_user_iff_example :
    (assert_can_access_user secrets users roles branch_table "u2" admin_context stored_roles
        stored_users
      ≡ ok tt)
    ↔ ((u : User) × Belongs users "acme" "u2" stored_users u × MayReach admin_context "u2")
assert_can_access_user_iff_example =
    assert_can_access_user_iff secrets users roles branch_table "u2" admin_context stored_roles
      stored_users

abbrev promotion : UpdateUserDto
promotion = record {
  email = given "omar@y.io";
  is_active = undefined;
  roles = some ("ADMIN" ∷ []);
  branch_id = none;
}

abbrev promoted : User
promoted = user "u2" "omar@y.io" "acme" "r1"

abbrev promoted_response : UserResponseDto
promoted_response = record {
  id = "u2";
  organization_id = "acme";
  branch_id = none;
  role = admin;
  email = "omar@y.io";
  roles = "ADMIN" ∷ [];
}

abbrev after_promotion : List User
after_promotion = ines ∷ promoted ∷ foreign_user ∷ []

promotes :
    update secrets users roles branch_table "u2" promotion admin_context two_branches stored_roles
      stored_users
    ≡ (ok promoted_response, after_promotion)
unfolding update resolve_runtime_role unique_strings assert_organization_access
promotes = refl

update_sound_example :
    (u : User) × (v : User) × WasUpdated secrets users roles branch_table "u2" promotion
      admin_context two_branches stored_roles stored_users after_promotion u v
    × (promoted_response ≡ map_user_response (selected users roles stored_roles v))
update_sound_example =
    update_sound secrets users roles branch_table "u2" promotion admin_context two_branches
      stored_roles stored_users after_promotion promoted_response promotes

abbrev unknown_role : UpdateUserDto
unknown_role = record {
  email = given "omar@y.io";
  is_active = undefined;
  roles = some ("NOBODY" ∷ []);
  branch_id = none;
}

abbrev new_address : UserUpdateInput
new_address = record { email = some "omar@y.io"; is_active = none; branch_id = none }

abbrev half_updated : List User
half_updated = ines ∷ user "u2" "omar@y.io" "acme" "r2" ∷ foreign_user ∷ []

checks_address :
    update_input secrets users roles branch_table "u2" unknown_role admin_context two_branches
      stored_roles stored_users
    ≡ ok new_address
unfolding update_input assert_organization_access
checks_address = refl

refuses_role :
    roles_to_set secrets users roles branch_table ("NOBODY" ∷ []) stored_roles
    ≡ err (forbidden user_invalid_role)
unfolding load_roles
refuses_role = refl

update_halfway_example :
    (update secrets users roles branch_table "u2" unknown_role admin_context two_branches
        stored_roles stored_users
      ≡ (err (forbidden user_invalid_role), half_updated))
    × ((u : User) × Belongs users "acme" "u2" stored_users u
        × (users.find "u2" half_updated ≡ some (apply_input new_address u)))
update_halfway_example =
    update_halfway secrets users roles branch_table "u2" unknown_role admin_context two_branches
      stored_roles stored_users half_updated new_address ("NOBODY" ∷ [])
      (forbidden user_invalid_role) checks_address refl refl refuses_role refl

abbrev after_removal : List User
after_removal = deactivate ines ∷ omar ∷ foreign_user ∷ []

removes :
    remove secrets users roles branch_table "u1" admin_context stored_roles stored_users
    ≡ (ok tt, after_removal)
unfolding remove assert_organization_access
removes = refl

remove_locks_out_example :
    (validate (directory_of users after_removal (λ k. [])) "u1" none
      ≡ err (unauthorized_exception auth_user_inactive))
    × (refresh secrets sessions none users draw "s1" no_meta after_removal one_session
        ≡ (err (unauthorized_exception unauthorized), one_session))
remove_locks_out_example =
    remove_locks_out secrets users roles branch_table sessions none "u1" admin_context stored_roles
      stored_users after_removal (λ k. []) none draw "s1" no_meta one_session open_session removes
      refl refl refl

-- A foreign administrator tries a change and a removal.
abbrev foreign_context : AuthenticatedUserContext
foreign_context = context "u3" "other" admin

abbrev foreign_requests : UserHistory secrets users roles branch_table
foreign_requests =
    (foreign_context, two_branches, stored_roles, change_of "u2" promotion)
    ∷ (foreign_context, two_branches, stored_roles, removal "u2")
    ∷ []

perform_users-Isolates_example : (users.find "u2" stored_users ≡ some omar) ↔ (
    users.find "u2" (perform_users secrets users roles branch_table foreign_requests stored_users)
    ≡ some omar)
perform_users-Isolates_example =
    perform_users-Isolates secrets users roles branch_table "acme" foreign_requests stored_users
      "u2" omar (ne_of_beq "acme" "other" refl, (ne_of_beq "acme" "other" refl, tt)) refl
