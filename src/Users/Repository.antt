-- ===== src/Users/Repository.antt =====
-- src/users/users/users.repository.ts. The join rows that give a user its roles are the user's list
-- of role ids; a role id without a role, which the schema's foreign key rules out, has no name.
use ops_flow_ms.Auth.{User, user_id}
use ops_flow_ms.Auth.Registration.{Role, role_id}
use ops_flow_ms.Tenancy.{assert_organization_access}
use ops_flow_ms.Errors.Action.{Action}
use ops_flow_ms.Shared.{
  Bool, List, Option, String, [], false, if◌then◌else◌, is_some, map, none, not, or_else, some,
  true, ◌&&◌, ◌==◌, ◌∷◌,
}
use ops_flow_ms.Db.{Delegate, threw, keep, done}
use ops_flow_ms.Errors.Result.{Result, err, ok, ◌>>◌}
use ops_flow_ms.Errors.{thrown}

-- The columns that are selected, with the names of the roles.
pub record UserRecord : Type 0 where
  pub id : String
  pub organization_id : String
  pub branch_id : Option String
  pub email : String
  pub roles : List String

pub record UserCreateInput : Type 0 where
  pub branch_id : Option String
  pub email : String
  pub password : String
  pub is_active : Bool
  pub role_ids : List String

-- The third field is a column that may be set to null.
pub record UserUpdateInput : Type 0 where
  pub email : Option String
  pub is_active : Option Bool
  pub branch_id : Option (Option String)

abbrev pub owner : User → String
owner u = u.organization_id

abbrev pub apply_input : UserUpdateInput → User → User
apply_input input u = record u {
  email = or_else input.email u.email;
  is_active = or_else input.is_active u.is_active;
  branch_id = or_else input.branch_id u.branch_id;
}

abbrev pub deactivate : User → User
deactivate u = record u { is_active = false }

-- `where: { id, organizationId }`
abbrev pub in_scope : String → String → User → Bool
in_scope organization_id id u = u.id == id && u.organization_id == organization_id

abbrev matches_activity : Option Bool → User → Bool
matches_activity none u = true
matches_activity (some wanted) u = if wanted then u.is_active else not u.is_active

abbrev add_name : Option Role → List String → List String
add_name none names = names
add_name (some role) names = role.name ∷ names

module _ (users : Delegate user_id) (roles : Delegate role_id) where
  abbrev names_of : List String → roles.Store → List String
  names_of [] rs = []
  names_of (role ∷ ids) rs = add_name (roles.find role rs) (names_of ids rs)

  abbrev pub selected : roles.Store → User → UserRecord
  selected rs u = record {
    id = u.id;
    organization_id = u.organization_id;
    branch_id = u.branch_id;
    email = u.email;
    roles = names_of u.role_ids rs;
  }

  unfoldable pub list : String → Option Bool → roles.Store → users.Store → List UserRecord
  list organization_id is_active rs us = map (selected rs) (
      users.find_many (λ u. u.organization_id == organization_id && matches_activity is_active u)
        us)

  -- The user, if it is there and belongs to the organization; one of another organization throws.
  abbrev pub scoped : String → roles.Store → Option User → Result (Option UserRecord)
  scoped organization_id rs none = ok none
  scoped organization_id rs (some u) = do
    assert_organization_access u.organization_id organization_id
    ok (some (selected rs u))

  unfoldable pub find_by_id :
      String → String → roles.Store → users.Store → Result (Option UserRecord)
  find_by_id organization_id id rs us = scoped organization_id rs (users.find id us)

  abbrev pub new_user : String → String → UserCreateInput → User
  new_user uuid organization_id input = record {
    id = uuid;
    email = input.email;
    password = input.password;
    is_active = input.is_active;
    organization_id = organization_id;
    branch_id = input.branch_id;
    role_ids = input.role_ids;
  }

  -- The database chooses the new row's id.
  unfoldable pub create :
      String → String → UserCreateInput → roles.Store → Action users.Store UserRecord
  create uuid organization_id input rs us =
      elim (users.create (new_user uuid organization_id input) us) [
        | done us' ↦ (ok (selected rs (new_user uuid organization_id input)), us')
        | threw e ↦ (err (thrown e), us)
      ]

  unfoldable pub update :
      String → String → UserUpdateInput → roles.Store → Action users.Store (Option UserRecord)
  unfolding find_by_id
  update organization_id id input rs us =
      elim (users.update_many (in_scope organization_id id) (apply_input input) us) [
        | done us' ↦ (find_by_id organization_id id rs us', us')
        | threw e ↦ (err (thrown e), us)
      ]

  -- `updated.count > 0`: a condition on the primary key matches the row with that key, or none.
  abbrev pub any_updated : String → String → users.Store → Bool
  any_updated organization_id id us =
      is_some (keep (in_scope organization_id id) (users.find id us))

  abbrev pub found : Result (Option UserRecord) → Result Bool
  found (ok user) = ok (is_some user)
  found (err e) = err e

  unfoldable pub soft_delete : String → String → roles.Store → Action users.Store Bool
  unfolding find_by_id
  soft_delete organization_id id rs us =
      elim (users.update_many (in_scope organization_id id) deactivate us) [
        | done us' ↦
            if any_updated organization_id id us
            then (ok true, us')
            else (found (find_by_id organization_id id rs us'), us')
        | threw e ↦ (err (thrown e), us)
      ]
