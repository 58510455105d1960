-- ===== src/Auth/Profile.antt =====
-- src/auth/auth.service.ts: the data of the session that `auth/me` answers, against the context that the
-- strategy makes of a token.
use mathlib.Core.Option
use ops_flow_ms.Guards.{UserRow, RoleGrant, Directory, validate, role_names, permission_keys}
use ops_flow_ms.AuthContext.{
  AuthenticatedUserContext, RuntimeRole, resolve_runtime_role, unique_strings,
}
use ops_flow_ms.Shared.{
  Bool-cases, List, Option, String, if◌then◌else◌, inl, inr, none, refl, some, sym, ◌∙◌, ◌≡◌, subst,
}
use ops_flow_ms.Errors.Result.{Result, ok, or_throw, ◌>>=◌, ok_inj}
use ops_flow_ms.Errors.{auth_user_inactive, unauthorized_exception}

-- A user as `getSession` selects it.
pub record ProfileRow : Type 0 where
  pub row : UserRow
  pub email : String

pub record SessionUser : Type 0 where
  pub id : String
  pub email : String
  pub organization_id : String
  pub branch_id : Option String
  pub role : RuntimeRole

pub record SessionResponse : Type 0 where
  pub user : SessionUser
  pub role : RuntimeRole
  pub roles : List String
  pub permissions : List String

-- The answer, from the selected columns and the roles.
abbrev response_of : ProfileRow → List RoleGrant → SessionResponse
response_of user grants =
    let names = unique_strings (role_names grants) in
    record {
      user = record {
        id = user.row.id;
        email = user.email;
        organization_id = user.row.organization_id;
        branch_id = user.row.branch_id;
        role = resolve_runtime_role names;
      };
      role = resolve_runtime_role names;
      roles = names;
      permissions = unique_strings (permission_keys grants);
    }

abbrev active_profile : Option ProfileRow → Option ProfileRow
active_profile none = none
active_profile (some user) = if user.row.is_active then some user else none

module _ (find_profile : String → Option ProfileRow) (roles_of : String → List RoleGrant) where
  unfoldable pub get_session : String → Result SessionResponse
  get_session user_id = do
    user ←
        or_throw (active_profile (find_profile user_id)) (unauthorized_exception auth_user_inactive)
    ok (response_of user (roles_of user_id))

-- What the answer says is what the context of the same user holds.
abbrev pub Agrees : SessionResponse → AuthenticatedUserContext → Type 0
Agrees r u =
    (r.user.id ≡ u.id)
    × (r.user.organization_id ≡ u.organization_id)
    × (r.user.branch_id ≡ u.branch_id)
    × (r.user.role ≡ u.role)
    × (r.role ≡ u.role)
    × (r.roles ≡ u.roles)
    × (r.permissions ≡ u.permissions)

-- The strategy and the answer read the same users and roles.
abbrev SameUsers : (String → Option ProfileRow) → Directory → Type 0
SameUsers find_profile dir =
    (k : String) → Option.map (λ (p : ProfileRow). p.row) (find_profile k) ≡ dir.find_user k

module _ (find_profile : String → Option ProfileRow) (dir : Directory) where
  -- The session data that are answered agree with the context that a token of the same user is
  -- given: whenever the token is accepted they are answered, with the same user, organization,
  -- branch, role, roles and permissions.
  pub get_session-validate :
      (id : String) (sid : Option String) (u : AuthenticatedUserContext)
      → SameUsers find_profile dir
      → validate dir id sid ≡ ok u
      → (r : SessionResponse) × (get_session find_profile dir.roles_of id ≡ ok r) × Agrees r u
  unfolding get_session validate
  get_session-validate id sid u same e = go (find_profile id) refl
    where
      go :
          (o : Option ProfileRow)
          → find_profile id ≡ o
          → (r : SessionResponse) × (get_session find_profile dir.roles_of id ≡ ok r) × Agrees r u
      go none is = absurd (
          let gone : dir.find_user id ≡ none = sym (same id) ∙ rw is in
          let q = rw (validate, gone) at e in cc)
      go (some p) is =
          let here : dir.find_user id ≡ some p.row = sym (same id) ∙ rw is in
          let key : p.row.id ≡ id = dir.find_user_id id here in
          elim (Bool-cases p.row.is_active) [
            | inr inactive ↦ absurd (let q = rw (validate, here, inactive) at e in cc)
            | inl active ↦
                let q = rw (validate, here, active, key) at e in
                let r = response_of p (dir.roles_of id) in
                (
                  r,
                  rw (get_session, is, active),
                  subst (Agrees r) (ok_inj _ _ q) (key, refl, refl, refl, refl, refl, refl),
                )
          ]
