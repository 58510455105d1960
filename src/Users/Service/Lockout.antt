-- ===== src/Users/Service/Lockout.antt =====
-- A user who was removed is kept out by the guards and by the refreshing of tokens.
use mathlib.Core.Option
use ops_flow_ms.Users.Service.{remove}
use ops_flow_ms.Users.Service.Removal.{remove_sound}
use ops_flow_ms.Auth.{User, user_id, AuthSession, session_id, SessionMeta, Secrets, Draw}
use ops_flow_ms.Auth.Registration.{role_id}
use ops_flow_ms.Branches.Repository.{branch_id}
use ops_flow_ms.Guards.{UserRow, RoleGrant, Directory, validate}
use ops_flow_ms.AuthContext.{AuthenticatedUserContext}
use ops_flow_ms.Db.{Delegate}
use ops_flow_ms.Shared.{List, Option, String, ap, none, refl, some, some_inj, sym, ℕ, ◌∙◌, ◌≡◌}
use ops_flow_ms.Errors.{auth_user_inactive, unauthorized, unauthorized_exception}
use ops_flow_ms.Errors.Result.{err, ok}
use ops_flow_ms.Auth.Sessions.Rotation.{refresh_inactive}
use ops_flow_ms.Auth.Sessions.{refresh}

-- The columns that the strategy selects.
abbrev user_row : User → UserRow
user_row u = record {
  id = u.id;
  is_active = u.is_active;
  organization_id = u.organization_id;
  branch_id = u.branch_id;
}

module _ (users : Delegate user_id) (us : users.Store) (grants : String → List RoleGrant) where
  pub user_row_id :
      (k : String) (o : Option User) {r : UserRow}
      → users.find k us ≡ o
      → Option.map user_row o ≡ some r
      → r.id ≡ k
  user_row_id k none here e = absurd (cc)
  user_row_id k (some u) {r} here e =
      let same : user_row u ≡ r = some_inj e in ap (λ x. x.id) (sym same) ∙ users.find_id k us here

  -- What the guards read, over the table of users; the roles that join rows grant are a parameter.
  abbrev pub directory_of : Directory
  directory_of = record {
    find_user = λ k. Option.map user_row (users.find k us);
    roles_of = grants;
    find_user_id = λ k {r} e. user_row_id k (users.find k us) refl e;
  }

module _ (secrets : Secrets) (users : Delegate user_id) (roles : Delegate role_id)
    (branches : Delegate branch_id) (sessions : Delegate session_id) (max_age : Option ℕ) where
  open secrets use {verify_refresh}

  -- Once a user was removed, an access token of the user is refused with 401 AUTH_USER_INACTIVE,
  -- and a genuine refresh token of a stored session of the user with 401 UNAUTHORIZED, and nothing
  -- is written then.
  pub remove_locks_out :
      (id : String) (current_user : AuthenticatedUserContext) (rs : roles.Store)
      (us t : users.Store) (grants : String → List RoleGrant) (sid : Option String) (draw : Draw)
      (token : String) (meta : SessionMeta) (s : sessions.Store) (session : AuthSession)
      → remove secrets users roles branches id current_user rs us ≡ (ok tt, t)
      → verify_refresh draw.now token ≡ some session.id
      → sessions.find session.id s ≡ some session
      → session.user_id ≡ id
      → (validate (directory_of users t grants) id sid
          ≡ err (unauthorized_exception auth_user_inactive))
        × (refresh secrets sessions max_age users draw token meta t s
            ≡ (err (unauthorized_exception unauthorized), s))
  unfolding validate
  remove_locks_out id current_user rs us t grants sid draw token meta s session e named found own =
      let (u, (_, _, (gone, _))) =
        remove_sound secrets users roles branches id current_user rs us t e in
      (
        rw (validate, gone),
        refresh_inactive secrets sessions max_age users draw token meta t s session named found
            (rw (own, gone)),
      )
