-- ===== src/Users/Service/Isolation.antt =====
-- The users of an organization, over requests to manage users: those of other organizations neither
-- change one of them nor add one.
use ops_flow_ms.Users.Repository.{
  UserCreateInput, in_scope, deactivate, owner, new_user, soft_delete, create as create_user,
  any_updated,
}
use ops_flow_ms.Users.Service.{assert_can_access_user, create, create_input, update, remove}
use ops_flow_ms.Users.Dto.{CreateUserDto, UpdateUserDto}
use ops_flow_ms.Users.Service.Keeping.{Keeps, Keeps-refl, scoped-Keeps}
use ops_flow_ms.Auth.Registration.{role_id}
use ops_flow_ms.Branches.Repository.{branch_id}
use ops_flow_ms.AuthContext.{AuthenticatedUserContext}
use ops_flow_ms.Shared.{
  Bool-cases, List, String, inl, inr, refl, some, ◌≡◌, [], sym, ◌↔◌, ◌∙◌, ◌∷◌, ◌≢◌,
}
use ops_flow_ms.Db.{Delegate, Outcome-cases, Outcome, threw, done}
use ops_flow_ms.Errors.Result.{Result, err, ok}
use ops_flow_ms.Auth.{Secrets, User, user_id}
use ops_flow_ms.Db.Isolation.{Isolates, Isolates-refl, create-Isolates}
use ops_flow_ms.Users.Service.Updates.{update-Isolates_accounts}

-- A request of the user endpoints that may write.
pub data Request : Type 0 where
  creation : String → String → CreateUserDto → Request
  change_of : String → UpdateUserDto → Request
  removal : String → Request

module _ (secrets : Secrets) (users : Delegate user_id) (roles : Delegate role_id)
    (branches : Delegate branch_id) where
  unfoldable pub perform :
      AuthenticatedUserContext → branches.Store → roles.Store → Request → users.Store → users.Store
  perform current_user bs rs (creation uuid salt dto) us =
      (create secrets users roles branches uuid salt dto current_user bs rs us).1
  perform current_user bs rs (change_of id dto) us =
      (update secrets users roles branches id dto current_user bs rs us).1
  perform current_user bs rs (removal id) us =
      (remove secrets users roles branches id current_user rs us).1

  create-Isolates_accounts :
      (uuid salt : String) (dto : CreateUserDto) (current_user : AuthenticatedUserContext)
      (bs : branches.Store) (rs : roles.Store) (us : users.Store)
      → Isolates users owner current_user.organization_id us
          (create secrets users roles branches uuid salt dto current_user bs rs us).1
  unfolding create create_user
  create-Isolates_accounts uuid salt dto current_user bs rs us =
      go (create_input secrets users roles branches salt dto current_user bs rs us) refl
    where
      org : String
      org = current_user.organization_id

      Goal : Type 0
      Goal =
          Isolates users owner org us
            (create secrets users roles branches uuid salt dto current_user bs rs us).1

      written :
          (input : UserCreateInput)
          → create_input secrets users roles branches salt dto current_user bs rs us ≡ ok input
          → (o : Outcome users.Store) → users.create (new_user users roles uuid org input) us ≡ o
          → Goal
      written input e (done t) e' =
          rw (create, e, create_user, e')
            (create-Isolates users owner org (new_user users roles uuid org input) us t refl e')
      written input e (threw error) e' =
          rw (create, e, create_user, e') (Isolates-refl users owner org us)

      go :
          (r : Result UserCreateInput)
          → create_input secrets users roles branches salt dto current_user bs rs us ≡ r
          → Goal
      go (err error) e = rw (create, e) (Isolates-refl users owner org us)
      go (ok input) e = written input e (users.create (new_user users roles uuid org input) us) refl

  soft_delete-Keeps :
      (org id : String) (rs : roles.Store) (us : users.Store)
      → Keeps users org id us (soft_delete users roles org id rs us).1
  unfolding soft_delete
  soft_delete-Keeps org id rs us =
      elim (Outcome-cases (users.update_many (in_scope org id) deactivate us)) [
        | inr (error, e) ↦ rw (soft_delete, e) (Keeps-refl users org id us)
        | inl (t, e) ↦
            let kept = scoped-Keeps users org id deactivate us t (λ r. refl) (λ r. refl) e in
            elim (Bool-cases (any_updated users roles org id us)) [
              | inl hit ↦ rw (soft_delete, e, hit) kept
              | inr missed ↦ rw (soft_delete, e, missed) kept
            ]
      ]

  remove-Isolates_accounts :
      (id : String) (current_user : AuthenticatedUserContext) (rs : roles.Store) (us : users.Store)
      → Isolates users owner current_user.organization_id us
          (remove secrets users roles branches id current_user rs us).1
  unfolding remove
  remove-Isolates_accounts id current_user rs us =
      go (assert_can_access_user secrets users roles branches id current_user rs us) refl
    where
      go :
          (r : Result (Unit {0}))
          → assert_can_access_user secrets users roles branches id current_user rs us ≡ r
          → Isolates users owner current_user.organization_id us
              (remove secrets users roles branches id current_user rs us).1
      go (err error) e = rw (remove, e) (Isolates-refl users owner current_user.organization_id us)
      go (ok _) e = rw (remove, e) (soft_delete-Keeps current_user.organization_id id rs us).0

  perform-Isolates_accounts :
      (current_user : AuthenticatedUserContext) (bs : branches.Store) (rs : roles.Store)
      (request : Request) (us : users.Store)
      → Isolates users owner current_user.organization_id us (perform current_user bs rs request us)
  unfolding perform
  perform-Isolates_accounts current_user bs rs (creation uuid salt dto) us =
      create-Isolates_accounts uuid salt dto current_user bs rs us
  perform-Isolates_accounts current_user bs rs (change_of id dto) us =
      update-Isolates_accounts secrets users roles branches id dto current_user bs rs us
  perform-Isolates_accounts current_user bs rs (removal id) us =
      remove-Isolates_accounts id current_user rs us

  -- Requests one after the other, each with its user and the tables that it reads.
  abbrev pub UserHistory : Type 0
  UserHistory = List (AuthenticatedUserContext × branches.Store × roles.Store × Request)

  unfoldable pub perform_users : UserHistory → users.Store → users.Store
  unfolding perform
  perform_users [] us = us
  perform_users ((current_user, bs, rs, request) ∷ later) us =
      perform_users later (perform current_user bs rs request us)

  -- No user of the organization makes a request in the history.
  abbrev AreForeign : String → UserHistory → Type 0
  AreForeign org [] = Unit
  AreForeign org ((current_user, bs, rs, request) ∷ later) =
      (org ≢ current_user.organization_id) × AreForeign org later

  -- The users of an organization stay exactly as they are over every history of requests to
  -- create, update and remove users in which only users of other organizations act: each is found
  -- with the same contents before and after, and none is added.
  pub perform_users-Isolates :
      (org : String) (history : UserHistory) (us : users.Store) (id : String) (u : User)
      → AreForeign org history
      → u.organization_id ≡ org
      → (users.find id us ≡ some u) ↔ (users.find id (perform_users history us) ≡ some u)
  unfolding perform_users
  perform_users-Isolates org [] us id u foreign' own = ((λ e. e), λ e. e)
  perform_users-Isolates org ((current_user, bs, rs, request) ∷ later) us id u (other, foreign')
        own =
      let (to, from) =
        perform-Isolates_accounts current_user bs rs request us id u (λ e. other (sym own ∙ e)) in
      let (to', from') =
        perform_users-Isolates org later (perform current_user bs rs request us) id u foreign'
          own in
      ((λ e. to' (to e)), λ e. from (from' e))
