-- ===== src/Users/Service/Access.antt =====
-- Who may reach which user, and what the service answers otherwise.
use ops_flow_ms.Users.Repository.{UserRecord, find_by_id, selected}
use ops_flow_ms.Users.Service.{required, assert_can_access_user}
use ops_flow_ms.Users.Dto.{is_admin}
use ops_flow_ms.AuthContext.{admin, manager, operator, RuntimeRole, AuthenticatedUserContext}
use ops_flow_ms.Auth.Registration.{role_id}
use ops_flow_ms.Branches.Repository.{branch_id}
use ops_flow_ms.Shared.{
  Bool-cases, Option-cases, String, beq_of_eq, beq_of_ne, eq_of_beq, inl, inr, ne_of_beq, none,
  refl, some, true, ◌==◌, ◌↔◌, ◌≡◌, ◌≢◌, ◌⊎◌, arith, false, if◌then◌else◌, sym, ◌∙◌,
}
use ops_flow_ms.Db.{Delegate}
use ops_flow_ms.Auth.{Secrets, User, user_id}
use ops_flow_ms.Tenancy.{assert_organization_access}
use ops_flow_ms.Errors.Result.{err, ok, >>=-eq-ok, Result}
use ops_flow_ms.Errors.{not_found, resource_not_found, user_not_found, access_denied, forbidden}
use ops_flow_ms.Branches.Service.Isolation.{organization}

-- The user is stored, and belongs to the organization.
abbrev pub Belongs : (users : Delegate user_id) → String → String → users.Store → User → Type 0
Belongs users organization id us u =
    (users.find id us ≡ some u) × (u.organization_id ≡ organization)

-- An administrator reaches everybody in the organization, and anybody reaches himself.
abbrev pub MayReach : AuthenticatedUserContext → String → Type 0
MayReach current_user id = (current_user.role ≡ admin) ⊎ (id ≡ current_user.id)

-- The tests on a user who is there.
abbrev verdict : AuthenticatedUserContext → String → Result (Unit {0})
verdict current_user id =
    if is_admin current_user.role
    then ok tt
    else (if id == current_user.id then ok tt else err (forbidden access_denied))

pub is_admin_iff : (r : RuntimeRole) → (is_admin r ≡ true) ↔ (r ≡ admin)
is_admin_iff admin = ((λ h. refl), λ h. refl)
is_admin_iff manager = ((λ h. absurd (cc)), λ h. absurd (cc))
is_admin_iff operator = ((λ h. absurd (cc)), λ h. absurd (cc))

module _ (secrets : Secrets) (users : Delegate user_id) (roles : Delegate role_id)
    (branches : Delegate branch_id) where
  required_missing :
      (id : String) (current_user : AuthenticatedUserContext) (rs : roles.Store) (us : users.Store)
      → users.find id us ≡ none
      → required secrets users roles branches id current_user rs us ≡ err (not_found user_not_found)
  unfolding find_by_id
  required_missing id current_user rs us e = rw (e, find_by_id)

  required_foreign :
      (id : String) (current_user : AuthenticatedUserContext) (rs : roles.Store) (us : users.Store)
      (u : User)
      → users.find id us ≡ some u
      → u.organization_id ≢ current_user.organization_id
      → required secrets users roles branches id current_user rs us
        ≡ err (not_found resource_not_found)
  unfolding find_by_id assert_organization_access
  required_foreign id current_user rs us u e other =
      rw (e, find_by_id, assert_organization_access, beq_of_ne _ _ other)

  pub required_own :
      (id : String) (current_user : AuthenticatedUserContext) (rs : roles.Store) (us : users.Store)
      (u : User)
      → Belongs users current_user.organization_id id us u
      → required secrets users roles branches id current_user rs us ≡ ok (selected users roles rs u)
  unfolding find_by_id assert_organization_access
  required_own id current_user rs us u (e, own) =
      rw (e, find_by_id, assert_organization_access, beq_of_eq _ _ own)

  pub required_sound :
      (id : String) (current_user : AuthenticatedUserContext) (rs : roles.Store) (us : users.Store)
      (r : UserRecord)
      → required secrets users roles branches id current_user rs us ≡ ok r
      → (u : User) × Belongs users current_user.organization_id id us u
        × (r ≡ selected users roles rs u)
  required_sound id current_user rs us r e = elim (Option-cases (users.find id us)) [
    | inl missing ↦ absurd (let k = required_missing id current_user rs us missing in cc)
    | inr (u, here) ↦ elim (Bool-cases (u.organization_id == current_user.organization_id)) [
      | inr other ↦
          absurd (let k = required_foreign id current_user rs us u here (ne_of_beq _ _ other) in cc)
      | inl same ↦
          let own = eq_of_beq u.organization_id current_user.organization_id same in
          (u, (here, own), (let k = required_own id current_user rs us u (here, own) in cc))
    ]
  ]

  access_own :
      (id : String) (current_user : AuthenticatedUserContext) (rs : roles.Store) (us : users.Store)
      (u : User)
      → Belongs users current_user.organization_id id us u
      → assert_can_access_user secrets users roles branches id current_user rs us
        ≡ verdict current_user id
  unfolding assert_can_access_user
  access_own id current_user rs us u (here, own) =
      rw (required_own id current_user rs us u (here, own), users.find_id id us here)

  access_of :
      (id : String) (current_user : AuthenticatedUserContext) (rs : roles.Store) (us : users.Store)
      (u : User)
      → Belongs users current_user.organization_id id us u
      → MayReach current_user id
      → assert_can_access_user secrets users roles branches id current_user rs us ≡ ok tt
  access_of id current_user rs us u b (inl boss) =
      access_own id current_user rs us u b ∙ rw ((is_admin_iff current_user.role).1 boss)
  access_of id current_user rs us u b (inr self) =
      access_own id current_user rs us u b ∙ rw (beq_of_eq id current_user.id self) (ground arith)

  may_reach :
      (id : String) (current_user : AuthenticatedUserContext)
      → verdict current_user id ≡ ok tt
      → MayReach current_user id
  may_reach id current_user e = elim (Bool-cases (is_admin current_user.role)) [
    | inl boss ↦ inl ((is_admin_iff current_user.role).0 boss)
    | inr common ↦ elim (Bool-cases (id == current_user.id)) [
      | inl self ↦ inr (eq_of_beq id current_user.id self)
      | inr other ↦ absurd (ground arith)
    ]
  ]

  -- A user may be reached exactly when he is stored, belongs to the requester's organization, and the
  -- requester is an administrator or that user.
  pub assert_can_access_user_iff :
      (id : String) (current_user : AuthenticatedUserContext) (rs : roles.Store) (us : users.Store)
      → (assert_can_access_user secrets users roles branches id current_user rs us ≡ ok tt) ↔ (
          (u : User) × Belongs users current_user.organization_id id us u
          × MayReach current_user id)
  unfolding assert_can_access_user
  assert_can_access_user_iff id current_user rs us = (
    λ e.
        let (r, is, _) =
          >>=-eq-ok (required secrets users roles branches id current_user rs us) _ e in
        let (u, b, _) = required_sound id current_user rs us r is in
        (u, b, may_reach id current_user (sym (access_own id current_user rs us u b) ∙ e)),
    λ w. access_of id current_user rs us w.0 w.1 w.2,
  )

  -- A user of the organization who may not be reached is answered 403 ACCESS_DENIED.
  access_denied_lem :
      (id : String) (current_user : AuthenticatedUserContext) (rs : roles.Store) (us : users.Store)
      (u : User)
      → Belongs users current_user.organization_id id us u
      → ¬ MayReach current_user id
      → assert_can_access_user secrets users roles branches id current_user rs us
        ≡ err (forbidden access_denied)
  access_denied_lem id current_user rs us u b barred =
      access_own id current_user rs us u b ∙ denied (Bool-cases (is_admin current_user.role))
    where
      denied :
          (is_admin current_user.role ≡ true) ⊎ (is_admin current_user.role ≡ false)
          → verdict current_user id ≡ err (forbidden access_denied)
      denied (inl boss) = absurd (barred (inl ((is_admin_iff current_user.role).0 boss)))
      denied (inr common) = rw (common, beq_of_ne id current_user.id (λ e. barred (inr e)))
