-- ===== src/Users/Service/Creation.antt =====
-- What the creation of a user establishes.
use ops_flow_ms.Users.Repository.{UserCreateInput, create as create_user}
use ops_flow_ms.Users.Service.{load_roles, create}
use ops_flow_ms.Users.Dto.{CreateUserDto}
use ops_flow_ms.Auth.Registration.{Role, role_id}
use ops_flow_ms.Branches.Repository.{branch_id, BranchRecord, find_by_id as find_branch}
use ops_flow_ms.Errors.Result.{>>=-eq-ok, ok, ok_inj, throw_if, throw_if-eq-ok, Result}
use ops_flow_ms.Db.Rows.{All}
use ops_flow_ms.AuthContext.{AuthenticatedUserContext, admin}
use ops_flow_ms.Shared.{
  List, Option, String, arith, eqb, includes, inl, inr, length, none, not, some, subst, true, ◌≡◌,
  Option-cases, eq_iff, false, is_empty, map, ◌==◌, ◌≢◌, any,
}
use ops_flow_ms.Db.{Delegate}
use ops_flow_ms.Auth.{Secrets, user_id, User}
use ops_flow_ms.Errors.{forbidden, user_invalid_role}
use ops_flow_ms.RateLimit.Window.{passed}
use ops_flow_ms.Tenancy.{assert_organization_access}

module _ (secrets : Secrets) (users : Delegate user_id) (roles : Delegate role_id)
    (branches : Delegate branch_id) where
  -- The roles that were loaded: as many as were named, each stored and named, and every stored role of
  -- a name among them.
  abbrev pub AreNamed : List String → roles.Store → List Role → Type 0
  AreNamed names rs loaded =
      (length loaded ≡ length names)
      × All (λ r. (includes names r.name ≡ true) × (roles.find r.id rs ≡ some r)) loaded
      × ((k : String) (r : Role)
          → roles.find k rs ≡ some r
          → includes names r.name ≡ true
          → any (λ q. q.id == k) loaded ≡ true)

  -- The branch of a user: none, or a stored branch of the organization.
  abbrev IsBranchOf : Option String → String → branches.Store → Type 0
  IsBranchOf none org bs = Unit
  IsBranchOf (some branch) org bs =
      (row : BranchRecord) × (branches.find branch bs ≡ some row) × (row.organization_id ≡ org)

  pub load_roles_sound :
      (names : List String) (rs : roles.Store) (loaded : List Role)
      → load_roles secrets users roles branches names rs ≡ ok loaded
      → AreNamed names rs loaded
  unfolding load_roles
  load_roles_sound names rs loaded e =
      let rows = roles.find_many (λ r. includes names r.name) rs in
      let (_, passed, e') =
        >>=-eq-ok (throw_if (not (eqb (length rows) (length names))) (forbidden user_invalid_role))
          _ e in
      let same : rows ≡ loaded = ok_inj rows loaded e' in
      let many = throw_if-eq-ok _ _ passed in
      subst (AreNamed names rs) same (
        ground arith,
        roles.find_many_sound (λ r. includes names r.name) rs,
        λ k r found named. roles.find_many_complete (λ q. includes names q.name) rs k found named,
      )

  pub find_branch_sound :
      (branch org : String) (bs : branches.Store) (row : BranchRecord)
      → find_branch branches org branch bs ≡ ok (some row)
      → (branches.find branch bs ≡ some row) × (row.organization_id ≡ org)
  unfolding find_branch assert_organization_access
  find_branch_sound branch org bs row e = elim (Option-cases (branches.find branch bs)) [
    | inl gone ↦ ground arith
    | inr (found, here) ↦ ground (arith, eq_iff found.organization_id org)
  ]

  -- What a request to create a user has to meet, and the columns that are then written.
  abbrev pub MayCreate :
      String
      → CreateUserDto
      → AuthenticatedUserContext
      → branches.Store
      → roles.Store
      → users.Store
      → UserCreateInput
      → Type 0
  MayCreate salt dto current_user bs rs us input =
      (current_user.role ≡ admin)
      × ((k : String) (u : User) → users.find k us ≡ some u → u.email ≢ dto.email)
      × (is_empty dto.roles ≡ false)
      × ((loaded : List Role) × AreNamed dto.roles rs loaded
          × (input.role_ids ≡ map role_id loaded))
      × IsBranchOf input.branch_id current_user.organization_id bs
      × (input.email ≡ dto.email)
      × (input.is_active ≡ true)
      × (input.password ≡ secrets.hash salt dto.password)

  -- One user more: the new one, under an id that was free.
  abbrev pub IsAdded : users.Store → users.Store → User → Type 0
  IsAdded us t u =
      (users.find u.id us ≡ none)
      × (users.find u.id t ≡ some u)
      × ((k : String) → k ≢ u.id → users.find k t ≡ users.find k us)
