-- ===== src/Branches/Access.antt =====
-- src/branches/branch-access.service.ts: which branch a request may act on.
pub mod Scope
pub mod Resolution
pub mod Accessible
use ops_flow_ms.Shared.{
  String, Bool, Option, true, truthy, List, some, ◌&&◌, not, [], false, if◌then◌else◌, map, none,
  ◌==◌, ◌∷◌,
}
use ops_flow_ms.Branches.Repository.{BranchRecord, branch_id, find_by_id}
use ops_flow_ms.Branches.Repository
use ops_flow_ms.AuthContext.{AuthenticatedUserContext, manager, operator}
use ops_flow_ms.Db.{Delegate}
use ops_flow_ms.Errors.Result.{Result, or_throw, ok, err, throw_if, ◌>>=◌, ◌>>◌}
use ops_flow_ms.Errors.{
  forbidden, branch_scope_required, access_denied, bad_request, branch_not_found, not_found,
}

abbrev require_scoped_branch : AuthenticatedUserContext → Result String
require_scoped_branch current_user =
    or_throw (truthy current_user.branch_id) (forbidden branch_scope_required)

-- `currentUser.role === 'MANAGER' && currentUser.branchId`, with the branch.
abbrev manager_branch : AuthenticatedUserContext → Option String
manager_branch current_user = elim current_user.role [
  | manager ↦ truthy current_user.branch_id
  | _ ↦ none
]

abbrev pub is_operator : AuthenticatedUserContext → Bool
is_operator current_user = elim current_user.role [ operator ↦ true | _ ↦ false ]

abbrev is_missing : Bool → Option BranchRecord → Bool
is_missing require_active none = true
is_missing require_active (some branch) = require_active && not branch.is_active

-- `requestedBranchId && requestedBranchId !== branchId`, with the branch; an empty text is none.
abbrev other_branch : Option String → String → Option String
other_branch none branch = none
other_branch (some requested) branch = if requested == branch then none else some requested

module _ (db : Delegate branch_id) (s : db.Store) where
  unfoldable pub assert_branch_exists_in_organization : String → String → Bool → Result (Unit {0})
  unfolding find_by_id
  assert_branch_exists_in_organization organization_id branch require_active = do
    found ← find_by_id db organization_id branch s
    throw_if (is_missing require_active found) (not_found branch_not_found)

  -- A branch outside the user's own one: it is looked up, and then refused.
  unfoldable pub refuse_other : {A : Type 0} → String → String → Result A
  refuse_other organization_id requested = do
    assert_branch_exists_in_organization organization_id requested false
    err (forbidden access_denied)

  -- The branch of a manager that has one.
  unfoldable pub own_branch : String → Option String → String → Bool → Result String
  own_branch organization_id requested own require_active = elim (other_branch requested own) [
    | some other ↦ refuse_other organization_id other
    | none ↦ do assert_branch_exists_in_organization organization_id own require_active; ok own
  ]

  unfoldable pub resolve_branch_for_create :
      AuthenticatedUserContext → Option String → Result String
  resolve_branch_for_create current_user requested =
      if is_operator current_user
      then (do
        branch ← require_scoped_branch current_user
        assert_branch_exists_in_organization current_user.organization_id branch true
        ok branch)
      else elim (manager_branch current_user) [
        | some own ↦ own_branch current_user.organization_id (truthy requested) own true
        | none ↦ do
          chosen ← or_throw (truthy requested) (bad_request branch_scope_required)
          assert_branch_exists_in_organization current_user.organization_id chosen true
          ok chosen
      ]

  -- The branch of a listing without a branch of the user's own: the requested one, or none.
  unfoldable pub any_branch : String → Option String → Result (Option String)
  any_branch organization_id none = ok none
  any_branch organization_id (some chosen) = do
    assert_branch_exists_in_organization organization_id chosen false
    ok (some chosen)

  unfoldable pub resolve_branch_for_filter :
      AuthenticatedUserContext → Option String → Result (Option String)
  resolve_branch_for_filter current_user requested =
      if is_operator current_user
      then (do
        branch ← require_scoped_branch current_user
        own ← own_branch current_user.organization_id (truthy requested) branch false
        ok (some own))
      else elim (manager_branch current_user) [
        | some own ↦ do
          chosen ← own_branch current_user.organization_id (truthy requested) own false
          ok (some chosen)
        | none ↦ any_branch current_user.organization_id (truthy requested)
      ]

  unfoldable pub assert_branch_accessible : AuthenticatedUserContext → String → Result (Unit {0})
  assert_branch_accessible current_user branch = do
    forced ← resolve_branch_for_filter current_user none
    elim (truthy forced) [
      | some own ↦ throw_if (not (own == branch)) (forbidden access_denied)
      | none ↦ assert_branch_exists_in_organization current_user.organization_id branch false
    ]

  -- Null of the source's type is never returned.
  get_accessible_branches : AuthenticatedUserContext → Result (List String)
  get_accessible_branches current_user =
      if is_operator current_user
      then (do
        branch ← require_scoped_branch current_user
        assert_branch_exists_in_organization current_user.organization_id branch false
        ok (branch ∷ []))
      else elim (manager_branch current_user) [
        | some own ↦ do
          assert_branch_exists_in_organization current_user.organization_id own false
          ok (own ∷ [])
        | none ↦ ok (map branch_id (Repository.list db current_user.organization_id (some false) s))
      ]
