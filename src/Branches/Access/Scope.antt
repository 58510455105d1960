-- ===== src/Branches/Access/Scope.antt =====
-- Which branch a request may act on, against an independent description of a user's scope.
use ops_flow_ms.Branches.Access.{assert_branch_exists_in_organization, refuse_other, own_branch}
use ops_flow_ms.AuthContext.{AuthenticatedUserContext, RuntimeRole, admin, manager, operator}
use ops_flow_ms.Shared.{
  Bool, Option, Option-cases, String, arith, eq_iff, inl, inr, none, some, true, truthy, ◌≡◌, ◌≢◌,
  Bool-cases, ap, beq_of_eq, eq_of_beq, subst, sym, ◌==◌,
}
use ops_flow_ms.Branches.Repository.{BranchRecord, branch_id}
use ops_flow_ms.Db.{Delegate}
use ops_flow_ms.Tenancy.{assert_organization_access}
use ops_flow_ms.Errors.Result.{ok, err, >>=-eq-ok, ◌>>◌}
use ops_flow_ms.Errors.{not_found, resource_not_found}

-- The one branch that a user is confined to, if any; an operator always is, to no branch if none
-- is assigned.
pub data Scope : Type 0 where
  only : String → Scope
  nothing : Scope
  whole_organization : Scope

abbrev scope_of_role : RuntimeRole → Option String → Scope
scope_of_role admin own = whole_organization
scope_of_role manager none = whole_organization
scope_of_role manager (some b) = only b
scope_of_role operator none = nothing
scope_of_role operator (some b) = only b

abbrev pub scope : AuthenticatedUserContext → Scope
scope u = scope_of_role u.role (truthy u.branch_id)

abbrev pub IsWithin : String → Scope → Type 0
IsWithin b (only own) = own ≡ b
IsWithin b nothing = ⊥
IsWithin b whole_organization = Unit

-- What a request for a branch is granted within a scope: the user's own branch, where nothing
-- else is asked for, or the branch asked for.
abbrev pub Grants : Scope → Option String → String → Type 0
Grants (only own) none b = own ≡ b
Grants (only own) (some r) b = (own ≡ b) × (r ≡ own)
Grants nothing requested b = ⊥
Grants whole_organization requested b = requested ≡ some b

module _ (db : Delegate branch_id) (s : db.Store) where
  abbrev pub Belongs : String → String → Bool → Type 0
  Belongs org b require_active =
      (row : BranchRecord) × (db.find b s ≡ some row)
      × (row.organization_id ≡ org)
      × (require_active ≡ true → row.is_active ≡ true)

  pub assert_exists_sound :
      (org b : String) (active : Bool)
      → assert_branch_exists_in_organization db s org b active ≡ ok tt
      → Belongs org b active
  unfolding assert_branch_exists_in_organization assert_organization_access
  assert_exists_sound org b active e = elim (Option-cases (db.find b s)) [
    | inl missing ↦ ground arith
    | inr (row, found) ↦ (row, found, ground (arith, eq_iff row.organization_id org), ground arith)
  ]

  pub assert_exists_complete :
      (org b : String) (active : Bool)
      → Belongs org b active
      → assert_branch_exists_in_organization db s org b active ≡ ok tt
  unfolding assert_branch_exists_in_organization assert_organization_access
  assert_exists_complete org b active (row, found, same, live) =
      ground (arith, eq_iff row.organization_id org, live)

  -- A request that names a branch of another organization is answered 404 RESOURCE_NOT_FOUND.
  assert_exists_foreign :
      (org b : String) (active : Bool) (row : BranchRecord)
      → db.find b s ≡ some row
      → row.organization_id ≢ org
      → assert_branch_exists_in_organization db s org b active ≡ err (not_found resource_not_found)
  unfolding assert_branch_exists_in_organization assert_organization_access
  assert_exists_foreign org b active row found other =
      ground (arith, eq_iff row.organization_id org)

  pub Belongs-of_check :
      (org own : String) (active : Bool) {b : String}
      → (assert_branch_exists_in_organization db s org own active >> ok own) ≡ ok b
      → (own ≡ b) × Belongs org b active
  Belongs-of_check org own active {b} e =
      let (_, checked, last) =
        >>=-eq-ok (assert_branch_exists_in_organization db s org own active) _ e in
      let same : own ≡ b = cc in
      (same, subst (λ x. Belongs org x active) same (assert_exists_sound org own active checked))

  pub own_branch_sound :
      (org : String) (asked : Option String) (own : String) (active : Bool) (b : String)
      → own_branch db s org asked own active ≡ ok b
      → Grants (only own) asked b × Belongs org b active
  unfolding own_branch refuse_other
  own_branch_sound org none own active b e = Belongs-of_check org own active e
  own_branch_sound org (some r) own active b e = elim (Bool-cases (r == own)) [
    | inl same ↦
        let (granted, belongs) = Belongs-of_check org own active (rw (same, own_branch) at e) in
        ((granted, eq_of_beq r own same), belongs)
    | inr other ↦ ground arith
  ]

  pub own_branch_complete :
      (org : String) (asked : Option String) (own : String) (active : Bool) (b : String)
      → Grants (only own) asked b
      → Belongs org b active
      → own_branch db s org asked own active ≡ ok b
  unfolding own_branch
  own_branch_complete org none own active b g h =
      let checked =
        assert_exists_complete org own active (subst (λ x. Belongs org x active) (sym g) h) in
      rw checked (ap ok g)
  own_branch_complete org (some r) own active b g h =
      let checked =
        assert_exists_complete org own active (subst (λ x. Belongs org x active) (sym g.0) h) in
      rw (beq_of_eq r own g.1, own_branch, checked) (ap ok g.0)
