-- ===== src/Branches/Access/Accessible.antt =====
-- Whether an existing movement's branch may be acted on: exactly when it lies within the scope.
use ops_flow_ms.AuthContext.{AuthenticatedUserContext, RuntimeRole, admin, manager, operator}
use ops_flow_ms.Branches.Access.Scope.{
  Belongs, IsWithin, assert_exists_complete, assert_exists_sound, scope,
}
use ops_flow_ms.Db.{Delegate}
use ops_flow_ms.Shared.{
  filled-truthy, Option, String, arith, eq_iff, false, none, not, refl, some, subst, sym, truthy,
  ◌==◌, ◌↔◌, ◌≡◌,
}
use ops_flow_ms.Errors.Result.{Result, err, ok, throw_if, ◌>>=◌, ◌>>◌}
use ops_flow_ms.Errors.{access_denied, forbidden}
use ops_flow_ms.Branches.Access.{
  any_branch, assert_branch_accessible, assert_branch_exists_in_organization, own_branch,
  resolve_branch_for_filter,
}
use ops_flow_ms.Branches.Repository.{branch_id}

-- What is left of the check of a user who is confined to one branch.
confined_result :
    (m k : Result (Unit {0})) (own b : String)
    → (own == "") ≡ false
    → ((do
      chosen ← (m >> ok own) >>= λ x. ok (some x)
      elim (truthy chosen) [
        | none ↦ k
        | some o ↦ throw_if (not (o == b)) (forbidden access_denied)
      ])
        ≡ ok tt)
    → (m ≡ ok tt) × (own ≡ b)
confined_result (ok _) k own b filled e = ground (arith, eq_iff own b)
confined_result (err _) k own b filled e = absurd (cc)

confined_passes :
    (k : Result (Unit {0})) (own b : String)
    → (own == "") ≡ false
    → own ≡ b
    → (elim (truthy (some own)) [
      | none ↦ k
      | some o ↦ throw_if (not (o == b)) (forbidden access_denied)
    ])
      ≡ ok tt
confined_passes k own b filled same = ground (arith, eq_iff own b)

module _ (db : Delegate branch_id) (s : db.Store) where
  accessible_iff :
      (role : RuntimeRole) (own : Option String) (u : AuthenticatedUserContext) (b : String)
      → u.role ≡ role
      → truthy u.branch_id ≡ own
      → (assert_branch_accessible db s u b ≡ ok tt)
        ↔ (IsWithin b (scope u) × Belongs db s u.organization_id b false)
  unfolding assert_branch_accessible resolve_branch_for_filter any_branch own_branch
  accessible_iff admin own u b er eo =
      rw (er, assert_branch_accessible, resolve_branch_for_filter)
        (
          λ e. (tt, assert_exists_sound db s u.organization_id b false e),
          λ h. assert_exists_complete db s u.organization_id b false h.1,
        )
  accessible_iff manager none u b er eo =
      rw (er, eo, assert_branch_accessible, resolve_branch_for_filter)
        (
          λ e. (tt, assert_exists_sound db s u.organization_id b false e),
          λ h. assert_exists_complete db s u.organization_id b false h.1,
        )
  accessible_iff manager (some o) u b er eo =
      rw (er, eo, assert_branch_accessible, resolve_branch_for_filter)
        (
          λ e.
              let (checked, same) =
                confined_result
                  (assert_branch_exists_in_organization db s u.organization_id o false) _ o b
                  (filled-truthy u.branch_id o eo) e in
              (
                same,
                subst (λ x. Belongs db s u.organization_id x false) same
                    (assert_exists_sound db s u.organization_id o false checked),
              ),
          λ h.
              let checked =
                assert_exists_complete db s u.organization_id o false
                  (subst (λ x. Belongs db s u.organization_id x false) (sym h.0) h.1) in
              rw checked (
                confined_passes
                  (assert_branch_exists_in_organization db s u.organization_id b false) o b
                  (filled-truthy u.branch_id o eo) h.0),
        )
  accessible_iff operator none u b er eo =
      rw (er, eo, assert_branch_accessible, resolve_branch_for_filter)
        ((λ e. absurd (cc)), λ h. absurd h.0)
  accessible_iff operator (some o) u b er eo =
      rw (er, eo, assert_branch_accessible, resolve_branch_for_filter)
        (
          λ e.
              let (checked, same) =
                confined_result
                  (assert_branch_exists_in_organization db s u.organization_id o false) _ o b
                  (filled-truthy u.branch_id o eo) e in
              (
                same,
                subst (λ x. Belongs db s u.organization_id x false) same
                    (assert_exists_sound db s u.organization_id o false checked),
              ),
          λ h.
              let checked =
                assert_exists_complete db s u.organization_id o false
                  (subst (λ x. Belongs db s u.organization_id x false) (sym h.0) h.1) in
              rw checked (
                confined_passes
                  (assert_branch_exists_in_organization db s u.organization_id b false) o b
                  (filled-truthy u.branch_id o eo) h.0),
        )

  -- A branch is accessible exactly when it lies within the user's scope and belongs to the
  -- user's organization.
  pub assert_branch_accessible_iff :
      (u : AuthenticatedUserContext) (b : String)
      → (assert_branch_accessible db s u b ≡ ok tt)
        ↔ (IsWithin b (scope u) × Belongs db s u.organization_id b false)
  assert_branch_accessible_iff u b = accessible_iff u.role (truthy u.branch_id) u b refl refl
