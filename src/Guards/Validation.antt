-- ===== src/Guards/Validation.antt =====
-- The context that the token's validation builds, against the stored user and the guard.
use ops_flow_ms.AuthContext.{AuthenticatedUserContext, resolve_runtime_role}
use ops_flow_ms.AuthContext.Laws.{unique_strings_sound, resolve_runtime_role-unique_strings}
use ops_flow_ms.Rbac.{has_permissions}
use ops_flow_ms.Guards.{
  Directory, UserRow, role_names, permission_keys, active_user, validate, can_activate,
}
use ops_flow_ms.Guards.Permissions.{active_user_iff, can_activate_iff, gives, permission_keys-gives}
use ops_flow_ms.Errors.Result.{>>=-eq-ok, ok, ok_inj, or_throw, or_throw-eq-ok}
use ops_flow_ms.Shared.{
  List, Option, String, [], ap, beq_of_ne, every, false, includes, inl, inr, is_empty, refl, some,
  subst, sym, true, truthy, ◌↔◌, ◌∙◌, ◌∷◌, ◌≡◌, ◌≢◌,
}
use ops_flow_ms.Errors.Filter.{filled}

module _ (dir : Directory) where
  -- What a validated context shows of the stored user.
  abbrev pub Shows : String → AuthenticatedUserContext → UserRow → Type 0
  Shows sub u row =
      (dir.find_user sub ≡ some row)
      × (row.is_active ≡ true)
      × (u.sub ≡ sub)
      × (u.id ≡ sub)
      × (u.organization_id ≡ row.organization_id)
      × (u.branch_id ≡ row.branch_id)
      × (u.role ≡ resolve_runtime_role (role_names (dir.roles_of sub)))
      × ((p : String) → includes u.permissions p ≡ includes (permission_keys (dir.roles_of sub)) p)

  -- A token is accepted only for a user who is stored and active, and the context of the request is
  -- that user's as stored now: the organization, the branch, the role that the stored roles give
  -- and exactly the permissions that they carry.
  pub validate_sound :
      (sub : String) (sid : Option String) (u : AuthenticatedUserContext)
      → validate dir sub sid ≡ ok u
      → (row : UserRow) × Shows sub u row
  unfolding validate
  validate_sound sub sid u e =
      let (row, active, e₁) = >>=-eq-ok (or_throw (active_user (dir.find_user sub)) _) _ e in
      let (found, live) =
        (active_user_iff dir (dir.find_user sub) row).0 (or_throw-eq-ok _ _ active) in
      let key : row.id ≡ sub = dir.find_user_id sub found in
      let grants = dir.roles_of row.id in
      (
        row,
        subst (λ x. Shows sub x row) (ok_inj _ u e₁)
            (
              found,
              live,
              key,
              key,
              refl,
              refl,
              resolve_runtime_role-unique_strings (role_names grants)
                  ∙ ap (λ x. resolve_runtime_role (role_names (dir.roles_of x))) key,
              λ p.
                  (unique_strings_sound (permission_keys grants)).1 p
                  ∙ ap (λ x. includes (permission_keys (dir.roles_of x)) p) key,
            ),
      )

  every-includes :
      (xs ys required : List String)
      → ((p : String) → includes xs p ≡ includes ys p)
      → every (includes xs) required ≡ every (includes ys) required
  every-includes xs ys [] same = refl
  every-includes xs ys (p ∷ ps) same = rw (same p, every-includes xs ys ps same)

  has_permissions-every :
      (xs required : List String) → has_permissions xs required ≡ every (includes xs) required
  unfolding has_permissions
  has_permissions-every xs [] = refl
  has_permissions-every xs (p ∷ ps) = refl

  -- The guard and the context agree: a user with a role whose token was just accepted passes a
  -- route's required permissions exactly when the permissions of the context contain them.
  pub can_activate-validate :
      (sub : String) (sid : Option String) (u : AuthenticatedUserContext) (p : String)
      (ps : List String)
      → validate dir sub sid ≡ ok u
      → u.sub ≢ ""
      → is_empty (dir.roles_of u.sub) ≡ false
      → (can_activate dir [] (p ∷ ps) (some u.sub) ≡ ok tt)
        ↔ (has_permissions u.permissions (p ∷ ps) ≡ true)
  can_activate-validate sub sid u p ps e filled some' =
      let (row, (found, live, same_sub, _, _, _, _, perms)) = validate_sound sub sid u e in
      let keys = permission_keys (dir.roles_of u.sub) in
      let perms' : (q : String) → includes u.permissions q ≡ includes keys q =
        subst
          (λ x.
            (q : String) → includes u.permissions q ≡ includes (permission_keys (dir.roles_of x)) q)
          (sym same_sub) perms in
      let agree =
        has_permissions-every u.permissions (p ∷ ps)
        ∙ every-includes u.permissions keys (p ∷ ps) perms' in
      let keyed : (x : String)
          → includes (permission_keys (dir.roles_of x)) ≡ gives (dir.roles_of x) =
        λ x. permission_keys-gives (dir.roles_of x) in
      let (to, from) = can_activate_iff dir [] (p ∷ ps) (some u.sub) in
      let signed : truthy (some u.sub) ≡ some u.sub = rw (beq_of_ne u.sub "" filled) in
      let found' : dir.find_user u.sub ≡ some row =
        subst (λ x. dir.find_user x ≡ some row) (sym same_sub) found in
      (
        λ passes. elim (to passes) [
          | inl free ↦ absurd (cc)
          | inr (id, _, is, _, _, _, meets) ↦
              let same : u.sub ≡ id = (let q = sym signed ∙ is in cc) in
              agree
              ∙ subst (λ x. every (includes (permission_keys (dir.roles_of x))) (p ∷ ps) ≡ true)
                  (sym same) (subst (λ h. every h (p ∷ ps) ≡ true) (sym (keyed id)) meets.1)
        ],
        λ has. from (
            inr (
              u.sub,
              row,
              signed,
              found',
              live,
              some',
              (inl refl, subst (λ h. every h (p ∷ ps) ≡ true) (keyed u.sub) (sym agree ∙ has)),
            )),
      )
