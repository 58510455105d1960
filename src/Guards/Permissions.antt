-- ===== src/Guards/Permissions.antt =====
-- Which requests pass the guard of roles and permissions, against what the token's validation shows.
use std.Path.{fun_ext}
use ops_flow_ms.Guards.{
  Directory, UserRow, RoleGrant, role_names, permission_keys, active_user, check_required,
  can_activate,
}
use ops_flow_ms.Shared.{
  List, String, [], any, arith, every, includes, inl, inr, refl, true, ◌↔◌, ◌∷◌, ◌≡◌, ◌⊎◌,
  Bool-cases, Option, ap, false, is_empty, none, some, truthy, ◌&&◌, Bool, subst, ◌++◌, ◌==◌, ◌||◌,
  ◌∙◌,
}
use ops_flow_ms.Errors.Result.{ok, >>=-eq-ok, or_throw, or_throw-eq-ok, throw_if, throw_if-eq-ok}

-- Whether one of the roles has a name, and whether one of them gives a permission.
abbrev pub has_role : List RoleGrant → String → Bool
has_role grants role = any (λ g. g.name == role) grants

abbrev pub gives : List RoleGrant → String → Bool
gives grants permission = any (λ g. includes g.permissions permission) grants

role_names-has_role :
    (grants : List RoleGrant) (role : String)
    → includes (role_names grants) role ≡ has_role grants role
role_names-has_role [] role = refl
role_names-has_role (g ∷ gs) role = ap (λ b. (g.name == role) || b) (role_names-has_role gs role)

any_append : (p : String → Bool) (xs ys : List String) → any p (xs ++ ys) ≡ (any p xs || any p ys)
any_append p [] ys = refl
any_append p (x ∷ xs) ys = let rest = any_append p xs ys in ground arith

given_by :
    (grants : List RoleGrant) (permission : String)
    → includes (permission_keys grants) permission ≡ gives grants permission
given_by [] permission = refl
given_by (g ∷ gs) permission =
    any_append (λ x. x == permission) g.permissions (permission_keys gs)
    ∙ ap (λ b. includes g.permissions permission || b) (given_by gs permission)

pub permission_keys-gives :
    (grants : List RoleGrant) → includes (permission_keys grants) ≡ gives grants
permission_keys-gives grants = fun_ext (given_by grants)

-- What is asked of a user, for tests of the roles and the permissions that the user has.
abbrev Meets : List String → List String → (String → Bool) → (String → Bool) → Type 0
Meets required_roles required_permissions role permission =
    ((required_roles ≡ []) ⊎ (any role required_roles ≡ true))
    × (every permission required_permissions ≡ true)

check_required_keys :
    (roles permissions : List String) (grants : List RoleGrant)
    → (check_required roles permissions grants ≡ ok tt)
      ↔ Meets roles permissions (includes (role_names grants)) (includes (permission_keys grants))
unfolding check_required
check_required_keys [] [] grants = ((λ e. (inl refl, refl)), λ h. refl)
check_required_keys [] (p ∷ ps) grants = ((λ e. (inl refl, ground arith)), λ (_, all). ground arith)
check_required_keys (r ∷ rs) [] grants =
    ((λ e. (inr (ground arith), refl)), λ (some', _). ground arith)
check_required_keys (r ∷ rs) (p ∷ ps) grants =
    ((λ e. (inr (ground arith), ground arith)), λ (some', all). ground arith)

check_required_iff :
    (roles permissions : List String) (grants : List RoleGrant)
    → (check_required roles permissions grants ≡ ok tt)
      ↔ Meets roles permissions (has_role grants) (gives grants)
check_required_iff roles permissions grants =
    subst
      (λ h.
        (check_required roles permissions grants ≡ ok tt)
        ↔ Meets roles permissions h (gives grants))
      (fun_ext (role_names-has_role grants))
      (subst
        (λ h.
          (check_required roles permissions grants ≡ ok tt)
          ↔ Meets roles permissions (includes (role_names grants)) h)
        (permission_keys-gives grants) (check_required_keys roles permissions grants))

module _ (dir : Directory) where
  pub active_user_iff :
      (o : Option UserRow) (row : UserRow)
      → (active_user o ≡ some row) ↔ ((o ≡ some row) × (row.is_active ≡ true))
  active_user_iff none row = ((λ e. absurd (cc)), λ h. absurd (cc))
  active_user_iff (some user) row = elim (Bool-cases user.is_active) [
    | inl live ↦ rw live ((λ e. (e, let same : user ≡ row = cc in rw (← same) live)), λ h. h.0)
    | inr off ↦ rw off (
      (λ e. absurd (cc)),
      λ h. absurd (let same : user ≡ row = cc in let on = h.1 in cc (ap (λ r. r.is_active) same)),
    )
  ]

  -- Who passes where something is required.
  abbrev pub Admits : List String → List String → Option String → Type 0
  Admits roles permissions sub =
      (id : String) × (row : UserRow) × (truthy sub ≡ some id)
      × (dir.find_user id ≡ some row)
      × (row.is_active ≡ true)
      × (is_empty (dir.roles_of id) ≡ false)
      × Meets roles permissions (has_role (dir.roles_of id)) (gives (dir.roles_of id))

  admitted :
      (roles permissions : List String) (sub : Option String)
      → (is_empty roles && is_empty permissions) ≡ false
      → can_activate dir roles permissions sub ≡ ok tt
      → Admits roles permissions sub
  unfolding can_activate
  admitted roles permissions sub some' e =
      let e₀ = rw some' at e in
      let (id, signed, e₁) = >>=-eq-ok (or_throw (truthy sub) _) _ e₀ in
      let (row, active, e₂) = >>=-eq-ok (or_throw (active_user (dir.find_user id)) _) _ e₁ in
      let (_, any', e₃) = >>=-eq-ok (throw_if (is_empty (dir.roles_of id)) _) _ e₂ in
      let (found, live) = (active_user_iff (dir.find_user id) row).0 (or_throw-eq-ok _ _ active) in
      (
        id,
        row,
        or_throw-eq-ok _ _ signed,
        found,
        live,
        throw_if-eq-ok _ _ any',
        (check_required_iff roles permissions (dir.roles_of id)).0 e₃,
      )

  admits :
      (roles permissions : List String) (sub : Option String)
      → Admits roles permissions sub
      → can_activate dir roles permissions sub ≡ ok tt
  unfolding can_activate
  admits roles permissions sub (id, row, signed, found, live, some', meets) =
      let active = (active_user_iff (dir.find_user id) row).1 (found, live) in
      let checked = (check_required_iff roles permissions (dir.roles_of id)).1 meets in
      rw (signed, active, some', checked) (ground arith)

  -- A request passes the permissions guard exactly when its route requires no role and no
  -- permission, or it is made by a user who is in the database, is active, has some role, has one
  -- of the required roles where roles are required, and has every required permission through the
  -- roles.
  pub can_activate_iff :
      (roles permissions : List String) (sub : Option String)
      → (can_activate dir roles permissions sub ≡ ok tt)
        ↔ (((is_empty roles && is_empty permissions) ≡ true) ⊎ Admits roles permissions sub)
  unfolding can_activate
  can_activate_iff roles permissions sub =
      elim (Bool-cases (is_empty roles && is_empty permissions)) [
        | inl free ↦ ((λ e. inl free), λ h. rw (free, can_activate))
        | inr some' ↦ (
          λ e. inr (admitted roles permissions sub some' e),
          λ h. elim h [ inl free ↦ absurd (cc) | inr ok' ↦ admits roles permissions sub ok' ],
        )
      ]
