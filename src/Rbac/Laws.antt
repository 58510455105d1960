-- ===== src/Rbac/Laws.antt =====
-- The permissions of the roles against one another, and what `hasPermissions` decides.
use ops_flow_ms.Shared.{
  String, List, [], ◌∷◌, ◌≡◌, refl, ◌↔◌, true, arith, includes, every, Bool-cases, map, some, none,
  ◌==◌, inl, subst, eq_iff, inr,
}
use ops_flow_ms.Rbac.{
  has_permissions, to_canonical_role, key, get_permissions_for_role, role_permissions_map,
}
use ops_flow_ms.AuthContext.{RuntimeRole, operator, manager, resolve_runtime_role, admin}

abbrev Includes : List String → String → Type 0
Includes perms p = includes perms p ≡ true

abbrev AllIncluded : List String → List String → Type 0
AllIncluded perms [] = Unit
AllIncluded perms (p ∷ ps) = Includes perms p × AllIncluded perms ps

every-includes_iff :
    (perms ps : List String) → (every (includes perms) ps ≡ true) ↔ AllIncluded perms ps
every-includes_iff perms [] = (λ _. tt, λ _. refl)
every-includes_iff perms (p ∷ ps) = ground (arith, every-includes_iff perms ps)

-- `hasPermissions` holds exactly when every required permission is one of the user's.
has_permissions_iff :
    (perms required : List String)
    → (has_permissions perms required ≡ true) ↔ AllIncluded perms required
unfolding has_permissions
has_permissions_iff perms [] = (λ _. tt, λ _. refl)
has_permissions_iff perms (p ∷ ps) = every-includes_iff perms (p ∷ ps)

-- The keys that a role holds.
abbrev pub role_keys : RuntimeRole → List String
role_keys role = map key (role_permissions_map role)

AllIncluded-Includes :
    (perms ps : List String) (p : String) → AllIncluded perms ps → Includes ps p → Includes perms p
AllIncluded-Includes perms [] p all h = cc
AllIncluded-Includes perms (q ∷ ps) p (held, all) h = elim (Bool-cases (q == p)) [
  | inl same ↦ subst (Includes perms) ((eq_iff q p).0 same) held
  | inr other ↦ AllIncluded-Includes perms ps p all (ground arith)
]

AllIncluded-trans :
    (xs ys zs : List String) → AllIncluded xs ys → AllIncluded ys zs → AllIncluded xs zs
AllIncluded-trans xs ys [] h k = tt
AllIncluded-trans xs ys (z ∷ zs) h (held, k) =
    (AllIncluded-Includes xs ys z h held, AllIncluded-trans xs ys zs h k)

has_permissions_mono :
    (xs ys required : List String)
    → AllIncluded xs ys
    → has_permissions ys required ≡ true
    → has_permissions xs required ≡ true
has_permissions_mono xs ys required h e =
    (has_permissions_iff xs required).1
      (AllIncluded-trans xs ys required h ((has_permissions_iff ys required).0 e))

-- Every list of required permissions that an operator meets, a manager meets, and every one that a
-- manager meets, an administrator meets.
pub role_permissions_hierarchy :
    (required : List String)
    → (has_permissions (role_keys operator) required ≡ true
        → has_permissions (role_keys manager) required ≡ true)
      × (has_permissions (role_keys manager) required ≡ true
          → has_permissions (role_keys admin) required ≡ true)
role_permissions_hierarchy required = (
  has_permissions_mono (role_keys manager) (role_keys operator) required (refl, (refl, (refl, tt))),
  has_permissions_mono (role_keys admin) (role_keys manager) required
      (refl, (refl, (refl, (refl, (refl, (refl, (refl, (refl, tt)))))))),
)

-- A user whose only role is a canonical role or the legacy alias runs under the role whose
-- permissions the alias table gives it; a name that is neither has no permissions at all.
resolve_runtime_role-to_canonical_role :
    (name : String)
    → ((role : RuntimeRole)
        → to_canonical_role name ≡ some role
        → (resolve_runtime_role (name ∷ []) ≡ role)
          × (get_permissions_for_role name ≡ role_permissions_map role))
      × (to_canonical_role name ≡ none → get_permissions_for_role name ≡ [])
unfolding to_canonical_role resolve_runtime_role get_permissions_for_role
resolve_runtime_role-to_canonical_role name =
    (λ role e. (ground arith, ground arith), λ e. ground arith)
