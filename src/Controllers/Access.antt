-- ===== src/Controllers/Access.antt =====
-- Which endpoints a user with one of the three roles reaches, through all guards and with the
-- permissions that the role has in the catalogue.
use ops_flow_ms.Controllers.{
  Endpoint, auth, users, branches, movements, cashflow, health, get_root, get_users, get_users_me,
  get_user, post_users, patch_user, delete_user, get_branches, get_branch, post_branches,
  patch_branch, post_movements, get_movements, post_approve, post_reject, post_deliver,
  get_cashflow_stats, get_health, get_ready, get_metrics, post_register, post_login, get_auth_me,
  post_refresh, post_logout, get_csrf, post_forgot_password, post_reset_password,
  post_change_password, route_of,
}
use ops_flow_ms.Guards.{Directory, RoleGrant, UserRow, can_activate, check_required, validate}
use ops_flow_ms.Guards.Global.{
  Route, GuardedRequest, admit, and_limit, check_guards, check_csrf, check_permissions,
  global_can_activate,
}
use ops_flow_ms.RateLimit.{Clock, RateLimitState, can_activate as can_activate_limited}
use ops_flow_ms.Rbac.Laws.{role_keys}
use ops_flow_ms.AuthContext.{RuntimeRole, admin, manager, operator, AuthenticatedUserContext}
use ops_flow_ms.Shared.{
  Bool, String, [], false, if◌then◌else◌, refl, true, ◌∷◌, ◌≡◌, List, Option, beq_of_ne, some, ◌≢◌,
  Bool-cases, inl, inr, ap, is_empty, subst, sym, ◌&&◌, ◌∙◌,
}
use ops_flow_ms.Errors.Result.{Result, err, ok, throw_if, ◌>>◌, succeeds}
use ops_flow_ms.Guards.Validation.{validate_sound}
use ops_flow_ms.Errors.{auth_user_has_no_roles, forbidden}

-- Movements are made and seen by everybody, and decided by managers, who also see users and branches;
-- users and branches are managed by administrators.
abbrev pub allowed : RuntimeRole → Endpoint → Bool
allowed admin e = true
allowed manager (branches post_branches) = false
allowed manager (branches patch_branch) = false
allowed manager (users post_users) = false
allowed manager (users patch_user) = false
allowed manager (users delete_user) = false
allowed manager _ = true
allowed operator (branches e) = false
allowed operator (users get_users_me) = true
allowed operator (users get_user) = true
allowed operator (users _) = false
allowed operator (movements post_movements) = true
allowed operator (movements get_movements) = true
allowed operator (movements _) = false
allowed operator _ = true

abbrev pub role_name : RuntimeRole → String
role_name admin = "ADMIN"
role_name manager = "MANAGER"
role_name operator = "OPERATOR"

-- The role, with its permissions in the catalogue.
abbrev pub canonical_grant : RuntimeRole → RoleGrant
canonical_grant r = record { name = role_name r; permissions = role_keys r }

abbrev by_role {ℓ} :
    (P : RuntimeRole → Type ℓ) → P admin → P manager → P operator → (r : RuntimeRole) → P r
by_role P a m o admin = a
by_role P a m o manager = m
by_role P a m o operator = o

-- Whether a route's roles and permissions are met by the role alone.
abbrev meets : Route → RuntimeRole → Bool
meets route r =
    if route.permissions_guard
    then succeeds
        (check_required route.required_roles route.required_permissions (canonical_grant r ∷ []))
    else true

meets_guarded : (e : Endpoint) (r : RuntimeRole) → meets (route_of e) r ≡ allowed r e
unfolding check_required
meets_guarded (users get_users) = by_role _ refl refl refl
meets_guarded (users get_users_me) = by_role _ refl refl refl
meets_guarded (users get_user) = by_role _ refl refl refl
meets_guarded (users post_users) = by_role _ refl refl refl
meets_guarded (users patch_user) = by_role _ refl refl refl
meets_guarded (users delete_user) = by_role _ refl refl refl
meets_guarded (branches get_branches) = by_role _ refl refl refl
meets_guarded (branches get_branch) = by_role _ refl refl refl
meets_guarded (branches post_branches) = by_role _ refl refl refl
meets_guarded (branches patch_branch) = by_role _ refl refl refl
meets_guarded (movements post_movements) = by_role _ refl refl refl
meets_guarded (movements get_movements) = by_role _ refl refl refl
meets_guarded (movements post_approve) = by_role _ refl refl refl
meets_guarded (movements post_reject) = by_role _ refl refl refl
meets_guarded (movements post_deliver) = by_role _ refl refl refl
meets_guarded (cashflow get_cashflow_stats) = by_role _ refl refl refl
meets_guarded (auth post_register) = by_role _ refl refl refl
meets_guarded (auth post_login) = by_role _ refl refl refl
meets_guarded (auth get_auth_me) = by_role _ refl refl refl
meets_guarded (auth post_refresh) = by_role _ refl refl refl
meets_guarded (auth post_logout) = by_role _ refl refl refl
meets_guarded (auth get_csrf) = by_role _ refl refl refl
meets_guarded (auth post_forgot_password) = by_role _ refl refl refl
meets_guarded (auth post_reset_password) = by_role _ refl refl refl
meets_guarded (auth post_change_password) = by_role _ refl refl refl
meets_guarded (health get_health) = by_role _ refl refl refl
meets_guarded (health get_ready) = by_role _ refl refl refl
meets_guarded (health get_metrics) = by_role _ refl refl refl
meets_guarded get_root = by_role _ refl refl refl

succeeds_then {ℓ} :
    {A : Type ℓ} (x y : Result (Unit {0})) (a : A)
    → y ≡ ok tt
    → succeeds (do x; y; ok a) ≡ succeeds x
succeeds_then (ok _) y a e = rw e
succeeds_then (err error) y a e = refl

module _ (dir : Directory) (r : RuntimeRole) (id : String) where
  nothing_required :
      succeeds (can_activate dir [] [] (some id))
      ≡ succeeds (check_required [] [] (canonical_grant r ∷ []))
  unfolding can_activate check_required
  nothing_required = refl

  -- The user is stored and active, and has that role alone.
  abbrev HasRole : Type 0
  HasRole =
      (row : UserRow) × (dir.find_user id ≡ some row)
      × (row.is_active ≡ true)
      × (dir.roles_of id ≡ canonical_grant r ∷ [])

  validates :
      (sid : Option String)
      → HasRole
      → (u : AuthenticatedUserContext) × (validate dir id sid ≡ ok u) × (u.sub ≡ id)
  unfolding validate
  validates sid (row, found, live, _) = valid (validate dir id sid) refl
    where
      valid :
          (x : Result AuthenticatedUserContext)
          → validate dir id sid ≡ x
          → (u : AuthenticatedUserContext) × (validate dir id sid ≡ ok u) × (u.sub ≡ id)
      valid (err error) e = absurd (let q = rw (validate, found, live) at e in cc)
      valid (ok u) e =
          let (_, (_, _, same, _, _, _, _, _)) = validate_sound dir id sid u e in (u, e, same)

  activates :
      (roles permissions : List String)
      → (is_empty roles && is_empty permissions) ≡ false
      → id ≢ ""
      → HasRole
      → can_activate dir roles permissions (some id)
        ≡ check_required roles permissions (canonical_grant r ∷ [])
  unfolding can_activate
  activates roles permissions some' signed (row, found, live, grants) =
      rw (can_activate, some', beq_of_ne id "" signed, found, live)
        (subst
          (λ gs.
            (do
              throw_if (is_empty gs) (forbidden auth_user_has_no_roles)
              check_required roles permissions gs)
            ≡ check_required roles permissions (canonical_grant r ∷ []))
          (sym grants) refl)

  activates_always :
      (roles permissions : List String)
      → id ≢ ""
      → HasRole
      → succeeds (can_activate dir roles permissions (some id))
        ≡ succeeds (check_required roles permissions (canonical_grant r ∷ []))
  activates_always [] [] signed h = nothing_required
  activates_always [] (p ∷ ps) signed h = ap succeeds (activates [] (p ∷ ps) refl signed h)
  activates_always (q ∷ qs) ps signed h = ap succeeds (activates (q ∷ qs) ps refl signed h)

  -- What the last checks make of the permission check.
  check_guards_met :
      (route : Route) (req : GuardedRequest) (sid : Option String)
      → id ≢ ""
      → HasRole
      → route.is_public ≡ false
      → req.token ≡ some (record { sub = id; sid = sid })
      → check_csrf dir route req ≡ ok tt
      → succeeds (check_guards dir route req) ≡ meets route r
  unfolding check_guards global_can_activate
  check_guards_met route req sid signed h private' token csrf =
      let (u, valid, same) = validates sid h in
      let checks = activates_always route.required_roles route.required_permissions signed h in
      elim (Bool-cases route.permissions_guard) [
        | inr free ↦ rw (check_guards, global_can_activate, private', token, valid, free, csrf)
        | inl guards ↦
            let permitted : check_permissions dir route (some u)
                ≡ can_activate dir route.required_roles route.required_permissions (some id) =
              rw (guards, same) in
            rw (check_guards, global_can_activate, private', token, valid)
              (succeeds_then (check_permissions dir route (some u)) (check_csrf dir route req)
                  (some u) csrf
                ∙ ap succeeds permitted
                ∙ checks
                ∙ rw guards)
      ]

  limited_succeeds :
      {A : Type 0} (x : Result (Unit {0})) (a : A) → succeeds (do x; ok a) ≡ succeeds x
  limited_succeeds (ok _) a = refl
  limited_succeeds (err e) a = refl

  -- An active user with one role, whose permissions are those of the catalogue, passes all guards
  -- of an endpoint that is not public with a genuine token exactly where the table of the roles
  -- allows it and the rate limit of the endpoint, where it has one, lets the request through, if the
  -- request passes the check against forged requests; a request that the table does not allow is not counted.
  pub admit-allowed :
      (e : Endpoint) (req : GuardedRequest) (sid : Option String) (clock : Clock)
      (s : RateLimitState)
      → id ≢ ""
      → HasRole
      → (route_of e).is_public ≡ false
      → req.token ≡ some (record { sub = id; sid = sid })
      → check_csrf dir (route_of e) req ≡ ok tt
      → (succeeds (admit dir (route_of e) req clock s).0 ≡ (
          allowed r e
          && succeeds (can_activate_limited (route_of e).rate_limit req.limit_key clock s).0.0))
        × ((admit dir (route_of e) req clock s).1 ≡ (
            if allowed r e
            then (can_activate_limited (route_of e).rate_limit req.limit_key clock s).1
            else s))
  unfolding admit
  admit-allowed e req sid clock s signed h private' token csrf =
      let met =
        check_guards_met (route_of e) req sid signed h private' token csrf ∙ meets_guarded e r in
      go (check_guards dir (route_of e) req) met
    where
      go :
          (x : Result (Option AuthenticatedUserContext))
          → succeeds x ≡ allowed r e
          → (succeeds (and_limit dir (route_of e) req clock s x).0 ≡ (
              allowed r e
              && succeeds (can_activate_limited (route_of e).rate_limit req.limit_key clock s).0.0))
            × ((and_limit dir (route_of e) req clock s x).1 ≡ (
                if allowed r e
                then (can_activate_limited (route_of e).rate_limit req.limit_key clock s).1
                else s))
      go (err error) is = (rw (← is) refl, rw (← is) refl)
      go (ok user) is = (
        rw (← is) (
            limited_succeeds
              (can_activate_limited (route_of e).rate_limit req.limit_key clock s).0.0 user),
        rw (← is) refl,
      )
