-- ===== src/Branches/Access/Resolution.antt =====
-- The branch that is resolved for a new movement and for a listing: exactly what the scope grants.
use ops_flow_ms.Errors.Result.{>>=-eq-ok, Result, err, ok, or_throw, ◌>>=◌, ◌>>◌}
use ops_flow_ms.AuthContext.{AuthenticatedUserContext, RuntimeRole, admin, manager, operator}
use ops_flow_ms.Branches.Access.Scope.{
  Belongs, Belongs-of_check, Grants, assert_exists_complete, assert_exists_sound, only,
  own_branch_complete, own_branch_sound, scope, whole_organization,
}
use ops_flow_ms.Shared.{
  Bool, Option, String, ap, false, if◌then◌else◌, none, refl, some, subst, sym, true, truthy, ◌↔◌,
  ◌≡◌, ◌≢◌,
}
use ops_flow_ms.Db.{Delegate}
use ops_flow_ms.Branches.Access.{
  any_branch, assert_branch_exists_in_organization, is_operator, own_branch,
  resolve_branch_for_create, resolve_branch_for_filter,
}
use ops_flow_ms.Errors.{bad_request, branch_scope_required}
use ops_flow_ms.Branches.Repository.{branch_id}

module _ (db : Delegate branch_id) (s : db.Store) where
  check_iff :
      (org own : String) (active : Bool) (b : String)
      → ((assert_branch_exists_in_organization db s org own active >> ok own) ≡ ok b)
        ↔ ((own ≡ b) × Belongs db s org b active)
  check_iff org own active b = (
    Belongs-of_check db s org own active,
    λ h.
        let checked =
          assert_exists_complete db s org own active
            (subst (λ x. Belongs db s org x active) (sym h.0) h.1) in
        rw checked (ap ok h.0),
  )

  chosen_iff :
      (org : String) (asked : Option String) (b : String)
      → ((do
        chosen ← or_throw asked (bad_request branch_scope_required)
        assert_branch_exists_in_organization db s org chosen true
        ok chosen)
          ≡ ok b)
        ↔ ((asked ≡ some b) × Belongs db s org b true)
  chosen_iff org none b = ((λ e. absurd (cc)), λ h. absurd (cc))
  chosen_iff org (some r) b = (
    λ e. let (same, h) = (check_iff org r true b).0 e in (ap some same, h),
    λ h. (check_iff org r true b).1 (cc, h.1),
  )

  create_iff :
      (role : RuntimeRole) (own : Option String) (u : AuthenticatedUserContext)
      (requested : Option String) (b : String)
      → u.role ≡ role
      → truthy u.branch_id ≡ own
      → (resolve_branch_for_create db s u requested ≡ ok b) ↔ (
          Grants (scope u) (if is_operator u then none else truthy requested) b
          × Belongs db s u.organization_id b true)
  unfolding resolve_branch_for_create
  create_iff admin own u requested b er eo =
      rw (er, resolve_branch_for_create) (chosen_iff u.organization_id (truthy requested) b)
  create_iff manager none u requested b er eo =
      rw (er, eo, resolve_branch_for_create) (chosen_iff u.organization_id (truthy requested) b)
  create_iff manager (some o) u requested b er eo =
      rw (er, eo, resolve_branch_for_create)
        (
          own_branch_sound db s u.organization_id (truthy requested) o true b,
          λ h. own_branch_complete db s u.organization_id (truthy requested) o true b h.0 h.1,
        )
  create_iff operator none u requested b er eo =
      rw (er, eo, resolve_branch_for_create) ((λ e. absurd (cc)), λ h. absurd h.0)
  create_iff operator (some o) u requested b er eo =
      rw (er, eo, resolve_branch_for_create) (check_iff u.organization_id o true b)

  -- The branch of a new movement is the one that the user's scope grants for the request, and it
  -- is an active branch of the user's organization; every such branch is granted. What an
  -- operator asks for is ignored.
  pub resolve_branch_for_create_iff :
      (u : AuthenticatedUserContext) (requested : Option String) (b : String)
      → (resolve_branch_for_create db s u requested ≡ ok b) ↔ (
          Grants (scope u) (if is_operator u then none else truthy requested) b
          × Belongs db s u.organization_id b true)
  resolve_branch_for_create_iff u requested b =
      create_iff u.role (truthy u.branch_id) u requested b refl refl

  wrapped_iff :
      (m : Result String) (b : String) → ((m >>= λ x. ok (some x)) ≡ ok (some b)) ↔ (m ≡ ok b)
  wrapped_iff (ok x) b = ((λ e. cc), λ e. cc)
  wrapped_iff (err x) b = ((λ e. absurd (cc)), λ e. absurd (cc))

  wrapped-ne-none : (m : Result String) → (m >>= λ x. ok (some x)) ≢ ok none
  wrapped-ne-none (ok x) e = cc
  wrapped-ne-none (err x) e = cc

  abbrev FilterSpec : AuthenticatedUserContext → Option String → Type 0
  FilterSpec u requested =
      ((b : String)
        → (resolve_branch_for_filter db s u requested ≡ ok (some b))
          ↔ (Grants (scope u) (truthy requested) b × Belongs db s u.organization_id b false))
      × ((resolve_branch_for_filter db s u requested ≡ ok none)
          ↔ ((scope u ≡ whole_organization) × (truthy requested ≡ none)))

  confined_iff :
      (org own : String) (asked : Option String) (b : String)
      → ((own_branch db s org asked own false >>= λ x. ok (some x)) ≡ ok (some b))
        ↔ (Grants (only own) asked b × Belongs db s org b false)
  confined_iff org own asked b =
      let (to, from) = wrapped_iff (own_branch db s org asked own false) b in
      (
        λ e. own_branch_sound db s org asked own false b (to e),
        λ h. from (own_branch_complete db s org asked own false b h.0 h.1),
      )

  any_branch_iff :
      (org : String) (asked : Option String)
      → ((b : String)
          → (any_branch db s org asked ≡ ok (some b))
            ↔ ((asked ≡ some b) × Belongs db s org b false))
        × ((any_branch db s org asked ≡ ok none) ↔ (asked ≡ none))
  unfolding any_branch
  any_branch_iff org none =
      ((λ b. ((λ e. absurd (cc)), λ h. absurd (cc))), ((λ e. refl), λ e. refl))
  any_branch_iff org (some r) = (
    λ b. (
      λ e.
          let (_, checked, last) =
            >>=-eq-ok (assert_branch_exists_in_organization db s org r false) _ e in
          let same : r ≡ b = cc in
          (
            ap some same,
            subst (λ x. Belongs db s org x false) same
                (assert_exists_sound db s org r false checked),
          ),
      λ h.
          let same : r ≡ b = cc in
          let checked =
            assert_exists_complete db s org r false
              (subst (λ x. Belongs db s org x false) (sym same) h.1) in
          rw checked (ap (λ x. ok (some x)) same),
    ),
    (
      λ e.
          let (_, _, last) =
            >>=-eq-ok (assert_branch_exists_in_organization db s org r false) _ e in
          absurd (cc),
      λ e. absurd (cc),
    ),
  )

  filter_iff :
      (role : RuntimeRole) (own : Option String) (u : AuthenticatedUserContext)
      (requested : Option String)
      → u.role ≡ role
      → truthy u.branch_id ≡ own
      → FilterSpec u requested
  unfolding resolve_branch_for_filter
  filter_iff admin own u requested er eo =
      let (listed, unconfined) = any_branch_iff u.organization_id (truthy requested) in
      rw (er, resolve_branch_for_filter)
        (listed, ((λ e. (refl, unconfined.0 e)), λ h. unconfined.1 h.1))
  filter_iff manager none u requested er eo =
      let (listed, unconfined) = any_branch_iff u.organization_id (truthy requested) in
      rw (er, eo, resolve_branch_for_filter)
        (listed, ((λ e. (refl, unconfined.0 e)), λ h. unconfined.1 h.1))
  filter_iff manager (some o) u requested er eo =
      rw (er, eo, resolve_branch_for_filter)
        (
          confined_iff u.organization_id o (truthy requested),
          (
            λ e.
                absurd (
                  wrapped-ne-none (own_branch db s u.organization_id (truthy requested) o false) e),
            λ h. absurd (cc (h.0)),
          ),
        )
  filter_iff operator none u requested er eo =
      rw (er, eo, resolve_branch_for_filter)
        ((λ b. ((λ e. absurd (cc)), λ h. absurd h.0)), ((λ e. absurd (cc)), λ h. absurd (cc (h.0))))
  filter_iff operator (some o) u requested er eo =
      rw (er, eo, resolve_branch_for_filter)
        (
          confined_iff u.organization_id o (truthy requested),
          (
            λ e.
                absurd (
                  wrapped-ne-none (own_branch db s u.organization_id (truthy requested) o false) e),
            λ h. absurd (cc (h.0)),
          ),
        )

  -- A listing is confined to the branch that the user's scope grants for the request, which is a
  -- branch of the user's organization, and every such branch is granted; it is confined to no
  -- branch exactly when the user's scope is the whole organization and none is asked for.
  pub resolve_branch_for_filter_iff :
      (u : AuthenticatedUserContext) (requested : Option String)
      → ((b : String)
          → (resolve_branch_for_filter db s u requested ≡ ok (some b))
            ↔ (Grants (scope u) (truthy requested) b × Belongs db s u.organization_id b false))
        × ((resolve_branch_for_filter db s u requested ≡ ok none)
            ↔ ((scope u ≡ whole_organization) × (truthy requested ≡ none)))
  resolve_branch_for_filter_iff u requested =
      filter_iff u.role (truthy u.branch_id) u requested refl refl
