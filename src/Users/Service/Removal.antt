-- ===== src/Users/Service/Removal.antt =====
-- A user is removed by being made inactive: what that writes, and what the user may do after it.
use ops_flow_ms.Users.Repository.{in_scope, deactivate, soft_delete}
use ops_flow_ms.Users.Service.{assert_can_access_user, remove}
use ops_flow_ms.Users.Service.Access.{Belongs, MayReach, assert_can_access_user_iff}
use ops_flow_ms.Auth.Registration.{role_id}
use ops_flow_ms.Branches.Repository.{branch_id}
use ops_flow_ms.AuthContext.{AuthenticatedUserContext}
use ops_flow_ms.Db.{Delegate, Outcome, threw, done}
use ops_flow_ms.Shared.{String, ap, beq_of_eq, refl, subst, true, ◌≡◌}
use ops_flow_ms.Errors.Result.{Result, err, ok}
use ops_flow_ms.Auth.{Secrets, User, user_id}
use ops_flow_ms.Users.Service.Keeping.{Touches, scoped-Touches}

module _ (users : Delegate user_id) (org id : String) where
  in_scope_own : (u : User) → u.id ≡ id → u.organization_id ≡ org → in_scope org id u ≡ true
  in_scope_own u key own = rw (beq_of_eq u.id id key, beq_of_eq u.organization_id org own)

module _ (secrets : Secrets) (users : Delegate user_id) (roles : Delegate role_id)
    (branches : Delegate branch_id) where
  -- The user was one that the requester may reach, is inactive now, and no other is touched.
  abbrev WasRemoved : String → AuthenticatedUserContext → users.Store → users.Store → User → Type 0
  WasRemoved id current_user us t u =
      Belongs users current_user.organization_id id us u
      × MayReach current_user id
      × Touches users current_user.organization_id id us t (deactivate u)

  pub remove_sound :
      (id : String) (current_user : AuthenticatedUserContext) (rs : roles.Store)
      (us t : users.Store)
      → remove secrets users roles branches id current_user rs us ≡ (ok tt, t)
      → (u : User) × WasRemoved id current_user us t u
  unfolding remove soft_delete
  remove_sound id current_user rs us t e =
      go (assert_can_access_user secrets users roles branches id current_user rs us) refl
    where
      org : String
      org = current_user.organization_id

      written :
          (u : User)
          → assert_can_access_user secrets users roles branches id current_user rs us ≡ ok tt
          → Belongs users org id us u
          → MayReach current_user id
          → (o : Outcome users.Store) → users.update_many (in_scope org id) deactivate us ≡ o
          → (u : User) × WasRemoved id current_user us t u
      written u may b reach (threw error) e' =
          let q = rw (remove, may, soft_delete, e') at (ap (λ x. x.0) e) in absurd (cc)
      written u may b reach (done t') e' =
          let hit = in_scope_own users org id u (users.find_id id us b.0) b.1 in
          let same : t' ≡ t = rw (remove, may, soft_delete, e', b.0, hit) at (ap (λ x. x.1) e) in
          let e'' =
            subst (λ x. users.update_many (in_scope org id) deactivate us ≡ done x) same e' in
          (u, (b, reach, scoped-Touches users org id deactivate us t u (λ r. refl) b e''))

      go :
          (r : Result (Unit {0}))
          → assert_can_access_user secrets users roles branches id current_user rs us ≡ r
          → (u : User) × WasRemoved id current_user us t u
      go (err error) is = let q = rw (remove, is) at (ap (λ x. x.0) e) in absurd (cc)
      go (ok _) is =
          let (u, b, reach) =
            (assert_can_access_user_iff secrets users roles branches id current_user rs us).0 is in
          written u is b reach (users.update_many (in_scope org id) deactivate us) refl
