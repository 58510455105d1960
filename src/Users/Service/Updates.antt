-- ===== src/Users/Service/Updates.antt =====
-- An update of a user stays within the organization of the requester.
use ops_flow_ms.Users.Repository.{
  UserUpdateInput, in_scope, apply_input, owner, update as update_user,
}
use ops_flow_ms.Users.Service.{
  required, assert_can_access_user, update, update_input, write_columns, write_roles, write_update,
  replace_roles, roles_to_set,
}
use ops_flow_ms.Users.Dto.{UpdateUserDto, owns, clear_roles, add_roles, has_keys}
use ops_flow_ms.Users.Service.Access.{Belongs, required_sound}
use ops_flow_ms.Users.Service.Keeping.{Keeps, Keeps-refl, Keeps-trans, scoped-Keeps, owned-Keeps}
use ops_flow_ms.Auth.Registration.{Role, role_id}
use ops_flow_ms.Branches.Repository.{branch_id}
use ops_flow_ms.AuthContext.{AuthenticatedUserContext}
use ops_flow_ms.Shared.{Bool-cases, List, Option, String, inl, inr, none, refl, some, ◌≡◌}
use ops_flow_ms.Db.{Delegate, Outcome-cases}
use ops_flow_ms.Errors.Result.{Result, err, ok, >>=-eq-ok}
use ops_flow_ms.Auth.{Secrets, User, user_id}
use ops_flow_ms.Db.Isolation.{Isolates, Isolates-refl}

module _ (secrets : Secrets) (users : Delegate user_id) (roles : Delegate role_id)
    (branches : Delegate branch_id) where
  update_user-Keeps :
      (org id : String) (input : UserUpdateInput) (rs : roles.Store) (us : users.Store)
      → Keeps users org id us (update_user users roles org id input rs us).1
  unfolding update_user
  update_user-Keeps org id input rs us =
      elim (Outcome-cases (users.update_many (in_scope org id) (apply_input input) us)) [
        | inl (t, e) ↦
            rw (e, update_user)
              (scoped-Keeps users org id (apply_input input) us t (λ r. refl) (λ r. refl) e)
        | inr (error, e) ↦ rw (e, update_user) (Keeps-refl users org id us)
      ]

  write_columns-Keeps :
      (id : String) (dto : UpdateUserDto) (input : UserUpdateInput) (org : String)
      (rs : roles.Store) (us : users.Store)
      → Keeps users org id us (write_columns secrets users roles branches id dto input org rs us).1
  unfolding write_columns
  write_columns-Keeps id dto input org rs us = elim (Bool-cases (has_keys dto)) [
    | inl keys ↦ rw keys (update_user-Keeps org id input rs us)
    | inr none' ↦ rw none' (Keeps-refl users org id us)
  ]

  replace_roles-Keeps :
      (org id : String) (new : List Role) (us : users.Store) (u : User)
      → Belongs users org id us u
      → Keeps users org id us (replace_roles secrets users roles branches id new us).1
  unfolding replace_roles
  replace_roles-Keeps org id new us u b =
      elim (Outcome-cases (users.update_many (owns id) clear_roles us)) [
        | inr (error, e) ↦ rw (e, replace_roles) (Keeps-refl users org id us)
        | inl (t, e) ↦
            let first = owned-Keeps users org id clear_roles us t u (λ r. refl) (λ r. refl) b e in
            elim (Outcome-cases (users.update_many (owns id) (add_roles new) t)) [
              | inr (error, e') ↦ rw (replace_roles, e, e') first
              | inl (t', e') ↦
                  rw (replace_roles, e, e')
                    (Keeps-trans users org id us t t' first (
                      owned-Keeps users org id (add_roles new) t t' (first.1 u b).0 (λ r. refl)
                        (λ r. refl) (first.1 u b).1 e'))
            ]
      ]

  write_roles-Keeps :
      (org id : String) (names : Option (List String)) (rs : roles.Store) (us : users.Store)
      (u : User)
      → Belongs users org id us u
      → Keeps users org id us (write_roles secrets users roles branches id names rs us).1
  unfolding write_roles
  write_roles-Keeps org id none rs us u b = Keeps-refl users org id us
  write_roles-Keeps org id (some names) rs us u b =
      go (roles_to_set secrets users roles branches names rs) refl
    where
      go :
          (r : Result (List Role))
          → roles_to_set secrets users roles branches names rs ≡ r
          → Keeps users org id us (write_roles secrets users roles branches id (some names) rs us).1
      go (err error) e = rw (write_roles, e) (Keeps-refl users org id us)
      go (ok new) e = rw (write_roles, e) (replace_roles-Keeps org id new us u b)

  write_update-Keeps :
      (org id : String) (dto : UpdateUserDto) (input : UserUpdateInput) (rs : roles.Store)
      (us : users.Store) (u : User)
      → Belongs users org id us u
      → Keeps users org id us (write_update secrets users roles branches id dto input org rs us).1
  unfolding write_update
  write_update-Keeps org id dto input rs us u b =
      go (write_columns secrets users roles branches id dto input org rs us).0 refl
    where
      t : users.Store
      t = (write_columns secrets users roles branches id dto input org rs us).1

      first : Keeps users org id us t
      first = write_columns-Keeps id dto input org rs us

      go :
          (r : Result (Unit {0}))
          → (write_columns secrets users roles branches id dto input org rs us).0 ≡ r
          → Keeps users org id us
              (write_update secrets users roles branches id dto input org rs us).1
      go (err error) e = rw (write_update, e) first
      go (ok _) e =
          rw (write_update, e)
            (Keeps-trans users org id us t
              (write_roles secrets users roles branches id dto.roles rs t).1 first
              (write_roles-Keeps org id dto.roles rs t (first.1 u b).0 (first.1 u b).1))

  input-Belongs :
      (id : String) (dto : UpdateUserDto) (current_user : AuthenticatedUserContext)
      (bs : branches.Store) (rs : roles.Store) (us : users.Store) (input : UserUpdateInput)
      → update_input secrets users roles branches id dto current_user bs rs us ≡ ok input
      → (u : User) × Belongs users current_user.organization_id id us u
  unfolding update_input
  input-Belongs id dto current_user bs rs us input e =
      let (_, _, e') =
        >>=-eq-ok (assert_can_access_user secrets users roles branches id current_user rs us) _ e in
      let (r, is, _) =
        >>=-eq-ok (required secrets users roles branches id current_user rs us) _ e' in
      let (u, b, _) = required_sound secrets users roles branches id current_user rs us r is in
      (u, b)

  pub update-Isolates_accounts :
      (id : String) (dto : UpdateUserDto) (current_user : AuthenticatedUserContext)
      (bs : branches.Store) (rs : roles.Store) (us : users.Store)
      → Isolates users owner current_user.organization_id us
          (update secrets users roles branches id dto current_user bs rs us).1
  unfolding update
  update-Isolates_accounts id dto current_user bs rs us =
      go (update_input secrets users roles branches id dto current_user bs rs us) refl
    where
      org : String
      org = current_user.organization_id

      Goal : Type 0
      Goal =
          Isolates users owner org us
            (update secrets users roles branches id dto current_user bs rs us).1

      written :
          (input : UserUpdateInput) (r : Result (Unit {0}))
          → update_input secrets users roles branches id dto current_user bs rs us ≡ ok input
          → (write_update secrets users roles branches id dto input org rs us).0 ≡ r
          → Isolates users owner org us
              (write_update secrets users roles branches id dto input org rs us).1
          → Goal
      written input (err error) e e' h = rw (update, e, e') h
      written input (ok _) e e' h = rw (update, e, e') h

      go :
          (r : Result UserUpdateInput)
          → update_input secrets users roles branches id dto current_user bs rs us ≡ r
          → Goal
      go (err error) e = rw (update, e) (Isolates-refl users owner org us)
      go (ok input) e =
          let (u, b) = input-Belongs id dto current_user bs rs us input e in
          written input (write_update secrets users roles branches id dto input org rs us).0 e refl
            (write_update-Keeps org id dto input rs us u b).0
