-- ===== src/Users/Service/Changes.antt =====
-- What an update of a user establishes, and what it leaves behind where it fails halfway.
use ops_flow_ms.Users.Repository.{
  UserUpdateInput, in_scope, apply_input, update as update_user, find_by_id,
}
use ops_flow_ms.Users.Service.{write_columns, write_roles, replace_roles, roles_to_set, done_with}
use ops_flow_ms.Users.Dto.{UpdateUserDto, owns, clear_roles, add_roles, has_keys, catch_email}
use ops_flow_ms.Users.Service.Access.{Belongs}
use ops_flow_ms.Users.Service.Keeping.{Touches, Touches-trans, scoped-Touches, owned-Touches}
use ops_flow_ms.Users.Service.Creation.{AreNamed, load_roles_sound}
use ops_flow_ms.Auth.Registration.{Role, role_id}
use ops_flow_ms.Branches.Repository.{branch_id}
use ops_flow_ms.Db.{Delegate, done, Outcome-cases}
use ops_flow_ms.Auth.{Secrets, User, user_id}
use ops_flow_ms.Shared.{
  String, beq_of_eq, if◌then◌else◌, pair_eq, refl, true, ◌≡◌, Bool-cases, List, Option, false, inl,
  inr, is_empty, map, none, some,
}
use ops_flow_ms.Tenancy.{assert_organization_access}
use ops_flow_ms.Errors.Result.{ok, >>=-eq-ok, Result, err, throw_if, throw_if-eq-ok}
use ops_flow_ms.Errors.{forbidden, user_role_required}

module _ (secrets : Secrets) (users : Delegate user_id) (roles : Delegate role_id)
    (branches : Delegate branch_id) where
  -- The row after the write of the columns.
  abbrev pub columns_set : UpdateUserDto → UserUpdateInput → User → User
  columns_set dto input u = if has_keys dto then apply_input input u else u

  update_user_written :
      (org id : String) (input : UserUpdateInput) (rs : roles.Store) (us t : users.Store) (u : User)
      → Belongs users org id us u
      → users.update_many (in_scope org id) (apply_input input) us ≡ done t
      → ((done_with secrets users roles branches
              (catch_email (update_user users roles org id input rs us).0)
            ≡ ok tt)
          × ((update_user users roles org id input rs us).1 ≡ t))
  unfolding update_user find_by_id assert_organization_access
  update_user_written org id input rs us t u b e =
      let (here, _) = scoped-Touches users org id (apply_input input) us t u (λ r. refl) b e in
      (
        rw (update_user, e, find_by_id, here, assert_organization_access, beq_of_eq _ _ b.1),
        rw (update_user, e),
      )

  -- A write of the columns that the database carries out.
  pub write_columns_written :
      (org id : String) (dto : UpdateUserDto) (input : UserUpdateInput) (rs : roles.Store)
      (us t : users.Store) (u : User)
      → Belongs users org id us u
      → has_keys dto ≡ true
      → users.update_many (in_scope org id) (apply_input input) us ≡ done t
      → write_columns secrets users roles branches id dto input org rs us ≡ (ok tt, t)
  unfolding write_columns
  write_columns_written org id dto input rs us t u b keys e =
      let (is, after) = update_user_written org id input rs us t u b e in
      rw (write_columns, keys) (pair_eq is after)

  pub write_columns_sound :
      (org id : String) (dto : UpdateUserDto) (input : UserUpdateInput) (rs : roles.Store)
      (us : users.Store) (u : User)
      → Belongs users org id us u
      → (write_columns secrets users roles branches id dto input org rs us).0 ≡ ok tt
      → Touches users org id us
          (write_columns secrets users roles branches id dto input org rs us).1
          (columns_set dto input u)
  unfolding write_columns update_user
  write_columns_sound org id dto input rs us u b e = elim (Bool-cases (has_keys dto)) [
    | inr no_keys ↦ rw (write_columns, no_keys) (b.0, λ k other. refl)
    | inl keys ↦ elim (Outcome-cases (users.update_many (in_scope org id) (apply_input input) us)) [
      | inr (error, e') ↦ absurd (let q = rw (write_columns, keys, update_user, e') at e in cc)
      | inl (t, e') ↦
          rw (write_columns, keys, update_user, e')
            (scoped-Touches users org id (apply_input input) us t u (λ r. refl) b e')
    ]
  ]

  abbrev with_roles : List Role → User → User
  with_roles loaded u = record u { role_ids = map role_id loaded }

  -- The row after the roles were set: the same where none are given.
  abbrev pub AreSet : Option (List String) → roles.Store → User → User → Type 0
  AreSet none rs u v = v ≡ u
  AreSet (some names) rs u v =
      (is_empty names ≡ false)
      × ((loaded : List Role) × AreNamed secrets users roles branches names rs loaded
          × (v ≡ with_roles loaded u))

  replace_roles_sound :
      (org id : String) (new : List Role) (us : users.Store) (u : User)
      → users.find id us ≡ some u
      → (replace_roles secrets users roles branches id new us).0 ≡ ok tt
      → Touches users org id us
          (replace_roles secrets users roles branches id new us).1
          (with_roles new u)
  unfolding replace_roles
  replace_roles_sound org id new us u here e =
      elim (Outcome-cases (users.update_many (owns id) clear_roles us)) [
        | inr (error, e') ↦ absurd (let q = rw (replace_roles, e') at e in cc)
        | inl (t, e') ↦
            let first = owned-Touches users org id clear_roles us t u (λ r. refl) here e' in
            elim (Outcome-cases (users.update_many (owns id) (add_roles new) t)) [
              | inr (error, e'') ↦ absurd (let q = rw (replace_roles, e', e'') at e in cc)
              | inl (t', e'') ↦
                  rw (replace_roles, e', e'')
                    (Touches-trans users org id us t t' first (
                      owned-Touches users org id (add_roles new) t t' (clear_roles u) (λ r. refl)
                        first.0 e''))
            ]
      ]

  pub write_roles_sound :
      (org id : String) (names : Option (List String)) (rs : roles.Store) (us : users.Store)
      (u : User)
      → users.find id us ≡ some u
      → (write_roles secrets users roles branches id names rs us).0 ≡ ok tt
      → (v : User) × AreSet names rs u v
        × Touches users org id us (write_roles secrets users roles branches id names rs us).1 v
  unfolding write_roles
  write_roles_sound org id none rs us u here e = (u, refl, (here, λ k other. refl))
  write_roles_sound org id (some names) rs us u here e =
      go (roles_to_set secrets users roles branches names rs) refl
    where
      go :
          (r : Result (List Role))
          → roles_to_set secrets users roles branches names rs ≡ r
          → (v : User) × AreSet (some names) rs u v
            × Touches users org id us
                (write_roles secrets users roles branches id (some names) rs us).1
                v
      go (err error) is = absurd (let q = rw (write_roles, is) at e in cc)
      go (ok new) is =
          let (_, full, loads) =
            >>=-eq-ok (throw_if (is_empty names) (forbidden user_role_required)) _ is in
          (
            with_roles new u,
            (
              throw_if-eq-ok _ _ full,
              (new, load_roles_sound secrets users roles branches names rs new loads, refl),
            ),
            rw (write_roles, is)
                (replace_roles_sound org id new us u here (rw (write_roles, is) at e)),
          )
