-- ===== src/Users/Service/Update.antt =====
-- An update of a user as a whole.
use ops_flow_ms.Users.Repository.{UserUpdateInput, in_scope, apply_input, selected}
use ops_flow_ms.Users.Service.{
  assert_can_access_user, required, branch_change, update_input, write_columns, write_roles,
  write_update, roles_to_set, update,
}
use ops_flow_ms.Users.Dto.{UpdateUserDto, UserResponseDto, update_data, has_keys, map_user_response}
use ops_flow_ms.Users.Service.Access.{Belongs, MayReach, assert_can_access_user_iff, required_own}
use ops_flow_ms.Users.Service.Keeping.{Touches, Touches-trans, scoped-Touches}
use ops_flow_ms.Auth.Registration.{role_id}
use ops_flow_ms.Branches.Repository.{branch_id}
use ops_flow_ms.Db.{Delegate, done}
use ops_flow_ms.Auth.{Secrets, User, user_id}
use ops_flow_ms.Shared.{
  String, pair_eq, refl, true, ◌≡◌, Bool-cases, List, Option, inl, inr, none, some, set, sym, ap,
  subst, ◌∙◌,
}
use ops_flow_ms.Errors.Result.{ok, >>=-eq-ok, Result, err, ok_inj}
use ops_flow_ms.Errors.{Failure}
use ops_flow_ms.Users.Service.Changes.{
  AreSet, columns_set, write_columns_sound, write_roles_sound, write_columns_written,
}
use ops_flow_ms.AuthContext.{AuthenticatedUserContext}
use ops_flow_ms.Users.Service.Columns.{
  IsResolved, IsUpdated, set-IsUpdated, branch_change-IsResolved,
}

module _ (secrets : Secrets) (users : Delegate user_id) (roles : Delegate role_id)
    (branches : Delegate branch_id) where
  write_update_sound :
      (org id : String) (dto : UpdateUserDto) (input : UserUpdateInput) (rs : roles.Store)
      (us : users.Store) (u : User)
      → Belongs users org id us u
      → (write_update secrets users roles branches id dto input org rs us).0 ≡ ok tt
      → (v : User) × AreSet secrets users roles branches dto.roles rs
          (columns_set secrets users roles branches dto input u)
          v
        × Touches users org id us
            (write_update secrets users roles branches id dto input org rs us).1
            v
  unfolding write_update
  write_update_sound org id dto input rs us u b e =
      go (write_columns secrets users roles branches id dto input org rs us).0 refl
    where
      t : users.Store
      t = (write_columns secrets users roles branches id dto input org rs us).1

      middle : User
      middle = columns_set secrets users roles branches dto input u

      go :
          (r : Result (Unit {0}))
          → (write_columns secrets users roles branches id dto input org rs us).0 ≡ r
          → (v : User) × AreSet secrets users roles branches dto.roles rs middle v
            × Touches users org id us
                (write_update secrets users roles branches id dto input org rs us).1
                v
      go (err error) is = absurd (let q = rw (write_update, is) at e in cc)
      go (ok _) is =
          let first =
            write_columns_sound secrets users roles branches org id dto input rs us u b is in
          let (v, set, last) =
            write_roles_sound secrets users roles branches org id dto.roles rs t middle first.0
              (rw (write_update, is) at e) in
          (
            v,
            set,
            rw (write_update, is)
                (Touches-trans users org id us t
                  (write_roles secrets users roles branches id dto.roles rs t).1 first last),
          )

  set_owner :
      (dto : UpdateUserDto) (input : UserUpdateInput) (rs : roles.Store) (u v : User)
      → AreSet secrets users roles branches dto.roles rs
          (columns_set secrets users roles branches dto input u)
          v
      → v.organization_id ≡ u.organization_id
  set_owner dto input rs u v set = go dto.roles set ∙ columns_owner
    where
      columns_owner :
          (columns_set secrets users roles branches dto input u).organization_id ≡ u.organization_id
      columns_owner = elim (Bool-cases (has_keys dto)) [
        | inl keys ↦ rw keys
        | inr no_keys ↦ rw no_keys
      ]

      go :
          (names : Option (List String))
          → AreSet secrets users roles branches names rs
              (columns_set secrets users roles branches dto input u)
              v
          → v.organization_id
            ≡ (columns_set secrets users roles branches dto input u).organization_id
      go none same = ap (λ x. x.organization_id) same
      go (some names) (_, (loaded, _, same)) = ap (λ x. x.organization_id) same

  -- What a successful update rests on, and the row that it leaves.
  abbrev pub WasUpdated :
      String
      → UpdateUserDto
      → AuthenticatedUserContext
      → branches.Store
      → roles.Store
      → users.Store
      → users.Store
      → User
      → User
      → Type 0
  WasUpdated id dto current_user bs rs us t u v =
      Belongs users current_user.organization_id id us u
      × MayReach current_user id
      × ((branch : Option (Option String)) × IsResolved secrets users roles branches dto.branch_id
            branch current_user.organization_id bs
          × IsUpdated secrets users roles branches dto branch rs u v)
      × Touches users current_user.organization_id id us t v

  input_sound :
      (id : String) (dto : UpdateUserDto) (current_user : AuthenticatedUserContext)
      (bs : branches.Store) (rs : roles.Store) (us : users.Store) (input : UserUpdateInput)
      → update_input secrets users roles branches id dto current_user bs rs us ≡ ok input
      → ((u : User) × Belongs users current_user.organization_id id us u × MayReach current_user id)
        × ((branch : Option (Option String)) × (branch_change secrets users roles branches
                dto.branch_id current_user.organization_id bs
              ≡ ok branch)
            × (input ≡ update_data dto branch))
  unfolding update_input
  input_sound id dto current_user bs rs us input e =
      let (_, may, e₁) =
        >>=-eq-ok (assert_can_access_user secrets users roles branches id current_user rs us) _ e in
      let (_, _, e₂) =
        >>=-eq-ok (required secrets users roles branches id current_user rs us) _ e₁ in
      let (branch, is, e₃) =
        >>=-eq-ok
          (branch_change secrets users roles branches dto.branch_id current_user.organization_id bs)
          _ e₂ in
      (
        (assert_can_access_user_iff secrets users roles branches id current_user rs us).0 may,
        (branch, is, sym (ok_inj _ _ e₃)),
      )

  -- An update of a user that succeeds was made by somebody who may reach the user in the
  -- organization; each column of the stored user is the given value, or the old one where none is
  -- given; the branch is left alone where it is not given, taken away where it is null or blank,
  -- and otherwise a stored branch of the organization; where roles are given, they are not none,
  -- and the user's roles are as many stored roles as were named, all of them named, with every
  -- stored role of a given name among them; no other user is touched, and the answer shows the
  -- user as stored.
  pub update_sound :
      (id : String) (dto : UpdateUserDto) (current_user : AuthenticatedUserContext)
      (bs : branches.Store) (rs : roles.Store) (us t : users.Store) (response : UserResponseDto)
      → update secrets users roles branches id dto current_user bs rs us ≡ (ok response, t)
      → (u : User) × (v : User) × WasUpdated id dto current_user bs rs us t u v
        × (response ≡ map_user_response (selected users roles rs v))
  unfolding update
  update_sound id dto current_user bs rs us t response e =
      go (update_input secrets users roles branches id dto current_user bs rs us) refl
    where
      org : String
      org = current_user.organization_id

      Goal : Type 0
      Goal =
          (u : User) × (v : User) × WasUpdated id dto current_user bs rs us t u v
          × (response ≡ map_user_response (selected users roles rs v))

      written :
          (input : UserUpdateInput)
          → update_input secrets users roles branches id dto current_user bs rs us ≡ ok input
          → (r : Result (Unit {0}))
          → (write_update secrets users roles branches id dto input org rs us).0 ≡ r
          → Goal
      written input is (err error) w =
          absurd (let q = rw (update, is, w) at (ap (λ x. x.0) e) in cc)
      written input is (ok _) w =
          let ((u, b, reach), (branch, within, same)) =
            input_sound id dto current_user bs rs us input is in
          let (v, set, touched) = write_update_sound org id dto input rs us u b w in
          let after : (write_update secrets users roles branches id dto input org rs us).1 ≡ t =
            rw (update, is, w) at (ap (λ x. x.1) e) in
          let stored = subst (λ x. Touches users org id us x v) after touched in
          (
            u,
            v,
            (
              b,
              reach,
              (
                branch,
                branch_change-IsResolved secrets users roles branches dto.branch_id org bs branch
                    within,
                set-IsUpdated secrets users roles branches dto branch org bs rs u v
                    (branch_change-IsResolved secrets users roles branches dto.branch_id org bs
                      branch within)
                    (subst
                      (λ x.
                        AreSet secrets users roles branches dto.roles rs
                          (columns_set secrets users roles branches dto x u) v)
                      same set),
              ),
              stored,
            ),
            let q = rw (update, is, w) at (ap (λ x. x.0) e) in
                let own = set_owner dto input rs u v set ∙ b.1 in
                let shown =
                  required_own secrets users roles branches id current_user rs
                    (write_update secrets users roles branches id dto input org rs us).1 v
                    (touched.0, own) in
                sym (ok_inj _ _ (rw shown at q)),
          )

      go :
          (r : Result UserUpdateInput)
          → update_input secrets users roles branches id dto current_user bs rs us ≡ r
          → Goal
      go (err error) is = absurd (let q = rw (update, is) at (ap (λ x. x.0) e) in cc)
      go (ok input) is =
          written input is (write_update secrets users roles branches id dto input org rs us).0 refl

  -- An update with columns and roles whose columns the database writes and whose roles are then
  -- refused answers with that refusal and leaves the columns written.
  pub update_halfway :
      (id : String) (dto : UpdateUserDto) (current_user : AuthenticatedUserContext)
      (bs : branches.Store) (rs : roles.Store) (us t : users.Store) (input : UserUpdateInput)
      (names : List String) (error : Failure)
      → update_input secrets users roles branches id dto current_user bs rs us ≡ ok input
      → has_keys dto ≡ true
      → dto.roles ≡ some names
      → roles_to_set secrets users roles branches names rs ≡ err error
      → users.update_many (in_scope current_user.organization_id id) (apply_input input) us ≡ done t
      → (update secrets users roles branches id dto current_user bs rs us ≡ (err error, t))
        × ((u : User) × Belongs users current_user.organization_id id us u
            × (users.find id t ≡ some (apply_input input u)))
  unfolding update write_update write_roles
  update_halfway id dto current_user bs rs us t input names error is keys given' refused wrote =
      let ((u, b, _), _) = input_sound id dto current_user bs rs us input is in
      let columns =
        write_columns_written secrets users roles branches current_user.organization_id id dto input
          rs us t u b keys wrote in
      let stopped : write_update secrets users roles branches id dto input
            current_user.organization_id rs us
          ≡ (err error, t) =
        let is' = ap (λ x. x.0) columns in
        let to = ap (λ x. x.1) columns in
        pair_eq (rw (write_update, is', given', write_roles, refused))
          (rw (write_update, is', given', write_roles, refused) to) in
      let first = ap (λ x. x.0) stopped in
      (
        pair_eq (rw (update, is, first)) (rw (update, is, first) (ap (λ x. x.1) stopped)),
        (
          u,
          b,
          (scoped-Touches users current_user.organization_id id (apply_input input) us t u
              (λ r. refl) b wrote).0,
        ),
      )
