-- ===== src/Users/Service/Columns.antt =====
-- What an update leaves of a user, column by column.
use ops_flow_ms.Errors.Result.{>>=-eq-ok, ok, ok_inj}
use ops_flow_ms.Users.Service.Creation.{AreNamed, find_branch_sound}
use ops_flow_ms.Users.Service.Changes.{AreSet, columns_set}
use ops_flow_ms.Shared.{
  Bool-cases, List, Option, String, ap, arith, eq_of_beq, false, inl, inr, is_empty, is_some, map,
  none, or_else, refl, set, some, sym, ◌==◌, ◌∙◌, ◌≡◌, ◌⊎◌,
}
use ops_flow_ms.Branches.Repository.{BranchRecord, branch_id, find_by_id as find_branch}
use ops_flow_ms.Db.{Delegate}
use ops_flow_ms.Users.Dto.{
  missing, undefined, given, has_key, Property, UpdateUserDto, has_keys, update_data, value_of,
  has_key,
}
use ops_flow_ms.Auth.Registration.{Role, role_id}
use ops_flow_ms.Auth.{Secrets, User, user_id}
use ops_flow_ms.Users.Service.{branch_change, found_branch, resolve_branch_id}

-- A column after the update: the given value, or the old one.
abbrev pub chosen {ℓ} : {A : Type ℓ} → Property A → A → A
chosen missing old = old
chosen undefined old = old
chosen (given a) old = a

abbrev pub changed : Option (Option String) → Option String → Option String
changed none old = old
changed (some new) old = new

value_of-chosen {ℓ} :
    {A : Type ℓ} (p : Property A) (old : A) → or_else (value_of p) old ≡ chosen p old
value_of-chosen missing old = refl
value_of-chosen undefined old = refl
value_of-chosen (given a) old = refl

no_key-chosen {ℓ} : {A : Type ℓ} (p : Property A) (old : A) → has_key p ≡ false → old ≡ chosen p old
no_key-chosen missing old e = refl
no_key-chosen undefined old e = absurd (cc)
no_key-chosen (given a) old e = absurd (cc)

or_else-changed :
    (change : Option (Option String)) (old : Option String)
    → or_else change old ≡ changed change old
or_else-changed none old = refl
or_else-changed (some new) old = refl

module _ (secrets : Secrets) (users : Delegate user_id) (roles : Delegate role_id)
    (branches : Delegate branch_id) where
  -- What the request makes of the branch: left alone where it is not given, taken away where it is null or
  -- blank, and otherwise a stored branch of the organization.
  abbrev pub IsResolved :
      Option (Option String) → Option (Option String) → String → branches.Store → Type 0
  IsResolved none change org bs = change ≡ none
  IsResolved (some none) change org bs = change ≡ some none
  IsResolved (some (some wanted)) change org bs =
      ((wanted ≡ "") × (change ≡ some none))
      ⊎ ((row : BranchRecord) × (branches.find wanted bs ≡ some row)
          × (row.organization_id ≡ org)
          × (change ≡ some (some wanted)))

  given_branch :
      (wanted org : String) (bs : branches.Store) (change : Option (Option String))
      → branch_change secrets users roles branches (some (some wanted)) org bs ≡ ok change
      → IsResolved (some (some wanted)) change org bs
  unfolding resolve_branch_id
  given_branch wanted org bs change e =
      let (resolved, is, e₁) =
        >>=-eq-ok (resolve_branch_id secrets users roles branches (some wanted) org bs) _ e in
      let same : some resolved ≡ change = ok_inj _ _ e₁ in
      elim (Bool-cases (wanted == "")) [
        | inl blank ↦
            let gone : none ≡ resolved = ok_inj _ _ (rw (resolve_branch_id, blank) at is) in
            inl (eq_of_beq wanted "" blank, sym same ∙ ap some (sym gone))
        | inr filled ↦
            let (row, found, e₂) =
              >>=-eq-ok (find_branch branches org wanted bs) _
                (rw (resolve_branch_id, filled) at is) in
            here row found e₂ same
      ]
    where
      here :
          (row : Option BranchRecord) {resolved : Option String}
          → find_branch branches org wanted bs ≡ ok row
          → found_branch secrets users roles branches row ≡ ok resolved
          → some resolved ≡ change
          → IsResolved (some (some wanted)) change org bs
      here none found e₂ same = absurd (cc)
      here (some row) found e₂ same =
          let (stored, own) =
            find_branch_sound secrets users roles branches wanted org bs row found in
          let key : row.id ≡ wanted = branches.find_id wanted bs stored in
          inr (row, stored, own, sym same ∙ ap some (sym (ok_inj _ _ e₂) ∙ ap some key))

  pub branch_change-IsResolved :
      (wanted : Option (Option String)) (org : String) (bs : branches.Store)
      (change : Option (Option String))
      → branch_change secrets users roles branches wanted org bs ≡ ok change
      → IsResolved wanted change org bs
  unfolding resolve_branch_id
  branch_change-IsResolved none org bs change e = sym (ok_inj _ _ e)
  branch_change-IsResolved (some none) org bs change e = sym (ok_inj _ _ e)
  branch_change-IsResolved (some (some wanted)) org bs change e =
      given_branch wanted org bs change e

  -- The roles of a user after the update: the same where none are given, and otherwise exactly the stored
  -- roles of the given names, as many as were named.
  abbrev pub RolesAre : Option (List String) → roles.Store → List String → List String → Type 0
  RolesAre none rs old new = new ≡ old
  RolesAre (some names) rs old new =
      (is_empty names ≡ false)
      × ((loaded : List Role) × AreNamed secrets users roles branches names rs loaded
          × (new ≡ map role_id loaded))

  -- The row that an update leaves, column by column.
  abbrev pub IsUpdated : UpdateUserDto → Option (Option String) → roles.Store → User → User → Type 0
  IsUpdated dto branch rs u v =
      (v.id ≡ u.id)
      × (v.email ≡ chosen dto.email u.email)
      × (v.password ≡ u.password)
      × (v.is_active ≡ chosen dto.is_active u.is_active)
      × (v.organization_id ≡ u.organization_id)
      × (v.branch_id ≡ changed branch u.branch_id)
      × RolesAre dto.roles rs u.role_ids v.role_ids

  -- The columns alone: the roles stay.
  columns_lem :
      (dto : UpdateUserDto) (branch : Option (Option String)) (org : String) (bs : branches.Store)
      (u m : User)
      → IsResolved dto.branch_id branch org bs
      → m ≡ columns_set secrets users roles branches dto (update_data dto branch) u
      → (m.id ≡ u.id)
        × (m.email ≡ chosen dto.email u.email)
        × (m.password ≡ u.password)
        × (m.is_active ≡ chosen dto.is_active u.is_active)
        × (m.organization_id ≡ u.organization_id)
        × (m.branch_id ≡ changed branch u.branch_id)
        × (m.role_ids ≡ u.role_ids)
  columns_lem dto branch org bs u m resolved e = elim (Bool-cases (has_keys dto)) [
    | inl keys ↦
        let e' = rw keys at e in
        (
          ap (λ x. x.id) e',
          ap (λ x. x.email) e' ∙ value_of-chosen dto.email u.email,
          ap (λ x. x.password) e',
          ap (λ x. x.is_active) e' ∙ value_of-chosen dto.is_active u.is_active,
          ap (λ x. x.organization_id) e',
          ap (λ x. x.branch_id) e' ∙ or_else-changed branch u.branch_id,
          ap (λ x. x.role_ids) e',
        )
    | inr no_keys ↦
        let e' : m ≡ u = rw no_keys at e in
        let no_email : has_key dto.email ≡ false = ground (arith, no_keys) in
        let no_active : has_key dto.is_active ≡ false = ground (arith, no_keys) in
        let no_branch : is_some dto.branch_id ≡ false = ground (arith, no_keys) in
        let same = untouched dto.branch_id branch org bs no_branch resolved in
        (
          ap (λ x. x.id) e',
          ap (λ x. x.email) e' ∙ no_key-chosen dto.email u.email no_email,
          ap (λ x. x.password) e',
          ap (λ x. x.is_active) e' ∙ no_key-chosen dto.is_active u.is_active no_active,
          ap (λ x. x.organization_id) e',
          ap (λ x. x.branch_id) e' ∙ ap (λ c. changed c u.branch_id) (sym same),
          ap (λ x. x.role_ids) e',
        )
  ]
    where
      untouched :
          (wanted change : Option (Option String)) (org : String) (bs : branches.Store)
          → is_some wanted ≡ false
          → IsResolved wanted change org bs
          → change ≡ none
      untouched none change org bs h r = r
      untouched (some x) change org bs h r = absurd (cc)

  pub set-IsUpdated :
      (dto : UpdateUserDto) (branch : Option (Option String)) (org : String) (bs : branches.Store)
      (rs : roles.Store) (u v : User)
      → IsResolved dto.branch_id branch org bs
      → AreSet secrets users roles branches dto.roles rs
          (columns_set secrets users roles branches dto (update_data dto branch) u)
          v
      → IsUpdated dto branch rs u v
  set-IsUpdated dto branch org bs rs u v resolved set = go dto.roles set
    where
      middle : User
      middle = columns_set secrets users roles branches dto (update_data dto branch) u

      Columns : Option (List String) → Type 0
      Columns names =
          (v.id ≡ u.id)
          × (v.email ≡ chosen dto.email u.email)
          × (v.password ≡ u.password)
          × (v.is_active ≡ chosen dto.is_active u.is_active)
          × (v.organization_id ≡ u.organization_id)
          × (v.branch_id ≡ changed branch u.branch_id)
          × RolesAre names rs u.role_ids v.role_ids

      go :
          (names : Option (List String))
          → AreSet secrets users roles branches names rs middle v
          → Columns names
      go none same = columns_lem dto branch org bs u v resolved same
      go (some names) (full, (loaded, named, same)) =
          let (key, mail, word, active, owner, place, _) =
            columns_lem dto branch org bs u middle resolved refl in
          (
            ap (λ x. x.id) same ∙ key,
            ap (λ x. x.email) same ∙ mail,
            ap (λ x. x.password) same ∙ word,
            ap (λ x. x.is_active) same ∙ active,
            ap (λ x. x.organization_id) same ∙ owner,
            ap (λ x. x.branch_id) same ∙ place,
            (full, (loaded, named, ap (λ x. x.role_ids) same)),
          )
