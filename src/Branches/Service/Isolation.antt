-- ===== src/Branches/Service/Isolation.antt =====
-- What the operations on branches leave alone, and what they answer on every branch.
use mathlib.Core.Option
use ops_flow_ms.Branches.Repository.{
  BranchRecord, branch_id, find_by_id, apply_update, BranchUpdateInput,
}
use ops_flow_ms.Branches.Repository
use ops_flow_ms.Branches.Service.{CreateBranchDto, UpdateBranchDto, create, update, find_one}
use ops_flow_ms.AuthContext.{AuthenticatedUserContext}
use ops_flow_ms.Db.{Delegate, Outcome-cases, threw, done}
use ops_flow_ms.Db.Isolation.{Isolates, Isolates-refl, create-Isolates, update_many-Isolates}
use ops_flow_ms.Shared.{
  Option-cases, String, arith, eq_iff, inl, inr, some, ◌≡◌, or_else, refl, subst, sym,
  to_upper_case, trim, true, Bool, Bool-cases, ap, beq_of_eq, eq_of_beq, ne_of_beq, none, ◌==◌, ◌∙◌,
  ◌≢◌,
}
use ops_flow_ms.Tenancy.{assert_organization_access}
use ops_flow_ms.Errors.Result.{ok, err}
use ops_flow_ms.Errors.{Thrown, branch_not_found, not_found, resource_not_found, thrown}

abbrev pub organization : BranchRecord → String
organization b = b.organization_id

-- The row that `create` writes.
abbrev created_row : String → CreateBranchDto → AuthenticatedUserContext → BranchRecord
created_row uuid dto u = record {
  id = uuid;
  organization_id = u.organization_id;
  name = trim dto.name;
  code = to_upper_case (trim dto.code);
  is_active = or_else dto.is_active true;
}

module _ (db : Delegate branch_id) where
  find_one_sound :
      (id : String) (u : AuthenticatedUserContext) (s : db.Store) (b : BranchRecord)
      → find_one db id u s ≡ ok b
      → (db.find id s ≡ some b) × (b.organization_id ≡ u.organization_id)
  unfolding find_one assert_organization_access
  find_one_sound id u s b e = elim (Option-cases (db.find id s)) [
    | inl missing ↦ ground arith
    | inr (row, found) ↦ ground (arith, eq_iff row.organization_id u.organization_id)
  ]

  -- Whatever creating a branch answers, the branches of other organizations stay as they are.
  pub create-Isolates_branches :
      (uuid : String) (dto : CreateBranchDto) (u : AuthenticatedUserContext) (s : db.Store)
      → Isolates db organization u.organization_id s (create db uuid dto u s).1
  unfolding create
  create-Isolates_branches uuid dto u s =
      elim (Outcome-cases (db.create (created_row uuid dto u) s)) [
        | inl (t, e) ↦
            let after : (create db uuid dto u s).1 ≡ t = rw (e, create, Repository.create) in
            subst (Isolates db organization u.organization_id s) (sym after) (
              create-Isolates db organization u.organization_id (created_row uuid dto u) s t refl e)
        | inr (error, e) ↦
            let after : (create db uuid dto u s).1 ≡ s = rw (e, create, Repository.create) in
            subst (Isolates db organization u.organization_id s) (sym after)
              (Isolates-refl db organization u.organization_id s)
      ]

  abbrev pub input_of : UpdateBranchDto → BranchUpdateInput
  input_of dto = record { name = Option.map trim dto.name; is_active = dto.is_active }

  abbrev pub by_id : String → BranchRecord → Bool
  by_id id b = b.id == id

  update_missing :
      (id : String) (dto : UpdateBranchDto) (u : AuthenticatedUserContext) (s : db.Store)
      → db.find id s ≡ none
      → update db id dto u s ≡ (err (not_found branch_not_found), s)
  unfolding update
  update_missing id dto u s missing = ground arith

  update_foreign :
      (id : String) (dto : UpdateBranchDto) (u : AuthenticatedUserContext) (s : db.Store)
      (row : BranchRecord)
      → db.find id s ≡ some row
      → row.organization_id ≢ u.organization_id
      → update db id dto u s ≡ (err (not_found resource_not_found), s)
  unfolding update assert_organization_access
  update_foreign id dto u s row found other =
      ground (arith, eq_iff row.organization_id u.organization_id)

  update_own :
      (id : String) (dto : UpdateBranchDto) (u : AuthenticatedUserContext) (s t : db.Store)
      (row : BranchRecord)
      → db.find id s ≡ some row
      → row.organization_id ≡ u.organization_id
      → db.update_many (by_id id) (apply_update (input_of dto)) s ≡ done t
      → update db id dto u s ≡ (ok (apply_update (input_of dto) row), t)
  unfolding update assert_organization_access
  update_own id dto u s t row found own e =
      ground (arith, eq_iff row.organization_id u.organization_id)

  update_rejected :
      (id : String) (dto : UpdateBranchDto) (u : AuthenticatedUserContext) (s : db.Store)
      (row : BranchRecord) (error : Thrown)
      → db.find id s ≡ some row
      → row.organization_id ≡ u.organization_id
      → db.update_many (by_id id) (apply_update (input_of dto)) s ≡ threw error
      → update db id dto u s ≡ (err (thrown error), s)
  unfolding update assert_organization_access
  update_rejected id dto u s row error found own e =
      ground (arith, eq_iff row.organization_id u.organization_id)

  update_row :
      (id : String) (dto : UpdateBranchDto) (s t : db.Store) (row : BranchRecord)
      → db.find id s ≡ some row
      → db.update_many (by_id id) (apply_update (input_of dto)) s ≡ done t
      → db.find id t ≡ some (apply_update (input_of dto) row)
  update_row id dto s t row found e =
      let law =
        rw found at
          (db.find-update_many (by_id id) (apply_update (input_of dto)) s id (λ r. refl) e) in
      let key = beq_of_eq row.id id (db.find_id id s found) in law ∙ (rw key)

  inside :
      (id : String) (s : db.Store) (row : BranchRecord) (org : String)
      → db.find id s ≡ some row
      → row.organization_id ≡ org
      → (r : BranchRecord) → db.find r.id s ≡ some r
      → by_id id r ≡ true
      → r.organization_id ≡ org
  inside id s row org found own r here key =
      let here' : db.find id s ≡ some r =
        subst (λ x. db.find x s ≡ some r) (eq_of_beq r.id id key) here in
      let same : row ≡ r = cc in ap organization (sym same) ∙ own

  -- Updating a branch answers 404 BRANCH_NOT_FOUND for an id that is not there and 404
  -- RESOURCE_NOT_FOUND for one of another organization, and writes nothing then; for a branch of
  -- the organization it writes the given name, trimmed, and the given activity, and returns the
  -- row that is then stored, if the database carries the write out.
  pub update_outcome :
      (id : String) (dto : UpdateBranchDto) (u : AuthenticatedUserContext) (s : db.Store)
      → (db.find id s ≡ none → update db id dto u s ≡ (err (not_found branch_not_found), s))
        × ((row : BranchRecord)
            → db.find id s ≡ some row
            → (row.organization_id ≢ u.organization_id
                → update db id dto u s ≡ (err (not_found resource_not_found), s))
              × ((t : db.Store)
                  → row.organization_id ≡ u.organization_id
                  → db.update_many (by_id id) (apply_update (input_of dto)) s ≡ done t
                  → (update db id dto u s ≡ (ok (apply_update (input_of dto) row), t))
                    × (db.find id t ≡ some (apply_update (input_of dto) row))))
  update_outcome id dto u s = (
    update_missing id dto u s,
    λ row found. (
      update_foreign id dto u s row found,
      λ t own e. (update_own id dto u s t row found own e, update_row id dto s t row found e),
    ),
  )

  -- Whatever updating a branch answers, the branches of other organizations stay as they are.
  pub update-Isolates_branches :
      (id : String) (dto : UpdateBranchDto) (u : AuthenticatedUserContext) (s : db.Store)
      → Isolates db organization u.organization_id s (update db id dto u s).1
  update-Isolates_branches id dto u s =
      let org = u.organization_id in
      let stays = λ (p : (update db id dto u s).1 ≡ s).
        subst (Isolates db organization org s) (sym p) (Isolates-refl db organization org s) in
      elim (Option-cases (db.find id s)) [
        | inl missing ↦ stays (ap (λ x. x.1) (update_missing id dto u s missing))
        | inr (row, found) ↦ elim (Bool-cases (row.organization_id == org)) [
          | inr other ↦
              stays (ap (λ x. x.1) (update_foreign id dto u s row found (ne_of_beq _ _ other)))
          | inl same ↦
              elim (Outcome-cases (db.update_many (by_id id) (apply_update (input_of dto)) s)) [
                | inr (error, e) ↦ stays (
                    ap (λ x. x.1)
                      (update_rejected id dto u s row error found (eq_of_beq _ _ same) e))
                | inl (t, e) ↦
                    subst (Isolates db organization org s)
                      (sym
                        (ap (λ x. x.1) (update_own id dto u s t row found (eq_of_beq _ _ same) e)))
                      (update_many-Isolates db organization org (by_id id)
                        (apply_update (input_of dto)) s t (λ r. refl) (λ r. refl)
                        (inside id s row org found (eq_of_beq _ _ same)) e)
              ]
        ]
      ]
