-- ===== src/Branches/Repository.antt =====
-- src/branches/branches.repository.ts. The ordering of a listing by name is left to the client.
use ops_flow_ms.Shared.{String, Bool, Option, or_else, ◌==◌, List, ◌&&◌, false, some, ◌||◌, none}
use ops_flow_ms.Db.{Delegate, done, threw}
use ops_flow_ms.Errors.Result.{Result, ok, err, ◌>>◌}
use ops_flow_ms.Errors.Action.{Action}
use ops_flow_ms.Errors.{thrown}
use ops_flow_ms.Tenancy.{assert_organization_access}

pub record BranchRecord : Type 0 where
  pub id : String
  pub organization_id : String
  pub name : String
  pub code : String
  pub is_active : Bool

pub record BranchCreateInput : Type 0 where
  pub name : String
  pub code : String
  pub is_active : Bool

pub record BranchUpdateInput : Type 0 where
  pub name : Option String
  pub is_active : Option Bool

abbrev pub branch_id : BranchRecord → String
branch_id b = b.id

-- The branch, if it is there and belongs to the organization; one of another organization throws.
abbrev pub scoped : String → Option BranchRecord → Result (Option BranchRecord)
scoped organization_id none = ok none
scoped organization_id (some branch) = do
  assert_organization_access branch.organization_id organization_id
  ok (some branch)

abbrev pub apply_update : BranchUpdateInput → BranchRecord → BranchRecord
apply_update input branch = record branch {
  name = or_else input.name branch.name;
  is_active = or_else input.is_active branch.is_active;
}

-- `include_inactive` undefined or false keeps the active branches only.
abbrev list_where : String → Option Bool → BranchRecord → Bool
list_where organization_id include_inactive branch =
    branch.organization_id == organization_id
    && (or_else include_inactive false || branch.is_active)

module _ (db : Delegate branch_id) where
  unfoldable pub find_by_id : String → String → db.Store → Result (Option BranchRecord)
  find_by_id organization_id id s = scoped organization_id (db.find id s)

  unfoldable pub list : String → Option Bool → db.Store → List BranchRecord
  list organization_id include_inactive s =
      db.find_many (list_where organization_id include_inactive) s

  -- The database chooses the new row's id.
  unfoldable pub create : String → String → BranchCreateInput → Action db.Store BranchRecord
  create uuid organization_id input s =
      let row : BranchRecord = record {
        id = uuid;
        organization_id = organization_id;
        name = input.name;
        code = input.code;
        is_active = input.is_active;
      } in
      elim (db.create row s) [ done t ↦ (ok row, t) | threw e ↦ (err (thrown e), s) ]

  -- `update` of one row by its id, after the scope check; null if there is no such branch.
  unfoldable pub update :
      String → String → BranchUpdateInput → Action db.Store (Option BranchRecord)
  unfolding find_by_id
  update organization_id id input s = elim (find_by_id organization_id id s) [
    | err e ↦ (err e, s)
    | ok none ↦ (ok none, s)
    | ok (some branch) ↦ elim (db.update_many (λ b. b.id == id) (apply_update input) s) [
      | done t ↦ (ok (some (apply_update input branch)), t)
      | threw e ↦ (err (thrown e), s)
    ]
  ]
