-- ===== src/Branches/Service.antt =====
-- src/branches/branches.service.ts, over the delegate of the branch table.
pub mod Isolation
use mathlib.Core.Option
use ops_flow_ms.Branches.Repository.{
  BranchRecord, BranchUpdateInput, BranchCreateInput, branch_id, find_by_id,
}
use ops_flow_ms.Branches.Repository
use ops_flow_ms.Errors.Action.{Action}
use ops_flow_ms.AuthContext.{AuthenticatedUserContext}
use ops_flow_ms.Shared.{
  Bool, List, Option, String, if◌then◌else◌, or_else, to_upper_case, trim, true,
}
use ops_flow_ms.Db.{Delegate}
use ops_flow_ms.Errors.{
  Failure, branch_code_already_exists, branch_not_found, forbidden, is_unique_code_violation,
  not_found, thrown,
}
use ops_flow_ms.Errors.Result.{Result, err, ok, or_throw, ◌>>=◌, ◌>>◌}

pub record CreateBranchDto : Type 0 where
  pub name : String
  pub code : String
  pub is_active : Option Bool

pub record UpdateBranchDto : Type 0 where
  pub name : Option String
  pub is_active : Option Bool

-- The `catch` of `create`.
abbrev translate_error : Failure → Failure
translate_error (thrown e) =
    if is_unique_code_violation e then forbidden branch_code_already_exists else thrown e
translate_error e = e

abbrev catch_create : Result BranchRecord → Result BranchRecord
catch_create (ok branch) = ok branch
catch_create (err e) = err (translate_error e)

module _ (db : Delegate branch_id) where
  unfoldable pub find_all : Option Bool → AuthenticatedUserContext → db.Store → List BranchRecord
  unfolding Repository.list
  find_all include_inactive current_user s =
      Repository.list db current_user.organization_id include_inactive s

  unfoldable pub find_one : String → AuthenticatedUserContext → db.Store → Result BranchRecord
  unfolding find_by_id
  find_one id current_user s = do
    branch ← find_by_id db current_user.organization_id id s
    or_throw branch (not_found branch_not_found)

  unfoldable pub create :
      String → CreateBranchDto → AuthenticatedUserContext → Action db.Store BranchRecord
  unfolding Repository.create
  create uuid dto current_user s =
      let input : BranchCreateInput = record {
        name = trim dto.name;
        code = to_upper_case (trim dto.code);
        is_active = or_else dto.is_active true;
      } in
      let (r, t) = Repository.create db uuid current_user.organization_id input s in
      (catch_create r, t)

  abbrev updated : Result (Option BranchRecord) → Result BranchRecord
  updated (ok branch) = or_throw branch (not_found branch_not_found)
  updated (err e) = err e

  unfoldable pub update :
      String → UpdateBranchDto → AuthenticatedUserContext → Action db.Store BranchRecord
  unfolding find_one Repository.update
  update id dto current_user s =
      let input : BranchUpdateInput = record {
        name = Option.map trim dto.name;
        is_active = dto.is_active;
      } in
      elim (find_one id current_user s) [
        | err e ↦ (err e, s)
        | ok _ ↦
            let (r, t) = Repository.update db current_user.organization_id id input s in
            (updated r, t)
      ]
