-- ===== src/CashMovements/Tests/Histories.antt =====
-- The theorems on writes, histories and listings of movements at the same table.
use ops_flow_ms.CashMovements.Repository.{create as create_row}
use ops_flow_ms.CashMovements.Service.{approve, deliver, prepare_create}
use ops_flow_ms.Branches.Access.{resolve_branch_for_create}
use ops_flow_ms.Shared.{trim, List}
use ops_flow_ms.Branches.Tests.{foreign, branch_table, two_branches, ana}
use ops_flow_ms.CashMovements.Tests.{numbers, movements, waiting, theirs, table}
use ops_flow_ms.Branches.Repository.{find_by_id as find_branch}
use ops_flow_ms.Branches.Access.{
  own_branch, assert_branch_exists_in_organization, resolve_branch_for_filter,
  assert_branch_accessible,
}
use ops_flow_ms.Db.Single.{update_one}
use ops_flow_ms.Tenancy.{assert_organization_access}
use ops_flow_ms.CashMovements.Repository.{
  find_by_id, update_status, CashMovementCreateInput, incoming,
}
use ops_flow_ms.CashMovements.Transition.{
  approved, is_valid_cash_movement_transition, delivered, rejected,
}
use ops_flow_ms.CashMovements.Service.{create, transition, check_transition, write_transition}
use ops_flow_ms.CashMovements.Service.Checks.{MayTransition}
use ops_flow_ms.CashMovements.Service.Writes.{patched, transition_sound, WasMoved, IsShown}
use ops_flow_ms.CashMovements.Service.Creation.{IsPrepared, new_row, create_outcome}
use ops_flow_ms.CashMovements.Service.Lifecycle.{
  AllRecorded, IsRecorded, History, creation, approval, delivery, perform_all,
  perform_all-AllRecorded, perform,
}
use ops_flow_ms.CashMovements.Service.Isolation.{perform_all-Isolates}
use ops_flow_ms.CashMovements.Service.Race.{
  interleaving_breaks_workflow, CarriesOut, interleave, BothDone,
}
use ops_flow_ms.CashMovements.Input.{
  Movement, approved_by, map_movement, CreateCashMovementDto, delivered_by, CashMovementResponse,
}
use ops_flow_ms.Shared.{
  String, [], refl, some, ◌∷◌, ◌≡◌, ◌≢◌, arith, inl, inr, none, subst, ℕ, ◌↔◌, ◌⊎◌,
}
use ops_flow_ms.Tenancy.{assert_organization_access}
use ops_flow_ms.Errors.Result.{ok, err, Result}
use ops_flow_ms.Db.Single.{update_one}
use ops_flow_ms.Errors.{Failure, cashflow_invalid_transition, conflict}
use ops_flow_ms.Db.{done}

abbrev after_approval : Movement numbers
after_approval = patched numbers branch_table movements 5 approved approved_by ana waiting

approves :
    transition numbers branch_table movements 5 "m1" approved approved_by ana two_branches table
    ≡ (ok (map_movement numbers after_approval), after_approval ∷ theirs ∷ [])
unfolding transition check_transition write_transition find_by_id update_status update_one
    assert_branch_accessible resolve_branch_for_filter own_branch
    assert_branch_exists_in_organization find_branch assert_organization_access
    is_valid_cash_movement_transition
approves = refl

transition_sound_example :
    (m : Movement numbers) × (m' : Movement numbers) × MayTransition numbers branch_table movements
      "m1" approved ana two_branches table m
    × WasMoved numbers branch_table movements 5 approved approved_by "u1" m m'
    × IsShown numbers branch_table movements m' (map_movement numbers after_approval)
    × (movements.find "m1" (after_approval ∷ theirs ∷ []) ≡ some m')
    × ((j : String)
        → j ≢ "m1"
        → movements.find j (after_approval ∷ theirs ∷ []) ≡ movements.find j table)
transition_sound_example =
    transition_sound numbers branch_table movements 5 "m1" approved approved_by ana two_branches
      table (after_approval ∷ theirs ∷ []) (map_movement numbers after_approval) approves

refuses :
    transition numbers branch_table movements 5 "m1" delivered delivered_by ana two_branches table
    ≡ (
      err (conflict cashflow_invalid_transition (record { from = "PENDING"; to = "DELIVERED" })),
      table,
    )
unfolding transition check_transition find_by_id assert_branch_accessible resolve_branch_for_filter
    own_branch assert_branch_exists_in_organization find_branch assert_organization_access
    is_valid_cash_movement_transition
refuses = refl

abbrev ten_pesos : CreateCashMovementDto
ten_pesos = record {
  type = incoming;
  amount = "10";
  branch_id = none;
  currency = none;
  description = some "Till";
}

create_outcome_example :
    let (r, t) = create numbers branch_table movements "m3" 4 ten_pesos ana two_branches table in
    ((e : Failure) × (r ≡ err e) × (t ≡ table))
    ⊎ ((input : CashMovementCreateInput ℕ) × IsPrepared numbers branch_table movements ten_pesos ana
          two_branches input
        × (r ≡ ok (map_movement numbers (new_row numbers branch_table movements "m3" 4 ana input)))
        × (movements.create (new_row numbers branch_table movements "m3" 4 ana input) table
            ≡ done t))
create_outcome_example =
    create_outcome numbers branch_table movements "m3" 4 ten_pesos ana two_branches table

table_cases :
    (k : String) (m : Movement numbers)
    → movements.find k table ≡ some m
    → (waiting ≡ m) ⊎ (theirs ≡ m)
table_cases k m e = ground arith

table-AllRecorded : AllRecorded numbers branch_table movements table
table-AllRecorded k m e = elim (table_cases k m e) [
  | inl is ↦ subst (IsRecorded numbers branch_table movements) is (refl, refl)
  | inr is ↦ subst (IsRecorded numbers branch_table movements) is (refl, refl)
]

abbrev day : History numbers branch_table movements
day =
    (4, ana, two_branches, creation "m3" ten_pesos)
    ∷ (5, ana, two_branches, approval "m1")
    ∷ (6, ana, two_branches, delivery "m1")
    ∷ []

abbrev after_delivery : Movement numbers
after_delivery = patched numbers branch_table movements 6 delivered delivered_by ana after_approval

delivers :
    movements.find "m1" (perform_all numbers branch_table movements day table) ≡ some after_delivery
unfolding perform_all perform create approve deliver create_row prepare_create
    resolve_branch_for_create transition check_transition write_transition find_by_id update_status
    update_one assert_branch_accessible resolve_branch_for_filter own_branch
    assert_branch_exists_in_organization find_branch assert_organization_access
    is_valid_cash_movement_transition trim
delivers = refl

perform_all-AllRecorded_example : IsRecorded numbers branch_table movements after_delivery
perform_all-AllRecorded_example =
    perform_all-AllRecorded numbers branch_table movements day table table-AllRecorded "m1"
      after_delivery delivers

perform_all-Isolates_example :
    (movements.find "m2" table ≡ some theirs)
    ↔ (movements.find "m2" (perform_all numbers branch_table movements day table) ≡ some theirs)
perform_all-Isolates_example =
    perform_all-Isolates numbers branch_table movements "globex" day table "m2" theirs
      (foreign, (foreign, (foreign, tt))) refl

abbrev after_rejection : Movement numbers
after_rejection = patched numbers branch_table movements 6 rejected approved_by ana after_approval

always : CarriesOut numbers branch_table movements
always p f s = (_, refl)

abbrev raced :
    (Result CashMovementResponse × List (Movement numbers))
    × (Result CashMovementResponse × List (Movement numbers))
raced = interleave numbers branch_table movements 5 6 waiting ana ana table

may_approve :
    check_transition numbers branch_table movements "m1" approved ana two_branches table
    ≡ ok waiting
unfolding check_transition find_by_id assert_branch_accessible resolve_branch_for_filter own_branch
    assert_branch_exists_in_organization find_branch assert_organization_access
    is_valid_cash_movement_transition
may_approve = refl

may_reject :
    check_transition numbers branch_table movements "m1" rejected ana two_branches table
    ≡ ok waiting
unfolding check_transition find_by_id assert_branch_accessible resolve_branch_for_filter own_branch
    assert_branch_exists_in_organization find_branch assert_organization_access
    is_valid_cash_movement_transition
may_reject = refl

interleaving_breaks_workflow_example : BothDone numbers branch_table movements "m1" ana raced
interleaving_breaks_workflow_example =
    interleaving_breaks_workflow numbers branch_table movements always "m1" ana ana two_branches
      table 5 6 waiting may_approve may_reject
