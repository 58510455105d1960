-- ===== src/CashMovements/Service.antt =====
-- src/cash-movements/cash-movements.service.ts: the handlers, over the delegates of the branch and the
-- movement table.
pub mod Checks
pub mod Writes
pub mod Creation
pub mod Lifecycle
pub mod Isolation
pub mod Race
pub mod Paging
use ops_flow_ms.Branches.Repository.{branch_id}
use ops_flow_ms.Branches.Access.{
  resolve_branch_for_create, resolve_branch_for_filter, assert_branch_accessible,
}
use ops_flow_ms.CashMovements.Repository.{
  CashMovementRecord, CashMovementCreateInput, CashMovementStatusUpdateInput,
  CashMovementListFilters, CashMovementType, movement_id, build_where_input, find_by_id,
  update_status,
}
use ops_flow_ms.CashMovements.Repository
use ops_flow_ms.CashMovements.Transition.{
  CashMovementStatus, pending, approved, rejected, delivered, status_eq,
  is_valid_cash_movement_transition, status_text,
}
use ops_flow_ms.Errors.Action.{Action}
use ops_flow_ms.Db.Pages.{Pages}
use mathlib.Core.Option
use ops_flow_ms.Shared.{
  Bool, Option, String, false, if◌then◌else◌, leb, ltb, none, or_else, some, to_upper_case, trim,
  truthy, ℕ, ◌+◌, ◌-◌, ◌/◌, List, map, not, ◌*◌,
}
use ops_flow_ms.Errors.Result.{Result, ok, or_throw, throw_if, ◌>>=◌, ◌>>◌, err}
use ops_flow_ms.AuthContext.{AuthenticatedUserContext}
use ops_flow_ms.Db.{Delegate}
use ops_flow_ms.CashMovements.Input.{
  ActorField, CashMovementResponse, CreateCashMovementDto, Decimals, ListCashMovementsDto, Meta,
  Movement, approved_by, currency_of, delivered_by, description_of, map_movement, page_count,
  parse_amount, parse_date_range, status_patch,
}
use ops_flow_ms.Errors.{
  bad_request, cash_movements_invalid_amount, cashflow_invalid_transition, conflict, not_found,
  resource_not_found,
}

module _ (dec : Decimals) where
  open dec use {Decimal, lte_zero}

  module _ (db : Delegate branch_id) (mv : Delegate (movement_id {Decimal = Decimal})) where
    -- The part of `create` before the write: the branch and the amount are checked.
    unfoldable pub prepare_create :
        CreateCashMovementDto
        → AuthenticatedUserContext
        → db.Store
        → Result (CashMovementCreateInput Decimal)
    prepare_create dto current_user b = do
      branch ← resolve_branch_for_create db b current_user dto.branch_id
      amount ← parse_amount dec dto.amount
      throw_if (lte_zero amount) (bad_request cash_movements_invalid_amount)
      ok (record {
        branch_id = branch;
        amount = amount;
        currency = currency_of dto.currency;
        type = dto.type;
        description = description_of dto.description;
        created_by_id = current_user.id;
        status = pending;
      })

    abbrev pub answer : Result (Movement dec) × mv.Store → Result CashMovementResponse × mv.Store
    answer (r, t) = ((do movement ← r; ok (map_movement dec movement)), t)

    unfoldable pub create :
        String
        → ℕ
        → CreateCashMovementDto
        → AuthenticatedUserContext
        → db.Store
        → Action mv.Store CashMovementResponse
    create uuid now dto current_user b s = elim (prepare_create dto current_user b) [
      | err e ↦ (err e, s)
      | ok input ↦ answer (Repository.create mv uuid now current_user.organization_id input s)
    ]

    -- The part of `transition` before the write: the movement is found and the checks are made.
    unfoldable pub check_transition :
        String
        → CashMovementStatus
        → AuthenticatedUserContext
        → db.Store
        → mv.Store
        → Result (Movement dec)
    check_transition id target current_user b s = do
      found ← find_by_id mv current_user.organization_id id s
      movement ← or_throw found (not_found resource_not_found)
      assert_branch_accessible db b current_user movement.branch_id
      throw_if (not (is_valid_cash_movement_transition movement.status target)) (
          conflict cashflow_invalid_transition
            (record { from = status_text movement.status; to = status_text target }))
      ok movement

    -- The write that follows, at whatever the table holds by then.
    unfoldable pub write_transition :
        ℕ
        → Movement dec
        → CashMovementStatus
        → ActorField
        → AuthenticatedUserContext
        → Action mv.Store CashMovementResponse
    write_transition now movement target actor_field current_user s =
        answer
          (update_status mv now movement.id (status_patch target actor_field current_user.id) s)

    unfoldable pub transition :
        ℕ
        → String
        → CashMovementStatus
        → ActorField
        → AuthenticatedUserContext
        → db.Store
        → Action mv.Store CashMovementResponse
    transition now id target actor_field current_user b s =
        elim (check_transition id target current_user b s) [
          | err e ↦ (err e, s)
          | ok movement ↦ write_transition now movement target actor_field current_user s
        ]

    module _ (now : ℕ) (id : String) (current_user : AuthenticatedUserContext) (b : db.Store) where
      unfoldable pub approve : Action mv.Store CashMovementResponse
      approve = transition now id approved approved_by current_user b

      unfoldable pub reject : Action mv.Store CashMovementResponse
      reject = transition now id rejected approved_by current_user b

      unfoldable pub deliver : Action mv.Store CashMovementResponse
      deliver = transition now id delivered delivered_by current_user b

    unfoldable pub find_all :
        (String → Option ℕ)
        → Pages mv
        → ListCashMovementsDto
        → AuthenticatedUserContext
        → db.Store
        → mv.Store
        → Result (List CashMovementResponse × Meta)
    find_all parse_date pages query current_user b s = do
      (from, to) ← parse_date_range parse_date query.from query.to
      branch ← resolve_branch_for_filter db b current_user query.branch_id
      let page = or_else query.page 1
      let page_size = or_else query.page_size 20
      let where' = build_where_input current_user.organization_id (record {
        branch_id = branch;
        status = query.status;
        from = from;
        to = to;
        page = page;
        page_size = page_size;
      })
      let total = pages.count where' s
      ok (
        map (map_movement dec) (pages.find_page where' ((page - 1) * page_size) page_size s),
        record {
          page = page;
          page_size = page_size;
          total = total;
          total_pages = page_count total page_size;
        },
      )
