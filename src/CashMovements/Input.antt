-- ===== src/CashMovements/Input.antt =====
-- src/cash-movements/cash-movements.service.ts: what the handlers read and answer. Decimals and dates
-- come from outside the program: `Decimal` with its parser, test and printer, and the parser of
-- dates, are parameters.
use mathlib.Core.Option
use ops_flow_ms.Shared.{
  ceil_div, Bool, Option, String, false, if◌then◌else◌, leb, ltb, none, or_else, some,
  to_upper_case, trim, truthy, ℕ,
}
use ops_flow_ms.CashMovements.Repository.{
  CashMovementRecord, CashMovementStatusUpdateInput, CashMovementType,
}
use ops_flow_ms.CashMovements.Transition.{CashMovementStatus, rejected, status_eq}
use ops_flow_ms.Errors.Result.{Result, ok, or_throw, throw_if, ◌>>=◌, ◌>>◌}
use ops_flow_ms.Errors.{
  bad_request, cash_movements_invalid_amount, cash_movements_invalid_date_range,
}

-- What the service uses of `Prisma.Decimal`.
pub record Decimals : Type 1 where
  pub Decimal : Type 0
  -- none where the constructor throws
  pub parse : String → Option Decimal
  pub lte_zero : Decimal → Bool
  pub to_fixed_2 : Decimal → String

pub record CreateCashMovementDto : Type 0 where
  pub type : CashMovementType
  pub amount : String
  pub branch_id : Option String
  pub currency : Option String
  pub description : Option String

pub record ListCashMovementsDto : Type 0 where
  pub page : Option ℕ
  pub page_size : Option ℕ
  pub branch_id : Option String
  pub status : Option CashMovementStatus
  pub from : Option String
  pub to : Option String

-- The field that records who acted.
pub data ActorField : Type 0 where
  approved_by delivered_by : ActorField

pub record CashMovementResponse : Type 0 where
  pub id : String
  pub organization_id : String
  pub branch_id : String
  pub created_by_id : String
  pub approved_by_id : Option String
  pub delivered_by_id : Option String
  pub type : CashMovementType
  pub status : CashMovementStatus
  pub amount : String
  pub currency : String
  pub description : Option String
  pub created_at : ℕ
  pub updated_at : ℕ

pub record Meta : Type 0 where
  pub page : ℕ
  pub page_size : ℕ
  pub total : ℕ
  pub total_pages : ℕ

abbrev pub page_count : ℕ → ℕ → ℕ
page_count total page_size = if leb total 0 then 0 else ceil_div total page_size

-- `parsedFrom && parsedTo && parsedFrom > parsedTo`
abbrev pub is_reversed : Option ℕ → Option ℕ → Bool
is_reversed (some from) (some to) = ltb to from
is_reversed _ _ = false

-- `parseDateRange`, over the parser of dates; none of the parser is an invalid date.
module _ (parse_date : String → Option ℕ) where
  abbrev parse_bound : Option String → Result (Option ℕ)
  parse_bound none = ok none
  parse_bound (some text') = do
    time ← or_throw (parse_date text') (bad_request cash_movements_invalid_date_range)
    ok (some time)

  unfoldable pub parse_date_range : Option String → Option String → Result (Option ℕ × Option ℕ)
  parse_date_range from to = do
    parsed_from ← parse_bound (truthy from)
    parsed_to ← parse_bound (truthy to)
    throw_if (is_reversed parsed_from parsed_to) (bad_request cash_movements_invalid_date_range)
    ok (parsed_from, parsed_to)

-- What a transition writes: the target status and who acted; a rejection clears the approver.
abbrev pub status_patch : CashMovementStatus → ActorField → String → CashMovementStatusUpdateInput
status_patch target approved_by user = record {
  status = target;
  approved_by_id = some (if status_eq target rejected then none else some user);
  delivered_by_id = none;
}
status_patch target delivered_by user = record {
  status = target;
  approved_by_id = if status_eq target rejected then some none else none;
  delivered_by_id = some (some user);
}

-- `dto.currency?.trim().toUpperCase() || 'ARS'`
abbrev pub currency_of : Option String → String
currency_of currency = or_else (truthy (Option.map (λ c. to_upper_case (trim c)) currency)) "ARS"

-- `dto.description?.trim() || null`
abbrev pub description_of : Option String → Option String
description_of description = truthy (Option.map trim description)

module _ (dec : Decimals) where
  open dec use {Decimal, parse, lte_zero, to_fixed_2}

  abbrev pub Movement : Type 0
  Movement = CashMovementRecord Decimal

  abbrev pub map_movement : Movement → CashMovementResponse
  map_movement m = record {
    id = m.id;
    organization_id = m.organization_id;
    branch_id = m.branch_id;
    created_by_id = m.created_by_id;
    approved_by_id = m.approved_by_id;
    delivered_by_id = m.delivered_by_id;
    type = m.type;
    status = m.status;
    amount = to_fixed_2 m.amount;
    currency = m.currency;
    description = m.description;
    created_at = m.created_at;
    updated_at = m.updated_at;
  }

  abbrev pub parse_amount : String → Result Decimal
  parse_amount amount = or_throw (parse amount) (bad_request cash_movements_invalid_amount)
