-- ===== src/CashMovements/Repository.antt =====
-- src/cash-movements/cash-movements.repository.ts. Amounts are the decimals of the database client;
-- times are milliseconds since the epoch.
use ops_flow_ms.CashMovements.Transition.{CashMovementStatus, status_eq}
use ops_flow_ms.Db.Single.{update_one}
use ops_flow_ms.Errors.Action.{Action}
use ops_flow_ms.Shared.{Bool, Option, String, leb, none, or_else, some, true, truthy, ℕ, ◌&&◌, ◌==◌}
use ops_flow_ms.Db.{Delegate, threw, done}
use ops_flow_ms.Errors.Result.{Result, err, ok, ◌>>◌}
use ops_flow_ms.Tenancy.{assert_organization_access}
use ops_flow_ms.Errors.{thrown}

-- IN and OUT.
pub data CashMovementType : Type 0 where
  incoming outgoing : CashMovementType

pub record CashMovementRecord (Decimal : Type 0) : Type 0 where
  pub id : String
  pub organization_id : String
  pub branch_id : String
  pub amount : Decimal
  pub currency : String
  pub type : CashMovementType
  pub status : CashMovementStatus
  pub description : Option String
  pub created_by_id : String
  pub approved_by_id : Option String
  pub delivered_by_id : Option String
  pub created_at : ℕ
  pub updated_at : ℕ

pub record CashMovementListFilters : Type 0 where
  pub branch_id : Option String
  pub status : Option CashMovementStatus
  pub from : Option ℕ
  pub to : Option ℕ
  pub page : ℕ
  pub page_size : ℕ

pub record CashMovementCreateInput (Decimal : Type 0) : Type 0 where
  pub branch_id : String
  pub amount : Decimal
  pub currency : String
  pub type : CashMovementType
  pub description : Option String
  pub created_by_id : String
  pub status : CashMovementStatus

-- An actor is left as it is where the field is undefined (`none`), and set, to null or to a user,
-- where it is not.
pub record CashMovementStatusUpdateInput : Type 0 where
  pub status : CashMovementStatus
  pub approved_by_id : Option (Option String)
  pub delivered_by_id : Option (Option String)

abbrev pub at_least : Option ℕ → ℕ → Bool
at_least none time = true
at_least (some from) time = leb from time

abbrev pub at_most : Option ℕ → ℕ → Bool
at_most none time = true
at_most (some to) time = leb time to

abbrev pub has_branch : Option String → String → Bool
has_branch none branch = true
has_branch (some wanted) branch = branch == wanted

abbrev has_status : Option CashMovementStatus → CashMovementStatus → Bool
has_status none status = true
has_status (some wanted) status = status_eq status wanted

module _ {Decimal : Type 0} where
  abbrev pub movement_id : CashMovementRecord Decimal → String
  movement_id m = m.id

  -- The movement, if it is there and belongs to the organization; one of another one throws.
  abbrev pub scoped :
      String → Option (CashMovementRecord Decimal) → Result (Option (CashMovementRecord Decimal))
  scoped organization_id none = ok none
  scoped organization_id (some movement) = do
    assert_organization_access movement.organization_id organization_id
    ok (some movement)

  -- The new row's `updated_at` is set by the client.
  abbrev pub apply_status :
      ℕ → CashMovementStatusUpdateInput → CashMovementRecord Decimal → CashMovementRecord Decimal
  apply_status now input movement = record movement {
    status = input.status;
    approved_by_id = or_else input.approved_by_id movement.approved_by_id;
    delivered_by_id = or_else input.delivered_by_id movement.delivered_by_id;
    updated_at = now;
  }

  -- The condition that `buildWhereInput` states.
  abbrev pub build_where_input :
      String → CashMovementListFilters → CashMovementRecord Decimal → Bool
  build_where_input organization_id filters movement =
      movement.organization_id == organization_id
      && has_branch (truthy filters.branch_id) movement.branch_id
      && has_status filters.status movement.status
      && at_least filters.from movement.created_at
      && at_most filters.to movement.created_at

module _ {Decimal : Type 0} (mv : Delegate (movement_id {Decimal = Decimal})) where
  unfoldable pub find_by_id :
      String → String → mv.Store → Result (Option (CashMovementRecord Decimal))
  find_by_id organization_id id s = scoped organization_id (mv.find id s)

  -- The database chooses the id and the times of the new row.
  unfoldable pub create :
      String
      → ℕ
      → String
      → CashMovementCreateInput Decimal
      → Action mv.Store (CashMovementRecord Decimal)
  create uuid now organization_id input s =
      let row : CashMovementRecord Decimal = record {
        id = uuid;
        organization_id = organization_id;
        branch_id = input.branch_id;
        amount = input.amount;
        currency = input.currency;
        type = input.type;
        status = input.status;
        description = input.description;
        created_by_id = input.created_by_id;
        approved_by_id = none;
        delivered_by_id = none;
        created_at = now;
        updated_at = now;
      } in
      elim (mv.create row s) [ done t ↦ (ok row, t) | threw e ↦ (err (thrown e), s) ]

  unfoldable pub update_status :
      ℕ → String → CashMovementStatusUpdateInput → Action mv.Store (CashMovementRecord Decimal)
  update_status now id input s = elim (update_one mv id (apply_status now input) s) [
    | done (row, t) ↦ (ok row, t)
    | threw e ↦ (err (thrown e), s)
  ]
