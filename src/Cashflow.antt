-- ===== src/Cashflow.antt =====
-- src/cashflow/cashflow.service.ts. The aggregate queries of the database client are a parameter, as
-- are its decimals; dates are milliseconds since the epoch, all later than thirty days after it.
pub mod Stats
mod Tests
use ops_flow_ms.Branches.Repository.{branch_id}
use ops_flow_ms.Branches.Access.{resolve_branch_for_filter}
use ops_flow_ms.CashMovements.Repository.{
  CashMovementRecord, CashMovementType, incoming, outgoing, movement_id, at_least, at_most,
  has_branch,
}
use ops_flow_ms.CashMovements.Transition.{
  CashMovementStatus, status_eq, approved, delivered, pending, rejected,
}
use ops_flow_ms.CashMovements.Input.{is_reversed}
use ops_flow_ms.AuthContext.{AuthenticatedUserContext}
use ops_flow_ms.Shared.{
  Bool, List, Option, String, [], false, if◌then◌else◌, none, or_else, some, true, truthy, ℕ, ◌&&◌,
  ◌*◌, ◌+◌, ◌-◌, ◌==◌, ◌∷◌, ◌≡◌,
}
use ops_flow_ms.Db.{Delegate}
use ops_flow_ms.Errors.Result.{Result, ok, or_throw, throw_if, ◌>>=◌, ◌>>◌}
use ops_flow_ms.Errors.{bad_request, stats_invalid_date_range}

pub record CashflowStatsQueryDto : Type 0 where
  pub branch_id : Option String
  pub from : Option String
  pub to : Option String

pub record CashflowCards : Type 0 where
  pub total_in : String
  pub total_out : String
  pub net : String
  pub pending_count : ℕ
  pub approved_count : ℕ
  pub delivered_count : ℕ
  pub rejected_count : ℕ

pub record CashflowStats : Type 0 where
  pub from : Option ℕ
  pub to : Option ℕ
  pub branch_id : Option String
  pub cards : CashflowCards

-- What the service uses of `Prisma.Decimal`.
pub record DecimalSums : Type 1 where
  pub Decimal : Type 0
  pub zero_decimal : Decimal
  pub minus : Decimal → Decimal → Decimal
  pub to_fixed_2 : Decimal → String

abbrev pub count_where : {A : Type 0} → (A → Bool) → List A → ℕ
count_where p [] = 0
count_where p (x ∷ xs) = (if p x then 1 else 0) + count_where p xs

-- `aggregate` and `count` over one snapshot of the table, the rows of which are `all`.
pub record Aggregates {Row : Type 0} {id : Row → String} (db : Delegate id) (Sum : Type 0)
    : Type 0 where
  -- none where no row matches
  pub sum_amount : (Row → Bool) → db.Store → Option Sum
  pub count : (Row → Bool) → db.Store → ℕ
  pub all : db.Store → List Row
  pub count_all : (p : Row → Bool) (s : db.Store) → count p s ≡ count_where p (all s)

abbrev day_ms : ℕ
day_ms = 24 * 60 * 60 * 1000

abbrev default_range_days : ℕ
default_range_days = 30

abbrev is_type : CashMovementType → CashMovementType → Bool
is_type incoming incoming = true
is_type outgoing outgoing = true
is_type _ _ = false

module _ (parse_date : String → Option ℕ) where
  abbrev pub parse_bound : Option String → Result (Option ℕ)
  parse_bound none = ok none
  parse_bound (some text') = do
    time ← or_throw (parse_date text') (bad_request stats_invalid_date_range)
    ok (some time)

  abbrev pub or_default : ℕ → Option ℕ → Option ℕ → Option ℕ × Option ℕ
  or_default now none none = (some (now - default_range_days * day_ms), some now)
  or_default now from to = (from, to)

  unfoldable pub resolve_range : ℕ → Option String → Option String → Result (Option ℕ × Option ℕ)
  resolve_range now from to = do
    parsed_from ← parse_bound (truthy from)
    parsed_to ← parse_bound (truthy to)
    throw_if (is_reversed parsed_from parsed_to) (bad_request stats_invalid_date_range)
    ok (or_default now parsed_from parsed_to)

  module _ (dec : DecimalSums) (db : Delegate branch_id)
      (mv : Delegate (movement_id {Decimal = dec.Decimal})) (sums : Aggregates mv dec.Decimal) where
    open dec use {Decimal, zero_decimal, minus, to_fixed_2}

    -- The condition that all the queries share.
    abbrev pub stats_where :
        String → Option String → Option ℕ → Option ℕ → CashMovementRecord Decimal → Bool
    stats_where organization_id branch from to m =
        m.organization_id == organization_id
        && has_branch (truthy branch) m.branch_id
        && at_least from m.created_at
        && at_most to m.created_at

    abbrev pub of_status :
        (CashMovementRecord Decimal → Bool) → CashMovementStatus → CashMovementRecord Decimal → Bool
    of_status p status m = p m && status_eq m.status status

    abbrev of_type :
        (CashMovementRecord Decimal → Bool) → CashMovementType → CashMovementRecord Decimal → Bool
    of_type p type m = p m && is_type m.type type

    unfoldable pub get_stats :
        ℕ
        → CashflowStatsQueryDto
        → AuthenticatedUserContext
        → db.Store
        → mv.Store
        → Result CashflowStats
    get_stats now query current_user b s = do
      (from, to) ← resolve_range now query.from query.to
      branch ← resolve_branch_for_filter db b current_user query.branch_id
      let where' = stats_where current_user.organization_id branch from to
      let total_in = or_else (sums.sum_amount (of_type where' incoming) s) zero_decimal
      let total_out = or_else (sums.sum_amount (of_type where' outgoing) s) zero_decimal
      ok (record {
        from = from;
        to = to;
        branch_id = branch;
        cards = record {
          total_in = to_fixed_2 total_in;
          total_out = to_fixed_2 total_out;
          net = to_fixed_2 (minus total_in total_out);
          pending_count = sums.count (of_status where' pending) s;
          approved_count = sums.count (of_status where' approved) s;
          delivered_count = sums.count (of_status where' delivered) s;
          rejected_count = sums.count (of_status where' rejected) s;
        };
      })
