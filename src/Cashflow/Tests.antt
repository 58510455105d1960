-- ===== src/Cashflow/Tests.antt =====
-- The theorems on the statistics at the table of the tests on movements.
use ops_flow_ms.Branches.Tests.{branch_table, two_branches, ana}
use ops_flow_ms.Branches.Repository.{find_by_id}
use ops_flow_ms.Branches.Access.{
  resolve_branch_for_filter, own_branch, assert_branch_exists_in_organization,
}
use ops_flow_ms.Tenancy.{assert_organization_access}
use ops_flow_ms.CashMovements.Tests.{numbers, movements, table}
use ops_flow_ms.Cashflow.{
  CashflowStatsQueryDto, CashflowStats, DecimalSums, Aggregates, count_where, resolve_range,
  get_stats,
}
use ops_flow_ms.Cashflow.Stats.{resolve_range-IsOrdered, get_stats_sound, AreCounted}
use ops_flow_ms.Shared.{
  Option, String, if◌then◌else◌, leb, none, refl, some, ℕ, ◌+◌, ◌-◌, ◌==◌, ◌≡◌, ◌≤◌, Bool, List, [],
  or_else, ◌∷◌,
}
use ops_flow_ms.Errors.Result.{ok}
use ops_flow_ms.CashMovements.Input.{Movement}

abbrev sums : DecimalSums
sums = record {
  Decimal = ℕ;
  zero_decimal = 0;
  minus = λ a b. a - b;
  to_fixed_2 = λ n. if leb n 0 then "0.00" else "10.00";
}

abbrev sum_where : (Movement numbers → Bool) → List (Movement numbers) → Option ℕ
sum_where p [] = none
sum_where p (m ∷ ms) = if p m then some (m.amount + or_else (sum_where p ms) 0) else sum_where p ms

abbrev aggregates : Aggregates movements ℕ
aggregates = record {
  sum_amount = sum_where;
  count = count_where;
  all = λ s. s;
  count_all = λ p s. refl;
}

abbrev digit : String → Option ℕ
digit text' = if text' == "1" then some 1 else if text' == "2" then some 2 else none

abbrev one_to_two : CashflowStatsQueryDto
one_to_two = record { branch_id = none; from = some "1"; to = some "2" }

abbrev answered : CashflowStats
answered = record {
  from = some 1;
  to = some 2;
  branch_id = some "b1";
  cards = record {
    total_in = "10.00";
    total_out = "0.00";
    net = "10.00";
    pending_count = 1;
    approved_count = 0;
    delivered_count = 0;
    rejected_count = 0;
  };
}

resolves : resolve_range digit 9 (some "1") (some "2") ≡ ok (some 1, some 2)
unfolding resolve_range
resolves = refl

resolve_range-IsOrdered_example : 1 ≤ 2
resolve_range-IsOrdered_example =
    resolve_range-IsOrdered digit 9 (some "1") (some "2") (some 1) (some 2) resolves

answers :
    get_stats digit sums branch_table movements aggregates 9 one_to_two ana two_branches table
    ≡ ok answered
unfolding get_stats resolve_range resolve_branch_for_filter own_branch
    assert_branch_exists_in_organization find_by_id assert_organization_access
answers = refl

get_stats_sound_example :
    (1 ≤ 2)
    × (resolve_branch_for_filter branch_table two_branches ana none ≡ ok (some "b1"))
    × AreCounted digit sums branch_table movements aggregates "acme" table answered
get_stats_sound_example =
    get_stats_sound digit sums branch_table movements aggregates 9 one_to_two ana two_branches table
      answered answers
