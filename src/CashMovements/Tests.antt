-- ===== src/CashMovements/Tests.antt =====
-- The theorems on cash movements at a concrete table: amounts are natural numbers, and dates one digit.
pub mod Histories
pub mod Listings
use mathlib.Core.Option
use ops_flow_ms.Branches.Tests.{branch_table, two_branches, ana}
use ops_flow_ms.CashMovements.Repository.{
  CashMovementRecord, CashMovementCreateInput, movement_id, incoming,
}
use ops_flow_ms.CashMovements.Transition.{
  CashMovementStatus, Reach, no_step, one_more, Step, to_approved,
  is_valid_cash_movement_transition_iff, Reach-terminates, approved, delivered,
  is_valid_cash_movement_transition, pending,
}
use ops_flow_ms.CashMovements.Service.{
  create, transition, check_transition, write_transition, find_all,
}
use ops_flow_ms.CashMovements.Service.Checks.{
  MayTransition, check_transition_iff, transition_hides_foreign,
}
use ops_flow_ms.Shared.{
  Bool, List, Option, String, [], ap, arith, false, if◌then◌else◌, leb, none, refl, some, true, ℕ,
  ◌<◌, ◌==◌, ◌↔◌, ◌∙◌, ◌∷◌, ◌≡◌, ◌≢◌, ◌≤◌, beq_of_eq,
}
use ops_flow_ms.CashMovements.Input.{Decimals, Movement, approved_by}
use ops_flow_ms.Db.{Delegate}
use ops_flow_ms.Branches.Repository.{branch_id}
use ops_flow_ms.Errors.Result.{err, ok}
use ops_flow_ms.Db.Memory.{memory}
use ops_flow_ms.Errors.{not_found, primitive, resource_not_found}
use ops_flow_ms.Branches.Service.Isolation.{organization}

abbrev parse_number : String → Option ℕ
parse_number text' = if text' == "10" then some 10 else none

abbrev pub numbers : Decimals
numbers = record {
  Decimal = ℕ;
  parse = parse_number;
  lte_zero = λ n. leb n 0;
  to_fixed_2 = λ n. if leb n 10 then "10.00" else "";
}

abbrev never : Movement numbers → Movement numbers → Bool
never a b = false

abbrev pub movements : Delegate (movement_id {Decimal = ℕ})
movements = memory (movement_id {Decimal = ℕ}) never primitive

abbrev movement_of : String → String → CashMovementStatus → Movement numbers
movement_of id organization status = record {
  id = id;
  organization_id = organization;
  branch_id = if organization == "acme" then "b1" else "b2";
  amount = 10;
  currency = "ARS";
  type = incoming;
  status = status;
  description = none;
  created_by_id = "u9";
  approved_by_id = none;
  delivered_by_id = none;
  created_at = 1;
  updated_at = 1;
}

abbrev pub waiting : Movement numbers
waiting = movement_of "m1" "acme" pending

abbrev pub theirs : Movement numbers
theirs = movement_of "m2" "globex" pending

abbrev pub table : List (Movement numbers)
table = waiting ∷ theirs ∷ []

approve_then_deliver : Reach pending delivered 2
unfolding is_valid_cash_movement_transition
approve_then_deliver =
    one_more {t = approved} {u = delivered} (one_more {t = pending} {u = approved} no_step refl)
      refl

Reach-terminates_example : (2 ≤ 2) × (0 < 2 → pending ≢ delivered)
Reach-terminates_example = Reach-terminates approve_then_deliver

check_transition_iff_example :
    (check_transition numbers branch_table movements "m1" approved ana two_branches table
      ≡ ok waiting)
    ↔ MayTransition numbers branch_table movements "m1" approved ana two_branches table waiting
check_transition_iff_example =
    check_transition_iff numbers branch_table movements "m1" approved ana two_branches table waiting

theirs-ne : (m : Movement numbers) → movements.find "m2" table ≡ some m → m.organization_id ≢ "acme"
theirs-ne m e same =
    let is : theirs ≡ m = cc in
    let q : ("globex" == "acme") ≡ true =
      beq_of_eq "globex" "acme" (ap (λ r. r.organization_id) is ∙ same) in
    absurd (cc)
