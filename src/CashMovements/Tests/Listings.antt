-- ===== src/CashMovements/Tests/Listings.antt =====
-- The theorem on listings of movements at a concrete table, a page at a time.
use ops_flow_ms.Branches.Tests.{branch_table, two_branches, ana}
use ops_flow_ms.CashMovements.Tests.{numbers, movements, waiting, table}
use ops_flow_ms.Branches.Repository.{find_by_id as find_branch}
use ops_flow_ms.Db.Rows.{take, drop}
use ops_flow_ms.Db.Pages.{Pages}
use ops_flow_ms.Db.Memory.{all_where_sound}
use ops_flow_ms.CashMovements.Repository.{movement_id}
use ops_flow_ms.CashMovements.Service.{find_all}
use ops_flow_ms.CashMovements.Service.Paging.{gather, condition, gather_complete}
use ops_flow_ms.CashMovements.Input.{ListCashMovementsDto, Meta, map_movement, parse_date_range}
use ops_flow_ms.Shared.{Option, String, [], arith, length, map, none, refl, some, ℕ, ◌∷◌, ◌≡◌}
use ops_flow_ms.Branches.Access.{
  assert_branch_exists_in_organization, own_branch, resolve_branch_for_filter,
}
use ops_flow_ms.Tenancy.{assert_organization_access}
use ops_flow_ms.Errors.Result.{ok}

abbrev paged : Pages movements
paged = record {
  find_page = λ p skip n s. take n (drop skip (movements.find_many p s));
  count = λ p s. length (movements.find_many p s);
  ordered = movements.find_many;
  ordered_sound = λ p s. all_where_sound movement_id p s s;
  find_page_slice = λ p skip n s. refl;
  count_ordered = λ p s. refl;
}

abbrev no_date : String → Option ℕ
no_date text' = none

abbrev one_a_page : ListCashMovementsDto
one_a_page = record {
  page = none;
  page_size = some 1;
  branch_id = none;
  status = none;
  from = none;
  to = none;
}

abbrev info : Meta
info = record { page = 1; page_size = 1; total = 1; total_pages = 1 }

lists :
    find_all numbers branch_table movements no_date paged one_a_page ana two_branches table
    ≡ ok (map_movement numbers waiting ∷ [], info)
unfolding find_all parse_date_range resolve_branch_for_filter own_branch
    assert_branch_exists_in_organization find_branch assert_organization_access
lists = refl

gather_complete_example :
    (from to : Option ℕ) × (branch : Option String) × (parse_date_range no_date none none
      ≡ ok (from, to))
    × (resolve_branch_for_filter branch_table two_branches ana none ≡ ok branch)
    × (gather numbers branch_table movements no_date paged one_a_page ana two_branches table 1
        ≡ map (map_movement numbers) (
            movements.find_many
              (condition numbers branch_table movements no_date paged one_a_page ana two_branches
                table from to branch)
              table))
gather_complete_example =
    gather_complete numbers branch_table movements no_date paged one_a_page ana two_branches table
      (map_movement numbers waiting ∷ []) info (omega arith) lists
