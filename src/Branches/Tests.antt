-- ===== src/Branches/Tests.antt =====
-- The theorems on branches at concrete users and tables.
use ops_flow_ms.Branches.Repository.{BranchRecord, branch_id}
use ops_flow_ms.Branches.Service.{CreateBranchDto, UpdateBranchDto}
use ops_flow_ms.AuthContext.{AuthenticatedUserContext, manager}
use ops_flow_ms.Branches.Access.Scope.{Belongs, Grants, scope, whole_organization}
use ops_flow_ms.Shared.{
  Bool, List, String, [], false, none, some, true, truthy, ◌&&◌, ◌==◌, ◌↔◌, ◌∷◌, ◌≡◌, ◌≢◌,
  beq_of_eq,
}
use ops_flow_ms.Db.{Delegate}
use ops_flow_ms.Errors.{Thrown, columns, object}
use ops_flow_ms.Branches.Access.{resolve_branch_for_filter}
use ops_flow_ms.Errors.Result.{ok}
use ops_flow_ms.Db.Memory.{memory}
use ops_flow_ms.Branches.Access.Resolution.{resolve_branch_for_filter_iff}

-- No two branches of an organization share a code.
abbrev same_code : BranchRecord → BranchRecord → Bool
same_code a b = a.organization_id == b.organization_id && a.code == b.code

abbrev code_taken : Thrown
code_taken = object (some "P2002") (columns ("organizationId" ∷ "code" ∷ []))

abbrev pub branch_table : Delegate branch_id
branch_table = memory branch_id same_code code_taken

abbrev north : BranchRecord
north = record { id = "b1"; organization_id = "acme"; name = "North"; code = "N"; is_active = true }

abbrev south : BranchRecord
south = record {
  id = "b2";
  organization_id = "globex";
  name = "South";
  code = "S";
  is_active = true;
}

abbrev pub two_branches : List BranchRecord
two_branches = north ∷ south ∷ []

abbrev pub ana : AuthenticatedUserContext
ana = record {
  sub = "u1";
  id = "u1";
  sid = none;
  organization_id = "acme";
  role = manager;
  branch_id = some "b1";
  roles = "MANAGER" ∷ [];
  permissions = [];
}

resolve_branch_for_filter_iff_example :
    ((b : String)
      → (resolve_branch_for_filter branch_table two_branches ana none ≡ ok (some b))
        ↔ (Grants (scope ana) none b × Belongs branch_table two_branches "acme" b false))
    × ((resolve_branch_for_filter branch_table two_branches ana none ≡ ok none)
        ↔ ((scope ana ≡ whole_organization) × (truthy none ≡ none)))
resolve_branch_for_filter_iff_example =
    resolve_branch_for_filter_iff branch_table two_branches ana none

abbrev rename : UpdateBranchDto
rename = record { name = some " Centre "; is_active = none }

abbrev east : CreateBranchDto
east = record { name = "East"; code = "e"; is_active = none }

pub foreign : ◌≢◌ {A = String} "globex" "acme"
foreign e = let q : ("globex" == "acme") ≡ true = beq_of_eq "globex" "acme" e in absurd (cc)
