-- ===== src/Tenancy.antt =====
-- src/common/tenancy/tenant-scope.util.ts: a resource of another organization is answered as absent.
use ops_flow_ms.Shared.{String, ◌==◌, if◌then◌else◌}
use ops_flow_ms.Errors.{not_found, resource_not_found}
use ops_flow_ms.Errors.Result.{Result, ok, err}

unfoldable pub assert_organization_access : String → String → Result (Unit {0})
assert_organization_access resource_organization_id organization_id =
    if resource_organization_id == organization_id
    then ok tt
    else err (not_found resource_not_found)
