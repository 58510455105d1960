-- ===== src/AuthContext.antt =====
-- src/auth/auth-context.util.ts: the authenticated user's context and the role that it runs under.
pub mod Laws
mod Tests
use ops_flow_ms.Shared.{
  String, List, [], ◌∷◌, ◌++◌, Option, Bool, false, ◌==◌, if◌then◌else◌, includes,
}
use mathlib.Core.List.{foldl}

pub data RuntimeRole : Type 0 where
  admin manager operator : RuntimeRole

pub record AuthenticatedUserContext : Type 0 where
  pub sub : String
  pub id : String
  pub sid : Option String
  pub organization_id : String
  pub role : RuntimeRole
  pub branch_id : Option String
  pub roles : List String
  pub permissions : List String

abbrev runtime_role_precedence : List String
runtime_role_precedence = "ADMIN" ∷ "MANAGER" ∷ "OPERATOR" ∷ "USER" ∷ []

-- `return roleName`, at the type of the roles.
abbrev as_runtime_role : String → RuntimeRole
as_runtime_role name =
    if name == "ADMIN" then admin else if name == "MANAGER" then manager else operator

-- The loop of `resolveRuntimeRole` over the names in order of precedence.
resolve_from : List String → List String → RuntimeRole
resolve_from role_names [] = operator
resolve_from role_names (role_name ∷ later) =
    let next = resolve_from role_names later in
    if includes role_names role_name
    then (if role_name == "USER" then operator else as_runtime_role role_name)
    else next

unfoldable pub resolve_runtime_role : List String → RuntimeRole
unfolding resolve_from
resolve_runtime_role role_names = resolve_from role_names runtime_role_precedence

-- `set.add(value)`, the elements in the order of insertion.
abbrev set_add : List String → String → List String
set_add values value = if includes values value then values else values ++ value ∷ []

unfoldable pub unique_strings : List String → List String
unique_strings values = foldl set_add [] values
