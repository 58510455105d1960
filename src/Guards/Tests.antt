-- ===== src/Guards/Tests.antt =====
-- The theorems on the guards at a concrete user.
use ops_flow_ms.AuthContext.{AuthenticatedUserContext, operator}
use ops_flow_ms.AuthContext.{resolve_runtime_role, unique_strings}
use ops_flow_ms.Guards.{Directory, UserRow, RoleGrant, validate, can_activate}
use ops_flow_ms.Guards.Permissions.{Admits, can_activate_iff}
use ops_flow_ms.Shared.{
  Bool-cases, Option, String, [], ap, eq_of_beq, false, if◌then◌else◌, inl, inr, none, refl, some,
  sym, true, ◌==◌, ◌↔◌, ◌∙◌, ◌∷◌, ◌≡◌, ◌⊎◌,
}
use ops_flow_ms.Errors.Result.{ok}

abbrev beto : UserRow
beto = record { id = "u7"; is_active = true; organization_id = "acme"; branch_id = some "b1" }

abbrev operator_grant : RoleGrant
operator_grant = record { name = "OPERATOR"; permissions = "CASH_MOVEMENT_READ" ∷ [] }

abbrev one_user : String → Option UserRow
one_user k = if k == "u7" then some beto else none

one_user_id : (k : String) {r : UserRow} → one_user k ≡ some r → r.id ≡ k
one_user_id k {r} e = elim (Bool-cases (k == "u7")) [
  | inl same ↦
      let is : beto ≡ r = (let q = rw same at e in cc) in
      ap (λ x. x.id) (sym is) ∙ sym (eq_of_beq k "u7" same)
  | inr other ↦ absurd (let q = rw other at e in cc)
]

abbrev staff : Directory
staff = record {
  find_user = one_user;
  roles_of = λ k. operator_grant ∷ [];
  find_user_id = one_user_id;
}

abbrev beto_context : AuthenticatedUserContext
beto_context = record {
  sub = "u7";
  id = "u7";
  sid = none;
  organization_id = "acme";
  role = operator;
  branch_id = some "b1";
  roles = "OPERATOR" ∷ [];
  permissions = "CASH_MOVEMENT_READ" ∷ [];
}

validates : validate staff "u7" none ≡ ok beto_context
unfolding validate unique_strings resolve_runtime_role
validates = refl

can_activate_iff_example :
    (can_activate staff ("OPERATOR" ∷ []) ("CASH_MOVEMENT_READ" ∷ []) (some "u7") ≡ ok tt)
    ↔ ((false ≡ true) ⊎ Admits staff ("OPERATOR" ∷ []) ("CASH_MOVEMENT_READ" ∷ []) (some "u7"))
can_activate_iff_example =
    can_activate_iff staff ("OPERATOR" ∷ []) ("CASH_MOVEMENT_READ" ∷ []) (some "u7")
