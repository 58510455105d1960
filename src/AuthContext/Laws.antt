-- ===== src/AuthContext/Laws.antt =====
-- The role of a list of role names, and lists without duplicates.
use mathlib.Core.List.{foldl}
use ops_flow_ms.Shared.{
  String, List, [], ◌∷◌, ◌++◌, ◌≡◌, refl, ◌↔◌, inl, inr, true, false, ◌||◌, ◌==◌, arith, eq_iff,
  includes, Bool-cases,
}
use ops_flow_ms.AuthContext.{
  admin, manager, operator, resolve_runtime_role, set_add, unique_strings,
}

-- A user runs as ADMIN exactly when one of the role names is ADMIN, as MANAGER exactly when
-- MANAGER is among them and ADMIN is not, and as OPERATOR in every other case.
pub resolve_runtime_role_iff :
    (names : List String)
    → ((resolve_runtime_role names ≡ admin) ↔ (includes names "ADMIN" ≡ true))
      × ((resolve_runtime_role names ≡ manager)
          ↔ ((includes names "ADMIN" ≡ false) × (includes names "MANAGER" ≡ true)))
      × ((resolve_runtime_role names ≡ operator)
          ↔ ((includes names "ADMIN" ≡ false) × (includes names "MANAGER" ≡ false)))
unfolding resolve_runtime_role
resolve_runtime_role_iff names = ground arith

includes-append_one :
    (xs : List String) (x y : String) → includes (xs ++ x ∷ []) y ≡ (includes xs y || (x == y))
includes-append_one [] x y = ground arith
includes-append_one (z ∷ xs) x y = ground (arith, includes-append_one xs x y)

includes-set_add :
    (xs : List String) (x y : String) → includes (set_add xs x) y ≡ (includes xs y || (x == y))
includes-set_add xs x y = ground (arith, includes-append_one xs x y, eq_iff x y)

includes-foldl :
    (acc xs : List String) (y : String)
    → includes (foldl set_add acc xs) y ≡ (includes acc y || includes xs y)
includes-foldl acc [] y = ground arith
includes-foldl acc (x ∷ xs) y =
    ground (arith, includes-foldl (set_add acc x) xs y, includes-set_add acc x y)

-- No text stands in a list twice.
abbrev IsDistinct : List String → Type 0
IsDistinct [] = Unit
IsDistinct (x ∷ xs) = (includes xs x ≡ false) × IsDistinct xs

IsDistinct-append_one :
    (xs : List String) (x : String)
    → includes xs x ≡ false
    → IsDistinct xs
    → IsDistinct (xs ++ x ∷ [])
IsDistinct-append_one [] x h d = (refl, tt)
IsDistinct-append_one (y ∷ xs) x h d = (
  ground (arith, includes-append_one xs x y, eq_iff x y, eq_iff y x),
  IsDistinct-append_one xs x (ground arith) d.1,
)

IsDistinct-set_add : (acc : List String) (x : String) → IsDistinct acc → IsDistinct (set_add acc x)
IsDistinct-set_add acc x d = elim (Bool-cases (includes acc x)) [
  | inl old ↦ rw old d
  | inr new ↦ rw new (IsDistinct-append_one acc x new d)
]

IsDistinct-foldl : (acc xs : List String) → IsDistinct acc → IsDistinct (foldl set_add acc xs)
IsDistinct-foldl acc [] d = d
IsDistinct-foldl acc (x ∷ xs) d = IsDistinct-foldl (set_add acc x) xs (IsDistinct-set_add acc x d)

-- The names that a session shows are those given: each of them, no other, and none twice.
pub unique_strings_sound :
    (values : List String)
    → IsDistinct (unique_strings values)
      × ((value : String) → includes (unique_strings values) value ≡ includes values value)
unfolding unique_strings
unique_strings_sound values =
    (IsDistinct-foldl [] values tt, λ value. includes-foldl [] values value)

-- Removing duplicate names does not change the role.
pub resolve_runtime_role-unique_strings :
    (names : List String) → resolve_runtime_role (unique_strings names) ≡ resolve_runtime_role names
unfolding resolve_runtime_role
resolve_runtime_role-unique_strings names =
    let same = (unique_strings_sound names).1 in
    rw (same "ADMIN", same "MANAGER", same "OPERATOR", same "USER")
