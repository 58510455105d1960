-- ===== src/Seed.antt =====
-- prisma/seed.ts: the numbers that are read from the environment, and the demo movements with the users
-- who act in them. Organizations, branches, roles and users are written by upserts before.
pub mod Actors
pub mod Movements
mod Tests
use ops_flow_ms.Shared.{
  Bool, List, Map, Option, String, [], concat, eqb, false, if◌then◌else◌, is_empty, length, ltb,
  max, min, none, or_else, set, some, suc, to_text, trim, true, truthy, zero, ℕ, ◌%◌, ◌*◌, ◌++◌,
  ◌+◌, ◌-◌, ◌/◌, ◌==◌, ◌∷◌,
}
use ops_flow_ms.CashMovements.Transition.{
  CashMovementStatus, approved, delivered, pending, rejected,
}
use ops_flow_ms.CashMovements.Repository.{CashMovementType, incoming, outgoing}
use ops_flow_ms.AuthContext.{RuntimeRole, admin, manager, operator}

-- The result of `Number.parseInt` on a text: not finite, or a whole number with its sign.
pub data Parsed : Type 0 where
  nan : Parsed
  parsed : Bool → ℕ → Parsed

pub record SeededDemoUser : Type 0 where
  pub id : String
  pub email : String
  pub role : RuntimeRole
  pub branch_id : Option String

pub record DemoBranch : Type 0 where
  pub id : String
  pub code : String
  pub name : String

-- A row of the movements that are created.
pub record DemoMovement : Type 0 where
  pub organization_id : String
  pub branch_id : String
  pub amount : String
  pub currency : String
  pub type : CashMovementType
  pub status : CashMovementStatus
  pub description : String
  pub created_by_id : String
  pub approved_by_id : Option String
  pub delivered_by_id : Option String
  pub created_at : ℕ
  pub updated_at : ℕ

-- `Math.max(min, Math.min(max, parsed))` for bounds that are not negative.
abbrev clamp : ℕ → ℕ → Bool → ℕ → ℕ
clamp low high negative n = if negative then low else max low (min high n)

-- `parseEnvInt`, with `Number.parseInt` as an argument.
unfoldable pub parse_env_int : (String → Parsed) → Option String → ℕ → ℕ → ℕ → ℕ
unfolding trim
parse_env_int parse_int none fallback low high = fallback
parse_env_int parse_int (some raw) fallback low high =
    if trim raw == "" then fallback else elim (parse_int (trim raw)) [
      | nan ↦ fallback
      | parsed negative n ↦ clamp low high negative n
    ]

-- The value at an index of a list, or another one past its end.
abbrev pub value_at : List String → ℕ → String → String
value_at [] n d = d
value_at (x ∷ xs) zero d = x
value_at (x ∷ xs) (suc n) d = value_at xs n d

abbrev pub pick_by_index : List String → ℕ → String → String
pick_by_index candidates index fallback =
    if is_empty candidates
    then fallback
    else value_at candidates (index % length candidates) fallback

abbrev pub push_into_map_list : Map (List String) → String → String → Map (List String)
push_into_map_list m key value = set key (or_else (m key) [] ++ (value ∷ [])) m

-- The branch of a user, where it is given.
abbrev pub branch_of : SeededDemoUser → Option String
branch_of u = truthy u.branch_id

pub record Pools : Type 0 where
  pub branch_manager_ids : Map (List String)
  pub operator_ids : Map (List String)

abbrev pub push_user : SeededDemoUser → RuntimeRole → Option String → Pools → Pools
push_user u role none pools = pools
push_user u admin (some b) pools = pools
push_user u manager (some b) pools = record pools {
  branch_manager_ids = push_into_map_list pools.branch_manager_ids b u.id;
}
push_user u operator (some b) pools = record pools {
  operator_ids = push_into_map_list pools.operator_ids b u.id;
}

-- The loop over the demo users that fills both maps.
unfoldable pub pools_of : List SeededDemoUser → Pools → Pools
pools_of [] pools = pools
pools_of (u ∷ us) pools = pools_of us (push_user u u.role (branch_of u) pools)

abbrev pub no_pools : Pools
no_pools = record { branch_manager_ids = λ k. none; operator_ids = λ k. none }

abbrev pub is_admin : RuntimeRole → Bool
is_admin admin = true
is_admin manager = false
is_admin operator = false

abbrev pub is_org_wide : SeededDemoUser → RuntimeRole → Option String → Bool
is_org_wide u manager none = true
is_org_wide u manager (some b) = false
is_org_wide u admin b = false
is_org_wide u operator b = false

-- The ids of the users that pass a test, in their order.
unfoldable pub ids_where : (SeededDemoUser → Bool) → List SeededDemoUser → List String
ids_where p [] = []
ids_where p (u ∷ us) = if p u then u.id ∷ ids_where p us else ids_where p us

unfoldable pub admin_ids : List SeededDemoUser → List String
unfolding ids_where
admin_ids users = ids_where (λ u. is_admin u.role) users

unfoldable pub org_wide_manager_ids : List SeededDemoUser → List String
unfolding ids_where
org_wide_manager_ids users = ids_where (λ u. is_org_wide u u.role (branch_of u)) users

-- `adminIds[0] ?? demoUsers[0]?.id`
abbrev pub fallback_actor : List String → List SeededDemoUser → Option String
fallback_actor (a ∷ others) users = some a
fallback_actor [] [] = none
fallback_actor [] (u ∷ us) = some u.id

abbrev pub branch_managers : List SeededDemoUser → Pools → String → List String
branch_managers users pools branch =
    or_else (pools.branch_manager_ids branch) [] ++ (org_wide_manager_ids users ++ admin_ids users)

abbrev pub creator_pool : List SeededDemoUser → Pools → String → List String
creator_pool users pools branch =
    let operators = or_else (pools.operator_ids branch) [] in
    if is_empty operators then branch_managers users pools branch else operators

abbrev pub approval_pool : List SeededDemoUser → Pools → String → String → List String
approval_pool users pools branch fallback =
    let managers = branch_managers users pools branch in
    if is_empty managers then fallback ∷ [] else managers

-- The status of a row, from the pattern of eight.
abbrev pub status_pattern : ℕ → CashMovementStatus
status_pattern zero = pending
status_pattern (suc zero) = approved
status_pattern (suc (suc zero)) = delivered
status_pattern (suc (suc (suc zero))) = rejected
status_pattern (suc (suc (suc (suc zero)))) = delivered
status_pattern (suc (suc (suc (suc (suc zero))))) = approved
status_pattern (suc (suc (suc (suc (suc (suc zero)))))) = pending
status_pattern (suc (suc (suc (suc (suc (suc (suc n))))))) = delivered

-- The actors that `approvedById` and `deliveredById` take.
abbrev pub approver_of : CashMovementStatus → String → Option String
approver_of pending who = none
approver_of rejected who = none
approver_of approved who = some who
approver_of delivered who = some who

abbrev pub deliverer_of : CashMovementStatus → String → Option String
deliverer_of pending who = none
deliverer_of rejected who = none
deliverer_of approved who = none
deliverer_of delivered who = some who

abbrev pub day_ms : ℕ
day_ms = 24 * 60 * 60000

-- `createdAt`: so many days ago, at a time of that day in UTC.
unfoldable pub created_at_of : ℕ → ℕ → ℕ → ℕ
created_at_of now branch_index movement_index =
    (now / day_ms - (branch_index * 3 + movement_index) % 30) * day_ms
    + (8 + (branch_index + movement_index) % 10) * 3600000
    + (branch_index * 13 + movement_index * 7) % 60 * 60000

-- `String(n).padStart(3, '0')`
abbrev pad_start : ℕ → String
pad_start n =
    if ltb n 10
    then concat "00" (to_text n)
    else if ltb n 100
    then concat "0" (to_text n)
    else to_text n

unfoldable pub demo_movement :
    ℕ → String → String → List String → List String → DemoBranch → ℕ → ℕ → DemoMovement
unfolding created_at_of to_text
demo_movement now organization fallback creators approvers branch branch_index movement_index =
    let status = status_pattern ((branch_index + movement_index) % 8) in
    let created_at = created_at_of now branch_index movement_index in
    let amount =
      1200 + branch_index * 350 + movement_index * 97 + (branch_index + movement_index) % 5 * 25 in
    let code = concat branch.code (concat "-" (pad_start (movement_index + 1))) in
    record {
      organization_id = organization;
      branch_id = branch.id;
      amount = concat (to_text amount) ".00";
      currency = "ARS";
      type = if eqb ((branch_index + movement_index) % 2) 0 then incoming else outgoing;
      status = status;
      description = concat "[DEMO-CM:" (concat code "] seeded movement");
      created_by_id = pick_by_index creators movement_index fallback;
      approved_by_id = approver_of status (pick_by_index approvers movement_index fallback);
      delivered_by_id = deliverer_of status (pick_by_index approvers (movement_index + 1) fallback);
      created_at = created_at;
      updated_at = created_at + 45 * 60 * 1000;
    }

-- The loop over the movements of a branch: so many from an index on.
unfoldable pub branch_movements : (ℕ → DemoMovement) → ℕ → ℕ → List DemoMovement
branch_movements make index zero = []
branch_movements make index (suc left) = make index ∷ branch_movements make (index + 1) left

-- The loop over the branches.
unfoldable pub all_movements :
    ℕ → String → String → List SeededDemoUser → ℕ → ℕ → List DemoBranch → List DemoMovement
unfolding demo_movement branch_movements pools_of org_wide_manager_ids
all_movements now organization fallback users count branch_index [] = []
all_movements now organization fallback users count branch_index (branch ∷ later) =
    let pools = pools_of users no_pools in
    branch_movements
      (λ i.
        demo_movement now organization fallback (creator_pool users pools branch.id)
          (approval_pool users pools branch.id fallback) branch branch_index i)
      0 count
    ++ all_movements now organization fallback users count (branch_index + 1) later

-- `demoMovements`; without an actor the script stops with an error.
unfoldable pub demo_movements :
    ℕ → String → List SeededDemoUser → ℕ → List DemoBranch → Option (List DemoMovement)
unfolding all_movements
demo_movements now organization users count branches =
    elim (truthy (fallback_actor (admin_ids users) users)) [
      | none ↦ none
      | some fallback ↦ some (all_movements now organization fallback users count 0 branches)
    ]
