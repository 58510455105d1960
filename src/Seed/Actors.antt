-- ===== src/Seed/Actors.antt =====
-- Who may act on the movements of a branch, and that the pools of the seed hold such users only.
use ops_flow_ms.Shared.{
  Bool, Bool-cases, List, Option, String, [], any, arith, eq_refl, false, inl, inr, length, none,
  or_else, refl, some, suc, true, zero, ℕ, ◌%◌, ◌&&◌, ◌++◌, ◌==◌, ◌∷◌, ◌≡◌, Map, eq_of_beq, subst,
  sym, is_empty,
}
use ops_flow_ms.Seed.{
  Pools, SeededDemoUser, branch_of, ids_where, pick_by_index, value_at, is_org_wide, pools_of,
  push_into_map_list, push_user, is_admin, admin_ids, approval_pool, branch_managers, creator_pool,
  no_pools, org_wide_manager_ids,
}
use ops_flow_ms.AuthContext.{RuntimeRole, admin, manager, operator}

-- Who may decide on movements of a branch, and who may make them.
unfoldable pub may_decide : String → SeededDemoUser → RuntimeRole → Option String → Bool
may_decide branch u admin b = true
may_decide branch u manager none = true
may_decide branch u manager (some b) = b == branch
may_decide branch u operator b = false

unfoldable pub may_create : String → SeededDemoUser → RuntimeRole → Option String → Bool
may_create branch u admin b = true
may_create branch u manager none = true
may_create branch u manager (some b) = b == branch
may_create branch u operator none = false
may_create branch u operator (some b) = b == branch

-- A test of a user by his role and branch.
abbrev pub Actor : Type 0
Actor = SeededDemoUser → RuntimeRole → Option String → Bool

abbrev pub passes : Actor → SeededDemoUser → Bool
passes p u = p u u.role (branch_of u)

-- The id is that of one of the users who pass a test.
abbrev pub HasUser : List SeededDemoUser → Actor → String → Type 0
HasUser users p id = any (λ u. u.id == id && passes p u) users ≡ true

abbrev pub AllHave : List SeededDemoUser → Actor → List String → Type 0
AllHave users p [] = Unit
AllHave users p (id ∷ ids) = HasUser users p id × AllHave users p ids

-- Every one of some users is among the users.
abbrev Included : List SeededDemoUser → List SeededDemoUser → Type 0
Included [] users = Unit
Included (u ∷ us) users =
    ((p : Actor) → passes p u ≡ true → HasUser users p u.id) × Included us users

Included-cons :
    (us users : List SeededDemoUser) (v : SeededDemoUser)
    → Included us users
    → Included us (v ∷ users)
Included-cons [] users v h = tt
Included-cons (u ∷ us) users v (own, later) =
    (λ p may. let q = own p may in ground (arith, q), Included-cons us users v later)

Included-refl : (users : List SeededDemoUser) → Included users users
Included-refl [] = tt
Included-refl (u ∷ us) =
    (λ p may. rw (eq_refl u.id, may) refl, Included-cons us us u (Included-refl us))

AllHave-append :
    (users : List SeededDemoUser) (p : Actor) (xs ys : List String)
    → AllHave users p xs
    → AllHave users p ys
    → AllHave users p (xs ++ ys)
AllHave-append users p [] ys h k = k
AllHave-append users p (x ∷ xs) ys (own, later) k = (own, AllHave-append users p xs ys later k)

value_at-AllHave :
    (users : List SeededDemoUser) (p : Actor) (xs : List String) (n : ℕ) (d : String)
    → AllHave users p xs
    → HasUser users p d
    → HasUser users p (value_at xs n d)
value_at-AllHave users p [] n d h k = k
value_at-AllHave users p (x ∷ xs) zero d (own, later) k = own
value_at-AllHave users p (x ∷ xs) (suc n) d (own, later) k = value_at-AllHave users p xs n d later k

pub pick_by_index-AllHave :
    (users : List SeededDemoUser) (p : Actor) (xs : List String) (n : ℕ) (d : String)
    → AllHave users p xs
    → HasUser users p d
    → HasUser users p (pick_by_index xs n d)
pick_by_index-AllHave users p [] n d h k = k
pick_by_index-AllHave users p (x ∷ xs) n d h k =
    value_at-AllHave users p (x ∷ xs) (n % length (x ∷ xs)) d h k

ids_where-AllHave :
    (users us : List SeededDemoUser) (p : Actor) (test : SeededDemoUser → Bool)
    → Included us users
    → ((u : SeededDemoUser) → test u ≡ true → passes p u ≡ true)
    → AllHave users p (ids_where test us)
unfolding ids_where
ids_where-AllHave users [] p test h k = tt
ids_where-AllHave users (u ∷ us) p test (own, later) k = elim (Bool-cases (test u)) [
  | inl pass ↦ rw pass (own p (k u pass), ids_where-AllHave users us p test later k)
  | inr fail ↦ rw fail (ids_where-AllHave users us p test later k)
]

-- Both maps hold ids of users who may act on the branch under which they stand.
abbrev AreSound : List SeededDemoUser → Pools → Type 0
AreSound users pools =
    (b : String)
    → AllHave users (may_decide b) (or_else (pools.branch_manager_ids b) [])
      × AllHave users (may_create b) (or_else (pools.operator_ids b) [])

push-AllHave :
    (users : List SeededDemoUser) (p : String → Actor) (m : Map (List String)) (k v : String)
    → ((b : String) → AllHave users (p b) (or_else (m b) []))
    → HasUser users (p k) v
    → (b : String) → AllHave users (p b) (or_else (push_into_map_list m k v b) [])
push-AllHave users p m k v h has b = elim (Bool-cases (b == k)) [
  | inl own ↦
      let same : k ≡ b = sym (eq_of_beq b k own) in
      rw own (
        AllHave-append users (p b) (or_else (m k) []) (v ∷ [])
          (subst (λ x. AllHave users (p b) (or_else (m x) [])) (sym same) (h b))
          (subst (λ x. HasUser users (p x) v) same has, tt))
  | inr other ↦ rw other (h b)
]

push_user-AreSound :
    (users : List SeededDemoUser) (u : SeededDemoUser) (pools : Pools)
    → ((p : Actor) → passes p u ≡ true → HasUser users p u.id)
    → AreSound users pools
    → (role : RuntimeRole) (branch : Option String) → u.role ≡ role
    → branch_of u ≡ branch
    → AreSound users (push_user u role branch pools)
unfolding may_decide may_create
push_user-AreSound users u pools own h role none e f b = h b
push_user-AreSound users u pools own h admin (some k) e f b = h b
push_user-AreSound users u pools own h manager (some k) e f b = (
  push-AllHave users may_decide pools.branch_manager_ids k u.id (λ c. (h c).0)
      (own (may_decide k) (rw (e, f) (eq_refl k))) b,
  (h b).1,
)
push_user-AreSound users u pools own h operator (some k) e f b = (
  (h b).0,
  push-AllHave users may_create pools.operator_ids k u.id (λ c. (h c).1)
      (own (may_create k) (rw (e, f) (eq_refl k))) b,
)

pools_of-AreSound :
    (users us : List SeededDemoUser) (pools : Pools)
    → Included us users
    → AreSound users pools
    → AreSound users (pools_of us pools)
unfolding pools_of
pools_of-AreSound users [] pools h k = k
pools_of-AreSound users (u ∷ us) pools (own, later) k =
    pools_of-AreSound users us (push_user u u.role (branch_of u) pools) later
      (push_user-AreSound users u pools own k u.role (branch_of u) refl refl)

admin_passes :
    (branch : String) (u : SeededDemoUser) (role : RuntimeRole) (b : Option String)
    → is_admin role ≡ true
    → (may_decide branch u role b ≡ true) × (may_create branch u role b ≡ true)
unfolding may_decide may_create
admin_passes branch u admin b h = (refl, refl)
admin_passes branch u manager b h = absurd (cc)
admin_passes branch u operator b h = absurd (cc)

org_wide_passes :
    (branch : String) (u : SeededDemoUser) (role : RuntimeRole) (b : Option String)
    → is_org_wide u role b ≡ true
    → (may_decide branch u role b ≡ true) × (may_create branch u role b ≡ true)
unfolding may_decide may_create
org_wide_passes branch u manager none h = (refl, refl)
org_wide_passes branch u manager (some k) h = absurd (cc)
org_wide_passes branch u admin b h = absurd (cc)
org_wide_passes branch u operator b h = absurd (cc)

-- Who may decide may also create.
decide_creates :
    (branch : String) (u : SeededDemoUser) (role : RuntimeRole) (b : Option String)
    → may_decide branch u role b ≡ true
    → may_create branch u role b ≡ true
unfolding may_decide may_create
decide_creates branch u admin b h = refl
decide_creates branch u manager none h = refl
decide_creates branch u manager (some k) h = h
decide_creates branch u operator b h = absurd (cc)

pub any_weaken :
    (us : List SeededDemoUser) (branch id : String)
    → any (λ u. u.id == id && passes (may_decide branch) u) us ≡ true
    → any (λ u. u.id == id && passes (may_create branch) u) us ≡ true
any_weaken [] branch id h = h
any_weaken (u ∷ us) branch id h = elim (Bool-cases (u.id == id && passes (may_decide branch) u)) [
  | inl own ↦
      let may : passes (may_decide branch) u ≡ true = ground (arith, own) in
      let same : (u.id == id) ≡ true = ground (arith, own) in
      rw (same, decide_creates branch u u.role (branch_of u) may) refl
  | inr other ↦ let rest = any_weaken us branch id (rw other at h) in ground (arith, rest)
]

AllHave-may_create :
    (users : List SeededDemoUser) (branch : String) (ids : List String)
    → AllHave users (may_decide branch) ids
    → AllHave users (may_create branch) ids
AllHave-may_create users branch [] h = tt
AllHave-may_create users branch (id ∷ ids) (own, later) =
    (any_weaken users branch id own, AllHave-may_create users branch ids later)

module _ (users : List SeededDemoUser) where
  abbrev pub pools : Pools
  pools = pools_of users no_pools

  pools-AreSound : AreSound users pools
  pools-AreSound = pools_of-AreSound users users no_pools (Included-refl users) (λ b. (tt, tt))

  pub admin_ids-AllHave : (branch : String) → AllHave users (may_decide branch) (admin_ids users)
  unfolding admin_ids
  admin_ids-AllHave branch =
      ids_where-AllHave users users (may_decide branch) (λ u. is_admin u.role) (Included-refl users)
        (λ u h. (admin_passes branch u u.role (branch_of u) h).0)

  branch_managers-AllHave :
      (branch : String) → AllHave users (may_decide branch) (branch_managers users pools branch)
  unfolding org_wide_manager_ids
  branch_managers-AllHave branch =
      AllHave-append users (may_decide branch) (or_else (pools.branch_manager_ids branch) [])
        (org_wide_manager_ids users ++ admin_ids users) (pools-AreSound branch).0
        (AllHave-append users (may_decide branch) (org_wide_manager_ids users) (admin_ids users)
          (ids_where-AllHave users users (may_decide branch)
            (λ u. is_org_wide u u.role (branch_of u)) (Included-refl users)
            (λ u h. (org_wide_passes branch u u.role (branch_of u) h).0))
          (admin_ids-AllHave branch))

  pub creator_pool-AllHave :
      (branch : String) → AllHave users (may_create branch) (creator_pool users pools branch)
  creator_pool-AllHave branch =
      elim (Bool-cases (is_empty (or_else (pools.operator_ids branch) []))) [
        | inl none_there ↦ rw none_there (
            AllHave-may_create users branch (branch_managers users pools branch)
              (branch_managers-AllHave branch))
        | inr some_there ↦ rw some_there ((pools-AreSound branch).1)
      ]

  pub approval_pool-AllHave :
      (branch fallback : String)
      → HasUser users (may_decide branch) fallback
      → AllHave users (may_decide branch) (approval_pool users pools branch fallback)
  approval_pool-AllHave branch fallback h =
      elim (Bool-cases (is_empty (branch_managers users pools branch))) [
        | inl none_there ↦ rw none_there (h, tt)
        | inr some_there ↦ rw some_there (branch_managers-AllHave branch)
      ]
