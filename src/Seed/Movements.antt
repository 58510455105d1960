-- ===== src/Seed/Movements.antt =====
-- Every demo movement has the actors that its status calls for, from those who may act on its branch.
use ops_flow_ms.Shared.{List, String, [], some, ℕ, ◌∷◌, ◌≡◌, ◌*◌, ◌+◌, ◌<◌}
use ops_flow_ms.Seed.{SeededDemoUser, DemoMovement, day_ms}
use ops_flow_ms.CashMovements.Service.Lifecycle.{HasActors}
use ops_flow_ms.Seed.Actors.{HasUser, may_create, may_decide}

module _ (users : List SeededDemoUser) where
  -- The row has the actors of its status, from the users who may act on its branch, and was made within
  -- thirty days of a time and a day after it at the latest.
  abbrev pub IsSound : ℕ → DemoMovement → Type 0
  IsSound now m =
      HasActors m.status m.approved_by_id m.delivered_by_id
      × HasUser users (may_create m.branch_id) m.created_by_id
      × ((a : String) → m.approved_by_id ≡ some a → HasUser users (may_decide m.branch_id) a)
      × ((a : String) → m.delivered_by_id ≡ some a → HasUser users (may_decide m.branch_id) a)
      × (m.created_at < now + day_ms)
      × (now < m.created_at + 30 * day_ms)

  abbrev pub AllSound : ℕ → List DemoMovement → Type 0
  AllSound now [] = Unit
  AllSound now (m ∷ ms) = IsSound now m × AllSound now ms
