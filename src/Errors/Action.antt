-- ===== src/Errors/Action.antt =====
-- Actions over an explicit state: what a handler wrote before it threw stays written.
use ops_flow_ms.Errors.Result.{Result}

abbrev pub Action {ℓ} : Type ℓ → Type 0 → Type ℓ
Action S A = S → Result A × S
