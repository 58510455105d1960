-- ===== src/CashMovements/Transition.antt =====
-- src/cash-movements/cash-movement-transition.validator.ts, against the workflow as a relation.
use ops_flow_ms.Shared.{
  Bool, List, [], any, ap, arith, false, refl, suc, true, ℕ, ◌+◌, ◌<◌, ◌↔◌, ◌∷◌, ◌≡◌, ◌≢◌, ◌≤◌,
  String,
}

pub data CashMovementStatus : Type 0 where
  pending approved rejected delivered : CashMovementStatus

-- The text of a status, as the client of the database writes it.
abbrev pub status_text : CashMovementStatus → String
status_text pending = "PENDING"
status_text approved = "APPROVED"
status_text rejected = "REJECTED"
status_text delivered = "DELIVERED"

abbrev pub status_eq : CashMovementStatus → CashMovementStatus → Bool
status_eq pending pending = true
status_eq approved approved = true
status_eq rejected rejected = true
status_eq delivered delivered = true
status_eq _ _ = false

-- `VALID_TRANSITIONS`.
abbrev valid_transitions : CashMovementStatus → List CashMovementStatus
valid_transitions pending = approved ∷ rejected ∷ []
valid_transitions approved = delivered ∷ []
valid_transitions rejected = []
valid_transitions delivered = []

unfoldable pub is_valid_cash_movement_transition : CashMovementStatus → CashMovementStatus → Bool
is_valid_cash_movement_transition from to = any (λ s. status_eq s to) (valid_transitions from)

-- The workflow of the documentation: PENDING to APPROVED or REJECTED, APPROVED to DELIVERED.
pub data Step : CashMovementStatus → CashMovementStatus → Type 0 where
  to_approved : Step pending approved
  to_rejected : Step pending rejected
  to_delivered : Step approved delivered

-- The validator accepts exactly the steps of the workflow.
pub is_valid_cash_movement_transition_iff :
    (from to : CashMovementStatus)
    → (is_valid_cash_movement_transition from to ≡ true) ↔ Step from to
unfolding is_valid_cash_movement_transition
is_valid_cash_movement_transition_iff from to = (sound from to, complete)
  where
    sound :
        (from to : CashMovementStatus)
        → is_valid_cash_movement_transition from to ≡ true
        → Step from to
    sound pending approved e = to_approved
    sound pending rejected e = to_rejected
    sound approved delivered e = to_delivered
    sound _ _ e = absurd (cc)

    complete :
        {from to : CashMovementStatus}
        → Step from to
        → is_valid_cash_movement_transition from to ≡ true
    complete to_approved = refl
    complete to_rejected = refl
    complete to_delivered = refl

abbrev rank : CashMovementStatus → ℕ
rank pending = 0
rank approved = 1
rank rejected = 2
rank delivered = 2

Step-rank : {s t : CashMovementStatus} → Step s t → rank s < rank t
Step-rank to_approved = omega arith
Step-rank to_rejected = omega arith
Step-rank to_delivered = omega arith

-- A history of transitions that the validator accepted, and their number.
pub data Reach (s : CashMovementStatus) : CashMovementStatus → ℕ → Type 0 where
  no_step : Reach s s 0
  one_more :
      {t u : CashMovementStatus} {n : ℕ}
      → Reach s t n
      → is_valid_cash_movement_transition t u ≡ true
      → Reach s u (suc n)

valid-rank :
    (t u : CashMovementStatus) → is_valid_cash_movement_transition t u ≡ true → rank t < rank u
valid-rank t u e = Step-rank ((is_valid_cash_movement_transition_iff t u).0 e)

rank-le : (s : CashMovementStatus) → rank s ≤ 2
rank-le pending = omega arith
rank-le _ = omega arith

Reach-rank : {s t : CashMovementStatus} {n : ℕ} → Reach s t n → rank s + n ≤ rank t
Reach-rank no_step = omega arith
Reach-rank (one_more {t} {u} r e) = omega (arith, Reach-rank r, valid-rank t u e)

-- A movement makes at most two accepted transitions, and never comes back to a status that it left.
pub Reach-terminates : {s t : CashMovementStatus} {n : ℕ} → Reach s t n → (n ≤ 2) × (0 < n → s ≢ t)
Reach-terminates {s} {t} {n} r = (
  omega (arith, Reach-rank r, rank-le t),
  λ moved same. absurd (let e : rank s ≡ rank t = ap rank same in omega (arith, Reach-rank r)),
)
