-- ===== src/CashMovements/Service/Race.antt =====
-- Two requests on one movement whose checks both run before either write. The update of the source
-- states the id alone as its condition, so the second write does not see the first.
use ops_flow_ms.Branches.Repository.{branch_id}
use ops_flow_ms.CashMovements.Repository.{movement_id, update_status}
use ops_flow_ms.CashMovements.Service.{check_transition, write_transition}
use ops_flow_ms.CashMovements.Service.Writes.{patched, write_transition_sound}
use ops_flow_ms.CashMovements.Service.Checks.{check_transition_iff}
use ops_flow_ms.AuthContext.{AuthenticatedUserContext}
use ops_flow_ms.CashMovements.Input.{
  CashMovementResponse, Decimals, Movement, approved_by, ActorField, map_movement,
}
use ops_flow_ms.Db.{Delegate, done}
use ops_flow_ms.Shared.{
  String, false, none, some, ℕ, ◌≡◌, refl, subst, sym, Bool, true, ap, pair_eq, ◌∙◌,
}
use ops_flow_ms.CashMovements.Transition.{
  approved, is_valid_cash_movement_transition, rejected, CashMovementStatus,
}
use ops_flow_ms.Errors.Result.{ok, Result, succeeds}
use ops_flow_ms.Db.Single.{update_one, has_key}

module _ (dec : Decimals) (db : Delegate branch_id)
    (mv : Delegate (movement_id {Decimal = dec.Decimal})) where
  -- The database carries out every write.
  abbrev pub CarriesOut : Type 0
  CarriesOut =
      (p : Movement dec → Bool) (f : Movement dec → Movement dec) (s : mv.Store)
      → (t : mv.Store) × (mv.update_many p f s ≡ done t)

  -- An approval and a rejection of a movement that both have checked: the approval writes, then the
  -- rejection, each at its own time.
  unfoldable pub interleave :
      ℕ
      → ℕ
      → Movement dec
      → AuthenticatedUserContext
      → AuthenticatedUserContext
      → mv.Store
      → (Result CashMovementResponse × mv.Store) × (Result CashMovementResponse × mv.Store)
  unfolding write_transition
  interleave time later movement u v s =
      let first = write_transition dec db mv time movement approved approved_by u s in
      (first, write_transition dec db mv later movement rejected approved_by v first.1)

  -- Two answers of an interleaving, with the tables after each: both are done, and the movement goes from
  -- approved by the first user to rejected without an approver.
  abbrev pub BothDone :
      String
      → AuthenticatedUserContext
      → (Result CashMovementResponse × mv.Store) × (Result CashMovementResponse × mv.Store)
      → Type 0
  BothDone id u answers =
      (succeeds answers.0.0 ≡ true)
      × (succeeds answers.1.0 ≡ true)
      × ((m₁ : Movement dec) × (m₂ : Movement dec) × (mv.find id answers.0.1 ≡ some m₁)
          × (mv.find id answers.1.1 ≡ some m₂)
          × (m₁.status ≡ approved)
          × (m₂.status ≡ rejected)
          × (m₁.approved_by_id ≡ some u.id)
          × (m₂.approved_by_id ≡ none)
          × (is_valid_cash_movement_transition m₁.status m₂.status ≡ false))

  -- A write of a transition is answered as done whenever a row is stored under the id by then, whatever
  -- its status.
  write_transition_done :
      CarriesOut
      → (now : ℕ) (m old : Movement dec) (target : CashMovementStatus) (field : ActorField)
        (u : AuthenticatedUserContext) (s : mv.Store)
      → mv.find m.id s ≡ some old
      → (t : mv.Store) × (write_transition dec db mv now m target field u s
          ≡ (ok (map_movement dec (patched dec db mv now target field u old)), t))
  unfolding write_transition update_status update_one
  write_transition_done carries now m old target field u s found =
      let (t, w) = carries (has_key mv m.id) (patched dec db mv now target field u) s in
      (t, rw (write_transition, update_status, update_one, found, w) refl)

  -- Whenever an approval and a rejection of one movement have both passed their checks before either writes,
  -- and the database carries out the writes, both are answered as done, and the movement goes from APPROVED
  -- to REJECTED, which the workflow forbids, with its approver erased.
  pub interleaving_breaks_workflow :
      CarriesOut
      → (id : String) (u v : AuthenticatedUserContext) (b : db.Store) (s : mv.Store)
        (time later : ℕ) (movement : Movement dec)
      → check_transition dec db mv id approved u b s ≡ ok movement
      → check_transition dec db mv id rejected v b s ≡ ok movement
      → BothDone id u (interleave time later movement u v s)
  unfolding interleave is_valid_cash_movement_transition
  interleaving_breaks_workflow carries id u v b s time later m first second =
      let may = (check_transition_iff dec db mv id approved u b s m).0 first in
      let key : m.id ≡ id = mv.find_id id s may.0 in
      let found : mv.find m.id s ≡ some m = subst (λ x. mv.find x s ≡ some m) (sym key) may.0 in
      let m₁ = patched dec db mv time approved approved_by u m in
      let m₂ = patched dec db mv later rejected approved_by v m₁ in
      let (s₁, w₁) = write_transition_done carries time m m approved approved_by u s found in
      let (_, stored₁, _, _) =
        write_transition_sound dec db mv time m m approved approved_by u s s₁ (map_movement dec m₁)
          found w₁ in
      let (s₂, w₂) = write_transition_done carries later m m₁ rejected approved_by v s₁ stored₁ in
      let (_, stored₂, _, _) =
        write_transition_sound dec db mv later m m₁ rejected approved_by v s₁ s₂
          (map_movement dec m₂) stored₁ w₂ in
      let both : interleave time later m u v s
          ≡ ((ok (map_movement dec m₁), s₁), (ok (map_movement dec m₂), s₂)) =
        pair_eq w₁
          (ap (λ x. write_transition dec db mv later m rejected approved_by v x.1) w₁ ∙ w₂) in
      subst (BothDone id u) (sym both) (
        refl,
        refl,
        (
          m₁,
          m₂,
          subst (λ x. mv.find x s₁ ≡ some m₁) key stored₁,
          subst (λ x. mv.find x s₂ ≡ some m₂) key stored₂,
          refl,
          refl,
          refl,
          refl,
          refl,
        ),
      )
