-- ===== src/CashMovements/Service/Writes.antt =====
-- What a transition writes, and that a refused one writes nothing.
use ops_flow_ms.Branches.Repository.{branch_id}
use ops_flow_ms.CashMovements.Repository.{movement_id, apply_status, update_status}
use ops_flow_ms.CashMovements.Transition.{
  CashMovementStatus, approved, delivered, pending, rejected,
}
use ops_flow_ms.CashMovements.Service.{write_transition, transition, check_transition}
use ops_flow_ms.CashMovements.Service.Checks.{MayTransition, check_transition_iff}
use ops_flow_ms.Db.Single.{update_one, update_one_sound, has_key}
use ops_flow_ms.CashMovements.Input.{
  ActorField, CashMovementResponse, Decimals, Movement, map_movement, status_patch, approved_by,
  delivered_by,
}
use ops_flow_ms.AuthContext.{AuthenticatedUserContext}
use ops_flow_ms.Db.{Delegate, done, Outcome-cases, threw}
use ops_flow_ms.Errors.{Failure, Thrown, thrown}
use ops_flow_ms.Shared.{
  String, refl, some, ℕ, ◌≡◌, ◌≢◌, ap, inl, inr, subst, sym, ◌∙◌, Option, none,
}
use ops_flow_ms.Errors.Result.{err-ne-ok, ok_inj, err, ok, Result}

module _ (dec : Decimals) (db : Delegate branch_id)
    (mv : Delegate (movement_id {Decimal = dec.Decimal})) where
  abbrev pub patched :
      ℕ → CashMovementStatus → ActorField → AuthenticatedUserContext → Movement dec → Movement dec
  patched now target field u m = apply_status now (status_patch target field u.id) m

  keeps_id :
      (now : ℕ) (target : CashMovementStatus) (field : ActorField) (u : AuthenticatedUserContext)
      (m : Movement dec)
      → movement_id (patched now target field u m) ≡ movement_id m
  keeps_id now target field u m = refl

  failed_ne_ok :
      (now : ℕ) (m : Movement dec) (target : CashMovementStatus) (field : ActorField)
      (u : AuthenticatedUserContext) (s t : mv.Store) (answered : CashMovementResponse)
      (error : Thrown)
      → update_one mv m.id (patched now target field u) s ≡ threw error
      → write_transition dec db mv now m target field u s ≢ (ok answered, t)
  unfolding write_transition update_status
  failed_ne_ok now m target field u s t answered error w e =
      let e' : (err (thrown error), s) ≡ (ok answered, t) =
        rw (w, write_transition, update_status) at e in
      err-ne-ok (thrown error) answered (ap (λ x. x.0) e')

  written :
      (now : ℕ) (m : Movement dec) (target : CashMovementStatus) (field : ActorField)
      (u : AuthenticatedUserContext) (s t t' : mv.Store) (answered : CashMovementResponse)
      (row : Movement dec)
      → update_one mv m.id (patched now target field u) s ≡ done (row, t')
      → write_transition dec db mv now m target field u s ≡ (ok answered, t)
      → (map_movement dec row ≡ answered) × (t' ≡ t)
  unfolding write_transition update_status
  written now m target field u s t t' answered row w e =
      let e' : (ok (map_movement dec row), t') ≡ (ok answered, t) =
        rw (w, write_transition, update_status) at e in
      (ok_inj (map_movement dec row) answered (ap (λ x. x.0) e'), ap (λ x. x.1) e')

  -- The write changes the row that is stored by then under the id.
  pub write_transition_sound :
      (now : ℕ) (m old : Movement dec) (target : CashMovementStatus) (field : ActorField)
      (u : AuthenticatedUserContext) (s t : mv.Store) (answered : CashMovementResponse)
      → mv.find m.id s ≡ some old
      → write_transition dec db mv now m target field u s ≡ (ok answered, t)
      → (answered ≡ map_movement dec (patched now target field u old))
        × (mv.find m.id t ≡ some (patched now target field u old))
        × (mv.update_many (has_key mv m.id) (patched now target field u) s ≡ done t)
        × ((j : String) → j ≢ m.id → mv.find j t ≡ mv.find j s)
  unfolding write_transition update_status
  write_transition_sound now m old target field u s t answered found e =
      let f = patched now target field u in
      elim (Outcome-cases (update_one mv m.id f s)) [
        | inr (error, w) ↦ absurd (failed_ne_ok now m target field u s t answered error w e)
        | inl ((row, t'), w) ↦
            let (same_answer, same_store) = written now m target field u s t t' answered row w e in
            let (old', found', changed, stored, updated, others) =
              update_one_sound mv m.id f s (keeps_id now target field u) w in
            let same_old : old' ≡ old = cc in
            let row_is : row ≡ f old = changed ∙ ap f same_old in
            (
              sym same_answer ∙ ap (map_movement dec) row_is,
              subst (λ x. mv.find m.id x ≡ some (f old)) same_store (stored ∙ ap some row_is),
              updated ∙ ap done same_store,
              λ j other. subst (λ x. mv.find j x ≡ mv.find j s) same_store (others j other),
            )
      ]

  write_transition_failed :
      (now : ℕ) (m : Movement dec) (target : CashMovementStatus) (field : ActorField)
      (u : AuthenticatedUserContext) (s t : mv.Store) (error : Failure)
      → write_transition dec db mv now m target field u s ≡ (err error, t)
      → t ≡ s
  unfolding write_transition update_status
  write_transition_failed now m target field u s t error e =
      elim (Outcome-cases (update_one mv m.id (patched now target field u) s)) [
        | inr (thrown_error, w) ↦
            let e' : (err (thrown thrown_error), s) ≡ (err error, t) =
              rw (w, write_transition, update_status) at e in
            sym (ap (λ x. x.1) e')
        | inl ((row, t'), w) ↦
            let e' : (ok (map_movement dec row), t') ≡ (err error, t) =
              rw (w, write_transition, update_status) at e in
            absurd (err-ne-ok error (map_movement dec row) (sym (ap (λ x. x.0) e')))
      ]

  -- Who is recorded: a rejection has no approver, and the field of the action names the user.
  abbrev pub Acted :
      CashMovementStatus
      → ActorField
      → String
      → Movement dec
      → Option String
      → Option String
      → Type 0
  Acted rejected approved_by who m approver deliverer =
      (approver ≡ none) × (deliverer ≡ m.delivered_by_id)
  Acted rejected delivered_by who m approver deliverer = (approver ≡ none) × (deliverer ≡ some who)
  Acted _ approved_by who m approver deliverer =
      (approver ≡ some who) × (deliverer ≡ m.delivered_by_id)
  Acted _ delivered_by who m approver deliverer =
      (approver ≡ m.approved_by_id) × (deliverer ≡ some who)

  -- The row after a transition: the target, the actors and the time are new, all else is as it was.
  abbrev pub WasMoved :
      ℕ → CashMovementStatus → ActorField → String → Movement dec → Movement dec → Type 0
  WasMoved now target field who m m' =
      (approver : Option String) × (deliverer : Option String) × Acted target field who m approver
        deliverer
      × (m' ≡ record m {
        status = target;
        approved_by_id = approver;
        delivered_by_id = deliverer;
        updated_at = now;
      })

  patched-WasMoved :
      (now : ℕ) (target : CashMovementStatus) (field : ActorField) (u : AuthenticatedUserContext)
      (m : Movement dec)
      → WasMoved now target field u.id m (patched now target field u m)
  patched-WasMoved now pending approved_by u m = (_, _, (refl, refl), refl)
  patched-WasMoved now pending delivered_by u m = (_, _, (refl, refl), refl)
  patched-WasMoved now approved approved_by u m = (_, _, (refl, refl), refl)
  patched-WasMoved now approved delivered_by u m = (_, _, (refl, refl), refl)
  patched-WasMoved now rejected approved_by u m = (_, _, (refl, refl), refl)
  patched-WasMoved now rejected delivered_by u m = (_, _, (refl, refl), refl)
  patched-WasMoved now delivered approved_by u m = (_, _, (refl, refl), refl)
  patched-WasMoved now delivered delivered_by u m = (_, _, (refl, refl), refl)

  -- The answer shows the row.
  abbrev pub IsShown : Movement dec → CashMovementResponse → Type 0
  IsShown m answered = answered ≡ record {
    id = m.id;
    organization_id = m.organization_id;
    branch_id = m.branch_id;
    created_by_id = m.created_by_id;
    approved_by_id = m.approved_by_id;
    delivered_by_id = m.delivered_by_id;
    type = m.type;
    status = m.status;
    amount = dec.to_fixed_2 m.amount;
    currency = m.currency;
    description = m.description;
    created_at = m.created_at;
    updated_at = m.updated_at;
  }

  pub transition_writes :
      (now : ℕ) (id : String) (target : CashMovementStatus) (field : ActorField)
      (u : AuthenticatedUserContext) (b : db.Store) (s t : mv.Store)
      (answered : CashMovementResponse)
      → transition dec db mv now id target field u b s ≡ (ok answered, t)
      → (m : Movement dec) × MayTransition dec db mv id target u b s m
        × (answered ≡ map_movement dec (patched now target field u m))
        × (mv.find id t ≡ some (patched now target field u m))
        × ((j : String) → j ≢ id → mv.find j t ≡ mv.find j s)
  unfolding transition
  transition_writes now id target field u b s t answered e =
      go (check_transition dec db mv id target u b s) refl
    where
      go :
          (r : Result (Movement dec))
          → check_transition dec db mv id target u b s ≡ r
          → (m : Movement dec) × MayTransition dec db mv id target u b s m
            × (answered ≡ map_movement dec (patched now target field u m))
            × (mv.find id t ≡ some (patched now target field u m))
            × ((j : String) → j ≢ id → mv.find j t ≡ mv.find j s)
      go (err error) c =
          let e' : (err error, s) ≡ (ok answered, t) = rw (c, transition) at e in
          absurd (err-ne-ok error answered (ap (λ x. x.0) e'))
      go (ok m) c =
          let may = (check_transition_iff dec db mv id target u b s m).0 c in
          let key : m.id ≡ id = mv.find_id id s may.0 in
          let found : mv.find m.id s ≡ some m = subst (λ x. mv.find x s ≡ some m) (sym key) may.0 in
          let e' = rw (c, transition) at e in
          let (same, stored, _, others) =
            write_transition_sound now m m target field u s t answered found e' in
          (
            m,
            may,
            same,
            subst (λ x. mv.find x t ≡ some (patched now target field u m)) key stored,
            λ j other. others j (λ p. other (p ∙ key)),
          )

  -- A transition that answers with a movement was allowed to make its step; it leaves the row as it was
  -- but for the target status, the actors that the target and the action call for and the time, answers with
  -- all of that row, and touches no other movement.
  pub transition_sound :
      (now : ℕ) (id : String) (target : CashMovementStatus) (field : ActorField)
      (u : AuthenticatedUserContext) (b : db.Store) (s t : mv.Store)
      (answered : CashMovementResponse)
      → transition dec db mv now id target field u b s ≡ (ok answered, t)
      → (m : Movement dec) × (m' : Movement dec) × MayTransition dec db mv id target u b s m
        × WasMoved now target field u.id m m'
        × IsShown m' answered
        × (mv.find id t ≡ some m')
        × ((j : String) → j ≢ id → mv.find j t ≡ mv.find j s)
  transition_sound now id target field u b s t answered e =
      let (m, may, same, stored, others) =
        transition_writes now id target field u b s t answered e in
      (
        m,
        patched now target field u m,
        may,
        patched-WasMoved now target field u m,
        same,
        stored,
        others,
      )

  -- A transition that is refused, for whatever reason, writes nothing.
  pub transition_refused :
      (now : ℕ) (id : String) (target : CashMovementStatus) (field : ActorField)
      (u : AuthenticatedUserContext) (b : db.Store) (s t : mv.Store) (error : Failure)
      → transition dec db mv now id target field u b s ≡ (err error, t)
      → t ≡ s
  unfolding transition
  transition_refused now id target field u b s t error e =
      go (check_transition dec db mv id target u b s) refl
    where
      go : (r : Result (Movement dec)) → check_transition dec db mv id target u b s ≡ r → t ≡ s
      go (err other) c =
          let e' : (err other, s) ≡ (err error, t) = rw (c, transition) at e in
          sym (ap (λ x. x.1) e')
      go (ok m) c = write_transition_failed now m target field u s t error (rw (c, transition) at e)
