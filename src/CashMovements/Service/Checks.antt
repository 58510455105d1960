-- ===== src/CashMovements/Service/Checks.antt =====
-- What a transition of a cash movement checks and writes, on every branch.
use ops_flow_ms.Branches.Repository.{branch_id}
use ops_flow_ms.Branches.Access.Scope.{Belongs, scope, IsWithin}
use ops_flow_ms.Branches.Access.Accessible.{assert_branch_accessible_iff}
use ops_flow_ms.CashMovements.Repository.{movement_id, find_by_id}
use ops_flow_ms.CashMovements.Transition.{
  CashMovementStatus, Step, is_valid_cash_movement_transition,
  is_valid_cash_movement_transition_iff, status_text,
}
use ops_flow_ms.AuthContext.{AuthenticatedUserContext}
use ops_flow_ms.CashMovements.Input.{Decimals, Movement, ActorField}
use ops_flow_ms.Db.{Delegate}
use ops_flow_ms.Errors.Result.{Result, err, ok, throw_if, ◌>>◌, >>=-eq-ok, err-ne-ok}
use ops_flow_ms.Shared.{
  String, arith, beq_of_eq, beq_of_ne, false, none, not, some, ◌≡◌, ◌≢◌, Bool-cases, Option-cases,
  eq_of_beq, inl, inr, ne_of_beq, subst, sym, ℕ, ◌==◌, ◌↔◌, ◌∙◌,
}
use ops_flow_ms.Branches.Access.{assert_branch_accessible}
use ops_flow_ms.Tenancy.{assert_organization_access}
use ops_flow_ms.Errors.{cashflow_invalid_transition, conflict, not_found, resource_not_found}
use ops_flow_ms.CashMovements.Service.{check_transition, transition}
use ops_flow_ms.Branches.Tests.{foreign}

module _ (dec : Decimals) (db : Delegate branch_id)
    (mv : Delegate (movement_id {Decimal = dec.Decimal})) where
  -- What a transition of a movement to a status needs.
  abbrev pub MayTransition :
      String
      → CashMovementStatus
      → AuthenticatedUserContext
      → db.Store
      → mv.Store
      → Movement dec
      → Type 0
  MayTransition id target u b s m =
      (mv.find id s ≡ some m)
      × (m.organization_id ≡ u.organization_id)
      × IsWithin m.branch_id (scope u)
      × Belongs db b u.organization_id m.branch_id false
      × Step m.status target

  checked :
      CashMovementStatus
      → AuthenticatedUserContext
      → db.Store
      → Movement dec
      → Result (Movement dec)
  checked target u b m = do
    assert_branch_accessible db b u m.branch_id
    throw_if (not (is_valid_cash_movement_transition m.status target)) (
        conflict cashflow_invalid_transition
          (record { from = status_text m.status; to = status_text target }))
    ok m

  check-checked :
      (id : String) (target : CashMovementStatus) (u : AuthenticatedUserContext) (b : db.Store)
      (s : mv.Store) (m : Movement dec)
      → mv.find id s ≡ some m
      → m.organization_id ≡ u.organization_id
      → check_transition dec db mv id target u b s ≡ checked target u b m
  unfolding check_transition checked find_by_id assert_organization_access
  check-checked id target u b s m found own =
      rw (found, beq_of_eq m.organization_id u.organization_id own)

  check_missing :
      (id : String) (target : CashMovementStatus) (u : AuthenticatedUserContext) (b : db.Store)
      (s : mv.Store)
      → mv.find id s ≡ none
      → check_transition dec db mv id target u b s ≡ err (not_found resource_not_found)
  unfolding check_transition find_by_id
  check_missing id target u b s missing = ground arith

  check_foreign :
      (id : String) (target : CashMovementStatus) (u : AuthenticatedUserContext) (b : db.Store)
      (s : mv.Store) (m : Movement dec)
      → mv.find id s ≡ some m
      → m.organization_id ≢ u.organization_id
      → check_transition dec db mv id target u b s ≡ err (not_found resource_not_found)
  unfolding check_transition find_by_id assert_organization_access
  check_foreign id target u b s m found other =
      rw (found, beq_of_ne m.organization_id u.organization_id other)

  checked_sound :
      (target : CashMovementStatus) (u : AuthenticatedUserContext) (b : db.Store)
      (m m' : Movement dec)
      → checked target u b m ≡ ok m'
      → (m ≡ m')
        × IsWithin m.branch_id (scope u)
        × Belongs db b u.organization_id m.branch_id false
        × Step m.status target
  unfolding checked
  checked_sound target u b m m' e =
      let (_, accessible, later) = >>=-eq-ok (assert_branch_accessible db b u m.branch_id) _ e in
      let (within, belongs) = (assert_branch_accessible_iff db b u m.branch_id).0 accessible in
      elim (Bool-cases (is_valid_cash_movement_transition m.status target)) [
        | inl valid ↦
            let last : ok m ≡ ok m' = rw valid at later in
            (cc, within, belongs, (is_valid_cash_movement_transition_iff m.status target).0 valid)
        | inr invalid ↦ let last = rw invalid at later in absurd (err-ne-ok _ m' last)
      ]

  checked_complete :
      (target : CashMovementStatus) (u : AuthenticatedUserContext) (b : db.Store) (m : Movement dec)
      → IsWithin m.branch_id (scope u)
      → Belongs db b u.organization_id m.branch_id false
      → Step m.status target
      → checked target u b m ≡ ok m
  unfolding checked
  checked_complete target u b m within belongs step =
      let accessible = (assert_branch_accessible_iff db b u m.branch_id).1 (within, belongs) in
      let valid = (is_valid_cash_movement_transition_iff m.status target).1 step in
      rw (accessible, valid)

  check_sound :
      (id : String) (target : CashMovementStatus) (u : AuthenticatedUserContext) (b : db.Store)
      (s : mv.Store) (m : Movement dec)
      → check_transition dec db mv id target u b s ≡ ok m
      → MayTransition id target u b s m
  check_sound id target u b s m e = elim (Option-cases (mv.find id s)) [
    | inl missing ↦ absurd (let gone = check_missing id target u b s missing in cc)
    | inr (x, found) ↦ elim (Bool-cases (x.organization_id == u.organization_id)) [
      | inr other ↦
          absurd (let hidden = check_foreign id target u b s x found (ne_of_beq _ _ other) in cc)
      | inl own ↦
          let owned = eq_of_beq _ _ own in
          let (same, within, belongs, step) =
            checked_sound target u b x m (sym (check-checked id target u b s x found owned) ∙ e) in
          subst (MayTransition id target u b s) same (found, owned, within, belongs, step)
    ]
  ]

  -- A transition passes its checks exactly when the movement is in the table, belongs to the
  -- user's organization, its branch lies within the user's scope and belongs to the organization,
  -- and the workflow has a step from its status to the target.
  pub check_transition_iff :
      (id : String) (target : CashMovementStatus) (u : AuthenticatedUserContext) (b : db.Store)
      (s : mv.Store) (m : Movement dec)
      → (check_transition dec db mv id target u b s ≡ ok m) ↔ MayTransition id target u b s m
  check_transition_iff id target u b s m = (
    check_sound id target u b s m,
    λ (found, own, within, belongs, step).
        check-checked id target u b s m found own
        ∙ checked_complete target u b m within belongs step,
  )

  -- An id of a movement of another organization is answered as an id that is not in the table, and
  -- the table is left alone.
  pub transition_hides_foreign :
      (now : ℕ) (id : String) (target : CashMovementStatus) (field : ActorField)
      (u : AuthenticatedUserContext) (b : db.Store) (s : mv.Store)
      → ((m : Movement dec) → mv.find id s ≡ some m → m.organization_id ≢ u.organization_id)
      → transition dec db mv now id target field u b s ≡ (err (not_found resource_not_found), s)
  unfolding transition
  transition_hides_foreign now id target field u b s foreign = elim (Option-cases (mv.find id s)) [
    | inl missing ↦ rw (transition, check_missing id target u b s missing)
    | inr (m, found) ↦ rw (transition, check_foreign id target u b s m found (foreign m found))
  ]
