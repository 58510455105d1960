-- ===== src/CashMovements/Service/Creation.antt =====
-- What the creation of a movement checks and writes.
use ops_flow_ms.Branches.Repository.{branch_id}
use ops_flow_ms.CashMovements.Repository.{CashMovementRecord, CashMovementCreateInput, movement_id}
use ops_flow_ms.CashMovements.Repository
use ops_flow_ms.CashMovements.Service.{create, prepare_create}
use ops_flow_ms.CashMovements.Transition.{pending}
use ops_flow_ms.Branches.Access.Scope.{Grants, scope, Belongs}
use ops_flow_ms.AuthContext.{AuthenticatedUserContext}
use ops_flow_ms.CashMovements.Input.{
  CreateCashMovementDto, Decimals, Movement, map_movement, parse_amount,
}
use ops_flow_ms.Db.{Delegate, Outcome-cases, done}
use ops_flow_ms.Shared.{
  false, if◌then◌else◌, none, some, true, truthy, ◌≡◌, String, inl, inr, refl, subst, ℕ, ◌∙◌, ◌⊎◌,
}
use ops_flow_ms.Branches.Access.{is_operator, resolve_branch_for_create}
use ops_flow_ms.Errors.Result.{
  ok, >>=-eq-ok, Result, err, ok_inj, or_throw-eq-ok, throw_if, throw_if-eq-ok,
}
use ops_flow_ms.Errors.{Failure, bad_request, cash_movements_invalid_amount, thrown}
use ops_flow_ms.Branches.Access.Resolution.{resolve_branch_for_create_iff}

module _ (dec : Decimals) (db : Delegate branch_id)
    (mv : Delegate (movement_id {Decimal = dec.Decimal})) where
  open dec use {Decimal, parse, lte_zero}

  abbrev pub IsPrepared :
      CreateCashMovementDto
      → AuthenticatedUserContext
      → db.Store
      → CashMovementCreateInput Decimal
      → Type 0
  IsPrepared dto u b input =
      Grants (scope u) (if is_operator u then none else truthy dto.branch_id) input.branch_id
      × Belongs db b u.organization_id input.branch_id true
      × (parse dto.amount ≡ some input.amount)
      × (lte_zero input.amount ≡ false)
      × (input.status ≡ pending)
      × (input.created_by_id ≡ u.id)

  prepare_create_sound :
      (dto : CreateCashMovementDto) (u : AuthenticatedUserContext) (b : db.Store)
      (input : CashMovementCreateInput Decimal)
      → prepare_create dec db mv dto u b ≡ ok input
      → IsPrepared dto u b input
  unfolding prepare_create
  prepare_create_sound dto u b input e =
      let (branch, resolved, e₁) = >>=-eq-ok (resolve_branch_for_create db b u dto.branch_id) _ e in
      let (amount, parsed, e₂) = >>=-eq-ok (parse_amount dec dto.amount) _ e₁ in
      let (_, positive, e₃) =
        >>=-eq-ok (throw_if (lte_zero amount) (bad_request cash_movements_invalid_amount)) _ e₂ in
      let (granted, belongs) =
        (resolve_branch_for_create_iff db b u dto.branch_id branch).0 resolved in
      subst (IsPrepared dto u b) (ok_inj _ input e₃) (
        granted,
        belongs,
        or_throw-eq-ok (parse dto.amount) _ parsed,
        throw_if-eq-ok (lte_zero amount) _ positive,
        refl,
        refl,
      )

  -- The row of a prepared input.
  abbrev pub new_row :
      String → ℕ → AuthenticatedUserContext → CashMovementCreateInput Decimal → Movement dec
  new_row uuid now u input = record {
    id = uuid;
    organization_id = u.organization_id;
    branch_id = input.branch_id;
    amount = input.amount;
    currency = input.currency;
    type = input.type;
    status = input.status;
    description = input.description;
    created_by_id = input.created_by_id;
    approved_by_id = none;
    delivered_by_id = none;
    created_at = now;
    updated_at = now;
  }

  -- Creating a movement leaves the table as it is, or writes one new movement, of the user's
  -- organization and on a branch that the user's scope grants; an answer without an error is the
  -- latter.
  pub create_outcome :
      (uuid : String) (now : ℕ) (dto : CreateCashMovementDto) (u : AuthenticatedUserContext)
      (b : db.Store) (s : mv.Store)
      → let (r, t) = create dec db mv uuid now dto u b s in
        ((e : Failure) × (r ≡ err e) × (t ≡ s))
        ⊎ ((input : CashMovementCreateInput Decimal) × IsPrepared dto u b input
            × (r ≡ ok (map_movement dec (new_row uuid now u input)))
            × (mv.create (new_row uuid now u input) s ≡ done t))
  unfolding create Repository.create
  create_outcome uuid now dto u b s = go (prepare_create dec db mv dto u b) refl
    where
      go :
          (p : Result (CashMovementCreateInput Decimal))
          → prepare_create dec db mv dto u b ≡ p
          → let (r, t) = create dec db mv uuid now dto u b s in
            ((e : Failure) × (r ≡ err e) × (t ≡ s))
            ⊎ ((input : CashMovementCreateInput Decimal) × IsPrepared dto u b input
                × (r ≡ ok (map_movement dec (new_row uuid now u input)))
                × (mv.create (new_row uuid now u input) s ≡ done t))
      go (err e) c = inl (e, rw (create, c), rw (create, c))
      go (ok input) c = elim (Outcome-cases (mv.create (new_row uuid now u input) s)) [
        | inl (t, w) ↦ inr (
          input,
          prepare_create_sound dto u b input c,
          rw (create, c, Repository.create, w),
          w ∙ rw (create, c, Repository.create, w),
        )
        | inr (e, w) ↦
            inl
              (thrown e, rw (create, c, Repository.create, w), rw (create, c, Repository.create, w))
      ]
