-- ===== src/CashMovements/Service/Isolation.antt =====
-- No request of a user changes, adds or removes a movement of another organization.
use ops_flow_ms.Branches.Repository.{branch_id}
use ops_flow_ms.CashMovements.Repository.{movement_id}
use ops_flow_ms.CashMovements.Service.{create, transition, approve, reject, deliver}
use ops_flow_ms.CashMovements.Service.Lifecycle.{
  Request, creation, approval, rejection, delivery, perform, perform_all, History,
}
use ops_flow_ms.CashMovements.Service.Writes.{transition_refused, transition_writes}
use ops_flow_ms.Db.Isolation.{Isolates, create-Isolates, Isolates-refl, one_row-Isolates}
use ops_flow_ms.CashMovements.Input.{
  ActorField, CashMovementResponse, Decimals, Movement, CreateCashMovementDto, approved_by,
  delivered_by,
}
use ops_flow_ms.AuthContext.{AuthenticatedUserContext}
use ops_flow_ms.CashMovements.Transition.{CashMovementStatus, approved, delivered, rejected}
use ops_flow_ms.Db.{Delegate}
use ops_flow_ms.Errors.Result.{Result, err, ok}
use ops_flow_ms.Shared.{String, refl, subst, sym, ℕ, ◌≡◌, [], inl, inr, some, ◌↔◌, ◌∙◌, ◌∷◌, ◌≢◌}
use ops_flow_ms.CashMovements.Service.Creation.{create_outcome, new_row}

module _ (dec : Decimals) (db : Delegate branch_id)
    (mv : Delegate (movement_id {Decimal = dec.Decimal})) where
  abbrev pub owner : Movement dec → String
  owner m = m.organization_id

  transition-Isolates :
      (now : ℕ) (id : String) (target : CashMovementStatus) (field : ActorField)
      (u : AuthenticatedUserContext) (b : db.Store) (s : mv.Store)
      → Isolates mv owner u.organization_id s (transition dec db mv now id target field u b s).1
  transition-Isolates now id target field u b s =
      go (transition dec db mv now id target field u b s) refl
    where
      go :
          (p : Result CashMovementResponse × mv.Store)
          → transition dec db mv now id target field u b s ≡ p
          → Isolates mv owner u.organization_id s p.1
      go (err error, t) e =
          subst (Isolates mv owner u.organization_id s)
            (sym (transition_refused dec db mv now id target field u b s t error e))
            (Isolates-refl mv owner u.organization_id s)
      go (ok answered, t) e =
          let (m, may, _, stored, others) =
            transition_writes dec db mv now id target field u b s t answered e in
          one_row-Isolates mv owner u.organization_id id s t may.0 may.1 stored may.1 others

  create-Isolates_movements :
      (uuid : String) (now : ℕ) (dto : CreateCashMovementDto) (u : AuthenticatedUserContext)
      (b : db.Store) (s : mv.Store)
      → Isolates mv owner u.organization_id s (create dec db mv uuid now dto u b s).1
  create-Isolates_movements uuid now dto u b s =
      elim (create_outcome dec db mv uuid now dto u b s) [
        | inl (_, _, same) ↦
            subst (Isolates mv owner u.organization_id s) (sym same)
              (Isolates-refl mv owner u.organization_id s)
        | inr (input, _, _, wrote) ↦
            create-Isolates mv owner u.organization_id (new_row dec db mv uuid now u input) s
              (create dec db mv uuid now dto u b s).1 refl wrote
      ]

  perform-Isolates :
      (now : ℕ) (u : AuthenticatedUserContext) (b : db.Store) (request : Request) (s : mv.Store)
      → Isolates mv owner u.organization_id s (perform dec db mv now u b request s).1
  unfolding perform approve reject deliver
  perform-Isolates now u b (creation uuid dto) s = create-Isolates_movements uuid now dto u b s
  perform-Isolates now u b (approval id) s = transition-Isolates now id approved approved_by u b s
  perform-Isolates now u b (rejection id) s = transition-Isolates now id rejected approved_by u b s
  perform-Isolates now u b (delivery id) s = transition-Isolates now id delivered delivered_by u b s

  -- No user of the organization makes a request in the history.
  abbrev IsSilent : String → History dec db mv → Type 0
  IsSilent org [] = Unit
  IsSilent org ((now, u, b, request) ∷ later) = (org ≢ u.organization_id) × IsSilent org later

  -- The movements of an organization stay exactly as they are over every history of requests in
  -- which only users of other organizations act: each is found with the same contents before and
  -- after, and none is added.
  pub perform_all-Isolates :
      (org : String) (history : History dec db mv) (s : mv.Store) (k : String) (m : Movement dec)
      → IsSilent org history
      → m.organization_id ≡ org
      → (mv.find k s ≡ some m) ↔ (mv.find k (perform_all dec db mv history s) ≡ some m)
  unfolding perform_all
  perform_all-Isolates org [] s k m silent own = ((λ e. e), λ e. e)
  perform_all-Isolates org ((now, u, b, request) ∷ later) s k m (other, silent) own =
      let (to, from) = perform-Isolates now u b request s k m (λ e. other (sym own ∙ e)) in
      let (to', from') =
        perform_all-Isolates org later (perform dec db mv now u b request s).1 k m silent own in
      ((λ e. to' (to e)), λ e. from (from' e))
