-- ===== src/CashMovements/Service/Lifecycle.antt =====
-- The life of a movement over any history of requests: who approved and delivered it is recorded
-- exactly where the workflow says so.
use ops_flow_ms.Branches.Repository.{branch_id}
use ops_flow_ms.CashMovements.Repository.{movement_id}
use ops_flow_ms.CashMovements.Transition.{
  CashMovementStatus, pending, approved, rejected, delivered, Step, to_approved, to_delivered,
  to_rejected,
}
use ops_flow_ms.CashMovements.Service.{
  approve, reject, deliver, transition, create, approve, reject, deliver,
}
use ops_flow_ms.CashMovements.Service.Writes.{patched, transition_refused, transition_writes}
use ops_flow_ms.AuthContext.{AuthenticatedUserContext}
use ops_flow_ms.CashMovements.Input.{
  CashMovementResponse, CreateCashMovementDto, Decimals, Movement, approved_by, ActorField,
  delivered_by,
}
use ops_flow_ms.Db.{Delegate}
use ops_flow_ms.Shared.{
  Option, String, is_some, none, some, true, ℕ, ◌≡◌, Bool-cases, eq_of_beq, inl, inr, ne_of_beq,
  refl, subst, sym, ◌==◌, ◌∙◌, List, [], ◌∷◌,
}
use ops_flow_ms.Errors.Result.{Result, err, ok}
use ops_flow_ms.CashMovements.Service.Creation.{create_outcome, new_row}

-- The actors that a status calls for.
abbrev pub HasActors : CashMovementStatus → Option String → Option String → Type 0
HasActors pending approver deliverer = (approver ≡ none) × (deliverer ≡ none)
HasActors approved approver deliverer = (is_some approver ≡ true) × (deliverer ≡ none)
HasActors rejected approver deliverer = (approver ≡ none) × (deliverer ≡ none)
HasActors delivered approver deliverer = (is_some approver ≡ true) × (is_some deliverer ≡ true)

after_approval :
    {s : CashMovementStatus} → Step s approved → (a d : Option String) → HasActors s a d → d ≡ none
after_approval to_approved a d h = h.1

after_rejection :
    {s : CashMovementStatus} → Step s rejected → (a d : Option String) → HasActors s a d → d ≡ none
after_rejection to_rejected a d h = h.1

after_delivery :
    {s : CashMovementStatus}
    → Step s delivered
    → (a d : Option String) → HasActors s a d
    → is_some a ≡ true
after_delivery to_delivered a d h = h.0

new_is_recorded : (status : CashMovementStatus) → status ≡ pending → HasActors status none none
new_is_recorded pending e = (refl, refl)
new_is_recorded approved e = absurd (cc)
new_is_recorded rejected e = (refl, refl)
new_is_recorded delivered e = absurd (cc)

-- A request of the movement endpoints.
pub data Request : Type 0 where
  creation : String → CreateCashMovementDto → Request
  approval : String → Request
  rejection : String → Request
  delivery : String → Request

module _ (dec : Decimals) (db : Delegate branch_id)
    (mv : Delegate (movement_id {Decimal = dec.Decimal})) where
  abbrev pub IsRecorded : Movement dec → Type 0
  IsRecorded m = HasActors m.status m.approved_by_id m.delivered_by_id

  abbrev pub AllRecorded : mv.Store → Type 0
  AllRecorded s = (k : String) (m : Movement dec) → mv.find k s ≡ some m → IsRecorded m

  unfoldable pub perform :
      ℕ
      → AuthenticatedUserContext
      → db.Store
      → Request
      → mv.Store
      → Result CashMovementResponse × mv.Store
  perform now u b (creation uuid dto) s = create dec db mv uuid now dto u b s
  perform now u b (approval id) s = approve dec db mv now id u b s
  perform now u b (rejection id) s = reject dec db mv now id u b s
  perform now u b (delivery id) s = deliver dec db mv now id u b s

  approve-IsRecorded :
      (now : ℕ) (u : AuthenticatedUserContext) (m : Movement dec)
      → Step m.status approved
      → IsRecorded m
      → IsRecorded (patched dec db mv now approved approved_by u m)
  approve-IsRecorded now u m step h =
      (refl, after_approval step m.approved_by_id m.delivered_by_id h)

  reject-IsRecorded :
      (now : ℕ) (u : AuthenticatedUserContext) (m : Movement dec)
      → Step m.status rejected
      → IsRecorded m
      → IsRecorded (patched dec db mv now rejected approved_by u m)
  reject-IsRecorded now u m step h =
      (refl, after_rejection step m.approved_by_id m.delivered_by_id h)

  deliver-IsRecorded :
      (now : ℕ) (u : AuthenticatedUserContext) (m : Movement dec)
      → Step m.status delivered
      → IsRecorded m
      → IsRecorded (patched dec db mv now delivered delivered_by u m)
  deliver-IsRecorded now u m step h =
      (after_delivery step m.approved_by_id m.delivered_by_id h, refl)

  transition-AllRecorded :
      (now : ℕ) (id : String) (target : CashMovementStatus) (field : ActorField)
      (u : AuthenticatedUserContext) (b : db.Store) (s : mv.Store)
      → ((m : Movement dec)
          → Step m.status target
          → IsRecorded m
          → IsRecorded (patched dec db mv now target field u m))
      → AllRecorded s
      → AllRecorded (transition dec db mv now id target field u b s).1
  transition-AllRecorded now id target field u b s steps h =
      go (transition dec db mv now id target field u b s) refl
    where
      go :
          (p : Result CashMovementResponse × mv.Store)
          → transition dec db mv now id target field u b s ≡ p
          → AllRecorded p.1
      go (err error, t) e k m found =
          let same = transition_refused dec db mv now id target field u b s t error e in
          h k m (subst (λ x. mv.find k x ≡ some m) same found)
      go (ok answered, t) e k m found =
          let (old, may, _, stored, others) =
            transition_writes dec db mv now id target field u b s t answered e in
          elim (Bool-cases (k == id)) [
            | inl same ↦
                let stored' : mv.find k t ≡ some (patched dec db mv now target field u old) =
                  subst (λ x. mv.find x t ≡ some (patched dec db mv now target field u old))
                    (sym (eq_of_beq k id same)) stored in
                let is : patched dec db mv now target field u old ≡ m = cc in
                subst IsRecorded is (steps old may.4 (h id old may.0))
            | inr other ↦ h k m (sym (others k (ne_of_beq k id other)) ∙ found)
          ]

  create-AllRecorded :
      (uuid : String) (now : ℕ) (dto : CreateCashMovementDto) (u : AuthenticatedUserContext)
      (b : db.Store) (s : mv.Store)
      → AllRecorded s
      → AllRecorded (create dec db mv uuid now dto u b s).1
  create-AllRecorded uuid now dto u b s h k m found =
      elim (create_outcome dec db mv uuid now dto u b s) [
        | inl (_, _, same) ↦ h k m (subst (λ x. mv.find k x ≡ some m) same found)
        | inr (input, prepared, _, wrote) ↦
            let row = new_row dec db mv uuid now u input in
            let law = mv.find-create row s k wrote in
            elim (Bool-cases (uuid == k)) [
              | inl own ↦
                  let stored : some row ≡ some m = sym (rw own at law) ∙ found in
                  let is : row ≡ m = cc in
                  subst IsRecorded is (new_is_recorded input.status prepared.4)
              | inr other ↦ h k m (sym (rw other at law) ∙ found)
            ]
      ]

  -- Whatever request is made by whatever user, a table in which every movement records its actors
  -- as its status calls for stays one: no approver and no deliverer while PENDING and once
  -- REJECTED, an approver alone once APPROVED, both once DELIVERED.
  perform-AllRecorded :
      (now : ℕ) (u : AuthenticatedUserContext) (b : db.Store) (request : Request) (s : mv.Store)
      → AllRecorded s
      → AllRecorded (perform now u b request s).1
  unfolding perform approve reject deliver
  perform-AllRecorded now u b (creation uuid dto) s h = create-AllRecorded uuid now dto u b s h
  perform-AllRecorded now u b (approval id) s h =
      transition-AllRecorded now id approved approved_by u b s (approve-IsRecorded now u) h
  perform-AllRecorded now u b (rejection id) s h =
      transition-AllRecorded now id rejected approved_by u b s (reject-IsRecorded now u) h
  perform-AllRecorded now u b (delivery id) s h =
      transition-AllRecorded now id delivered delivered_by u b s (deliver-IsRecorded now u) h

  -- A history: each request with its time, its user and the branches at that time.
  abbrev pub History : Type 0
  History = List (ℕ × AuthenticatedUserContext × db.Store × Request)

  unfoldable pub perform_all : History → mv.Store → mv.Store
  perform_all [] s = s
  perform_all ((now, u, b, request) ∷ later) s = perform_all later (perform now u b request s).1

  -- Every history of requests by any users, from a table in which every movement records its
  -- actors as its status calls for, leads to one in which every movement does.
  pub perform_all-AllRecorded :
      (history : History) (s : mv.Store) → AllRecorded s → AllRecorded (perform_all history s)
  unfolding perform_all
  perform_all-AllRecorded [] s h = h
  perform_all-AllRecorded ((now, u, b, request) ∷ later) s h =
      perform_all-AllRecorded later (perform now u b request s).1
        (perform-AllRecorded now u b request s h)
