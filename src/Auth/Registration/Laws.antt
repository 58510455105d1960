-- ===== src/Auth/Registration/Laws.antt =====
-- What a registration writes.
use ops_flow_ms.Auth.{User, user_id, session_id, SessionMeta, Tokens, Secrets}
use ops_flow_ms.Auth.Sessions.{next_session, tokens}
use ops_flow_ms.Auth.Login.{created}
use ops_flow_ms.Auth.Registration.{
  default_org_name, translate_email_error, Organization, Role, organization_id, role_id,
  SeedEnvironment, RegistrationDraw, RegistrationState, upsert, ensure_default_organization_id,
  ensure_operator_role_id, registered, register, default_org_slug,
}
use ops_flow_ms.Db.Single.{update_one, update_one_sound}
use ops_flow_ms.Shared.{
  Bool, Option-cases, String, ap, eq_refl, inl, inr, some, some_inj, subst, sym, true, ◌∙◌, ◌≡◌,
  Option, [], none, refl, ℕ, ◌∷◌, eq_of_beq, pair_eq, ◌==◌,
}
use ops_flow_ms.Db.{Delegate, Outcome-cases}
use ops_flow_ms.Errors.Result.{err-ne-ok, ok, ok_inj, Result, err}
use ops_flow_ms.Errors.{thrown}

-- A row that an upsert answers with is stored and has its unique column.
upsert_sound :
    {Row : Type 0} {id : Row → String} (db : Delegate id) (condition : Row → Bool)
    (change' : Row → Row) (new : Row) (s t : db.Store) (k : String)
    → ((r : Row) → id (change' r) ≡ id r)
    → ((r : Row) → condition r ≡ true → condition (change' r) ≡ true)
    → condition new ≡ true
    → upsert db condition change' new s ≡ (ok k, t)
    → (row : Row) × (db.find k t ≡ some row) × (condition row ≡ true)
unfolding upsert
upsert_sound {Row} {id} db condition change' new s t k keeps still fits e =
    elim (Option-cases (db.find_first condition s)) [
      | inr (row, first) ↦
          let (has, stored) = db.find_first_sound condition s first in
          elim (Outcome-cases (update_one db (id row) change' s)) [
            | inr (error, failed) ↦
                let q = ap (λ x. x.0) (rw (upsert, first, failed) at e) in
                absurd (err-ne-ok (thrown error) k q)
            | inl ((row', t'), updated) ↦
                let e' : (ok (id row), t') ≡ (ok k, t) = rw (upsert, first, updated) at e in
                let (old, found, changed, kept, _, _) =
                  update_one_sound db (id row) change' s keeps updated in
                let is : old ≡ row = some_inj (sym found ∙ stored) in
                let key : id row ≡ k = ok_inj (id row) k (ap (λ x. x.0) e') in
                let same : t' ≡ t = ap (λ x. x.1) e' in
                (
                  change' row,
                  subst (λ x. db.find x t ≡ some (change' row)) key
                      (subst (λ x. db.find (id row) x ≡ some (change' row)) same
                        (kept ∙ ap some (changed ∙ ap change' is))),
                  still row has,
                )
          ]
      | inl missing ↦ elim (Outcome-cases (db.create new s)) [
        | inr (error, failed) ↦
            let q = ap (λ x. x.0) (rw (upsert, missing, failed) at e) in
            absurd (err-ne-ok (thrown error) k q)
        | inl (t', made) ↦
            let e' : (ok (id new), t') ≡ (ok k, t) = rw (upsert, missing, made) at e in
            let key : id new ≡ k = ok_inj (id new) k (ap (λ x. x.0) e') in
            let same : t' ≡ t = ap (λ x. x.1) e' in
            let law : db.find (id new) t' ≡ some new =
              rw (eq_refl (id new)) at (db.find-create new s (id new) made) in
            (
              new,
              subst (λ x. db.find x t ≡ some new) key
                  (subst (λ x. db.find (id new) x ≡ some new) same law),
              fits,
            )
      ]
    ]

module _ (secrets : Secrets) (sessions : Delegate session_id) (max_age : Option ℕ)
    (users : Delegate user_id) (organizations : Delegate organization_id) (roles : Delegate role_id)
    (env : SeedEnvironment) where
  open secrets use {compare, compare-hash}

  -- What a registration leaves.
  abbrev pub WasRegistered :
      RegistrationDraw
      → String
      → String
      → SessionMeta
      → Tokens
      → RegistrationState secrets sessions max_age users organizations roles env
      → RegistrationState secrets sessions max_age users organizations roles env
      → Type 0
  WasRegistered draw email password meta answered (os, rs, us, ss) (os', rs', us', ss') =
      (organization : Organization) × (role : Role) × (user : User) × (organizations.find
          user.organization_id os'
        ≡ some organization)
      × (organization.slug ≡ default_org_slug env)
      × (user.role_ids ≡ role.id ∷ [])
      × (roles.find role.id rs' ≡ some role)
      × (role.name ≡ "OPERATOR")
      × (users.find draw.user_uuid us ≡ none)
      × (users.find draw.user_uuid us' ≡ some user)
      × (user.email ≡ email)
      × (user.is_active ≡ true)
      × (user.branch_id ≡ none)
      × (compare password user.password ≡ true)
      × (answered ≡ tokens secrets sessions max_age draw.session draw.user_uuid)
      × (sessions.find draw.session.uuid ss'
          ≡ some (next_session secrets sessions max_age draw.session draw.user_uuid meta))

  default_organization :
      (uuid : String) (s t : organizations.Store) (k : String)
      → ensure_default_organization_id secrets sessions max_age users organizations roles env uuid s
        ≡ (ok k, t)
      → (row : Organization) × (organizations.find k t ≡ some row)
        × (row.slug ≡ default_org_slug env)
  unfolding ensure_default_organization_id
  default_organization uuid s t k e =
      let (row, stored, has) =
        upsert_sound organizations (λ o. o.slug == default_org_slug env)
          (λ o. record o { name = default_org_name env; is_active = true }) _ s t k (λ r. refl)
          (λ r h. h) (eq_refl (default_org_slug env)) e in
      (row, stored, eq_of_beq row.slug (default_org_slug env) has)

  operator_role :
      (uuid : String) (s t : roles.Store) (k : String)
      → ensure_operator_role_id secrets sessions max_age users organizations roles env uuid s
        ≡ (ok k, t)
      → (row : Role) × (roles.find k t ≡ some row) × (row.name ≡ "OPERATOR")
  unfolding ensure_operator_role_id
  operator_role uuid s t k e =
      let (row, stored, has) =
        upsert_sound roles (λ r. r.name == "OPERATOR") (λ r. r) _ s t k (λ r. refl) (λ r h. h)
          (eq_refl "OPERATOR") e in
      (row, stored, eq_of_beq row.name "OPERATOR" has)

  -- A registration that succeeds leaves a new active user with the given address, a hash that
  -- accepts the password, no branch and the one role OPERATOR, in the default organization, both of
  -- which are stored, and answers with tokens for a session of that user that is stored too.
  pub register_sound :
      (draw : RegistrationDraw) (email password : String) (meta : SessionMeta) (answered : Tokens)
      (os os' : organizations.Store) (rs rs' : roles.Store) (us us' : users.Store)
      (ss ss' : sessions.Store)
      → register secrets sessions max_age users organizations roles env draw email password meta
          (os, rs, us, ss)
        ≡ (ok answered, (os', rs', us', ss'))
      → WasRegistered draw email password meta answered (os, rs, us, ss) (os', rs', us', ss')
  unfolding register
  register_sound draw email password meta answered os os' rs rs' us us' ss ss' e =
      go
        (ensure_default_organization_id secrets sessions max_age users organizations roles env
          draw.organization_uuid os).0
        (ensure_operator_role_id secrets sessions max_age users organizations roles env
          draw.role_uuid rs).0
        refl refl
    where
      go :
          (o r : Result String)
          → (ensure_default_organization_id secrets sessions max_age users organizations roles env
              draw.organization_uuid os).0
            ≡ o
          → (ensure_operator_role_id secrets sessions max_age users organizations roles env
              draw.role_uuid rs).0
            ≡ r
          → WasRegistered draw email password meta answered (os, rs, us, ss) (os', rs', us', ss')
      go (err error) r eo er =
          absurd (err-ne-ok error answered (ap (λ x. x.0) (rw (register, eo) at e)))
      go (ok o) (err error) eo er =
          absurd (err-ne-ok error answered (ap (λ x. x.0) (rw (register, eo, er) at e)))
      go (ok o) (ok r) eo er =
          let row =
            registered secrets sessions max_age users organizations roles env draw email password o
              r in
          elim (Outcome-cases (users.create row us)) [
            | inr (error, failed) ↦ absurd (
                err-ne-ok (translate_email_error error) answered
                  (ap (λ x. x.0) (rw (register, eo, er, failed) at e)))
            | inl (us₁, made) ↦
                let e' = rw (register, eo, er, made) at e in
                let (organization, org_stored, slugged) =
                  default_organization draw.organization_uuid os os' o
                    (pair_eq eo (ap (λ x. x.1.0) e')) in
                let (role, role_stored, named) =
                  operator_role draw.role_uuid rs rs' r (pair_eq er (ap (λ x. x.1.1) e')) in
                let (same, session) =
                  created secrets sessions max_age draw.session draw.user_uuid meta ss ss' answered
                    (pair_eq (ap (λ x. x.0) e') (ap (λ x. x.1.3) e')) in
                let fresh = users.create_fresh row us made in
                let law : users.find draw.user_uuid us₁ ≡ some row =
                  rw (eq_refl draw.user_uuid) at (users.find-create row us draw.user_uuid made) in
                let key : role.id ≡ r = roles.find_id r rs' {r = role} role_stored in
                (
                  organization,
                  role,
                  row,
                  org_stored,
                  slugged,
                  ap (λ k. k ∷ []) (sym key),
                  subst (λ k. roles.find k rs' ≡ some role) (sym key) role_stored,
                  named,
                  fresh,
                  subst (λ x. users.find draw.user_uuid x ≡ some row) (ap (λ x. x.1.2) e') law,
                  refl,
                  refl,
                  refl,
                  compare-hash draw.user_salt password,
                  same,
                  session,
                )
          ]
