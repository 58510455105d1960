-- ===== src/Auth/Registration.antt =====
-- src/auth/auth.service.ts: registration. Its writes are no transaction, so an earlier one stays where
-- a later one throws.
pub mod Laws
use mathlib.Core.Option
use ops_flow_ms.Auth.{User, AuthSession, user_id, session_id, SessionMeta, Tokens, Secrets, Draw}
use ops_flow_ms.Auth.Sessions.{create_session}
use ops_flow_ms.Db.Single.{update_one}
use ops_flow_ms.Errors.Action.{Action}
use ops_flow_ms.Shared.{
  Bool, Option, String, [], if◌then◌else◌, none, or_else, slice_to, some, to_lower_case, trim, true,
  truthy, ℕ, ◌==◌, ◌∷◌,
}
use ops_flow_ms.Db.{Delegate, threw, done}
use ops_flow_ms.Errors.{
  Failure, Thrown, forbidden, is_email_unique_violation, thrown, user_already_exists,
}
use ops_flow_ms.Branches.Repository.{branch_id}
use ops_flow_ms.CashMovements.Service.Paging.{condition}
use ops_flow_ms.Errors.Result.{err, ok}
use ops_flow_ms.Branches.Service.Isolation.{organization}

pub record Organization : Type 0 where
  pub id : String
  pub name : String
  pub slug : String
  pub is_active : Bool

pub record Role : Type 0 where
  pub id : String
  pub name : String

abbrev pub organization_id : Organization → String
organization_id o = o.id

abbrev pub role_id : Role → String
role_id r = r.id

-- The environment variables.
pub record SeedEnvironment : Type 0 where
  pub seed_org_slug : Option String
  pub seed_org_name : Option String

abbrev pub default_org_slug : SeedEnvironment → String
default_org_slug env =
    slice_to 64
      (or_else (truthy (Option.map (λ s. to_lower_case (trim s)) env.seed_org_slug)) "default-org")

abbrev pub default_org_name : SeedEnvironment → String
default_org_name env = or_else (truthy (Option.map trim env.seed_org_name)) "Default Organization"

-- `upsert` of the row of which a condition on a unique column holds.
unfoldable pub upsert :
    {Row : Type 0} {id : Row → String} (db : Delegate id)
    → (Row → Bool)
    → (Row → Row)
    → Row
    → Action db.Store String
upsert {Row} {id} db condition change' new s = elim (db.find_first condition s) [
  | some row ↦ elim (update_one db (id row) change' s) [
    | done (_, t) ↦ (ok (id row), t)
    | threw e ↦ (err (thrown e), s)
  ]
  | none ↦ elim (db.create new s) [ done t ↦ (ok (id new), t) | threw e ↦ (err (thrown e), s) ]
]

-- What a registration draws besides the draw of its session.
pub record RegistrationDraw : Type 0 where
  pub organization_uuid : String
  pub role_uuid : String
  pub user_uuid : String
  pub user_salt : String
  pub session : Draw

-- The `catch` of the user's creation.
abbrev pub translate_email_error : Thrown → Failure
translate_email_error e =
    if is_email_unique_violation e then forbidden user_already_exists else thrown e

module _ (secrets : Secrets) (sessions : Delegate session_id) (max_age : Option ℕ)
    (users : Delegate user_id) (organizations : Delegate organization_id) (roles : Delegate role_id)
    (env : SeedEnvironment) where
  open secrets use {hash}

  abbrev has_slug : Organization → Bool
  has_slug o = o.slug == default_org_slug env

  abbrev renew : Organization → Organization
  renew o = record o { name = default_org_name env; is_active = true }

  unfoldable pub ensure_default_organization_id : String → Action organizations.Store String
  ensure_default_organization_id uuid s =
      upsert organizations has_slug renew
        (record {
          id = uuid;
          name = default_org_name env;
          slug = default_org_slug env;
          is_active = true;
        })
        s

  abbrev is_operator_role : Role → Bool
  is_operator_role r = r.name == "OPERATOR"

  unfoldable pub ensure_operator_role_id : String → Action roles.Store String
  ensure_operator_role_id uuid s =
      upsert roles is_operator_role (λ r. r) (record { id = uuid; name = "OPERATOR" }) s

  abbrev pub registered : RegistrationDraw → String → String → String → String → User
  registered draw email password organization role = record {
    id = draw.user_uuid;
    email = email;
    password = hash draw.user_salt password;
    is_active = true;
    organization_id = organization;
    branch_id = none;
    role_ids = role ∷ [];
  }

  abbrev pub RegistrationState : Type 0
  RegistrationState = organizations.Store × roles.Store × users.Store × sessions.Store

  unfoldable pub register :
      RegistrationDraw → String → String → SessionMeta → Action RegistrationState Tokens
  register draw email password meta (os, rs, us, ss) =
      let (organization, os') = ensure_default_organization_id draw.organization_uuid os in
      elim organization [
        | err e ↦ (err e, (os', rs, us, ss))
        | ok organization' ↦
            let (role, rs') = ensure_operator_role_id draw.role_uuid rs in
            elim role [
              | err e ↦ (err e, (os', rs', us, ss))
              | ok role' ↦
                  elim (users.create (registered draw email password organization' role') us) [
                    | threw e ↦ (err (translate_email_error e), (os', rs', us, ss))
                    | done us' ↦
                        let (r, ss') =
                          create_session secrets sessions max_age draw.session draw.user_uuid meta
                            none ss in
                        (r, (os', rs', us', ss'))
                  ]
            ]
      ]
