-- ===== src/Auth/Tests/Registrations.antt =====
-- The theorem on registrations with an empty database but for one user.
use ops_flow_ms.Auth.{User, Tokens}
use ops_flow_ms.Auth.Tests.{secrets, sessions, users, one_user, no_meta, one_session, draw}
use ops_flow_ms.Auth.Sessions.{next_session, tokens, create_session}
use ops_flow_ms.Auth.Registration.{
  Organization, Role, organization_id, role_id, SeedEnvironment, RegistrationDraw,
  RegistrationState, upsert, ensure_default_organization_id, ensure_operator_role_id, registered,
  register,
}
use ops_flow_ms.Auth.Registration.Laws.{WasRegistered, register_sound}
use ops_flow_ms.Db.{Delegate}
use ops_flow_ms.Shared.{[], none, refl, slice_to, true, ◌==◌, ◌∷◌, ◌≡◌}
use ops_flow_ms.Db.Memory.{memory}
use ops_flow_ms.Errors.Result.{ok}
use ops_flow_ms.Errors.{primitive}

abbrev organizations : Delegate organization_id
organizations = memory organization_id (λ a b. a.slug == b.slug) primitive

abbrev roles : Delegate role_id
roles = memory role_id (λ a b. a.name == b.name) primitive

abbrev no_variables : SeedEnvironment
no_variables = record { seed_org_slug = none; seed_org_name = none }

abbrev draws : RegistrationDraw
draws = record {
  organization_uuid = "o1";
  role_uuid = "r1";
  user_uuid = "u2";
  user_salt = "z";
  session = draw;
}

abbrev issued : Tokens
issued = tokens secrets sessions none draw "u2"

abbrev default_organization : Organization
default_organization = record {
  id = "o1";
  name = "Default Organization";
  slug = "default-org";
  is_active = true;
}

abbrev operator_role : Role
operator_role = record { id = "r1"; name = "OPERATOR" }

abbrev dan : User
dan =
    registered secrets sessions none users organizations roles no_variables draws "dan@x.io" "pw"
      "o1" "r1"

abbrev empty_state : RegistrationState secrets sessions none users organizations roles no_variables
empty_state = ([], [], one_user, one_session)

abbrev full_state : RegistrationState secrets sessions none users organizations roles no_variables
full_state = (
  default_organization ∷ [],
  operator_role ∷ [],
  dan ∷ one_user,
  next_session secrets sessions none draw "u2" no_meta ∷ one_session,
)

registers :
    register secrets sessions none users organizations roles no_variables draws "dan@x.io" "pw"
      no_meta empty_state
    ≡ (ok issued, full_state)
unfolding register ensure_default_organization_id ensure_operator_role_id upsert create_session
    slice_to
registers = refl

register_sound_example :
    WasRegistered secrets sessions none users organizations roles no_variables draws "dan@x.io" "pw"
      no_meta issued empty_state full_state
register_sound_example =
    register_sound secrets sessions none users organizations roles no_variables draws "dan@x.io"
      "pw" no_meta issued [] (default_organization ∷ []) [] (operator_role ∷ []) one_user
      (dan ∷ one_user) one_session
      (next_session secrets sessions none draw "u2" no_meta ∷ one_session) registers
