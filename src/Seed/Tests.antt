-- ===== src/Seed/Tests.antt =====
-- The demo movements of two branches, with an administrator, a manager and an operator.
use ops_flow_ms.Seed.{DemoBranch, Parsed, SeededDemoUser, parse_env_int, parsed}
use ops_flow_ms.Shared.{
  List, String, [], false, if◌then◌else◌, none, refl, some, trim, ◌==◌, ◌∷◌, ◌≡◌,
}
use ops_flow_ms.AuthContext.{admin, manager, operator}

abbrev people : List SeededDemoUser
people =
    record { id = "a"; email = "a@x.io"; role = admin; branch_id = none }
    ∷ record { id = "m"; email = "m@x.io"; role = manager; branch_id = some "north" }
    ∷ record { id = "o"; email = "o@x.io"; role = operator; branch_id = some "hq" }
    ∷ []

abbrev places : List DemoBranch
places =
    record { id = "hq"; code = "HQ"; name = "HQ" }
    ∷ record { id = "north"; code = "NORTE"; name = "Sucursal Norte" }
    ∷ []

-- A number out of bounds, one within and a blank one.
parses : String → Parsed
parses s = if s == "999" then parsed false 999 else parsed false 5

env_int_test :
    (parse_env_int parses (some " 999 ") 24 4 120 ≡ 120)
    × (parse_env_int parses (some "5") 24 4 120 ≡ 5)
    × (parse_env_int parses (some " ") 24 4 120 ≡ 24)
unfolding parse_env_int parses trim
env_int_test = (refl, refl, refl)
