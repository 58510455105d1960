-- ===== src/AuthContext/Tests.antt =====
-- The theorems on the context of a user at concrete names.
use ops_flow_ms.Shared.{List, String, [], ◌∷◌}

abbrev names : List String
names = "USER" ∷ "MANAGER" ∷ "USER" ∷ []
