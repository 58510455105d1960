-- ===== src/Db/Pages.antt =====
-- Ordered listings: `findMany` with `orderBy`, `skip` and `take`, and `count`. What Prisma documents
-- of them: a page is a slice of all the rows that match, in the order of the query.
use ops_flow_ms.Db.Rows.{All, take, drop}
use ops_flow_ms.Shared.{Bool, List, String, length, some, true, ℕ, ◌≡◌}
use ops_flow_ms.Db.{Delegate}

pub record Pages {Row : Type 0} {id : Row → String} (db : Delegate id) : Type 0 where
  pub find_page : (Row → Bool) → ℕ → ℕ → db.Store → List Row
  pub count : (Row → Bool) → db.Store → ℕ
  -- every row that matches, in the order of the query
  pub ordered : (Row → Bool) → db.Store → List Row
  pub ordered_sound :
      (p : Row → Bool) (s : db.Store)
      → All (λ r. (p r ≡ true) × (db.find (id r) s ≡ some r)) (ordered p s)
  pub find_page_slice :
      (p : Row → Bool) (skip count' : ℕ) (s : db.Store)
      → find_page p skip count' s ≡ take count' (drop skip (ordered p s))
  pub count_ordered : (p : Row → Bool) (s : db.Store) → count p s ≡ length (ordered p s)
