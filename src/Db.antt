-- ===== src/Db.antt =====
-- The database client. Prisma and PostgreSQL are not part of the repository, so a model's delegate
-- is a parameter: the operations that the services call, over an abstract store of rows, with what
-- Prisma documents of them. A row is observed by `find`, the query by primary key.
pub mod Memory
pub mod Rows
pub mod Pages
pub mod Single
pub mod Isolation
use ops_flow_ms.Shared.{
  ℕ, String, List, ◌≡◌, Bool, true, false, Option, none, some, ◌==◌, if◌then◌else◌, not, inl, inr,
  refl, ◌⊎◌, any,
}
use mathlib.Core.Option
use ops_flow_ms.Errors.{Thrown}
use Rows.{All}

-- What a write does: it is carried out, or the client throws and writes nothing.
pub data Outcome {ℓ} (A : Type ℓ) : Type ℓ where
  done : A → Outcome A
  threw : Thrown → Outcome A

abbrev pub keep {ℓ} : {A : Type ℓ} → (A → Bool) → Option A → Option A
keep p none = none
keep p (some a) = if p a then some a else none

abbrev pub change {ℓ} : {A : Type ℓ} → (A → Bool) → (A → A) → A → A
change p f a = if p a then f a else a

pub record Delegate {Row : Type 0} (id : Row → String) : Type 1 where
  pub Store : Type 0
  -- `findUnique` and `findFirst` by primary key
  pub find : String → Store → Option Row
  -- `findFirst` and `findUnique` by another condition
  pub find_first : (Row → Bool) → Store → Option Row
  pub find_many : (Row → Bool) → Store → List Row
  pub create : Row → Store → Outcome Store
  pub update_many : (Row → Bool) → (Row → Row) → Store → Outcome Store
  pub delete_many : (Row → Bool) → Store → Outcome Store
  pub find_id : (k : String) (s : Store) {r : Row} → find k s ≡ some r → id r ≡ k
  pub find_first_sound :
      (p : Row → Bool) (s : Store) {r : Row}
      → find_first p s ≡ some r
      → (p r ≡ true) × (find (id r) s ≡ some r)
  pub find_first_complete :
      (p : Row → Bool) (s : Store) (k : String) {r : Row}
      → find_first p s ≡ none
      → find k s ≡ some r
      → p r ≡ false
  pub find_many_sound :
      (p : Row → Bool) (s : Store)
      → All (λ r. (p r ≡ true) × (find (id r) s ≡ some r)) (find_many p s)
  pub find_many_complete :
      (p : Row → Bool) (s : Store) (k : String) {r : Row}
      → find k s ≡ some r
      → p r ≡ true
      → any (λ q. id q == k) (find_many p s) ≡ true
  -- A primary key is unique.
  pub create_fresh : (r : Row) (s : Store) {t : Store} → create r s ≡ done t → find (id r) s ≡ none
  pub find-create :
      (r : Row) (s : Store) (k : String) {t : Store}
      → create r s ≡ done t
      → find k t ≡ (if id r == k then some r else find k s)
  pub find-update_many :
      (p : Row → Bool) (f : Row → Row) (s : Store) (k : String) {t : Store}
      → ((r : Row) → id (f r) ≡ id r)
      → update_many p f s ≡ done t
      → find k t ≡ Option.map (change p f) (find k s)
  pub find-delete_many :
      (p : Row → Bool) (s : Store) (k : String) {t : Store}
      → delete_many p s ≡ done t
      → find k t ≡ keep (λ r. not (p r)) (find k s)

pub Outcome-cases {ℓ} :
    {A : Type ℓ} (o : Outcome A) → ((a : A) × (o ≡ done a)) ⊎ ((e : Thrown) × (o ≡ threw e))
Outcome-cases (done a) = inl (a, refl)
Outcome-cases (threw e) = inr (e, refl)
