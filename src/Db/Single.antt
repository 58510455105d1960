-- ===== src/Db/Single.antt =====
-- `update` of the one row with a key: it throws P2025 where there is no such row.
use ops_flow_ms.Shared.{
  Bool, Option-cases, String, arith, beq_of_eq, inl, inr, none, some, ◌==◌, ◌∙◌, ◌≡◌, ◌≢◌,
  beq_of_ne, sym,
}
use ops_flow_ms.Db.{Delegate, Outcome, threw, done}
use ops_flow_ms.Errors.{absent, object}

module _ {Row : Type 0} {id : Row → String} (db : Delegate id) where
  abbrev pub has_key : String → Row → Bool
  has_key k r = id r == k

  unfoldable pub update_one : String → (Row → Row) → db.Store → Outcome (Row × db.Store)
  update_one k f s = elim (db.find k s) [
    | none ↦ threw (object (some "P2025") absent)
    | some r ↦ elim (db.update_many (has_key k) f s) [ done t ↦ done (f r, t) | threw e ↦ threw e ]
  ]

  update_many_others :
      (k : String) (f : Row → Row) (s : db.Store) (j : String) {t : db.Store}
      → ((q : Row) → id (f q) ≡ id q)
      → j ≢ k
      → db.update_many (has_key k) f s ≡ done t
      → db.find j t ≡ db.find j s
  update_many_others k f s j keeps other written =
      let law = db.find-update_many (has_key k) f s j keeps written in
      elim (Option-cases (db.find j s)) [
        | inl missing ↦ law ∙ rw missing
        | inr (q, found) ↦
            let key : id q ≡ j = db.find_id j s found in
            law ∙ rw found (rw (beq_of_ne (id q) k (λ e. other (sym key ∙ e))))
      ]

  -- What is returned was stored under the key and changed, and no other row is touched.
  pub update_one_sound :
      (k : String) (f : Row → Row) (s : db.Store) {r : Row} {t : db.Store}
      → ((q : Row) → id (f q) ≡ id q)
      → update_one k f s ≡ done (r, t)
      → (old : Row) × (db.find k s ≡ some old)
        × (r ≡ f old)
        × (db.find k t ≡ some r)
        × (db.update_many (has_key k) f s ≡ done t)
        × ((j : String) → j ≢ k → db.find j t ≡ db.find j s)
  unfolding update_one
  update_one_sound k f s {r} {t} keeps e = elim (Option-cases (db.find k s)) [
    | inl missing ↦ absurd (ground arith)
    | inr (old, found) ↦
        let written : db.update_many (has_key k) f s ≡ done t = ground arith in
        let same : r ≡ f old = ground arith in
        let law = rw found at (db.find-update_many (has_key k) f s k keeps written) in
        let key = beq_of_eq (id old) k (db.find_id k s found) in
        (
          old,
          found,
          same,
          law ∙ rw (key, same),
          written,
          λ j other. update_many_others k f s j keeps other written,
        )
  ]
