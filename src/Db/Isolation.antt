-- ===== src/Db/Isolation.antt =====
-- Writes that leave the rows of every other organization alone, for a table whose rows belong to
-- organizations.
use ops_flow_ms.Shared.{
  Bool, Bool-cases, Option-cases, String, ap, eq_of_beq, inl, inr, none, some, subst, sym, true,
  ◌==◌, ◌↔◌, ◌∙◌, ◌≡◌, ◌≢◌, ne_of_beq,
}
use ops_flow_ms.Db.{Delegate, change, done}
use ops_flow_ms.Guards.{differs}

module _ {Row : Type 0} {id : Row → String} (db : Delegate id) (owner : Row → String) where
  -- From one store to the next, the rows of every other organization stay as they are.
  abbrev pub Isolates : String → db.Store → db.Store → Type 0
  Isolates org s t =
      (k : String) (r : Row) → owner r ≢ org → (db.find k s ≡ some r) ↔ (db.find k t ≡ some r)

  pub Isolates-refl : (org : String) (s : db.Store) → Isolates org s s
  Isolates-refl org s k r other = ((λ e. e), λ e. e)

  pub Isolates-trans :
      (org : String) (s t u : db.Store) → Isolates org s t → Isolates org t u → Isolates org s u
  Isolates-trans org s t u h k j r other =
      ((λ e. (k j r other).0 ((h j r other).0 e)), λ e. (h j r other).1 ((k j r other).1 e))

  pub create-Isolates :
      (org : String) (row : Row) (s t : db.Store)
      → owner row ≡ org
      → db.create row s ≡ done t
      → Isolates org s t
  create-Isolates org row s t own e k r other = elim (Bool-cases (id row == k)) [
    | inl same ↦
        let fresh : db.find k s ≡ none =
          subst (λ x. db.find x s ≡ none) (eq_of_beq (id row) k same) (db.create_fresh row s e) in
        let law : db.find k t ≡ some row = rw same at (db.find-create row s k e) in
        ((λ h. absurd (cc)), λ h. absurd (other (let q : row ≡ r = cc in ap owner (sym q) ∙ own)))
    | inr differs ↦
        let law : db.find k t ≡ db.find k s = rw differs at (db.find-create row s k e) in
        ((λ h. law ∙ h), λ h. sym law ∙ h)
  ]

  -- An update that touches rows of the organization only, and moves none out of it.
  pub update_many-Isolates :
      (org : String) (p : Row → Bool) (f : Row → Row) (s t : db.Store)
      → ((r : Row) → id (f r) ≡ id r)
      → ((r : Row) → owner (f r) ≡ owner r)
      → ((r : Row) → db.find (id r) s ≡ some r → p r ≡ true → owner r ≡ org)
      → db.update_many p f s ≡ done t
      → Isolates org s t
  update_many-Isolates org p f s t keeps_id keeps_owner inside e k r other =
      let law = db.find-update_many p f s k keeps_id e in
      elim (Option-cases (db.find k s)) [
        | inl missing ↦
            let gone : db.find k t ≡ none = rw missing at law in
            ((λ h. absurd (cc)), λ h. absurd (cc))
        | inr (q, found) ↦
            let changed : db.find k t ≡ some (change p f q) = rw found at law in
            elim (Bool-cases (p q)) [
              | inl touched ↦
                  let own = inside q (rw (db.find_id k s found) found) touched in
                  let moved : db.find k t ≡ some (f q) = rw touched at changed in
                  (
                    λ h. absurd (other (let same : q ≡ r = cc in ap owner (sym same) ∙ own)),
                    λ h. absurd (
                        other
                          (let same : f q ≡ r = cc in ap owner (sym same) ∙ keeps_owner q ∙ own)),
                  )
              | inr untouched ↦
                  let kept : db.find k t ≡ some q = rw untouched at changed in
                  ((λ h. kept ∙ sym found ∙ h), λ h. found ∙ sym kept ∙ h)
            ]
      ]

  -- A write to one row that belongs to the organization before and after.
  pub one_row-Isolates :
      (org k : String) (s t : db.Store) {old new : Row}
      → db.find k s ≡ some old
      → owner old ≡ org
      → db.find k t ≡ some new
      → owner new ≡ org
      → ((j : String) → j ≢ k → db.find j t ≡ db.find j s)
      → Isolates org s t
  one_row-Isolates org k s t {old} {new} found own stored own' others j r other =
      elim (Bool-cases (j == k)) [
        | inl same ↦
            let key : j ≡ k = eq_of_beq j k same in
            (
              λ h.
                  let is : old ≡ r =
                    (let p : db.find k s ≡ some r = subst (λ x. db.find x s ≡ some r) key h in
                      cc) in
                  absurd (other (ap owner (sym is) ∙ own)),
              λ h.
                  let is : new ≡ r =
                    (let p : db.find k t ≡ some r = subst (λ x. db.find x t ≡ some r) key h in
                      cc) in
                  absurd (other (ap owner (sym is) ∙ own')),
            )
        | inr differs ↦
            let kept = others j (ne_of_beq j k differs) in ((λ h. kept ∙ h), λ h. sym kept ∙ h)
      ]
