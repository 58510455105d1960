-- ===== src/Auth/Passwords/Reset.antt =====
-- What a reset and a change of the password leave.
use ops_flow_ms.Auth.{User, AuthSession, PasswordResetToken, user_id, session_id, token_id, Secrets}
use ops_flow_ms.Auth.Passwords.{with_password, used, Tables, write_reset}
use ops_flow_ms.Db.Single.{update_one, update_one_sound}
use ops_flow_ms.Shared.{
  Bool-cases, Option-cases, String, ap, eq_of_beq, inl, inr, ne_of_beq, some, sym, true, ◌==◌, ◌↔◌,
  ◌∙◌, ◌≡◌, ◌≢◌, refl, subst, ℕ,
}
use ops_flow_ms.Db.{Delegate, done, Outcome-cases}

module _ (users : Delegate user_id) where
  -- The stored password of a user accepts a text.
  abbrev pub Accepts : Secrets → String → String → users.Store → Type 0
  Accepts secrets user text' us =
      (row : User) × (users.find user us ≡ some row) × (secrets.compare text' row.password ≡ true)

module _ (sessions : Delegate session_id) where
  -- No session of a user is left, and every session of another user is.
  abbrev pub Dropped : String → sessions.Store → sessions.Store → Type 0
  Dropped user ss ss' =
      (k : String) (session : AuthSession)
      → (sessions.find k ss' ≡ some session)
        ↔ ((sessions.find k ss ≡ some session) × (session.user_id ≢ user))

  pub deleted :
      (user : String) (ss ss' : sessions.Store)
      → sessions.delete_many (λ s. s.user_id == user) ss ≡ done ss'
      → Dropped user ss ss'
  deleted user ss ss' e k session =
      let law = sessions.find-delete_many (λ s. s.user_id == user) ss k e in
      elim (Option-cases (sessions.find k ss)) [
        | inl missing ↦ let gone = rw missing at law in ((λ h. absurd (cc)), λ h. absurd (cc (h.0)))
        | inr (row, found) ↦
            let kept = rw found at law in
            elim (Bool-cases (row.user_id == user)) [
              | inl own ↦
                  let gone = rw own at kept in
                  (
                    (λ h. absurd (cc)),
                    λ h. absurd (
                        h.1 (
                          let is : row ≡ session = (let q = sym found ∙ h.0 in cc) in
                          ap (λ s. s.user_id) (sym is) ∙ eq_of_beq row.user_id user own)),
                  )
              | inr other ↦
                  let stays = rw other at kept in
                  (
                    λ h.
                        let is : row ≡ session = (let q = sym stays ∙ h in cc) in
                        (
                          found ∙ ap some is,
                          λ q. ne_of_beq row.user_id user other (ap (λ s. s.user_id) is ∙ q),
                        ),
                    λ h. stays ∙ sym found ∙ h.0,
                  )
            ]
      ]

module _ (secrets : Secrets) (users : Delegate user_id) (sessions : Delegate session_id)
    (resets : Delegate token_id) where
  open secrets use {hash, compare, sha256, compare-hash}

  pub accepts :
      (user salt new : String) (us us' : users.Store) (row : User)
      → update_one users user (with_password (hash salt new)) us ≡ done (row, us')
      → Accepts users secrets user new us'
  accepts user salt new us us' row e =
      let (old, found, changed, stored, _, _) =
        update_one_sound users user (with_password (hash salt new)) us (λ q. refl) e in
      (row, stored, ap (λ x. compare new x.password) changed ∙ compare-hash salt new)

  -- What a reset leaves.
  abbrev pub WasReset :
      ℕ
      → String
      → PasswordResetToken
      → Tables secrets users sessions resets
      → Tables secrets users sessions resets
      → Type 0
  WasReset now new row (us, rs, ss) (us', rs', ss') =
      Accepts users secrets row.user_id new us'
      × ((k : String) → k ≢ row.user_id → users.find k us' ≡ users.find k us)
      × (resets.find row.id rs' ≡ some (record row { used_at = some now }))
      × ((k : String) → k ≢ row.id → resets.find k rs' ≡ resets.find k rs)
      × Dropped sessions row.user_id ss ss'

  pub write_reset_sound :
      (now : ℕ) (salt new : String) (row : PasswordResetToken) (us us' : users.Store)
      (rs rs' : resets.Store) (ss ss' : sessions.Store)
      → resets.find row.id rs ≡ some row
      → write_reset secrets users sessions resets now (hash salt new) row (us, rs, ss)
        ≡ done (us', rs', ss')
      → WasReset now new row (us, rs, ss) (us', rs', ss')
  unfolding write_reset
  write_reset_sound now salt new row us us' rs rs' ss ss' found e =
      elim (Outcome-cases (update_one users row.user_id (with_password (hash salt new)) us)) [
        | inr (error, failed) ↦ absurd (let q = rw (write_reset, failed) at e in cc)
        | inl ((user, us₁), changed) ↦
            elim (Outcome-cases (update_one resets row.id (used now) rs)) [
              | inr (error, failed) ↦ absurd (let q = rw (write_reset, changed, failed) at e in cc)
              | inl ((token, rs₁), marked) ↦
                  elim (Outcome-cases (sessions.delete_many (λ s. s.user_id == row.user_id) ss)) [
                    | inr (error, failed) ↦
                        absurd (let q = rw (write_reset, changed, marked, failed) at e in cc)
                    | inl (ss₁, dropped) ↦
                        let (_, _, _, _, _, others) =
                          update_one_sound users row.user_id (with_password (hash salt new)) us
                            (λ q. refl) changed in
                        let (old, old_found, is, stored, _, others') =
                          update_one_sound resets row.id (used now) rs (λ q. refl) marked in
                        let same : (us₁, rs₁, ss₁) ≡ (us', rs', ss') =
                          (let q : done (us₁, rs₁, ss₁) ≡ done (us', rs', ss') =
                              rw (write_reset, changed, marked, dropped) at e in
                            cc) in
                        let old_is : old ≡ row = cc in
                        subst (WasReset now new row (us, rs, ss)) same (
                          accepts row.user_id salt new us us₁ user changed,
                          others,
                          stored ∙ ap some (is ∙ ap (used now) old_is),
                          others',
                          deleted sessions row.user_id ss ss₁ dropped,
                        )
                  ]
            ]
      ]
