-- ===== src/Auth/Passwords/Outcomes.antt =====
-- What a reset and a change of the password answer, and that a reset token is good once.
use ops_flow_ms.Auth.{PasswordResetToken, user_id, session_id, token_id, Secrets, Draw}
use ops_flow_ms.Auth.Passwords.{
  with_password, has_token, write_reset, write_change, usable_token, reset_password,
  owner_of_change, change_password,
}
use ops_flow_ms.Auth.Passwords.Reset.{
  Accepts, Dropped, WasReset, deleted, accepts, write_reset_sound,
}
use ops_flow_ms.Db.Single.{update_one, update_one_sound}
use ops_flow_ms.Errors.Result.{
  >>=-eq-ok, Result, err, err-ne-ok, ok, ok_inj, or_throw, or_throw-eq-ok, throw_if, throw_if-eq-ok,
}
use ops_flow_ms.Shared.{
  is_some, ltb, ◌||◌, Bool-cases, Option-cases, String, ap, arith, eq_of_beq, inl, inr, ne_of_beq,
  none, refl, some, subst, sym, ℕ, ◌==◌, ◌∙◌, ◌≡◌, ◌≢◌, ◌≤◌,
}
use ops_flow_ms.Db.{Delegate, Outcome-cases, done}
use ops_flow_ms.Errors.{auth_invalid_or_expired_reset_token, forbidden, thrown}
use ops_flow_ms.Guards.{differs}

module _ (secrets : Secrets) (users : Delegate user_id) (sessions : Delegate session_id)
    (resets : Delegate token_id) where
  open secrets use {hash, compare, sha256, compare-hash}

  usable_token_sound :
      (now : ℕ) (token : String) (rs : resets.Store) (row : PasswordResetToken)
      → usable_token secrets users sessions resets now token rs ≡ ok row
      → (resets.find row.id rs ≡ some row)
        × (row.token ≡ sha256 token)
        × (row.used_at ≡ none)
        × (now ≤ row.expires_at)
  unfolding usable_token
  usable_token_sound now token rs row e =
      let wanted = has_token secrets users sessions resets (sha256 token) in
      let (found, read, e₁) = >>=-eq-ok (or_throw (resets.find_first wanted rs) _) _ e in
      let (_, checked, e₂) =
        >>=-eq-ok (throw_if (is_some found.used_at || ltb found.expires_at now) _) _ e₁ in
      let (has, stored) =
        resets.find_first_sound wanted rs (or_throw-eq-ok (resets.find_first wanted rs) _ read) in
      let fine = throw_if-eq-ok (is_some found.used_at || ltb found.expires_at now) _ checked in
      subst
        (λ x.
          (resets.find x.id rs ≡ some x)
          × (x.token ≡ sha256 token)
          × (x.used_at ≡ none)
          × (now ≤ x.expires_at))
        (ok_inj found row e₂)
        (
          stored,
          eq_of_beq found.token (sha256 token) has,
          ground (arith, fine),
          ground (arith, fine),
        )

  -- A reset that succeeds was made with the text of a stored token that was neither used nor over;
  -- the user of the token then has a password hash that accepts the new password and no session,
  -- the token is marked used, and no other user, token or session of another user is touched.
  pub reset_password_sound :
      (draw : Draw) (token new : String) (us us' : users.Store) (rs rs' : resets.Store)
      (ss ss' : sessions.Store)
      → reset_password secrets users sessions resets draw token new (us, rs, ss)
        ≡ (ok tt, (us', rs', ss'))
      → (row : PasswordResetToken) × (resets.find row.id rs ≡ some row)
        × (row.token ≡ sha256 token)
        × (row.used_at ≡ none)
        × (draw.now ≤ row.expires_at)
        × WasReset secrets users sessions resets draw.now new row (us, rs, ss) (us', rs', ss')
  unfolding reset_password
  reset_password_sound draw token new us us' rs rs' ss ss' e =
      go (usable_token secrets users sessions resets draw.now token rs) refl
    where
      go :
          (r : Result PasswordResetToken)
          → usable_token secrets users sessions resets draw.now token rs ≡ r
          → (row : PasswordResetToken) × (resets.find row.id rs ≡ some row)
            × (row.token ≡ sha256 token)
            × (row.used_at ≡ none)
            × (draw.now ≤ row.expires_at)
            × WasReset secrets users sessions resets draw.now new row (us, rs, ss) (us', rs', ss')
      go (err error) c = absurd (err-ne-ok error tt (ap (λ x. x.0) (rw (c, reset_password) at e)))
      go (ok row) c =
          let (stored, hashed, fresh, early) = usable_token_sound draw.now token rs row c in
          elim (Outcome-cases (
            write_reset secrets users sessions resets draw.now (hash draw.salt new) row
              (us, rs, ss))) [
                | inr (error, failed) ↦ absurd (
                    err-ne-ok (thrown error) tt
                      (ap (λ x. x.0) (rw (c, reset_password, failed) at e)))
                | inl (t, wrote) ↦
                    let same : t ≡ (us', rs', ss') =
                      ap (λ x. x.1) (rw (c, reset_password, wrote) at e) in
                    (
                      row,
                      stored,
                      hashed,
                      fresh,
                      early,
                      write_reset_sound secrets users sessions resets draw.now draw.salt new row us
                          us' rs rs' ss ss' stored (wrote ∙ ap done same),
                    )
              ]

  -- The unique constraint on the hash of a token: no two rows share it.
  abbrev pub IsUnique : String → resets.Store → Type 0
  IsUnique digest rs =
      (a b : PasswordResetToken)
      → resets.find a.id rs ≡ some a
      → resets.find b.id rs ≡ some b
      → a.token ≡ digest
      → b.token ≡ digest
      → a.id ≡ b.id

  -- A reset token is good once: after a reset that succeeds, in a table in which its hash is
  -- unique, the same text is refused with 403 at any time, and nothing is written.
  pub reset_password_once :
      (draw again : Draw) (token new other : String) (us us' : users.Store) (rs rs' : resets.Store)
      (ss ss' : sessions.Store)
      → IsUnique (sha256 token) rs
      → reset_password secrets users sessions resets draw token new (us, rs, ss)
        ≡ (ok tt, (us', rs', ss'))
      → reset_password secrets users sessions resets again token other (us', rs', ss')
        ≡ (err (forbidden auth_invalid_or_expired_reset_token), (us', rs', ss'))
  unfolding reset_password usable_token
  reset_password_once draw again token new other us us' rs rs' ss ss' unique e =
      let (row, found, hashed, _, _, (_, _, marked, others, _)) =
        reset_password_sound draw token new us us' rs rs' ss ss' e in
      let wanted = has_token secrets users sessions resets (sha256 token) in
      elim (Option-cases (resets.find_first wanted rs')) [
        | inl missing ↦ rw (reset_password, missing)
        | inr (q, first) ↦
            let (has, stored) = resets.find_first_sound wanted rs' first in
            elim (Bool-cases (q.id == row.id)) [
              | inl same ↦
                  let key = eq_of_beq q.id row.id same in
                  let is : record row { used_at = some draw.now } ≡ q =
                    (let g : resets.find row.id rs' ≡ some q =
                        subst (λ x. resets.find x rs' ≡ some q) key stored in
                      cc) in
                  let spent : some draw.now ≡ q.used_at = ap (λ x. x.used_at) is in
                  rw (reset_password, first, ← spent)
              | inr differs ↦
                  let apart = ne_of_beq q.id row.id differs in
                  absurd (
                    apart (
                      unique q row (sym (others q.id apart) ∙ stored) found
                        (eq_of_beq q.token (sha256 token) has) hashed))
            ]
      ]

  -- A change of the password that succeeds was made by a stored user with the current password;
  -- the hash of the user then accepts the new password and no session of the user is left, while
  -- other users and their sessions stay as they are.
  pub change_password_sound :
      (draw : Draw) (user current new : String) (us us' : users.Store) (ss ss' : sessions.Store)
      → change_password secrets users sessions resets draw user current new (us, ss)
        ≡ (ok tt, (us', ss'))
      → Accepts users secrets user current us
        × Accepts users secrets user new us'
        × ((k : String) → k ≢ user → users.find k us' ≡ users.find k us)
        × Dropped sessions user ss ss'
  unfolding change_password owner_of_change write_change
  change_password_sound draw user current new us us' ss ss' e =
      elim (Option-cases (users.find user us)) [
        | inl missing ↦ absurd (let q = ap (λ x. x.0) (rw (change_password, missing) at e) in cc)
        | inr (row, found) ↦ elim (Bool-cases (compare current row.password)) [
          | inr wrong ↦
              absurd (let q = ap (λ x. x.0) (rw (change_password, found, wrong) at e) in cc)
          | inl right ↦
              elim (Outcome-cases (update_one users user (with_password (hash draw.salt new)) us)) [
                | inr (error, failed) ↦
                    absurd (
                      let q = ap (λ x. x.0) (rw (change_password, found, right, failed) at e) in cc)
                | inl ((row', us₁), changed) ↦
                    elim (Outcome-cases (sessions.delete_many (λ s. s.user_id == user) ss)) [
                      | inr (error, failed) ↦ absurd (
                          let q =
                            ap (λ x. x.0)
                              (rw (change_password, found, right, changed, failed) at e) in
                          cc)
                      | inl (ss₁, dropped) ↦
                          let same : (us₁, ss₁) ≡ (us', ss') =
                            ap (λ x. x.1)
                              (rw (change_password, found, right, changed, dropped) at e) in
                          let (_, _, _, _, _, others) =
                            update_one_sound users user (with_password (hash draw.salt new)) us
                              (λ q. refl) changed in
                          subst
                            (λ x.
                              Accepts users secrets user current us
                              × Accepts users secrets user new x.0
                              × ((k : String) → k ≢ user → users.find k x.0 ≡ users.find k us)
                              × Dropped sessions user ss x.1)
                            same
                            (
                              (row, found, right),
                              accepts secrets users sessions resets user draw.salt new us us₁ row'
                                  changed,
                              others,
                              deleted sessions user ss ss₁ dropped,
                            )
                    ]
              ]
        ]
      ]
