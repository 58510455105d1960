-- ===== src/Auth/Sessions/Reuse.antt =====
-- The refresh token of a session is good once: after a rotation or a logout it is refused.
use ops_flow_ms.Auth.{AuthSession, user_id, session_id, SessionMeta, Tokens, Secrets, Draw}
use ops_flow_ms.Auth.Sessions.{revoke_used, usable_session, refresh, logout, session_to_close}
use ops_flow_ms.Auth.Sessions.Rotation.{refresh_sound, refresh_revoked}
use ops_flow_ms.Db.Single.{update_one, update_one_sound}
use ops_flow_ms.Shared.{
  Bool-cases, Option, Option-cases, String, ap, arith, inl, inr, is_some, refl, some, subst, sym,
  true, ℕ, ◌==◌, ◌∙◌, ◌≡◌,
}
use ops_flow_ms.Db.{Delegate, Outcome-cases}
use ops_flow_ms.Errors.Result.{err, err-ne-ok, ok}
use ops_flow_ms.Errors.{thrown, unauthorized, unauthorized_exception}
use ops_flow_ms.Errors.Filter.{filled}

module _ (secrets : Secrets) (sessions : Delegate session_id) (max_age : Option ℕ)
    (users : Delegate user_id) where
  open secrets use {compare, verify_refresh, sign_refresh, verify_once}

  revoked_is_refused :
      (draw : Draw) (token : String) (meta : SessionMeta) (us : users.Store) (s : sessions.Store)
      (session : AuthSession) (before' : ℕ)
      → verify_refresh before' token ≡ some session.id
      → sessions.find session.id s ≡ some session
      → is_some session.revoked_at ≡ true
      → refresh secrets sessions max_age users draw token meta us s
        ≡ (err (unauthorized_exception unauthorized), s)
  unfolding refresh usable_session
  revoked_is_refused draw token meta us s session before' named found revoked =
      elim (Option-cases (verify_refresh draw.now token)) [
        | inl over ↦ rw (refresh, over)
        | inr (sid, named') ↦
            let same = verify_once before' draw.now token named named' in
            refresh_revoked secrets sessions max_age users draw token meta us s session
              (named' ∙ ap some (sym same)) found revoked
      ]

  -- A token that has been refreshed once is refused with 401 UNAUTHORIZED at any later or earlier
  -- time, whoever presents it, and nothing is written then: the sessions that the first refresh left
  -- stay as they are, the new one included.
  pub refresh_once :
      (draw again : Draw) (token : String) (meta other : SessionMeta) (us us' : users.Store)
      (s t : sessions.Store) (answered : Tokens)
      → refresh secrets sessions max_age users draw token meta us s ≡ (ok answered, t)
      → refresh secrets sessions max_age users again token other us' t
        ≡ (err (unauthorized_exception unauthorized), t)
  refresh_once draw again token meta other us us' s t answered e =
      let (old, named, _, _, _, _, (_, _, revoked, _)) =
        refresh_sound secrets sessions max_age users draw token meta us s t answered e in
      revoked_is_refused again token other us' t _ draw.now named revoked refl

  closing :
      (now : ℕ) (token : String) (s : sessions.Store) (session : AuthSession)
      → session_to_close secrets sessions max_age users now token s ≡ some session
      → (verify_refresh now token ≡ some session.id) × (sessions.find session.id s ≡ some session)
  unfolding session_to_close
  closing now token s session e = elim (Bool-cases (token == "")) [
    | inl empty ↦ absurd (let q = rw (empty, session_to_close) at e in cc)
    | inr filled ↦ elim (Option-cases (verify_refresh now token)) [
      | inl forged ↦ absurd (let q = rw (filled, session_to_close, forged) at e in cc)
      | inr (sid, named) ↦
          let e₁ = rw (filled, session_to_close, named) at e in
          elim (Option-cases (sessions.find sid s)) [
            | inl missing ↦ absurd (let q = rw missing at e₁ in cc)
            | inr (row, found) ↦
                let e₂ = rw found at e₁ in
                let same : row ≡ session = ground arith in
                let key : sid ≡ session.id =
                  sym (sessions.find_id sid s found) ∙ ap (λ x. x.id) same in
                (
                  named ∙ ap some key,
                  subst (λ x. sessions.find x s ≡ some session) key (found ∙ ap some same),
                )
          ]
    ]
  ]

  -- A token whose session was closed by a logout is refused by every refresh after it.
  pub logout-refresh :
      (now : ℕ) (again : Draw) (token : String) (meta : SessionMeta) (us : users.Store)
      (s t : sessions.Store) (session : AuthSession)
      → session_to_close secrets sessions max_age users now token s ≡ some session
      → logout secrets sessions max_age users now token s ≡ (ok tt, t)
      → refresh secrets sessions max_age users again token meta us t
        ≡ (err (unauthorized_exception unauthorized), t)
  unfolding logout
  logout-refresh now again token meta us s t session c e =
      let (named, found) = closing now token s session c in
      elim (Outcome-cases (update_one sessions session.id (revoke_used now) s)) [
        | inr (error, failed) ↦
            let e' : (err (thrown error), s) ≡ (ok tt, t) = rw (c, logout, failed) at e in
            absurd (err-ne-ok (thrown error) tt (ap (λ x. x.0) e'))
        | inl ((row, t'), updated) ↦
            let e' : (ok tt, t') ≡ (ok tt, t) = rw (c, logout, updated) at e in
            let (old, found', changed, stored, _, _) =
              update_one_sound sessions session.id (revoke_used now) s (λ q. refl) updated in
            let is : old ≡ session = cc in
            let closed : sessions.find session.id t ≡ some (revoke_used now session) =
              subst (λ x. sessions.find session.id x ≡ some (revoke_used now session))
                (ap (λ x. x.1) e') (stored ∙ ap some (changed ∙ ap (revoke_used now) is)) in
            revoked_is_refused again token meta us t (revoke_used now session) now named closed refl
      ]
