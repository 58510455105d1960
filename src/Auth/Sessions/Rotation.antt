-- ===== src/Auth/Sessions/Rotation.antt =====
-- A refresh token is good for one rotation: what a refresh writes, and what the old token gets after.
use ops_flow_ms.Auth.{User, AuthSession, user_id, session_id, SessionMeta, Tokens, Secrets, Draw}
use ops_flow_ms.Auth.Sessions.{
  revoke_replaced, active_in, next_session, tokens, rotate, create_session, usable_session, refresh,
  reuse_detected,
}
use ops_flow_ms.Db.Single.{update_one, update_one_sound}
use ops_flow_ms.Errors.Result.{
  >>=-eq-ok, ok, ok_inj, or_throw, or_throw-eq-ok, throw_if, throw_if-eq-ok, Result, err, err-ne-ok,
}
use ops_flow_ms.Db.{Delegate, Outcome-cases, done}
use ops_flow_ms.Shared.{
  not, ◌||◌, ltb, Option, String, ap, arith, beq_of_ne, eq_refl, inl, inr, none, refl, some, subst,
  sym, true, ℕ, ◌∙◌, ◌≡◌, ◌≢◌, ◌≤◌, Bool-cases, if◌then◌else◌, is_some, ◌==◌, false, or_else, ◌*◌,
  ◌+◌,
}
use ops_flow_ms.Errors.{thrown, unauthorized, unauthorized_exception}

-- A session that may still be used at a time.
abbrev pub IsUsable : ℕ → Option User → AuthSession → Type 0
IsUsable now user session =
    (active_in user ≡ true) × (session.revoked_at ≡ none) × (now ≤ session.expires_at)

not_refused :
    (now : ℕ) (user : Option User) (session : AuthSession)
    → (not (active_in user) || is_some session.revoked_at || ltb session.expires_at now) ≡ false
    → IsUsable now user session
not_refused now user session h = (ground arith, ground arith, ground arith)

module _ (secrets : Secrets) (sessions : Delegate session_id) (max_age : Option ℕ)
    (users : Delegate user_id) where
  open secrets use {hash, compare, verify_refresh, sign_access, sign_refresh}

  usable_session_sound :
      (now : ℕ) (token : String) (us : users.Store) (s : sessions.Store) (session : AuthSession)
      → usable_session secrets sessions max_age users now token us s ≡ ok session
      → (verify_refresh now token ≡ some session.id)
        × (sessions.find session.id s ≡ some session)
        × IsUsable now (users.find session.user_id us) session
  unfolding usable_session
  usable_session_sound now token us s session e =
      let (sid, verified, e₁) = >>=-eq-ok (or_throw (verify_refresh now token) _) _ e in
      let (row, read, e₂) = >>=-eq-ok (or_throw (sessions.find sid s) _) _ e₁ in
      let (_, checked, e₃) = >>=-eq-ok (throw_if _ _) _ e₂ in
      let found = or_throw-eq-ok (sessions.find sid s) _ read in
      let named = or_throw-eq-ok (verify_refresh now token) _ verified in
      let key : row.id ≡ sid = sessions.find_id sid s found in
      let usable = throw_if-eq-ok _ _ checked in
      subst
        (λ x.
          (verify_refresh now token ≡ some x.id)
          × (sessions.find x.id s ≡ some x)
          × IsUsable now (users.find x.user_id us) x)
        (ok_inj row session e₃)
        (
          named ∙ ap some (sym key),
          subst (λ x. sessions.find x s ≡ some row) (sym key) found,
          not_refused now (users.find row.user_id us) row usable,
        )

  rotate_sound :
      (draw : Draw) (next : AuthSession) (old : AuthSession) (s t : sessions.Store)
      → sessions.find old.id s ≡ some old
      → rotate secrets sessions max_age draw next old.id s ≡ done t
      → (sessions.find next.id s ≡ none)
        × (sessions.find next.id t ≡ some next)
        × (sessions.find old.id t ≡ some (revoke_replaced draw.now next.id old))
        × ((k : String) → k ≢ next.id → k ≢ old.id → sessions.find k t ≡ sessions.find k s)
  unfolding rotate
  rotate_sound draw next old s t found e = elim (Outcome-cases (sessions.create next s)) [
    | inr (error, failed) ↦ absurd (let q = rw (failed, rotate) at e in cc)
    | inl (t₁, created) ↦
        let f = revoke_replaced draw.now next.id in
        elim (Outcome-cases (update_one sessions old.id f t₁)) [
          | inr (error, failed) ↦ absurd (let q = rw (created, rotate, failed) at e in cc)
          | inl ((row, t₂), updated) ↦
              let same : t₂ ≡ t =
                (let q : done t₂ ≡ done t = rw (created, rotate, updated) at e in cc) in
              let fresh = sessions.create_fresh next s created in
              let (before', found', changed, stored, _, others) =
                update_one_sound sessions old.id f t₁ (λ q. refl) updated in
              let distinct : next.id ≢ old.id = (λ q. absurd (
                let g : sessions.find old.id s ≡ none =
                  subst (λ x. sessions.find x s ≡ none) q fresh in
                cc)) in
              let law : (k : String)
                  → sessions.find k t₁ ≡ (if next.id == k then some next else sessions.find k s) =
                λ k. sessions.find-create next s k created in
              let kept : sessions.find old.id t₁ ≡ some old =
                (rw (beq_of_ne next.id old.id distinct) at (law old.id)) ∙ found in
              let made : sessions.find next.id t₁ ≡ some next =
                rw (eq_refl next.id) at (law next.id) in
              let is : before' ≡ old = cc in
              subst
                (λ x.
                  (sessions.find next.id s ≡ none)
                  × (sessions.find next.id x ≡ some next)
                  × (sessions.find old.id x ≡ some (f old))
                  × ((k : String)
                      → k ≢ next.id
                      → k ≢ old.id
                      → sessions.find k x ≡ sessions.find k s))
                same
                (
                  fresh,
                  others next.id distinct ∙ made,
                  stored ∙ ap some (changed ∙ ap f is),
                  λ k not_next not_old.
                      others k not_old
                      ∙ (rw (beq_of_ne next.id k (λ q. not_next (sym q))) at (law k)),
                )
        ]
  ]

  -- What a refresh leaves of the session that it replaces.
  abbrev pub Rotated : Draw → AuthSession → SessionMeta → sessions.Store → sessions.Store → Type 0
  Rotated draw old meta s t =
      let next : AuthSession = record {
        id = draw.uuid;
        user_id = old.user_id;
        hashed_refresh_token = hash draw.salt (sign_refresh draw.now old.user_id draw.uuid);
        expires_at = draw.now + or_else max_age (7 * 24 * 60 * 60 * 1000);
        ip = meta.ip;
        user_agent = meta.user_agent;
        revoked_at = none;
        last_used_at = none;
        replaced_by_id = none;
      } in
      let replaced : AuthSession = record old {
        revoked_at = some draw.now;
        last_used_at = some draw.now;
        replaced_by_id = some draw.uuid;
      } in
      (sessions.find draw.uuid s ≡ none)
      × (sessions.find draw.uuid t ≡ some next)
      × (sessions.find old.id t ≡ some replaced)
      × ((k : String) → k ≢ draw.uuid → k ≢ old.id → sessions.find k t ≡ sessions.find k s)

  -- The tokens that are answered, both of the user of the session that is replaced.
  abbrev pub FreshTokens : Draw → AuthSession → Tokens → Type 0
  FreshTokens draw old answered =
      (answered.access_token ≡ sign_access draw.now old.user_id draw.uuid)
      × (answered.refresh_token ≡ sign_refresh draw.now old.user_id draw.uuid)

  created :
      (draw : Draw) (old : AuthSession) (meta : SessionMeta) (s t : sessions.Store)
      (answered : Tokens)
      → sessions.find old.id s ≡ some old
      → create_session secrets sessions max_age draw old.user_id meta (some old.id) s
        ≡ (ok answered, t)
      → FreshTokens draw old answered × Rotated draw old meta s t
  unfolding create_session
  created draw old meta s t answered found e =
      let next = next_session secrets sessions max_age draw old.user_id meta in
      elim (Outcome-cases (rotate secrets sessions max_age draw next old.id s)) [
        | inr (error, failed) ↦
            let e' : (err (thrown error), s) ≡ (ok answered, t) =
              rw (failed, create_session) at e in
            absurd (err-ne-ok (thrown error) answered (ap (λ x. x.0) e'))
        | inl (t', done') ↦
            let e' : (ok (tokens secrets sessions max_age draw old.user_id), t')
                ≡ (ok answered, t) =
              rw (done', create_session) at e in
            let same =
              ok_inj (tokens secrets sessions max_age draw old.user_id) answered
                (ap (λ x. x.0) e') in
            (
              (
                sym (ap (λ (x : Tokens). x.access_token) same),
                sym (ap (λ (x : Tokens). x.refresh_token) same),
              ),
              subst (Rotated draw old meta s) (ap (λ x. x.1) e')
                  (rotate_sound draw next old s t' found done'),
            )
      ]

  unanswered :
      (now : ℕ) (user : String) (s t : sessions.Store) (answered : Tokens)
      → reuse_detected secrets sessions max_age users now user s ≢ (ok answered, t)
  unfolding reuse_detected
  unanswered now user s t answered e = absurd (let q = ap (λ x. x.0) e in ground arith)

  -- A refresh that answers with tokens was made with a genuine token of a session that is stored,
  -- not revoked and not over, whose user is active; it answers with new tokens of the same user for
  -- a session that did not exist and now does, marks the old one revoked and replaced by it, and
  -- touches no other session.
  pub refresh_sound :
      (draw : Draw) (token : String) (meta : SessionMeta) (us : users.Store) (s t : sessions.Store)
      (answered : Tokens)
      → refresh secrets sessions max_age users draw token meta us s ≡ (ok answered, t)
      → (old : AuthSession) × (verify_refresh draw.now token ≡ some old.id)
        × (sessions.find old.id s ≡ some old)
        × IsUsable draw.now (users.find old.user_id us) old
        × (compare token old.hashed_refresh_token ≡ true)
        × FreshTokens draw old answered
        × Rotated draw old meta s t
  unfolding refresh
  refresh_sound draw token meta us s t answered e =
      go (usable_session secrets sessions max_age users draw.now token us s) refl
    where
      go :
          (r : Result AuthSession)
          → usable_session secrets sessions max_age users draw.now token us s ≡ r
          → (old : AuthSession) × (verify_refresh draw.now token ≡ some old.id)
            × (sessions.find old.id s ≡ some old)
            × IsUsable draw.now (users.find old.user_id us) old
            × (compare token old.hashed_refresh_token ≡ true)
            × FreshTokens draw old answered
            × Rotated draw old meta s t
      go (err error) c =
          let e' : (err error, s) ≡ (ok answered, t) = rw (c, refresh) at e in
          absurd (err-ne-ok error answered (ap (λ x. x.0) e'))
      go (ok old) c =
          let (named, found, usable) = usable_session_sound draw.now token us s old c in
          elim (Bool-cases (compare token old.hashed_refresh_token)) [
            | inr wrong ↦
                absurd (unanswered draw.now old.user_id s t answered (rw (c, refresh, wrong) at e))
            | inl same ↦
                let (is, rotated) =
                  created draw old meta s t answered found (rw (c, refresh, same) at e) in
                (old, named, found, usable, same, is, rotated)
          ]

  -- A token whose session is revoked is refused at any time, and nothing is written.
  pub refresh_revoked :
      (draw : Draw) (token : String) (meta : SessionMeta) (us : users.Store) (s : sessions.Store)
      (session : AuthSession)
      → verify_refresh draw.now token ≡ some session.id
      → sessions.find session.id s ≡ some session
      → is_some session.revoked_at ≡ true
      → refresh secrets sessions max_age users draw token meta us s
        ≡ (err (unauthorized_exception unauthorized), s)
  unfolding refresh usable_session
  refresh_revoked draw token meta us s session named found revoked =
      rw (refresh, named, found) (ground arith)

  -- So is a token of a session whose user is not active.
  pub refresh_inactive :
      (draw : Draw) (token : String) (meta : SessionMeta) (us : users.Store) (s : sessions.Store)
      (session : AuthSession)
      → verify_refresh draw.now token ≡ some session.id
      → sessions.find session.id s ≡ some session
      → active_in (users.find session.user_id us) ≡ false
      → refresh secrets sessions max_age users draw token meta us s
        ≡ (err (unauthorized_exception unauthorized), s)
  unfolding refresh usable_session
  refresh_inactive draw token meta us s session named found inactive =
      rw (refresh, named, found, inactive)
