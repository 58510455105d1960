-- ===== src/Controllers/Session.antt =====
-- A session through the browser: the cookie that a login sets is good for a refresh.
use ops_flow_ms.Auth.{User, user_id, session_id, SessionMeta, Tokens, Secrets, Draw}
use ops_flow_ms.Auth.Sessions.{
  refresh, create_session, usable_session, next_session, default_refresh_max_age_ms, active_in,
}
use ops_flow_ms.Auth.Login.{login, login_sound}
use ops_flow_ms.Controllers.Cookies.{
  CookieConfig, CookieWrite, set_cookie, clear_cookie, respond_with_tokens, refresh_handler,
  login_handler,
}
use ops_flow_ms.Db.{Delegate}
use ops_flow_ms.Shared.{
  List, Option, String, [], ap, arith, false, if◌then◌else◌, ltb, none, or_else, pair_eq, refl,
  some, sym, true, ℕ, ◌+◌, ◌==◌, ◌∙◌, ◌∷◌, ◌≡◌, ◌≤◌,
}
use ops_flow_ms.LoginAttempts.{LoginAttemptState, LoginProtection, is_enabled}
use ops_flow_ms.Errors.Result.{Result, err, err-ne-ok, ok}

abbrev or_earlier : Option String → Option String → Option String
or_earlier none earlier = earlier
or_earlier (some value) earlier = some value

-- What a browser holds under a name after the writes of a response.
abbrev pub cookie_named : String → List CookieWrite → Option String
cookie_named name [] = none
cookie_named name (set_cookie n value options ∷ writes) =
    or_earlier (cookie_named name writes) (if n == name then some value else none)
cookie_named name (clear_cookie n options ∷ writes) = cookie_named name writes

module _ (secrets : Secrets) (sessions : Delegate session_id) (max_age : Option ℕ)
    (users : Delegate user_id) where
  open secrets use {sign_refresh, refresh_lifetime_ms}

  -- The refresh token of a session that was just written is accepted while neither is over.
  refresh_new :
      (draw later : Draw) (user : User) (meta meta' : SessionMeta) (us : users.Store)
      (s : sessions.Store)
      → users.find user.id us ≡ some user
      → user.is_active ≡ true
      → sessions.find draw.uuid s ≡ some (next_session secrets sessions max_age draw user.id meta)
      → later.now ≤ draw.now + refresh_lifetime_ms
      → later.now ≤ draw.now + or_else max_age default_refresh_max_age_ms
      → refresh secrets sessions max_age users later
          (sign_refresh draw.now user.id draw.uuid)
          meta'
          us
          s
        ≡ create_session secrets sessions max_age later user.id meta' (some draw.uuid) s
  unfolding refresh usable_session
  refresh_new draw later user meta meta' us s found live stored fresh open' =
      let named = secrets.verify-sign draw.now later.now user.id draw.uuid fresh in
      let same = secrets.compare-hash draw.salt (sign_refresh draw.now user.id draw.uuid) in
      let early : ltb (draw.now + or_else max_age default_refresh_max_age_ms) later.now ≡ false =
        ground arith in
      let active : active_in (users.find user.id us) ≡ true = rw found live in
      rw (refresh, usable_session, named, stored, active, early, same)

  module _ (protection : LoginProtection) (config : CookieConfig) where
    -- With the protection on, the cookie that a login sets is accepted by a refresh of the same
    -- table of sessions before the token and the session are over: a session is created that
    -- replaces the one of the login, for the stored user with the address.
    pub login-refresh :
        (draw later : Draw) (email password access : String) (cookies : List CookieWrite)
        (meta meta' : SessionMeta) (us : users.Store) (attempts after : LoginAttemptState)
        (s t : sessions.Store)
        → is_enabled protection ≡ true
        → login_handler config secrets sessions max_age users protection draw email password meta us
            (attempts, s)
          ≡ ((ok access, cookies), (after, t))
        → later.now ≤ draw.now + refresh_lifetime_ms
        → later.now ≤ draw.now + or_else max_age default_refresh_max_age_ms
        → (user : User) × (users.find user.id us ≡ some user)
          × (user.email ≡ email)
          × (refresh_handler config secrets sessions max_age users later
                (cookie_named "refresh_token" cookies)
                meta'
                us
                t
              ≡ (let (r, t') =
                    create_session secrets sessions max_age later user.id meta'
                      (some draw.uuid)
                      t in
                  (respond_with_tokens config r, t')))
    unfolding login_handler refresh_handler
    login-refresh draw later email password access cookies meta meta' us attempts after s t on e
          fresh open' =
        go
          (login secrets sessions max_age users protection draw email password meta us
            (attempts, s)).0
          refl
      where
        Goal : Type 0
        Goal =
            (user : User) × (users.find user.id us ≡ some user)
            × (user.email ≡ email)
            × (refresh_handler config secrets sessions max_age users later
                  (cookie_named "refresh_token" cookies) meta' us t
                ≡ (let (r, t') =
                      create_session secrets sessions max_age later user.id meta' (some draw.uuid)
                        t in
                    (respond_with_tokens config r, t')))

        go :
            (r : Result Tokens)
            → (login secrets sessions max_age users protection draw email password meta us
                (attempts, s)).0
              ≡ r
            → Goal
        go (err error) is =
            absurd (let q = rw is at (ap (λ x. x.0.0) e) in err-ne-ok error access q)
        go (ok answered) is =
            let answers = rw is at (ap (λ x. x.0) e) in
            let (_, (user, (found, mail, live, _, issued, stored))) =
              login_sound secrets sessions max_age users protection draw email password meta us
                attempts after s t answered on (pair_eq is (ap (λ x. x.1) e)) in
            let sent : cookie_named "refresh_token" cookies
                ≡ some (sign_refresh draw.now user.id draw.uuid) =
              ap (cookie_named "refresh_token") (sym (ap (λ x. x.1) answers))
              ∙ ap (λ (x : Tokens). some x.refresh_token) issued in
            let taken = refresh_new draw later user meta meta' us t found live stored fresh open' in
            (user, found, mail, rw (sent, refresh_handler, taken))
