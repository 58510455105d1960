-- ===== src/LoginAttempts/Redis/Lockout.antt =====
-- Enough failures in a row that Redis counts refuse the next login.
use Prim.Native.Char.{code}
use text.Mathlib.TextLemmas.{cons-append}
use ops_flow_ms.Shared.{
  Option, String, concat, eqb, false, leb, ltb, none, number_of, some, ℕ, ◌+◌, ◌<◌, ◌≡◌, ◌≢◌,
  Bool-cases, List, [], inl, inr, ◌∷◌, ◌≤◌, ap, ◌∙◌, arith, length, refl, subst, true, or_else, sym,
  suc, zero,
}
use ops_flow_ms.LoginAttempts.{
  LoginProtection, build_key, get_max_failures, get_window_ms, is_enabled, lock_ms, throw_locked,
}
use ops_flow_ms.RateLimit.Redis.{counted}
use ops_flow_ms.LoginAttempts.Redis.{
  LoginRedis, LoginStore, failure_key, lock_key, assert_not_locked_any, record_failure_any,
  count_failure, eval_failure, fail_all_any,
}

-- The code of the character at a place, where there is one.
nth : ℕ → String → Option ℕ
nth n String.[] = none
nth zero (String.◌∷◌ c s) = some (code c)
nth (suc n) (String.◌∷◌ c s) = nth n s

nth-concat : (n : ℕ) (p s : String) (c : ℕ) → nth n p ≡ some c → nth n (concat p s) ≡ some c
unfolding nth
nth-concat n String.[] s c h = absurd (cc)
nth-concat zero (String.◌∷◌ d p) s c h = rw (cons-append d p s) h
nth-concat (suc n) (String.◌∷◌ d p) s c h = rw (cons-append d p s) (nth-concat n p s c h)

key_ne : (key : String) → failure_key key ≢ lock_key key
unfolding failure_key lock_key nth
key_ne key e =
    let f = nth-concat 11 "login_lock:failures:" key b'f' refl in
    let l = nth-concat 11 "login_lock:lock_until:" key b'l' refl in
    let q : b'f' ≡ b'l' = ap (λ o. or_else o 0) (sym f ∙ ap (nth 11) e ∙ l) in
    absurd (omega (arith, q))

-- The last of the times, and that all of them are before a time.
unfoldable pub last_time : ℕ → List ℕ → ℕ
last_time t [] = t
last_time t (u ∷ ts) = last_time u ts

abbrev pub AllBefore : ℕ → List ℕ → Type 0
AllBefore over [] = Unit
AllBefore over (t ∷ ts) = (t < over) × AllBefore over ts

module _ (config : LoginProtection) (client : LoginRedis) where
  open client use {Store, works, counter, get, incr, pexpire, set_px, del, tostring}

  -- The key counts so many failures at every time before the window is over.
  abbrev IsCounting : ℕ → ℕ → String → Store → Type 0
  IsCounting over n key s = (later : ℕ) → later < over → counter later (failure_key key) s ≡ n

  -- After so many failures, the last of them at the time, the lock is set if they are enough.
  abbrev IsLockedAfter : ℕ → ℕ → String → Store → Type 0
  IsLockedAfter n last key s =
      get_max_failures config ≤ n
      → (later : ℕ) → later < last + lock_ms config n
      → get later (lock_key key) s ≡ some (tostring (last + lock_ms config n))

  eval_counts :
      (now over n : ℕ) (key : String) (s : Store)
      → ((later : ℕ)
          → later < over
          → counter later (failure_key key) (count_failure config client now key s).1 ≡ n)
      → IsCounting over n key (eval_failure config client now key s)
  unfolding eval_failure
  eval_counts now over n key s h later early =
      let (failures, counted) = count_failure config client now key s in
      elim (Bool-cases (leb (get_max_failures config) failures)) [
        | inl many ↦ rw many (
            client.counter-set_px now later (failure_key key) (lock_key key)
              (tostring (now + lock_ms config failures)) (lock_ms config failures) counted
              (key_ne key)
            ∙ h later early)
        | inr few ↦ rw few (h later early)
      ]

  count_first :
      (now : ℕ) (key : String) (s : Store)
      → counter now (failure_key key) s ≡ 0
      → IsCounting (now + get_window_ms config) 1 key (eval_failure config client now key s)
  unfolding count_failure
  count_first now key s zero_now =
      eval_counts now (now + get_window_ms config) 1 key s (λ later early. rw zero_now (
        client.counter-incr_first now later (failure_key key) (get_window_ms config) s zero_now
          early))

  count_next :
      (now over n : ℕ) (key : String) (s : Store)
      → now < over
      → IsCounting over (n + 1) key s
      → IsCounting over (n + 1 + 1) key (eval_failure config client now key s)
  unfolding count_failure
  count_next now over n key s early counts =
      eval_counts now over (n + 1 + 1) key s (λ later before_over.
        let at_now = counts now early in
        let more =
          client.counter-incr_next now later (failure_key key) s n at_now
            (counts later before_over) in
        let not_first : eqb (n + 1 + 1) 1 ≡ false = ground arith in rw (at_now, not_first) more)

  -- The lock that a failure sets when the failures are enough.
  locked_after :
      (now n : ℕ) (key : String) (s : Store)
      → counter now (failure_key key) s + 1 ≡ n
      → IsLockedAfter n now key (eval_failure config client now key s)
  unfolding eval_failure
  locked_after now n key s is many later early =
      let failures = counter now (failure_key key) s + 1 in
      let enough : leb (get_max_failures config) failures ≡ true = ground (arith, is) in
      subst
        (λ k.
          get later (lock_key key) (eval_failure config client now key s)
          ≡ some (tostring (now + lock_ms config k)))
        is
        (rw enough (
          client.get-set_px now later (lock_key key) (tostring (now + lock_ms config failures))
            (lock_ms config failures) (count_failure config client now key s).1 (rw is early)))

  module _ (email : String) (ip : Option String) (on : is_enabled config ≡ true) where
    abbrev own_key : String
    own_key = build_key email ip

    record_failure_evals :
        (t : ℕ) (g g' : LoginStore config client)
        → g.redis_enabled ≡ true
        → record_failure_any config client t email ip g ≡ some g'
        → (g'.redis_enabled ≡ true) × (g'.redis ≡ eval_failure config client t own_key g.redis)
    unfolding record_failure_any
    record_failure_evals t g g' enabled done = elim (Bool-cases (works g.redis)) [
      | inr down ↦ absurd (let q = rw (on, enabled, down) at done in cc)
      | inl up ↦
          let q = rw (on, enabled, up) at done in
          (ap (λ x. (or_else x g).redis_enabled) (sym q), ap (λ x. (or_else x g).redis) (sym q))
    ]

    streak_locks :
        (over n last : ℕ) (ts : List ℕ) (g g' : LoginStore config client)
        → AllBefore over ts
        → IsCounting over (n + 1) own_key g.redis
        → IsLockedAfter (n + 1) last own_key g.redis
        → g.redis_enabled ≡ true
        → fail_all_any config client ts email ip g ≡ some g'
        → (g'.redis_enabled ≡ true)
          × IsLockedAfter (n + 1 + length ts) (last_time last ts) own_key g'.redis
    unfolding fail_all_any last_time
    streak_locks over n last [] g g' before counts locked enabled done =
        let same : g ≡ g' = (let q = done in cc) in
        subst (λ x. (x.redis_enabled ≡ true) × IsLockedAfter (n + 1 + 0) last own_key x.redis) same
          (enabled, subst (λ k. IsLockedAfter k last own_key g.redis) (omega arith) locked)
    streak_locks over n last (t ∷ ts) g g' (early, before) counts locked enabled done =
        go (record_failure_any config client t email ip g) refl done
          (λ g1. streak_locks over (n + 1) t ts g1 g' before)
      where
        go :
            (r : Option (LoginStore config client))
            → record_failure_any config client t email ip g ≡ r
            → elim r [ none ↦ none | some h ↦ fail_all_any config client ts email ip h ] ≡ some g'
            → ((g1 : LoginStore config client)
                → IsCounting over (n + 1 + 1) own_key g1.redis
                → IsLockedAfter (n + 1 + 1) t own_key g1.redis
                → g1.redis_enabled ≡ true
                → fail_all_any config client ts email ip g1 ≡ some g'
                → (g'.redis_enabled ≡ true)
                  × IsLockedAfter (n + 1 + 1 + length ts) (last_time t ts) own_key g'.redis)
            → (g'.redis_enabled ≡ true)
              × IsLockedAfter (n + 1 + length (t ∷ ts)) (last_time t ts) own_key g'.redis
        go none h k later = absurd (cc)
        go (some g1) h k later =
            let (enabled', evals) = record_failure_evals t g g1 enabled h in
            let counts' : IsCounting over (n + 1 + 1) own_key g1.redis =
              subst (λ x. IsCounting over (n + 1 + 1) own_key x) (sym evals)
                (count_next t over n own_key g.redis early counts) in
            let now : counter t (failure_key own_key) g.redis + 1 ≡ n + 1 + 1 =
              ap (λ k. k + 1) (counts t early) in
            let locked' : IsLockedAfter (n + 1 + 1) t own_key g1.redis =
              subst (λ x. IsLockedAfter (n + 1 + 1) t own_key x) (sym evals)
                (locked_after t (n + 1 + 1) own_key g.redis now) in
            let sum : n + 1 + 1 + length ts ≡ n + 1 + length (t ∷ ts) = ground arith in
            subst
              (λ x. (g'.redis_enabled ≡ true) × IsLockedAfter x (last_time t ts) own_key g'.redis)
              sum (later g1 counts' locked' enabled' k)

    assert_locked_redis :
        (now until : ℕ) (g : LoginStore config client)
        → g.redis_enabled ≡ true
        → works g.redis ≡ true
        → get now (lock_key own_key) g.redis ≡ some (tostring until)
        → number_of (tostring until) ≡ some until
        → now < until
        → assert_not_locked_any config client now email ip g
          ≡ some (throw_locked config until now, g)
    unfolding assert_not_locked_any
    assert_locked_redis now until g enabled up found read early =
        let open_lock : ltb now until ≡ true = ground arith in
        rw (on, enabled, up) (rw (found, read, open_lock) refl)

    -- With the protection on and Redis working, as many failed logins in a row as configured, from a time
    -- at which none is counted and before the window of the first is over, refuse a further login of the
    -- same address and account with 429 AUTH_LOGIN_LOCKED until the lock of the last failure is over.
    pub lockout_redis :
        (t : ℕ) (ts : List ℕ) (g g' : LoginStore config client) (now : ℕ)
        → g.redis_enabled ≡ true
        → counter t (failure_key (build_key email ip)) g.redis ≡ 0
        → AllBefore (t + get_window_ms config) ts
        → get_max_failures config ≤ length (t ∷ ts)
        → fail_all_any config client (t ∷ ts) email ip g ≡ some g'
        → works g'.redis ≡ true
        → let until = last_time t ts + lock_ms config (length (t ∷ ts)) in
          now < until
          → until < 100000000000000
          → assert_not_locked_any config client now email ip g'
            ≡ some (throw_locked config until now, g')
    unfolding fail_all_any
    lockout_redis t ts g g' now enabled fresh before many done up early small =
        go (record_failure_any config client t email ip g) refl done
      where
        go :
            (r : Option (LoginStore config client))
            → record_failure_any config client t email ip g ≡ r
            → elim r [ none ↦ none | some h ↦ fail_all_any config client ts email ip h ] ≡ some g'
            → assert_not_locked_any config client now email ip g'
              ≡ some
                  (throw_locked config (last_time t ts + lock_ms config (length (t ∷ ts))) now, g')
        go none h k = absurd (cc)
        go (some g1) h k =
            let (enabled1, evals) = record_failure_evals t g g1 enabled h in
            let one : counter t (failure_key own_key) g.redis + 1 ≡ 0 + 1 = ap (λ n. n + 1) fresh in
            let (enabled', locked) =
              streak_locks (t + get_window_ms config) 0 t ts g1 g' before
                (subst (λ x. IsCounting (t + get_window_ms config) 1 own_key x) (sym evals)
                  (count_first t own_key g.redis fresh))
                (subst (λ x. IsLockedAfter 1 t own_key x) (sym evals)
                  (locked_after t 1 own_key g.redis one))
                enabled1 k in
            let until = last_time t ts + lock_ms config (length (t ∷ ts)) in
            let sum : 0 + 1 + length ts ≡ length (t ∷ ts) = ground arith in
            let locked' : IsLockedAfter (length (t ∷ ts)) (last_time t ts) own_key g'.redis =
              subst (λ n. IsLockedAfter n (last_time t ts) own_key g'.redis) sum locked in
            assert_locked_redis now until g' enabled' up (locked' many now early)
              (client.number_of-tostring until small) early
