-- ===== src/LoginAttempts/Redis/Tests.antt =====
-- A store in memory that keeps entries as Redis does, and a lock in it.
use ops_flow_ms.Shared.{
  Bool, Option, String, arith, if◌then◌else◌, ltb, none, some, to_text, true, ℕ, ◌+◌, ◌<◌, ◌≡◌,
  Bool-cases, Map, ap, beq_of_ne, eq_refl, inl, inr, number_of-to_text, refl, remove, set, ◌==◌,
  ◌∙◌, [], or_else, ◌∷◌,
}
use ops_flow_ms.LoginAttempts.{LoginProtection, throw_locked}
use ops_flow_ms.LoginAttempts.Redis.{
  LoginRedis, LoginStore, assert_not_locked_any, fail_all_any, record_failure_any,
}
use ops_flow_ms.LoginAttempts.Redis.Lockout.{last_time, lockout_redis}

abbrev two_allowed : LoginProtection
two_allowed = record {
  enabled = none;
  max_failures = some 2;
  window_ms = none;
  base_lock_ms = none;
  max_lock_ms = none;
}

record Entry : Type 0 where
  number : ℕ
  text : String
  until : Option ℕ

abbrev is_alive : ℕ → Option ℕ → Bool
is_alive now none = true
is_alive now (some until) = ltb now until

abbrev alive : ℕ → Option Entry → Option Entry
alive now none = none
alive now (some e) = if is_alive now e.until then some e else none

abbrev number_in : Option Entry → ℕ
number_in none = 0
number_in (some e) = e.number

abbrev text_in : Option Entry → Option String
text_in none = none
text_in (some e) = some e.text

abbrev more : Option Entry → Entry
more none = record { number = 1; text = to_text 1; until = none }
more (some e) = record e { number = e.number + 1; text = to_text (e.number + 1) }

abbrev ending : ℕ → Option Entry → Option Entry
ending over none = none
ending over (some e) = some (record e { until = some over })

more_number : (o : Option Entry) → (more o).number ≡ number_in o + 1
more_number none = refl
more_number (some e) = refl

counter-first :
    (now later window : ℕ) (o : Option Entry)
    → number_in (alive now o) ≡ 0
    → later < now + window
    → number_in (alive later (ending (now + window) (some (more (alive now o))))) ≡ 1
counter-first now later window o fresh early =
    let open_window : ltb later (now + window) ≡ true = ground arith in
    rw open_window (more_number (alive now o) ∙ ap (λ n. n + 1) fresh)

counter-next :
    (now later n : ℕ) (o : Option Entry)
    → number_in (alive now o) ≡ n + 1
    → number_in (alive later o) ≡ n + 1
    → number_in (alive later (some (more (alive now o)))) ≡ n + 1 + 1
counter-next now later n none h k = absurd (ground arith)
counter-next now later n (some e) h k = elim (Bool-cases (is_alive now e.until)) [
  | inr over ↦ absurd (let q : 0 ≡ n + 1 = rw over at h in omega (arith, q))
  | inl now_on ↦ elim (Bool-cases (is_alive later e.until)) [
    | inr over ↦ absurd (let q : 0 ≡ n + 1 = rw over at k in omega (arith, q))
    | inl later_on ↦
        let is : e.number ≡ n + 1 = rw now_on at h in rw (now_on, later_on) (ap (λ m. m + 1) is)
  ]
]

is_early : (later over : ℕ) → later < over → ltb later over ≡ true
is_early later over early = ground arith

abbrev redis_in_memory : LoginRedis
redis_in_memory = record {
  Store = Map Entry;
  works = λ s. true;
  counter = λ now key s. number_in (alive now (s key));
  get = λ now key s. text_in (alive now (s key));
  incr = λ now key s. set key (more (alive now (s key))) s;
  pexpire = λ now key ms s. λ k. if k == key then ending (now + ms) (s k) else s k;
  set_px = λ now key value ms s.
      set key (record { number = 0; text = value; until = some (now + ms) }) s;
  del = λ key s. remove key s;
  tostring = to_text;
  counter-incr_first = λ now later key window s fresh early.
      rw (eq_refl key) (counter-first now later window (s key) fresh early);
  counter-incr_next =
      λ now later key s n h k. rw (eq_refl key) (counter-next now later n (s key) h k);
  counter-set_px = λ now later key other value ms s differ. rw (beq_of_ne key other differ) refl;
  get-set_px =
      λ now later key value ms s early. rw (eq_refl key, is_early later (now + ms) early) refl;
  number_of-tostring = λ n small. number_of-to_text n;
}

abbrev connected : LoginStore two_allowed redis_in_memory
connected = record {
  redis_enabled = true;
  redis = λ k. none;
  memory = record { attempts = λ k. none; last_memory_cleanup_at = 0 };
}

abbrev failed_twice : LoginStore two_allowed redis_in_memory
failed_twice =
    or_else (fail_all_any two_allowed redis_in_memory (5 ∷ 9 ∷ []) "ana@x.io" none connected)
      connected

fails_twice :
    fail_all_any two_allowed redis_in_memory (5 ∷ 9 ∷ []) "ana@x.io" none connected
    ≡ some failed_twice
unfolding fail_all_any record_failure_any
fails_twice = refl

lockout_redis_example :
    assert_not_locked_any two_allowed redis_in_memory 60008 "ana@x.io" none failed_twice
    ≡ some (throw_locked two_allowed 60009 60008, failed_twice)
unfolding last_time
lockout_redis_example =
    lockout_redis two_allowed redis_in_memory "ana@x.io" none refl 5 (9 ∷ []) connected failed_twice
      60008 refl refl (omega arith, tt) (omega arith) fails_twice refl (omega arith) (omega arith)
