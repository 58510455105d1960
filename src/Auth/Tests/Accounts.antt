-- ===== src/Auth/Tests/Accounts.antt =====
-- The theorems on logins and passwords with the same user.
use ops_flow_ms.Auth.{User, AuthSession, PasswordResetToken, token_id, Tokens}
use ops_flow_ms.Auth.Tests.{secrets, sessions, users, cleo, one_user, no_meta, one_session, draw}
use ops_flow_ms.Auth.Sessions.{next_session, tokens, create_session}
use ops_flow_ms.Auth.Login.{login, try_login, Authentic, login_sound}
use ops_flow_ms.Auth.Passwords.{
  reset_password, usable_token, write_reset, change_password, owner_of_change, write_change,
}
use ops_flow_ms.Auth.Passwords.Reset.{Accepts, Dropped, WasReset}
use ops_flow_ms.Auth.Passwords.Outcomes.{
  IsUnique, reset_password_sound, reset_password_once, change_password_sound,
}
use ops_flow_ms.LoginAttempts.{
  LoginProtection, LoginAttemptRecord, LoginAttemptState, assert_not_locked, record_success,
  cleanup_expired_attempts,
}
use ops_flow_ms.Db.Single.{update_one}
use ops_flow_ms.Db.{Delegate}
use ops_flow_ms.Shared.{
  List, String, [], arith, eq_iff, false, none, refl, some, sym, ◌==◌, ◌∙◌, ◌∷◌, ◌≡◌, ◌≢◌, ◌≤◌,
}
use ops_flow_ms.Errors.{auth_invalid_or_expired_reset_token, column, forbidden, object}
use ops_flow_ms.Errors.Result.{err, ok}
use ops_flow_ms.Db.Memory.{memory}

abbrev pub defaults : LoginProtection
defaults = record {
  enabled = none;
  max_failures = none;
  window_ms = none;
  base_lock_ms = none;
  max_lock_ms = none;
}

abbrev lock : LoginAttemptRecord
lock = record { failures = 5; last_failure_at = 90; lock_until = 60090 }

abbrev locked_state : LoginAttemptState
locked_state = record { attempts = λ k. some lock; last_memory_cleanup_at = 0 }

abbrev pub untouched : LoginAttemptState
untouched = record { attempts = λ k. none; last_memory_cleanup_at = 0 }

abbrev pub logged_in : List AuthSession
logged_in = next_session secrets sessions none draw "u1" no_meta ∷ one_session

abbrev issued : Tokens
issued = tokens secrets sessions none draw "u1"

abbrev pub after_success : LoginAttemptState
after_success = record_success defaults "cleo@x.io" none untouched

logs_in :
    login secrets sessions none users defaults draw "cleo@x.io" "old" no_meta one_user
      (untouched, one_session)
    ≡ (ok issued, (after_success, logged_in))
unfolding login try_login create_session assert_not_locked cleanup_expired_attempts
logs_in = refl

login_sound_example :
    (false ≡ false)
    × ((user : User) × Authentic secrets sessions none users defaults draw "cleo@x.io" "old" no_meta
          one_user logged_in issued user)
login_sound_example =
    login_sound secrets sessions none users defaults draw "cleo@x.io" "old" no_meta one_user
      untouched after_success one_session logged_in issued refl logs_in

abbrev resets : Delegate token_id
resets = memory token_id (λ a b. a.token == b.token) (object (some "P2002") (column "token"))

abbrev sent : PasswordResetToken
sent = record { id = "t1"; user_id = "u1"; token = "secret"; expires_at = 300; used_at = none }

abbrev renewed : List User
renewed = record cleo { password = "new" } ∷ []

abbrev spent : List PasswordResetToken
spent = record sent { used_at = some 100 } ∷ []

resets_password :
    reset_password secrets users sessions resets draw "secret" "new"
      (one_user, sent ∷ [], one_session)
    ≡ (ok tt, (renewed, spent, []))
unfolding reset_password usable_token write_reset update_one
resets_password = refl

reset_password_sound_example :
    (row : PasswordResetToken) × (resets.find row.id (sent ∷ []) ≡ some row)
    × (row.token ≡ "secret")
    × (row.used_at ≡ none)
    × (100 ≤ row.expires_at)
    × WasReset secrets users sessions resets 100 "new" row
        (one_user, sent ∷ [], one_session)
        (renewed, spent, [])
reset_password_sound_example =
    reset_password_sound secrets users sessions resets draw "secret" "new" one_user renewed
      (sent ∷ []) spent one_session [] resets_password

sent-IsUnique : IsUnique secrets users sessions resets "secret" (sent ∷ [])
sent-IsUnique a b ha hb ta tb =
    let ea : "t1" ≡ a.id = ground (arith, eq_iff "t1" a.id) in
    let eb : "t1" ≡ b.id = ground (arith, eq_iff "t1" b.id) in sym ea ∙ eb

reset_password_once_example :
    reset_password secrets users sessions resets draw "secret" "other" (renewed, spent, [])
    ≡ (err (forbidden auth_invalid_or_expired_reset_token), (renewed, spent, []))
reset_password_once_example =
    reset_password_once secrets users sessions resets draw draw "secret" "new" "other" one_user
      renewed (sent ∷ []) spent one_session [] sent-IsUnique resets_password

changes_password :
    change_password secrets users sessions resets draw "u1" "old" "new" (one_user, one_session)
    ≡ (ok tt, (renewed, []))
unfolding change_password owner_of_change write_change update_one
changes_password = refl

change_password_sound_example :
    Accepts users secrets "u1" "old" one_user
    × Accepts users secrets "u1" "new" renewed
    × ((k : String) → k ≢ "u1" → users.find k renewed ≡ users.find k one_user)
    × Dropped sessions "u1" one_session []
change_password_sound_example =
    change_password_sound secrets users sessions resets draw "u1" "old" "new" one_user renewed
      one_session [] changes_password
