-- ===== src/Errors.antt =====
-- The error codes of src/common/errors/error-codes.ts and the exceptions that the services throw.
-- Message texts are left out: each throw site has a constant one.
pub mod Result
pub mod Action
pub mod Filter
use text.Mathlib.Text.{find?}
use ops_flow_ms.Shared.{
  ℕ, Option, none, some, String, List, Bool, false, ◌&&◌, includes, is_some, ◌==◌,
}

pub data ErrorCode : Type 0 where
  auth_invalid_credentials auth_refresh_reuse_detected : ErrorCode
  auth_invalid_or_expired_reset_token auth_invalid_current_password : ErrorCode
  auth_user_inactive auth_csrf_token_missing auth_csrf_token_invalid : ErrorCode
  auth_login_locked auth_user_has_no_roles auth_missing_required_role : ErrorCode
  auth_missing_required_permission : ErrorCode
  user_not_found user_already_exists user_role_required user_invalid_role : ErrorCode
  branch_not_found branch_code_already_exists branch_scope_required : ErrorCode
  cash_movements_invalid_date_range cash_movements_invalid_amount : ErrorCode
  cashflow_invalid_transition stats_invalid_date_range : ErrorCode
  resource_not_found access_denied rate_limit_exceeded db_unavailable : ErrorCode
  -- the literal code 'UNAUTHORIZED', which is not in the catalogue
  unauthorized : ErrorCode

-- The details of a transition that the workflow forbids, the only ones that a service gives.
pub record TransitionDetails : Type 0 where
  pub from : String
  pub to : String

pub record HttpException : Type 0 where
  pub status : ℕ
  pub code : ErrorCode
  pub details : Option TransitionDetails
  pub retry_after_seconds : Option ℕ

-- `meta.target` of a database error: absent, a text, or a list of columns.
pub data Target : Type 0 where
  absent : Target
  column : String → Target
  columns : List String → Target

-- What the database client throws: no object, or an object with a code and a target.
pub data Thrown : Type 0 where
  primitive : Thrown
  object : Option String → Target → Thrown

-- What a service rejects with: an exception of its own, or the client's error thrown on.
pub data Failure : Type 0 where
  http : HttpException → Failure
  thrown : Thrown → Failure

module _ (code : ErrorCode) where
  abbrev pub bad_request : Failure
  bad_request =
      http (record { status = 400; code = code; details = none; retry_after_seconds = none })

  abbrev pub unauthorized_exception : Failure
  unauthorized_exception =
      http (record { status = 401; code = code; details = none; retry_after_seconds = none })

  abbrev pub forbidden : Failure
  forbidden =
      http (record { status = 403; code = code; details = none; retry_after_seconds = none })

  abbrev pub not_found : Failure
  not_found =
      http (record { status = 404; code = code; details = none; retry_after_seconds = none })

  abbrev pub conflict : TransitionDetails → Failure
  conflict details =
      http
        (record { status = 409; code = code; details = some details; retry_after_seconds = none })

  abbrev pub too_many_requests : ℕ → Failure
  too_many_requests seconds =
      http
        (record { status = 429; code = code; details = none; retry_after_seconds = some seconds })

-- `target.includes(column)` on a list or a text.
abbrev target_includes : Target → String → Bool
target_includes absent wanted = false
target_includes (column t) wanted = is_some (find? t wanted)
target_includes (columns cs) wanted = includes cs wanted

abbrev code_is : Option String → String → Bool
code_is none wanted = false
code_is (some code) wanted = code == wanted

-- `isEmailUniqueViolation` of the auth and the users service.
abbrev pub is_email_unique_violation : Thrown → Bool
is_email_unique_violation primitive = false
is_email_unique_violation (object code target) =
    code_is code "P2002" && target_includes target "email"

-- `isUniqueCodeViolation` of the branches service.
abbrev pub is_unique_code_violation : Thrown → Bool
is_unique_code_violation primitive = false
is_unique_code_violation (object code target) =
    code_is code "P2002" && target_includes target "organizationId" && target_includes target "code"
