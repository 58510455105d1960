-- ===== src/Errors/Filter/Codes.antt =====
-- The texts of src/common/errors/error-codes.ts, and what a client reads from them.
use ops_flow_ms.Errors.{
  ErrorCode, auth_invalid_credentials, auth_refresh_reuse_detected,
  auth_invalid_or_expired_reset_token, auth_invalid_current_password, auth_user_inactive,
  auth_csrf_token_missing, auth_csrf_token_invalid, auth_login_locked, auth_user_has_no_roles,
  auth_missing_required_role, auth_missing_required_permission, user_not_found, user_already_exists,
  user_role_required, user_invalid_role, branch_not_found, branch_code_already_exists,
  branch_scope_required, cash_movements_invalid_date_range, cash_movements_invalid_amount,
  cashflow_invalid_transition, stats_invalid_date_range, resource_not_found, access_denied,
  rate_limit_exceeded, db_unavailable, unauthorized,
}
use ops_flow_ms.Errors.Filter.{filled}
use ops_flow_ms.Shared.{
  List, Option, String, [], if◌then◌else◌, none, refl, some, trim, ◌==◌, ◌≡◌, ◌∷◌,
}

-- The texts of the catalogue.
unfoldable pub code_text : ErrorCode → String
code_text auth_invalid_credentials = "AUTH_INVALID_CREDENTIALS"
code_text auth_refresh_reuse_detected = "AUTH_REFRESH_REUSE_DETECTED"
code_text auth_invalid_or_expired_reset_token = "AUTH_INVALID_OR_EXPIRED_RESET_TOKEN"
code_text auth_invalid_current_password = "AUTH_INVALID_CURRENT_PASSWORD"
code_text auth_user_inactive = "AUTH_USER_INACTIVE"
code_text auth_csrf_token_missing = "AUTH_CSRF_TOKEN_MISSING"
code_text auth_csrf_token_invalid = "AUTH_CSRF_TOKEN_INVALID"
code_text auth_login_locked = "AUTH_LOGIN_LOCKED"
code_text auth_user_has_no_roles = "AUTH_USER_HAS_NO_ROLES"
code_text auth_missing_required_role = "AUTH_MISSING_REQUIRED_ROLE"
code_text auth_missing_required_permission = "AUTH_MISSING_REQUIRED_PERMISSION"
code_text user_not_found = "USER_NOT_FOUND"
code_text user_already_exists = "USER_ALREADY_EXISTS"
code_text user_role_required = "USER_ROLE_REQUIRED"
code_text user_invalid_role = "USER_INVALID_ROLE"
code_text branch_not_found = "BRANCH_NOT_FOUND"
code_text branch_code_already_exists = "BRANCH_CODE_ALREADY_EXISTS"
code_text branch_scope_required = "BRANCH_SCOPE_REQUIRED"
code_text cash_movements_invalid_date_range = "CASH_MOVEMENTS_INVALID_DATE_RANGE"
code_text cash_movements_invalid_amount = "CASH_MOVEMENTS_INVALID_AMOUNT"
code_text cashflow_invalid_transition = "CASHFLOW_INVALID_TRANSITION"
code_text stats_invalid_date_range = "STATS_INVALID_DATE_RANGE"
code_text resource_not_found = "RESOURCE_NOT_FOUND"
code_text access_denied = "ACCESS_DENIED"
code_text rate_limit_exceeded = "RATE_LIMIT_EXCEEDED"
code_text db_unavailable = "DB_UNAVAILABLE"
code_text unauthorized = "UNAUTHORIZED"

pub code_text-filled : (c : ErrorCode) → filled (some (code_text c)) ≡ some (code_text c)
unfolding filled code_text trim
code_text-filled auth_invalid_credentials = refl
code_text-filled auth_refresh_reuse_detected = refl
code_text-filled auth_invalid_or_expired_reset_token = refl
code_text-filled auth_invalid_current_password = refl
code_text-filled auth_user_inactive = refl
code_text-filled auth_csrf_token_missing = refl
code_text-filled auth_csrf_token_invalid = refl
code_text-filled auth_login_locked = refl
code_text-filled auth_user_has_no_roles = refl
code_text-filled auth_missing_required_role = refl
code_text-filled auth_missing_required_permission = refl
code_text-filled user_not_found = refl
code_text-filled user_already_exists = refl
code_text-filled user_role_required = refl
code_text-filled user_invalid_role = refl
code_text-filled branch_not_found = refl
code_text-filled branch_code_already_exists = refl
code_text-filled branch_scope_required = refl
code_text-filled cash_movements_invalid_date_range = refl
code_text-filled cash_movements_invalid_amount = refl
code_text-filled cashflow_invalid_transition = refl
code_text-filled stats_invalid_date_range = refl
code_text-filled resource_not_found = refl
code_text-filled access_denied = refl
code_text-filled rate_limit_exceeded = refl
code_text-filled db_unavailable = refl
code_text-filled unauthorized = refl

-- The codes under their texts, as a client looks them up.
abbrev pub known_codes : List (String × ErrorCode)
known_codes =
    ("AUTH_INVALID_CREDENTIALS", auth_invalid_credentials)
    ∷ ("AUTH_REFRESH_REUSE_DETECTED", auth_refresh_reuse_detected)
    ∷ ("AUTH_INVALID_OR_EXPIRED_RESET_TOKEN", auth_invalid_or_expired_reset_token)
    ∷ ("AUTH_INVALID_CURRENT_PASSWORD", auth_invalid_current_password)
    ∷ ("AUTH_USER_INACTIVE", auth_user_inactive)
    ∷ ("AUTH_CSRF_TOKEN_MISSING", auth_csrf_token_missing)
    ∷ ("AUTH_CSRF_TOKEN_INVALID", auth_csrf_token_invalid)
    ∷ ("AUTH_LOGIN_LOCKED", auth_login_locked)
    ∷ ("AUTH_USER_HAS_NO_ROLES", auth_user_has_no_roles)
    ∷ ("AUTH_MISSING_REQUIRED_ROLE", auth_missing_required_role)
    ∷ ("AUTH_MISSING_REQUIRED_PERMISSION", auth_missing_required_permission)
    ∷ ("USER_NOT_FOUND", user_not_found)
    ∷ ("USER_ALREADY_EXISTS", user_already_exists)
    ∷ ("USER_ROLE_REQUIRED", user_role_required)
    ∷ ("USER_INVALID_ROLE", user_invalid_role)
    ∷ ("BRANCH_NOT_FOUND", branch_not_found)
    ∷ ("BRANCH_CODE_ALREADY_EXISTS", branch_code_already_exists)
    ∷ ("BRANCH_SCOPE_REQUIRED", branch_scope_required)
    ∷ ("CASH_MOVEMENTS_INVALID_DATE_RANGE", cash_movements_invalid_date_range)
    ∷ ("CASH_MOVEMENTS_INVALID_AMOUNT", cash_movements_invalid_amount)
    ∷ ("CASHFLOW_INVALID_TRANSITION", cashflow_invalid_transition)
    ∷ ("STATS_INVALID_DATE_RANGE", stats_invalid_date_range)
    ∷ ("RESOURCE_NOT_FOUND", resource_not_found)
    ∷ ("ACCESS_DENIED", access_denied)
    ∷ ("RATE_LIMIT_EXCEEDED", rate_limit_exceeded)
    ∷ ("DB_UNAVAILABLE", db_unavailable)
    ∷ ("UNAUTHORIZED", unauthorized)
    ∷ []

abbrev pub code_named : List (String × ErrorCode) → String → Option ErrorCode
code_named [] text = none
code_named ((name, code) ∷ others) text = if name == text then some code else code_named others text

pub code_named-code_text : (c : ErrorCode) → code_named known_codes (code_text c) ≡ some c
unfolding code_text
code_named-code_text auth_invalid_credentials = refl
code_named-code_text auth_refresh_reuse_detected = refl
code_named-code_text auth_invalid_or_expired_reset_token = refl
code_named-code_text auth_invalid_current_password = refl
code_named-code_text auth_user_inactive = refl
code_named-code_text auth_csrf_token_missing = refl
code_named-code_text auth_csrf_token_invalid = refl
code_named-code_text auth_login_locked = refl
code_named-code_text auth_user_has_no_roles = refl
code_named-code_text auth_missing_required_role = refl
code_named-code_text auth_missing_required_permission = refl
code_named-code_text user_not_found = refl
code_named-code_text user_already_exists = refl
code_named-code_text user_role_required = refl
code_named-code_text user_invalid_role = refl
code_named-code_text branch_not_found = refl
code_named-code_text branch_code_already_exists = refl
code_named-code_text branch_scope_required = refl
code_named-code_text cash_movements_invalid_date_range = refl
code_named-code_text cash_movements_invalid_amount = refl
code_named-code_text cashflow_invalid_transition = refl
code_named-code_text stats_invalid_date_range = refl
code_named-code_text resource_not_found = refl
code_named-code_text access_denied = refl
code_named-code_text rate_limit_exceeded = refl
code_named-code_text db_unavailable = refl
code_named-code_text unauthorized = refl
