-- ===== src/Guards/Csrf.antt =====
-- Which requests pass the double-submit check of the CSRF token.
use ops_flow_ms.Guards.{
  Header, header_value, absent_value, one_value, values, is_mutating, csrf_can_activate, differs,
  is_absent,
}
use ops_flow_ms.Shared.{
  Bool-cases, Option, String, false, inl, inr, refl, some, truthy, ◌↔◌, ◌≡◌, ◌⊎◌, [], arith, eq_iff,
  filled-truthy, none, ◌==◌, ◌∷◌,
}
use ops_flow_ms.Errors.{auth_csrf_token_invalid, auth_csrf_token_missing, forbidden}
use ops_flow_ms.Errors.Result.{ok, or_throw, throw_if, ◌>>=◌, ◌>>◌}

-- What is left of the check once the cookie has been read.
abbrev Passes : Option String → Header → Type 0
Passes o header =
    (do
      throw_if (is_absent header) (forbidden auth_csrf_token_missing)
      token ← or_throw o (forbidden auth_csrf_token_missing)
      throw_if (differs (truthy (header_value header)) token) (forbidden auth_csrf_token_invalid))
    ≡ ok tt

abbrev Matches : Option String → Header → Type 0
Matches o header = (token : String) × (o ≡ some token) × (header_value header ≡ some token)

accepts_iff :
    (o : Option String) (header : Header)
    → ((token : String) → o ≡ some token → (token == "") ≡ false)
    → Passes o header ↔ Matches o header
accepts_iff none absent_value filled = ((λ e. absurd (cc)), λ (t, e, h). absurd (cc))
accepts_iff none (one_value v) filled = (λ e. absurd (ground arith), λ (t, e, h). absurd (cc))
accepts_iff none (values vs) filled = ((λ e. absurd (cc)), λ (t, e, h). absurd (cc))
accepts_iff (some c) absent_value filled = ((λ e. absurd (cc)), λ (t, e, h). absurd (cc))
accepts_iff (some c) (one_value v) filled = (
  λ e. (c, refl, ground (arith, eq_iff c v)),
  λ (t, e, h). ground (arith, eq_iff c v, eq_iff v "", filled c refl),
)
accepts_iff (some c) (values []) filled = ((λ e. absurd (cc)), λ (t, e, h). absurd (cc))
accepts_iff (some c) (values (v ∷ vs)) filled = (
  λ e. (c, refl, ground (arith, eq_iff c v)),
  λ (t, e, h). ground (arith, eq_iff c v, eq_iff v "", filled c refl),
)

-- A request passes the CSRF guard exactly when its method does not change state, or its cookie
-- holds a token that is not empty and the first value of its header is the same token.
pub csrf_can_activate_iff :
    (method : String) (cookie : Option String) (header : Header)
    → (csrf_can_activate method cookie header ≡ ok tt) ↔ (
        (is_mutating method ≡ false)
        ⊎ ((token : String) × (truthy cookie ≡ some token) × (header_value header ≡ some token)))
unfolding csrf_can_activate
csrf_can_activate_iff method cookie header = elim (Bool-cases (is_mutating method)) [
  | inr safe ↦ rw (safe, csrf_can_activate) ((λ e. inl refl), λ e. refl)
  | inl mutating ↦
      let (to, from) = accepts_iff (truthy cookie) header (filled-truthy cookie) in
      rw (mutating, csrf_can_activate)
        (λ e. inr (to e), λ h. elim h [ inl never ↦ absurd (cc) | inr found ↦ from found ])
]
