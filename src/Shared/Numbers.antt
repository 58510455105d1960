-- ===== src/Shared/Numbers.antt =====
-- `Number(s)` of the standard library of JavaScript on texts of decimal digits. Other texts, which may
-- have signs, points, exponents or spaces, count as no number here.
use Prim.Native.Nat.{zero, suc, ℕ, ◌-◌, ◌+◌, ◌/◌, ◌%◌, ◌<◌, ◌*◌}
use mathlib.Core.Path.{◌≡◌, refl, ap, ◌∙◌}
use mathlib.Core.Option.{Option, some, none}
use mathlib.Core.Logic.{inl, inr}
use native.Mathlib.Omega.{arith}
use Prim.Native.Char.{Char, code}
use Prim.Native.String.{String, char_at}
use mathlib.Core.Bool.{◌&&◌}
use ops_flow_ms.Shared.Tests.{Bool-cases, ltb, leb, if◌then◌else◌}
use ops_flow_ms.Shared.Text.{to_text, digits_from}

abbrev digit_value : Char → Option ℕ
digit_value c = if leb b'0' (code c) && leb (code c) b'9' then some (code c - b'0') else none

number_from : ℕ → String → Option ℕ
number_from n String.[] = some n
number_from n (String.◌∷◌ c rest) = elim (digit_value c) [
  | none ↦ none
  | some d ↦ number_from (n * 10 + d) rest
]

-- `Number(s)`, where a text that is empty is 0.
unfoldable pub number_of : String → Option ℕ
unfolding number_from
number_of s = number_from 0 s

digit_value-char_at : (d : ℕ) → d < 10 → digit_value (char_at "0123456789" d) ≡ some d
digit_value-char_at zero h = refl
digit_value-char_at (suc zero) h = refl
digit_value-char_at (suc (suc zero)) h = refl
digit_value-char_at (suc (suc (suc zero))) h = refl
digit_value-char_at (suc (suc (suc (suc zero)))) h = refl
digit_value-char_at (suc (suc (suc (suc (suc zero))))) h = refl
digit_value-char_at (suc (suc (suc (suc (suc (suc zero)))))) h = refl
digit_value-char_at (suc (suc (suc (suc (suc (suc (suc zero))))))) h = refl
digit_value-char_at (suc (suc (suc (suc (suc (suc (suc (suc zero)))))))) h = refl
digit_value-char_at (suc (suc (suc (suc (suc (suc (suc (suc (suc zero))))))))) h = refl
digit_value-char_at (suc (suc (suc (suc (suc (suc (suc (suc (suc (suc d)))))))))) h =
    absurd (omega arith)

read_digit :
    (n d : ℕ) (rest : String)
    → d < 10
    → number_from n (String.◌∷◌ (char_at "0123456789" d) rest) ≡ number_from (n * 10 + d) rest
unfolding number_from
read_digit n d rest h = rw (number_from, digit_value-char_at d h) refl

number_from-digits_from :
    (f n : ℕ) (acc : String) → n < f → number_from 0 (digits_from f n acc) ≡ number_from n acc
unfolding digits_from
number_from-digits_from zero n acc h = absurd (omega arith)
number_from-digits_from (suc f) n acc h = elim (Bool-cases (ltb n 10)) [
  | inl small ↦
      let same : 0 * 10 + n % 10 ≡ n = ground arith in
      rw small (read_digit 0 (n % 10) acc (omega arith) ∙ ap (λ k. number_from k acc) same)
  | inr large ↦
      let next = String.◌∷◌ (char_at "0123456789" (n % 10)) acc in
      let split : n / 10 * 10 + n % 10 ≡ n = omega arith in
      let rest = number_from-digits_from f (n / 10) next (ground arith) in
      rw large
        (rest ∙ read_digit (n / 10) (n % 10) acc (omega arith) ∙ ap (λ k. number_from k acc) split)
]

-- A number is read back from its text.
pub number_of-to_text : (n : ℕ) → number_of (to_text n) ≡ some n
unfolding number_of to_text number_from
number_of-to_text n = number_from-digits_from (n + 1) n "" (omega arith)
