-- ===== src/Shared/Text.antt =====
-- The operations on texts of the standard library of JavaScript that the services use. Case mapping
-- is that of ASCII; `trim` removes every character that the language counts as white space.
use Prim.Native.Nat.{zero, suc, ℕ, ◌-◌, ◌+◌, ◌/◌, ◌%◌, ◌<◌}
use mathlib.Core.Path.{◌≡◌}
use mathlib.Core.Logic.{inl, inr}
use native.Mathlib.Omega.{arith}
use Prim.Native.Char.{Char, code}
use Prim.Native.String.{String, char_at, ◌++◌}
use mathlib.Core.Bool.{Bool, true, false, ◌&&◌, ◌||◌}
use ops_flow_ms.Shared.Tests.{Bool-cases, ltb, leb, if◌then◌else◌}

-- White space and line terminators.
abbrev is_space : ℕ → Bool
is_space c =
    (leb 9 c && leb c 13)
    || (leb 32 c && leb c 32)
    || (leb 160 c && leb c 160)
    || (leb 0x1680 c && leb c 0x1680)
    || (leb 0x2000 c && leb c 0x200a)
    || (leb 0x2028 c && leb c 0x2029)
    || (leb 0x202f c && leb c 0x202f)
    || (leb 0x205f c && leb c 0x205f)
    || (leb 0x3000 c && leb c 0x3000)
    || (leb 0xfeff c && leb c 0xfeff)

abbrev is_blank : String → Bool
is_blank String.[] = true
is_blank (String.◌∷◌ c s) = false

trim_start : String → String
trim_start String.[] = ""
trim_start (String.◌∷◌ c s) =
    let rest = trim_start s in if is_space (code c) then rest else String.◌∷◌ c s

-- A space is dropped where only dropped characters follow it.
push_front : Char → String → String
push_front c rest = if is_blank rest && is_space (code c) then "" else String.◌∷◌ c rest

trim_end : String → String
trim_end String.[] = ""
trim_end (String.◌∷◌ c s) = push_front c (trim_end s)

unfoldable pub trim : String → String
unfolding trim_start trim_end push_front
trim s = trim_start (trim_end s)

upper_char : Char → Char
upper_char c =
    if leb b'a' (code c) && leb (code c) b'z'
    then char_at "ABCDEFGHIJKLMNOPQRSTUVWXYZ" (code c - b'a')
    else c

lower_char : Char → Char
lower_char c =
    if leb b'A' (code c) && leb (code c) b'Z'
    then char_at "abcdefghijklmnopqrstuvwxyz" (code c - b'A')
    else c

unfoldable pub to_upper_case : String → String
unfolding upper_char
to_upper_case String.[] = ""
to_upper_case (String.◌∷◌ c s) = String.◌∷◌ (upper_char c) (to_upper_case s)

unfoldable pub to_lower_case : String → String
unfolding lower_char
to_lower_case String.[] = ""
to_lower_case (String.◌∷◌ c s) = String.◌∷◌ (lower_char c) (to_lower_case s)

-- The text up to the first occurrence of a character: `s.split(c)[0]`.
unfoldable pub before : ℕ → String → String
before stop String.[] = ""
before stop (String.◌∷◌ c s) =
    let rest = before stop s in
    if leb stop (code c) && leb (code c) stop then "" else String.◌∷◌ c rest

-- `s + t`
abbrev pub concat : String → String → String
concat s t = s ++ t

-- `s.slice(0, n)`
unfoldable pub slice_to : ℕ → String → String
slice_to zero s = ""
slice_to (suc n) String.[] = ""
slice_to (suc n) (String.◌∷◌ c s) = String.◌∷◌ c (slice_to n s)

-- The digits of a number in front of a text, with fuel for each digit.
unfoldable pub digits_from : ℕ → ℕ → String → String
digits_from zero n acc = acc
digits_from (suc f) n acc =
    let next = String.◌∷◌ (char_at "0123456789" (n % 10)) acc in
    let rest = digits_from f (n / 10) next in if ltb n 10 then next else rest

-- `String(n)`
unfoldable pub to_text : ℕ → String
unfolding digits_from
to_text n = digits_from (n + 1) n ""

-- More fuel than the number changes nothing.
digits_from_enough :
    (f g n : ℕ) (acc : String) → n < f → n < g → digits_from f n acc ≡ digits_from g n acc
unfolding digits_from
digits_from_enough zero g n acc h k = absurd (omega arith)
digits_from_enough (suc f) zero n acc h k = absurd (omega arith)
digits_from_enough (suc f) (suc g) n acc h k = elim (Bool-cases (ltb n 10)) [
  | inl small ↦ rw small
  | inr large ↦ rw large (
      digits_from_enough f g (n / 10) (String.◌∷◌ (char_at "0123456789" (n % 10)) acc)
        (ground arith) (ground arith))
]

to_text_enough : (f n : ℕ) → n < f → digits_from f n "" ≡ to_text n
unfolding to_text
to_text_enough f n h = digits_from_enough f (n + 1) n "" h (omega arith)
