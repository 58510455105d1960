-- ===== src/Metrics/Paths.antt =====
-- The path of src/common/metrics/metrics.service.ts under which a request is counted: what stands before
-- the query.
use Prim.Native.Char.{Char, code}
use Prim.Native.String.{char_at}
use text.Mathlib.TextLemmas.{cons-append, nil-append}
use text.Mathlib.TextEquality.{Char-path}
use ops_flow_ms.Metrics.{normalize_path}
use ops_flow_ms.Shared.{
  Bool, Bool-cases, String, arith, before, concat, eqb, false, if◌then◌else◌, inl, inr, leb, not,
  refl, subst, sym, true, ◌&&◌, ◌==◌, ◌≡◌, ◌∙◌, ◌⊎◌, ap,
}

pub concat-cons : (c : Char) (s t : String) → concat (String.◌∷◌ c s) t ≡ String.◌∷◌ c (concat s t)
concat-cons c s t = cons-append c s t

pub concat-one : (c : Char) (t : String) → concat (String.◌∷◌ c "") t ≡ String.◌∷◌ c t
concat-one c t = concat-cons c "" t ∙ ap (String.◌∷◌ c) (nil-append t)

abbrev question : Char
question = char_at "?" 0

-- No character of the text begins a query.
abbrev pub no_query : String → Bool
no_query String.[] = true
no_query (String.◌∷◌ c s) = let rest = no_query s in not (eqb (code c) b'?') && rest

-- A text without a query that a path consists of, but for a query.
abbrev pub IsBase : String → String → Type 0
IsBase base path =
    (no_query base ≡ true)
    × ((path ≡ base) ⊎ ((query : String) × (path ≡ concat base (concat "?" query))))

-- What a path is counted under: its base, or a slash where that is empty.
abbrev pub IsCountedAs : String → String → Type 0
IsCountedAs label path =
    (base : String) × IsBase base path × (label ≡ (if base == "" then "/" else base))

abbrev ends_at : Char → Bool
ends_at c = leb b'?' (code c) && leb (code c) b'?'

before-ends_at : (c : Char) (s : String) → ends_at c ≡ true → before b'?' (String.◌∷◌ c s) ≡ ""
unfolding before
before-ends_at c s e = rw (before, e) refl

before-goes_on :
    (c : Char) (s : String)
    → ends_at c ≡ false
    → before b'?' (String.◌∷◌ c s) ≡ String.◌∷◌ c (before b'?' s)
unfolding before
before-goes_on c s e = rw (before, e) refl

goes_on-IsBase :
    (c : Char) (base s : String)
    → ends_at c ≡ false
    → IsBase base s
    → IsBase (String.◌∷◌ c base) (String.◌∷◌ c s)
goes_on-IsBase c base s e (free, parts) = (
  ground (arith, free, e),
  elim parts [
    | inl same ↦ inl (ap (String.◌∷◌ c) same)
    | inr (query, split) ↦
        inr (query, ap (String.◌∷◌ c) split ∙ sym (concat-cons c base (concat "?" query)))
  ],
)

ends_at-IsBase : (c : Char) (s : String) → ends_at c ≡ true → IsBase "" (String.◌∷◌ c s)
ends_at-IsBase c s e =
    let same : c ≡ question = Char-path c question (ground (arith, e)) in
    (
      refl,
      inr (
        s,
        ap (λ d. String.◌∷◌ d s) same
            ∙ sym (concat-one question s)
            ∙ sym (nil-append (concat "?" s)),
      ),
    )

before-IsBase : (path : String) → IsBase (before b'?' path) path
unfolding before
before-IsBase String.[] = (refl, inl refl)
before-IsBase (String.◌∷◌ c s) =
    let later = before-IsBase s in
    elim (Bool-cases (ends_at c)) [
      | inl ends ↦
          subst (λ b. IsBase b (String.◌∷◌ c s)) (sym (before-ends_at c s ends))
            (ends_at-IsBase c s ends)
      | inr goes ↦
          subst (λ b. IsBase b (String.◌∷◌ c s)) (sym (before-goes_on c s goes))
            (goes_on-IsBase c (before b'?' s) s goes later)
    ]

pub normalize_path-IsCountedAs : (path : String) → IsCountedAs (normalize_path path) path
unfolding normalize_path
normalize_path-IsCountedAs path = (before b'?' path, before-IsBase path, refl)
