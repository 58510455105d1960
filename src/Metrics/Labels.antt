-- ===== src/Metrics/Labels.antt =====
-- The labels of a request are read back from their text, so that no two requests with different labels
-- share a counter.
use Prim.Native.Char.{Char, code}
use Prim.Native.String.{char_at}
use text.Mathlib.TextLemmas.{nil-append, append_assoc}
use text.Mathlib.TextEquality.{Char-path}
use ops_flow_ms.Metrics.{
  replace_all, escape_label, RecordHttpRequestInput, labels_of, normalize_path,
}
use ops_flow_ms.Metrics.Paths.{IsCountedAs, concat-cons, concat-one, normalize_path-IsCountedAs}
use ops_flow_ms.Shared.{
  String, arith, concat, eqb, false, if◌then◌else◌, inl, inr, refl, some, true, ◌≡◌, ◌∙◌, Option,
  Bool, Bool-cases, ap, none, to_text, to_upper_case,
}

abbrev quote : Char
quote = char_at "\"" 0

abbrev backslash : Char
backslash = char_at "\\" 0

concat-two :
    (c d : Char) (t : String)
    → concat (String.◌∷◌ c (String.◌∷◌ d "")) t ≡ String.◌∷◌ c (String.◌∷◌ d t)
concat-two c d t = concat-cons c (String.◌∷◌ d "") t ∙ ap (String.◌∷◌ c) (concat-one d t)

-- Each character is escaped by itself.
escape-backslash :
    (c : Char) (s : String)
    → eqb (code c) b'\\' ≡ true
    → escape_label (String.◌∷◌ c s) ≡ String.◌∷◌ backslash (String.◌∷◌ backslash (escape_label s))
unfolding escape_label replace_all
escape-backslash c s e = rw (replace_all, e) (rw (concat-two backslash backslash) refl)

escape-quote :
    (c : Char) (s : String)
    → eqb (code c) b'\\' ≡ false
    → eqb (code c) b'"' ≡ true
    → escape_label (String.◌∷◌ c s) ≡ String.◌∷◌ backslash (String.◌∷◌ quote (escape_label s))
unfolding escape_label replace_all
escape-quote c s e k = rw (replace_all, e) (rw k (rw (concat-two backslash quote) refl))

escape-plain :
    (c : Char) (s : String)
    → eqb (code c) b'\\' ≡ false
    → eqb (code c) b'"' ≡ false
    → escape_label (String.◌∷◌ c s) ≡ String.◌∷◌ c (escape_label s)
unfolding escape_label replace_all
escape-plain c s e k = rw (replace_all, e) (rw k refl)

abbrev push : Char → Option (String × String) → Option (String × String)
push c none = none
push c (some (value, rest)) = some (String.◌∷◌ c value, rest)

-- A label's value is read up to the closing quote; after a backslash a character stands for itself.
pub read_value : Bool → String → Option (String × String)
read_value escaped String.[] = none
read_value true (String.◌∷◌ c s) = push c (read_value false s)
read_value false (String.◌∷◌ c s) =
    let literal = read_value true s in
    let plain = push c (read_value false s) in
    if eqb (code c) b'"' then some ("", s) else if eqb (code c) b'\\' then literal else plain

same_char : (c d : Char) → eqb (code c) (code d) ≡ true → c ≡ d
same_char c d e = Char-path c d (ground arith)

escape-empty : escape_label "" ≡ ""
unfolding escape_label replace_all
escape-empty = refl

-- Reading an escaped text gives the text, and what follows the quote.
read_value-escape_label :
    (s rest : String)
    → read_value false (concat (escape_label s) (concat "\"" rest)) ≡ some (s, rest)
unfolding read_value
read_value-escape_label String.[] rest =
    rw (escape-empty, nil-append (concat "\"" rest), concat-one quote rest) refl
read_value-escape_label (String.◌∷◌ c s) rest =
    let tail = concat (escape_label s) (concat "\"" rest) in
    let later = read_value-escape_label s rest in
    elim (Bool-cases (eqb (code c) b'\\')) [
      | inl slash ↦
          rw
            (
              escape-backslash c s slash,
              concat-cons backslash (String.◌∷◌ backslash (escape_label s)) (concat "\"" rest),
              concat-cons backslash (escape_label s) (concat "\"" rest),
              later,
              same_char c backslash slash,
            )
            refl
      | inr no_slash ↦ elim (Bool-cases (eqb (code c) b'"')) [
        | inl quoted ↦
            rw
              (
                escape-quote c s no_slash quoted,
                concat-cons backslash (String.◌∷◌ quote (escape_label s)) (concat "\"" rest),
                concat-cons quote (escape_label s) (concat "\"" rest),
                later,
                same_char c quote quoted,
              )
              refl
        | inr plain ↦
            rw
              (
                escape-plain c s no_slash plain,
                concat-cons c (escape_label s) (concat "\"" rest),
                plain,
                no_slash,
                later,
              )
              refl
      ]
    ]

-- What follows a text, if the other begins with it.
pub strip_prefix : String → String → Option String
strip_prefix String.[] s = some s
strip_prefix (String.◌∷◌ d p) String.[] = none
strip_prefix (String.◌∷◌ d p) (String.◌∷◌ c s) =
    let later = strip_prefix p s in if eqb (code c) (code d) then later else none

strip_prefix-concat : (p s : String) → strip_prefix p (concat p s) ≡ some s
unfolding strip_prefix
strip_prefix-concat String.[] s = rw (nil-append s) refl
strip_prefix-concat (String.◌∷◌ d p) s =
    rw (concat-cons d p s) (ground (arith, strip_prefix-concat p s))

infixl 5 ◌>>=◌
abbrev ◌>>=◌ : {A B : Type 0} → Option A → (A → Option B) → Option B
none >>= f = none
some a >>= f = f a

abbrev read_field : String → String → Option (String × String)
read_field name s = do rest ← strip_prefix name s; read_value false rest

-- The method, the path and what is left, which is the status with its closing quote.
abbrev pub read_labels : String → Option (String × String × String)
read_labels s = do
  (method, after_method) ← read_field "method=\"" s
  (path, after_path) ← read_field ",path=\"" after_method
  status ← strip_prefix ",status_code=\"" after_path
  some (method, path, status)

read_field-concat :
    (name value s : String)
    → read_field name (concat name (concat (escape_label value) (concat "\"" s))) ≡ some (value, s)
read_field-concat name value s =
    rw (strip_prefix-concat name (concat (escape_label value) (concat "\"" s)))
      (read_value-escape_label value s)

split_path : (s : String) → concat "\",path=\"" s ≡ concat "\"" (concat ",path=\"" s)
split_path s = append_assoc "\"" ",path=\"" s

split_status :
    (s : String) → concat "\",status_code=\"" s ≡ concat "\"" (concat ",status_code=\"" s)
split_status s = append_assoc "\"" ",status_code=\"" s

-- The labels under which a request is counted are read back: the method in upper case, the path
-- without its query, or a slash where that is empty, and the status, whatever quotes and backslashes
-- the first two contain.
pub read_labels-labels_of :
    (input : RecordHttpRequestInput)
    → (read_labels (labels_of input)
        ≡ some (
          to_upper_case input.method,
          normalize_path input.path,
          concat (to_text input.status_code) "\"",
        ))
      × IsCountedAs (normalize_path input.path) input.path
unfolding labels_of
read_labels-labels_of input =
    let method = to_upper_case input.method in
    let path = normalize_path input.path in
    let status = concat (to_text input.status_code) "\"" in
    let after_path = concat ",status_code=\"" status in
    let after_method = concat ",path=\"" (concat (escape_label path) (concat "\"" after_path)) in
    let e : labels_of input
        ≡ concat "method=\"" (concat (escape_label method) (concat "\"" after_method)) =
      rw (
        split_path (concat (escape_label path) (concat "\",status_code=\"" status)),
        split_status status,
      ) in
    (
      rw (
        e,
        read_field-concat "method=\"" method after_method,
        read_field-concat ",path=\"" path after_path,
        strip_prefix-concat ",status_code=\"" status,
      ),
      normalize_path-IsCountedAs input.path,
    )
