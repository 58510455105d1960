-- ===== src/Errors/Result.antt =====
-- Results of the handlers that only read, with `do`, and the inversion of a successful bind.
use ops_flow_ms.Shared.{◌≡◌, refl, Bool, true, false, Option, none, some, ◌≢◌}
use ops_flow_ms.Errors.{Failure}

-- A rejected promise, or a fulfilled one.
pub data Result {ℓ} (Value : Type ℓ) : Type ℓ where
  err : Failure → Result Value
  ok : Value → Result Value

infixl 5 ◌>>=◌
abbrev pub ◌>>=◌ {ℓ κ} :
    {Value : Type ℓ} {Next : Type κ} → Result Value → (Value → Result Next) → Result Next
err failure >>= continue = err failure
ok value >>= continue = continue value

infixl 5 ◌>>◌
abbrev pub ◌>>◌ {ℓ} : {Next : Type ℓ} → Result (Unit {0}) → Result Next → Result Next
checked >> next = checked >>= λ _. next

-- `if (test) throw e;`
abbrev pub throw_if : Bool → Failure → Result (Unit {0})
throw_if true e = err e
throw_if false e = ok tt

-- `if (!o) throw e;`
abbrev pub or_throw {ℓ} : {A : Type ℓ} → Option A → Failure → Result A
or_throw none e = err e
or_throw (some a) e = ok a

pub >>=-eq-ok {ℓ κ} :
    {Value : Type ℓ} {Next : Type κ} (first : Result Value) (continue : Value → Result Next)
    {last : Next}
    → (first >>= continue) ≡ ok last
    → (value : Value) × (first ≡ ok value) × (continue value ≡ ok last)
>>=-eq-ok (err failure) continue answered = absurd (cc)
>>=-eq-ok (ok value) continue answered = (value, refl, answered)

pub ok_inj {ℓ} : {A : Type ℓ} (a b : A) → ok a ≡ ok b → a ≡ b
ok_inj a b h = cc

pub err-ne-ok {ℓ} : {A : Type ℓ} (e : Failure) (a : A) → err e ≢ ok a
err-ne-ok e a h = cc

-- What a check and an optional value establish by letting the handler go on.
pub throw_if-eq-ok : (b : Bool) (e : Failure) {u : Unit {0}} → throw_if b e ≡ ok u → b ≡ false
throw_if-eq-ok true e h = absurd (cc)
throw_if-eq-ok false e h = refl

pub or_throw-eq-ok {ℓ} :
    {A : Type ℓ} (o : Option A) (e : Failure) {a : A} → or_throw o e ≡ ok a → o ≡ some a
or_throw-eq-ok none e h = absurd (cc)
or_throw-eq-ok (some a) e h = cc

abbrev pub succeeds {ℓ} : {A : Type ℓ} → Result A → Bool
succeeds (ok a) = true
succeeds (err e) = false
