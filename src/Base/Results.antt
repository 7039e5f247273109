-- ===== src/Base/Results.antt =====
-- A result of code that raises: `error` carries what was raised.
use alderpoint_dns.Base.Tests.{if◌then◌else◌}
use mathlib.Core.Path.{◌≡◌, refl}
use mathlib.Core.Bool.{Bool, true, false}
use mathlib.Core.Option.{Option, none, some}

pub data Result {ℓ} (E A : Type ℓ) : Type ℓ where
  error : E → Result E A
  ok : A → Result E A

infixl 5 ◌>>=◌ ◌>>◌
abbrev pub ◌>>=◌ {ℓ} : {E A B : Type ℓ} → Result E A → (A → Result E B) → Result E B
error e >>= f = error e
ok a >>= f = f a

abbrev pub ◌>>◌ {ℓ} : {E B : Type ℓ} → Result E (Unit {ℓ}) → Result E B → Result E B
m >> k = m >>= λ _. k

-- `if c: raise e`
abbrev pub raise_if {ℓ} : {E : Type ℓ} → Bool → E → Result E (Unit {ℓ})
raise_if c e = if c then error e else ok tt

-- The value of an option, or the error where there is none.
abbrev pub or_raise {ℓ} : {E A : Type ℓ} → Option A → E → Result E A
or_raise none e = error e
or_raise (some a) e = ok a

-- What holds of the value of a result that has one.
abbrev pub Returns {ℓ κ} : {E A : Type ℓ} → (A → Type κ) → Result E A → Type κ
Returns P (error e) = Unit
Returns P (ok a) = P a

-- A bind returns what its second part returns from a value of the first.
pub Returns-bind {ℓ κ} :
    {E A B : Type ℓ} (P : B → Type κ) (m : Result E A) (f : A → Result E B)
    → ((a : A) → m ≡ ok a → Returns P (f a))
    → Returns P (m >>= f)
Returns-bind P (error e) f h = tt
Returns-bind P (ok a) f h = h a refl

pub Returns-raise_if {ℓ κ} :
    {E B : Type ℓ} (P : B → Type κ) (c : Bool) (e : E) (k : Result E B)
    → (c ≡ false → Returns P k)
    → Returns P (raise_if c e >> k)
Returns-raise_if P true e k h = tt
Returns-raise_if P false e k h = h refl
