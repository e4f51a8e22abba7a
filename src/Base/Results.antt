-- ===== src/Base/Results.antt =====
-- Fallible code: a value, or what a Python `raise` carries.
use mathlib.Core.Bool.{Bool, true, false}
use mathlib.Core.Logic.{◌⊎◌, inl, inr}
use mathlib.Core.Path.{◌≡◌, refl}

pub data Result {ℓ} (E : Type 0) (A : Type ℓ) : Type ℓ where
  ok : A → Result E A
  raise : E → Result E A

infixl 5 ◌>>=◌ ◌>>◌
abbrev pub ◌>>=◌ {ℓ κ} :
    {E : Type 0} {A : Type ℓ} {B : Type κ} → Result E A → (A → Result E B) → Result E B
ok a >>= f = f a
raise e >>= f = raise e

abbrev pub ◌>>◌ {ℓ} : {E : Type 0} {B : Type ℓ} → Result E (Unit {0}) → Result E B → Result E B
m >> k = m >>= λ _. k

-- `if test: raise e`
abbrev pub raise_if : {E : Type 0} → Bool → E → Result E (Unit {0})
raise_if true e = raise e
raise_if false e = ok tt

-- The built-in exceptions that the modelled code raises, `attribute_error` at a use of None.
pub data Exception : Type 0 where
  value_error runtime_error overflow_error os_error attribute_error : Exception

-- To split on a computed result and keep the equation.
pub Result-cases {ℓ} :
    {E : Type 0} {A : Type ℓ} (r : Result E A) → ((a : A) × (r ≡ ok a)) ⊎ ((e : E) × (r ≡ raise e))
Result-cases (ok a) = inl (a, refl)
Result-cases (raise e) = inr (e, refl)

pub ok_injective : {E A : Type 0} {a b : A} → ◌≡◌ {A = Result E A} (ok a) (ok b) → a ≡ b
ok_injective e = cc

-- A chain that returns has returned at each step.
pub bind-ok :
    {E A B : Type 0} (r : Result E A) (f : A → Result E B) (b : B)
    → (r >>= f) ≡ ok b
    → (a : A) × (r ≡ ok a) × (f a ≡ ok b)
bind-ok (ok a) f b h = (a, refl, h)
bind-ok (raise e) f b h = cc

-- What holds of the value, if there is one.
abbrev pub IfOk : {E A : Type 0} → (A → Type 0) → Result E A → Type 0
IfOk P (ok a) = P a
IfOk P (raise e) = Unit

pub IfOk-bind :
    {E A B : Type 0} {P : A → Type 0} (Q : B → Type 0) (r : Result E A) (f : A → Result E B)
    → IfOk P r
    → ((a : A) → P a → IfOk Q (f a))
    → IfOk Q (r >>= f)
IfOk-bind Q (ok a) f p q = q a p
IfOk-bind Q (raise e) f p q = tt

pub IfOk-raise_if :
    {E B : Type 0} (Q : B → Type 0) (b : Bool) (e : E) (r : Result E B)
    → IfOk Q r
    → IfOk Q (raise_if b e >> r)
IfOk-raise_if Q true e r q = tt
IfOk-raise_if Q false e r q = q

-- Of any result.
pub any_lem : {E A : Type 0} (r : Result E A) → IfOk (λ a. Unit {0}) r
any_lem (ok a) = tt
any_lem (raise e) = tt
