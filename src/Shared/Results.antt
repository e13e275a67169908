-- ===== src/Shared/Results.antt =====
-- Fallible code: Go's `(value, error)` pair as a sum. An error is the list of the sentinels that its
-- `%w` chain wraps, outermost first, so that `errors.Is` is membership (Errors.antt).
use mathlib.Core.Path.{◌≡◌, refl}
use mathlib.Core.Bool.{Bool, true, false}

pub data Outcome {ℓ κ} (E : Type κ) (A : Type ℓ) : Type (ℓ ⊔ κ) where
  ok : A → Outcome E A
  err : E → Outcome E A

infixl 5 ◌>>=◌ ◌>>◌
abbrev pub ◌>>=◌ {ℓ κ μ} :
    {E : Type μ} {A : Type ℓ} {B : Type κ} → Outcome E A → (A → Outcome E B) → Outcome E B
ok a >>= f = f a
err e >>= f = err e

abbrev pub ◌>>◌ {ℓ μ} : {E : Type μ} {B : Type ℓ} → Outcome E (Unit {0}) → Outcome E B → Outcome E B
m >> k = m >>= λ _. k

-- `if !test { return e }`
abbrev pub require {μ} : {E : Type μ} → Bool → E → Outcome E (Unit {0})
require true e = ok tt
require false e = err e

-- `fmt.Errorf("…: %w", err)`: the error of `m` is wrapped by `f`.
abbrev pub wrap {ℓ μ} : {E : Type μ} {A : Type ℓ} → (E → E) → Outcome E A → Outcome E A
wrap f (ok a) = ok a
wrap f (err e) = err (f e)

-- Inversion of a successful sequence.
pub bind-eq-ok {ℓ κ μ} :
    {E : Type μ} {A : Type ℓ} {B : Type κ} (m : Outcome E A) (f : A → Outcome E B) {b : B}
    → (m >>= f) ≡ ok b
    → (a : A) × (m ≡ ok a) × (f a ≡ ok b)
bind-eq-ok (ok a) f h = (a, refl, h)
bind-eq-ok (err e) f h = cc

pub then-eq-ok {κ μ} :
    {E : Type μ} {B : Type κ} (m : Outcome E (Unit {0})) (k : Outcome E B) {b : B}
    → (m >> k) ≡ ok b
    → (m ≡ ok tt) × (k ≡ ok b)
then-eq-ok (ok tt) k h = (refl, h)
then-eq-ok (err e) k h = cc

pub wrap-eq-ok {ℓ μ} :
    {E : Type μ} {A : Type ℓ} (f : E → E) (m : Outcome E A) {a : A} → wrap f m ≡ ok a → m ≡ ok a
wrap-eq-ok f (ok b) h = h
wrap-eq-ok f (err e) h = cc

pub require-eq-ok {μ} : {E : Type μ} (t : Bool) (e : E) → require t e ≡ ok tt → t ≡ true
require-eq-ok true e h = refl
require-eq-ok false e h = cc

pub ok-injective {ℓ μ} :
    {E : Type μ} {A : Type ℓ} {a b : A} → ◌≡◌ {A = Outcome E A} (ok a) (ok b) → a ≡ b
ok-injective h = cc
