-- ===== src/Prelude/Result.antt =====
-- Code that returns a value or raises: an error of type `E`.

use mathlib.Core.Path.{◌≡◌, refl}
use mathlib.Core.Logic.{◌⊎◌, inl, inr, ◌≢◌}

pub data Result {ℓ κ} (E : Type ℓ) (A : Type κ) : Type (ℓ ⊔ κ) where
  ok : A → Result E A
  err : E → Result E A

infixl 5 ◌>>=◌ ◌>>◌
abbrev pub ◌>>=◌ {ℓ κ μ} :
    {E : Type ℓ} {A : Type κ} {B : Type μ} → Result E A → (A → Result E B) → Result E B
ok a >>= f = f a
err e >>= f = err e

abbrev pub ◌>>◌ {ℓ κ} : {E : Type ℓ} {B : Type κ} → Result E (Unit {0}) → Result E B → Result E B
m >> k = m >>= λ _. k

pub Result-cases {ℓ κ} :
    {E : Type ℓ} {A : Type κ} (r : Result E A) → ((a : A) × (r ≡ ok a)) ⊎ ((e : E) × (r ≡ err e))
Result-cases (ok a) = inl (a, refl)
Result-cases (err e) = inr (e, refl)

module _ {ℓ κ} {E : Type ℓ} {A : Type κ} where
  pub err≢ok : {e : E} {a : A} → err e ≢ ok a
  err≢ok h = cc

  pub ok_unique : {r : Result E A} {a b : A} → r ≡ ok a → r ≡ ok b → a ≡ b
  ok_unique e f = cc

pub ok_parts {ℓ κ μ} :
    {E : Type ℓ} {A : Type κ} {B : Type μ} {r : Result E (A × B)} {a b : A} {c d : B}
    → r ≡ ok (a, c)
    → r ≡ ok (b, d)
    → (a ≡ b) × (c ≡ d)
ok_parts e f = (cc, cc)

-- A chain that succeeds did so at each step.
pub bind_ok {ℓ κ μ} :
    {E : Type ℓ} {A : Type κ} {B : Type μ} (m : Result E A) (f : A → Result E B) (b : B)
    → (m >>= f) ≡ ok b
    → (a : A) × (m ≡ ok a) × (f a ≡ ok b)
bind_ok (ok a) f b e = (a, refl, e)
bind_ok (err x) f b e = absurd (err≢ok e)
