-- ===== src/Prelude/Step.antt =====
-- Steps of a program that read and write a state and may raise: a state monad with failures, and what its
-- steps keep.
use customers_manager_hub.Prelude.{◌≡◌, ap, inl, inr}
use customers_manager_hub.Prelude.Result.{Result, ok, err, err≢ok, Result-cases}

-- A step returns or raises, and leaves a state either way.
abbrev pub Step : Type 0 → Type 0 → Type 0 → Type 0
Step E S A = S → Result E A × S

infixl 5 ◌>>=◌ ◌>>◌
abbrev pub ◌>>=◌ : {E S A B : Type 0} → Step E S A → (A → Step E S B) → Step E S B
◌>>=◌ m f s = let (r, s') = m s in elim r [ ok a ↦ f a s' | err e ↦ (err e, s') ]

abbrev pub ◌>>◌ : {E S B : Type 0} → Step E S (Unit {0}) → Step E S B → Step E S B
m >> k = m >>= λ _. k

abbrev pub pure : {E S A : Type 0} → A → Step E S A
pure a s = (ok a, s)

abbrev pub raise : {E S A : Type 0} → E → Step E S A
raise e s = (err e, s)

-- A computation without a state.
abbrev pub returning : {E S A : Type 0} → Result E A → Step E S A
returning r s = (r, s)

-- One run of two steps, of which the first returns, or raises.
module _ {E S A B : Type 0} (m : Step E S A) (f : A → Step E S B) (s : S) where
  abbrev go_on : Result E A × S → Result E B × S
  go_on (r, s') = elim r [ ok a ↦ f a s' | err e ↦ (err e, s') ]

  pub bind_step : (a : A) (s' : S) → m s ≡ (ok a, s') → (m >>= f) s ≡ f a s'
  bind_step a s' e = ap go_on e

  pub bind_error : (x : E) (s' : S) → m s ≡ (err x, s') → (m >>= f) s ≡ (err x, s')
  bind_error x s' e = ap go_on e

module _ {E S : Type 0} (P : S → Type 0) where
  -- A step that starts in a state of `P` ends in one, whether it returns or raises.
  abbrev pub Keeps : {A : Type 0} → Step E S A → Type 0
  Keeps m = (s : S) → P s → P (m s).1

  pub >>=-Keeps :
      {A B : Type 0} (m : Step E S A) (f : A → Step E S B)
      → Keeps m
      → ((a : A) → Keeps (f a))
      → Keeps (m >>= f)
  >>=-Keeps m f hm hf s p = elim (Result-cases (m s).0) [
    | inl (a, e) ↦ rw (e, ◌>>=◌) (hf a (m s).1 (hm s p))
    | inr (x, e) ↦ rw (e, ◌>>=◌) (hm s p)
  ]

  -- One run of two steps.
  pub bind-keeps :
      {A B : Type 0} (m : Step E S A) (f : A → Step E S B) (s : S)
      → P (m s).1
      → ((a : A) → (m s).0 ≡ ok a → P (f a (m s).1).1)
      → P ((m >>= f) s).1
  bind-keeps m f s kept next = elim (Result-cases (m s).0) [
    | inl (a, e) ↦ rw (e, ◌>>=◌) (next a e)
    | inr (x, e) ↦ rw (e, ◌>>=◌) kept
  ]

  -- A step that keeps `P`, and returns only what is in `Q`.
  abbrev pub Returns : {A : Type 0} → (A → Type 0) → Step E S A → Type 0
  Returns {A} Q m = (s : S) → P s → P (m s).1 × ((a : A) → (m s).0 ≡ ok a → Q a)

  pub >>=-Returns :
      {A B : Type 0} (Q : A → Type 0) (R : B → Type 0) (m : Step E S A) (f : A → Step E S B)
      → Returns Q m
      → ((a : A) → Q a → Returns R (f a))
      → Returns R (m >>= f)
  >>=-Returns Q R m f hm hf s p = elim (Result-cases (m s).0) [
    | inl (a, e) ↦ let (kept, holds) = hm s p in rw (e, ◌>>=◌) (hf a (holds a e) (m s).1 kept)
    | inr (x, e) ↦ rw (e, ◌>>=◌) ((hm s p).0, λ b h. absurd (err≢ok h))
  ]
