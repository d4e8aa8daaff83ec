-- ===== src/Prelude/Results.antt =====
-- A Go function's result and error: a value, or the error that it returns.
use mathlib.Core.Path.{◌≡◌, refl}
use mathlib.Core.Option.{some}

pub data Outcome {ℓ κ} (E : Type ℓ) (A : Type κ) : Type (ℓ ⊔ κ) where
  ok : A → Outcome E A
  err : E → Outcome E A

module _ {ℓ κ μ} {E : Type ℓ} {A : Type κ} {B : Type μ} where
  -- `if err != nil { return err }` between two calls.
  infixl 5 ◌>>=◌
  abbrev pub ◌>>=◌ : Outcome E A → (A → Outcome E B) → Outcome E B
  err stopped >>= next = err stopped
  ok value >>= next = next value

  -- Two calls in a row succeed only if each does.
  pub >>=_inv :
      {result : B} (first : Outcome E A) (next : A → Outcome E B)
      → (first >>= next) ≡ ok result
      → (value : A) × (next value ≡ ok result) × (first ≡ ok value)
  >>=_inv (err stopped) next done = cc
  >>=_inv (ok value) next done = (value, done, refl)

module _ {ℓ κ} {E : Type ℓ} {A : Type κ} where
  pub ok-injective : {a b : A} → ◌≡◌ {A = Outcome E A} (ok a) (ok b) → a ≡ b
  ok-injective h = cc

  pub ok≢err : {a : A} {e : E} → ¬ (◌≡◌ {A = Outcome E A} (ok a) (err e))
  ok≢err h = cc

pub some-cancel {ℓ} : {A : Type ℓ} {a b : A} → some a ≡ some b → a ≡ b
some-cancel h = cc
