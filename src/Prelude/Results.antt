-- ===== src/Prelude/Results.antt =====
-- Fallible code: `Result<A, E>` of Rust with its `?`, and its panics as a third outcome.
use mathlib.Core.Path.{◌≡◌, refl}
use mathlib.Core.Logic.{◌⊎◌, inl, inr}

pub data Outcome {ℓ κ} (E : Type κ) (A : Type ℓ) : Type (ℓ ⊔ κ) where
  panic : Outcome E A
  err : E → Outcome E A
  ok : A → Outcome E A

module _ {ℓ κ} {E : Type κ} {A : Type ℓ} where
  pub Outcome-cases :
      (r : Outcome E A) → ((a : A) × (r ≡ ok a)) ⊎ (((e : E) × (r ≡ err e)) ⊎ (r ≡ panic))
  Outcome-cases panic = inr (inr refl)
  Outcome-cases (err e) = inr (inl (e, refl))
  Outcome-cases (ok a) = inl (a, refl)

  -- What neither fails nor panics is a result.
  pub Outcome-ok_of :
      (r : Outcome E A) → ((e : E) → ¬ (r ≡ err e)) → ¬ (r ≡ panic) → (a : A) × (r ≡ ok a)
  Outcome-ok_of panic fails panics = absurd (panics refl)
  Outcome-ok_of (err e) fails panics = absurd (fails e refl)
  Outcome-ok_of (ok a) fails panics = (a, refl)

module _ {ℓ κ μ} {E : Type μ} {A : Type ℓ} {B : Type κ} where
  infixl 5 ◌>>=◌
  -- The `?` of Rust.
  abbrev pub ◌>>=◌ : Outcome E A → (A → Outcome E B) → Outcome E B
  panic >>= next = panic
  err e >>= next = err e
  ok a >>= next = next a

  -- What a successful chain was made of.
  pub >>=-eq-ok :
      (r : Outcome E A) (next : A → Outcome E B) {b : B}
      → (r >>= next) ≡ ok b
      → (a : A) × (r ≡ ok a) × (next a ≡ ok b)
  >>=-eq-ok panic next h = cc
  >>=-eq-ok (err e) next h = cc
  >>=-eq-ok (ok a) next h = (a, refl, h)
