-- ===== src/Prelude/Sequences.antt =====
-- Operations on a state that may fail: the `?` operator between calls that change the state.
use keyvisor.Prelude.Results.{Result, ok, err, ok-injective}
use mathlib.Core.Path.{◌≡◌, refl, ap}

module _ {S E : Type 0} where
  unfoldable pub then_do {ℓ κ} :
      {A : Type ℓ} {B : Type κ} → Result E A × S → (A → S → Result E B × S) → Result E B × S
  then_do (ok a, s) k = k a s
  then_do (err e, s) k = (err e, s)

module _ {S E A B : Type 0} where
  -- A sequence that succeeds: the first operation did, and the rest after it.
  pub then_do-ok :
      (m : Result E A × S) (k : A → S → Result E B × S) {b : B}
      → (then_do m k).0 ≡ ok b
      → (a : A) × (m.0 ≡ ok a) × (then_do m k ≡ k a m.1) × ((k a m.1).0 ≡ ok b)
  unfolding then_do
  then_do-ok (ok a, s) k h = (a, refl, refl, h)
  then_do-ok (err e, s) k h = cc

  pub then_do-eq :
      {a : A} (m : Result E A × S) (k : A → S → Result E B × S) → m.0 ≡ ok a → then_do m k ≡ k a m.1
  unfolding then_do
  then_do-eq (ok a, s) k h = ap (λ x. k x s) (ok-injective h)
  then_do-eq (err e, s) k h = cc

  pub then_do-fails :
      {e : E} (m : Result E A × S) (k : A → S → Result E B × S)
      → m.0 ≡ err e
      → then_do m k ≡ (err e, m.1)
  unfolding then_do
  then_do-fails (ok a, s) k h = cc
  then_do-fails (err e, s) k h = cc

-- What holds of the failure and of the rest holds of the sequence.
pub then_do-post {ℓ} :
    {S E A B : Type 0} (P : Result E B × S → Type ℓ) (m : Result E A × S)
    (k : A → S → Result E B × S)
    → ((e : E) → m.0 ≡ err e → P (err e, m.1))
    → ((a : A) → m.0 ≡ ok a → P (k a m.1))
    → P (then_do m k)
unfolding then_do
then_do-post P (ok a, s) k failed done = done a refl
then_do-post P (err e, s) k failed done = failed e refl
