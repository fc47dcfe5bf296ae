-- ===== src/Prelude/Results.antt =====
-- `Result<A, E>` with the `?` operator as bind.
use Prim.Native.Nat.{ℕ, ◌≤◌}
use native.Mathlib.Omega.{arith}
use keyvisor.Prelude.Tests.{ltb}
use mathlib.Core.Path.{◌≡◌, refl, ap}
use mathlib.Core.Bool.{Bool, true, false}

pub data Result {ℓ} (E : Type 0) (A : Type ℓ) : Type ℓ where
  ok : A → Result E A
  err : E → Result E A

infixl 5 ◌>>=◌ ◌>>◌
abbrev pub ◌>>=◌ {ℓ κ} :
    {E : Type 0} {A : Type ℓ} {B : Type κ} → Result E A → (A → Result E B) → Result E B
ok a >>= f = f a
err e >>= f = err e

abbrev pub ◌>>◌ {ℓ} : {E : Type 0} {B : Type ℓ} → Result E (Unit {0}) → Result E B → Result E B
m >> k = m >>= λ _. k

-- `if b { return Err(e) }`
abbrev pub fail_if : {E : Type 0} → Bool → E → Result E (Unit {0})
fail_if true e = err e
fail_if false e = ok tt

abbrev pub map_err {ℓ} : {E F : Type 0} {A : Type ℓ} → (E → F) → Result E A → Result F A
map_err f (ok a) = ok a
map_err f (err e) = err (f e)

module _ {ℓ κ} {E : Type 0} {A : Type ℓ} {B : Type κ} where
  -- The first step succeeds.
  pub bind-eq :
      {m : Result E A} {a : A} (f : A → Result E B) {r : Result E B}
      → m ≡ ok a
      → f a ≡ r
      → (m >>= f) ≡ r
  bind-eq f e h = rw e h

  pub bind-eq-ok :
      (m : Result E A) (f : A → Result E B) {b : B}
      → (m >>= f) ≡ ok b
      → (a : A) × (m ≡ ok a) × (f a ≡ ok b)
  bind-eq-ok (ok a) f h = (a, refl, h)
  bind-eq-ok (err e) f h = cc

pub fail_if-eq-ok : {E : Type 0} (b : Bool) (e : E) {u : Unit {0}} → fail_if b e ≡ ok u → b ≡ false
fail_if-eq-ok true e h = cc
fail_if-eq-ok false e h = refl

-- A bound that is kept.
pub fail_if-le : {E : Type 0} (n bound : ℕ) (e : E) → n ≤ bound → fail_if (ltb bound n) e ≡ ok tt
fail_if-le n bound e h = ground arith

module _ {ℓ} {E : Type 0} {A : Type ℓ} where
  pub ok-injective : {a b : A} → ◌≡◌ {A = Result E A} (ok a) (ok b) → a ≡ b
  ok-injective h = cc

  pub ok_pair-injective {κ} :
      {B : Type κ} {a c : A} {b d : B}
      → ◌≡◌ {A = Result E (A × B)} (ok (a, b)) (ok (c, d))
      → (a ≡ c) × (b ≡ d)
  ok_pair-injective h = (cc, cc)

pub map_err-eq-ok {ℓ} :
    {E F : Type 0} {A : Type ℓ} (f : E → F) (r : Result E A) {a : A} → map_err f r ≡ ok a → r ≡ ok a
map_err-eq-ok f (ok x) h = ap ok (ok-injective h)
map_err-eq-ok f (err e) h = cc
