-- ===== src/Wire/Endian.antt =====
-- `to_be_bytes` and `from_be_bytes` of the unsigned integers of the standard library.
use mathlib.Core.List.{reverse-reverse, reverse-append}
use native.Mathlib.Nat.{pow-suc}
use keyvisor.Prelude.{
  ℕ, zero, suc, ◌+◌, ◌*◌, ◌/◌, ◌%◌, ◌^◌, ◌<◌, ◌≡◌, refl, List, [], ◌∷◌, reverse, arith, length,
  length-append, All, All-append, ◌++◌,
}

abbrev pub Bytes : Type 0
Bytes = List ℕ

abbrev pub IsByte : ℕ → Type 0
IsByte b = b < 256

abbrev pub AreBytes : Bytes → Type 0
AreBytes = All IsByte

le_bytes : ℕ → ℕ → Bytes
le_bytes zero n = []
le_bytes (suc k) n = (n % 256) ∷ le_bytes k (n / 256)

from_le : Bytes → ℕ
from_le [] = 0
from_le (b ∷ bs) = b + 256 * from_le bs

-- The `k` bytes of `n`, the most significant first.
unfoldable pub to_be_bytes : ℕ → ℕ → Bytes
unfolding le_bytes
to_be_bytes k n = reverse (le_bytes k n)

unfoldable pub from_be_bytes : Bytes → ℕ
unfolding from_le
from_be_bytes bs = from_le (reverse bs)

from_le-le_bytes : (k n : ℕ) → n < 256 ^ k → from_le (le_bytes k n) ≡ n
unfolding from_le le_bytes
from_le-le_bytes zero n h = omega arith
from_le-le_bytes (suc k) n h =
    omega (arith, from_le-le_bytes k (n / 256) (omega (arith, pow-suc 256 k)))

le_bytes-from_le : (bs : Bytes) → AreBytes bs → le_bytes (length bs) (from_le bs) ≡ bs
unfolding from_le le_bytes
le_bytes-from_le [] h = refl
le_bytes-from_le (b ∷ bs) (hb, hbs) =
    let low : (b + 256 * from_le bs) % 256 ≡ b = omega arith in
    let high : (b + 256 * from_le bs) / 256 ≡ from_le bs = omega arith in
    rw (low, high) (rw (le_bytes-from_le bs hbs))

length-le_bytes : (k n : ℕ) → length (le_bytes k n) ≡ k
unfolding le_bytes
length-le_bytes zero n = refl
length-le_bytes (suc k) n = omega (arith, length-le_bytes k (n / 256))

le_bytes-AreBytes : (k n : ℕ) → AreBytes (le_bytes k n)
unfolding le_bytes
le_bytes-AreBytes zero n = tt
le_bytes-AreBytes (suc k) n = (omega arith, le_bytes-AreBytes k (n / 256))

from_le-lt : (bs : Bytes) → AreBytes bs → from_le bs < 256 ^ length bs
unfolding from_le
from_le-lt [] h = omega arith
from_le-lt (b ∷ bs) (hb, hbs) = omega (arith, from_le-lt bs hbs, pow-suc 256 (length bs))

pub length-reverse {ℓ} : {A : Type ℓ} (xs : List A) → length (reverse xs) ≡ length xs
length-reverse [] = refl
length-reverse (x ∷ xs) =
    rw (reverse-append (x ∷ []) xs, length-append) (omega (arith, length-reverse xs))

pub All-reverse {ℓ κ} : {A : Type ℓ} (P : A → Type κ) (xs : List A) → All P xs → All P (reverse xs)
All-reverse P [] h = tt
All-reverse P (x ∷ xs) (px, hx) =
    rw (reverse-append (x ∷ []) xs)
      (All-append P (reverse xs) (x ∷ []) (All-reverse P xs hx) (px, tt))

pub from_be_bytes-to_be_bytes : (k n : ℕ) → n < 256 ^ k → from_be_bytes (to_be_bytes k n) ≡ n
unfolding from_be_bytes to_be_bytes
from_be_bytes-to_be_bytes k n h = rw reverse-reverse (from_le-le_bytes k n h)

pub length-to_be_bytes : (k n : ℕ) → length (to_be_bytes k n) ≡ k
unfolding to_be_bytes
length-to_be_bytes k n = rw (length-reverse, length-le_bytes)

pub to_be_bytes-AreBytes : (k n : ℕ) → AreBytes (to_be_bytes k n)
unfolding to_be_bytes
to_be_bytes-AreBytes k n = All-reverse IsByte (le_bytes k n) (le_bytes-AreBytes k n)

pub to_be_bytes-from_be_bytes :
    (bs : Bytes) → AreBytes bs → to_be_bytes (length bs) (from_be_bytes bs) ≡ bs
unfolding from_be_bytes to_be_bytes
to_be_bytes-from_be_bytes bs h =
    rw (
      ← length-reverse bs,
      le_bytes-from_le (reverse bs) (All-reverse IsByte bs h),
      reverse-reverse,
    )

pub from_be_bytes-lt : (bs : Bytes) → AreBytes bs → from_be_bytes bs < 256 ^ length bs
unfolding from_be_bytes
from_be_bytes-lt bs h = rw (← length-reverse bs) (from_le-lt (reverse bs) (All-reverse IsByte bs h))

from_le_padded : (bs : Bytes) → from_le (bs ++ 0 ∷ []) ≡ from_le bs
unfolding from_le
from_le_padded [] = refl
from_le_padded (b ∷ bs) = rw (from_le_padded bs)

-- A leading zero does not change the number.
pub from_be_bytes_padded : (bs : Bytes) → from_be_bytes (0 ∷ bs) ≡ from_be_bytes bs
unfolding from_be_bytes
from_be_bytes_padded bs = rw (reverse-append (0 ∷ []) bs, from_le_padded)
