-- ===== src/Wire/Hex.antt =====
-- Hexadecimal text: `hex` of the agent and of the TPM crate, and the digits that the CLI reads.
use keyvisor.Prelude.{
  ℕ, ◌+◌, ◌-◌, ◌*◌, ◌/◌, ◌≤◌, ◌<◌, ◌≡◌, refl, ◌⊎◌, ◌&&◌, [], ◌∷◌, arith, ltb, leb, if◌then◌else◌,
  length, All, Result, ok, err, ◌>>=◌, bind-eq,
}
use Prim.Native.Nat.{bit_and, bit_or}
use keyvisor.Wire.Endian.{Bytes, AreBytes}
use keyvisor.Wire.Bits.{bit_and_low, bit_or_halves}

-- `b"0123456789abcdef"[n]`, for an index below 16.
unfoldable pub lower_digit : ℕ → ℕ
lower_digit n = if ltb n 10 then b'0' + n else b'a' + (n - 10)

-- `byte >> 4` and `byte & 0x0f`
unfoldable pub hex : Bytes → Bytes
unfolding lower_digit
hex [] = []
hex (b ∷ bs) = lower_digit (b / 16) ∷ lower_digit (bit_and b 0x0f) ∷ hex bs

unfoldable pub hex_digit : {E : Type 0} → E → ℕ → Result E ℕ
hex_digit e b =
    if leb b'0' b && leb b b'9'
    then ok (b - b'0')
    else if leb b'a' b && leb b b'f'
    then ok (b - b'a' + 10)
    else if leb b'A' b && leb b b'F'
    then ok (b - b'A' + 10)
    else err e

-- `(high << 4) | low` of two digits.
unfoldable pub join_digits : {E : Type 0} → E → ℕ → ℕ → Result E ℕ
join_digits e a b = do high ← hex_digit e a; low ← hex_digit e b; ok (bit_or (high * 16) low)

-- The bytes of pairs of digits; a last digit alone is not read.
unfoldable pub unhex : {E : Type 0} → E → Bytes → Result E Bytes
unfolding join_digits
unhex e [] = ok []
unhex e (a ∷ []) = ok []
unhex e (a ∷ b ∷ s) = do byte ← join_digits e a b; rest ← unhex e s; ok (byte ∷ rest)

abbrev pub IsHexDigit : ℕ → Type 0
IsHexDigit c = ((b'0' ≤ c) × (c ≤ b'9')) ⊎ ((b'a' ≤ c) × (c ≤ b'f'))

hex_digit-lower_digit : {E : Type 0} (e : E) (n : ℕ) → n < 16 → hex_digit e (lower_digit n) ≡ ok n
unfolding hex_digit lower_digit
hex_digit-lower_digit e n h = ground arith

pub join_digits-halves :
    {E : Type 0} (e : E) (b : ℕ)
    → b < 256
    → join_digits e (lower_digit (b / 16)) (lower_digit (bit_and b 0x0f)) ≡ ok b
unfolding join_digits
join_digits-halves e b h = bind-eq _ (hex_digit-lower_digit e (b / 16) (omega arith)) (
    bind-eq _ (hex_digit-lower_digit e (bit_and b 0x0f) (omega (arith, bit_and_low b h)))
      (rw (bit_and_low b h, bit_or_halves b h)))

pub unhex-hex :
    {E : Type 0} (e : E) (bytes : Bytes) → AreBytes bytes → unhex e (hex bytes) ≡ ok bytes
unfolding unhex hex
unhex-hex e [] all = refl
unhex-hex e (b ∷ bs) (hb, hbs) =
    bind-eq _ (join_digits-halves e b hb) (bind-eq _ (unhex-hex e bs hbs) refl)

pub lower_digit-IsHexDigit : (n : ℕ) → n < 16 → IsHexDigit (lower_digit n)
unfolding lower_digit
lower_digit-IsHexDigit n h = ground arith

pub hex-AreHexDigits : (bytes : Bytes) → AreBytes bytes → All IsHexDigit (hex bytes)
unfolding hex
hex-AreHexDigits [] all = tt
hex-AreHexDigits (b ∷ bs) (hb, hbs) = (
  lower_digit-IsHexDigit (b / 16) (omega arith),
  (
    lower_digit-IsHexDigit (bit_and b 0x0f) (omega (arith, bit_and_low b hb)),
    hex-AreHexDigits bs hbs,
  ),
)

pub length-hex : (bytes : Bytes) → length (hex bytes) ≡ 2 * length bytes
unfolding hex
length-hex [] = refl
length-hex (b ∷ bs) = omega (arith, length-hex bs)
