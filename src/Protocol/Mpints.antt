-- ===== src/Protocol/Mpints.antt =====
-- `mpint` of RFC 4251: what the writer emits, and a strict reader of it.
use keyvisor.Wire.Strings.{string, length-string}
use keyvisor.Prelude.{
  ℕ, ◌+◌, ◌≤◌, ◌≡◌, refl, [], ◌∷◌, ◌++◌, length, ltb, leb, ◌==◌, if◌then◌else◌, arith, Option, none,
  some, ok, err, length-append, Bool-cases, false, ◌∙◌, inl, ap, inr, ==_iff,
}
use keyvisor.Wire.Endian.{Bytes, AreBytes, from_be_bytes, from_be_bytes_padded}
use keyvisor.Wire.Bits.{bit_and_high}
use keyvisor.Protocol.Defs.{
  push_string, push_mpint, strip_zeros, first_is_high, max_packet_length, packet_too_large,
}

-- A first byte of zero is allowed only before a byte with its high bit set.
read_padded : Bytes → Option ℕ
read_padded [] = none
read_padded (b ∷ bs) = if leb 128 b then some (from_be_bytes (b ∷ bs)) else none

-- The number of a canonical, non-negative `mpint`.
unfoldable pub read_mpint : Bytes → Option ℕ
unfolding read_padded
read_mpint [] = some 0
read_mpint (b ∷ bs) =
    if leb 128 b then none else if b == 0 then read_padded bs else some (from_be_bytes (b ∷ bs))

-- The bytes that `push_mpint` pushes as a string.
unfoldable pub mpint : Bytes → Bytes
mpint value = if first_is_high (strip_zeros value) then 0 ∷ strip_zeros value else strip_zeros value

pub push_string_lem :
    (output value : Bytes)
    → push_string output value ≡ (
        if ltb max_packet_length (length output + 4 + length value)
        then err packet_too_large
        else ok (output ++ string value))
unfolding push_string
push_string_lem output value =
    ground (arith, length-append {0} output (string value), length-string value)

pub push_mpint_lem :
    (output value : Bytes) → push_mpint output value ≡ push_string output (mpint value)
unfolding push_mpint mpint
push_mpint_lem output value = ground arith

strip_zeros-AreBytes : (value : Bytes) → AreBytes value → AreBytes (strip_zeros value)
unfolding strip_zeros
strip_zeros-AreBytes [] all = tt
strip_zeros-AreBytes (b ∷ bs) all = elim (Bool-cases (b == 0)) [
  | inl e ↦ rw e (strip_zeros-AreBytes bs all.1)
  | inr e ↦ rw e all
]

from_be_bytes-strip_zeros :
    (value : Bytes) → from_be_bytes (strip_zeros value) ≡ from_be_bytes value
unfolding strip_zeros
from_be_bytes-strip_zeros [] = refl
from_be_bytes-strip_zeros (b ∷ bs) = elim (Bool-cases (b == 0)) [
  | inl e ↦ rw (e, (==_iff b 0).0 e, from_be_bytes_padded bs) (from_be_bytes-strip_zeros bs)
  | inr e ↦ rw e
]

-- The first byte that is left is not zero.
first_nonzero : (value : Bytes) (b : ℕ) (bs : Bytes) → strip_zeros value ≡ b ∷ bs → (b == 0) ≡ false
unfolding strip_zeros
first_nonzero [] b bs h = cc
first_nonzero (c ∷ cs) b bs h = ground (arith, first_nonzero cs b bs)

-- What is read of stripped bytes, padded if their first bit is set.
read_stripped :
    (value : Bytes)
    → AreBytes value
    → ((b : ℕ) (bs : Bytes) → value ≡ b ∷ bs → (b == 0) ≡ false)
    → read_mpint (if first_is_high value then 0 ∷ value else value) ≡ some (from_be_bytes value)
unfolding read_mpint first_is_high
read_stripped [] all nonzero = unfold from_be_bytes in refl
read_stripped (b ∷ bs) all nonzero = rw (bit_and_high b all.0) (ground (arith, nonzero b bs refl))

-- The pushed bytes are a canonical mpint of the same number.
pub read_mpint-mpint :
    (value : Bytes) → AreBytes value → read_mpint (mpint value) ≡ some (from_be_bytes value)
unfolding mpint
read_mpint-mpint value all =
    read_stripped (strip_zeros value) (strip_zeros-AreBytes value all) (first_nonzero value)
    ∙ ap some (from_be_bytes-strip_zeros value)

pub length-strip_zeros : (value : Bytes) → length (strip_zeros value) ≤ length value
unfolding strip_zeros
length-strip_zeros [] = omega arith
length-strip_zeros (b ∷ bs) = ground (arith, length-strip_zeros bs)

pub length-mpint : (value : Bytes) → length (mpint value) ≤ length value + 1
unfolding mpint
length-mpint value = ground (arith, length-strip_zeros value)
