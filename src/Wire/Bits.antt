-- ===== src/Wire/Bits.antt =====
-- Bit operations on a byte, by an evaluation at each of the 256 values.
use Prim.Native.Nat.{bit_and, bit_or}
use keyvisor.Prelude.{
  ℕ, zero, suc, ◌+◌, ◌*◌, ◌/◌, ◌%◌, ◌<◌, ◌≡◌, refl, sym, subst, inl, inr, Bool, true, false, not,
  arith, leb, ◌==◌, if◌then◌else◌, ==_iff, Bool-cases,
}

-- The two numbers that a fact on a byte compares.
abbrev Fact : Type 0
Fact = ℕ → ℕ × ℕ

-- How many of the bytes below a bound break a fact.
exceptions : Fact → ℕ → ℕ
exceptions f zero = 0
exceptions f (suc b) = let (left, right) = f b in exceptions f b + (if left == right then 0 else 1)

no_exception : (f : Fact) (bound b : ℕ) → exceptions f bound ≡ 0 → b < bound → (f b).0 ≡ (f b).1
unfolding exceptions
no_exception f zero b none-below inside = absurd (omega arith)
no_exception f (suc bound) b none-below inside = elim (Bool-cases (b == bound)) [
  | inl e ↦
      subst (λ c. (f c).0 ≡ (f c).1) (sym ((==_iff b bound).0 e))
        (last (f bound).0 (f bound).1 none-below)
  | inr e ↦ no_exception f bound b (omega arith) (ground arith)
]
  where
    last :
        (left right : ℕ) → exceptions f bound + (if left == right then 0 else 1) ≡ 0 → left ≡ right
    last left right h = ground arith

-- 1 for the truth value `true`.
abbrev bit : Bool → ℕ
bit true = 1
bit false = 0

bit-injective : (a c : Bool) → bit a ≡ bit c → a ≡ c
bit-injective true true h = refl
bit-injective true false h = absurd (omega arith)
bit-injective false true h = absurd (omega arith)
bit-injective false false h = refl

abbrev high : Fact
high b = (bit (not (bit_and b 0x80 == 0)), bit (leb 128 b))

abbrev low : Fact
low b = (bit_and b 0x0f, b % 16)

abbrev halves : Fact
halves b = (bit_or (b / 16 * 16) (b % 16), b)

facts_hold : exceptions high 256 + exceptions low 256 + exceptions halves 256 ≡ 0
unfolding exceptions
facts_hold = refl

-- The high bit of a byte is set exactly from 128 on.
pub bit_and_high : (b : ℕ) → b < 256 → not (bit_and b 0x80 == 0) ≡ leb 128 b
bit_and_high b h = bit-injective _ _ (no_exception high 256 b (omega (arith, facts_hold)) h)

-- The low half of a byte.
pub bit_and_low : (b : ℕ) → b < 256 → bit_and b 0x0f ≡ b % 16
bit_and_low b h = no_exception low 256 b (omega (arith, facts_hold)) h

-- The two halves of a byte, joined.
pub bit_or_halves : (b : ℕ) → b < 256 → bit_or (b / 16 * 16) (b % 16) ≡ b
bit_or_halves b h = no_exception halves 256 b (omega (arith, facts_hold)) h
