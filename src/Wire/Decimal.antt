-- ===== src/Wire/Decimal.antt =====
-- Decimal numbers of the standard library: `to_string` and `parse` of the unsigned integers.
use keyvisor.Prelude.{
  ℕ, zero, suc, ◌+◌, ◌-◌, ◌*◌, ◌/◌, ◌%◌, ◌^◌, ◌≤◌, ◌<◌, ◌≡◌, refl, ◌∙◌, ◌≢◌, inl, inr, false, ◌||◌,
  Option, none, some, [], ◌∷◌, arith, ltb, ◌==◌, if◌then◌else◌, Bool-cases, All, length,
}
use keyvisor.Wire.Utf8
use keyvisor.Wire.Endian.{Bytes}

-- The digits of `n` before `out`. Fuel `n + 1` is enough, since `n / 10 < n` until the last digit.
digits : ℕ → ℕ → Bytes → Bytes
digits zero n out = out
digits (suc fuel) n out =
    let rest = digits fuel (n / 10) ((b'0' + n % 10) ∷ out) in
    if n / 10 == 0 then (b'0' + n % 10) ∷ out else rest

unfoldable pub to_string : ℕ → Bytes
unfolding digits
to_string n = digits (suc n) n []

module _ (maximum : ℕ) where
  -- `checked_mul` and `checked_add` against the largest value of the type.
  scan : Bytes → ℕ → Option ℕ
  scan [] n = some n
  scan (c ∷ s) n =
      let d = c - b'0' in
      let rest = scan s (n * 10 + d) in
      if ltb c b'0' || ltb b'9' c then none else if ltb maximum (n * 10 + d) then none else rest

  scan_digits : Bytes → Option ℕ
  scan_digits [] = none
  scan_digits (c ∷ s) = scan (c ∷ s) 0

  -- A leading `+` is accepted.
  unfoldable pub parse_unsigned : Bytes → Option ℕ
  unfolding scan scan_digits
  parse_unsigned [] = none
  parse_unsigned (c ∷ s) = if c == b'+' then scan_digits s else scan (c ∷ s) 0

abbrev pub u64_max : ℕ
u64_max = 2 ^ 64 - 1

-- `value.parse::<u64>()`; `usize` has the same range on the targets.
unfoldable pub parse_u64 : Bytes → Option ℕ
parse_u64 s = parse_unsigned u64_max s

abbrev pub IsDigit : ℕ → Type 0
IsDigit c = (b'0' ≤ c) × (c ≤ b'9')

scan_last :
    (maximum n : ℕ) (out : Bytes)
    → n ≤ maximum
    → scan maximum ((b'0' + n % 10) ∷ out) (n / 10) ≡ scan maximum out n
unfolding scan
scan_last maximum n out h =
    let e : n / 10 * 10 + (b'0' + n % 10 - b'0') ≡ n = omega arith in rw e (ground arith)

scan-digits :
    (maximum fuel n : ℕ) (out : Bytes)
    → n < fuel
    → n ≤ maximum
    → scan maximum (digits fuel n out) 0 ≡ scan maximum out n
unfolding digits
scan-digits maximum zero n out h fits = absurd (omega arith)
scan-digits maximum (suc fuel) n out h fits =
    ground
      (arith, scan_last maximum n out, scan-digits maximum fuel (n / 10) ((b'0' + n % 10) ∷ out))

digits-AreDigits : (fuel n : ℕ) (out : Bytes) → All IsDigit out → All IsDigit (digits fuel n out)
unfolding digits
digits-AreDigits zero n out h = h
digits-AreDigits (suc fuel) n out h =
    let here : All IsDigit ((b'0' + n % 10) ∷ out) = ((omega arith, omega arith), h) in
    elim (Bool-cases (n / 10 == 0)) [
      | inl e ↦ rw e here
      | inr e ↦ rw e (digits-AreDigits fuel (n / 10) ((b'0' + n % 10) ∷ out) here)
    ]

pub to_string-AreDigits : (n : ℕ) → All IsDigit (to_string n)
unfolding to_string
to_string-AreDigits n = digits-AreDigits (suc n) n [] tt

digits-ne-nil : (fuel n : ℕ) (out : Bytes) → out ≢ [] → digits fuel n out ≢ []
unfolding digits
digits-ne-nil zero n out h = h
digits-ne-nil (suc fuel) n out h = elim (Bool-cases (n / 10 == 0)) [
  | inl e ↦ rw e (λ p. cc)
  | inr e ↦ rw e (digits-ne-nil fuel (n / 10) ((b'0' + n % 10) ∷ out) (λ p. cc))
]

pub to_string-ne-nil : (n : ℕ) → to_string n ≢ []
unfolding to_string digits
to_string-ne-nil n = elim (Bool-cases (n / 10 == 0)) [
  | inl e ↦ rw e (λ p. cc)
  | inr e ↦ rw e (digits-ne-nil n (n / 10) ((b'0' + n % 10) ∷ []) (λ p. cc))
]

parse-AreDigits :
    (maximum : ℕ) (s : Bytes) → s ≢ [] → All IsDigit s → parse_unsigned maximum s ≡ scan maximum s 0
unfolding parse_unsigned
parse-AreDigits maximum [] h all = absurd (h refl)
parse-AreDigits maximum (c ∷ s) h (hc, hs) = let e : (c == b'+') ≡ false = ground arith in rw e

scan-to_string : (maximum n : ℕ) → n ≤ maximum → scan maximum (to_string n) 0 ≡ some n
unfolding to_string scan
scan-to_string maximum n h = scan-digits maximum (suc n) n [] (omega arith) h

-- Every number of the type is read back from its decimal print.
pub parse-to_string : (maximum n : ℕ) → n ≤ maximum → parse_unsigned maximum (to_string n) ≡ some n
parse-to_string maximum n h =
    parse-AreDigits maximum (to_string n) (to_string-ne-nil n) (to_string-AreDigits n)
    ∙ scan-to_string maximum n h

length-digits : (fuel n : ℕ) (out : Bytes) → length (digits fuel n out) ≤ fuel + length out
unfolding digits
length-digits zero n out = omega arith
length-digits (suc fuel) n out = ground (arith, length-digits fuel (n / 10) ((b'0' + n % 10) ∷ out))

pub length-to_string : (n : ℕ) → length (to_string n) ≤ suc n
unfolding to_string
length-to_string n = omega (arith, length-digits (suc n) n [])

overflow : parse_u64 (Utf8.codes "18446744073709551616") ≡ none
unfolding parse_u64 parse_unsigned
overflow = refl

to_string-timeout : to_string 120 ≡ Utf8.codes "120"
unfolding to_string
to_string-timeout = refl
