-- ===== src/Cli/Assuan.antt =====
-- The Assuan text of the PIN dialog: `assuan_escape` and `append_assuan_data`.
use keyvisor.Prelude.{
  ℕ, ◌+◌, ◌-◌, ◌/◌, ◌≤◌, ◌<◌, ◌≡◌, ◌∙◌, ◌≢◌, inl, inr, Bool, true, false, ◌&&◌, ◌||◌, [], ◌∷◌, ◌++◌,
  append_assoc, append-nil, arith, ltb, leb, ◌==◌, if◌then◌else◌, Bool-cases, length, length-append,
  All-append, Result, ok, err, bind-eq,
}
use Prim.Native.Nat.{bit_and}
use keyvisor.Wire.Endian.{Bytes, AreBytes}
use keyvisor.Wire.Lines.{IsLine}
use keyvisor.Wire.Hex.{join_digits, hex_digit}
use keyvisor.Wire.Bits.{bit_and_low, bit_or_halves}
use keyvisor.Cli.Defs.{
  CliError, invalid_hexadecimal, invalid_escaped_data, oversized_value, max_pin_bytes,
}

abbrev pub percent : ℕ
percent = b'%'

-- `byte.is_ascii_alphanumeric() || matches!(byte, …)`
unfoldable pub is_plain : ℕ → Bool
is_plain b =
    (leb b'0' b && leb b b'9')
    || (leb b'A' b && leb b b'Z')
    || (leb b'a' b && leb b b'z')
    || b == b' '
    || b == b'.'
    || b == b','
    || b == b':'
    || b == b'-'
    || b == b'_'

-- `b"0123456789ABCDEF"[n]`, for an index below 16.
unfoldable pub upper_digit : ℕ → ℕ
upper_digit n = if ltb n 10 then b'0' + n else b'A' + (n - 10)

unfoldable pub escape_byte : ℕ → Bytes
unfolding upper_digit
escape_byte b =
    if is_plain b
    then b ∷ []
    else percent ∷ upper_digit (b / 16) ∷ upper_digit (bit_and b 0x0f) ∷ []

unfoldable pub assuan_escape : Bytes → Bytes
assuan_escape [] = []
assuan_escape (b ∷ bs) = escape_byte b ++ assuan_escape bs

-- A byte is pushed under the bound, and past it the output is cleared before the error returns.
unfoldable pub push_bounded : Bytes → ℕ → Result CliError (Unit {0}) × Bytes
push_bounded output byte =
    if leb max_pin_bytes (length output)
    then (err oversized_value, [])
    else (ok tt, output ++ byte ∷ [])

-- The rest of a loop over the state of `&mut output`.
unfoldable pub and_then :
    Result CliError (Unit {0}) × Bytes
    → (Bytes → Result CliError (Unit {0}) × Bytes)
    → Result CliError (Unit {0}) × Bytes
and_then (ok u, output) k = k output
and_then (err e, output) k = (err e, output)

unfoldable pub push_joined : Bytes → Result CliError ℕ → Result CliError (Unit {0}) × Bytes
push_joined output (ok byte) = push_bounded output byte
push_joined output (err e) = (err e, output)

-- The first component is the result, the second what `output` then holds.
unfoldable pub append_assuan_data : Bytes → Bytes → Result CliError (Unit {0}) × Bytes
unfolding push_bounded and_then push_joined
append_assuan_data [] output = (ok tt, output)
append_assuan_data (c ∷ []) output =
    if c == percent then (err invalid_escaped_data, output) else push_bounded output c
append_assuan_data (c ∷ d ∷ []) output = elim (c == percent) [
  | true ↦ (err invalid_escaped_data, output)
  | false ↦ and_then (push_bounded output c) (append_assuan_data (d ∷ []))
]
append_assuan_data (c ∷ a ∷ b ∷ s) output = elim (c == percent) [
  | true ↦
      and_then (push_joined output (join_digits invalid_hexadecimal a b)) (append_assuan_data s)
  | false ↦ and_then (push_bounded output c) (append_assuan_data (a ∷ b ∷ s))
]

upper_digit_bounds : (n : ℕ) → n < 16 → (b'0' ≤ upper_digit n) × (upper_digit n ≤ b'F')
unfolding upper_digit
upper_digit_bounds n h = ground arith

hex_digit-upper_digit : {E : Type 0} (e : E) (n : ℕ) → n < 16 → hex_digit e (upper_digit n) ≡ ok n
unfolding hex_digit upper_digit
hex_digit-upper_digit e n h = ground arith

join_digits-upper :
    (b : ℕ)
    → b < 256
    → join_digits invalid_hexadecimal (upper_digit (b / 16)) (upper_digit (bit_and b 0x0f)) ≡ ok b
unfolding join_digits
join_digits-upper b h =
    bind-eq _ (hex_digit-upper_digit invalid_hexadecimal (b / 16) (omega arith)) (
      bind-eq _
        (hex_digit-upper_digit invalid_hexadecimal (bit_and b 0x0f)
          (omega (arith, bit_and_low b h)))
        (rw (bit_and_low b h, bit_or_halves b h)))

plain_bounds : (b : ℕ) → is_plain b ≡ true → (b ≢ percent) × (32 ≤ b)
unfolding is_plain
plain_bounds b h = ground arith

escape_byte-IsLine : (b : ℕ) → b < 256 → IsLine (escape_byte b)
unfolding escape_byte
escape_byte-IsLine b h = ground (
  arith,
  plain_bounds b,
  upper_digit_bounds (b / 16),
  upper_digit_bounds (bit_and b 0x0f),
  bit_and_low b h,
)

-- A plain byte is read as it is, whatever follows.
append_plain :
    (c : ℕ) (s output : Bytes)
    → c ≢ percent
    → append_assuan_data (c ∷ s) output ≡ and_then (push_bounded output c) (append_assuan_data s)
unfolding append_assuan_data
append_plain c [] output h = ground arith
append_plain c (d ∷ []) output h = ground arith
append_plain c (d ∷ e ∷ s) output h = ground arith

append_escape_byte :
    (b : ℕ) (s output : Bytes)
    → b < 256
    → append_assuan_data (escape_byte b ++ s) output
      ≡ and_then (push_bounded output b) (append_assuan_data s)
unfolding escape_byte
append_escape_byte b s output h = elim (Bool-cases (is_plain b)) [
  | inl e ↦ rw e (append_plain b s output (plain_bounds b e).0)
  | inr e ↦ rw e (unfold append_assuan_data in rw (join_digits-upper b h))
]

pub assuan_escape-IsLine : (s : Bytes) → AreBytes s → IsLine (assuan_escape s)
unfolding assuan_escape
assuan_escape-IsLine [] all = (tt, tt)
assuan_escape-IsLine (b ∷ bs) (hb, hbs) =
    let (n, r) = escape_byte-IsLine b hb in
    let (ns, rs) = assuan_escape-IsLine bs hbs in
    (All-append _ (escape_byte b) _ n ns, All-append _ (escape_byte b) _ r rs)

and_then-push_bounded :
    (output : Bytes) (b : ℕ) (k : Bytes → Result CliError (Unit {0}) × Bytes)
    → and_then (push_bounded output b) k ≡ (
        if leb max_pin_bytes (length output)
        then (err oversized_value, [])
        else k (output ++ b ∷ []))
unfolding and_then push_bounded
and_then-push_bounded output b k = ground arith

append-assuan_escape :
    (s output : Bytes)
    → AreBytes s
    → length output ≤ max_pin_bytes
    → append_assuan_data (assuan_escape s) output ≡ (
        if leb (length output + length s) max_pin_bytes
        then (ok tt, output ++ s)
        else (err oversized_value, []))
unfolding assuan_escape
append-assuan_escape [] output all h =
    unfold append_assuan_data in rw (append-nil output) (ground arith)
append-assuan_escape (b ∷ bs) output (hb, hbs) h =
    append_escape_byte b (assuan_escape bs) output hb
    ∙ ground (
      arith,
      and_then-push_bounded output b (append_assuan_data (assuan_escape bs)),
      append-assuan_escape bs (output ++ b ∷ []) hbs,
      append_assoc output (b ∷ []) bs,
      length-append {0} output (b ∷ []),
    )

-- An escaped text is one line, so a name cannot add a command to the dialog. Its data is read back
-- as the text if it fits the bound, and otherwise is refused with the buffer cleared.
pub append_assuan_data-assuan_escape :
    (s : Bytes)
    → AreBytes s
    → IsLine (assuan_escape s)
      × (append_assuan_data (assuan_escape s) []
          ≡ (if leb (length s) max_pin_bytes then (ok tt, s) else (err oversized_value, [])))
append_assuan_data-assuan_escape s all =
    (assuan_escape-IsLine s all, ground (arith, append-assuan_escape s [] all))

push_bounded-le :
    (output : Bytes) (byte : ℕ)
    → length output ≤ max_pin_bytes
    → length (push_bounded output byte).1 ≤ max_pin_bytes
unfolding push_bounded
push_bounded-le output byte h = ground (arith, length-append {0} output (byte ∷ []))

push_joined-le :
    (output : Bytes) (r : Result CliError ℕ)
    → length output ≤ max_pin_bytes
    → length (push_joined output r).1 ≤ max_pin_bytes
unfolding push_joined
push_joined-le output (ok byte) h = push_bounded-le output byte h
push_joined-le output (err e) h = h

and_then-le :
    (r : Result CliError (Unit {0}) × Bytes) (k : Bytes → Result CliError (Unit {0}) × Bytes)
    → length r.1 ≤ max_pin_bytes
    → ((output : Bytes) → length output ≤ max_pin_bytes → length (k output).1 ≤ max_pin_bytes)
    → length (and_then r k).1 ≤ max_pin_bytes
unfolding and_then
and_then-le (ok u, output) k h step = step output h
and_then-le (err e, output) k h step = h

-- Whatever the dialog sends, the buffer for the PIN never grows past its bound.
pub append_assuan_data-le :
    (input output : Bytes)
    → length output ≤ max_pin_bytes
    → length (append_assuan_data input output).1 ≤ max_pin_bytes
unfolding append_assuan_data
append_assuan_data-le [] output h = h
append_assuan_data-le (c ∷ []) output h = ground (arith, push_bounded-le output c)
append_assuan_data-le (c ∷ d ∷ []) output h = elim (Bool-cases (c == percent)) [
  | inl e ↦ rw (e, append_assuan_data) h
  | inr e ↦
      rw (e, append_assuan_data)
        (and_then-le _ _ (push_bounded-le output c h) (append_assuan_data-le (d ∷ [])))
]
append_assuan_data-le (c ∷ a ∷ b ∷ s) output h = elim (Bool-cases (c == percent)) [
  | inl e ↦
      rw (e, append_assuan_data)
        (and_then-le _ _ (push_joined-le output (join_digits invalid_hexadecimal a b) h)
          (append_assuan_data-le s))
  | inr e ↦
      rw (e, append_assuan_data)
        (and_then-le _ _ (push_bounded-le output c h) (append_assuan_data-le (a ∷ b ∷ s)))
]
