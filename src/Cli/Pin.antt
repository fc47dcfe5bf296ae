-- ===== src/Cli/Pin.antt =====
-- Reading a PIN: `validate_pin`, `read_pin_line`, `read_bounded_line` and `read_pinentry_response`.
use keyvisor.Prelude.{
  ℕ, zero, suc, ◌+◌, ◌≤◌, ◌<◌, ◌≡◌, refl, not, ◌&&◌, ◌||◌, Option, none, some, [], ◌∷◌, ◌++◌, arith,
  ltb, leb, if◌then◌else◌, length, drop, length-append, All-append, bytes_eq, Result, ok, err,
}
use keyvisor.Wire.Endian.{Bytes}
use keyvisor.Wire.Utf8.{codes}
use keyvisor.Wire.Lines.{newline, carriage_return, IsLine, starts_with}
use keyvisor.Wire.Reader.{
  read_until, ends_with, pop_if, read_until-append_rest, ends_with-ne-nil, read_until-append,
  pop_if-append, pop_if-Lacks,
}
use keyvisor.Cli.Defs.{
  CliError, pin_length, response_too_large, invalid_response, entry_cancelled, max_pin_bytes,
  max_pinentry_line_bytes,
}
use keyvisor.Cli.Assuan.{append_assuan_data, append_assuan_data-le}

unfoldable pub validate_pin : Bytes → Result CliError Bytes
validate_pin pin =
    if leb 6 (length pin) && leb (length pin) max_pin_bytes then ok pin else err pin_length

-- The result and the bytes that the reader still has.
unfoldable pub read_pin_line : Bytes → Result CliError Bytes × Bytes
read_pin_line input =
    let (line, rest) = read_until (max_pin_bytes + 2) newline input in
    (validate_pin (pop_if carriage_return (pop_if newline line)), rest)

unfoldable pub read_bounded_line : ℕ → Bytes → Result CliError (Bytes × Bytes)
read_bounded_line maximum input =
    let (line, rest) = read_until (maximum + 1) newline input in
    if not (ends_with newline line) || ltb maximum (length line)
    then err response_too_large
    else ok (pop_if carriage_return (pop_if newline line), rest)

-- What one line of the dialog means.
pub data Line : Type 0 where
  value : Bytes → Line
  skip done cancelled bad : Line

unfoldable pub classify : Bytes → Line
unfolding starts_with
classify line =
    if starts_with (codes "D ") line
    then value (drop 2 line)
    else if bytes_eq line (codes "D") || starts_with (codes "S ") line
    then skip
    else if bytes_eq line (codes "OK") || starts_with (codes "OK ") line
    then done
    else if bytes_eq line (codes "ERR") || starts_with (codes "ERR ") line
    then cancelled
    else bad

-- One round of the `loop` after its line. An error drops `collected`, which clears it.
unfoldable pub response_line :
    (Bytes → Bytes → Option (Result CliError (Bytes × Bytes)))
    → Line
    → Bytes
    → Bytes
    → Option (Result CliError (Bytes × Bytes))
response_line continue (value text) collected rest = elim (append_assuan_data text collected).0 [
  | ok u ↦ continue (append_assuan_data text collected).1 rest
  | err e ↦ some (err e)
]
response_line continue skip collected rest = continue collected rest
response_line continue done collected rest = some (ok (collected, rest))
response_line continue cancelled collected rest = some (err entry_cancelled)
response_line continue bad collected rest = some (err invalid_response)

-- The `loop`, on fuel; `none` is the lack of fuel.
unfoldable pub response_loop : ℕ → Bytes → Bytes → Option (Result CliError (Bytes × Bytes))
response_loop zero collected input = none
response_loop (suc fuel) collected input = elim (read_bounded_line max_pinentry_line_bytes input) [
  | ok p ↦ response_line (response_loop fuel) (classify p.0) collected p.1
  | err e ↦ some (err e)
]

-- Each round reads at least a newline, so the length of the input is enough fuel.
unfoldable pub read_pinentry_response : Bytes → Option (Result CliError (Bytes × Bytes))
unfolding response_loop response_line classify
read_pinentry_response input = response_loop (suc (length input)) [] input

read_bounded_line-lt :
    (maximum : ℕ) (input : Bytes) {line rest : Bytes}
    → read_bounded_line maximum input ≡ ok (line, rest)
    → length rest < length input
unfolding read_bounded_line
read_bounded_line-lt maximum input h = ground (
  arith,
  read_until-append_rest (maximum + 1) newline input,
  ends_with-ne-nil newline (read_until (maximum + 1) newline input).0,
)

abbrev pub Bounded : Result CliError (Bytes × Bytes) → Type 0
Bounded (ok p) = length p.0 ≤ max_pin_bytes
Bounded (err e) = Unit

abbrev Answers : Option (Result CliError (Bytes × Bytes)) → Type 0
Answers none = ⊥
Answers (some r) = Bounded r

response_line-Answers :
    (continue : Bytes → Bytes → Option (Result CliError (Bytes × Bytes))) (line : Line)
    (collected rest : Bytes)
    → length collected ≤ max_pin_bytes
    → ((collected' : Bytes)
        → length collected' ≤ max_pin_bytes
        → Answers (continue collected' rest))
    → Answers (response_line continue line collected rest)
unfolding response_line
response_line-Answers continue (value text) collected rest h step =
    Answers-elim _ (append_assuan_data text collected).0
      (step (append_assuan_data text collected).1 (append_assuan_data-le text collected h))
  where
    Answers-elim :
        (o : Option (Result CliError (Bytes × Bytes))) (r : Result CliError (Unit {0}))
        → Answers o
        → Answers (elim r [ ok u ↦ o | err e ↦ some (err e) ])
    Answers-elim o (ok u) a = a
    Answers-elim o (err e) a = tt
response_line-Answers continue skip collected rest h step = step collected h
response_line-Answers continue done collected rest h step = h
response_line-Answers continue cancelled collected rest h step = tt
response_line-Answers continue bad collected rest h step = tt

module _ (loop : Bytes → Bytes → Option (Result CliError (Bytes × Bytes))) (fuel : ℕ)
    (step : (collected input : Bytes)
      → length collected ≤ max_pin_bytes
      → length input < fuel
      → Answers (loop collected input)) where
  round-Answers :
      (r : Result CliError (Bytes × Bytes)) (collected input : Bytes)
      → read_bounded_line max_pinentry_line_bytes input ≡ r
      → length collected ≤ max_pin_bytes
      → length input ≤ fuel
      → Answers
          (elim r [ ok p ↦ response_line loop (classify p.0) collected p.1 | err e ↦ some (err e) ])
  round-Answers (err e) collected input same h fits = tt
  round-Answers (ok p) collected input same h fits =
      let shorter = read_bounded_line-lt max_pinentry_line_bytes input same in
      response_line-Answers loop (classify p.0) collected p.1 h
        (λ collected' h'. step collected' p.1 h' (omega arith))

response_loop-Answers :
    (fuel : ℕ) (collected input : Bytes)
    → length collected ≤ max_pin_bytes
    → length input < fuel
    → Answers (response_loop fuel collected input)
unfolding response_loop
response_loop-Answers zero collected input h fits = absurd (omega arith)
response_loop-Answers (suc fuel) collected input h fits =
    round-Answers (response_loop fuel) fuel (response_loop-Answers fuel) _ collected input refl h
      (omega arith)

Answers-some :
    (o : Option (Result CliError (Bytes × Bytes)))
    → Answers o
    → (r : Result CliError (Bytes × Bytes)) × (o ≡ some r) × Bounded r
Answers-some none a = absurd a
Answers-some (some r) a = (r, refl, a)

-- The dialog's answer is read to an end, whatever bytes it sends, and a PIN that is returned is at
-- most as long as the bound.
pub read_pinentry_response_total :
    (input : Bytes)
    → (r : Result CliError (Bytes × Bytes)) × (read_pinentry_response input ≡ some r) × Bounded r
unfolding read_pinentry_response
read_pinentry_response_total input =
    Answers-some _ (response_loop-Answers (suc (length input)) [] input (omega arith) (omega arith))

-- A PIN of 6 to 64 bytes on a line of its own is read as it is, also before a carriage return, and
-- the reader stands at the next line.
pub read_pin_line_lem :
    (secret rest : Bytes)
    → IsLine secret
    → 6 ≤ length secret
    → length secret ≤ max_pin_bytes
    → (read_pin_line (secret ++ newline ∷ rest) ≡ (ok secret, rest))
      × (read_pin_line ((secret ++ carriage_return ∷ []) ++ newline ∷ rest) ≡ (ok secret, rest))
unfolding read_pin_line validate_pin
read_pin_line_lem secret rest (hn, hr) short fits = (
  rw
      (
        read_until-append (max_pin_bytes + 2) newline secret rest hn (omega arith),
        pop_if-append,
        pop_if-Lacks carriage_return secret hr,
      )
      (ground arith),
  rw
      (
        read_until-append (max_pin_bytes + 2) newline (secret ++ carriage_return ∷ []) rest
            (All-append _ secret _ hn (omega arith))
            (omega (arith, length-append {0} secret (carriage_return ∷ []))),
        pop_if-append,
        pop_if-append,
      )
      (ground arith),
)

-- A PIN that is read is within the bounds.
pub read_pin_line-bounds :
    (input : Bytes) (secret : Bytes)
    → (read_pin_line input).0 ≡ ok secret
    → (6 ≤ length secret) × (length secret ≤ max_pin_bytes)
unfolding read_pin_line validate_pin
read_pin_line-bounds input secret h = ground arith
