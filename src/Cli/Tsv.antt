-- ===== src/Cli/Tsv.antt =====
-- `escape_tsv` and `decode_hex_text`: key names in the output and on the control socket.
use keyvisor.Prelude.{
  ℕ, ◌%◌, ◌≡◌, refl, ap, ◌∙◌, true, false, not, [], ◌∷◌, ◌++◌, arith, ◌==◌, if◌then◌else◌, length,
  All-append, Result, ok, ◌>>=◌, ◌>>◌, fail_if, bind-eq,
}
use keyvisor.Wire.Endian.{Bytes, AreBytes}
use keyvisor.Wire.Lines.{Lacks}
use keyvisor.Wire.Hex.{hex, unhex, unhex-hex, length-hex}
use keyvisor.Wire.Utf8.{from_utf8, IsText, from_utf8-IsText}
use keyvisor.Cli.Defs.{CliError, invalid_hexadecimal, odd_key_name, key_name_not_utf8}

-- `replace` of one character by a text.
unfoldable pub replace : ℕ → Bytes → Bytes → Bytes
replace c text [] = []
replace c text (d ∷ s) = (if d == c then text else d ∷ []) ++ replace c text s

unfoldable pub escape_tsv : Bytes → Bytes
unfolding replace
escape_tsv value = replace 10 (b'\\' ∷ b'n' ∷ []) (
    replace 13 (b'\\' ∷ b'r' ∷ [])
      (replace 9 (b'\\' ∷ b't' ∷ []) (replace b'\\' (b'\\' ∷ b'\\' ∷ []) value)))

unfoldable pub decode_hex_text : Bytes → Result CliError Bytes
decode_hex_text value = do
  fail_if (not (length value % 2 == 0)) odd_key_name
  bytes ← unhex invalid_hexadecimal value
  from_utf8 key_name_not_utf8 bytes

-- What a consumer of the output does with an escape.
reveal : ℕ → ℕ
reveal c = if c == b't' then 9 else if c == b'r' then 13 else if c == b'n' then 10 else c

unfoldable pub unescape_tsv : Bytes → Bytes
unfolding reveal
unescape_tsv [] = []
unescape_tsv (c ∷ []) = c ∷ []
unescape_tsv (c ∷ d ∷ s) = elim (c == b'\\') [
  | true ↦ reveal d ∷ unescape_tsv s
  | false ↦ c ∷ unescape_tsv (d ∷ s)
]

-- What the four replacements make of one character.
escaped : ℕ → Bytes
escaped c =
    if c == b'\\'
    then b'\\' ∷ b'\\' ∷ []
    else if c == 9
    then b'\\' ∷ b't' ∷ []
    else if c == 13
    then b'\\' ∷ b'r' ∷ []
    else if c == 10
    then b'\\' ∷ b'n' ∷ []
    else c ∷ []

escape_tsv_step : (c : ℕ) (s : Bytes) → escape_tsv (c ∷ s) ≡ escaped c ++ escape_tsv s
unfolding escape_tsv escaped
escape_tsv_step c s = ground arith

unescape_tsv-escaped : (c : ℕ) (s : Bytes) → unescape_tsv (escaped c ++ s) ≡ c ∷ unescape_tsv s
unfolding unescape_tsv escaped
unescape_tsv-escaped c [] = ground arith
unescape_tsv-escaped c (d ∷ s) = ground arith

escaped-Lacks : (c : ℕ) → Lacks 9 (escaped c) × Lacks 10 (escaped c) × Lacks 13 (escaped c)
unfolding escaped
escaped-Lacks c = ground arith

-- An escaped field holds no tab, newline or carriage return, so it cannot end its column or its
-- row; and the name can be recovered from it.
pub unescape_tsv-escape_tsv :
    (value : Bytes)
    → (unescape_tsv (escape_tsv value) ≡ value)
      × Lacks 9 (escape_tsv value)
      × Lacks 10 (escape_tsv value)
      × Lacks 13 (escape_tsv value)
unescape_tsv-escape_tsv [] = unfold unescape_tsv escape_tsv in (refl, tt, tt, tt)
unescape_tsv-escape_tsv (c ∷ s) =
    let (e, h₁, h₂, h₃) = unescape_tsv-escape_tsv s in
    let (k₁, k₂, k₃) = escaped-Lacks c in
    rw (escape_tsv_step c s) (
      unescape_tsv-escaped c (escape_tsv s) ∙ ap (λ r. c ∷ r) e,
      All-append _ (escaped c) _ k₁ h₁,
      All-append _ (escaped c) _ k₂ h₂,
      All-append _ (escaped c) _ k₃ h₃,
    )

-- The key name that the agent sends in hexadecimal is the one that the command line shows.
pub decode_hex_text-hex :
    (name : Bytes) → AreBytes name → IsText name → decode_hex_text (hex name) ≡ ok name
unfolding decode_hex_text
decode_hex_text-hex name all text =
    let even : (length (hex name) % 2 == 0) ≡ true = ground (arith, length-hex name) in
    rw even (
      bind-eq _ (unhex-hex invalid_hexadecimal name all)
        (from_utf8-IsText key_name_not_utf8 name text))
