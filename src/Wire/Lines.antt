-- ===== src/Wire/Lines.antt =====
-- `str::lines` and `str::split_once` of the standard library, on the bytes of a text.
use keyvisor.Prelude.{
  ℕ, ◌≡◌, refl, ap, ◌∙◌, ◌≢◌, true, false, Option, none, some, List, [], ◌∷◌, ◌++◌, append_assoc,
  append-nil, arith, ◌==◌, if◌then◌else◌, is_empty, All, Bool, ◌&&◌,
}
use keyvisor.Wire.Endian.{Bytes}

abbrev pub newline : ℕ
newline = 10

abbrev pub carriage_return : ℕ
carriage_return = 13

-- One carriage return at the end of a line that a newline ends is not part of it.
strip_return : Bytes → Bytes
strip_return [] = []
strip_return (c ∷ []) = if c == carriage_return then [] else c ∷ []
strip_return (c ∷ d ∷ s) = c ∷ strip_return (d ∷ s)

-- `line` is what has been read of the current line; text after the last newline is a line if it
-- is not empty.
lines_from : Bytes → Bytes → List Bytes
lines_from line [] = if is_empty line then [] else line ∷ []
lines_from line (c ∷ s) = elim (c == newline) [
  | true ↦ strip_return line ∷ lines_from [] s
  | false ↦ lines_from (line ++ c ∷ []) s
]

unfoldable pub lines : Bytes → List Bytes
unfolding lines_from strip_return
lines s = lines_from [] s

-- The parts before and after the first `c`.
unfoldable pub split_once : ℕ → Bytes → Option (Bytes × Bytes)
split_once c [] = none
split_once c (d ∷ s) =
    if d == c
    then some ([], s)
    else elim (split_once c s) [ none ↦ none | some p ↦ some (d ∷ p.0, p.1) ]

abbrev pub Lacks : ℕ → Bytes → Type 0
Lacks c = All (λ d. d ≢ c)

abbrev pub IsLine : Bytes → Type 0
IsLine s = Lacks newline s × Lacks carriage_return s

lines_from-append :
    (s line rest : Bytes)
    → Lacks newline s
    → lines_from line (s ++ newline ∷ rest) ≡ strip_return (line ++ s) ∷ lines_from [] rest
unfolding lines_from
lines_from-append [] line rest h = rw (append-nil line)
lines_from-append (c ∷ s) line rest (hc, hs) =
    let e : (c == newline) ≡ false = ground arith in
    rw (e, lines_from)
      (lines_from-append s (line ++ c ∷ []) rest hs ∙ rw (append_assoc line (c ∷ []) s))

strip_return-Lacks : (s : Bytes) → Lacks carriage_return s → strip_return s ≡ s
unfolding strip_return
strip_return-Lacks [] h = refl
strip_return-Lacks (c ∷ []) (hc, _) = ground arith
strip_return-Lacks (c ∷ d ∷ s) (hc, hs) = ap (λ r. c ∷ r) (strip_return-Lacks (d ∷ s) hs)

-- A line and its newline are taken off as that line.
pub lines-append : (s rest : Bytes) → IsLine s → lines (s ++ newline ∷ rest) ≡ s ∷ lines rest
unfolding lines
lines-append s rest (hn, hr) =
    lines_from-append s [] rest hn ∙ ap (λ l. l ∷ lines_from [] rest) (strip_return-Lacks s hr)

pub split_once-append :
    (c : ℕ) (s rest : Bytes) → Lacks c s → split_once c (s ++ c ∷ rest) ≡ some (s, rest)
unfolding split_once
split_once-append c [] rest h = ground arith
split_once-append c (d ∷ s) rest (hd, hs) = ground (arith, split_once-append c s rest hs)

-- `line.starts_with(prefix)`
unfoldable pub starts_with : Bytes → Bytes → Bool
starts_with [] line = true
starts_with (c ∷ cs) [] = false
starts_with (c ∷ cs) (b ∷ bs) = c == b && starts_with cs bs

windows : lines (97 ∷ 13 ∷ 10 ∷ 98 ∷ 13 ∷ []) ≡ (97 ∷ []) ∷ (98 ∷ 13 ∷ []) ∷ []
unfolding lines
windows = refl
