-- ===== src/Wire/Reader.antt =====
-- `BufRead::read_until` on a reader whose remaining bytes are known; the end of the list is the end
-- of the stream.
use keyvisor.Prelude.{
  ℕ, zero, suc, ◌+◌, ◌<◌, ◌≡◌, refl, ap, ◌≢◌, Bool, true, false, [], ◌∷◌, ◌++◌, arith, ◌==◌,
  if◌then◌else◌, length, All,
}
use keyvisor.Wire.Endian.{Bytes}

-- `reader.take(limit).read_until(delimiter)`: the bytes up to the first delimiter, with it, at
-- most `limit` of them; and the bytes that are left.
unfoldable pub read_until : ℕ → ℕ → Bytes → Bytes × Bytes
read_until zero delimiter input = ([], input)
read_until (suc limit) delimiter [] = ([], [])
read_until (suc limit) delimiter (b ∷ bs) = elim (b == delimiter) [
  | true ↦ (b ∷ [], bs)
  | false ↦ let p = read_until limit delimiter bs in (b ∷ p.0, p.1)
]

-- `line.last() == Some(&c)`
unfoldable pub ends_with : ℕ → Bytes → Bool
ends_with c [] = false
ends_with c (b ∷ []) = b == c
ends_with c (b ∷ d ∷ s) = ends_with c (d ∷ s)

-- `pop()` if the last byte is `c`.
unfoldable pub pop_if : ℕ → Bytes → Bytes
pop_if c [] = []
pop_if c (b ∷ []) = if b == c then [] else b ∷ []
pop_if c (b ∷ d ∷ s) = b ∷ pop_if c (d ∷ s)

pub read_until-append :
    (limit delimiter : ℕ) (line rest : Bytes)
    → All (λ b. b ≢ delimiter) line
    → length line < limit
    → read_until limit delimiter (line ++ delimiter ∷ rest) ≡ (line ++ delimiter ∷ [], rest)
unfolding read_until
read_until-append zero delimiter line rest h fits = absurd (omega arith)
read_until-append (suc limit) delimiter [] rest h fits = ground arith
read_until-append (suc limit) delimiter (b ∷ bs) rest (hb, hbs) fits =
    ground (arith, read_until-append limit delimiter bs rest hbs)

-- Nothing is lost.
pub read_until-append_rest :
    (limit delimiter : ℕ) (input : Bytes)
    → length (read_until limit delimiter input).0 + length (read_until limit delimiter input).1
      ≡ length input
unfolding read_until
read_until-append_rest zero delimiter input = omega arith
read_until-append_rest (suc limit) delimiter [] = omega arith
read_until-append_rest (suc limit) delimiter (b ∷ bs) =
    ground (arith, read_until-append_rest limit delimiter bs)

pub ends_with-ne-nil : (c : ℕ) (line : Bytes) → ends_with c line ≡ true → 0 < length line
unfolding ends_with
ends_with-ne-nil c [] h = cc
ends_with-ne-nil c (b ∷ bs) h = omega arith

pub pop_if-append : (c : ℕ) (line : Bytes) → pop_if c (line ++ c ∷ []) ≡ line
unfolding pop_if
pop_if-append c [] = ground arith
pop_if-append c (b ∷ []) = ap (λ r. b ∷ r) (pop_if-append c [])
pop_if-append c (b ∷ d ∷ s) = ap (λ r. b ∷ r) (pop_if-append c (d ∷ s))

pub pop_if-Lacks : (c : ℕ) (line : Bytes) → All (λ b. b ≢ c) line → pop_if c line ≡ line
unfolding pop_if
pop_if-Lacks c [] h = refl
pop_if-Lacks c (b ∷ []) (hb, _) = ground arith
pop_if-Lacks c (b ∷ d ∷ s) (hb, hs) = ap (λ r. b ∷ r) (pop_if-Lacks c (d ∷ s) hs)

pub ends_with-append : (c : ℕ) (line : Bytes) → ends_with c (line ++ c ∷ []) ≡ true
unfolding ends_with
ends_with-append c [] = ground arith
ends_with-append c (b ∷ []) = ends_with-append c []
ends_with-append c (b ∷ d ∷ s) = ends_with-append c (d ∷ s)
