-- ===== src/Wire/Trim.antt =====
-- `str::trim` of the standard library, on the bytes of a text.
use keyvisor.Wire.Endian.{Bytes}
use keyvisor.Prelude.{
  ℕ, ◌≡◌, refl, Bool, true, false, ◌&&◌, ◌||◌, [], ◌∷◌, reverse, leb, ◌==◌, if◌then◌else◌,
}

-- The white space of Unicode that is one byte, two bytes and three bytes long.
is_space : ℕ → Bool
is_space a = (leb 9 a && leb a 13) || a == 32

is_space_two : ℕ → ℕ → Bool
is_space_two a b = a == 0xc2 && (b == 0x85 || b == 0xa0)

is_space_three : ℕ → ℕ → ℕ → Bool
is_space_three a b c =
    (a == 0xe1 && b == 0x9a && c == 0x80)
    || (a == 0xe2
        && b == 0x80
        && ((leb 0x80 c && leb c 0x8a) || c == 0xa8 || c == 0xa9 || c == 0xaf))
    || (a == 0xe2 && b == 0x81 && c == 0x9f)
    || (a == 0xe3 && b == 0x80 && c == 0x80)

module _ (one : ℕ → Bool) (two : ℕ → ℕ → Bool) (three : ℕ → ℕ → ℕ → Bool) where
  strip_start : Bytes → Bytes
  strip_start [] = []
  strip_start (a ∷ []) = if one a then [] else a ∷ []
  strip_start (a ∷ b ∷ []) = elim (one a) [
    | true ↦ strip_start (b ∷ [])
    | false ↦ if two a b then [] else a ∷ b ∷ []
  ]
  strip_start (a ∷ b ∷ c ∷ s) = elim (one a) [
    | true ↦ strip_start (b ∷ c ∷ s)
    | false ↦ elim (two a b) [
      | true ↦ strip_start (c ∷ s)
      | false ↦ elim (three a b c) [ true ↦ strip_start s | false ↦ a ∷ b ∷ c ∷ s ]
    ]
  ]

trim_start : Bytes → Bytes
unfolding strip_start is_space is_space_two is_space_three
trim_start s = strip_start is_space is_space_two is_space_three s

-- From the end, characters are read backwards.
trim_end : Bytes → Bytes
unfolding strip_start is_space is_space_two is_space_three
trim_end s =
    reverse
      (strip_start is_space (λ b a. is_space_two a b) (λ c b a. is_space_three a b c) (reverse s))

unfoldable pub trim : Bytes → Bytes
unfolding trim_start trim_end
trim s = trim_end (trim_start s)

trimmed : trim (9 ∷ 0xe3 ∷ 0x80 ∷ 0x80 ∷ 97 ∷ 32 ∷ 98 ∷ 0xc2 ∷ 0xa0 ∷ 10 ∷ []) ≡ 97 ∷ 32 ∷ 98 ∷ []
unfolding trim
trimmed = refl
