-- ===== src/Wire/Words.antt =====
-- `str::split_ascii_whitespace` of the standard library.
use keyvisor.Wire.Endian.{Bytes}
use keyvisor.Prelude.{
  ℕ, ◌≡◌, refl, sym, ap, ◌∙◌, ◌≢◌, Bool, true, false, ◌||◌, List, [], ◌∷◌, ◌++◌, append_assoc,
  append-nil, ◌==◌, All,
}

-- Space, tab, newline, form feed and carriage return.
unfoldable pub is_ascii_whitespace : ℕ → Bool
is_ascii_whitespace c = c == 32 || c == 9 || c == 10 || c == 12 || c == 13

push_word : Bytes → List Bytes → List Bytes
push_word [] words = words
push_word (c ∷ word) words = (c ∷ word) ∷ words

-- `word` is what has been read of the current word.
words_from : Bytes → Bytes → List Bytes
unfolding push_word
words_from word [] = push_word word []
words_from word (c ∷ s) = elim (is_ascii_whitespace c) [
  | true ↦ push_word word (words_from [] s)
  | false ↦ words_from (word ++ c ∷ []) s
]

unfoldable pub split_ascii_whitespace : Bytes → List Bytes
unfolding words_from
split_ascii_whitespace s = words_from [] s

-- A word: not empty, and without white space.
abbrev pub IsWord : Bytes → Type 0
IsWord word = (word ≢ []) × All (λ c. is_ascii_whitespace c ≡ false) word

words_from-append :
    (s word rest : Bytes)
    → All (λ c. is_ascii_whitespace c ≡ false) s
    → words_from word (s ++ rest) ≡ words_from (word ++ s) rest
unfolding words_from
words_from-append [] word rest h = rw (append-nil word)
words_from-append (c ∷ s) word rest (hc, hs) =
    rw (hc, words_from)
      (words_from-append s (word ++ c ∷ []) rest hs ∙ rw (append_assoc word (c ∷ []) s))

push_word-ne-nil :
    (word : Bytes) (words : List Bytes) → word ≢ [] → push_word word words ≡ word ∷ words
unfolding push_word
push_word-ne-nil [] words h = absurd (h refl)
push_word-ne-nil (c ∷ word) words h = refl

pub words-append :
    (word rest : Bytes) (c : ℕ)
    → IsWord word
    → is_ascii_whitespace c ≡ true
    → split_ascii_whitespace (word ++ c ∷ rest) ≡ word ∷ split_ascii_whitespace rest
unfolding split_ascii_whitespace words_from
words-append word rest c (ne, h) hc =
    words_from-append word [] (c ∷ rest) h
    ∙ rw (words_from, hc) (push_word-ne-nil word (words_from [] rest) ne)

pub words-last : (word : Bytes) → IsWord word → split_ascii_whitespace word ≡ word ∷ []
unfolding split_ascii_whitespace words_from
words-last word (ne, h) =
    ap (words_from []) (sym (append-nil word))
    ∙ words_from-append word [] [] h
    ∙ push_word-ne-nil word [] ne
