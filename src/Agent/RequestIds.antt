-- ===== src/Agent/RequestIds.antt =====
-- The identifiers of the requests for a PIN: the counter `NEXT_REQUEST_ID`, and its text.
use native.Mathlib.Nat.{pow-suc}
use keyvisor.Wire.Utf8.{IsText, ascii-IsText}
use keyvisor.Wire.Lines.{newline, Lacks}
use keyvisor.Wire.Words.{is_ascii_whitespace, IsWord}
use keyvisor.Wire.Endian.{Bytes}
use keyvisor.Wire.Hex.{lower_digit, IsHexDigit, lower_digit-IsHexDigit}
use keyvisor.Prelude.{
  ℕ, zero, suc, ◌+◌, ◌/◌, ◌%◌, ◌^◌, ◌≤◌, ◌<◌, ◌≡◌, refl, sym, ap, ◌∙◌, ◌≢◌, ◌↔◌, ◌⊎◌, inl, inr,
  Bool, true, false, [], ◌∷◌, ◌++◌, arith, ◌==◌, if◌then◌else◌, Bool-cases, length, length-append,
  All, All-append, All-map,
}

-- `{:0k x}` of a number below 16^k.
unfoldable pub fixed_hex : ℕ → ℕ → Bytes
unfolding lower_digit
fixed_hex zero n = []
fixed_hex (suc k) n = fixed_hex k (n / 16) ++ lower_digit (n % 16) ∷ []

-- `{:x}`: no leading zeros. Fuel above the number is enough, since each round divides it.
unfoldable pub short_hex_from : ℕ → ℕ → Bytes
unfolding lower_digit
short_hex_from zero n = []
short_hex_from (suc fuel) n =
    let rest = short_hex_from fuel (n / 16) in
    (if n / 16 == 0 then [] else rest) ++ lower_digit (n % 16) ∷ []

unfoldable pub short_hex : ℕ → Bytes
unfolding short_hex_from
short_hex n = short_hex_from (suc n) n

-- `format!("{:x}-{sequence:016x}", process::id())`
unfoldable pub request_id : ℕ → ℕ → Bytes
unfolding fixed_hex short_hex
request_id process sequence = short_hex process ++ b'-' ∷ fixed_hex 16 sequence

-- `NEXT_REQUEST_ID.fetch_add(1)`: the value, and the counter after it, which wraps.
unfoldable pub fetch_add : ℕ → ℕ × ℕ
fetch_add counter = (counter, (counter + 1) % 2 ^ 64)

lower_digit_injective : (a b : ℕ) → a < 16 → b < 16 → lower_digit a ≡ lower_digit b → a ≡ b
unfolding lower_digit
lower_digit_injective a b ha hb h = ground arith

length-fixed_hex : (k n : ℕ) → length (fixed_hex k n) ≡ k
unfolding fixed_hex
length-fixed_hex zero n = refl
length-fixed_hex (suc k) n = omega (
  arith,
  length-append (fixed_hex k (n / 16)) (lower_digit (n % 16) ∷ []),
  length-fixed_hex k (n / 16),
)

cons-injective : {a b : ℕ} {s t : Bytes} → ◌≡◌ {A = Bytes} (a ∷ s) (b ∷ t) → (a ≡ b) × (s ≡ t)
cons-injective h = (cc, cc)

snoc-injective :
    (a b : Bytes) {x y : ℕ} → length a ≡ length b → a ++ x ∷ [] ≡ b ++ y ∷ [] → (a ≡ b) × (x ≡ y)
snoc-injective [] [] l h = (refl, cc)
snoc-injective [] (b ∷ bs) l h = absurd (omega arith)
snoc-injective (a ∷ as') [] l h = absurd (omega arith)
snoc-injective (a ∷ as') (b ∷ bs) l h =
    let (first, rest) = cons-injective h in
    let (same, last) = snoc-injective as' bs (omega arith) rest in (rw (first, same) refl, last)

fixed_hex-injective : (k n m : ℕ) → n < 16 ^ k → m < 16 ^ k → fixed_hex k n ≡ fixed_hex k m → n ≡ m
unfolding fixed_hex
fixed_hex-injective zero n m hn hm h = omega arith
fixed_hex-injective (suc k) n m hn hm h =
    let (high, low) =
      snoc-injective (fixed_hex k (n / 16)) (fixed_hex k (m / 16))
        (length-fixed_hex k (n / 16) ∙ sym (length-fixed_hex k (m / 16))) h in
    let e = fixed_hex-injective k (n / 16) (m / 16) (omega arith) (omega arith) high in
    let d = lower_digit_injective (n % 16) (m % 16) (omega arith) (omega arith) low in omega arith

append-cancel : (a b c : Bytes) → a ++ b ≡ a ++ c → b ≡ c
append-cancel [] b c h = h
append-cancel (x ∷ a) b c h = append-cancel a b c (cons-injective h).1

request_id-injective :
    (process n m : ℕ)
    → n < 2 ^ 64
    → m < 2 ^ 64
    → request_id process n ≡ request_id process m
    → n ≡ m
unfolding request_id
request_id-injective process n m hn hm h =
    fixed_hex-injective 16 n m hn hm (cons-injective (append-cancel (short_hex process) _ _ h)).1

-- A character of an identifier.
abbrev IsIdCharacter : ℕ → Type 0
IsIdCharacter c = IsHexDigit c ⊎ (c ≡ b'-')

fixed_hex-characters : (k n : ℕ) → All IsIdCharacter (fixed_hex k n)
unfolding fixed_hex
fixed_hex-characters zero n = tt
fixed_hex-characters (suc k) n =
    All-append _ (fixed_hex k (n / 16)) _ (fixed_hex-characters k (n / 16))
      (inl (lower_digit-IsHexDigit (n % 16) (omega arith)), tt)

All-if :
    (b : Bool) (s t : Bytes)
    → All IsIdCharacter s
    → All IsIdCharacter t
    → All IsIdCharacter (if b then s else t)
All-if true s t hs ht = hs
All-if false s t hs ht = ht

short_hex_from-characters : (fuel n : ℕ) → All IsIdCharacter (short_hex_from fuel n)
unfolding short_hex_from
short_hex_from-characters zero n = tt
short_hex_from-characters (suc fuel) n =
    All-append _ (if n / 16 == 0 then [] else short_hex_from fuel (n / 16)) _
      (All-if (n / 16 == 0) [] (short_hex_from fuel (n / 16)) tt
        (short_hex_from-characters fuel (n / 16)))
      (inl (lower_digit-IsHexDigit (n % 16) (omega arith)), tt)

-- A number below 16^(k + 1) has at most k + 1 digits.
short_hex_from-le : (fuel k n : ℕ) → n < 16 ^ suc k → length (short_hex_from fuel n) ≤ suc k
unfolding short_hex_from
short_hex_from-le zero k n h = omega arith
short_hex_from-le (suc fuel) zero n h =
    let e : (n / 16 == 0) ≡ true = ground arith in rw e (omega arith)
short_hex_from-le (suc fuel) (suc k) n h = elim (Bool-cases (n / 16 == 0)) [
  | inl e ↦ rw e (omega arith)
  | inr e ↦ rw e (
      omega (
        arith,
        length-append (short_hex_from fuel (n / 16)) (lower_digit (n % 16) ∷ []),
        short_hex_from-le fuel k (n / 16) (omega (arith, pow-suc 16 (suc k))),
      ))
]

append-ne-nil : (a b : Bytes) (x : ℕ) → a ++ x ∷ b ≢ []
append-ne-nil [] b x h = cc
append-ne-nil (y ∷ a) b x h = cc

character_plain : (c : ℕ) → IsIdCharacter c → is_ascii_whitespace c ≡ false
unfolding is_ascii_whitespace
character_plain c h = ground arith

character_low : (c : ℕ) → IsIdCharacter c → (c < 128) × (c ≢ newline) × (c ≢ 9)
character_low c h = ground arith

request_id-IsWord :
    (process sequence : ℕ)
    → process < 2 ^ 32
    → IsWord (request_id process sequence)
      × IsText (request_id process sequence)
      × Lacks newline (request_id process sequence)
      × Lacks 9 (request_id process sequence)
      × (length (request_id process sequence) ≤ 25)
unfolding request_id
request_id-IsWord process sequence h =
    let all : All IsIdCharacter (request_id process sequence) =
      All-append _ (short_hex process) _
        (unfold short_hex in short_hex_from-characters (suc process) process)
        (inr refl, fixed_hex-characters 16 sequence) in
    let short : length (short_hex process) ≤ 8 =
      unfold short_hex in short_hex_from-le (suc process) 7 process (omega arith) in
    (
      (append-ne-nil (short_hex process) _ b'-', All-map (λ c p. character_plain c p) _ all),
      ascii-IsText _ (All-map (λ c p. (character_low c p).0) _ all),
      All-map (λ c p. (character_low c p).1) _ all,
      All-map (λ c p. (character_low c p).2) _ all,
      omega (
        arith,
        length-append (short_hex process) (b'-' ∷ fixed_hex 16 sequence),
        length-fixed_hex 16 sequence,
        short,
      ),
    )

-- Two requests of one agent, with sequence numbers of 64 bits and a process number of 32, have the
-- same identifier only if they have the same sequence number, and an identifier is a word of text
-- without tab and newline, of at most 25 bytes.
pub request_id_lem :
    (process n m : ℕ)
    → process < 2 ^ 32
    → n < 2 ^ 64
    → m < 2 ^ 64
    → ((request_id process n ≡ request_id process m) ↔ (n ≡ m))
      × IsWord (request_id process n)
      × IsText (request_id process n)
      × Lacks newline (request_id process n)
      × Lacks 9 (request_id process n)
      × (length (request_id process n) ≤ 25)
request_id_lem process n m hp hn hm =
    let (word, text, lacks_newline, lacks_tab, short) = request_id-IsWord process n hp in
    (
      (request_id-injective process n m hn hm, ap (request_id process)),
      word,
      text,
      lacks_newline,
      lacks_tab,
      short,
    )
