-- ===== src/Wire/Utf8.antt =====
-- `String::from_utf8`: the well-formed byte sequences of the Unicode standard, read by an
-- automaton. A `String` of the source is modelled by its bytes.
use Prim.Native.Char.{code}
use keyvisor.Prelude.{
  ℕ, ◌<◌, ◌≡◌, refl, String, Bool, true, false, ◌&&◌, [], ◌∷◌, ◌++◌, arith, ltb, leb, ◌==◌,
  if◌then◌else◌, Result, ok, err, All,
}
use keyvisor.Wire.Endian.{Bytes}

-- What may follow: a new character, so many continuation bytes, or a restricted second byte.
data State : Type 0 where
  start one two three after_e0 after_ed after_f0 after_f4 reject : State

in_range : ℕ → ℕ → ℕ → Bool
in_range lo hi b = leb lo b && leb b hi

first : ℕ → State
unfolding in_range
first b =
    if ltb b 0x80
    then start
    else if in_range 0xc2 0xdf b
    then one
    else if b == 0xe0
    then after_e0
    else if b == 0xed
    then after_ed
    else if in_range 0xe1 0xef b
    then two
    else if b == 0xf0
    then after_f0
    else if in_range 0xf1 0xf3 b
    then three
    else if b == 0xf4
    then after_f4
    else reject

step : State → ℕ → State
unfolding first
step start b = first b
step one b = if in_range 0x80 0xbf b then start else reject
step two b = if in_range 0x80 0xbf b then one else reject
step three b = if in_range 0x80 0xbf b then two else reject
step after_e0 b = if in_range 0xa0 0xbf b then one else reject
step after_ed b = if in_range 0x80 0x9f b then one else reject
step after_f0 b = if in_range 0x90 0xbf b then two else reject
step after_f4 b = if in_range 0x80 0x8f b then two else reject
step reject b = reject

is_start : State → Bool
is_start start = true
is_start _ = false

run : State → Bytes → State
run q [] = q
run q (b ∷ bs) = run (step q b) bs

pub is_utf8 : Bytes → Bool
unfolding run step is_start
is_utf8 bs = is_start (run start bs)

abbrev pub IsText : Bytes → Type 0
IsText bs = is_utf8 bs ≡ true

unfoldable pub from_utf8 : {E : Type 0} → E → Bytes → Result E Bytes
from_utf8 e bs = if is_utf8 bs then ok bs else err e

pub from_utf8-IsText : {E : Type 0} (e : E) (bs : Bytes) → IsText bs → from_utf8 e bs ≡ ok bs
unfolding from_utf8
from_utf8-IsText e bs h = rw h

pub from_utf8-eq-ok :
    {E : Type 0} (e : E) (bs : Bytes) {text : Bytes}
    → from_utf8 e bs ≡ ok text
    → IsText bs × (text ≡ bs)
unfolding from_utf8
from_utf8-eq-ok e bs h = ground arith

run-ascii : (bs : Bytes) → All (λ b. b < 128) bs → run start bs ≡ start
unfolding run step
run-ascii [] h = refl
run-ascii (b ∷ bs) (hb, hbs) =
    let here : first b ≡ start = unfold first in ground arith in rw here (run-ascii bs hbs)

run-append : (q : State) (xs ys : Bytes) → run q (xs ++ ys) ≡ run (run q xs) ys
unfolding run
run-append q [] ys = refl
run-append q (x ∷ xs) ys = run-append (step q x) xs ys

is_start-eq-true : (q : State) → is_start q ≡ true → q ≡ start
unfolding is_start
is_start-eq-true start h = refl
is_start-eq-true _ h = ground arith

-- ASCII is text.
pub ascii-IsText : (bs : Bytes) → All (λ b. b < 128) bs → IsText bs
unfolding is_utf8
ascii-IsText bs h = rw (run-ascii bs h)

pub append-IsText : (xs ys : Bytes) → IsText xs → IsText ys → IsText (xs ++ ys)
unfolding is_utf8
append-IsText xs ys hx hy = rw (run-append start xs ys, is_start-eq-true (run start xs) hx) hy

-- The bytes of an ASCII literal.
abbrev pub codes : String → Bytes
codes String.[] = []
codes (String.◌∷◌ c s) = code c ∷ codes s

japanese : is_utf8 (0xe9 ∷ 0x8d ∷ 0xb5 ∷ []) ≡ true
unfolding is_utf8
japanese = refl

surrogate : is_utf8 (0xed ∷ 0xa0 ∷ 0x80 ∷ []) ≡ false
unfolding is_utf8
surrogate = refl
