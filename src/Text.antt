-- ===== src/Text.antt =====
-- What the crate uses of Rust's `String`, `str` and `CString`. A `str` is its list of bytes or, once
-- decoded, of code points.
use coreshift_lowlevel.Prelude.{
  ℕ, zero, suc, ◌+◌, ◌-◌, ◌*◌, List, [], ◌∷◌, Bool, false, Option, none, some, ◌&&◌, ◌||◌, leb, ltb,
  ◌==◌, if◌then◌else◌, length, drop, ℤ, pos, neg,
}

-- Is there a NUL byte inside?
unfoldable pub contains_nul : List ℕ → Bool
contains_nul [] = false
contains_nul (b ∷ bs) = b == 0 || contains_nul bs

-- `CString::new`: the bytes without the NUL that ends them, or an error where one stands inside.
unfoldable pub c_string : List ℕ → Option (List ℕ)
unfolding contains_nul
c_string bs = if contains_nul bs then none else some bs

abbrev pub replacement : ℕ
replacement = 0xfffd

abbrev pub between : ℕ → ℕ → ℕ → Bool
between lo hi b = leb lo b && leb b hi

-- The byte at a position, or 0, which continues no sequence.
abbrev pub byte_at : List ℕ → ℕ → ℕ
byte_at [] i = 0
byte_at (b ∷ bs) zero = b
byte_at (b ∷ bs) (suc i) = byte_at bs i

abbrev pub continues : ℕ → Bool
continues b = between 0x80 0xbf b

-- The second bytes that a first byte of a sequence of three or four admits.
unfoldable pub second_fits : ℕ → ℕ → Bool
second_fits a b =
    if a == 0xe0
    then between 0xa0 0xbf b
    else if a == 0xed
    then between 0x80 0x9f b
    else if a == 0xf0
    then between 0x90 0xbf b
    else if a == 0xf4
    then between 0x80 0x8f b
    else continues b

-- The first character, and how many bytes it takes; one replacement stands for each longest start
-- of a sequence that is broken off.
unfoldable pub first_char : ℕ → List ℕ → ℕ × ℕ
unfolding second_fits
first_char a rest =
    let b = byte_at rest 0 in
    let c = byte_at rest 1 in
    let d = byte_at rest 2 in
    if ltb a 0x80
    then (a, 1)
    else if between 0xc2 0xdf a
    then (if continues b then ((a - 0xc0) * 64 + (b - 0x80), 2) else (replacement, 1))
    else if between 0xe0 0xef a
    then (if second_fits a b
        then (if continues c
            then ((a - 0xe0) * 4096 + (b - 0x80) * 64 + (c - 0x80), 3)
            else (replacement, 2))
        else (replacement, 1))
    else if between 0xf0 0xf4 a
    then (if second_fits a b
        then (if continues c
            then (if continues d
                then ((a - 0xf0) * 262144 + (b - 0x80) * 4096 + (c - 0x80) * 64 + (d - 0x80), 4)
                else (replacement, 3))
            else (replacement, 2))
        else (replacement, 1))
    else (replacement, 1)

-- Each character takes one byte at least, so the length is fuel enough.
unfoldable pub lossy_from : ℕ → List ℕ → List ℕ
unfolding first_char
lossy_from zero bs = []
lossy_from (suc fuel) [] = []
lossy_from (suc fuel) (a ∷ rest) =
    let (c, n) = first_char a rest in c ∷ lossy_from fuel (drop (n - 1) rest)

-- `String::from_utf8_lossy`
unfoldable pub from_utf8_lossy : List ℕ → List ℕ
unfolding lossy_from
from_utf8_lossy bs = lossy_from (length bs) bs

abbrev pub is_digit : ℕ → Bool
is_digit c = between b'0' b'9' c

-- The digits of a decimal number; `none` at another character.
unfoldable pub digits_from : ℕ → List ℕ → Option ℕ
digits_from acc [] = some acc
digits_from acc (c ∷ cs) =
    let rest = digits_from (acc * 10 + (c - b'0')) cs in if is_digit c then rest else none

abbrev pub below : ℕ → Option ℕ → Option ℕ
below bound none = none
below bound (some n) = if ltb n bound then some n else none

-- One digit at least.
abbrev pub number : List ℕ → Option ℕ
number [] = none
number (c ∷ cs) = digits_from 0 (c ∷ cs)

abbrev pub unsigned : List ℕ → List ℕ
unsigned [] = []
unsigned (c ∷ cs) = if c == b'+' then cs else c ∷ cs

-- `str::parse::<u32>`: an optional plus sign, digits, and a value that fits.
unfoldable pub parse_u32 : List ℕ → Option ℕ
unfolding digits_from
parse_u32 s = below 4294967296 (number (unsigned s))

-- A number with its sign: 2^31 at most below 0, and less than that above.
abbrev pub signed : Option ℕ → Option ℤ
signed none = none
signed (some n) = some (neg (pos n))

abbrev pub plus : Option ℕ → Option ℤ
plus none = none
plus (some n) = some (pos n)

-- `str::parse::<i32>`
unfoldable pub parse_i32 : List ℕ → Option ℤ
unfolding digits_from
parse_i32 [] = none
parse_i32 (c ∷ cs) =
    if c == b'-'
    then signed (below 2147483649 (number cs))
    else plus (below 2147483648 (number (unsigned (c ∷ cs))))
