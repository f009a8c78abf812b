-- ===== src/Number.antt =====
-- `strtoul` and `strtoull` of the C standard library, with which the program reads the volume and
-- the sound flags. `unsigned long` has 64 bits.
pub mod RoundTrip
use open_madt.Prelude.{
  ℕ, ◌+◌, ◌-◌, ◌*◌, ◌%◌, ◌^◌, Bool, true, false, ◌&&◌, ◌||◌, not, [], ◌∷◌, Bytes, ◌==◌, ltb, leb,
  if◌then◌else◌,
}
use open_madt.Framing.{skip_space}

-- The value of a digit in a base up to 36; 36 where the byte is no digit.
unfoldable pub digit : ℕ → ℕ
digit c =
    if leb b'0' c && leb c b'9'
    then c - b'0'
    else if leb b'a' c && leb c b'z'
    then c - b'a' + 10
    else if leb b'A' c && leb c b'Z'
    then c - b'A' + 10
    else 36

-- The digits at the front: their value, and the bytes from the first that is no digit.
unfoldable pub digits : ℕ → ℕ → Bytes → ℕ × Bytes
unfolding digit
digits base acc [] = (acc, [])
digits base acc (c ∷ cs) =
    let rest = digits base (acc * base + digit c) cs in
    if ltb (digit c) base then rest else (acc, c ∷ cs)

unfoldable pub is_digit : ℕ → Bytes → Bool
unfolding digit
is_digit base [] = false
is_digit base (c ∷ cs) = ltb (digit c) base

abbrev is_x : ℕ → Bool
is_x c = c == b'x' || c == b'X'

-- The base that the text has, and the text behind its `0x`. The prefix counts only before a digit.
unfoldable pub prefix : ℕ → Bytes → ℕ × Bytes
unfolding is_digit
prefix base (z ∷ x ∷ cs) =
    if (base == 0 || base == 16) && z == b'0' && is_x x && is_digit 16 cs
    then (16, cs)
    else if base == 0
    then (if z == b'0' then 8 else 10, z ∷ x ∷ cs)
    else (base, z ∷ x ∷ cs)
prefix base (z ∷ []) = (if base == 0 then (if z == b'0' then 8 else 10) else base, z ∷ [])
prefix base [] = (if base == 0 then 10 else base, [])

unfoldable pub sign : Bytes → Bool × Bytes
sign [] = (false, [])
sign (c ∷ cs) = if c == b'-' then (true, cs) else if c == b'+' then (false, cs) else (false, c ∷ cs)

pub data Conversion : Type 0 where
  -- no digits: the end pointer is the start of the text
  nothing : Conversion
  -- `errno` is `ERANGE`
  out_of_range : Conversion
  -- the value, and the text from the end pointer on
  converted : ℕ → Bytes → Conversion

abbrev pub ulong_mod : ℕ
ulong_mod = 2 ^ 64

unfoldable pub convert : Bool → ℕ × Bytes → Conversion
unfolding digits is_digit
convert negative (base, cs) =
    let (value, rest) = digits base 0 cs in
    if not (is_digit base cs)
    then nothing
    else if leb ulong_mod value
    then out_of_range
    else converted (if negative then (ulong_mod - value) % ulong_mod else value) rest

unfoldable pub after_sign : ℕ → Bool × Bytes → Conversion
unfolding prefix convert
after_sign base (negative, cs) = convert negative (prefix base cs)

unfoldable pub strtoull : ℕ → Bytes → Conversion
unfolding skip_space sign after_sign
strtoull base text = after_sign base (sign (skip_space text))
