-- ===== src/Settings/Volume.antt =====
-- `settingsVolumeToPercent` of madt-server/runtime-config.cpp.
use open_madt.Prelude.{
  ℕ, zero, suc, ◌+◌, ◌*◌, ◌/◌, ◌%◌, ◌≤◌, Bool, true, false, ◌&&◌, ◌||◌, [], ◌∷◌, Bytes, ◌≡◌, refl,
  arith, ◌==◌, leb, ltb, if◌then◌else◌,
}
use open_madt.Number.{Conversion, nothing, out_of_range, converted, strtoull}

unfoldable pub is_hex : Bytes → Bool
is_hex (z ∷ x ∷ c ∷ cs) = z == b'0' && (x == b'x' || x == b'X')
is_hex _ = false

abbrev pub uint32_max : ℕ
uint32_max = 4294967295

-- `std::lround(clamped * 100.0 / UINT32_MAX)`. The product is exact in a `double`. The quotient is
-- never half-way between two integers, as 200 * clamped is even and an odd multiple of
-- `uint32_max` is odd, and it stays 2⁻³³ away from there, which the rounding of the division does not
-- bridge. So the result is the integer nearest to the exact quotient.
unfoldable pub scaled : ℕ → ℕ
scaled raw =
    let clamped = if leb raw uint32_max then raw else uint32_max in
    (clamped * 200 + uint32_max) / (2 * uint32_max)

-- Both exceptions of `std::stoull` lead to 100, and so does a text with bytes behind its number.
unfoldable pub percent_of : Bool → Conversion → ℕ
unfolding scaled
percent_of hex nothing = 100
percent_of hex out_of_range = 100
percent_of hex (converted raw (c ∷ rest)) = 100
percent_of true (converted raw []) = scaled raw
percent_of false (converted raw []) = if leb raw 100 then raw else scaled raw

unfoldable pub settings_volume_to_percent : Bytes → ℕ
unfolding is_hex percent_of strtoull
settings_volume_to_percent [] = 100
settings_volume_to_percent (c ∷ cs) =
    percent_of (is_hex (c ∷ cs)) (strtoull (if is_hex (c ∷ cs) then 16 else 10) (c ∷ cs))

scaled-le : (raw : ℕ) → scaled raw ≤ 100
unfolding scaled
scaled-le raw = ground arith

percent_of-le : (hex : Bool) (r : Conversion) → percent_of hex r ≤ 100
unfolding percent_of
percent_of-le hex nothing = omega arith
percent_of-le hex out_of_range = omega arith
percent_of-le hex (converted raw (c ∷ rest)) = omega arith
percent_of-le true (converted raw []) = scaled-le raw
percent_of-le false (converted raw []) = ground (arith, scaled-le raw)

-- Whatever text a client sends as its volume, the percentage is at most 100.
pub volume_percent_le : (volume : Bytes) → settings_volume_to_percent volume ≤ 100
unfolding settings_volume_to_percent
volume_percent_le [] = omega arith
volume_percent_le (c ∷ cs) = percent_of-le (is_hex (c ∷ cs)) _

-- Decimal digits of a number below 1000.
unfoldable pub decimal : ℕ → Bytes
decimal n =
    if ltb n 10
    then (b'0' + n) ∷ []
    else if ltb n 100
    then (b'0' + n / 10) ∷ (b'0' + n % 10) ∷ []
    else (b'0' + n / 100) ∷ (b'0' + n / 10 % 10) ∷ (b'0' + n % 10) ∷ []

-- Whether the text of each number up to `n` is that percentage.
abbrev agrees : ℕ → Bool
agrees n = settings_volume_to_percent (decimal n) == n

unfoldable agree_up_to : ℕ → Bool
agree_up_to zero = agrees 0
agree_up_to (suc n) = if agrees (suc n) then agree_up_to n else false

agree_at :
    (top n : ℕ) → n ≤ top → agree_up_to top ≡ true → settings_volume_to_percent (decimal n) ≡ n
unfolding agree_up_to
agree_at zero n le h = ground arith
agree_at (suc top) n le h = ground (arith, agree_at top n)

agree_hundred : agree_up_to 100 ≡ true
unfolding agree_up_to settings_volume_to_percent decimal
agree_hundred = refl

-- A decimal text of a number up to 100 is that percentage, not a value on the 32-bit scale.
pub volume_percent-decimal : (n : ℕ) → n ≤ 100 → settings_volume_to_percent (decimal n) ≡ n
volume_percent-decimal n h = agree_at 100 n h agree_hundred
