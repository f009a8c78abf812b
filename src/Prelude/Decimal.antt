-- ===== src/Prelude/Decimal.antt =====
-- `std::to_string` of a number that is not negative.
use Prim.Native.Nat.{ℕ, zero, suc, ◌+◌, ◌-◌, ◌*◌, ◌/◌, ◌%◌, ◌<◌}
use mathlib.Core.Path.{◌≡◌, refl, sym, ap, ◌∙◌}
use mathlib.Core.List.{[], ◌∷◌, ◌++◌}
use native.Mathlib.Omega.{arith}
use open_madt.Prelude.Tests.{ltb, if◌then◌else◌}
use open_madt.Prelude.Text.{Bytes}

unfoldable pub write_digits : ℕ → ℕ → Bytes
write_digits zero n = []
write_digits (suc fuel) n =
    let rest = write_digits fuel (n / 10) in
    if ltb n 10 then (b'0' + n) ∷ [] else rest ++ (b'0' + n % 10) ∷ []

-- A number has fewer digits than its successor says.
unfoldable pub to_string : ℕ → Bytes
unfolding write_digits
to_string n = write_digits (suc n) n

-- The number that digits stand for, behind a number that has been read.
unfoldable pub value : ℕ → Bytes → ℕ
value acc [] = acc
value acc (c ∷ cs) = value (acc * 10 + (c - b'0')) cs

value-append : (acc : ℕ) (s t : Bytes) → value acc (s ++ t) ≡ value (value acc s) t
unfolding value
value-append acc [] t = refl
value-append acc (c ∷ s) t = value-append (acc * 10 + (c - b'0')) s t

pub value-write_digits : (fuel n : ℕ) → n < fuel → value 0 (write_digits fuel n) ≡ n
unfolding value write_digits
value-write_digits zero n h = absurd (omega arith)
value-write_digits (suc fuel) n h = ground (
  arith,
  value-append 0 (write_digits fuel (n / 10)) ((b'0' + n % 10) ∷ []),
  value-write_digits fuel (n / 10),
)

-- Different numbers have different texts.
pub to_string-injective : (m n : ℕ) → to_string m ≡ to_string n → m ≡ n
unfolding to_string
to_string-injective m n h =
    sym (value-write_digits (suc m) m (omega arith))
    ∙ ap (value 0) h
    ∙ value-write_digits (suc n) n (omega arith)
