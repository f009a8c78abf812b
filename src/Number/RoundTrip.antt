-- ===== src/Number/RoundTrip.antt =====
-- `strtoul` and `stoull` read back the texts of `std::to_string`.
use open_madt.Prelude.{
  ℕ, zero, suc, ◌+◌, ◌-◌, ◌*◌, ◌/◌, ◌%◌, ◌≤◌, ◌<◌, true, false, [], ◌∷◌, ◌++◌, Bytes, ◌≡◌, refl, ap,
  arith, ◌∙◌, All, All-append, ltb, leb, Bool-cases, inl, inr,
}
use open_madt.Prelude.Decimal.{to_string, value, write_digits, value-write_digits}
use open_madt.Framing.{skip_space}
use open_madt.Number.{
  digit, digits, is_digit, prefix, sign, converted, convert, after_sign, strtoull, ulong_mod,
}

abbrev pub IsDecimal : ℕ → Type 0
IsDecimal c = (b'0' ≤ c) × (c ≤ b'9')

-- Decimal digits of which the first is not 0.
abbrev IsNumeral : Bytes → Type 0
IsNumeral [] = ⊥
IsNumeral (c ∷ cs) = (b'1' ≤ c) × (c ≤ b'9') × All IsDecimal cs

IsNumeral-append : (s : Bytes) (d : ℕ) → IsNumeral s → IsDecimal d → IsNumeral (s ++ d ∷ [])
IsNumeral-append [] d h k = absurd h
IsNumeral-append (c ∷ cs) d h k = (h.0, h.1, All-append IsDecimal cs (d ∷ []) h.2 (k, tt))

write_digits-IsNumeral : (fuel n : ℕ) → 0 < n → n < fuel → IsNumeral (write_digits fuel n)
unfolding write_digits
write_digits-IsNumeral zero n h k = absurd (omega arith)
write_digits-IsNumeral (suc fuel) n h k = elim (Bool-cases (ltb n 10)) [
  | inl e ↦ rw (e, write_digits) (ground arith, ground arith, tt)
  | inr e ↦
      rw (e, write_digits)
        (IsNumeral-append (write_digits fuel (n / 10)) (b'0' + n % 10)
          (write_digits-IsNumeral fuel (n / 10) (ground arith) (ground arith))
          (omega arith, omega arith))
]

digit_lem : (c : ℕ) → IsDecimal c → digit c ≡ c - b'0'
unfolding digit
digit_lem c h = ground arith

digits-value : (acc : ℕ) (s : Bytes) → All IsDecimal s → digits 10 acc s ≡ (value acc s, [])
unfolding digits value
digits-value acc [] h = refl
digits-value acc (c ∷ cs) h =
    let d = digit_lem c h.0 in
    let small : ltb (digit c) 10 ≡ true = ground arith in
    rw (small, d, digits) (digits-value (acc * 10 + (c - b'0')) cs h.1)

prefix-numeral : (c : ℕ) (cs : Bytes) → b'1' ≤ c → prefix 0 (c ∷ cs) ≡ (10, c ∷ cs)
unfolding prefix
prefix-numeral c [] h = ground arith
prefix-numeral c (x ∷ cs) h = ground arith

skip_space-numeral : (c : ℕ) (cs : Bytes) → b'1' ≤ c → skip_space (c ∷ cs) ≡ c ∷ cs
unfolding skip_space
skip_space-numeral c cs h = ground arith

sign-numeral : (c : ℕ) (cs : Bytes) → b'1' ≤ c → sign (c ∷ cs) ≡ (false, c ∷ cs)
unfolding sign
sign-numeral c cs h = ground arith

strtoull-numeral :
    (s : Bytes) → IsNumeral s → value 0 s < ulong_mod → strtoull 0 s ≡ converted (value 0 s) []
unfolding strtoull after_sign convert is_digit
strtoull-numeral [] h k = absurd h
strtoull-numeral (c ∷ cs) h k =
    let d = digit_lem c (omega arith, h.1) in
    let small : ltb (digit c) 10 ≡ true = ground arith in
    let fits : leb ulong_mod (value 0 (c ∷ cs)) ≡ false = ground arith in
    rw
      (
        skip_space-numeral c cs h.0,
        sign-numeral c cs h.0,
        prefix-numeral c cs h.0,
        digits-value 0 (c ∷ cs) ((omega arith, h.1), h.2),
        small,
        fits,
      )
      refl

strtoull-positive : (n : ℕ) → 0 < n → n < ulong_mod → strtoull 0 (to_string n) ≡ converted n []
unfolding to_string
strtoull-positive n p h =
    let v : value 0 (write_digits (suc n) n) ≡ n = value-write_digits (suc n) n (omega arith) in
    let numeral = write_digits-IsNumeral (suc n) n p (omega arith) in
    strtoull-numeral (write_digits (suc n) n) numeral (rw v h) ∙ ap (λ (m : ℕ). converted m []) v

-- The text of a number below 2^64 is read as that number, to its end.
pub strtoull-to_string : (n : ℕ) → n < ulong_mod → strtoull 0 (to_string n) ≡ converted n []
unfolding to_string strtoull write_digits
strtoull-to_string zero h = refl
strtoull-to_string (suc n) h = strtoull-positive (suc n) (omega arith) h

numeral-All : (s : Bytes) → IsNumeral s → All IsDecimal s
numeral-All [] h = absurd h
numeral-All (c ∷ cs) h = ((omega (arith, h.0), h.1), h.2)

pub to_string-All : (n : ℕ) → All IsDecimal (to_string n)
unfolding to_string write_digits
to_string-All zero = ((omega arith, omega arith), tt)
to_string-All (suc n) =
    numeral-All (write_digits (suc (suc n)) (suc n))
      (write_digits-IsNumeral (suc (suc n)) (suc n) (omega arith) (omega arith))
