-- ===== src/DnsSd/UniqueId.antt =====
-- What `sanitizeUniqueId` of madt-server/dns-sd-advertiser.cpp makes of any text.
use open_madt.Prelude.{
  ℕ, zero, suc, ◌≤◌, Bool, true, false, ◌&&◌, ◌||◌, [], ◌∷◌, Bytes, ◌≡◌, refl, arith, map, length,
  take, ltb, ◌==◌, is_empty, All, Bool-cases, inl, inr,
}
use open_madt.DnsSd.{
  dash, is_alnum, unique_id_char, strip_leading, strip_trailing, or_madt, cut, sanitize_unique_id,
}

abbrev pub IsLetter : ℕ → Type 0
IsLetter c = (is_alnum c || c == dash) ≡ true

abbrev pub starts_in_dash : Bytes → Bool
starts_in_dash [] = false
starts_in_dash (c ∷ cs) = c == dash

abbrev pub ends_in_dash : Bytes → Bool
ends_in_dash [] = false
ends_in_dash (c ∷ []) = c == dash
ends_in_dash (c ∷ d ∷ cs) = ends_in_dash (d ∷ cs)

-- Letters, digits and dashes, no dash at either end, and from 1 to 48 of them.
pub record IsUniqueId (s : Bytes) : Type 0 where
  pub letters : All IsLetter s
  pub first : starts_in_dash s ≡ false
  pub last : ends_in_dash s ≡ false
  pub nonempty : 1 ≤ length s
  pub short : length s ≤ 48

map-letters : (s : Bytes) → All IsLetter (map unique_id_char s)
unfolding unique_id_char
map-letters [] = tt
map-letters (c ∷ cs) = (ground arith, map-letters cs)

leading-letters : (s : Bytes) → All IsLetter s → All IsLetter (strip_leading s)
unfolding strip_leading
leading-letters [] a = tt
leading-letters (c ∷ cs) a = ground (arith, leading-letters cs)

leading-first : (s : Bytes) → starts_in_dash (strip_leading s) ≡ false
unfolding strip_leading
leading-first [] = refl
leading-first (c ∷ cs) = ground (arith, leading-first cs)

trailing-letters : (s : Bytes) → All IsLetter s → All IsLetter (strip_trailing s)
unfolding strip_trailing
trailing-letters [] a = tt
trailing-letters (c ∷ cs) a = ground (arith, trailing-letters cs)

trailing-first : (s : Bytes) → starts_in_dash s ≡ false → starts_in_dash (strip_trailing s) ≡ false
unfolding strip_trailing
trailing-first [] h = refl
trailing-first (c ∷ cs) h = ground arith

cons-last :
    (c : ℕ) (s : Bytes)
    → ends_in_dash s ≡ false
    → (c == dash && is_empty s) ≡ false
    → ends_in_dash (c ∷ s) ≡ false
unfolding is_empty
cons-last c [] h k = ground arith
cons-last c (d ∷ s) h k = h

trailing-last : (s : Bytes) → ends_in_dash (strip_trailing s) ≡ false
unfolding strip_trailing
trailing-last [] = refl
trailing-last (c ∷ cs) = elim (Bool-cases (c == dash && is_empty (strip_trailing cs))) [
  | inl e ↦ rw (e, strip_trailing) refl
  | inr e ↦ rw (e, strip_trailing) (cons-last c (strip_trailing cs) (trailing-last cs) e)
]

trailing_le : (s : Bytes) → length (strip_trailing s) ≤ length s
unfolding strip_trailing
trailing_le [] = omega arith
trailing_le (c ∷ cs) = ground (arith, trailing_le cs)

take-letters : (n : ℕ) (s : Bytes) → All IsLetter s → All IsLetter (take n s)
take-letters zero s a = tt
take-letters (suc n) [] a = tt
take-letters (suc n) (c ∷ cs) a = (a.0, take-letters n cs a.1)

take_le : (n : ℕ) (s : Bytes) → length (take n s) ≤ n
take_le zero s = omega arith
take_le (suc n) [] = omega arith
take_le (suc n) (c ∷ cs) = omega (arith, take_le n cs)

take-first : (n : ℕ) (s : Bytes) → starts_in_dash s ≡ false → starts_in_dash (take n s) ≡ false
take-first zero s h = refl
take-first (suc n) [] h = refl
take-first (suc n) (c ∷ cs) h = h

or_madt-IsUniqueId :
    (s : Bytes)
    → All IsLetter s
    → starts_in_dash s ≡ false
    → ends_in_dash s ≡ false
    → length s ≤ 48
    → IsUniqueId (or_madt s)
unfolding is_empty
or_madt-IsUniqueId [] a f l n = record {
  letters = (refl, (refl, (refl, (refl, tt))));
  first = refl;
  last = refl;
  nonempty = omega arith;
  short = omega arith;
}
or_madt-IsUniqueId (c ∷ cs) a f l n = record {
  letters = a;
  first = f;
  last = l;
  nonempty = omega arith;
  short = n;
}

cut-IsUniqueId :
    (s : Bytes)
    → All IsLetter s
    → starts_in_dash s ≡ false
    → ends_in_dash s ≡ false
    → IsUniqueId (cut s)
unfolding cut
cut-IsUniqueId s a f l = elim (Bool-cases (ltb 48 (length s))) [
  | inl e ↦
      let front = take 48 s in
      rw (e, cut)
        (or_madt-IsUniqueId (strip_trailing front) (trailing-letters front (take-letters 48 s a))
          (trailing-first front (take-first 48 s f)) (trailing-last front)
          (omega (arith, trailing_le front, take_le 48 s)))
  | inr e ↦ rw (e, cut) (or_madt-IsUniqueId s a f l (ground arith))
]

sanitized : (s : Bytes) → IsUniqueId (sanitize_unique_id s)
unfolding sanitize_unique_id
sanitized s =
    let letters = map-letters s in
    let front = strip_leading (map unique_id_char s) in
    cut-IsUniqueId (strip_trailing front) (trailing-letters front (leading-letters _ letters))
      (trailing-first front (leading-first (map unique_id_char s))) (trailing-last front)

-- What is such an identifier already stays as it is.
map-same : (s : Bytes) → All IsLetter s → map unique_id_char s ≡ s
unfolding unique_id_char
map-same [] a = refl
map-same (c ∷ cs) a = ground (arith, map-same cs)

leading-same : (s : Bytes) → starts_in_dash s ≡ false → strip_leading s ≡ s
unfolding strip_leading
leading-same [] h = refl
leading-same (c ∷ cs) h = ground arith

trailing-same : (s : Bytes) → ends_in_dash s ≡ false → strip_trailing s ≡ s
unfolding strip_trailing is_empty
trailing-same [] h = refl
trailing-same (c ∷ []) h = ground arith
trailing-same (c ∷ d ∷ cs) h = ground (arith, trailing-same (d ∷ cs))

cut-same : (s : Bytes) → 1 ≤ length s → length s ≤ 48 → cut s ≡ s
unfolding cut is_empty
cut-same [] h k = absurd (omega arith)
cut-same (c ∷ cs) h k = ground arith

kept : (s : Bytes) → IsUniqueId s → sanitize_unique_id s ≡ s
unfolding sanitize_unique_id
kept s k =
    rw (map-same s k.letters, leading-same s k.first, trailing-same s k.last)
      (cut-same s k.nonempty k.short)

-- Any text becomes an identifier of letters, digits and dashes, without a dash at either end and from 1
-- to 48 bytes long, and a second pass changes nothing.
pub sanitize_unique_id-IsUniqueId :
    (s : Bytes)
    → IsUniqueId (sanitize_unique_id s)
      × (sanitize_unique_id (sanitize_unique_id s) ≡ sanitize_unique_id s)
sanitize_unique_id-IsUniqueId s = (sanitized s, kept (sanitize_unique_id s) (sanitized s))
