-- ===== src/Framing/Progress.antt =====
-- The framing loses no byte, and each request text that it takes makes the buffer shorter.
use mathlib.Core.List.{append-nil}
use open_madt.Prelude.{
  ℕ, ◌+◌, ◌≤◌, ◌<◌, ◌≡◌, refl, some, [], ◌∷◌, ◌++◌, Bytes, arith, length, ◌⊎◌, length-drop,
  take-append-drop, Option-cases, inl, inr,
}
use open_madt.Framing.{
  skip_space, Scan, Scanned, closed, more, scan_byte, find_end, scan_start, extract_trimmed,
  extract_single_json_object,
}

pub length-skip_space : (b : Bytes) → length (skip_space b) ≤ length b
unfolding skip_space
length-skip_space [] = omega arith
length-skip_space (c ∷ cs) = ground (arith, length-skip_space cs)

Scanned-cases : (r : Scanned) → (r ≡ closed) ⊎ ((s : Scan) × (r ≡ more s))
Scanned-cases closed = inl refl
Scanned-cases (more s) = inr (s, refl)

-- The end lies behind the bytes read and within the text.
pub find_end_bounds :
    (s : Scan) (i n : ℕ) (b : Bytes) → find_end s i b ≡ some n → (i < n) × (n ≤ i + length b)
unfolding find_end
find_end_bounds s i n [] h = ground arith
find_end_bounds s i n (c ∷ cs) h = elim (Scanned-cases (scan_byte s c)) [
  | inl e ↦ ground arith
  | inr (t, e) ↦ ground (arith, find_end_bounds t (i + 1) n cs)
]

-- What follows the end of an object does not move it.
pub find_end-append :
    (s : Scan) (i n : ℕ) (b more_bytes : Bytes)
    → find_end s i b ≡ some n
    → find_end s i (b ++ more_bytes) ≡ some n
unfolding find_end
find_end-append s i n [] more_bytes h = ground arith
find_end-append s i n (c ∷ cs) more_bytes h = elim (Scanned-cases (scan_byte s c)) [
  | inl e ↦ ground arith
  | inr (t, e) ↦ ground (arith, find_end-append t (i + 1) n cs more_bytes)
]

shorter_trimmed :
    (buffer rest text left : Bytes)
    → length rest ≤ length buffer
    → extract_trimmed buffer rest ≡ (some text, left)
    → length left < length buffer
unfolding extract_trimmed
shorter_trimmed buffer [] text left le h = ground arith
shorter_trimmed buffer (c ∷ cs) text left le h =
    elim (Option-cases (find_end scan_start 0 (c ∷ cs))) [
      | inl e ↦ ground arith
      | inr (n, e) ↦
          ground (arith, find_end_bounds scan_start 0 n (c ∷ cs) e, length-drop n (c ∷ cs))
    ]

parts_trimmed :
    (buffer rest text left : Bytes)
    → extract_trimmed buffer rest ≡ (some text, left)
    → text ++ left ≡ rest
unfolding extract_trimmed
parts_trimmed buffer [] text left h = ground arith
parts_trimmed buffer (c ∷ cs) text left h = elim (Option-cases (find_end scan_start 0 (c ∷ cs))) [
  | inl e ↦ ground (arith, append-nil (c ∷ cs))
  | inr (n, e) ↦ ground (arith, append-nil (c ∷ cs), take-append-drop n (c ∷ cs))
]

-- Each request text that is taken makes the buffer shorter, so the loop over the buffer ends.
pub length-extract_lt :
    (buffer text left : Bytes)
    → extract_single_json_object buffer ≡ (some text, left)
    → length left < length buffer
unfolding extract_single_json_object
length-extract_lt buffer text left h =
    shorter_trimmed buffer (skip_space buffer) text left (length-skip_space buffer) h

-- The bytes of the buffer behind the white space are the request text and what is left, in order.
pub extract_parts :
    (buffer text left : Bytes)
    → extract_single_json_object buffer ≡ (some text, left)
    → text ++ left ≡ skip_space buffer
unfolding extract_single_json_object
extract_parts buffer text left h = parts_trimmed buffer (skip_space buffer) text left h
