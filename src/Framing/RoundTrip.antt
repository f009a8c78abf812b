-- ===== src/Framing/RoundTrip.antt =====
-- The framing recognises the request texts of the grammar, whole or arriving in parts.
use mathlib.Core.List.{append-nil, append_assoc}
use open_madt.Prelude.{
  ℕ, suc, ◌+◌, ◌≤◌, inl, inr, Option-cases, ◌≡◌, ◌≢◌, refl, true, false, none, some, List, [], ◌∷◌,
  ◌++◌, Bytes, arith, length, length-append, take-length-append, drop-length-append,
}
use open_madt.Framing.Grammar.{
  Piece, raw, escaped, Body, done, plain, quoted, group, print_pieces, print_body, print_object,
  ArePieces, IsBody,
}
use open_madt.Framing.Progress.{find_end_bounds, find_end-append}
use open_madt.Framing.{
  is_space, skip_space, Scan, scan_byte, find_end, scan_start, extract_single_json_object,
}

abbrev outside : ℕ → Scan
outside d = record { depth = d; in_string = false; escaping = false }

abbrev inside : ℕ → Scan
inside d = record { depth = d; in_string = true; escaping = false }

-- A string literal is passed over, and the scan is outside again behind its closing quote.
find_end-pieces :
    (d i : ℕ) (ps : List Piece) (rest : Bytes)
    → ArePieces ps
    → find_end (inside d) i (print_pieces ps ++ b'"' ∷ rest)
      ≡ find_end (outside d) (i + length (print_pieces ps) + 1) rest
unfolding find_end scan_byte
find_end-pieces d i [] rest h = ground arith
find_end-pieces d i (raw c ∷ ps) rest h = ground (arith, find_end-pieces d (i + 1) ps rest h.1)
find_end-pieces d i (escaped c ∷ ps) rest h =
    ground (arith, find_end-pieces d (i + 1 + 1) ps rest h.1)

find_end-body :
    (d i : ℕ) (b : Body) (rest : Bytes)
    → IsBody b
    → find_end (outside (suc d)) i (print_body b ++ rest)
      ≡ find_end (outside (suc d)) (i + length (print_body b)) rest
unfolding find_end scan_byte
find_end-body d i done rest h = ground arith
find_end-body d i (plain c b) rest h = ground (arith, find_end-body d (i + 1) b rest h.3)
find_end-body d i (quoted ps b) rest h =
    rw (append_assoc (print_pieces ps) (b'"' ∷ print_body b) rest) (
      ground (
        arith,
        find_end-pieces (suc d) (i + 1) ps (print_body b ++ rest) h.0,
        find_end-body d (i + 1 + length (print_pieces ps) + 1) b rest h.1,
        length-append (print_pieces ps) (b'"' ∷ print_body b),
      ))
find_end-body d i (group inner b) rest h =
    rw (append_assoc (print_body inner) (b'}' ∷ print_body b) rest) (
      ground (
        arith,
        find_end-body (suc d) (i + 1) inner (b'}' ∷ print_body b ++ rest) h.0,
        find_end-body d (i + 1 + length (print_body inner) + 1) b rest h.1,
        length-append (print_body inner) (b'}' ∷ print_body b),
      ))

find_end-object :
    (b : Body) (rest : Bytes)
    → IsBody b
    → find_end scan_start 0 (print_object b ++ rest) ≡ some (length (print_object b))
unfolding find_end scan_byte
find_end-object b rest h =
    rw (append_assoc (print_body b) (b'}' ∷ []) rest) (
      ground (arith, find_end-body 0 1 b (b'}' ∷ rest) h, length-append (print_body b) (b'}' ∷ [])))

-- White space before an object.
abbrev pub AreSpaces : Bytes → Type 0
AreSpaces [] = Unit
AreSpaces (c ∷ cs) = (is_space c ≡ true) × AreSpaces cs

skip_space-append :
    (ws : Bytes) (b : Body) (rest : Bytes)
    → AreSpaces ws
    → skip_space (ws ++ print_object b ++ rest) ≡ print_object b ++ rest
unfolding skip_space
skip_space-append [] b rest h = refl
skip_space-append (c ∷ cs) b rest h = rw h.0 (skip_space-append cs b rest h.1)

-- Behind white space, a text of the grammar is taken whole, and exactly what follows it stays in
-- the buffer.
pub extract-print_object :
    (ws : Bytes) (b : Body) (rest : Bytes)
    → AreSpaces ws
    → IsBody b
    → extract_single_json_object (ws ++ print_object b ++ rest) ≡ (some (print_object b), rest)
unfolding extract_single_json_object
extract-print_object ws b rest hw hb = rw (skip_space-append ws b rest hw) (
    rw (find_end-object b rest hb) (
      ground (
        arith,
        take-length-append (print_object b) rest,
        drop-length-append (print_object b) rest,
      )))

whole_lt : (n : ℕ) (p q : Bytes) → n ≤ length p → n ≡ length (p ++ q) → q ≢ [] → ⊥
whole_lt n p [] le e h = h refl
whole_lt n p (x ∷ q) le e h = omega (arith, length-append p (x ∷ q))

unfinished :
    (b : Body) (p q : Bytes)
    → IsBody b
    → p ++ q ≡ print_object b
    → q ≢ []
    → find_end scan_start 0 p ≡ none
unfinished b p q hb e hq = elim (Option-cases (find_end scan_start 0 p)) [
  | inl f ↦ f
  | inr (n, f) ↦ absurd (
      whole_lt n p q (omega (arith, (find_end_bounds scan_start 0 n p f).1))
        (ground (
          arith,
          find_end-append scan_start 0 n p q f,
          find_end-object b [] hb,
          append-nil (print_object b),
        ))
        hq)
]

-- A proper part of an object at the front of the buffer is kept there, and nothing is taken.
pub extract_unfinished :
    (b : Body) (p q : Bytes)
    → IsBody b
    → p ++ q ≡ print_object b
    → p ≢ []
    → q ≢ []
    → extract_single_json_object p ≡ (none, p)
unfolding extract_single_json_object
extract_unfinished b [] q hb e hp hq = absurd (hp refl)
extract_unfinished b (c ∷ p) q hb e hp hq = ground (arith, unfinished b (c ∷ p) q hb e hq)
