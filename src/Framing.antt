-- ===== src/Framing.antt =====
-- `Server::extractSingleJsonObject` of madt-server/madt-server.cpp: how the byte stream of a
-- connection is cut into request texts.
pub mod Grammar
pub mod RoundTrip
pub mod Progress
use open_madt.Prelude.{
  ℕ, suc, ◌+◌, ◌-◌, Bool, true, false, ◌&&◌, ◌||◌, Option, none, some, List, [], ◌∷◌, Bytes, ◌==◌,
  leb, take, drop, if◌then◌else◌,
}

-- `std::isspace` in the C locale.
unfoldable pub is_space : ℕ → Bool
is_space c = c == 32 || leb 9 c && leb c 13

unfoldable pub skip_space : Bytes → Bytes
unfolding is_space
skip_space [] = []
skip_space (c ∷ cs) = let rest = skip_space cs in if is_space c then rest else c ∷ cs

-- The three variables of the scanning loop. The scan begins at a `{`, so `depth` is positive at
-- every `}` that it counts.
pub record Scan : Type 0 where
  pub depth : ℕ
  pub in_string : Bool
  pub escaping : Bool

pub data Scanned : Type 0 where
  closed : Scanned
  more : Scan → Scanned

-- One round of the loop.
unfoldable pub scan_byte : Scan → ℕ → Scanned
scan_byte s ch =
    if s.in_string
    then (if s.escaping
        then more (record s { escaping = false })
        else if ch == b'\\'
        then more (record s { escaping = true })
        else if ch == b'"'
        then more (record s { in_string = false })
        else more s)
    else if ch == b'"'
    then more (record s { in_string = true })
    else if ch == b'{'
    then more (record s { depth = suc s.depth })
    else if ch == b'}'
    then (if s.depth == 1 then closed else more (record s { depth = s.depth - 1 }))
    else more s

-- The loop: the number of bytes up to the end of the object, with `i` of them read.
unfoldable pub find_end : Scan → ℕ → Bytes → Option ℕ
find_end s i [] = none
find_end s i (ch ∷ rest) = elim (scan_byte s ch) [
  | closed ↦ some (i + 1)
  | more s' ↦ find_end s' (i + 1) rest
]

abbrev pub scan_start : Scan
scan_start = record { depth = 0; in_string = false; escaping = false }

-- What the scan from the first `{` found: the request text, and the buffer that is left.
unfoldable pub cut_object : Bytes → Bytes → Option ℕ → Option Bytes × Bytes
cut_object buffer rest none = (none, buffer)
cut_object buffer rest (some n) = (some (take n rest), drop n rest)

unfoldable pub extract_trimmed : Bytes → Bytes → Option Bytes × Bytes
unfolding cut_object
extract_trimmed buffer [] = (none, [])
extract_trimmed buffer (ch ∷ rest) =
    if ch == b'{'
    then cut_object buffer (ch ∷ rest) (find_end scan_start 0 (ch ∷ rest))
    else (some (ch ∷ rest), [])

-- The result `true` with its `requestText` is `some`; the buffer comes back beside it.
unfoldable pub extract_single_json_object : Bytes → Option Bytes × Bytes
unfolding skip_space extract_trimmed
extract_single_json_object buffer = extract_trimmed buffer (skip_space buffer)
