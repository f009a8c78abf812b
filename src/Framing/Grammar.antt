-- ===== src/Framing/Grammar.antt =====
-- An independent description of the request texts that the framing has to recognise: braces that
-- match, where those inside string literals do not count.
use open_madt.Prelude.{ℕ, ◌≢◌, List, [], ◌∷◌, ◌++◌, Bytes}

-- A byte of a string literal, alone or behind a backslash.
pub data Piece : Type 0 where
  raw : ℕ → Piece
  escaped : ℕ → Piece

pub data Body : Type 0 where
  done : Body
  plain : ℕ → Body → Body
  quoted : List Piece → Body → Body
  group : Body → Body → Body

abbrev pub print_piece : Piece → Bytes
print_piece (raw c) = c ∷ []
print_piece (escaped c) = b'\\' ∷ c ∷ []

abbrev pub print_pieces : List Piece → Bytes
print_pieces [] = []
print_pieces (p ∷ ps) = print_piece p ++ print_pieces ps

abbrev pub print_body : Body → Bytes
print_body done = []
print_body (plain c b) = c ∷ print_body b
print_body (quoted ps b) = b'"' ∷ print_pieces ps ++ b'"' ∷ print_body b
print_body (group inner b) = b'{' ∷ print_body inner ++ b'}' ∷ print_body b

abbrev pub print_object : Body → Bytes
print_object b = b'{' ∷ print_body b ++ b'}' ∷ []

abbrev pub IsPiece : Piece → Type 0
IsPiece (raw c) = (c ≢ b'"') × (c ≢ b'\\')
IsPiece (escaped c) = Unit

abbrev pub ArePieces : List Piece → Type 0
ArePieces [] = Unit
ArePieces (p ∷ ps) = IsPiece p × ArePieces ps

-- A quote or a brace stands only where its constructor puts it.
abbrev pub IsBody : Body → Type 0
IsBody done = Unit
IsBody (plain c b) = (c ≢ b'"') × (c ≢ b'{') × (c ≢ b'}') × IsBody b
IsBody (quoted ps b) = ArePieces ps × IsBody b
IsBody (group inner b) = IsBody inner × IsBody b
