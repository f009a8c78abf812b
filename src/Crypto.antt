-- ===== src/Crypto.antt =====
-- The helpers of madt-server/madt-server.cpp over OpenSSL: hexadecimal and base64 texts, the
-- authentication code and the comparison of secrets. OpenSSL itself is a parameter.
use open_madt.Prelude.{
  ℕ, suc, ◌+◌, ◌-◌, ◌/◌, ◌%◌, Bool, Option, none, some, [], ◌∷◌, Bytes, ◌==◌, ltb, equal, length,
  take, is_empty, if◌then◌else◌,
}
use mathlib.Core.List.{reverse}

pub record CryptoLib : Type 0 where
  -- `EVP_EncodeBlock`
  pub encode_block : Bytes → Bytes
  -- `EVP_DecodeBlock` with its result as the length of the output; `none` if it is negative
  pub decode_block : Bytes → Option Bytes
  -- `HMAC(EVP_sha256(), key, message)`; `none` if it fails
  pub hmac_sha256 : Bytes → Bytes → Option Bytes

unfoldable pub hex_digit : ℕ → ℕ
hex_digit n = if ltb n 10 then b'0' + n else b'a' + (n - 10)

unfoldable pub to_hex : Bytes → Bytes
unfolding hex_digit
to_hex [] = []
to_hex (byte ∷ rest) = hex_digit (byte / 16) ∷ hex_digit (byte % 16) ∷ to_hex rest

-- The loop over the `=` at the end, on the reversed input. The subtraction stops at 0, as the loop.
unfoldable pub count_padding : Bytes → ℕ
count_padding [] = 0
count_padding (c ∷ cs) = let rest = count_padding cs in if c == b'=' then suc rest else 0

-- `secureEquals`: `CRYPTO_memcmp` is 0 exactly at equal bytes.
unfoldable pub secure_equals : Bytes → Bytes → Bool
secure_equals left right = if length left == length right then equal left right else Bool.false

module _ (crypto : CryptoLib) where
  unfoldable pub base64_encode : Bytes → Bytes
  base64_encode input = if is_empty input then [] else crypto.encode_block input

  unfoldable pub base64_decode : Bytes → Option Bytes
  unfolding count_padding
  base64_decode input = if is_empty input then some [] else elim (crypto.decode_block input) [
    | none ↦ none
    | some decoded ↦ some (take (length decoded - count_padding (reverse input)) decoded)
  ]

  -- The empty text if the library fails.
  unfoldable pub compute_hmac_sha256 : Bytes → Bytes → Bytes
  unfolding to_hex
  compute_hmac_sha256 key message = elim (crypto.hmac_sha256 key message) [
    | none ↦ []
    | some digest ↦ to_hex digest
  ]

  -- The argument is what `RAND_bytes` filled in, `none` if it failed.
  unfoldable pub generate_random_token : Option Bytes → Option Bytes
  unfolding base64_encode
  generate_random_token none = none
  generate_random_token (some bytes) = some (base64_encode bytes)
