-- ===== src/Server/Auth.antt =====
-- Authorization by password and by control nonces (madt-server/madt-server.cpp).
use open_madt.Prelude.{
  ℕ, ◌+◌, Bool, true, false, ◌&&◌, ◌||◌, not, Option, none, some, ◌++◌, Bytes, codes, ltb, equal,
  is_empty, if◌then◌else◌,
}
use open_madt.Prelude.Int.{pos_part}
use open_madt.Prelude.Map.{Map, lookup, insert, erase, bytes_key}
use open_madt.Json.{JsonLib}
use open_madt.Json.Access.{string_field}
use open_madt.Crypto.{CryptoLib, base64_decode, secure_equals, compute_hmac_sha256}
use open_madt.Server.State.{ControlNonce, Server, Moment, seconds}

-- The three texts of a control token.
pub record Token : Type 0 where
  pub nonce_id : Bytes
  pub timestamp : Bytes
  pub auth : Bytes

-- The message that a token authenticates.
unfoldable pub control_message : Bytes → Bytes → Bytes → Bytes → Bytes
control_message req_name nonce_id nonce timestamp =
    req_name ++ codes "\n" ++ nonce_id ++ codes "\n" ++ nonce ++ codes "\n" ++ timestamp

abbrev pub Nonces : Type 0
Nonces = Map Bytes ControlNonce

abbrev pub mark_used : ControlNonce → ControlNonce
mark_used n = record n { used = true }

module _ {J : Type 0} (lib : JsonLib J) (crypto : CryptoLib) where
  unfoldable pub authorize_with_password : J → Bytes → Bool
  authorize_with_password request password =
      if is_empty password then true else elim (string_field lib request "password") [
        | none ↦ false
        | some given ↦ equal given password
      ]

  unfoldable pub token_fields : J → Option Token
  token_fields token = elim (string_field lib token "nonceId") [
    | none ↦ none
    | some nonce_id ↦ elim (string_field lib token "timestamp") [
      | none ↦ none
      | some timestamp ↦ elim (string_field lib token "auth") [
        | none ↦ none
        | some auth ↦ some (record { nonce_id = nonce_id; timestamp = timestamp; auth = auth })
      ]
    ]
  ]

  -- From the password of a request to its token; `none` where `authorizeControlRequest` gives up.
  unfoldable pub read_token : J → Option Token
  unfolding token_fields
  read_token request = elim (string_field lib request "password") [
    | none ↦ none
    | some password ↦ elim (base64_decode crypto password) [
      | none ↦ none
      | some decoded ↦ elim (lib.parse decoded) [
        | none ↦ none
        | some token ↦ if lib.is_object token then token_fields token else none
      ]
    ]
  ]

  -- A nonce that is unknown, used or over is refused.
  unfoldable pub nonce_usable : ℕ → Option ControlNonce → Bool
  nonce_usable now none = false
  nonce_usable now (some n) = not (n.used || ltb n.expires_at now)

  -- The authentication code that the token has to show.
  unfoldable pub auth_matches : Bytes → Bytes → Token → Bytes → Bool
  unfolding control_message
  auth_matches psk req_name token nonce =
      let expected =
        compute_hmac_sha256 crypto psk
          (control_message req_name token.nonce_id nonce token.timestamp) in
      not (is_empty expected) && secure_equals expected token.auth

  -- The part of `authorizeControlRequest` over `controlNonces`.
  unfoldable pub consume_nonce : Bytes → Bytes → ℕ → Token → Nonces → Bool × Nonces
  unfolding nonce_usable auth_matches
  consume_nonce psk req_name now token nonces = elim (lookup token.nonce_id nonces) [
    | none ↦ (false, erase token.nonce_id nonces)
    | some n ↦
        if nonce_usable now (some n)
        then (if auth_matches psk req_name token n.nonce
            then (true, insert token.nonce_id (mark_used n) nonces)
            else (false, nonces))
        else (false, erase token.nonce_id nonces)
  ]

  unfoldable pub authorize_control_request : J → Bytes → ℕ → Server J → Bool × Nonces
  unfolding authorize_with_password consume_nonce
  authorize_control_request request req_name now s =
      if is_empty s.runtime_config.control_psk
      then (authorize_with_password request s.runtime_config.control_password, s.control_nonces)
      else elim (read_token request) [
        | none ↦ (false, s.control_nonces)
        | some token ↦
            consume_nonce s.runtime_config.control_psk req_name now token s.control_nonces
      ]

  -- The nonce that `handleGetRandom` stores.
  unfoldable pub fresh_nonce : Server J → Moment → Bytes → ControlNonce
  fresh_nonce s m nonce = record {
    nonce = nonce;
    expires_at = m.now + seconds (pos_part s.runtime_config.control_nonce_ttl_seconds);
    used = false;
  }
