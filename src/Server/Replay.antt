-- ===== src/Server/Replay.antt =====
-- A control nonce authorizes at most one request.
use open_madt.Prelude.{
  ℕ, ◌≤◌, true, false, some, Bytes, ◌≡◌, inl, inr, arith, equal_iff, Option-cases, ap, sym, subst,
}
use open_madt.Prelude.Map.{lookup, insert, bytes_key, lookup-insert, lookup-erase}
use open_madt.Json.{JsonLib}
use open_madt.Crypto.{CryptoLib}
use open_madt.Server.State.{ControlNonce}
use open_madt.Server.Auth.{Token, Nonces, nonce_usable, auth_matches, consume_nonce, mark_used}

-- No request can use a nonce of this id: it is not stored, or it is marked.
abbrev pub IsSpentIn : Bytes → Nonces → Type 0
IsSpentIn id nonces = (n : ControlNonce) → lookup id nonces ≡ some n → n.used ≡ true

module _ {J : Type 0} (lib : JsonLib J) (crypto : CryptoLib) (psk name : Bytes) where
  -- What has to be there for a token to be accepted, and what is left.
  pub record Accepts (now : ℕ) (token : Token) (nonces left : Nonces) : Type 0 where
    pub stored : ControlNonce
    pub found : lookup token.nonce_id nonces ≡ some stored
    pub fresh : stored.used ≡ false
    pub in_time : now ≤ stored.expires_at
    pub authentic : auth_matches lib crypto psk name token stored.nonce ≡ true
    pub marked : left ≡ insert token.nonce_id (mark_used stored) nonces

  -- If a token is accepted, then its nonce was stored, not used and not over, the token shows the
  -- authentication code of its message, and the nonces that are left are those before with this one
  -- marked as used.
  pub consume_nonce-Accepts :
      (now : ℕ) (token : Token) (nonces left : Nonces)
      → consume_nonce lib crypto psk name now token nonces ≡ (true, left)
      → Accepts now token nonces left
  unfolding consume_nonce nonce_usable
  consume_nonce-Accepts now token nonces left h =
      elim (Option-cases (lookup token.nonce_id nonces)) [
        | inl e ↦ absurd (ground arith)
        | inr (n, e) ↦ record {
          stored = n;
          found = e;
          fresh = ground arith;
          in_time = ground arith;
          authentic = ground arith;
          marked = ground arith;
        }
      ]

  -- A token of a spent nonce is refused, and the nonce stays spent.
  consume_nonce-spent :
      (now : ℕ) (token : Token) (nonces : Nonces)
      → IsSpentIn token.nonce_id nonces
      → (consume_nonce lib crypto psk name now token nonces).0 ≡ false
  unfolding consume_nonce nonce_usable
  consume_nonce-spent now token nonces s = elim (Option-cases (lookup token.nonce_id nonces)) [
    | inl e ↦ ground arith
    | inr (n, e) ↦ ground (arith, s n e)
  ]

  -- Whatever token comes, a spent nonce does not become usable.
  pub consume_nonce-IsSpentIn :
      (id : Bytes) (now : ℕ) (token : Token) (nonces : Nonces)
      → IsSpentIn id nonces
      → IsSpentIn id (consume_nonce lib crypto psk name now token nonces).1
  unfolding consume_nonce nonce_usable
  consume_nonce-IsSpentIn id now token nonces s n h =
      elim (Option-cases (lookup token.nonce_id nonces)) [
        | inl e ↦
            ground (arith, lookup-erase token.nonce_id id nonces, s n, equal_iff token.nonce_id id)
        | inr (k, e) ↦ ground (
          arith,
          lookup-erase token.nonce_id id nonces,
          lookup-insert token.nonce_id id (mark_used k) nonces,
          s n,
          equal_iff token.nonce_id id,
        )
      ]

  accepted-IsSpentIn :
      (now : ℕ) (token : Token) (nonces left : Nonces)
      → consume_nonce lib crypto psk name now token nonces ≡ (true, left)
      → IsSpentIn token.nonce_id left
  accepted-IsSpentIn now token nonces left h n found =
      let a = consume_nonce-Accepts now token nonces left h in
      ground (
        arith,
        a.marked,
        ap (lookup token.nonce_id) a.marked,
        lookup-insert token.nonce_id token.nonce_id (mark_used a.stored) nonces,
        equal_iff token.nonce_id token.nonce_id,
      )

-- Once a token was accepted, every token with its nonce is refused: for the same or another request,
-- at any time, whatever it shows.
pub no_replay :
    {J : Type 0} (lib : JsonLib J) (crypto : CryptoLib) (psk name other : Bytes) (now later : ℕ)
    (token again : Token) (nonces left : Nonces)
    → consume_nonce lib crypto psk name now token nonces ≡ (true, left)
    → again.nonce_id ≡ token.nonce_id
    → (consume_nonce lib crypto psk other later again left).0 ≡ false
no_replay lib crypto psk name other now later token again nonces left h e =
    consume_nonce-spent lib crypto psk other later again left (
      subst (λ id. IsSpentIn id left) (sym e)
        (accepted-IsSpentIn lib crypto psk name now token nonces left h))
