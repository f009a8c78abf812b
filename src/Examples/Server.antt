-- ===== src/Examples/Server.antt =====
-- The server at concrete requests.
use open_madt.Prelude.{
  true, false, none, List, [], ◌∷◌, ◌++◌, Bytes, codes, ◌≡◌, ◌≢◌, refl, arith, length, has, equal,
  is_empty, if◌then◌else◌,
}
use open_madt.Prelude.Int.{pos}
use open_madt.Prelude.Map.{lookup, insert, bytes_key, nat_key}
use open_madt.Json.Access.{Outcome}
use open_madt.Crypto.{compute_hmac_sha256, secure_equals}
use open_madt.Framing.{extract_single_json_object, find_end, scan_byte}
use open_madt.Server.State.{ControlNonce, World}
use open_madt.Server.Leases.{prune_expired_tabs, close_connection}
use open_madt.Server.Auth.{Token, Nonces, consume_nonce, mark_used}
use open_madt.Server.Replay.{Accepts, IsSpentIn, consume_nonce-Accepts, no_replay}
use open_madt.Server.Control.{handle_stop, handle_restart}
use open_madt.Server.Dispatch.{serve_text, request, buffer_with}
use open_madt.Server.Stream.{
  AnsweredOnce, addressed, frames, serve_text-AnsweredOnce, request-ne-none, request-Answered,
}
use open_madt.Server.Ownership.{IsOwned}
use open_madt.Server.Kept.{serve_text-IsOwned, serve_text-IsSpent}
use open_madt.Server.Expiry.{lease_at, nonce_at, prune_expired_tabs-expiry}
use open_madt.Server.Closing.{tabs_of, close_connection-leases}
use open_madt.Server.Authority.{left_by, stop_restart-eq}
use open_madt.Terminal.{Shown}
use open_madt.Examples.Docs.{Doc, nothing, settings_text, docs, crypto, gui, server, world, moment}

abbrev psk : Bytes
psk = codes "k"

abbrev stored : ControlNonce
stored = record { nonce = codes "n"; expires_at = 20; used = false }

abbrev nonces : Nonces
nonces = (codes "i", stored) ∷ []

abbrev left : Nonces
left = (codes "i", mark_used stored) ∷ []

abbrev token : Token
token = record {
  nonce_id = codes "i";
  timestamp = codes "now";
  auth = codes "6b53746f700a690a6e0a6e6f77";
}

accepted : consume_nonce docs crypto psk (codes "Stop") 9 token nonces ≡ (true, left)
unfolding consume_nonce lookup equal is_empty compute_hmac_sha256 secure_equals insert
accepted = refl

consume_nonce-Accepts_example : Accepts docs crypto psk (codes "Stop") 9 token nonces left
consume_nonce-Accepts_example =
    consume_nonce-Accepts docs crypto psk (codes "Stop") 9 token nonces left accepted

no_replay_example : (consume_nonce docs crypto psk (codes "Restart") 10 token left).0 ≡ false
no_replay_example =
    no_replay docs crypto psk (codes "Stop") (codes "Restart") 9 10 token token nonces left accepted
      refl

serve_text-AnsweredOnce_example :
    AnsweredOnce docs crypto gui
      (codes "1")
      1
      []
      (serve_text docs crypto gui (codes "1") 1 moment settings_text world).0
      (serve_text docs crypto gui (codes "1") 1 moment settings_text world).1.sent
serve_text-AnsweredOnce_example =
    serve_text-AnsweredOnce docs crypto gui (codes "1") 1 moment settings_text world

request-ne-none_example :
    request docs crypto gui (codes "1") (λ i. moment) 1 settings_text world ≢ none
request-ne-none_example =
    request-ne-none docs crypto gui (codes "1") (λ i. moment) 1 settings_text world

-- A first part of a text: no response.
abbrev waiting : World Doc (Shown Doc)
waiting = record world { server = record server { connection_buffers = (1, codes "{") ∷ [] } }

request-Answered_example :
    (rs : List Doc) × (waiting.sent ≡ world.sent ++ addressed docs crypto gui (codes "1") 1 rs)
    × (length rs ≡ length (frames 2 (codes "{")))
unfolding request buffer_with extract_single_json_object find_end scan_byte lookup insert
request-Answered_example =
    request-Answered docs crypto gui (codes "1") (λ i. moment) 1 (codes "{") world waiting refl

server-IsOwned : IsOwned server
unfolding lookup equal is_empty
server-IsOwned = record { owned = ((refl, tt), tt); extra = λ e. absurd (ground arith) }

serve_text-IsOwned_example :
    IsOwned (serve_text docs crypto gui (codes "1") 1 moment settings_text world).1.server
unfolding is_empty
serve_text-IsOwned_example =
    serve_text-IsOwned docs crypto gui (codes "1") 1 moment settings_text world refl server-IsOwned

abbrev spent : World Doc (Shown Doc)
spent = record world { server = record server { control_nonces = left } }

left-IsSpentIn : IsSpentIn (codes "i") left
unfolding lookup equal
left-IsSpentIn n e = ground arith

serve_text-IsSpent_example :
    IsSpentIn
      (codes "i")
      (serve_text docs crypto gui (codes "1") 1 moment settings_text spent).1.server.control_nonces
unfolding equal
serve_text-IsSpent_example =
    serve_text-IsSpent docs crypto gui (codes "1") 1 moment settings_text (codes "i") spent refl
      left-IsSpentIn

prune_expired_tabs-expiry_example :
    (lookup (codes "t") (prune_expired_tabs gui 9 world).server.tab_leases
      ≡ lease_at 9 (lookup (codes "t") server.tab_leases))
    × (lookup (codes "t") (prune_expired_tabs gui 9 world).server.shortcut_leases
        ≡ lease_at 9 (lookup (codes "t") server.shortcut_leases))
    × (lookup (codes "t") (prune_expired_tabs gui 9 world).server.control_nonces
        ≡ nonce_at 9 (lookup (codes "t") server.control_nonces))
unfolding lookup is_empty
prune_expired_tabs-expiry_example =
    prune_expired_tabs-expiry gui 9 (codes "t") world (refl, tt) tt tt refl

close_connection-leases_example :
    (lookup (codes "t") (close_connection gui 1 world).server.tab_leases ≡ (
      if has (lookup (codes "t") (tabs_of 1 server.connection_tabs))
      then none
      else lookup (codes "t") server.tab_leases))
    × (lookup 1 (close_connection gui 1 world).server.connection_tabs ≡ none)
    × (lookup 1 (close_connection gui 1 world).server.connection_buffers ≡ none)
unfolding is_empty
close_connection-leases_example = close_connection-leases gui 1 (codes "t") world refl refl refl

stop_restart-eq_example :
    (handle_stop docs crypto gui 1 moment nothing world
      ≡ (Outcome.ok tt, left_by docs crypto gui (codes "Stop") (pos 0) 1 moment nothing world))
    × (handle_restart docs crypto gui 1 moment nothing world
        ≡ (Outcome.ok tt, left_by docs crypto gui (codes "Restart") (pos 1) 1 moment nothing world))
stop_restart-eq_example = stop_restart-eq docs crypto gui 1 moment nothing world
