-- ===== src/Server/Authority.antt =====
-- What a stop or restart request needs (madt-server/madt-server.cpp).
use open_madt.Prelude.{
  ℕ, some, [], ◌∷◌, ◌++◌, Bytes, codes, ◌≡◌, refl, Bool-cases, inl, inr, if◌then◌else◌,
}
use open_madt.Prelude.Int.{ℤ, pos}
use open_madt.Json.{JsonLib}
use open_madt.Json.Access.{Outcome}
use open_madt.Crypto.{CryptoLib}
use open_madt.Gui.{GuiLib}
use open_madt.Server.State.{
  mtsrc_ok, mtsrc_bad_request, World, Moment, modify, send_response, request_exit, ◌>>=◌,
  code_response,
}
use open_madt.Server.Auth.{authorize_control_request}
use open_madt.Server.Control.{authorize, leave, handle_stop, handle_restart}

module _ {J G : Type 0} (lib : JsonLib J) (crypto : CryptoLib) (gui : GuiLib J G) where
  -- What is left of the world by a request of this name that would end the process with this code.
  abbrev pub left_by : Bytes → ℤ → ℕ → Moment → J → World J G → World J G
  left_by name code bev m request w =
      let result = authorize_control_request lib crypto request name m.now w.server in
      record w {
        server = record w.server { control_nonces = result.1 };
        sent =
            w.sent
            ++ (bev, code_response lib (if result.0 then mtsrc_ok else mtsrc_bad_request)) ∷ [];
        exit_code = if result.0 then some code else w.exit_code;
      }

  leave-eq :
      (name : Bytes) (code : ℤ) (bev : ℕ) (m : Moment) (request : J) (w : World J G)
      → leave lib crypto gui name code bev m request w
        ≡ (Outcome.ok tt, left_by name code bev m request w)
  unfolding leave authorize ◌>>=◌ send_response request_exit modify
  leave-eq name code bev m request w =
      elim (Bool-cases (authorize_control_request lib crypto request name m.now w.server).0) [
        | inl e ↦ rw (e, leave) refl
        | inr e ↦ rw (e, leave) refl
      ]

  -- A stop or restart request ends the process exactly if its control authorization succeeds; it always
  -- gets one response, which says whether it did, and of the server only the nonces change.
  pub stop_restart-eq :
      (bev : ℕ) (m : Moment) (request : J) (w : World J G)
      → (handle_stop lib crypto gui bev m request w
          ≡ (Outcome.ok tt, left_by (codes "Stop") (pos 0) bev m request w))
        × (handle_restart lib crypto gui bev m request w
            ≡ (Outcome.ok tt, left_by (codes "Restart") (pos 1) bev m request w))
  unfolding handle_stop handle_restart
  stop_restart-eq bev m request w = (
    leave-eq (codes "Stop") (pos 0) bev m request w,
    leave-eq (codes "Restart") (pos 1) bev m request w,
  )
