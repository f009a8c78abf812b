-- ===== src/Server/Steps.antt =====
-- The server as a state machine: bytes arrive on a connection, the timer of the cleanup fires, or a
-- connection ends (the callbacks of madt-server/madt-server.cpp), in any order.
use open_madt.Prelude.{
  true, ap, ℕ, zero, suc, Option, none, some, List, [], ◌∷◌, Bytes, ◌≡◌, Option-cases, inl, inr,
  ◌==◌, if◌then◌else◌, if-cases, subst, is_empty, not, ◌||◌, length,
}
use open_madt.Prelude.Map.{Map, lookup, bytes_key, nat_key}
use open_madt.Json.{JsonLib}
use open_madt.Json.Access.{Outcome}
use open_madt.Crypto.{CryptoLib}
use open_madt.Framing.{extract_single_json_object}
use open_madt.Gui.{GuiLib, GuiCall}
use open_madt.Server.State.{World, Moment}
use open_madt.Server.Leases.{
  discard_tab, discard_tabs, discard_shortcut, discard_shortcuts, discard_owned, erase_owned_tabs,
  prune_expired_tabs, close_connection, expired_keys,
}
use open_madt.Server.Dispatch.{request, serve_buffer, serve_text, set_buffer, buffer_with}
use open_madt.Server.Stream.{Outcome-cases}
use open_madt.Server.Stable.{serve_text-Asks}

module _ {J G : Type 0} (lib : JsonLib J) (crypto : CryptoLib) (gui : GuiLib J G)
    (swvers : Bytes) where
  -- One callback of the event loop, from the world before to the world after.
  pub data Step : World J G → World J G → Type 0 where
    bytes_came :
        (moments : ℕ → Moment) (bev : ℕ) (bytes : Bytes) (r : Outcome (Unit {0})) (w w' : World J G)
        → request lib crypto gui swvers moments bev bytes w ≡ some (r, w')
        → Step w w'
    timer_fired : (now : ℕ) (w : World J G) → Step w (prune_expired_tabs gui now w)
    connection_ended : (bev : ℕ) (w : World J G) → Step w (close_connection gui bev w)

  pub data Reaches : World J G → World J G → Type 0 where
    here : (w : World J G) → Reaches w w
    onward : (w w' last : World J G) → Step w w' → Reaches w' last → Reaches w last

  module _ (Q : G → Type 0) (asked : (g : G) (c : GuiCall J) → Q g → Q (gui.call g c).1) where
    discard_tabs-Asks :
        (ids : List Bytes) (w : World J G) → Q w.gui → Q (discard_tabs gui ids w).gui
    unfolding discard_tabs discard_tab
    discard_tabs-Asks [] w h = h
    discard_tabs-Asks (id ∷ ids) w h =
        discard_tabs-Asks ids (discard_tab gui id w) (asked w.gui (GuiCall.kill_tab id true) h)

    discard_shortcuts-Asks :
        (ids : List Bytes) (w : World J G) → Q w.gui → Q (discard_shortcuts gui ids w).gui
    unfolding discard_shortcuts discard_shortcut
    discard_shortcuts-Asks [] w h = h
    discard_shortcuts-Asks (id ∷ ids) w h =
        discard_shortcuts-Asks ids (discard_shortcut gui id w)
          (asked w.gui (GuiCall.kill_shortcut id) h)

    prune-Asks : (now : ℕ) (w : World J G) → Q w.gui → Q (prune_expired_tabs gui now w).gui
    unfolding prune_expired_tabs
    prune-Asks now w h =
        discard_shortcuts-Asks _ _ (discard_tabs-Asks (expired_keys now w.server.tab_leases) w h)

    discard_owned-Asks :
        (tabs : Map Bytes (Unit {0})) (w : World J G) → Q w.gui → Q (discard_owned gui tabs w).gui
    unfolding discard_owned discard_tab
    discard_owned-Asks [] w h = h
    discard_owned-Asks ((id, _) ∷ ids) w h =
        discard_owned-Asks ids (if is_empty id then w else discard_tab gui id w) (
          if-cases (λ (v : World J G). Q v.gui) (is_empty id) w (discard_tab gui id w) (λ e. h)
            (λ e. asked w.gui (GuiCall.kill_tab id true) h))

    close-Asks : (bev : ℕ) (w : World J G) → Q w.gui → Q (close_connection gui bev w).gui
    unfolding close_connection erase_owned_tabs
    close-Asks bev w h =
        if-cases (λ (v : World J G). Q v.gui)
          (not w.server.runtime_config.tab_lifetime_by_connection || bev == 0) _ _ (λ e. h)
          (λ e. elim (Option-cases (lookup bev w.server.connection_tabs)) [
            | inl k ↦ rw k h
            | inr (tabs, k) ↦ rw k (discard_owned-Asks tabs w h)
          ])

    -- The world in which a run ends.
    abbrev ended : World J G → Option (Outcome (Unit {0}) × World J G) → World J G
    ended w none = w
    ended w (some (r, last)) = last

    serve_buffer-Asks :
        (fuel round : ℕ) (moments : ℕ → Moment) (bev : ℕ) (buffer : Bytes) (w w' : World J G)
        (r : Outcome (Unit {0}))
        → serve_buffer lib crypto gui swvers fuel moments round bev buffer w ≡ some (r, w')
        → Q w.gui
        → Q w'.gui
    unfolding serve_buffer
    serve_buffer-Asks zero round moments bev buffer w w' r e h = absurd cc
    serve_buffer-Asks (suc fuel) round moments bev buffer w w' r e h =
        elim (Option-cases (extract_single_json_object buffer).0) [
          | inl k ↦
              let q = rw (k, serve_buffer) at e in
              subst (λ (v : World J G). Q v.gui) (ap (ended w) q) h
          | inr (text, k) ↦
              let start =
                set_buffer lib crypto gui swvers bev (extract_single_json_object buffer).1 w in
              let after = serve_text lib crypto gui swvers bev (moments round) text start in
              let q = rw (k, serve_buffer) at e in
              let one : Q after.1.gui =
                serve_text-Asks lib crypto gui swvers bev (moments round) Q asked text start h in
              elim (Outcome-cases after.0) [
                | inl (u, o) ↦
                    serve_buffer-Asks fuel (suc round) moments bev
                      (extract_single_json_object buffer).1 after.1 w' r (rw (o, serve_buffer) at q)
                      one
                | inr (inl o) ↦
                    subst (λ (v : World J G). Q v.gui) (ap (ended w) (rw (o, serve_buffer) at q))
                      one
                | inr (inr o) ↦
                    subst (λ (v : World J G). Q v.gui) (ap (ended w) (rw (o, serve_buffer) at q))
                      one
              ]
        ]

    step-Asks : (w w' : World J G) → Step w w' → Q w.gui → Q w'.gui
    unfolding request
    step-Asks w w' (bytes_came moments bev bytes r _ _ e) h =
        let buffer = buffer_with lib crypto gui swvers bev bytes w.server in
        serve_buffer-Asks (suc (length buffer)) 0 moments bev buffer
          (set_buffer lib crypto gui swvers bev buffer w) w' r e h
    step-Asks w w' (timer_fired now _) h = prune-Asks now w h
    step-Asks w w' (connection_ended bev _) h = close-Asks bev w h

    -- What every call of the user interface keeps holds in every world that the server reaches.
    pub Reaches-Asks : (w last : World J G) → Reaches w last → Q w.gui → Q last.gui
    Reaches-Asks w last (here _) h = h
    Reaches-Asks w last (onward _ w' _ s more) h = Reaches-Asks w' last more (step-Asks w w' s h)
