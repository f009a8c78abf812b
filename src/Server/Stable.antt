-- ===== src/Server/Stable.antt =====
-- Invariants of the server: a property that the updates of its members preserve survives every
-- request, whatever the request holds and however it ends.
use open_madt.Prelude.{ℕ, Bool, true, false, Option, none, some, List, [], ◌∷◌, String, Bytes}
use open_madt.Prelude.Int.{ℤ}
use open_madt.Prelude.Map.{insert, bytes_key}
use open_madt.Json.{JsonLib}
use open_madt.Json.Access.{Outcome}
use open_madt.Settings.{SettingsState}
use open_madt.Crypto.{CryptoLib}
use open_madt.Gui.{GuiLib, GuiCall, GuiReply}
use open_madt.Server.State.{
  Server, World, Moment, M, modify, send_response, request_exit, gui_call, ◌>>=◌,
}
use open_madt.Server.Leases.{after_kill, kill_tab_internal, renew_tab, renew_shortcut}
use open_madt.Server.Auth.{authorize_control_request, fresh_nonce}
use open_madt.Server.Queries.{
  handle_get_info, handle_get_random, handle_get_characteristics, handle_get_settings, give_nonce,
  report_payload, max_tabs, handle_get_tab_map, handle_get_shortcuts,
}
use open_madt.Server.Sound.{handle_play_sound, play}
use open_madt.Server.Tabs.{
  handle_navigate_to, handle_blink_tab, handle_activate_tab, handle_kill_tab, handle_new_web_tab,
  handle_new_shortcut, handle_kill_shortcut, handle_i_am_alive, tab_alive, shortcut_alive, with_ttl,
  alive, alive_for, adopt_tab, adopt_shortcut, release_shortcut,
}
use open_madt.Server.Control.{
  handle_set_settings, handle_stop, handle_restart, handle_capture_screenshot, set_settings,
  authorize, leave, capture, adopt_settings,
}
use open_madt.Server.Dispatch.{
  RequestCode, get_random, get_info, play_sound, get_settings, stop, restart, get_characteristics,
  new_web_tab, new_vnc_tab, new_shortcut, navigate_to, blink_tab, activate_tab, kill_tab,
  kill_shortcut, i_am_alive, get_tab_map, get_shortcuts, capture_screenshot, unknown, dispatch,
  attempt, recover, serve_text,
}
use open_madt.Server.Rules.{Keeps, keeps_rules}

module _ {J G : Type 0} (lib : JsonLib J) (crypto : CryptoLib) (gui : GuiLib J G)
    (swvers : Bytes) where
  -- The updates that a request of this connection can make at this moment preserve `P`.
  pub record Stable (bev : ℕ) (m : Moment) (P : Server J → Type 0) : Type 0 where
    pub adopted :
        (pos : ℤ) (reply : GuiReply J) (s : Server J)
        → P s
        → P (adopt_tab lib gui bev m.uuid pos reply s)
    pub killed :
        (id : Bytes) (force : Bool) (reply : GuiReply J) (s : Server J)
        → P s
        → P (after_kill id force reply s)
    pub renewed : (id : Bytes) (deadline : ℕ) (s : Server J) → P s → P (renew_tab id deadline s)
    pub shortcut_adopted :
        (reply : GuiReply J) (s : Server J) → P s → P (adopt_shortcut lib gui m.uuid reply s)
    pub shortcut_released :
        (id : Bytes) (reply : GuiReply J) (s : Server J)
        → P s
        → P (release_shortcut lib gui id reply s)
    pub shortcut_renewed :
        (id : Bytes) (deadline : ℕ) (s : Server J) → P s → P (renew_shortcut id deadline s)
    pub settings_adopted :
        (settings : SettingsState J) (reply : GuiReply J) (s : Server J)
        → P s
        → P (adopt_settings swvers m settings reply s)
    pub nonce_added :
        (nonce : Bytes) (before s : Server J)
        → P s
        → P (record s {
          control_nonces = insert m.uuid (fresh_nonce lib crypto before m nonce) s.control_nonces;
        })
    pub authorized :
        (request : J) (name : Bytes) (s : Server J)
        → P s
        → P (record s {
          control_nonces = (authorize_control_request lib crypto request name m.now s).1;
        })

  module _ (bev : ℕ) (m : Moment) (P : Server J → Type 0) (stable : Stable bev m P) (Q : G → Type 0)
      (asked : (g : G) (c : GuiCall J) → Q g → Q (gui.call g c).1) where
    -- The two properties, of the server and of the user interface, as one of the world.
    abbrev Holds : World J G → Type 0
    Holds w = P w.server × Q w.gui

    Keeps-modify :
        (f : Server J → Server J) → ((s : Server J) → P s → P (f s)) → Keeps Holds (modify f)
    unfolding modify
    Keeps-modify f h = record { at = λ w k. (h w.server k.0, k.1) }

    Keeps-send : (response : J) → Keeps Holds (send_response bev response)
    unfolding send_response
    Keeps-send response = record { at = λ w k. k }

    Keeps-request_exit : (code : ℤ) → Keeps Holds (request_exit code)
    unfolding request_exit
    Keeps-request_exit code = record { at = λ w k. k }

    Keeps-gui_call : (c : GuiCall J) → Keeps Holds (gui_call gui c)
    unfolding gui_call
    Keeps-gui_call c = record { at = λ w k. (k.0, asked w.gui c k.1) }

    ruleset stable_rules =
        (keeps_rules, Keeps-modify, Keeps-send, Keeps-request_exit, Keeps-gui_call)

    Keeps-kill_tab_internal :
        (id : Bytes) (force : Bool) → Keeps Holds (kill_tab_internal gui id force)
    unfolding kill_tab_internal
    Keeps-kill_tab_internal id force = search (stable_rules, stable.killed) depth 8

    Keeps-authorize :
        (request : J) (name : Bytes) → Keeps Holds (authorize lib crypto gui request name m)
    unfolding authorize ◌>>=◌ modify
    Keeps-authorize request name = record {
      at = λ w k. (stable.authorized request name w.server k.0, k.1);
    }

    Keeps-give_nonce : (nonce : Option Bytes) → Keeps Holds (give_nonce lib crypto gui bev m nonce)
    unfolding give_nonce
    Keeps-give_nonce none = search stable_rules
    Keeps-give_nonce (some nonce) = search (stable_rules, stable.nonce_added) depth 8

    Keeps-get_random : Keeps Holds (handle_get_random lib crypto gui bev m)
    unfolding handle_get_random
    Keeps-get_random = search (stable_rules, Keeps-give_nonce)

    Keeps-report_payload :
        (query : GuiCall J) (before : List (String × J)) (key : String) (request : J)
        → Keeps Holds (report_payload lib crypto gui query before key bev request)
    unfolding report_payload
    Keeps-report_payload query before key request = search stable_rules depth 8

    Keeps-play : (sound : Option (Bytes × ℕ)) → Keeps Holds (play lib gui bev sound)
    unfolding play
    Keeps-play none = search stable_rules
    Keeps-play (some (id, flags)) = search stable_rules depth 8

    Keeps-kill_shortcut : (request : J) → Keeps Holds (handle_kill_shortcut lib gui bev request)
    unfolding handle_kill_shortcut
    Keeps-kill_shortcut request = search (stable_rules, stable.shortcut_released) depth 8

    Keeps-tab_alive : (ttl : ℤ) (id : Bytes) → Keeps Holds (tab_alive lib gui bev m ttl id)
    unfolding tab_alive
    Keeps-tab_alive ttl id = search (stable_rules, stable.renewed, Keeps-kill_tab_internal) depth 8

    Keeps-shortcut_alive :
        (ttl : ℤ) (id : Bytes) → Keeps Holds (shortcut_alive lib gui bev m ttl id)
    unfolding shortcut_alive
    Keeps-shortcut_alive ttl id =
        search (stable_rules, stable.shortcut_renewed, Keeps-kill_shortcut) depth 8

    Keeps-with_ttl :
        (v : J) (act : ℤ → M J G (Unit {0}))
        → ((ttl : ℤ) → Keeps Holds (act ttl))
        → Keeps Holds (with_ttl lib gui bev v act)
    unfolding with_ttl
    Keeps-with_ttl v act h = search stable_rules

    Keeps-alive :
        (v : J) (tab shortcut : Option Bytes) → Keeps Holds (alive lib gui bev m v tab shortcut)
    unfolding alive
    Keeps-alive v (some id) none = Keeps-with_ttl v _ (λ ttl. Keeps-tab_alive ttl id)
    Keeps-alive v none (some id) = Keeps-with_ttl v _ (λ ttl. Keeps-shortcut_alive ttl id)
    Keeps-alive v none none = search stable_rules
    Keeps-alive v (some id) (some other) = search stable_rules

    Keeps-alive_for : (request : J) (v : Option J) → Keeps Holds (alive_for lib gui bev m request v)
    unfolding alive_for
    Keeps-alive_for request none = search stable_rules
    Keeps-alive_for request (some v) = Keeps-alive v _ _

    Keeps-new_web_tab : (request : J) → Keeps Holds (handle_new_web_tab lib gui bev m request)
    unfolding handle_new_web_tab
    Keeps-new_web_tab request = search (stable_rules, stable.adopted) depth 12

    Keeps-new_shortcut : (request : J) → Keeps Holds (handle_new_shortcut lib gui bev m request)
    unfolding handle_new_shortcut
    Keeps-new_shortcut request = search (stable_rules, stable.shortcut_adopted) depth 12

    Keeps-kill_tab : (request : J) → Keeps Holds (handle_kill_tab lib gui bev request)
    unfolding handle_kill_tab
    Keeps-kill_tab request = search (stable_rules, Keeps-kill_tab_internal) depth 8

    Keeps-set_settings :
        (request : J) (error : Option String)
        → Keeps Holds (set_settings lib crypto gui swvers bev m request error)
    unfolding set_settings
    Keeps-set_settings request (some error) = search stable_rules
    Keeps-set_settings request none = search (stable_rules, stable.settings_adopted) depth 10

    Keeps-leave :
        (name : Bytes) (code : ℤ) (request : J)
        → Keeps Holds (leave lib crypto gui name code bev m request)
    unfolding leave
    Keeps-leave name code request = search (stable_rules, Keeps-authorize) depth 8

    Keeps-capture :
        (allowed : Bool) (file : Option Bytes)
        → Keeps Holds (capture lib crypto gui bev allowed file)
    unfolding capture
    Keeps-capture true (some file) = search stable_rules depth 8
    Keeps-capture true none = search stable_rules
    Keeps-capture false file = search stable_rules

    Keeps-capture_screenshot :
        (request : J) → Keeps Holds (handle_capture_screenshot lib crypto gui bev m request)
    unfolding handle_capture_screenshot
    Keeps-capture_screenshot request = search (stable_rules, Keeps-authorize, Keeps-capture)

    Keeps-get_characteristics : Keeps Holds (handle_get_characteristics lib crypto gui bev)
    unfolding handle_get_characteristics
    Keeps-get_characteristics = search stable_rules depth 8

    Keeps-navigate_to : (request : J) → Keeps Holds (handle_navigate_to lib gui bev request)
    unfolding handle_navigate_to
    Keeps-navigate_to request = search stable_rules depth 8

    Keeps-blink_tab : (request : J) → Keeps Holds (handle_blink_tab lib gui bev request)
    unfolding handle_blink_tab
    Keeps-blink_tab request = search stable_rules depth 8

    Keeps-activate_tab : (request : J) → Keeps Holds (handle_activate_tab lib gui bev request)
    unfolding handle_activate_tab
    Keeps-activate_tab request = search stable_rules depth 8

    Keeps-dispatch :
        (request : J) (code : RequestCode)
        → Keeps Holds (dispatch lib crypto gui swvers bev m request code)
    unfolding dispatch handle_get_tab_map handle_get_shortcuts handle_play_sound handle_i_am_alive
        handle_set_settings handle_stop handle_restart handle_get_info handle_get_settings
    Keeps-dispatch request get_random = Keeps-get_random
    Keeps-dispatch request get_info = search stable_rules
    Keeps-dispatch request get_settings = search stable_rules
    Keeps-dispatch request play_sound = Keeps-play _
    Keeps-dispatch request RequestCode.set_settings = Keeps-set_settings request _
    Keeps-dispatch request get_characteristics = Keeps-get_characteristics
    Keeps-dispatch request get_tab_map =
        Keeps-report_payload GuiCall.get_tab_map (("maxTabs", lib.int max_tabs) ∷ []) "tabMap"
          request
    Keeps-dispatch request get_shortcuts =
        Keeps-report_payload GuiCall.get_shortcuts [] "shortcuts" request
    Keeps-dispatch request navigate_to = Keeps-navigate_to request
    Keeps-dispatch request i_am_alive = Keeps-alive_for request _
    Keeps-dispatch request stop = Keeps-leave _ _ request
    Keeps-dispatch request restart = Keeps-leave _ _ request
    Keeps-dispatch request new_web_tab = Keeps-new_web_tab request
    Keeps-dispatch request new_shortcut = Keeps-new_shortcut request
    Keeps-dispatch request activate_tab = Keeps-activate_tab request
    Keeps-dispatch request kill_tab = Keeps-kill_tab request
    Keeps-dispatch request kill_shortcut = Keeps-kill_shortcut request
    Keeps-dispatch request capture_screenshot = Keeps-capture_screenshot request
    Keeps-dispatch request blink_tab = Keeps-blink_tab request
    Keeps-dispatch request new_vnc_tab = search stable_rules
    Keeps-dispatch request unknown = search stable_rules

    Keeps-attempt : (text : Bytes) → Keeps Holds (attempt lib crypto gui swvers bev m text)
    unfolding attempt
    Keeps-attempt text = search (stable_rules, Keeps-dispatch) depth 8

    recovered :
        (r : Outcome (Unit {0})) (w : World J G)
        → Holds w
        → Holds (recover lib crypto gui swvers bev (r, w)).1
    unfolding recover send_response
    recovered (Outcome.ok u) w h = h
    recovered Outcome.throws w h = h
    recovered Outcome.undefined w h = h

    serve_text-both :
        (text : Bytes) (w : World J G)
        → Holds w
        → Holds (serve_text lib crypto gui swvers bev m text w).1
    unfolding serve_text
    serve_text-both text w h =
        let (r, w') = attempt lib crypto gui swvers bev m text w in
        recovered r w' ((Keeps-attempt text).at w h)

  -- A property of the server.
  pub serve_text-Holds :
      (bev : ℕ) (m : Moment) (P : Server J → Type 0)
      → Stable bev m P
      → (text : Bytes) (w : World J G) → P w.server
      → P (serve_text lib crypto gui swvers bev m text w).1.server
  serve_text-Holds bev m P stable text w h =
      (serve_text-both bev m P stable (λ g. Unit) (λ g c k. tt) text w (h, tt)).0

  nothing-Stable : (bev : ℕ) (m : Moment) → Stable bev m (λ s. Unit)
  nothing-Stable bev m = record {
    adopted = λ preferred reply s k. tt;
    killed = λ id force reply s k. tt;
    renewed = λ id deadline s k. tt;
    shortcut_adopted = λ reply s k. tt;
    shortcut_released = λ id reply s k. tt;
    shortcut_renewed = λ id deadline s k. tt;
    settings_adopted = λ settings reply s k. tt;
    nonce_added = λ nonce before s k. tt;
    authorized = λ request name s k. tt;
  }

  -- A property of the user interface that every call keeps.
  pub serve_text-Asks :
      (bev : ℕ) (m : Moment) (Q : G → Type 0)
      → ((g : G) (c : GuiCall J) → Q g → Q (gui.call g c).1)
      → (text : Bytes) (w : World J G) → Q w.gui
      → Q (serve_text lib crypto gui swvers bev m text w).1.gui
  serve_text-Asks bev m Q asked text w h =
      (serve_text-both bev m (λ s. Unit) (nothing-Stable bev m) Q asked text w (tt, h)).1
