-- ===== src/Server/Responses.antt =====
-- Every request is answered once.
use open_madt.Prelude.{ℕ, Bool, true, false, Option, none, some, List, [], ◌∷◌, String, Bytes}
use open_madt.Prelude.Int.{ℤ}
use open_madt.Json.{JsonLib}
use open_madt.Crypto.{CryptoLib}
use open_madt.Gui.{GuiLib, GuiCall}
use open_madt.Server.State.{Moment, M}
use open_madt.Server.Leases.{kill_tab_internal}
use open_madt.Server.Queries.{
  handle_get_info, handle_get_random, handle_get_characteristics, handle_get_tab_map,
  handle_get_shortcuts, handle_get_settings, max_tabs, give_nonce, report_payload,
}
use open_madt.Server.Sound.{handle_play_sound, play}
use open_madt.Server.Tabs.{
  handle_navigate_to, handle_blink_tab, handle_activate_tab, handle_kill_tab, handle_new_web_tab,
  handle_new_shortcut, handle_kill_shortcut, handle_i_am_alive, tab_alive, shortcut_alive, with_ttl,
  alive, alive_for,
}
use open_madt.Server.Control.{
  handle_set_settings, handle_stop, handle_restart, handle_capture_screenshot, set_settings,
  authorize, leave, capture,
}
use open_madt.Server.Dispatch.{
  RequestCode, get_random, get_info, play_sound, get_settings, stop, restart, get_characteristics,
  new_web_tab, new_vnc_tab, new_shortcut, navigate_to, blink_tab, activate_tab, kill_tab,
  kill_shortcut, i_am_alive, get_tab_map, get_shortcuts, capture_screenshot, unknown, dispatch,
}
use open_madt.Server.Rules.{Silent, Replies, reply_rules}

module _ {J G : Type 0} (lib : JsonLib J) (crypto : CryptoLib) (gui : GuiLib J G) (bev : ℕ) where
  Silent-kill_tab_internal : (id : Bytes) (force : Bool) → Silent (kill_tab_internal gui id force)
  unfolding kill_tab_internal
  Silent-kill_tab_internal id force = search reply_rules

  Silent-authorize :
      (request : J) (name : Bytes) (m : Moment) → Silent (authorize lib crypto gui request name m)
  unfolding authorize
  Silent-authorize request name m = search reply_rules

  Replies-give_nonce :
      (m : Moment) (nonce : Option Bytes) → Replies bev (give_nonce lib crypto gui bev m nonce)
  unfolding give_nonce
  Replies-give_nonce m none = search reply_rules
  Replies-give_nonce m (some nonce) = search reply_rules

  Replies-get_random : (m : Moment) → Replies bev (handle_get_random lib crypto gui bev m)
  unfolding handle_get_random
  Replies-get_random m = search (reply_rules, Replies-give_nonce)

  Replies-report_payload :
      (query : GuiCall J) (before : List (String × J)) (key : String) (request : J)
      → Replies bev (report_payload lib crypto gui query before key bev request)
  unfolding report_payload
  Replies-report_payload query before key request = search reply_rules

  Replies-play : (sound : Option (Bytes × ℕ)) → Replies bev (play lib gui bev sound)
  unfolding play
  Replies-play none = search reply_rules
  Replies-play (some (id, flags)) = search reply_rules

  Replies-kill_shortcut : (request : J) → Replies bev (handle_kill_shortcut lib gui bev request)
  unfolding handle_kill_shortcut
  Replies-kill_shortcut request = search reply_rules depth 8

  Replies-tab_alive :
      (m : Moment) (ttl : ℤ) (id : Bytes) → Replies bev (tab_alive lib gui bev m ttl id)
  unfolding tab_alive
  Replies-tab_alive m ttl id = search (reply_rules, Silent-kill_tab_internal) depth 8

  Replies-shortcut_alive :
      (m : Moment) (ttl : ℤ) (id : Bytes) → Replies bev (shortcut_alive lib gui bev m ttl id)
  unfolding shortcut_alive
  Replies-shortcut_alive m ttl id = search (reply_rules, Replies-kill_shortcut) depth 8

  Replies-with_ttl :
      (v : J) (act : ℤ → M J G (Unit {0}))
      → ((ttl : ℤ) → Replies bev (act ttl))
      → Replies bev (with_ttl lib gui bev v act)
  unfolding with_ttl
  Replies-with_ttl v act h = search reply_rules

  Replies-alive :
      (m : Moment) (v : J) (tab shortcut : Option Bytes)
      → Replies bev (alive lib gui bev m v tab shortcut)
  unfolding alive
  Replies-alive m v (some id) none = Replies-with_ttl v _ (λ ttl. Replies-tab_alive m ttl id)
  Replies-alive m v none (some id) = Replies-with_ttl v _ (λ ttl. Replies-shortcut_alive m ttl id)
  Replies-alive m v none none = search reply_rules
  Replies-alive m v (some id) (some other) = search reply_rules

  Replies-alive_for :
      (m : Moment) (request : J) (v : Option J) → Replies bev (alive_for lib gui bev m request v)
  unfolding alive_for
  Replies-alive_for m request none = search reply_rules
  Replies-alive_for m request (some v) = Replies-alive m v _ _

  Replies-new_web_tab :
      (m : Moment) (request : J) → Replies bev (handle_new_web_tab lib gui bev m request)
  unfolding handle_new_web_tab
  Replies-new_web_tab m request = search reply_rules depth 12

  Replies-new_shortcut :
      (m : Moment) (request : J) → Replies bev (handle_new_shortcut lib gui bev m request)
  unfolding handle_new_shortcut
  Replies-new_shortcut m request = search reply_rules depth 12

  Replies-kill_tab : (request : J) → Replies bev (handle_kill_tab lib gui bev request)
  unfolding handle_kill_tab
  Replies-kill_tab request = search (reply_rules, Silent-kill_tab_internal) depth 8

  Replies-set_settings :
      (swvers : Bytes) (m : Moment) (request : J) (error : Option String)
      → Replies bev (set_settings lib crypto gui swvers bev m request error)
  unfolding set_settings
  Replies-set_settings swvers m request (some error) = search reply_rules
  Replies-set_settings swvers m request none = search reply_rules depth 10

  Replies-leave :
      (name : Bytes) (code : ℤ) (m : Moment) (request : J)
      → Replies bev (leave lib crypto gui name code bev m request)
  unfolding leave
  Replies-leave name code m request = search (reply_rules, Silent-authorize) depth 8

  Replies-capture :
      (allowed : Bool) (file : Option Bytes) → Replies bev (capture lib crypto gui bev allowed file)
  unfolding capture
  Replies-capture true (some file) = search reply_rules depth 8
  Replies-capture true none = search reply_rules
  Replies-capture false file = search reply_rules

  Replies-capture_screenshot :
      (m : Moment) (request : J)
      → Replies bev (handle_capture_screenshot lib crypto gui bev m request)
  unfolding handle_capture_screenshot
  Replies-capture_screenshot m request = search (reply_rules, Silent-authorize, Replies-capture)

  Replies-get_info : (swvers : Bytes) → Replies bev (handle_get_info lib crypto gui swvers bev)
  unfolding handle_get_info
  Replies-get_info swvers = search reply_rules

  Replies-get_characteristics : Replies bev (handle_get_characteristics lib crypto gui bev)
  unfolding handle_get_characteristics
  Replies-get_characteristics = search reply_rules depth 8

  Replies-get_settings : Replies bev (handle_get_settings lib crypto gui bev)
  unfolding handle_get_settings
  Replies-get_settings = search reply_rules

  Replies-navigate_to : (request : J) → Replies bev (handle_navigate_to lib gui bev request)
  unfolding handle_navigate_to
  Replies-navigate_to request = search reply_rules depth 8

  Replies-blink_tab : (request : J) → Replies bev (handle_blink_tab lib gui bev request)
  unfolding handle_blink_tab
  Replies-blink_tab request = search reply_rules depth 8

  Replies-activate_tab : (request : J) → Replies bev (handle_activate_tab lib gui bev request)
  unfolding handle_activate_tab
  Replies-activate_tab request = search reply_rules depth 8

  pub Replies-dispatch :
      (swvers : Bytes) (m : Moment) (request : J) (code : RequestCode)
      → Replies bev (dispatch lib crypto gui swvers bev m request code)
  unfolding dispatch handle_get_tab_map handle_get_shortcuts handle_play_sound handle_i_am_alive
      handle_set_settings handle_stop handle_restart
  Replies-dispatch swvers m request get_random = Replies-get_random m
  Replies-dispatch swvers m request get_info = Replies-get_info swvers
  Replies-dispatch swvers m request get_settings = Replies-get_settings
  Replies-dispatch swvers m request play_sound = Replies-play _
  Replies-dispatch swvers m request RequestCode.set_settings =
      Replies-set_settings swvers m request _
  Replies-dispatch swvers m request get_characteristics = Replies-get_characteristics
  Replies-dispatch swvers m request get_tab_map =
      Replies-report_payload GuiCall.get_tab_map (("maxTabs", lib.int max_tabs) ∷ []) "tabMap"
        request
  Replies-dispatch swvers m request get_shortcuts =
      Replies-report_payload GuiCall.get_shortcuts [] "shortcuts" request
  Replies-dispatch swvers m request navigate_to = Replies-navigate_to request
  Replies-dispatch swvers m request i_am_alive = Replies-alive_for m request _
  Replies-dispatch swvers m request stop = Replies-leave _ _ m request
  Replies-dispatch swvers m request restart = Replies-leave _ _ m request
  Replies-dispatch swvers m request new_web_tab = Replies-new_web_tab m request
  Replies-dispatch swvers m request new_shortcut = Replies-new_shortcut m request
  Replies-dispatch swvers m request activate_tab = Replies-activate_tab request
  Replies-dispatch swvers m request kill_tab = Replies-kill_tab request
  Replies-dispatch swvers m request kill_shortcut = Replies-kill_shortcut request
  Replies-dispatch swvers m request capture_screenshot = Replies-capture_screenshot m request
  Replies-dispatch swvers m request blink_tab = Replies-blink_tab request
  Replies-dispatch swvers m request new_vnc_tab = search reply_rules
  Replies-dispatch swvers m request unknown = search reply_rules
