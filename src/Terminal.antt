-- ===== src/Terminal.antt =====
-- The server with the browser behind it: the functions of madt-server/gui.cpp hand the calls on to the
-- slots of madt-server/Browser.cpp.
pub mod Tabs
use open_madt.Prelude.{ℕ, Bytes}
use open_madt.Json.{JsonLib}
use open_madt.Json.Access.{Outcome}
use open_madt.Gui.{ResultCode, GuiCall, GuiReply, GuiLib}
use open_madt.Browser.{Browser}
use open_madt.Browser.Handlers.{
  on_new_web_tab, on_kill_tab, on_navigate_to, on_activate_tab, on_get_tab_map, on_new_shortcut,
  on_kill_shortcut, on_get_shortcuts,
}

-- The browser, or that it has run into undefined behaviour.
abbrev pub Shown : Type 0 → Type 0
Shown J = Outcome (Browser J)

module _ {J : Type 0} (lib : JsonLib J) where
  unfoldable pub reply_of : Outcome (ResultCode × Browser J) → GuiReply J × Shown J
  reply_of (Outcome.ok (code, b)) = (GuiReply.answered code lib.null, Outcome.ok b)
  reply_of Outcome.throws = (GuiReply.refused, Outcome.throws)
  reply_of Outcome.undefined = (GuiReply.refused, Outcome.undefined)

  abbrev pub reply_now : ResultCode × Browser J → GuiReply J × Shown J
  reply_now (code, b) = (GuiReply.answered code lib.null, Outcome.ok b)

  abbrev pub report : Browser J → ResultCode × J → GuiReply J × Shown J
  report b (code, payload) = (GuiReply.answered code payload, Outcome.ok b)

-- `widgets` answers the calls that change no tab and no shortcut: blinking, the size of the window,
-- screenshots, sounds, and backlight and volume as parts of the settings.
module _ {J : Type 0} (lib : JsonLib J) (widgets : Browser J → GuiCall J → GuiReply J) where
  unfoldable pub call_browser : Browser J → GuiCall J → GuiReply J × Shown J
  unfolding reply_of
  call_browser b (GuiCall.new_web_tab url icon_url preferred_pos flags uuid) =
      reply_of lib (on_new_web_tab url icon_url preferred_pos flags uuid b)
  call_browser b (GuiCall.kill_tab uuid force) = reply_now lib (on_kill_tab uuid force b)
  call_browser b (GuiCall.activate_tab uuid) =
      (GuiReply.answered (on_activate_tab uuid b) lib.null, Outcome.ok b)
  call_browser b (GuiCall.navigate_to uuid url) = reply_of lib (on_navigate_to uuid url b)
  call_browser b GuiCall.get_characteristics = (widgets b GuiCall.get_characteristics, Outcome.ok b)
  call_browser b GuiCall.get_tab_map = report lib b (on_get_tab_map lib b)
  call_browser b (GuiCall.blink_tab uuid) = (widgets b (GuiCall.blink_tab uuid), Outcome.ok b)
  call_browser b (GuiCall.capture_screenshot file) =
      (widgets b (GuiCall.capture_screenshot file), Outcome.ok b)
  call_browser b (GuiCall.apply_settings settings) = (
    widgets b (GuiCall.apply_settings settings),
    Outcome.ok (record b { current_settings = settings }),
  )
  call_browser b (GuiCall.play_sound id flags file player) =
      (widgets b (GuiCall.play_sound id flags file player), Outcome.ok b)
  call_browser b (GuiCall.new_shortcut url icon_url preferred_pos flags id) =
      reply_now lib (on_new_shortcut url icon_url preferred_pos flags id b)
  call_browser b (GuiCall.kill_shortcut id) = reply_now lib (on_kill_shortcut id b)
  call_browser b GuiCall.get_shortcuts = report lib b (on_get_shortcuts lib b)

  unfoldable pub call_shown : Shown J → GuiCall J → GuiReply J × Shown J
  unfolding call_browser
  call_shown (Outcome.ok b) c = call_browser b c
  call_shown Outcome.throws c = (GuiReply.refused, Outcome.throws)
  call_shown Outcome.undefined c = (GuiReply.refused, Outcome.undefined)

  abbrev pub browser_gui : GuiLib J (Shown J)
  browser_gui = record { call = call_shown }
