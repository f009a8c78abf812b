-- ===== src/Gui.antt =====
-- madt-server/gui.h: what the server can ask of the user interface, and what comes back. The server
-- waits for each answer, and the interface serves its calls in the order in which they come, so a
-- call is a step of the interface's state.
use open_madt.Prelude.{ℕ, Bool, Bytes}
use open_madt.Prelude.Int.{ℤ}
use open_madt.Settings.{SettingsState}

-- `CmdResponse::ResultCode`
pub data ResultCode : Type 0 where
  ok tab_not_found exec_error : ResultCode

pub data GuiCall (J : Type 0) : Type 0 where
  -- url, iconUrl, preferredPos, flags, uuid
  new_web_tab : Bytes → Bytes → ℤ → ℤ → Bytes → GuiCall J
  -- uuid, forceDestroy
  kill_tab : Bytes → Bool → GuiCall J
  activate_tab : Bytes → GuiCall J
  -- uuid, url
  navigate_to : Bytes → Bytes → GuiCall J
  get_characteristics : GuiCall J
  get_tab_map : GuiCall J
  blink_tab : Bytes → GuiCall J
  capture_screenshot : Bytes → GuiCall J
  apply_settings : SettingsState J → GuiCall J
  -- soundId, soundFlags, soundFile, soundPlayerCommand
  play_sound : Bytes → ℕ → Bytes → Bytes → GuiCall J
  -- url, iconUrl, preferredPos, flags, shortcutId
  new_shortcut : Bytes → Bytes → ℤ → ℤ → Bytes → GuiCall J
  kill_shortcut : Bytes → GuiCall J
  get_shortcuts : GuiCall J

-- The function of gui.h returned `false`, or a `CmdResponse` became ready with its payload.
pub data GuiReply (J : Type 0) : Type 0 where
  refused : GuiReply J
  answered : ResultCode → J → GuiReply J

pub record GuiLib (J G : Type 0) : Type 0 where
  pub call : G → GuiCall J → GuiReply J × G
