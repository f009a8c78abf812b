-- ===== src/Browser/Popup.antt =====
-- The launcher of the shortcuts and its popup (madt-server/Browser.cpp): updateShortcutLauncherState,
-- rebuildShortcutPopup, toggleShortcutPopup and activateShortcut, with the slots that call them. Icons,
-- sizes and the place of the popup are not modelled.
pub mod Current
use open_madt.Prelude.{
  ℕ, suc, ◌+◌, ◌/◌, ◌%◌, Bool, true, false, not, ◌&&◌, ◌||◌, Option, none, some, List, [], ◌∷◌,
  Bytes, length, ltb, if◌then◌else◌,
}
use open_madt.Prelude.Int.{ℤ, pos_part}
use open_madt.Prelude.Map.{lookup, bytes_key}
use open_madt.Config.{RuntimeConfig}
use open_madt.Gui.{ResultCode, tab_not_found, exec_error}
use open_madt.Browser.{ShortcutEntry, Shortcuts, Browser}
use open_madt.Browser.Handlers.{on_new_shortcut, on_kill_shortcut, shortcuts_in_display_order}

-- A button of the popup, with its cell in the grid; `label` is the number in its text.
pub record Button : Type 0 where
  pub shortcut_id : Bytes
  pub row : ℕ
  pub column : ℕ
  pub label : Option ℤ
  pub tool_tip : Bytes

-- The number in the label of the launcher is `none` where there is only the label of the configuration.
pub record Launcher : Type 0 where
  pub enabled : Bool
  pub visible : Bool
  pub number : Option ℕ

pub record Panel (J : Type 0) : Type 0 where
  pub browser : Browser J
  pub launcher : Launcher
  pub popup_visible : Bool
  pub buttons : List Button

-- `shortcuts.empty()`
abbrev pub has_none : Shortcuts → Bool
has_none [] = true
has_none (entry ∷ shortcuts) = false

module _ {J : Type 0} where
  -- `std::max(1, shortcutPopupColumns)`
  abbrev pub columns_of : RuntimeConfig J → ℕ
  columns_of config = let n = pos_part config.shortcut_popup_columns in if ltb 1 n then n else 1

  unfoldable pub button_at : RuntimeConfig J → ℕ → ShortcutEntry → Button
  button_at config i shortcut = record {
    shortcut_id = shortcut.shortcut_id;
    row = i / columns_of config;
    column = i % columns_of config;
    label = if config.tab_bar_show_labels then some shortcut.shortcut_pos else none;
    tool_tip = if config.tab_bar_show_tooltips then shortcut.url else [];
  }

  unfoldable pub fill_grid : RuntimeConfig J → ℕ → List ShortcutEntry → List Button
  unfolding button_at
  fill_grid config i [] = []
  fill_grid config i (shortcut ∷ rest) = button_at config i shortcut ∷ fill_grid config (suc i) rest

  unfoldable pub update_shortcut_launcher_state : Panel J → Panel J
  update_shortcut_launcher_state p =
      let config = p.browser.runtime_config in
      let empty = has_none p.browser.shortcuts in
      record p {
        launcher = record {
          enabled = not empty;
          visible = config.shortcut_launcher_visible && config.shortcuts_enabled;
          number = if empty then none else some (length p.browser.shortcuts);
        };
        popup_visible = if empty then false else p.popup_visible;
      }

  unfoldable pub rebuild_shortcut_popup : Panel J → Panel J
  unfolding fill_grid
  rebuild_shortcut_popup p = record p {
    buttons = fill_grid p.browser.runtime_config 0 (shortcuts_in_display_order p.browser);
  }

  -- The constructor, which has no shortcuts yet.
  unfoldable pub setup_shortcut_ui : Browser J → Panel J
  setup_shortcut_ui b = record {
    browser = record b { shortcuts = [] };
    launcher = record {
      enabled = false;
      visible = b.runtime_config.shortcut_launcher_visible && b.runtime_config.shortcuts_enabled;
      number = none;
    };
    popup_visible = false;
    buttons = [];
  }

  unfoldable pub toggle_shortcut_popup : Panel J → Panel J
  unfolding rebuild_shortcut_popup
  toggle_shortcut_popup p =
      let config = p.browser.runtime_config in
      if has_none p.browser.shortcuts
        || not config.shortcuts_enabled
        || not config.shortcut_launcher_visible
      then p
      else if p.popup_visible
      then record p { popup_visible = false }
      else record (rebuild_shortcut_popup p) { popup_visible = true }

  -- The URL that is opened, if the shortcut is there, and the panel.
  unfoldable pub activate_shortcut : Bytes → Panel J → Option Bytes × Panel J
  activate_shortcut shortcut_id p = elim (lookup shortcut_id p.browser.shortcuts) [
    | none ↦ (none, p)
    | some shortcut ↦ (
      some shortcut.url,
      if p.browser.runtime_config.shortcut_auto_close
          then record p { popup_visible = false }
          else p,
    )
  ]

  unfoldable pub show_shortcuts : ResultCode → Browser J → Panel J → Panel J
  unfolding update_shortcut_launcher_state rebuild_shortcut_popup
  show_shortcuts ResultCode.ok b p =
      rebuild_shortcut_popup (update_shortcut_launcher_state (record p { browser = b }))
  show_shortcuts tab_not_found b p = record p { browser = b }
  show_shortcuts exec_error b p = record p { browser = b }

  unfoldable pub new_shortcut : Bytes → Bytes → ℤ → ℤ → Bytes → Panel J → ResultCode × Panel J
  unfolding show_shortcuts
  new_shortcut url icon_url preferred_pos flags shortcut_id p =
      let (code, b) = on_new_shortcut url icon_url preferred_pos flags shortcut_id p.browser in
      (code, show_shortcuts code b p)

  unfoldable pub kill_shortcut : Bytes → Panel J → ResultCode × Panel J
  unfolding show_shortcuts
  kill_shortcut shortcut_id p =
      let (code, b) = on_kill_shortcut shortcut_id p.browser in (code, show_shortcuts code b p)
