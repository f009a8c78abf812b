-- ===== src/Config.antt =====
-- `RuntimeConfig` and `loadRuntimeConfig` of madt-server/runtime-config.h and runtime-config.cpp,
-- with `loadJsonFile` of utils/json_file.hpp. Log messages are left out.
pub mod Load
pub mod Runtime
pub mod Bounds
use open_madt.Prelude.{
  Bool, true, false, ◌&&◌, Option, none, some, List, [], ◌∷◌, String, Bytes, codes, equal,
  if◌then◌else◌,
}
use open_madt.Prelude.Int.{ℤ, pos, leb_ℤ}
use open_madt.Prelude.Map.{Map, insert, bytes_key}
use open_madt.Json.{JsonLib}
use open_madt.Settings.{SettingsState, default_settings, within}

pub data TabBarEdge : Type 0 where
  top bottom left right : TabBarEdge

pub data ShortcutLauncherCorner : Type 0 where
  top_left top_right : ShortcutLauncherCorner

pub data ExtraZonePlacement : Type 0 where
  top bottom free : ExtraZonePlacement

pub record ExtraZoneRect : Type 0 where
  pub x : ℤ
  pub y : ℤ
  pub width : ℤ
  pub height : ℤ

pub record BacklightConfig : Type 0 where
  pub command : Bytes
  pub path : Bytes
  pub max_value : ℤ
  pub max_value_path : Bytes

pub record AudioVolumeConfig : Type 0 where
  pub command : Bytes
  pub control_name : Bytes
  pub script : Bytes

pub record RuntimeConfig (J : Type 0) : Type 0 where
  pub tab_map_password : Bytes
  pub control_password : Bytes
  pub control_psk : Bytes
  pub control_nonce_ttl_seconds : ℤ
  pub listen_address : Bytes
  pub dns_sd_enabled : Bool
  pub dns_sd_unique_id : Bytes
  pub dns_sd_release : Bytes
  pub dns_sd_manufacturer : Bytes
  pub dns_sd_interval_minutes : ℤ
  pub sound_player_command : Bytes
  pub sound_files : Map Bytes Bytes
  pub tab_lifetime_by_connection : Bool
  pub tab_bar_visible : Bool
  pub tab_bar_edge : TabBarEdge
  pub tab_bar_width : ℤ
  pub tab_bar_height : ℤ
  pub tab_bar_show_labels : Bool
  pub tab_bar_show_tooltips : Bool
  pub tab_bar_use_scroll_buttons : Bool
  pub shortcuts_enabled : Bool
  pub shortcut_launcher_visible : Bool
  pub shortcut_launcher_label : Bytes
  pub shortcut_launcher_corner : ShortcutLauncherCorner
  pub shortcut_popup_title : Bytes
  pub shortcut_popup_columns : ℤ
  pub shortcut_icon_width : ℤ
  pub shortcut_icon_height : ℤ
  pub shortcut_max_count : ℤ
  pub shortcut_auto_close : Bool
  pub extra_zone_placement : ExtraZonePlacement
  pub extra_zone_height : ℤ
  pub extra_zone_rect : ExtraZoneRect
  pub backlight : BacklightConfig
  pub audio_volume : AudioVolumeConfig
  pub settings : SettingsState J

-- The default member initialisers.
abbrev pub default_config : {J : Type 0} → JsonLib J → RuntimeConfig J
default_config lib = record {
  tab_map_password = [];
  control_password = [];
  control_psk = [];
  control_nonce_ttl_seconds = pos 30;
  listen_address = codes "0.0.0.0";
  dns_sd_enabled = true;
  dns_sd_unique_id = [];
  dns_sd_release = codes "unknown";
  dns_sd_manufacturer = codes "unknown";
  dns_sd_interval_minutes = pos 10;
  sound_player_command = codes "aplay";
  sound_files = [];
  tab_lifetime_by_connection = false;
  tab_bar_visible = true;
  tab_bar_edge = TabBarEdge.top;
  tab_bar_width = pos 96;
  tab_bar_height = pos 48;
  tab_bar_show_labels = true;
  tab_bar_show_tooltips = true;
  tab_bar_use_scroll_buttons = true;
  shortcuts_enabled = true;
  shortcut_launcher_visible = true;
  shortcut_launcher_label = codes "Shortcuts";
  shortcut_launcher_corner = ShortcutLauncherCorner.top_right;
  shortcut_popup_title = codes "Emergency shortcuts";
  shortcut_popup_columns = pos 3;
  shortcut_icon_width = pos 96;
  shortcut_icon_height = pos 96;
  shortcut_max_count = pos 5;
  shortcut_auto_close = true;
  extra_zone_placement = ExtraZonePlacement.top;
  extra_zone_height = pos 160;
  extra_zone_rect = record { x = pos 0; y = pos 0; width = pos 640; height = pos 160 };
  backlight = record { command = []; path = []; max_value = pos 255; max_value_path = [] };
  audio_volume = record { command = codes "amixer"; control_name = []; script = [] };
  settings = default_settings lib;
}

abbrev pub max_extra_zone_dimension : ℤ
max_extra_zone_dimension = pos 7680
