-- ===== src/Config/Runtime.antt =====
-- `loadRuntimeConfig` of madt-server/runtime-config.cpp: the loaders on a whole document.
use open_madt.Prelude.{Bool, true, false, Option, Bytes, if◌then◌else◌}
use open_madt.Prelude.Int.{pos}
use open_madt.Json.{JsonLib}
use open_madt.Config.{ExtraZonePlacement, RuntimeConfig, default_config, max_extra_zone_dimension}
use open_madt.Config.Load.{
  JsonFileLoadResult, loaded, missing, failed, load_json_file, load_optional_string,
  load_optional_int, load_optional_bool, load_tab_bar_dimension, load_tab_bar_edge,
  load_shortcut_launcher_corner, load_extra_zone_placement, load_extra_zone_rect, load_backlight,
  load_audio_volume, load_settings, load_sound_files,
}

abbrev pub is_free : ExtraZonePlacement → Bool
is_free ExtraZonePlacement.free = true
is_free ExtraZonePlacement.top = false
is_free ExtraZonePlacement.bottom = false

module _ {J : Type 0} (lib : JsonLib J) where
  -- The part about the server, up to `tabLifetimeByConnection`.
  unfoldable pub load_server_part : J → RuntimeConfig J → RuntimeConfig J
  load_server_part d c = record c {
    tab_map_password = load_optional_string lib d "tabMapPassword" c.tab_map_password;
    control_password = load_optional_string lib d "controlPassword" c.control_password;
    control_psk = load_optional_string lib d "controlPsk" c.control_psk;
    listen_address = load_optional_string lib d "listenAddress" c.listen_address;
    control_nonce_ttl_seconds =
        load_optional_int lib d "controlNonceTtlSeconds" c.control_nonce_ttl_seconds (pos 1)
          (pos 300);
    dns_sd_enabled = load_optional_bool lib d "dnsSdEnabled" c.dns_sd_enabled;
    dns_sd_unique_id = load_optional_string lib d "dnsSdUniqueId" c.dns_sd_unique_id;
    dns_sd_release = load_optional_string lib d "dnsSdRelease" c.dns_sd_release;
    dns_sd_manufacturer = load_optional_string lib d "dnsSdManufacturer" c.dns_sd_manufacturer;
    sound_player_command = load_optional_string lib d "soundPlayerCommand" c.sound_player_command;
    dns_sd_interval_minutes =
        load_optional_int lib d "dnsSdIntervalMinutes" c.dns_sd_interval_minutes (pos 1) (pos 30);
    sound_files = load_sound_files lib d c.sound_files;
    tab_lifetime_by_connection =
        load_optional_bool lib d "tabLifetimeByConnection" c.tab_lifetime_by_connection;
  }

  -- The part about the tab bar and the shortcuts.
  unfoldable pub load_display_part : J → RuntimeConfig J → RuntimeConfig J
  load_display_part d c = record c {
    tab_bar_visible = load_optional_bool lib d "tabBarVisible" c.tab_bar_visible;
    tab_bar_edge = load_tab_bar_edge lib d c.tab_bar_edge;
    tab_bar_width = load_tab_bar_dimension lib d "tabBarWidth" c.tab_bar_width;
    tab_bar_height = load_tab_bar_dimension lib d "tabBarHeight" c.tab_bar_height;
    tab_bar_show_labels = load_optional_bool lib d "tabBarShowLabels" c.tab_bar_show_labels;
    tab_bar_show_tooltips = load_optional_bool lib d "tabBarShowTooltips" c.tab_bar_show_tooltips;
    tab_bar_use_scroll_buttons =
        load_optional_bool lib d "tabBarUseScrollButtons" c.tab_bar_use_scroll_buttons;
    shortcuts_enabled = load_optional_bool lib d "shortcutsEnabled" c.shortcuts_enabled;
    shortcut_launcher_visible =
        load_optional_bool lib d "shortcutLauncherVisible" c.shortcut_launcher_visible;
    shortcut_launcher_label =
        load_optional_string lib d "shortcutLauncherLabel" c.shortcut_launcher_label;
    shortcut_launcher_corner = load_shortcut_launcher_corner lib d c.shortcut_launcher_corner;
    shortcut_popup_title = load_optional_string lib d "shortcutPopupTitle" c.shortcut_popup_title;
    shortcut_popup_columns =
        load_optional_int lib d "shortcutPopupColumns" c.shortcut_popup_columns (pos 1) (pos 8);
    shortcut_icon_width =
        load_optional_int lib d "shortcutIconWidth" c.shortcut_icon_width (pos 1) (pos 512);
    shortcut_icon_height =
        load_optional_int lib d "shortcutIconHeight" c.shortcut_icon_height (pos 1) (pos 512);
    shortcut_max_count =
        load_optional_int lib d "shortcutMaxCount" c.shortcut_max_count (pos 1) (pos 20);
    shortcut_auto_close = load_optional_bool lib d "shortcutAutoClose" c.shortcut_auto_close;
  }

  -- `loadExtraZoneGeometry`
  unfoldable pub load_extra_zone_geometry : J → RuntimeConfig J → RuntimeConfig J
  load_extra_zone_geometry d c =
      if is_free c.extra_zone_placement
      then record c { extra_zone_rect = load_extra_zone_rect lib d c.extra_zone_rect }
      else record c {
        extra_zone_height =
            load_optional_int lib d "extraZoneHeight" c.extra_zone_height (pos 1)
              max_extra_zone_dimension;
      }

  unfoldable pub load_devices_part : J → RuntimeConfig J → RuntimeConfig J
  load_devices_part d c = record c {
    backlight = load_backlight lib d c.backlight;
    audio_volume = load_audio_volume lib d c.audio_volume;
    settings = load_settings lib d c.settings;
  }

  unfoldable pub load_placement_part : J → RuntimeConfig J → RuntimeConfig J
  load_placement_part d c = record c {
    extra_zone_placement = load_extra_zone_placement lib d c.extra_zone_placement;
  }

  unfoldable pub load_document : J → RuntimeConfig J → RuntimeConfig J
  unfolding load_server_part load_display_part load_placement_part load_extra_zone_geometry
      load_devices_part
  load_document d c = load_devices_part d (
      load_extra_zone_geometry d
        (load_placement_part d (load_display_part d (load_server_part d c))))

  unfoldable pub config_of : JsonFileLoadResult J → RuntimeConfig J
  config_of missing = default_config lib
  config_of failed = default_config lib
  config_of (loaded document) =
      if lib.is_object document
      then load_document document (default_config lib)
      else default_config lib

  -- The argument is what the file `madt-config.json` holds, `none` if it cannot be opened.
  unfoldable pub load_runtime_config : Option Bytes → RuntimeConfig J
  unfolding config_of load_json_file
  load_runtime_config file = config_of (load_json_file lib file)
