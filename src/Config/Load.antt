-- ===== src/Config/Load.antt =====
-- The loaders of madt-server/runtime-config.cpp. Each takes the value that its destination has and
-- gives the value that it has afterwards; a field that is missing, null, of another kind or out of
-- range leaves it alone.
use open_madt.Prelude.{
  Bool, Option, none, some, List, [], ◌∷◌, String, Bytes, codes, equal, if◌then◌else◌,
}
use open_madt.Prelude.Int.{ℤ, pos, leb_ℤ}
use open_madt.Prelude.Map.{Map, insert, bytes_key}
use open_madt.Json.{JsonLib}
use open_madt.Settings.{SettingsState, within}
use open_madt.Config.{
  TabBarEdge, ShortcutLauncherCorner, ExtraZonePlacement, ExtraZoneRect, BacklightConfig,
  AudioVolumeConfig, max_extra_zone_dimension,
}

-- What `loadJsonFile` gives: the file is not there, cannot be read as JSON, or is loaded.
pub data JsonFileLoadResult (J : Type 0) : Type 0 where
  loaded : J → JsonFileLoadResult J
  missing : JsonFileLoadResult J
  failed : JsonFileLoadResult J

module _ {J : Type 0} (lib : JsonLib J) where
  -- The file's bytes, `none` if it cannot be opened.
  unfoldable pub load_json_file : Option Bytes → JsonFileLoadResult J
  load_json_file none = missing
  load_json_file (some bytes) = elim (lib.parse bytes) [ none ↦ failed | some j ↦ loaded j ]

  -- `it == document.end() || it->is_null()` is `none`.
  unfoldable pub present : J → String → Option J
  present document key = elim (lib.find document key) [
    | none ↦ none
    | some v ↦ if lib.is_null v then none else some v
  ]

  unfoldable pub load_optional_string : J → String → Bytes → Bytes
  unfolding present
  load_optional_string document key destination = elim (present document key) [
    | none ↦ destination
    | some v ↦ elim (lib.get_string v) [ none ↦ destination | some s ↦ s ]
  ]

  -- The value that `get<int>` gives, kept only if it passes the test.
  unfoldable pub accept_int : (ℤ → Bool) → ℤ → Option ℤ → ℤ
  accept_int allowed destination none = destination
  accept_int allowed destination (some value) = if allowed value then value else destination

  unfoldable pub checked_int : (ℤ → Bool) → ℤ → Option J → ℤ
  unfolding accept_int
  checked_int allowed destination none = destination
  checked_int allowed destination (some v) =
      if lib.is_number_integer v
      then accept_int allowed destination (lib.get_int v)
      else destination

  unfoldable pub load_checked_int : J → String → (ℤ → Bool) → ℤ → ℤ
  unfolding present checked_int
  load_checked_int document key allowed destination =
      checked_int allowed destination (present document key)

  unfoldable pub load_optional_int : J → String → ℤ → ℤ → ℤ → ℤ
  unfolding load_checked_int
  load_optional_int document key destination min_value max_value =
      load_checked_int document key (within min_value max_value) destination

  unfoldable pub load_tab_bar_dimension : J → String → ℤ → ℤ
  unfolding load_checked_int
  load_tab_bar_dimension document key destination =
      load_checked_int document key (leb_ℤ (pos 1)) destination

  -- `loadTabBarVisible`, `loadOptionalBool` and the two fields that `loadRuntimeConfig` reads so.
  unfoldable pub load_optional_bool : J → String → Bool → Bool
  unfolding present
  load_optional_bool document key destination = elim (present document key) [
    | none ↦ destination
    | some v ↦ elim (lib.get_bool v) [ none ↦ destination | some b ↦ b ]
  ]

  unfoldable pub load_tab_bar_edge : J → TabBarEdge → TabBarEdge
  unfolding load_optional_string
  load_tab_bar_edge document destination =
      let edge = load_optional_string document "tabBarEdge" [] in
      if equal edge (codes "top")
      then TabBarEdge.top
      else if equal edge (codes "bottom")
      then TabBarEdge.bottom
      else if equal edge (codes "left")
      then TabBarEdge.left
      else if equal edge (codes "right")
      then TabBarEdge.right
      else destination

  unfoldable pub load_shortcut_launcher_corner : J → ShortcutLauncherCorner → ShortcutLauncherCorner
  unfolding load_optional_string
  load_shortcut_launcher_corner document destination =
      let corner = load_optional_string document "shortcutLauncherCorner" [] in
      if equal corner (codes "top-left")
      then ShortcutLauncherCorner.top_left
      else if equal corner (codes "top-right")
      then ShortcutLauncherCorner.top_right
      else destination

  unfoldable pub load_extra_zone_placement : J → ExtraZonePlacement → ExtraZonePlacement
  unfolding load_optional_string
  load_extra_zone_placement document destination =
      let placement = load_optional_string document "extraZonePlacement" [] in
      if equal placement (codes "top")
      then ExtraZonePlacement.top
      else if equal placement (codes "bottom")
      then ExtraZonePlacement.bottom
      else if equal placement (codes "free")
      then ExtraZonePlacement.free
      else destination

  -- A field whose value has to be an object; `none` where it is not there.
  unfoldable pub object_field : J → String → Option J
  unfolding present
  object_field document key = elim (present document key) [
    | none ↦ none
    | some v ↦ if lib.is_object v then some v else none
  ]

  unfoldable pub load_extra_zone_rect : J → ExtraZoneRect → ExtraZoneRect
  unfolding object_field load_optional_int
  load_extra_zone_rect document r = elim (object_field document "extraZoneRect") [
    | none ↦ r
    | some rect ↦ record {
      x = load_optional_int rect "x" r.x (pos 0) max_extra_zone_dimension;
      y = load_optional_int rect "y" r.y (pos 0) max_extra_zone_dimension;
      width = load_optional_int rect "width" r.width (pos 1) max_extra_zone_dimension;
      height = load_optional_int rect "height" r.height (pos 1) max_extra_zone_dimension;
    }
  ]

  unfoldable pub load_backlight : J → BacklightConfig → BacklightConfig
  unfolding object_field load_optional_int load_optional_string
  load_backlight document b = elim (object_field document "backlight") [
    | none ↦ b
    | some o ↦ record {
      command = load_optional_string o "command" b.command;
      path = load_optional_string o "path" b.path;
      max_value_path = load_optional_string o "maxValuePath" b.max_value_path;
      max_value = load_optional_int o "maxValue" b.max_value (pos 1) (pos 65535);
    }
  ]

  unfoldable pub load_audio_volume : J → AudioVolumeConfig → AudioVolumeConfig
  unfolding object_field load_optional_string
  load_audio_volume document a = elim (object_field document "audioVolume") [
    | none ↦ a
    | some o ↦ record {
      command = load_optional_string o "command" a.command;
      control_name = load_optional_string o "controlName" a.control_name;
      script = load_optional_string o "script" a.script;
    }
  ]

  unfoldable pub load_extra : J → String → J → J
  load_extra document key destination = elim (lib.find document key) [
    | none ↦ destination
    | some v ↦ v
  ]

  unfoldable pub load_settings : J → SettingsState J → SettingsState J
  unfolding load_optional_int load_optional_string load_extra
  load_settings document s = record {
    volume = load_optional_string document "volume" s.volume;
    brightness = load_optional_int document "brightness" s.brightness (pos 0) (pos 255);
    contrast = load_optional_int document "contrast" s.contrast (pos 0) (pos 255);
    language = load_optional_string document "language" s.language;
    default_active_mode = load_optional_string document "defaultActiveMode" s.default_active_mode;
    active_mode = load_optional_string document "activeMode" s.active_mode;
    default_visual_mode = load_optional_string document "defaultVisualMode" s.default_visual_mode;
    visual_mode = load_optional_string document "visualMode" s.visual_mode;
    extra1 = load_extra document "extra1" s.extra1;
    extra2 = load_extra document "extra2" s.extra2;
  }

  unfoldable pub load_sound_entries : List (Bytes × J) → Map Bytes Bytes → Map Bytes Bytes
  load_sound_entries [] files = files
  load_sound_entries ((key, value) ∷ rest) files =
      load_sound_entries rest
        (elim (lib.get_string value) [ none ↦ files | some file ↦ insert key file files ])

  unfoldable pub load_sound_files : J → Map Bytes Bytes → Map Bytes Bytes
  unfolding object_field load_sound_entries
  load_sound_files document files = elim (object_field document "soundFiles") [
    | none ↦ files
    | some o ↦ load_sound_entries (lib.items o) files
  ]
