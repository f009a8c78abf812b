-- ===== src/Settings.antt =====
-- madt-server/runtime-config.h and runtime-config.cpp: the settings that a client reads by
-- GetSettings and changes by SetSettings.
pub mod Volume
pub mod Merge
use open_madt.Prelude.{
  Bool, true, false, ◌&&◌, ◌||◌, Option, none, some, List, [], ◌∷◌, String, Bytes, codes, equal,
  has, if◌then◌else◌,
}
use open_madt.Prelude.Int.{ℤ, pos, leb_ℤ}
use open_madt.Json.{JsonLib}
use open_madt.Json.Access.{Outcome, ok, ◌>>=◌, or_throw}

pub record SettingsState (J : Type 0) : Type 0 where
  pub volume : Bytes
  pub brightness : ℤ
  pub contrast : ℤ
  pub language : Bytes
  pub default_active_mode : Bytes
  pub active_mode : Bytes
  pub default_visual_mode : Bytes
  pub visual_mode : Bytes
  pub extra1 : J
  pub extra2 : J

unfoldable pub is_valid_mode : Bytes → List Bytes → Bool
is_valid_mode value [] = false
is_valid_mode value (candidate ∷ rest) = equal value candidate || is_valid_mode value rest

abbrev pub active_modes : List Bytes
active_modes = codes "PRIMARY" ∷ codes "SUBORDINATED" ∷ []

abbrev pub visual_modes : List Bytes
visual_modes = codes "MUTE" ∷ codes "UNMUTE" ∷ codes "DEGRADED" ∷ []

-- `lo <= value && value <= hi`
abbrev pub within : ℤ → ℤ → ℤ → Bool
within lo hi value = leb_ℤ lo value && leb_ℤ value hi

module _ {J : Type 0} (lib : JsonLib J) where
  -- The `SettingsState` of the default constructor.
  abbrev pub default_settings : SettingsState J
  default_settings = record {
    volume = codes "0xFFFFFFFF";
    brightness = pos 255;
    contrast = pos 255;
    language = codes "en";
    default_active_mode = codes "PRIMARY";
    active_mode = codes "PRIMARY";
    default_visual_mode = codes "UNMUTE";
    visual_mode = codes "UNMUTE";
    extra1 = lib.null;
    extra2 = lib.null;
  }

  abbrev pub settings_fields : SettingsState J → List (String × J)
  settings_fields s =
      ("volume", lib.text s.volume)
      ∷ ("brightness", lib.int s.brightness)
      ∷ ("contrast", lib.int s.contrast)
      ∷ ("language", lib.text s.language)
      ∷ ("defaultActiveMode", lib.text s.default_active_mode)
      ∷ ("activeMode", lib.text s.active_mode)
      ∷ ("defaultVisualMode", lib.text s.default_visual_mode)
      ∷ ("visualMode", lib.text s.visual_mode)
      ∷ ("extra1", s.extra1)
      ∷ ("extra2", s.extra2)
      ∷ []

  unfoldable pub settings_to_json : SettingsState J → J
  settings_to_json s = lib.object (settings_fields s)

  -- The tests on one field of a patch: each passes where the field is missing.
  unfoldable pub string_allowed : Option J → Bool
  string_allowed none = true
  string_allowed (some v) = has (lib.get_string v)

  unfoldable pub level_allowed : Option J → Bool
  level_allowed none = true
  level_allowed (some v) =
      lib.is_number_integer v
      && elim (lib.get_int v) [ none ↦ false | some i ↦ within (pos 0) (pos 255) i ]

  unfoldable pub mode_allowed : List Bytes → Option J → Bool
  mode_allowed allowed none = true
  mode_allowed allowed (some v) = elim (lib.get_string v) [
    | none ↦ false
    | some s ↦ is_valid_mode s allowed
  ]

  abbrev reject_unless : Bool → String → Option String → Option String
  reject_unless passed error rest = if passed then rest else some error

  -- `none` is the result `true`; otherwise the result is `false` with its `error`.
  unfoldable pub is_valid_settings_patch : J → Option String
  is_valid_settings_patch patch =
      reject_unless (lib.is_object patch) "settings patch must be a JSON object" (
        reject_unless (string_allowed (lib.find patch "volume")) "volume must be a string" (
          reject_unless (level_allowed (lib.find patch "brightness"))
            "brightness must be an integer in [0,255]"
            (reject_unless (level_allowed (lib.find patch "contrast"))
              "contrast must be an integer in [0,255]"
              (reject_unless (string_allowed (lib.find patch "language"))
                "language must be a string"
                (reject_unless (mode_allowed active_modes (lib.find patch "defaultActiveMode"))
                  "defaultActiveMode must be PRIMARY or SUBORDINATED"
                  (reject_unless (mode_allowed active_modes (lib.find patch "activeMode"))
                    "activeMode must be PRIMARY or SUBORDINATED"
                    (reject_unless (mode_allowed visual_modes (lib.find patch "defaultVisualMode"))
                      "defaultVisualMode must be MUTE, UNMUTE, or DEGRADED"
                      (reject_unless (mode_allowed visual_modes (lib.find patch "visualMode"))
                        "visualMode must be MUTE, UNMUTE, or DEGRADED" none))))))))

  unfoldable pub merge_string : Bytes → Option J → Outcome Bytes
  merge_string current none = ok current
  merge_string current (some v) = or_throw (lib.get_string v)

  unfoldable pub merge_int : ℤ → Option J → Outcome ℤ
  merge_int current none = ok current
  merge_int current (some v) = or_throw (lib.get_int v)

  unfoldable pub merge_json : J → Option J → J
  merge_json current none = current
  merge_json current (some v) = v

  unfoldable pub merge_settings : SettingsState J → J → Outcome (SettingsState J)
  merge_settings current patch = do
    volume ← merge_string current.volume (lib.find patch "volume")
    brightness ← merge_int current.brightness (lib.find patch "brightness")
    contrast ← merge_int current.contrast (lib.find patch "contrast")
    language ← merge_string current.language (lib.find patch "language")
    default_active ← merge_string current.default_active_mode (lib.find patch "defaultActiveMode")
    active ← merge_string current.active_mode (lib.find patch "activeMode")
    default_visual ← merge_string current.default_visual_mode (lib.find patch "defaultVisualMode")
    visual ← merge_string current.visual_mode (lib.find patch "visualMode")
    ok (record {
      volume = volume;
      brightness = brightness;
      contrast = contrast;
      language = language;
      default_active_mode = default_active;
      active_mode = active;
      default_visual_mode = default_visual;
      visual_mode = visual;
      extra1 = merge_json current.extra1 (lib.find patch "extra1");
      extra2 = merge_json current.extra2 (lib.find patch "extra2");
    })
