-- ===== src/Examples/Settings.antt =====
-- Settings, configuration and volume at concrete inputs.
use open_madt.Prelude.{none, some, codes, equal, ◌≡◌, refl, arith}
use open_madt.Prelude.Int.{pos}
use open_madt.Json.Access.{ok}
use open_madt.Settings.{
  SettingsState, default_settings, settings_to_json, is_valid_settings_patch, merge_settings,
  string_allowed, level_allowed, mode_allowed, is_valid_mode,
}
use open_madt.Settings.Merge.{
  IsInRange, merge-valid-IsInRange, merge-settings_to_json, valid-settings_to_json,
}
use open_madt.Settings.Volume.{settings_volume_to_percent, decimal, volume_percent-decimal}
use open_madt.Config.Bounds.{IsBounded, load_runtime_config-IsBounded}
use open_madt.Config.Runtime.{load_runtime_config}
use open_madt.Examples.Docs.{Doc, number, word, record_of, field, end, docs, docs-laws}

abbrev patch : Doc
patch =
    record_of
      (field "brightness" (number (pos 7)) (field "activeMode" (word (codes "SUBORDINATED")) end))

default-IsInRange : IsInRange (default_settings docs)
unfolding is_valid_mode equal
default-IsInRange = record {
  brightness_low = omega arith;
  brightness_high = omega arith;
  contrast_low = omega arith;
  contrast_high = omega arith;
  default_active = refl;
  active = refl;
  default_visual = refl;
  visual = refl;
}

merge-valid-IsInRange_example :
    (s : SettingsState Doc) × (merge_settings docs (default_settings docs) patch ≡ ok s)
    × IsInRange s
unfolding is_valid_settings_patch string_allowed level_allowed mode_allowed is_valid_mode equal
merge-valid-IsInRange_example =
    merge-valid-IsInRange docs (default_settings docs) patch refl default-IsInRange

abbrev dim : SettingsState Doc
dim = record (default_settings docs) { brightness = pos 1 }

merge-settings_to_json_example :
    merge_settings docs (default_settings docs) (settings_to_json docs dim) ≡ ok dim
merge-settings_to_json_example = merge-settings_to_json docs docs-laws (default_settings docs) dim

valid-settings_to_json_example :
    is_valid_settings_patch docs (settings_to_json docs (default_settings docs)) ≡ none
valid-settings_to_json_example =
    valid-settings_to_json docs docs-laws (default_settings docs) default-IsInRange

volume_percent-decimal_example : settings_volume_to_percent (decimal 42) ≡ 42
volume_percent-decimal_example = volume_percent-decimal 42 (omega arith)

load_runtime_config-IsBounded_example : IsBounded (load_runtime_config docs (some (codes "{}")))
load_runtime_config-IsBounded_example = load_runtime_config-IsBounded docs (some (codes "{}"))

full_scale : settings_volume_to_percent (codes "0xFFFFFFFF") ≡ 100
unfolding settings_volume_to_percent
full_scale = refl

half_scale : settings_volume_to_percent (codes "0x80000000") ≡ 50
unfolding settings_volume_to_percent
half_scale = refl

-- Above 100 a decimal text is on the scale of 32 bits.
decimal_101 : settings_volume_to_percent (codes "101") ≡ 0
unfolding settings_volume_to_percent
decimal_101 = refl
