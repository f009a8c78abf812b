-- ===== src/Examples/Devices.antt =====
-- The devices of a terminal with a file for the backlight and a script for the volume.
use open_madt.Prelude.{
  ℕ, ◌+◌, ◌*◌, ◌≤◌, true, false, some, [], ◌∷◌, codes, is_empty, ◌≡◌, refl, arith,
}
use open_madt.Prelude.Int.{pos}
use open_madt.Prelude.Decimal.{to_string}
use open_madt.Json.Access.{Outcome}
use open_madt.Config.{RuntimeConfig, BacklightConfig, default_config}
use open_madt.Settings.{default_settings}
use open_madt.Gui.{ResultCode}
use open_madt.Devices.{
  System, ProcessEnd, NumberFile, WriteEnd, wrote, result_of, read_backlight_max_value, run_command,
  write_backlight, apply_audio_volume, apply_backlight_brightness, apply_devices,
}
use open_madt.Devices.Backlight.{apply_backlight_brightness-nearest}
use open_madt.Devices.Outcomes.{Drives, apply_devices-Drives}
use open_madt.Examples.Docs.{Doc, docs}

-- The maximum of the backlight is in a file.
abbrev panel : System
panel = record {
  run = λ command arguments. ProcessEnd.exited 0;
  read_number = λ path. NumberFile.number (pos 937);
  write = λ path text. WriteEnd.written;
}

abbrev backlight : BacklightConfig
backlight = record {
  command = [];
  path = codes "/sys/backlight";
  max_value = pos 255;
  max_value_path = codes "/sys/max";
}

abbrev config : RuntimeConfig Doc
config = record (default_config docs) {
  backlight = backlight;
  audio_volume = record { command = codes "amixer"; control_name = []; script = codes "volume" };
}

panel-maximum : read_backlight_max_value panel backlight ≡ some 937
unfolding read_backlight_max_value is_empty
panel-maximum = refl

no_command : is_empty backlight.command ≡ true
unfolding is_empty
no_command = refl

has_path : is_empty backlight.path ≡ false
unfolding is_empty
has_path = refl

apply_backlight_brightness-nearest_example :
    (raw : ℕ) × ((apply_backlight_brightness panel backlight 128).1
      ≡ wrote backlight.path (to_string raw) ∷ [])
    × (raw ≤ 937)
    × (raw * 255 ≤ 128 * 937 + 127)
    × (128 * 937 ≤ raw * 255 + 127)
apply_backlight_brightness-nearest_example =
    apply_backlight_brightness-nearest panel backlight 128 937 no_command has_path panel-maximum
      (omega arith) (omega arith)

ends_well :
    result_of (apply_devices panel config (default_settings docs)).0 ≡ Outcome.ok ResultCode.ok
unfolding apply_devices apply_audio_volume apply_backlight_brightness run_command write_backlight
    read_backlight_max_value is_empty
ends_well = refl

apply_devices-Drives_example :
    Drives panel config
      (default_settings docs)
      (apply_devices panel config (default_settings docs)).1
apply_devices-Drives_example = apply_devices-Drives panel config (default_settings docs) ends_well
