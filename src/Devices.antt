-- ===== src/Devices.antt =====
-- Backlight and volume: the functions of madt-server/gui.cpp that bring the settings to the devices. The
-- processes and files that they use are a parameter.
pub mod Backlight
pub mod Outcomes
use open_madt.Prelude.{
  ℕ, ◌+◌, ◌-◌, ◌*◌, ◌/◌, ◌^◌, Bool, true, false, not, ◌&&◌, ◌||◌, Option, none, some, List, [], ◌∷◌,
  ◌++◌, Bytes, codes, ltb, leb, ◌==◌, is_empty, if◌then◌else◌,
}
use open_madt.Prelude.Int.{ℤ, pos, negsuc, pos_part, ltb_ℤ}
use open_madt.Prelude.Decimal.{to_string}
use open_madt.Json.Access.{Outcome}
use open_madt.Gui.{ResultCode, exec_error}
use open_madt.Config.{RuntimeConfig, BacklightConfig, AudioVolumeConfig}
use open_madt.Settings.{SettingsState}
use open_madt.Settings.Volume.{settings_volume_to_percent}

-- What became of a process: it was not started or not waited for, it crashed, or its exit code.
pub data ProcessEnd : Type 0 where
  unfinished crashed : ProcessEnd
  exited : ℕ → ProcessEnd

-- What `ifs >> maxValue` gives.
pub data NumberFile : Type 0 where
  not_open not_a_number : NumberFile
  number : ℤ → NumberFile

-- Whether a file could be opened, and written.
pub data WriteEnd : Type 0 where
  not_opened write_failed written : WriteEnd

pub data Action : Type 0 where
  -- a command with its arguments
  ran : Bytes → List Bytes → Action
  -- a file and the text that is written to it
  wrote : Bytes → Bytes → Action

pub record System : Type 0 where
  pub run : Bytes → List Bytes → ProcessEnd
  pub read_number : Bytes → NumberFile
  pub write : Bytes → Bytes → WriteEnd

abbrev pub int_max : ℕ
int_max = 2 ^ 31 - 1

abbrev pub succeeded : ProcessEnd → Bool
succeeded unfinished = false
succeeded crashed = false
succeeded (exited code) = code == 0

abbrev pub was_written : WriteEnd → Bool
was_written not_opened = false
was_written write_failed = false
was_written written = true

-- The maximum that is read from a file. A number above INT_MAX is no `int`, and reading it fails.
abbrev pub read_maximum : NumberFile → Option ℕ
read_maximum not_open = none
read_maximum not_a_number = none
read_maximum (number (negsuc n)) = none
read_maximum (number (pos n)) = if n == 0 || ltb int_max n then none else some n

-- `maxValue`, and `none` where the function returns `false`; it starts from 0.
unfoldable pub read_backlight_max_value : System → BacklightConfig → Option ℕ
read_backlight_max_value system config =
    if is_empty config.max_value_path
    then (if ltb_ℤ (pos 0) config.max_value then some (pos_part config.max_value) else none)
    else read_maximum (system.read_number config.max_value_path)

-- `(brightness * maxValue + 127) / 255`
abbrev pub rescaled : ℕ → ℕ → ℕ
rescaled brightness maximum = (brightness * maximum + 127) / 255

-- What a function returns, and what it has done.
abbrev pub Applied : Type 0
Applied = Outcome Bool × List Action

unfoldable pub run_command : System → Bytes → List Bytes → Applied
run_command system command arguments =
    (Outcome.ok (succeeded (system.run command arguments)), ran command arguments ∷ [])

-- With the maximum that was read. An `int` that overflows is undefined.
unfoldable pub write_backlight : System → Bytes → ℕ → Option ℕ → Applied
write_backlight system path brightness none = (Outcome.ok false, [])
write_backlight system path brightness (some maximum) =
    let text = to_string (rescaled brightness maximum) in
    if ltb int_max (brightness * maximum + 127)
    then (Outcome.undefined, [])
    else (Outcome.ok (was_written (system.write path text)), wrote path text ∷ [])

-- The brightness is that of settings, from 0 to 255.
unfoldable pub apply_backlight_brightness : System → BacklightConfig → ℕ → Applied
unfolding run_command write_backlight read_backlight_max_value
apply_backlight_brightness system config brightness =
    if not (is_empty config.command)
    then run_command system config.command (to_string (rescaled brightness 100) ∷ [])
    else if is_empty config.path
    then (Outcome.ok true, [])
    else write_backlight system config.path brightness (read_backlight_max_value system config)

unfoldable pub apply_audio_volume : System → AudioVolumeConfig → Bytes → Applied
unfolding run_command
apply_audio_volume system config volume =
    let percent = to_string (settings_volume_to_percent volume) in
    if not (is_empty config.script)
    then run_command system config.script (percent ∷ [])
    else if is_empty config.control_name
    then (Outcome.ok true, [])
    else run_command system config.command
        (codes "-q" ∷ codes "sset" ∷ config.control_name ∷ (percent ++ codes "%") ∷ [])

abbrev pub both : Outcome Bool → Outcome Bool → Outcome Bool
both (Outcome.ok a) (Outcome.ok b) = Outcome.ok (a && b)
both (Outcome.ok a) Outcome.throws = Outcome.throws
both (Outcome.ok a) Outcome.undefined = Outcome.undefined
both Outcome.throws b = Outcome.throws
both Outcome.undefined b = Outcome.undefined

abbrev pub result_of : Outcome Bool → Outcome ResultCode
result_of (Outcome.ok applied) = Outcome.ok (if applied then ResultCode.ok else exec_error)
result_of Outcome.throws = Outcome.ok exec_error
result_of Outcome.undefined = Outcome.undefined

module _ {J : Type 0} where
  -- The devices in `ApplySettings`: the backlight is set whatever became of the volume.
  unfoldable pub apply_devices : System → RuntimeConfig J → SettingsState J → Applied
  unfolding apply_audio_volume apply_backlight_brightness
  apply_devices system config settings =
      let (volume, first) = apply_audio_volume system config.audio_volume settings.volume in
      let (light, second) =
        apply_backlight_brightness system config.backlight (pos_part settings.brightness) in
      (both volume light, first ++ second)
