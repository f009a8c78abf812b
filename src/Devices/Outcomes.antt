-- ===== src/Devices/Outcomes.antt =====
-- What `ApplySettings` of madt-server/gui.cpp answers, and what it has done.
use open_madt.Prelude.{
  ℕ, ◌+◌, ◌*◌, ◌≤◌, ltb, if-cases, Bool, true, false, Option, none, some, List, [], ◌∷◌, ◌++◌,
  Bytes, codes, ◌≡◌, refl, All, All-append, is_empty, Bool-cases, inl, inr,
}
use open_madt.Prelude.Int.{pos_part}
use open_madt.Prelude.Decimal.{to_string}
use open_madt.Json.Access.{Outcome}
use open_madt.Gui.{ResultCode}
use open_madt.Config.{RuntimeConfig, BacklightConfig, AudioVolumeConfig}
use open_madt.Settings.{SettingsState}
use open_madt.Settings.Volume.{settings_volume_to_percent}
use open_madt.Devices.{
  System, Action, int_max, rescaled, ran, wrote, Applied, succeeded, was_written, run_command,
  write_backlight, both, result_of, read_backlight_max_value, apply_backlight_brightness,
  apply_audio_volume, apply_devices,
}
use open_madt.Devices.Backlight.{rescaled-near}

-- The number nearest to the share of the maximum that the brightness is of 255.
abbrev pub IsNearest : ℕ → ℕ → ℕ → Type 0
IsNearest brightness maximum n =
    (n * 255 ≤ brightness * maximum + 127) × (brightness * maximum ≤ n * 255 + 127)

-- The actions that set the volume to a percentage: the script with the number, or else the command with
-- the control and the number with its sign.
pub data DrivesVolume (config : AudioVolumeConfig) (percent : ℕ) : List Action → Type 0 where
  by_script :
      is_empty config.script ≡ false
      → DrivesVolume config percent (ran config.script (to_string percent ∷ []) ∷ [])
  by_mixer :
      is_empty config.script ≡ true
      → is_empty config.control_name ≡ false
      → DrivesVolume config percent (
          ran config.command (
            codes "-q" ∷ codes "sset" ∷ config.control_name ∷ (to_string percent ++ codes "%") ∷ [])
          ∷ [])
  no_volume :
      is_empty config.script ≡ true
      → is_empty config.control_name ≡ true
      → DrivesVolume config percent []

module _ (system : System) where
  -- The actions that set the backlight to a brightness: the command with the nearest percentage, or else
  -- the file with the number nearest for the maximum that was read.
  pub data DrivesBacklight (config : BacklightConfig) (brightness : ℕ) : List Action → Type 0 where
    by_command :
        (percent : ℕ)
        → is_empty config.command ≡ false
        → IsNearest brightness 100 percent
        → DrivesBacklight config brightness (ran config.command (to_string percent ∷ []) ∷ [])
    by_file :
        (maximum raw : ℕ)
        → is_empty config.command ≡ true
        → is_empty config.path ≡ false
        → read_backlight_max_value system config ≡ some maximum
        → IsNearest brightness maximum raw
        → DrivesBacklight config brightness (wrote config.path (to_string raw) ∷ [])
    no_backlight :
        is_empty config.command ≡ true
        → is_empty config.path ≡ true
        → DrivesBacklight config brightness []

  -- The command succeeded, or the file was written.
  abbrev pub Did : Action → Type 0
  Did (ran command arguments) = succeeded (system.run command arguments) ≡ true
  Did (wrote path text) = was_written (system.write path text) ≡ true

  -- If the function returns `true`, the actions are those, and each succeeded.
  abbrev Achieves : (List Action → Type 0) → Applied → Type 0
  Achieves P (Outcome.ok true, actions) = P actions × All Did actions
  Achieves P (Outcome.ok false, actions) = Unit
  Achieves P (Outcome.throws, actions) = Unit
  Achieves P (Outcome.undefined, actions) = Unit

  one-Achieves :
      (P : List Action → Type 0) (b : Bool) (a : Action)
      → P (a ∷ [])
      → (b ≡ true → Did a)
      → Achieves P (Outcome.ok b, a ∷ [])
  one-Achieves P true a p h = (p, (h refl, tt))
  one-Achieves P false a p h = tt

  run_command-Achieves :
      (P : List Action → Type 0) (command : Bytes) (arguments : List Bytes)
      → P (ran command arguments ∷ [])
      → Achieves P (run_command system command arguments)
  unfolding run_command
  run_command-Achieves P command arguments p =
      one-Achieves P (succeeded (system.run command arguments)) (ran command arguments) p (λ e. e)

  write_backlight-Achieves :
      (P : List Action → Type 0) (path : Bytes) (brightness maximum : ℕ)
      → P (wrote path (to_string (rescaled brightness maximum)) ∷ [])
      → Achieves P (write_backlight system path brightness (some maximum))
  unfolding write_backlight
  write_backlight-Achieves P path brightness maximum p =
      if-cases (Achieves P) (ltb int_max (brightness * maximum + 127)) _ _ (λ e. tt)
        (λ e.
          one-Achieves P (was_written (system.write path (to_string (rescaled brightness maximum))))
            (wrote path (to_string (rescaled brightness maximum))) p (λ h. h))

  audio-Achieves :
      (config : AudioVolumeConfig) (volume : Bytes)
      → Achieves
          (DrivesVolume config (settings_volume_to_percent volume))
          (apply_audio_volume system config volume)
  unfolding apply_audio_volume
  audio-Achieves config volume =
      let P = DrivesVolume config (settings_volume_to_percent volume) in
      elim (Bool-cases (is_empty config.script)) [
        | inr e ↦ rw (e, apply_audio_volume) (run_command-Achieves P config.script _ (by_script e))
        | inl e ↦ elim (Bool-cases (is_empty config.control_name)) [
          | inl q ↦ rw (e, q, apply_audio_volume) (no_volume e q, tt)
          | inr q ↦
              rw (e, q, apply_audio_volume) (run_command-Achieves P config.command _ (by_mixer e q))
        ]
      ]

  file-Achieves :
      (config : BacklightConfig) (brightness : ℕ) (maximum : Option ℕ)
      → is_empty config.command ≡ true
      → is_empty config.path ≡ false
      → read_backlight_max_value system config ≡ maximum
      → Achieves
          (DrivesBacklight config brightness)
          (write_backlight system config.path brightness maximum)
  unfolding write_backlight
  file-Achieves config brightness none e q r = tt
  file-Achieves config brightness (some maximum) e q r =
      write_backlight-Achieves (DrivesBacklight config brightness) config.path brightness maximum
        (by_file maximum (rescaled brightness maximum) e q r (rescaled-near brightness maximum))

  backlight-Achieves :
      (config : BacklightConfig) (brightness : ℕ)
      → Achieves
          (DrivesBacklight config brightness)
          (apply_backlight_brightness system config brightness)
  unfolding apply_backlight_brightness
  backlight-Achieves config brightness =
      let P = DrivesBacklight config brightness in
      elim (Bool-cases (is_empty config.command)) [
        | inr e ↦
            rw (e, apply_backlight_brightness)
              (run_command-Achieves P config.command _
                (by_command (rescaled brightness 100) e (rescaled-near brightness 100)))
        | inl e ↦ elim (Bool-cases (is_empty config.path)) [
          | inl q ↦ rw (e, q, apply_backlight_brightness) (no_backlight e q, tt)
          | inr q ↦
              rw (e, q, apply_backlight_brightness)
                (file-Achieves config brightness (read_backlight_max_value system config) e q refl)
        ]
      ]

  -- The volume first, then the backlight.
  abbrev pub Drives : {J : Type 0} → RuntimeConfig J → SettingsState J → List Action → Type 0
  Drives config settings actions =
      (first second : List Action) × DrivesVolume config.audio_volume
        (settings_volume_to_percent settings.volume) first
      × DrivesBacklight config.backlight (pos_part settings.brightness) second
      × (actions ≡ first ++ second)
      × All Did actions

  both-Drives :
      {J : Type 0} (config : RuntimeConfig J) (settings : SettingsState J) (r s : Applied)
      → Achieves (DrivesVolume config.audio_volume (settings_volume_to_percent settings.volume)) r
      → Achieves (DrivesBacklight config.backlight (pos_part settings.brightness)) s
      → result_of (both r.0 s.0) ≡ Outcome.ok ResultCode.ok
      → Drives config settings (r.1 ++ s.1)
  both-Drives config settings (Outcome.ok true, xs) (Outcome.ok true, ys) h k e =
      (xs, ys, h.0, k.0, refl, All-append Did xs ys h.1 k.1)
  both-Drives config settings (Outcome.ok true, xs) (Outcome.ok false, ys) h k e = absurd cc
  both-Drives config settings (Outcome.ok true, xs) (Outcome.throws, ys) h k e = absurd cc
  both-Drives config settings (Outcome.ok true, xs) (Outcome.undefined, ys) h k e = absurd cc
  both-Drives config settings (Outcome.ok false, xs) (Outcome.ok b, ys) h k e = absurd cc
  both-Drives config settings (Outcome.ok false, xs) (Outcome.throws, ys) h k e = absurd cc
  both-Drives config settings (Outcome.ok false, xs) (Outcome.undefined, ys) h k e = absurd cc
  both-Drives config settings (Outcome.throws, xs) s h k e = absurd cc
  both-Drives config settings (Outcome.undefined, xs) s h k e = absurd cc

  -- If the settings are answered with OK, what was done is, first, the volume set to the percentage of
  -- the settings, by the script of the configuration, or else its command for its control, or nothing
  -- where it names neither; then the backlight set to the brightness, by the command of the
  -- configuration with the nearest percentage, or else its file with the number nearest for the maximum
  -- that was read, or nothing where it names neither; and every command succeeded and every file was
  -- written.
  pub apply_devices-Drives :
      {J : Type 0} (config : RuntimeConfig J) (settings : SettingsState J)
      → result_of (apply_devices system config settings).0 ≡ Outcome.ok ResultCode.ok
      → Drives config settings (apply_devices system config settings).1
  unfolding apply_devices
  apply_devices-Drives config settings e =
      both-Drives config settings (apply_audio_volume system config.audio_volume settings.volume)
        (apply_backlight_brightness system config.backlight (pos_part settings.brightness))
        (audio-Achieves config.audio_volume settings.volume)
        (backlight-Achieves config.backlight (pos_part settings.brightness)) e
