-- ===== src/Devices/Backlight.antt =====
-- What `applyBacklightBrightness` of madt-server/gui.cpp writes.
use open_madt.Prelude.{
  ℕ, ◌+◌, ◌*◌, ◌≤◌, Bool, true, false, some, List, [], ◌∷◌, ◌≡◌, refl, ap, arith, is_empty, ltb,
  ◌∙◌,
}
use open_madt.Prelude.Decimal.{to_string}
use open_madt.Json.Access.{Outcome}
use open_madt.Config.{BacklightConfig}
use open_madt.Devices.{
  System, Action, wrote, rescaled, int_max, read_backlight_max_value, write_backlight,
  apply_backlight_brightness,
}

-- The greatest maximum for which `brightness * maxValue + 127` fits an `int`.
abbrev pub greatest_maximum : ℕ
greatest_maximum = 8421504

pub rescaled-near :
    (b m : ℕ) → (rescaled b m * 255 ≤ b * m + 127) × (b * m ≤ rescaled b m * 255 + 127)
rescaled-near b m = (omega arith, omega arith)

rescaled-le : (b m : ℕ) → b ≤ 255 → rescaled b m ≤ m
rescaled-le b m h = let le : b * m ≤ 255 * m = grind arith in omega arith

product-le : (b m : ℕ) → b ≤ 255 → m ≤ greatest_maximum → b * m + 127 ≤ int_max
product-le b m h k = let le : b * m ≤ 255 * m = grind arith in omega arith

module _ (system : System) (config : BacklightConfig) (brightness maximum : ℕ)
    (no_command : is_empty config.command ≡ true) (path : is_empty config.path ≡ false)
    (read : read_backlight_max_value system config ≡ some maximum) where
  file-eq :
      apply_backlight_brightness system config brightness
      ≡ write_backlight system config.path brightness (some maximum)
  unfolding apply_backlight_brightness
  file-eq = rw (no_command, path, read) refl

  -- With a file for the backlight and a maximum of at most 8421504: the file gets one number, the one
  -- nearest to the share of the maximum that the brightness is of 255, and at most the maximum.
  pub apply_backlight_brightness-nearest :
      brightness ≤ 255
      → maximum ≤ greatest_maximum
      → (raw : ℕ) × ((apply_backlight_brightness system config brightness).1
          ≡ wrote config.path (to_string raw) ∷ [])
        × (raw ≤ maximum)
        × (raw * 255 ≤ brightness * maximum + 127)
        × (brightness * maximum ≤ raw * 255 + 127)
  unfolding write_backlight
  apply_backlight_brightness-nearest b m =
      let fits = product-le brightness maximum b m in
      let (low, high) = rescaled-near brightness maximum in
      let small : ltb int_max (brightness * maximum + 127) ≡ false = ground arith in
      (
        rescaled brightness maximum,
        ap (λ (r : Outcome Bool × List Action). r.1) file-eq ∙ rw (small, write_backlight) refl,
        rescaled-le brightness maximum b,
        low,
        high,
      )
