-- ===== src/Config/Bounds.antt =====
-- Whatever the configuration file holds, the numbers of the loaded configuration are in their ranges.
use open_madt.Prelude.{
  Bool, true, Option, none, some, String, Bytes, ◌≡◌, inl, inr, arith, Option-cases, Bool-cases,
}
use open_madt.Prelude.Int.{ℤ, pos, ◌≤ℤ◌, leb_ℤ}
use open_madt.Json.{JsonLib}
use open_madt.Settings.{within}
use open_madt.Config.{
  ExtraZoneRect, BacklightConfig, RuntimeConfig, default_config, max_extra_zone_dimension,
}
use open_madt.Config.Load.{
  JsonFileLoadResult, loaded, missing, failed, load_json_file, load_optional_int,
  load_tab_bar_dimension, accept_int, checked_int, load_extra_zone_rect, load_backlight,
  load_settings, object_field,
}
use open_madt.Config.Runtime.{
  is_free, load_server_part, load_display_part, load_placement_part, load_extra_zone_geometry,
  load_devices_part, load_document, config_of, load_runtime_config,
}

-- `lo ≤ value ≤ hi`
pub record Range (lo hi value : ℤ) : Type 0 where
  pub low : lo ≤ℤ value
  pub high : value ≤ℤ hi

pub record IsBounded {J : Type 0} (c : RuntimeConfig J) : Type 0 where
  pub nonce_ttl : Range (pos 1) (pos 300) c.control_nonce_ttl_seconds
  pub interval : Range (pos 1) (pos 30) c.dns_sd_interval_minutes
  pub bar_width : pos 1 ≤ℤ c.tab_bar_width
  pub bar_height : pos 1 ≤ℤ c.tab_bar_height
  pub columns : Range (pos 1) (pos 8) c.shortcut_popup_columns
  pub icon_width : Range (pos 1) (pos 512) c.shortcut_icon_width
  pub icon_height : Range (pos 1) (pos 512) c.shortcut_icon_height
  pub max_count : Range (pos 1) (pos 20) c.shortcut_max_count
  pub zone_height : Range (pos 1) max_extra_zone_dimension c.extra_zone_height
  pub zone_x : Range (pos 0) max_extra_zone_dimension c.extra_zone_rect.x
  pub zone_y : Range (pos 0) max_extra_zone_dimension c.extra_zone_rect.y
  pub zone_rect_width : Range (pos 1) max_extra_zone_dimension c.extra_zone_rect.width
  pub zone_rect_height : Range (pos 1) max_extra_zone_dimension c.extra_zone_rect.height
  pub backlight_max : Range (pos 1) (pos 65535) c.backlight.max_value
  pub brightness : Range (pos 0) (pos 255) c.settings.brightness
  pub contrast : Range (pos 0) (pos 255) c.settings.contrast

module _ {J : Type 0} (lib : JsonLib J) where
  -- What a loader of numbers gives is the old value or passed the test.
  module _ (P : ℤ → Type 0) (allowed : ℤ → Bool) (sound : (v : ℤ) → allowed v ≡ true → P v) where
    accept-keeps : (old : ℤ) (o : Option ℤ) → P old → P (accept_int lib allowed old o)
    unfolding accept_int
    accept-keeps old none h = h
    accept-keeps old (some v) h = elim (Bool-cases (allowed v)) [
      | inl e ↦ rw e (sound v e)
      | inr e ↦ rw e h
    ]

    checked-keeps : (old : ℤ) (o : Option J) → P old → P (checked_int lib allowed old o)
    unfolding checked_int
    checked-keeps old none h = h
    checked-keeps old (some v) h = elim (Bool-cases (lib.is_number_integer v)) [
      | inl e ↦ rw e (accept-keeps old (lib.get_int v) h)
      | inr e ↦ rw e h
    ]

  within-Range : (lo hi value : ℤ) → within lo hi value ≡ true → Range lo hi value
  within-Range lo hi value h = record { low = ground arith; high = ground arith }

  int_Range :
      (d : J) (key : String) (old lo hi : ℤ)
      → Range lo hi old
      → Range lo hi (load_optional_int lib d key old lo hi)
  unfolding load_optional_int
  int_Range d key old lo hi r =
      checked-keeps (Range lo hi) (within lo hi) (within-Range lo hi) old _ r

  positive : (v : ℤ) → leb_ℤ (pos 1) v ≡ true → pos 1 ≤ℤ v
  positive v h = ground arith

  dimension-positive :
      (d : J) (key : String) (old : ℤ)
      → pos 1 ≤ℤ old
      → pos 1 ≤ℤ load_tab_bar_dimension lib d key old
  unfolding load_tab_bar_dimension
  dimension-positive d key old h = checked-keeps (◌≤ℤ◌ (pos 1)) (leb_ℤ (pos 1)) positive old _ h

  -- The four fields of the zone's rectangle.
  record IsRect (r : ExtraZoneRect) : Type 0 where
    x : Range (pos 0) max_extra_zone_dimension r.x
    y : Range (pos 0) max_extra_zone_dimension r.y
    width : Range (pos 1) max_extra_zone_dimension r.width
    height : Range (pos 1) max_extra_zone_dimension r.height

  load_extra_zone_rect-IsRect :
      (d : J) (r : ExtraZoneRect) → IsRect r → IsRect (load_extra_zone_rect lib d r)
  unfolding load_extra_zone_rect
  load_extra_zone_rect-IsRect d r h = elim (Option-cases (object_field lib d "extraZoneRect")) [
    | inl e ↦ rw (e, load_extra_zone_rect) h
    | inr (o, e) ↦
        rw (e, load_extra_zone_rect)
          (record {
            x = int_Range o "x" _ _ _ h.x;
            y = int_Range o "y" _ _ _ h.y;
            width = int_Range o "width" _ _ _ h.width;
            height = int_Range o "height" _ _ _ h.height;
          })
  ]

  backlight-Range :
      (d : J) (b : BacklightConfig)
      → Range (pos 1) (pos 65535) b.max_value
      → Range (pos 1) (pos 65535) (load_backlight lib d b).max_value
  unfolding load_backlight
  backlight-Range d b h = elim (Option-cases (object_field lib d "backlight")) [
    | inl e ↦ rw (e, load_backlight) h
    | inr (o, e) ↦ rw (e, load_backlight) (int_Range o "maxValue" _ _ _ h)
  ]

  server-IsBounded :
      (d : J) (c : RuntimeConfig J) → IsBounded c → IsBounded (load_server_part lib d c)
  unfolding load_server_part
  server-IsBounded d c h = assumption (
    int_Range d "controlNonceTtlSeconds" _ _ _ h.nonce_ttl,
    int_Range d "dnsSdIntervalMinutes" _ _ _ h.interval,
  )

  display-IsBounded :
      (d : J) (c : RuntimeConfig J) → IsBounded c → IsBounded (load_display_part lib d c)
  unfolding load_display_part
  display-IsBounded d c h = assumption (
    dimension-positive d "tabBarWidth" _ h.bar_width,
    dimension-positive d "tabBarHeight" _ h.bar_height,
    int_Range d "shortcutPopupColumns" _ _ _ h.columns,
    int_Range d "shortcutIconWidth" _ _ _ h.icon_width,
    int_Range d "shortcutIconHeight" _ _ _ h.icon_height,
    int_Range d "shortcutMaxCount" _ _ _ h.max_count,
  )

  geometry-IsBounded :
      (d : J) (c : RuntimeConfig J) → IsBounded c → IsBounded (load_extra_zone_geometry lib d c)
  unfolding load_extra_zone_geometry
  geometry-IsBounded d c h = elim (Bool-cases (is_free c.extra_zone_placement)) [
    | inl e ↦
        let r : IsRect c.extra_zone_rect = record {
          x = h.zone_x;
          y = h.zone_y;
          width = h.zone_rect_width;
          height = h.zone_rect_height;
        } in
        let r' : IsRect (load_extra_zone_rect lib d c.extra_zone_rect) =
          load_extra_zone_rect-IsRect d _ r in
        rw (e, load_extra_zone_geometry) (assumption (r'.x, r'.y, r'.width, r'.height))
    | inr e ↦
        rw (e, load_extra_zone_geometry)
          (assumption (int_Range d "extraZoneHeight" _ _ _ h.zone_height))
  ]

  devices-IsBounded :
      (d : J) (c : RuntimeConfig J) → IsBounded c → IsBounded (load_devices_part lib d c)
  unfolding load_devices_part load_settings
  devices-IsBounded d c h = assumption (
    backlight-Range d c.backlight h.backlight_max,
    int_Range d "brightness" _ _ _ h.brightness,
    int_Range d "contrast" _ _ _ h.contrast,
  )

  placement-IsBounded :
      (d : J) (c : RuntimeConfig J) → IsBounded c → IsBounded (load_placement_part lib d c)
  unfolding load_placement_part
  placement-IsBounded d c h = assumption h

  document-IsBounded :
      (d : J) (c : RuntimeConfig J) → IsBounded c → IsBounded (load_document lib d c)
  unfolding load_document
  document-IsBounded d c h = devices-IsBounded d _ (
      geometry-IsBounded d _
        (placement-IsBounded d _ (display-IsBounded d _ (server-IsBounded d c h))))

  default-IsBounded : IsBounded (default_config lib)
  default-IsBounded = omega arith

  config_of-IsBounded : (r : JsonFileLoadResult J) → IsBounded (config_of lib r)
  unfolding config_of
  config_of-IsBounded missing = default-IsBounded
  config_of-IsBounded failed = default-IsBounded
  config_of-IsBounded (loaded d) = elim (Bool-cases (lib.is_object d)) [
    | inl e ↦ rw e (document-IsBounded d _ default-IsBounded)
    | inr e ↦ rw e default-IsBounded
  ]

  -- Whatever bytes the configuration file holds, and also without a file, every number of the loaded
  -- configuration lies in the range that its loader states.
  pub load_runtime_config-IsBounded :
      (file : Option Bytes) → IsBounded (load_runtime_config lib file)
  unfolding load_runtime_config
  load_runtime_config-IsBounded file = config_of-IsBounded (load_json_file lib file)
