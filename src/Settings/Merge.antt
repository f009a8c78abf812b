-- ===== src/Settings/Merge.antt =====
-- SetSettings as its two steps: the test of a patch, and the merge of a patch that passed.
use open_madt.Prelude.{
  true, Option, none, some, List, Bytes, ◌≡◌, refl, arith, Option-cases, inl, inr,
}
use open_madt.Prelude.Int.{ℤ, pos, ◌≤ℤ◌}
use open_madt.Json.{JsonLib, JsonLaws, first_field}
use open_madt.Json.Access.{ok}
use open_madt.Settings.{
  SettingsState, is_valid_mode, active_modes, visual_modes, settings_to_json, string_allowed,
  level_allowed, mode_allowed, is_valid_settings_patch, merge_string, merge_int, merge_json,
  merge_settings,
}

-- What the settings promise to a client.
pub record IsInRange {J : Type 0} (s : SettingsState J) : Type 0 where
  pub brightness_low : pos 0 ≤ℤ s.brightness
  pub brightness_high : s.brightness ≤ℤ pos 255
  pub contrast_low : pos 0 ≤ℤ s.contrast
  pub contrast_high : s.contrast ≤ℤ pos 255
  pub default_active : is_valid_mode s.default_active_mode active_modes ≡ true
  pub active : is_valid_mode s.active_mode active_modes ≡ true
  pub default_visual : is_valid_mode s.default_visual_mode visual_modes ≡ true
  pub visual : is_valid_mode s.visual_mode visual_modes ≡ true

module _ {J : Type 0} (lib : JsonLib J) where
  record Passed (patch : J) : Type 0 where
    object : lib.is_object patch ≡ true
    volume : string_allowed lib (lib.find patch "volume") ≡ true
    brightness : level_allowed lib (lib.find patch "brightness") ≡ true
    contrast : level_allowed lib (lib.find patch "contrast") ≡ true
    language : string_allowed lib (lib.find patch "language") ≡ true
    default_active : mode_allowed lib active_modes (lib.find patch "defaultActiveMode") ≡ true
    active : mode_allowed lib active_modes (lib.find patch "activeMode") ≡ true
    default_visual : mode_allowed lib visual_modes (lib.find patch "defaultVisualMode") ≡ true
    visual : mode_allowed lib visual_modes (lib.find patch "visualMode") ≡ true

  valid-Passed : (patch : J) → is_valid_settings_patch lib patch ≡ none → Passed patch
  unfolding is_valid_settings_patch
  valid-Passed patch h = ground arith

  Passed-valid : (patch : J) → Passed patch → is_valid_settings_patch lib patch ≡ none
  unfolding is_valid_settings_patch
  Passed-valid patch h = ground arith

  merge_string_total :
      (current : Bytes) (o : Option J)
      → string_allowed lib o ≡ true
      → (b : Bytes) × (merge_string lib current o ≡ ok b)
  unfolding string_allowed merge_string
  merge_string_total current none h = (current, refl)
  merge_string_total current (some v) h = elim (Option-cases (lib.get_string v)) [
    | inl e ↦ absurd (ground arith)
    | inr (b, e) ↦ (b, ground arith)
  ]

  merge_int_total :
      (current : ℤ) (o : Option J)
      → level_allowed lib o ≡ true
      → pos 0 ≤ℤ current
      → current ≤ℤ pos 255
      → (i : ℤ) × (merge_int lib current o ≡ ok i) × (pos 0 ≤ℤ i) × (i ≤ℤ pos 255)
  unfolding level_allowed merge_int
  merge_int_total current none h lo hi = (current, refl, lo, hi)
  merge_int_total current (some v) h lo hi = elim (Option-cases (lib.get_int v)) [
    | inl e ↦ absurd (ground arith)
    | inr (i, e) ↦ (i, ground arith, ground arith, ground arith)
  ]

  merge_mode_total :
      (allowed : List Bytes) (current : Bytes) (o : Option J)
      → mode_allowed lib allowed o ≡ true
      → is_valid_mode current allowed ≡ true
      → (b : Bytes) × (merge_string lib current o ≡ ok b) × (is_valid_mode b allowed ≡ true)
  unfolding mode_allowed merge_string
  merge_mode_total allowed current none h v = (current, refl, v)
  merge_mode_total allowed current (some j) h v = elim (Option-cases (lib.get_string j)) [
    | inl e ↦ absurd (ground arith)
    | inr (b, e) ↦ (b, ground arith, ground arith)
  ]

  merge-Passed :
      (s : SettingsState J) (patch : J)
      → Passed patch
      → IsInRange s
      → (s' : SettingsState J) × (merge_settings lib s patch ≡ ok s') × IsInRange s'
  unfolding merge_settings
  merge-Passed s patch p r =
      let (volume, e1) = merge_string_total s.volume (lib.find patch "volume") p.volume in
      let (brightness, e2, lo2, hi2) =
        merge_int_total s.brightness (lib.find patch "brightness") p.brightness r.brightness_low
          r.brightness_high in
      let (contrast, e3, lo3, hi3) =
        merge_int_total s.contrast (lib.find patch "contrast") p.contrast r.contrast_low
          r.contrast_high in
      let (language, e4) = merge_string_total s.language (lib.find patch "language") p.language in
      let (default_active, e5, v5) =
        merge_mode_total active_modes s.default_active_mode (lib.find patch "defaultActiveMode")
          p.default_active r.default_active in
      let (active, e6, v6) =
        merge_mode_total active_modes s.active_mode (lib.find patch "activeMode") p.active
          r.active in
      let (default_visual, e7, v7) =
        merge_mode_total visual_modes s.default_visual_mode (lib.find patch "defaultVisualMode")
          p.default_visual r.default_visual in
      let (visual, e8, v8) =
        merge_mode_total visual_modes s.visual_mode (lib.find patch "visualMode") p.visual
          r.visual in
      (
        record {
          volume = volume;
          brightness = brightness;
          contrast = contrast;
          language = language;
          default_active_mode = default_active;
          active_mode = active;
          default_visual_mode = default_visual;
          visual_mode = visual;
          extra1 = merge_json lib s.extra1 (lib.find patch "extra1");
          extra2 = merge_json lib s.extra2 (lib.find patch "extra2");
        },
        rw (e1, e2, e3, e4, e5, e6, e7, e8),
        record {
          brightness_low = lo2;
          brightness_high = hi2;
          contrast_low = lo3;
          contrast_high = hi3;
          default_active = v5;
          active = v6;
          default_visual = v7;
          visual = v8;
        },
      )

  -- A patch that the test accepts merges without an exception, and settings in range stay in range.
  pub merge-valid-IsInRange :
      (s : SettingsState J) (patch : J)
      → is_valid_settings_patch lib patch ≡ none
      → IsInRange s
      → (s' : SettingsState J) × (merge_settings lib s patch ≡ ok s') × IsInRange s'
  merge-valid-IsInRange s patch h r = merge-Passed s patch (valid-Passed patch h) r

  -- Sending back what GetSettings shows sets every field: whatever the settings were before, they
  -- are those that were shown.
  pub merge-settings_to_json :
      JsonLaws lib
      → (current s : SettingsState J) → merge_settings lib current (settings_to_json lib s) ≡ ok s
  unfolding merge_settings settings_to_json first_field merge_string merge_int merge_json
  merge-settings_to_json laws current s =
      simp (laws.find-object, laws.get_string-text, laws.get_int-int)

  -- The settings that GetSettings shows pass the test of SetSettings, if they are in range.
  pub valid-settings_to_json :
      JsonLaws lib
      → (s : SettingsState J) → IsInRange s
      → is_valid_settings_patch lib (settings_to_json lib s) ≡ none
  unfolding settings_to_json first_field string_allowed level_allowed mode_allowed
  valid-settings_to_json laws s r = Passed-valid (settings_to_json lib s) (record {
    object = laws.is_object-object _;
    volume = simp (laws.find-object, laws.get_string-text);
    brightness =
        simp (laws.find-object, laws.is_number_integer-int, laws.get_int-int) (ground arith);
    contrast = simp (laws.find-object, laws.is_number_integer-int, laws.get_int-int) (ground arith);
    language = simp (laws.find-object, laws.get_string-text);
    default_active = simp (laws.find-object, laws.get_string-text) r.default_active;
    active = simp (laws.find-object, laws.get_string-text) r.active;
    default_visual = simp (laws.find-object, laws.get_string-text) r.default_visual;
    visual = simp (laws.find-object, laws.get_string-text) r.visual;
  })
