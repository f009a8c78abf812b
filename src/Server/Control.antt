-- ===== src/Server/Control.antt =====
-- The handlers that change the terminal or stop it (madt-server/madt-server.cpp): SetSettings, Stop,
-- Restart and CaptureScreenshot, and what the DNS-SD advertiser announces.
use open_madt.Prelude.{
  ℕ, ◌+◌, ◌/◌, ◌%◌, Bool, true, false, Option, none, some, List, [], ◌∷◌, String, Bytes, codes, map,
  leb, ltb, is_empty, if◌then◌else◌,
}
use open_madt.Prelude.Int.{ℤ, pos, pos_part}
use open_madt.Json.{JsonLib}
use open_madt.Json.Access
use open_madt.Json.Access.{Outcome, or_throw, string_or, int_or, string_field}
use open_madt.Settings.{SettingsState, is_valid_settings_patch, merge_settings}
use open_madt.Crypto.{CryptoLib}
use open_madt.Gui.{ResultCode, GuiCall, GuiReply, GuiLib}
use open_madt.Server.State.{
  mtsrc_ok, mtsrc_bad_request, Server, Moment, M, lift, gets, modify, send_response, request_exit,
  gui_call, ◌>>=◌, ◌>>◌, reply_code, is_ok, response_with, code_response,
}
use open_madt.Server.Auth.{authorize_control_request}

-- `std::tolower` in the C locale.
unfoldable pub to_lower : ℕ → ℕ
to_lower c = if leb b'A' c then (if leb c b'Z' then c + 32 else c) else c

-- `std::to_string` of an interval, which is below 100.
unfoldable pub small_decimal : ℕ → Bytes
small_decimal n = if ltb n 10 then (b'0' + n) ∷ [] else (b'0' + n / 10) ∷ (b'0' + n % 10) ∷ []

module _ {J : Type 0} where
  unfoldable pub current_active_mode_dns_sd_value : Server J → Bytes
  unfolding to_lower
  current_active_mode_dns_sd_value s = map to_lower s.settings_state.active_mode

  -- The text records of `setTxt`.
  unfoldable pub text_records : Bytes → Bytes → Server J → List (Bytes × Bytes)
  unfolding current_active_mode_dns_sd_value small_decimal
  text_records software_version timestamp s =
      (codes "txtvers", codes "1")
      ∷ (codes "version", codes "3.0.1")
      ∷ (codes "release", s.runtime_config.dns_sd_release)
      ∷ (codes "swvers", software_version)
      ∷ (codes "manufacturer", s.runtime_config.dns_sd_manufacturer)
      ∷ (codes "atdatetime", timestamp)
      ∷ (codes "interval", small_decimal (pos_part s.runtime_config.dns_sd_interval_minutes))
      ∷ (codes "activemode", current_active_mode_dns_sd_value s)
      ∷ []

  -- The settings that were applied, and the announcement of the new mode.
  unfoldable pub adopt_settings :
      Bytes → Moment → SettingsState J → GuiReply J → Server J → Server J
  unfolding text_records
  adopt_settings software_version m settings reply s =
      if is_ok (reply_code reply)
      then (let changed = record s { settings_state = settings } in
          record changed {
            announced = elim s.announced [
              | none ↦ none
              | some old ↦ some (text_records software_version m.timestamp changed)
            ];
          })
      else s

module _ {J G : Type 0} (lib : JsonLib J) (crypto : CryptoLib) (gui : GuiLib J G) where
  unfoldable pub set_settings : Bytes → ℕ → Moment → J → Option String → M J G (Unit {0})
  unfolding adopt_settings
  set_settings software_version bev m request (some error) =
      send_response bev (code_response lib mtsrc_bad_request)
  set_settings software_version bev m request none = do
    s ← gets (λ s. s)
    settings ← lift (merge_settings lib s.settings_state request)
    reply ← gui_call gui (GuiCall.apply_settings settings)
    modify (adopt_settings software_version m settings reply)
    send_response bev (code_response lib (reply_code reply))

  unfoldable pub handle_set_settings : Bytes → ℕ → Moment → J → M J G (Unit {0})
  unfolding set_settings
  handle_set_settings software_version bev m request =
      set_settings software_version bev m request (is_valid_settings_patch lib request)

  -- `authorizeControlRequest` as an action: its result, and the nonces that it leaves.
  unfoldable pub authorize : J → Bytes → Moment → M J G Bool
  authorize request req_name m = do
    s ← gets (λ s. s)
    let result = authorize_control_request lib crypto request req_name m.now s
    modify (λ s. record s { control_nonces = result.1 })
    lift (Outcome.ok result.0)

  -- `handleStop` and `handleRestart`: the name of the request and the exit code.
  unfoldable pub leave : Bytes → ℤ → ℕ → Moment → J → M J G (Unit {0})
  unfolding authorize
  leave req_name code bev m request = do
    allowed ← authorize request req_name m
    if allowed
        then (do send_response bev (code_response lib mtsrc_ok); request_exit code)
        else send_response bev (code_response lib mtsrc_bad_request)

  unfoldable pub handle_stop : ℕ → Moment → J → M J G (Unit {0})
  unfolding leave
  handle_stop = leave (codes "Stop") (pos 0)

  unfoldable pub handle_restart : ℕ → Moment → J → M J G (Unit {0})
  unfolding leave
  handle_restart = leave (codes "Restart") (pos 1)

  unfoldable pub screenshot_fields : GuiReply J → Outcome (List (String × J))
  screenshot_fields (GuiReply.answered ResultCode.ok payload) =
      Access.◌>>=◌ (string_or lib payload "fileName" []) λ file.
        Access.◌>>=◌ (int_or lib payload "width" (pos 0)) λ width.
          Access.◌>>=◌ (int_or lib payload "height" (pos 0)) λ height. Outcome.ok (
            ("fileName", lib.text file)
            ∷ ("width", lib.int width)
            ∷ ("height", lib.int height)
            ∷ [])
  screenshot_fields (GuiReply.answered ResultCode.tab_not_found payload) = Outcome.ok []
  screenshot_fields (GuiReply.answered ResultCode.exec_error payload) = Outcome.ok []
  screenshot_fields GuiReply.refused = Outcome.ok []

  -- A file name that is there, a string and not empty.
  unfoldable pub file_name : J → Option Bytes
  file_name request = elim (string_field lib request "fileName") [
    | none ↦ none
    | some file ↦ if is_empty file then none else some file
  ]

  unfoldable pub capture : ℕ → Bool → Option Bytes → M J G (Unit {0})
  unfolding screenshot_fields
  capture bev true (some file) = do
    reply ← gui_call gui (GuiCall.capture_screenshot file)
    fields ← lift (screenshot_fields reply)
    send_response bev (response_with lib (reply_code reply) fields)
  capture bev true none = send_response bev (code_response lib mtsrc_bad_request)
  capture bev false file = send_response bev (code_response lib mtsrc_bad_request)

  unfoldable pub handle_capture_screenshot : ℕ → Moment → J → M J G (Unit {0})
  unfolding authorize capture file_name
  handle_capture_screenshot bev m request = do
    allowed ← authorize request (codes "CaptureScreenshot") m
    capture bev allowed (file_name request)
