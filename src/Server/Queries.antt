-- ===== src/Server/Queries.antt =====
-- The handlers that report (madt-server/madt-server.cpp): GetInfo, GetRandom, GetCharacteristics,
-- GetTabMap, GetShortcuts and GetSettings.
use open_madt.Prelude.{
  ℕ, Option, none, some, List, [], ◌∷◌, ◌++◌, String, Bytes, codes, is_empty, if◌then◌else◌,
}
use open_madt.Prelude.Int.{ℤ, pos}
use open_madt.Prelude.Map.{insert, bytes_key}
use open_madt.Json.{JsonLib}
use open_madt.Json.Access
use open_madt.Json.Access.{Outcome, int_or}
use open_madt.Settings.{settings_fields}
use open_madt.Crypto.{CryptoLib, generate_random_token}
use open_madt.Gui.{ResultCode, GuiCall, GuiReply, GuiLib}
use open_madt.Server.State.{
  mtsrc_ok, mtsrc_bad_request, mtsrc_exec_error, Server, Moment, M, lift, gets, modify,
  send_response, gui_call, ◌>>=◌, ◌>>◌, reply_code, response_with, code_response,
}
use open_madt.Server.Auth.{authorize_with_password, fresh_nonce}

abbrev pub max_tabs : ℤ
max_tabs = pos 20

module _ {J G : Type 0} (lib : JsonLib J) (crypto : CryptoLib) (gui : GuiLib J G) where
  abbrev text : String → J
  text s = lib.text (codes s)

  -- `swvers` is fixed when the program is built.
  unfoldable pub handle_get_info : Bytes → ℕ → M J G (Unit {0})
  handle_get_info software_version bev = do
    s ← gets (λ s. s)
    send_response bev (
        response_with lib mtsrc_ok (
          ("version", text "3.0.1")
          ∷ ("swvers", lib.text software_version)
          ∷ ("hasVNC", lib.int (pos 0))
          ∷ ("hasShortcut", lib.int (if s.runtime_config.shortcuts_enabled then pos 1 else pos 0))
          ∷ ("hasSound", lib.int (pos 1))
          ∷ ("extraInfo", text "madt")
          ∷ []))

  -- With the token that `generateRandomToken` made.
  unfoldable pub give_nonce : ℕ → Moment → Option Bytes → M J G (Unit {0})
  give_nonce bev m none = send_response bev (code_response lib mtsrc_exec_error)
  give_nonce bev m (some nonce) = do
    s ← gets (λ s. s)
    modify (λ s. record s {
      control_nonces = insert m.uuid (fresh_nonce lib crypto s m nonce) s.control_nonces;
    })
    send_response bev (
        response_with lib mtsrc_ok (
          ("nonceId", lib.text m.uuid)
          ∷ ("nonce", lib.text nonce)
          ∷ ("ttl", lib.int s.runtime_config.control_nonce_ttl_seconds)
          ∷ ("algo", text "HMAC-SHA256")
          ∷ []))

  unfoldable pub handle_get_random : ℕ → Moment → M J G (Unit {0})
  unfolding give_nonce
  handle_get_random bev m = do
    s ← gets (λ s. s)
    if is_empty s.runtime_config.control_psk
        then send_response bev (code_response lib mtsrc_bad_request)
        else give_nonce bev m (generate_random_token crypto m.random)

  -- The fields behind `retCode`; `payload.value` may throw.
  unfoldable pub characteristics_fields : Server J → GuiReply J → Outcome (List (String × J))
  characteristics_fields s (GuiReply.answered ResultCode.ok payload) =
      Access.◌>>=◌ (int_or lib payload "winWidth" (pos 0)) λ width.
        Access.◌>>=◌ (int_or lib payload "winHeight" (pos 0)) λ height. Outcome.ok (
          ("winWidth", lib.int width)
          ∷ ("winHeight", lib.int height)
          ∷ ("iconWidth", lib.int s.runtime_config.tab_bar_width)
          ∷ ("iconHeight", lib.int s.runtime_config.tab_bar_height)
          ∷ ("maxTabs", lib.int max_tabs)
          ∷ [])
  characteristics_fields s (GuiReply.answered ResultCode.tab_not_found payload) = Outcome.ok []
  characteristics_fields s (GuiReply.answered ResultCode.exec_error payload) = Outcome.ok []
  characteristics_fields s GuiReply.refused = Outcome.ok []

  unfoldable pub handle_get_characteristics : ℕ → M J G (Unit {0})
  unfolding characteristics_fields
  handle_get_characteristics bev = do
    reply ← gui_call gui GuiCall.get_characteristics
    s ← gets (λ s. s)
    fields ← lift (characteristics_fields s reply)
    send_response bev (response_with lib (reply_code reply) fields)

  -- The payload of an answer, as one more field behind others.
  unfoldable pub payload_field : List (String × J) → String → GuiReply J → List (String × J)
  payload_field before key (GuiReply.answered ResultCode.ok payload) = before ++ (key, payload) ∷ []
  payload_field before key (GuiReply.answered ResultCode.tab_not_found payload) = []
  payload_field before key (GuiReply.answered ResultCode.exec_error payload) = []
  payload_field before key GuiReply.refused = []

  -- GetTabMap and GetShortcuts: a password, one call, and its payload.
  unfoldable pub report_payload : GuiCall J → List (String × J) → String → ℕ → J → M J G (Unit {0})
  unfolding payload_field
  report_payload query before key bev request = do
    s ← gets (λ s. s)
    if authorize_with_password lib crypto request s.runtime_config.tab_map_password
        then (do
          reply ← gui_call gui query
          send_response bev (response_with lib (reply_code reply) (payload_field before key reply)))
        else send_response bev (code_response lib mtsrc_bad_request)

  unfoldable pub handle_get_tab_map : ℕ → J → M J G (Unit {0})
  unfolding report_payload
  handle_get_tab_map =
      report_payload GuiCall.get_tab_map (("maxTabs", lib.int max_tabs) ∷ []) "tabMap"

  unfoldable pub handle_get_shortcuts : ℕ → J → M J G (Unit {0})
  unfolding report_payload
  handle_get_shortcuts = report_payload GuiCall.get_shortcuts [] "shortcuts"

  unfoldable pub handle_get_settings : ℕ → M J G (Unit {0})
  handle_get_settings bev = do
    s ← gets (λ s. s)
    send_response bev (response_with lib mtsrc_ok (settings_fields lib s.settings_state))
