-- ===== src/Server/Dispatch.antt =====
-- `Server::request` of madt-server/madt-server.cpp: the requests of a connection's buffer are taken
-- one by one, and each goes to its handler.
use open_madt.Prelude.{
  ℕ, zero, suc, Option, none, some, [], ◌∷◌, ◌++◌, Bytes, codes, equal, length, if◌then◌else◌,
}
use open_madt.Prelude.Map.{Map, lookup, insert, nat_key}
use open_madt.Json.{JsonLib}
use open_madt.Json.Access.{Outcome, or_throw, string_at}
use open_madt.Framing.{extract_single_json_object}
use open_madt.Crypto.{CryptoLib}
use open_madt.Gui.{GuiLib}
use open_madt.Server.State.{
  mtsrc_bad_request, Server, World, Moment, M, lift, send_response, ◌>>=◌, code_response,
}
use open_madt.Server.Queries.{
  handle_get_info, handle_get_random, handle_get_characteristics, handle_get_tab_map,
  handle_get_shortcuts, handle_get_settings,
}
use open_madt.Server.Sound.{handle_play_sound}
use open_madt.Server.Tabs.{
  handle_navigate_to, handle_blink_tab, handle_activate_tab, handle_kill_tab, handle_new_web_tab,
  handle_new_shortcut, handle_kill_shortcut, handle_i_am_alive,
}
use open_madt.Server.Control.{
  handle_set_settings, handle_stop, handle_restart, handle_capture_screenshot,
}

-- `requestCode`
pub data RequestCode : Type 0 where
  get_random get_info play_sound get_settings set_settings stop restart : RequestCode
  get_characteristics new_web_tab new_vnc_tab new_shortcut navigate_to blink_tab : RequestCode
  activate_tab kill_tab kill_shortcut i_am_alive get_tab_map get_shortcuts : RequestCode
  capture_screenshot unknown : RequestCode

abbrev pub map_cmd : Map Bytes RequestCode
map_cmd =
    (codes "GetRandom", get_random)
    ∷ (codes "GetInfo", get_info)
    ∷ (codes "PlaySound", play_sound)
    ∷ (codes "GetSettings", get_settings)
    ∷ (codes "SetSettings", set_settings)
    ∷ (codes "Stop", stop)
    ∷ (codes "Restart", restart)
    ∷ (codes "GetCharacteristics", get_characteristics)
    ∷ (codes "NewWebTab", new_web_tab)
    ∷ (codes "NewVncTab", new_vnc_tab)
    ∷ (codes "NewShortcut", new_shortcut)
    ∷ (codes "NavigateTo", navigate_to)
    ∷ (codes "BlinkTab", blink_tab)
    ∷ (codes "ActivateTab", activate_tab)
    ∷ (codes "KillTab", kill_tab)
    ∷ (codes "KillShortcut", kill_shortcut)
    ∷ (codes "IAmAlive", i_am_alive)
    ∷ (codes "GetTabMap", get_tab_map)
    ∷ (codes "GetShortcuts", get_shortcuts)
    ∷ (codes "CaptureScreenshot", capture_screenshot)
    ∷ []

unfoldable pub code_or_unknown : Option RequestCode → RequestCode
code_or_unknown none = unknown
code_or_unknown (some code) = code

unfoldable pub find_command : Bytes → Map Bytes RequestCode → Option RequestCode
find_command name [] = none
find_command name ((key, code) ∷ rest) =
    if equal name key then some code else find_command name rest

unfoldable pub convert_string_to_madt_request : Bytes → RequestCode
unfolding find_command code_or_unknown
convert_string_to_madt_request name = code_or_unknown (find_command name map_cmd)

module _ {J G : Type 0} (lib : JsonLib J) (crypto : CryptoLib) (gui : GuiLib J G)
    (swvers : Bytes) where
  -- The `switch` over the request.
  unfoldable pub dispatch : ℕ → Moment → J → RequestCode → M J G (Unit {0})
  dispatch bev m request get_random = handle_get_random lib crypto gui bev m
  dispatch bev m request get_info = handle_get_info lib crypto gui swvers bev
  dispatch bev m request get_settings = handle_get_settings lib crypto gui bev
  dispatch bev m request play_sound = handle_play_sound lib gui bev request
  dispatch bev m request set_settings = handle_set_settings lib crypto gui swvers bev m request
  dispatch bev m request get_characteristics = handle_get_characteristics lib crypto gui bev
  dispatch bev m request get_tab_map = handle_get_tab_map lib crypto gui bev request
  dispatch bev m request get_shortcuts = handle_get_shortcuts lib crypto gui bev request
  dispatch bev m request navigate_to = handle_navigate_to lib gui bev request
  dispatch bev m request i_am_alive = handle_i_am_alive lib gui bev m request
  dispatch bev m request stop = handle_stop lib crypto gui bev m request
  dispatch bev m request restart = handle_restart lib crypto gui bev m request
  dispatch bev m request new_web_tab = handle_new_web_tab lib gui bev m request
  dispatch bev m request new_shortcut = handle_new_shortcut lib gui bev m request
  dispatch bev m request activate_tab = handle_activate_tab lib gui bev request
  dispatch bev m request kill_tab = handle_kill_tab lib gui bev request
  dispatch bev m request kill_shortcut = handle_kill_shortcut lib gui bev request
  dispatch bev m request capture_screenshot = handle_capture_screenshot lib crypto gui bev m request
  dispatch bev m request blink_tab = handle_blink_tab lib gui bev request
  dispatch bev m request new_vnc_tab = send_response bev (code_response lib mtsrc_bad_request)
  dispatch bev m request unknown = send_response bev (code_response lib mtsrc_bad_request)

  -- The body of the `try` block.
  unfoldable pub attempt : ℕ → Moment → Bytes → M J G (Unit {0})
  attempt bev m text = do
    request ← lift (or_throw (lib.parse text))
    name ← lift (string_at lib request "req")
    dispatch bev m request (convert_string_to_madt_request name)

  -- `catch (...)`, from the state that the exception left.
  unfoldable pub recover : ℕ → Outcome (Unit {0}) × World J G → Outcome (Unit {0}) × World J G
  recover bev (Outcome.ok u, w) = (Outcome.ok u, w)
  recover bev (Outcome.throws, w) = send_response bev (code_response lib mtsrc_bad_request) w
  recover bev (Outcome.undefined, w) = (Outcome.undefined, w)

  unfoldable pub serve_text : ℕ → Moment → Bytes → M J G (Unit {0})
  unfolding recover
  serve_text bev m text w = recover bev (attempt bev m text w)

  abbrev pub set_buffer : ℕ → Bytes → World J G → World J G
  set_buffer bev buffer w = record w {
    server = record w.server { connection_buffers = insert bev buffer w.server.connection_buffers };
  }

  -- The `while` loop, with the moments of its rounds. `none` means that the fuel ran out. A round
  -- with undefined behaviour ends the run.
  unfoldable pub serve_buffer :
      ℕ → (ℕ → Moment) → ℕ → ℕ → Bytes → World J G → Option (Outcome (Unit {0}) × World J G)
  serve_buffer zero moments round bev buffer w = none
  serve_buffer (suc fuel) moments round bev buffer w =
      let (taken, left) = extract_single_json_object buffer in
      elim taken [
        | none ↦ some (Outcome.ok tt, set_buffer bev left w)
        | some text ↦
            let (r, w') = serve_text bev (moments round) text (set_buffer bev left w) in
            elim r [
              | Outcome.ok u ↦ serve_buffer fuel moments (suc round) bev left w'
              | Outcome.throws ↦ some (Outcome.throws, w')
              | Outcome.undefined ↦ some (Outcome.undefined, w')
            ]
      ]

  -- `connectionBuffers[bev]` with the new bytes.
  unfoldable pub buffer_with : ℕ → Bytes → Server J → Bytes
  buffer_with bev bytes s = elim (lookup bev s.connection_buffers) [
    | none ↦ bytes
    | some old ↦ old ++ bytes
  ]

  -- `Server::request`, with one round of fuel more than the buffer has bytes.
  unfoldable pub request :
      (ℕ → Moment) → ℕ → Bytes → World J G → Option (Outcome (Unit {0}) × World J G)
  unfolding serve_buffer buffer_with
  request moments bev bytes w =
      let buffer = buffer_with bev bytes w.server in
      serve_buffer (suc (length buffer)) moments 0 bev buffer (set_buffer bev buffer w)
