-- ===== src/Server/State.antt =====
-- The members of `Server` in madt-server/madt-server.h, and handlers as actions on them.
use open_madt.Prelude.{ℕ, ◌*◌, Bool, true, false, Option, some, List, [], ◌∷◌, ◌++◌, String, Bytes}
use open_madt.Prelude.Int.{ℤ, pos}
use open_madt.Prelude.Map.{Map}
use open_madt.Json.{JsonLib}
use open_madt.Json.Access.{Outcome}
use open_madt.Settings.{SettingsState}
use open_madt.Config.{RuntimeConfig}
use open_madt.Gui.{ResultCode, GuiCall, GuiReply, GuiLib}

-- `returnCode`
pub data ReturnCode : Type 0 where
  mtsrc_ok mtsrc_bad_request mtsrc_invalid_tab mtsrc_exec_error mtsrc_bad_answer : ReturnCode

abbrev pub code_number : ReturnCode → ℕ
code_number mtsrc_ok = 0
code_number mtsrc_bad_request = 1
code_number mtsrc_invalid_tab = 2
code_number mtsrc_exec_error = 3
code_number mtsrc_bad_answer = 4

pub record ControlNonce : Type 0 where
  pub nonce : Bytes
  pub expires_at : ℕ
  pub used : Bool

-- A lease: `none` where the tab or shortcut has no time of its own.
abbrev pub Leases : Type 0
Leases = Map Bytes (Option ℕ)

-- Connections are the addresses of their `bufferevent`, and 0 is `nullptr`.
pub record Server (J : Type 0) : Type 0 where
  pub runtime_config : RuntimeConfig J
  pub settings_state : SettingsState J
  -- what the DNS-SD advertiser announces; `none` where there is no advertiser
  pub announced : Option (List (Bytes × Bytes))
  pub tab_leases : Leases
  pub shortcut_leases : Leases
  pub control_nonces : Map Bytes ControlNonce
  pub connection_tabs : Map ℕ (Map Bytes (Unit {0}))
  pub connection_buffers : Map ℕ Bytes
  pub extra_tab_id : Bytes

-- The server with what it acts on: the user interface, the responses that it has written to its
-- connections, and the exit code once the process is told to stop.
pub record World (J G : Type 0) : Type 0 where
  pub server : Server J
  pub gui : G
  pub sent : List (ℕ × J)
  pub exit_code : Option ℤ

-- What a handler reads from outside: the steady clock, a fresh UUID, random bytes (`none` if
-- `RAND_bytes` fails) and the formatted UTC time.
pub record Moment : Type 0 where
  pub now : ℕ
  pub uuid : Bytes
  pub random : Option Bytes
  pub timestamp : Bytes

-- `std::chrono::seconds(n)` in the ticks of the clock, which counts nanoseconds.
abbrev pub seconds : ℕ → ℕ
seconds n = n * 1000000000

abbrev pub M : Type 0 → Type 0 → Type 0 → Type 0
M J G A = World J G → Outcome A × World J G

module _ {J G A : Type 0} where
  -- An expression that changes nothing, and may throw.
  unfoldable pub lift : Outcome A → M J G A
  lift r w = (r, w)

  unfoldable pub gets : (Server J → A) → M J G A
  gets f w = (Outcome.ok (f w.server), w)

module _ {J G A B : Type 0} where
  abbrev pub continue : Outcome A → (A → M J G B) → M J G B
  continue (Outcome.ok a) f w = f a w
  continue Outcome.throws f w = (Outcome.throws, w)
  continue Outcome.undefined f w = (Outcome.undefined, w)

  infixl 5 ◌>>=◌ ◌>>◌
  unfoldable pub ◌>>=◌ : M J G A → (A → M J G B) → M J G B
  unfolding lift gets
  ◌>>=◌ m f w = let (r, w') = m w in continue r f w'

  abbrev pub ◌>>◌ : M J G A → M J G B → M J G B
  m >> n = m >>= λ _. n

module _ {J G : Type 0} where
  unfoldable pub modify : (Server J → Server J) → M J G (Unit {0})
  modify f w = (Outcome.ok tt, record w { server = f w.server })

  -- `sendResponse`
  unfoldable pub send_response : ℕ → J → M J G (Unit {0})
  send_response bev response w = (Outcome.ok tt, record w { sent = w.sent ++ (bev, response) ∷ [] })

  -- `Process::stop()` and `Gui::requestExit(code)`
  unfoldable pub request_exit : ℤ → M J G (Unit {0})
  request_exit code w = (Outcome.ok tt, record w { exit_code = some code })

  unfoldable pub gui_call : GuiLib J G → GuiCall J → M J G (GuiReply J)
  gui_call gui c w = let (r, g) = gui.call w.gui c in (Outcome.ok r, record w { gui = g })

-- `convertGuiResultToMadt`
unfoldable pub convert_gui_result_to_madt : ResultCode → ReturnCode
convert_gui_result_to_madt ResultCode.ok = mtsrc_ok
convert_gui_result_to_madt ResultCode.exec_error = mtsrc_exec_error
convert_gui_result_to_madt ResultCode.tab_not_found = mtsrc_invalid_tab

-- The `retCode` of a call: that of its result, or `MTSRC_EXEC_ERROR` if there is no user interface.
unfoldable pub reply_code : {J : Type 0} → GuiReply J → ReturnCode
unfolding convert_gui_result_to_madt
reply_code GuiReply.refused = mtsrc_exec_error
reply_code (GuiReply.answered result payload) = convert_gui_result_to_madt result

abbrev pub is_ok : ReturnCode → Bool
is_ok mtsrc_ok = true
is_ok mtsrc_bad_request = false
is_ok mtsrc_invalid_tab = false
is_ok mtsrc_exec_error = false
is_ok mtsrc_bad_answer = false

-- A response with its `retCode` and further fields.
unfoldable pub response_with : {J : Type 0} → JsonLib J → ReturnCode → List (String × J) → J
response_with lib code fields = lib.object (("retCode", lib.int (pos (code_number code))) ∷ fields)

abbrev pub code_response : {J : Type 0} → JsonLib J → ReturnCode → J
code_response lib code = response_with lib code []
