-- ===== src/Server/Tabs.antt =====
-- The handlers of tabs and shortcuts (madt-server/madt-server.cpp).
use open_madt.Prelude.{
  ℕ, ◌+◌, ◌%◌, Bool, true, false, not, Option, none, some, List, [], ◌∷◌, ◌++◌, String, Bytes,
  codes, ◌==◌, if◌then◌else◌,
}
use open_madt.Prelude.Int.{ℤ, pos, negsuc, pos_part, neg_part, ltb_ℤ, eq_ℤ}
use open_madt.Prelude.Map.{erase, emplace, bytes_key}
use open_madt.Json.{JsonLib}
use open_madt.Json.Access.{or_throw, string_at, string_or, int_or, string_field}
use open_madt.Gui.{GuiCall, GuiReply, GuiLib}
use open_madt.Server.State.{
  mtsrc_ok, mtsrc_bad_request, mtsrc_invalid_tab, Server, Moment, M, seconds, lift, gets, modify,
  send_response, gui_call, ◌>>=◌, ◌>>◌, reply_code, is_ok, response_with, code_response,
}
use open_madt.Server.Leases.{
  remember_owned_tab, has_lease, has_tab, is_extra_tab, kill_tab_internal, renew_tab,
  renew_shortcut,
}

-- `(flags & FLAG_APPEND_ID) != 0`: the lowest bit, also of a negative number.
unfoldable pub appends_id : ℤ → Bool
appends_id flags = not ((pos_part flags + neg_part flags) % 2 == 0)

unfoldable pub has_query : Bytes → Bool
has_query [] = false
has_query (c ∷ cs) = let rest = has_query cs in if c == b'?' then true else rest

unfoldable pub build_web_tab_url : Bytes → Bytes → ℤ → Bytes
unfolding appends_id has_query
build_web_tab_url url tab_id flags =
    if not (appends_id flags)
    then url
    else url ++ (if has_query url then b'&' else b'?') ∷ codes "tabid=" ++ tab_id

abbrev pub pos_any : ℤ
pos_any = negsuc 0

abbrev pub pos_extra : ℤ
pos_extra = negsuc 9

module _ {J G : Type 0} (lib : JsonLib J) (gui : GuiLib J G) where
  abbrev pub reply_with_code : ℕ → GuiCall J → M J G (Unit {0})
  reply_with_code bev c = do
    reply ← gui_call gui c
    send_response bev (code_response lib (reply_code reply))

  unfoldable pub handle_navigate_to : ℕ → J → M J G (Unit {0})
  handle_navigate_to bev request = do
    tab_id ← lift (string_at lib request "tabId")
    url ← lift (string_at lib request "url")
    reply_with_code bev (GuiCall.navigate_to tab_id url)

  unfoldable pub handle_blink_tab : ℕ → J → M J G (Unit {0})
  handle_blink_tab bev request = do
    tab_id ← lift (string_at lib request "tabId")
    reply_with_code bev (GuiCall.blink_tab tab_id)

  unfoldable pub handle_activate_tab : ℕ → J → M J G (Unit {0})
  handle_activate_tab bev request = do
    tab_id ← lift (string_at lib request "tabId")
    reply_with_code bev (GuiCall.activate_tab tab_id)

  -- `json::operator[]` at "tabId" and `get<std::string>()`.
  unfoldable pub handle_kill_tab : ℕ → J → M J G (Unit {0})
  handle_kill_tab bev request = do
    tab_id ← lift (string_at lib request "tabId")
    s ← gets (λ s. s)
    code ← kill_tab_internal gui tab_id (not (is_extra_tab tab_id s))
    send_response bev (code_response lib code)

  -- `response["tabId"]` and the ownership of a tab that was created.
  unfoldable pub adopt_tab : ℕ → Bytes → ℤ → GuiReply J → Server J → Server J
  adopt_tab bev uuid preferred_pos reply s =
      if is_ok (reply_code reply)
      then (let owned = remember_owned_tab bev uuid s in
          if eq_ℤ preferred_pos pos_extra then record owned { extra_tab_id = uuid } else owned)
      else s

  abbrev id_field : String → Bytes → GuiReply J → List (String × J)
  id_field key id reply = if is_ok (reply_code reply) then (key, lib.text id) ∷ [] else []

  unfoldable pub handle_new_web_tab : ℕ → Moment → J → M J G (Unit {0})
  unfolding adopt_tab
  handle_new_web_tab bev m request = do
    icon_url ← lift (string_or lib request "iconUrl" [])
    preferred_pos ← lift (int_or lib request "preferredPos" pos_any)
    flags ← lift (int_or lib request "flags" (pos 0))
    requested ← lift (string_at lib request "url")
    reply ← gui_call gui (
        GuiCall.new_web_tab (build_web_tab_url requested m.uuid flags) icon_url preferred_pos flags
          m.uuid)
    modify (adopt_tab bev m.uuid preferred_pos reply)
    send_response bev (response_with lib (reply_code reply) (id_field "tabId" m.uuid reply))

  unfoldable pub adopt_shortcut : Bytes → GuiReply J → Server J → Server J
  adopt_shortcut id reply s =
      if is_ok (reply_code reply)
      then record s { shortcut_leases = emplace id none s.shortcut_leases }
      else s

  unfoldable pub handle_new_shortcut : ℕ → Moment → J → M J G (Unit {0})
  unfolding adopt_shortcut
  handle_new_shortcut bev m request = do
    icon_url ← lift (string_or lib request "iconUrl" [])
    preferred_pos ← lift (int_or lib request "preferredPos" pos_any)
    flags ← lift (int_or lib request "flags" (pos 0))
    url ← lift (string_at lib request "url")
    reply ← gui_call gui (GuiCall.new_shortcut url icon_url preferred_pos flags m.uuid)
    modify (adopt_shortcut m.uuid reply)
    send_response bev (response_with lib (reply_code reply) (id_field "shortcutId" m.uuid reply))

  unfoldable pub release_shortcut : Bytes → GuiReply J → Server J → Server J
  release_shortcut id reply s =
      if is_ok (reply_code reply)
      then record s { shortcut_leases = erase id s.shortcut_leases }
      else s

  -- From the text of "shortcutId" on.
  unfoldable pub kill_shortcut_id : ℕ → Bytes → M J G (Unit {0})
  unfolding release_shortcut
  kill_shortcut_id bev id = do
    reply ← gui_call gui (GuiCall.kill_shortcut id)
    modify (release_shortcut id reply)
    send_response bev (code_response lib (reply_code reply))

  unfoldable pub handle_kill_shortcut : ℕ → J → M J G (Unit {0})
  unfolding kill_shortcut_id
  handle_kill_shortcut bev request = do
    id ← lift (string_at lib request "shortcutId")
    kill_shortcut_id bev id

  unfoldable pub tab_alive : ℕ → Moment → ℤ → Bytes → M J G (Unit {0})
  unfolding renew_tab
  tab_alive bev m ttl id = do
    s ← gets (λ s. s)
    if not (has_tab id s)
        then send_response bev (code_response lib mtsrc_invalid_tab)
        else (if eq_ℤ ttl (pos 0)
            then (do
              code ← kill_tab_internal gui id true
              send_response bev (code_response lib code))
            else (do
              modify (renew_tab id (m.now + seconds (pos_part ttl)))
              send_response bev (code_response lib mtsrc_ok)))

  -- `handleKillShortcut` is called on an object with this one field, a string.
  unfoldable pub shortcut_alive : ℕ → Moment → ℤ → Bytes → M J G (Unit {0})
  unfolding renew_shortcut
  shortcut_alive bev m ttl id = do
    s ← gets (λ s. s)
    if not (has_lease s.shortcut_leases id)
        then send_response bev (code_response lib mtsrc_invalid_tab)
        else (if eq_ℤ ttl (pos 0)
            then handle_kill_shortcut bev (lib.object (("shortcutId", lib.text id) ∷ []))
            else (do
              modify (renew_shortcut id (m.now + seconds (pos_part ttl)))
              send_response bev (code_response lib mtsrc_ok)))

  -- `get<int>()` of the TTL; a negative one is refused.
  unfoldable pub with_ttl : ℕ → J → (ℤ → M J G (Unit {0})) → M J G (Unit {0})
  with_ttl bev v act = do
    ttl ← lift (or_throw (lib.get_int v))
    if ltb_ℤ ttl (pos 0) then send_response bev (code_response lib mtsrc_bad_request) else act ttl

  -- Exactly one of the two ids has to be there.
  unfoldable pub alive : ℕ → Moment → J → Option Bytes → Option Bytes → M J G (Unit {0})
  unfolding with_ttl tab_alive shortcut_alive
  alive bev m v (some id) none = with_ttl bev v (λ ttl. tab_alive bev m ttl id)
  alive bev m v none (some id) = with_ttl bev v (λ ttl. shortcut_alive bev m ttl id)
  alive bev m v none none = send_response bev (code_response lib mtsrc_bad_request)
  alive bev m v (some id) (some other) = send_response bev (code_response lib mtsrc_bad_request)

  -- `request.contains("TTL") && request["TTL"].is_number_integer()`, with the value.
  unfoldable pub integer_field : J → String → Option J
  integer_field request key = elim (lib.find request key) [
    | none ↦ none
    | some v ↦ if lib.is_number_integer v then some v else none
  ]

  unfoldable pub alive_for : ℕ → Moment → J → Option J → M J G (Unit {0})
  unfolding alive
  alive_for bev m request none = send_response bev (code_response lib mtsrc_bad_request)
  alive_for bev m request (some v) =
      alive bev m v (string_field lib request "tabId") (string_field lib request "shortcutId")

  unfoldable pub handle_i_am_alive : ℕ → Moment → J → M J G (Unit {0})
  unfolding integer_field alive_for
  handle_i_am_alive bev m request = alive_for bev m request (integer_field request "TTL")
