-- ===== src/Browser/Handlers.antt =====
-- The slots of `Browser` that serve the calls of the server (madt-server/Browser.cpp), on the tabs and
-- shortcuts that they keep. The widgets are not modelled.
use open_madt.Prelude.{
  ℕ, zero, suc, Bool, ◌&&◌, not, Option, none, some, List, [], ◌∷◌, Bytes, length, leb, ltb, map,
  has, if◌then◌else◌,
}
use open_madt.Prelude.Int.{ℤ, pos, negsuc, pos_part, eq_ℤ, ltb_ℤ}
use open_madt.Prelude.Map.{lookup, insert, erase, bytes_key}
use open_madt.Json.{JsonLib}
use open_madt.Json.Access.{Outcome}
use open_madt.Gui.{ResultCode, tab_not_found, exec_error}
use open_madt.Browser.{
  BrowserPage, ShortcutEntry, Pages, Shortcuts, Browser, max_tabs, pos_extra, sort,
  shortcut_pos_less, is_extra_page, has_extra_page, normal_page_count,
}
use open_madt.Browser.Allocation.{
  allocate_logical_position, allocate_zone_position, allocate_shortcut_position, is_zone,
}

-- The pages after `allocateZonePosition`, which changes none if it returns `false`.
unfoldable pub resettle : Pages → Outcome (Option Pages) → Outcome Pages
resettle list (Outcome.ok none) = Outcome.ok list
resettle list (Outcome.ok (some placed)) = Outcome.ok placed
resettle list Outcome.throws = Outcome.throws
resettle list Outcome.undefined = Outcome.undefined

module _ {J : Type 0} where
  abbrev pub with_list : Pages → Browser J → Browser J
  with_list list b = record b { list = list }

  -- From `list[uuid] = page` on: a page without a position is deleted.
  unfoldable pub settle :
      Bytes → Pages → Browser J → Outcome (Option Pages) → Outcome (ResultCode × Browser J)
  settle uuid list b (Outcome.ok none) = Outcome.ok (exec_error, with_list (erase uuid list) b)
  settle uuid list b (Outcome.ok (some placed)) = Outcome.ok (ResultCode.ok, with_list placed b)
  settle uuid list b Outcome.throws = Outcome.throws
  settle uuid list b Outcome.undefined = Outcome.undefined

  unfoldable pub add_page : BrowserPage → Browser J → Outcome (ResultCode × Browser J)
  unfolding settle
  add_page page b =
      let list = insert page.uuid page b.list in
      settle page.uuid list b (allocate_logical_position page.uuid page list)

  unfoldable pub on_new_web_tab :
      Bytes → Bytes → ℤ → ℤ → Bytes → Browser J → Outcome (ResultCode × Browser J)
  unfolding add_page
  on_new_web_tab url icon_url preferred_pos flags uuid b =
      if not (eq_ℤ preferred_pos pos_extra) && leb max_tabs (normal_page_count b.list)
      then Outcome.ok (exec_error, b)
      else if eq_ℤ preferred_pos pos_extra && has_extra_page b.list
      then Outcome.ok (exec_error, b)
      else add_page
          (record {
            url = url;
            icon_url = icon_url;
            uuid = uuid;
            logical_pos = negsuc 0;
            preferred_pos = preferred_pos;
            flags = flags;
          })
          b

  -- Activation concerns the widgets alone.
  unfoldable pub on_activate_tab : Bytes → Browser J → ResultCode
  on_activate_tab uuid b = if has (lookup uuid b.list) then ResultCode.ok else tab_not_found

  abbrev pub answer_with : ResultCode → Browser J → Outcome Pages → Outcome (ResultCode × Browser J)
  answer_with code b (Outcome.ok list) = Outcome.ok (code, with_list list b)
  answer_with code b Outcome.throws = Outcome.throws
  answer_with code b Outcome.undefined = Outcome.undefined

  unfoldable pub on_navigate_to : Bytes → Bytes → Browser J → Outcome (ResultCode × Browser J)
  unfolding resettle
  on_navigate_to uuid url b = elim (lookup uuid b.list) [
    | none ↦ Outcome.ok (tab_not_found, b)
    | some old ↦
        let page = record old { url = url } in
        let list = insert uuid page b.list in
        if is_zone page.preferred_pos
        then answer_with ResultCode.ok b
            (resettle list (allocate_zone_position uuid page page.preferred_pos list))
        else Outcome.ok (ResultCode.ok, with_list list b)
  ]

  unfoldable pub on_kill_tab : Bytes → Bool → Browser J → ResultCode × Browser J
  on_kill_tab uuid force_destroy b = elim (lookup uuid b.list) [
    | none ↦ (tab_not_found, b)
    | some page ↦
        if is_extra_page page && not force_destroy
        then (ResultCode.ok, b)
        else (ResultCode.ok, with_list (erase uuid b.list) b)
  ]

  -- `std::max(1, shortcutMaxCount)`
  unfoldable pub max_shortcut_count : Browser J → ℕ
  max_shortcut_count b =
      if ltb_ℤ b.runtime_config.shortcut_max_count (pos 1)
      then 1
      else pos_part b.runtime_config.shortcut_max_count

  -- With the new entry in the map: `shortcut->shortcutPos = n`, or its erasure if there is no position.
  unfoldable pub add_shortcut :
      ShortcutEntry → Shortcuts → Browser J → Option ℕ → ResultCode × Browser J
  add_shortcut entry shortcuts b none =
      (exec_error, record b { shortcuts = erase entry.shortcut_id shortcuts })
  add_shortcut entry shortcuts b (some n) = (
    ResultCode.ok,
    record b {
      shortcuts = insert entry.shortcut_id (record entry { shortcut_pos = pos n }) shortcuts;
    },
  )

  -- From `shortcuts[shortcutId] = shortcut` on.
  unfoldable pub shelve : ShortcutEntry → Browser J → ResultCode × Browser J
  unfolding max_shortcut_count add_shortcut
  shelve entry b =
      let shortcuts = insert entry.shortcut_id entry b.shortcuts in
      add_shortcut entry shortcuts b
        (allocate_shortcut_position (max_shortcut_count b) entry.preferred_pos shortcuts)

  unfoldable pub on_new_shortcut :
      Bytes → Bytes → ℤ → ℤ → Bytes → Browser J → ResultCode × Browser J
  unfolding max_shortcut_count shelve
  on_new_shortcut url icon_url preferred_pos flags shortcut_id b =
      if not b.runtime_config.shortcuts_enabled
      then (exec_error, b)
      else if ltb (length b.shortcuts) (max_shortcut_count b)
      then shelve
          (record {
            shortcut_id = shortcut_id;
            icon_url = icon_url;
            url = url;
            shortcut_pos = negsuc 0;
            preferred_pos = preferred_pos;
            flags = flags;
          })
          b
      else (exec_error, b)

  unfoldable pub on_kill_shortcut : Bytes → Browser J → ResultCode × Browser J
  on_kill_shortcut shortcut_id b =
      if has (lookup shortcut_id b.shortcuts)
      then (ResultCode.ok, record b { shortcuts = erase shortcut_id b.shortcuts })
      else (tab_not_found, b)

-- `tabMap[n] = id`
unfoldable pub set_slot : ℤ → Bytes → List (Option Bytes) → List (Option Bytes)
set_slot z id [] = []
set_slot (negsuc n) id (slot ∷ slots) = slot ∷ slots
set_slot (pos zero) id (slot ∷ slots) = some id ∷ slots
set_slot (pos (suc n)) id (slot ∷ slots) = slot ∷ set_slot (pos n) id slots

unfoldable pub no_slots : ℕ → List (Option Bytes)
no_slots zero = []
no_slots (suc n) = none ∷ no_slots n

-- The loop of `onGetTabMap` over the pages: a page outside the bar writes nothing.
unfoldable pub fill_slots : Pages → List (Option Bytes) → List (Option Bytes)
unfolding set_slot
fill_slots [] slots = slots
fill_slots ((id, page) ∷ list) slots = fill_slots list (set_slot page.logical_pos id slots)

unfoldable pub tab_map : Pages → List (Option Bytes)
unfolding fill_slots no_slots
tab_map list = fill_slots list (no_slots 20)

abbrev pub entry_of : Bytes × ShortcutEntry → ShortcutEntry
entry_of (id, entry) = entry

unfoldable pub shortcuts_in_display_order : {J : Type 0} → Browser J → List ShortcutEntry
unfolding sort shortcut_pos_less
shortcuts_in_display_order b = sort shortcut_pos_less (map entry_of b.shortcuts)

module _ {J : Type 0} (lib : JsonLib J) where
  abbrev pub slot_json : Option Bytes → J
  slot_json none = lib.int (negsuc 0)
  slot_json (some id) = lib.text id

  unfoldable pub on_get_tab_map : Browser J → ResultCode × J
  unfolding tab_map
  on_get_tab_map b = (ResultCode.ok, lib.array (map slot_json (tab_map b.list)))

  abbrev pub shortcut_json : ShortcutEntry → J
  shortcut_json entry = lib.object (
      ("shortcutId", lib.text entry.shortcut_id)
      ∷ ("shortcutPos", lib.int entry.shortcut_pos)
      ∷ ("flags", lib.int entry.flags)
      ∷ ("iconUrl", lib.text entry.icon_url)
      ∷ ("url", lib.text entry.url)
      ∷ [])

  unfoldable pub on_get_shortcuts : Browser J → ResultCode × J
  unfolding shortcuts_in_display_order
  on_get_shortcuts b = (ResultCode.ok, lib.array (map shortcut_json (shortcuts_in_display_order b)))
