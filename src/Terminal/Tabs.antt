-- ===== src/Terminal/Tabs.antt =====
-- The tabs of the whole terminal (madt-server/): what holds of the browser whatever clients send and
-- whenever connections and leases end.
use open_madt.Prelude.{
  ℕ, Option, none, some, Bytes, ◌≡◌, refl, sym, subst, arith, if-cases, not, ltb, length,
}
use open_madt.Prelude.Int.{ℤ, negsuc}
use open_madt.Prelude.Map.{insert, bytes_key}
use open_madt.Json.{JsonLib}
use open_madt.Json.Access.{Outcome}
use open_madt.Crypto.{CryptoLib}
use open_madt.Gui.{ResultCode, GuiCall, GuiReply}
use open_madt.Browser.{Pages, Browser, ShortcutEntry, Shortcuts}
use open_madt.Browser.Handlers.{
  on_new_web_tab, on_navigate_to, on_new_shortcut, on_kill_shortcut, shelve, add_shortcut,
  max_shortcut_count,
}
use open_madt.Browser.Allocation.{allocate_shortcut_position}
use open_madt.Browser.Placement.{IsPlaced}
use open_madt.Browser.Capacity.{IsWithin}
use open_madt.Browser.Slots.{
  IsSettled, on_new_web_tab-IsSettled, on_navigate_to-IsSettled, on_kill_tab-IsPlaced,
}
use open_madt.Browser.Limits.{
  IsLimited, on_new_web_tab-IsLimited, on_navigate_to-IsLimited, on_kill_tab-IsWithin,
}
use open_madt.Server.State.{World}
use open_madt.Server.Steps.{Reaches, Reaches-Asks}
use open_madt.Terminal.{Shown, reply_of, call_browser, call_shown, browser_gui}

-- The pages stand apart and within the limits.
pub record IsOrderly (list : Pages) : Type 0 where
  pub placed : IsPlaced list
  pub within : IsWithin list

-- So do those of the browser, unless it has run into undefined behaviour.
abbrev pub IsOrderlyIn : {J : Type 0} → Shown J → Type 0
IsOrderlyIn (Outcome.ok b) = IsOrderly b.list
IsOrderlyIn Outcome.throws = Unit
IsOrderlyIn Outcome.undefined = Unit

module _ {J : Type 0} (lib : JsonLib J) (widgets : Browser J → GuiCall J → GuiReply J) where
  reply_of-IsOrderlyIn :
      (r : Outcome (ResultCode × Browser J))
      → IsSettled r
      → IsLimited r
      → IsOrderlyIn (reply_of lib r).1
  unfolding reply_of
  reply_of-IsOrderlyIn (Outcome.ok (code, b)) h k = record { placed = h; within = k }
  reply_of-IsOrderlyIn Outcome.throws h k = tt
  reply_of-IsOrderlyIn Outcome.undefined h k = tt

  added-list :
      (entry : ShortcutEntry) (shortcuts : Shortcuts) (b : Browser J) (r : Option ℕ)
      → (add_shortcut entry shortcuts b r).1.list ≡ b.list
  unfolding add_shortcut
  added-list entry shortcuts b none = refl
  added-list entry shortcuts b (some n) = refl

  shelve-list : (entry : ShortcutEntry) (b : Browser J) → (shelve entry b).1.list ≡ b.list
  unfolding shelve
  shelve-list entry b =
      let shortcuts = insert entry.shortcut_id entry b.shortcuts in
      added-list entry shortcuts b
        (allocate_shortcut_position (max_shortcut_count b) entry.preferred_pos shortcuts)

  on_new_shortcut-list :
      (url icon_url : Bytes) (preferred_pos flags : ℤ) (id : Bytes) (b : Browser J)
      → (on_new_shortcut url icon_url preferred_pos flags id b).1.list ≡ b.list
  unfolding on_new_shortcut
  on_new_shortcut-list url icon_url preferred_pos flags id b =
      let entry : ShortcutEntry = record {
        shortcut_id = id;
        icon_url = icon_url;
        url = url;
        shortcut_pos = negsuc 0;
        preferred_pos = preferred_pos;
        flags = flags;
      } in
      let Same : ResultCode × Browser J → Type 0 = λ r. r.1.list ≡ b.list in
      if-cases Same (not b.runtime_config.shortcuts_enabled) _ _ (λ e. refl)
        (λ e.
          if-cases Same (ltb (length b.shortcuts) (max_shortcut_count b)) _ _
            (λ room. shelve-list entry b) (λ full. refl))

  on_kill_shortcut-list : (id : Bytes) (b : Browser J) → (on_kill_shortcut id b).1.list ≡ b.list
  unfolding on_kill_shortcut
  on_kill_shortcut-list id b = ground arith

  browser-IsOrderlyIn :
      (b : Browser J) (c : GuiCall J)
      → IsOrderly b.list
      → IsOrderlyIn (call_browser lib widgets b c).1
  unfolding call_browser
  browser-IsOrderlyIn b (GuiCall.new_web_tab url icon_url preferred_pos flags uuid) h =
      reply_of-IsOrderlyIn (on_new_web_tab url icon_url preferred_pos flags uuid b)
        (on_new_web_tab-IsSettled url icon_url uuid preferred_pos flags b h.placed)
        (on_new_web_tab-IsLimited url icon_url uuid preferred_pos flags b h.within)
  browser-IsOrderlyIn b (GuiCall.kill_tab uuid force) h = record {
    placed = on_kill_tab-IsPlaced uuid force b h.placed;
    within = on_kill_tab-IsWithin uuid force b h.within;
  }
  browser-IsOrderlyIn b (GuiCall.activate_tab uuid) h = h
  browser-IsOrderlyIn b (GuiCall.navigate_to uuid url) h =
      reply_of-IsOrderlyIn (on_navigate_to uuid url b)
        (on_navigate_to-IsSettled uuid url b h.placed)
        (on_navigate_to-IsLimited uuid url b h.within)
  browser-IsOrderlyIn b GuiCall.get_characteristics h = h
  browser-IsOrderlyIn b GuiCall.get_tab_map h = h
  browser-IsOrderlyIn b (GuiCall.blink_tab uuid) h = h
  browser-IsOrderlyIn b (GuiCall.capture_screenshot file) h = h
  browser-IsOrderlyIn b (GuiCall.apply_settings settings) h = h
  browser-IsOrderlyIn b (GuiCall.play_sound id flags file player) h = h
  browser-IsOrderlyIn b (GuiCall.new_shortcut url icon_url preferred_pos flags id) h =
      subst IsOrderly (sym (on_new_shortcut-list url icon_url preferred_pos flags id b)) h
  browser-IsOrderlyIn b (GuiCall.kill_shortcut id) h =
      subst IsOrderly (sym (on_kill_shortcut-list id b)) h
  browser-IsOrderlyIn b GuiCall.get_shortcuts h = h

  shown-IsOrderlyIn :
      (g : Shown J) (c : GuiCall J) → IsOrderlyIn g → IsOrderlyIn (call_shown lib widgets g c).1
  unfolding call_shown
  shown-IsOrderlyIn (Outcome.ok b) c h = browser-IsOrderlyIn b c h
  shown-IsOrderlyIn Outcome.throws c h = tt
  shown-IsOrderlyIn Outcome.undefined c h = tt

  -- In every world that the server reaches from one where it holds, by requests of any content on any
  -- connections, by the cleanup and by connections that end, in any order: each of the 20 positions of
  -- the bar holds at most one tab, no tab stands behind it, at most 20 tabs are outside the extra zone
  -- and at most one is in it, as long as the browser has not run into undefined behaviour.
  pub Reaches-IsOrderlyIn :
      (crypto : CryptoLib) (swvers : Bytes) (w last : World J (Shown J))
      → Reaches lib crypto (browser_gui lib widgets) swvers w last
      → IsOrderlyIn w.gui
      → IsOrderlyIn last.gui
  Reaches-IsOrderlyIn crypto swvers w last =
      Reaches-Asks lib crypto (browser_gui lib widgets) swvers (λ g. IsOrderlyIn g)
        shown-IsOrderlyIn w last
