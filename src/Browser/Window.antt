-- ===== src/Browser/Window.antt =====
-- The widgets behind the slots of `Browser` (madt-server/Browser.cpp): the tab bar, the overlay of the
-- extra zone and the blinking of tabs. Each slot here is the slot of Browser/Handlers with what it does
-- to the widgets. Icons, colours, texts and the views themselves are not modelled.
pub mod Tabs
pub mod Added
pub mod Renamed
pub mod Overlay
pub mod Shown
pub mod Slots
pub mod Steps
use open_madt.Prelude.{
  ℕ, suc, Bool, true, false, not, ◌&&◌, Option, none, some, Bytes, equal, ◌==◌, if◌then◌else◌,
}
use open_madt.Prelude.Int.{ℤ, eq_ℤ}
use open_madt.Prelude.Map.{Map, lookup, insert, erase, bytes_key}
use open_madt.Json.Access.{Outcome}
use open_madt.Gui.{ResultCode, tab_not_found, exec_error}
use open_madt.Browser.{
  BrowserPage, Pages, Browser, pos_extra, is_extra_page, has_extra_page, normal_page_count,
}
use open_madt.Browser.Allocation.{allocate_zone_position, is_zone}
use open_madt.Browser.Handlers.{on_new_web_tab, on_navigate_to, on_kill_tab}
use open_madt.Browser.Bar.{TabWidget, sync_tab_order}

-- `blinkTimer->isActive()` and `blinkVisible`
pub record Blink : Type 0 where
  pub running : Bool
  pub visible : Bool

-- `showExtraZoneOverlay`: whether the frame is visible after it.
unfoldable pub show_extra_zone_overlay : Pages → Bool → Bool
show_extra_zone_overlay list visible = if has_extra_page list then true else visible

unfoldable pub update_extra_zone_visibility : Pages → Bool → Bool
unfolding show_extra_zone_overlay
update_extra_zone_visibility list visible =
    if not (has_extra_page list)
    then false
    else if visible
    then show_extra_zone_overlay list visible
    else visible

abbrev pub allocated : Outcome (Option Pages) → Bool
allocated (Outcome.ok (some list)) = true
allocated (Outcome.ok none) = false
allocated Outcome.throws = false
allocated Outcome.undefined = false

module _ (J : Type 0) (qt : TabWidget) where
  open qt use {Tabs}

  pub record Window : Type 0 where
    pub browser : Browser J
    pub tabs : Tabs
    pub overlay : Bool
    pub blinks : Map Bytes Blink

-- Whether `onNavigateTo` calls `syncTabOrder`.
unfoldable pub resorts : Bytes → Bytes → Pages → Bool
resorts uuid url list = elim (lookup uuid list) [
  | none ↦ false
  | some old ↦
      let page = record old { url = url } in
      is_zone page.preferred_pos
      && allocated (allocate_zone_position uuid page page.preferred_pos (insert uuid page list))
]

unfoldable pub is_extra_tab : Bytes → Pages → Bool
is_extra_tab uuid list = elim (lookup uuid list) [ none ↦ false | some page ↦ is_extra_page page ]

abbrev pub is_current : Bytes → Option Bytes → Bool
is_current uuid none = false
is_current uuid (some v) = equal v uuid

abbrev pub set_blink : Bytes → (Blink → Blink) → Map Bytes Blink → Map Bytes Blink
set_blink uuid f blinks = elim (lookup uuid blinks) [
  | none ↦ blinks
  | some b ↦ insert uuid (f b) blinks
]

module _ (qt : TabWidget) where
  open qt use {Tabs, index_in, add_tab, remove_tab, set_current_index}

  -- `tabs->setCurrentIndex(tabs->indexOf(view))`, if there is such a tab.
  unfoldable pub select : Bytes → Tabs → Tabs
  select uuid t = elim (index_in uuid t) [ none ↦ t | some n ↦ set_current_index n t ]

  -- `tabs->removeTab(tabs->indexOf(view))`, if there is such a tab.
  unfoldable pub remove_view : Bytes → Tabs → Tabs
  remove_view uuid t = elim (index_in uuid t) [ none ↦ t | some n ↦ remove_tab n t ]

  -- The tab bar with a new tab, which is selected if it is the only one.
  unfoldable pub with_new_tab : Bytes → Pages → Tabs → Tabs
  unfolding select sync_tab_order
  with_new_tab uuid list t =
      let sorted = sync_tab_order qt list (add_tab uuid t) in
      if normal_page_count list == 1 then select uuid sorted else sorted

module _ {J : Type 0} (qt : TabWidget) where
  open qt use {Tabs, index_in, current_widget}

  unfoldable pub stop_blink : Bytes → Window J qt → Window J qt
  stop_blink uuid w = record w {
    blinks = insert uuid (record { running = false; visible = true }) w.blinks;
  }

  -- From `list[uuid]` on, once the page has its position.
  unfoldable pub show_page : Bytes → ℤ → Browser J → Window J qt → Window J qt
  unfolding update_extra_zone_visibility with_new_tab
  show_page uuid preferred_pos b w = record {
    browser = b;
    tabs = if eq_ℤ preferred_pos pos_extra then w.tabs else with_new_tab qt uuid b.list w.tabs;
    overlay =
        if eq_ℤ preferred_pos pos_extra
        then update_extra_zone_visibility b.list w.overlay
        else w.overlay;
    blinks = insert uuid (record { running = false; visible = true }) w.blinks;
  }

  unfoldable pub show_added :
      Bytes
      → ℤ
      → Window J qt
      → Outcome (ResultCode × Browser J)
      → Outcome (ResultCode × Window J qt)
  unfolding show_page
  show_added uuid preferred_pos w (Outcome.ok (ResultCode.ok, b)) =
      Outcome.ok (ResultCode.ok, show_page uuid preferred_pos b w)
  show_added uuid preferred_pos w (Outcome.ok (tab_not_found, b)) =
      Outcome.ok (tab_not_found, record w { browser = b })
  show_added uuid preferred_pos w (Outcome.ok (exec_error, b)) =
      Outcome.ok (exec_error, record w { browser = b })
  show_added uuid preferred_pos w Outcome.throws = Outcome.throws
  show_added uuid preferred_pos w Outcome.undefined = Outcome.undefined

  unfoldable pub new_web_tab :
      Bytes → Bytes → ℤ → ℤ → Bytes → Window J qt → Outcome (ResultCode × Window J qt)
  unfolding show_added
  new_web_tab url icon_url preferred_pos flags uuid w =
      show_added uuid preferred_pos w
        (on_new_web_tab url icon_url preferred_pos flags uuid w.browser)

  unfoldable pub activate_tab : Bytes → Window J qt → ResultCode × Window J qt
  unfolding select stop_blink show_extra_zone_overlay
  activate_tab uuid w = elim (lookup uuid w.browser.list) [
    | none ↦ (tab_not_found, w)
    | some page ↦ (
      ResultCode.ok,
      stop_blink uuid (
          if is_extra_page page
          then record w { overlay = show_extra_zone_overlay w.browser.list w.overlay }
          else record w { tabs = select qt uuid w.tabs }),
    )
  ]

  unfoldable pub show_navigated :
      Bytes
      → Bytes
      → Window J qt
      → Outcome (ResultCode × Browser J)
      → Outcome (ResultCode × Window J qt)
  unfolding resorts is_extra_tab update_extra_zone_visibility
  show_navigated uuid url w (Outcome.ok (code, b)) = Outcome.ok (
    code,
    record w {
      browser = b;
      tabs = if resorts uuid url w.browser.list then sync_tab_order qt b.list w.tabs else w.tabs;
      overlay =
          if is_extra_tab uuid w.browser.list
          then update_extra_zone_visibility b.list w.overlay
          else w.overlay;
    },
  )
  show_navigated uuid url w Outcome.throws = Outcome.throws
  show_navigated uuid url w Outcome.undefined = Outcome.undefined

  unfoldable pub navigate_to : Bytes → Bytes → Window J qt → Outcome (ResultCode × Window J qt)
  unfolding show_navigated
  navigate_to uuid url w = show_navigated uuid url w (on_navigate_to uuid url w.browser)

  unfoldable pub kill_tab : Bytes → Bool → Window J qt → ResultCode × Window J qt
  unfolding stop_blink remove_view update_extra_zone_visibility
  kill_tab uuid force_destroy w =
      let (code, b) = on_kill_tab uuid force_destroy w.browser in
      elim (lookup uuid w.browser.list) [
        | none ↦ (code, w)
        | some page ↦
            if is_extra_page page && not force_destroy
            then (code, record (stop_blink uuid w) { browser = b; overlay = false })
            else if is_extra_page page
            then (
              code,
              record w {
                browser = b;
                overlay = update_extra_zone_visibility b.list w.overlay;
                blinks = erase uuid w.blinks;
              },
            )
            else (
              code,
              record w {
                browser = b;
                tabs = sync_tab_order qt b.list (remove_view qt uuid w.tabs);
                blinks = erase uuid w.blinks;
              },
            )
      ]

  unfoldable pub start_blink : Bytes → Window J qt → Window J qt
  start_blink uuid w = record w {
    blinks = insert uuid (record { running = true; visible = true }) w.blinks;
  }

  -- `onBlinkTab`
  unfoldable pub blink_tab : Bytes → Window J qt → ResultCode × Window J qt
  unfolding start_blink show_extra_zone_overlay
  blink_tab uuid w = elim (lookup uuid w.browser.list) [
    | none ↦ (tab_not_found, w)
    | some page ↦
        if is_extra_page page
        then (
          ResultCode.ok,
          record w { overlay = show_extra_zone_overlay w.browser.list w.overlay },
        )
        else elim (index_in uuid w.tabs) [
          | none ↦ (tab_not_found, w)
          | some n ↦ (
            ResultCode.ok,
            if is_current uuid (current_widget w.tabs) then w else start_blink uuid w,
          )
        ]
  ]

  -- The timeout of the timer of a tab.
  unfoldable pub blink_timeout : Bytes → Window J qt → Window J qt
  blink_timeout uuid w = elim (lookup uuid w.browser.list) [
    | none ↦ w
    | some page ↦
        let stopped = record w {
          blinks = set_blink uuid (λ b. record b { running = false }) w.blinks;
        } in
        if is_extra_page page then stopped else elim (index_in uuid w.tabs) [
          | none ↦ stopped
          | some n ↦ record w {
            blinks = set_blink uuid (λ b. record b { visible = not b.visible }) w.blinks;
          }
        ]
  ]
