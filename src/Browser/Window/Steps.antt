-- ===== src/Browser/Window/Steps.antt =====
-- The window as a state machine: the slots of madt-server/Browser.cpp and the timers of its tabs, in any
-- order.
use open_madt.Prelude.{Bool, none, Bytes, ◌≡◌, subst}
use open_madt.Prelude.Int.{ℤ}
use open_madt.Prelude.Map.{lookup, bytes_key}
use open_madt.Json.Access.{Outcome}
use open_madt.Gui.{ResultCode}
use open_madt.Browser.Bar.{TabWidget, pages_in_display_order}
use open_madt.Browser.Bar.Ascending.{IsAscending, display_order-IsAscending}
use open_madt.Browser.Window.{
  Window, new_web_tab, activate_tab, navigate_to, kill_tab, blink_tab, blink_timeout,
}
use open_madt.Browser.Window.Shown.{IsShown, IsShownIn, new_web_tab-IsShown, navigate_to-IsShown}
use open_madt.Browser.Window.Slots.{
  activate_tab-IsShown, kill_tab-IsShown, blink_tab-IsShown, blink_timeout-IsShown,
}

module _ {J : Type 0} (qt : TabWidget) where
  -- One event of the window. A new tab has an identifier that no tab has.
  pub data Event (w w' : Window J qt) : Type 0 where
    opened :
        (url icon_url uuid : Bytes) (preferred_pos flags : ℤ) (code : ResultCode)
        → lookup uuid w.browser.list ≡ none
        → new_web_tab qt url icon_url preferred_pos flags uuid w ≡ Outcome.ok (code, w')
        → Event w w'
    navigated :
        (uuid url : Bytes) (code : ResultCode)
        → navigate_to qt uuid url w ≡ Outcome.ok (code, w')
        → Event w w'
    activated : (uuid : Bytes) → w' ≡ (activate_tab qt uuid w).1 → Event w w'
    killed : (uuid : Bytes) (force : Bool) → w' ≡ (kill_tab qt uuid force w).1 → Event w w'
    blinked : (uuid : Bytes) → w' ≡ (blink_tab qt uuid w).1 → Event w w'
    timed_out : (uuid : Bytes) → w' ≡ blink_timeout qt uuid w → Event w w'

  pub data Events : Window J qt → Window J qt → Type 0 where
    here : (w : Window J qt) → Events w w
    onward : (w w' last : Window J qt) → Event w w' → Events w' last → Events w last

  Event-IsShown : (w w' : Window J qt) → Event w w' → IsShown w → IsShown w'
  Event-IsShown w w' (opened url icon_url uuid preferred_pos flags code fresh e) k =
      subst (IsShownIn qt) e
        (new_web_tab-IsShown qt url icon_url uuid preferred_pos flags w fresh k)
  Event-IsShown w w' (navigated uuid url code e) k =
      subst (IsShownIn qt) e (navigate_to-IsShown qt uuid url w k)
  Event-IsShown w w' (activated uuid e) k = rw e (activate_tab-IsShown qt uuid w k)
  Event-IsShown w w' (killed uuid force e) k = rw e (kill_tab-IsShown qt uuid force w k)
  Event-IsShown w w' (blinked uuid e) k = rw e (blink_tab-IsShown qt uuid w k)
  Event-IsShown w w' (timed_out uuid e) k = rw e (blink_timeout-IsShown qt uuid w k)

  Events-IsShown' : (w last : Window J qt) → Events w last → IsShown w → IsShown last
  Events-IsShown' w last (here _) k = k
  Events-IsShown' w last (onward _ w' _ e more) k =
      Events-IsShown' w' last more (Event-IsShown w w' e k)

  -- Whatever tabs are opened with identifiers of their own, sent to URLs, activated, closed or made to
  -- blink, and whenever timers fire: the tab bar shows each tab outside the extra zone once and no
  -- other, in the order of `pagesInDisplayOrder`, in which positions do not fall, and the overlay is
  -- visible only with a page for the extra zone, if that was so before.
  pub Events-IsShown :
      (w last : Window J qt)
      → Events w last
      → IsShown w
      → IsShown last × IsAscending (pages_in_display_order last.browser.list)
  Events-IsShown w last es k =
      (Events-IsShown' w last es k, display_order-IsAscending last.browser.list)
