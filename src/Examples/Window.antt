-- ===== src/Examples/Window.antt =====
-- The window at concrete tabs, with a list of views in place of Qt.
use open_madt.Prelude.{
  arith, List, [], ◌∷◌, ◌++◌, Bytes, codes, equal, less, ◌≡◌, refl, none, true, false,
}
use open_madt.Prelude.Int.{pos}
use open_madt.Prelude.Map.{lookup, insert, bytes_key}
use open_madt.Gui.{ResultCode}
use open_madt.Json.Access.{Outcome}
use open_madt.Browser.Handlers.{on_new_web_tab}
use open_madt.Browser.Allocation.{allocate_logical_position}
use open_madt.Browser.{Pages, pos_beginning, normal_page_count, is_extra_page}
use open_madt.Browser.Bar.{
  TabWidget, index_of, remove_at, move_at, sync_tab_order, pages_in_display_order,
}
use open_madt.Prelude.Entries.{IsDistinct}
use open_madt.Browser.Tally.{tally}
use open_madt.Browser.Bar.Order.{Holds, ShowsInOrder, sync_tab_order-ShowsInOrder}
use open_madt.Browser.Window.{Window, new_web_tab, kill_tab}
use open_madt.Browser.Window.Shown.{IsShown}
use open_madt.Browser.Bar.Ascending.{IsAscending}
use open_madt.Browser.Window.Steps.{Events, Event, Events-IsShown}
use open_madt.Examples.Docs.{Doc}
use open_madt.Examples.Browser.{one_tab, list-IsPlaced}

abbrev listed_tabs : TabWidget
listed_tabs = record {
  Tabs = List Bytes;
  views = λ t. t;
  index_in = index_of;
  add_tab = λ v t. t ++ v ∷ [];
  remove_tab = remove_at;
  move_tab = move_at;
  current_widget = λ t. none;
  set_current_index = λ n t. t;
  index_law = λ v t. refl;
  add_law = λ v t. refl;
  remove_law = λ n t. refl;
  move_law = λ from to t. refl;
  current_law = λ n t. refl;
}

abbrev window : Window Doc listed_tabs
window = record { browser = one_tab; tabs = codes "p" ∷ []; overlay = false; blinks = [] }

window-IsShown : IsShown window
unfolding pages_in_display_order is_extra_page
window-IsShown = record { placed = list-IsPlaced; order = refl; covered = λ e. absurd cc }

abbrev window_in :
    Outcome (ResultCode × Window Doc listed_tabs) → Window Doc listed_tabs → Window Doc listed_tabs
window_in (Outcome.ok (code, w)) before = w
window_in Outcome.throws before = before
window_in Outcome.undefined before = before

-- A second tab for the beginning of the bar, whose URL comes first, and the end of the first tab.
abbrev two_tabs : Window Doc listed_tabs
two_tabs =
    window_in (new_web_tab listed_tabs (codes "a") [] pos_beginning (pos 0) (codes "q") window)
      window

abbrev last : Window Doc listed_tabs
last = (kill_tab listed_tabs (codes "p") true two_tabs).1

opening : Event listed_tabs window two_tabs
unfolding new_web_tab on_new_web_tab lookup equal normal_page_count allocate_logical_position insert
    less
opening = Event.opened (codes "a") [] (codes "q") pos_beginning (pos 0) ResultCode.ok refl refl

run : Events listed_tabs window last
run =
    Events.onward window two_tabs last opening
      (Events.onward two_tabs last last (Event.killed (codes "p") true refl) (Events.here last))

two_tabs-views : two_tabs.tabs ≡ codes "q" ∷ codes "p" ∷ []
unfolding new_web_tab on_new_web_tab normal_page_count allocate_logical_position insert equal less
two_tabs-views = refl

Events-IsShown_example : IsShown last × IsAscending (pages_in_display_order last.browser.list)
Events-IsShown_example = Events-IsShown listed_tabs window last run window-IsShown

abbrev pages : Pages
pages = two_tabs.browser.list

-- The tabs in the wrong order.
abbrev turned : List Bytes
turned = codes "p" ∷ codes "q" ∷ []

pages-IsDistinct : IsDistinct pages
unfolding new_web_tab on_new_web_tab normal_page_count allocate_logical_position insert equal less
    lookup
pages-IsDistinct = (refl, (refl, tt))

turned-Holds : Holds listed_tabs pages turned
unfolding new_web_tab on_new_web_tab normal_page_count allocate_logical_position insert equal less
    lookup tally is_extra_page
turned-Holds v = ground arith

sync_tab_order-ShowsInOrder_example :
    ShowsInOrder listed_tabs pages (sync_tab_order listed_tabs pages turned)
sync_tab_order-ShowsInOrder_example =
    sync_tab_order-ShowsInOrder listed_tabs pages turned pages-IsDistinct turned-Holds
