-- ===== src/Browser/Window/Shown.antt =====
-- What the window shows (madt-server/Browser.cpp): the tabs in the order of their positions, and the
-- overlay only with a page for the extra zone; the slots keep both.
use open_madt.Prelude.{true, none, Bytes, ◌≡◌, arith, Bool-cases, inl, inr}
use open_madt.Prelude.Int.{ℤ, eq_ℤ}
use open_madt.Prelude.Map.{lookup, bytes_key}
use open_madt.Json.Access.{Outcome}
use open_madt.Gui.{ResultCode, tab_not_found, exec_error}
use open_madt.Browser.{BrowserPage, Browser, pos_extra, is_extra_page, has_extra_page}
use open_madt.Browser.Handlers.{on_navigate_to}
use open_madt.Browser.Tally.{value}
use open_madt.Browser.Capacity.{extra-IsBlind}
use open_madt.Browser.Placement.{IsPlaced}
use open_madt.Browser.Slots.{IsSettled, on_new_web_tab-IsSettled, on_navigate_to-IsSettled}
use open_madt.Browser.Bar.{TabWidget}
use open_madt.Browser.Bar.Order.{shown-IsBlind, shown_as, ShowsInOrder}
use open_madt.Browser.Window.{
  Window, is_extra_tab, show_page, show_added, new_web_tab, show_navigated, navigate_to,
}
use open_madt.Browser.Window.Renamed.{same-order, Renamed, on_navigate_to-Renamed}
use open_madt.Browser.Window.Tabs.{with_new_tab-ShowsInOrder}
use open_madt.Browser.Window.Added.{IsAdded, Added, new_page, on_new_web_tab-Added}
use open_madt.Browser.Window.Overlay.{update-has_extra, has_extra-kept}

pub record IsShown {J : Type 0} {qt : TabWidget} (w : Window J qt) : Type 0 where
  pub placed : IsPlaced w.browser.list
  pub order : ShowsInOrder qt w.browser.list w.tabs
  pub covered : w.overlay ≡ true → has_extra_page w.browser.list ≡ true

module _ {J : Type 0} (qt : TabWidget) where
  open qt use {Tabs, views, index_in, current_widget}

  -- The window after a slot, unless it has run into undefined behaviour.
  abbrev pub IsShownIn : Outcome (ResultCode × Window J qt) → Type 0
  IsShownIn (Outcome.ok (code, w)) = IsShown w
  IsShownIn Outcome.throws = Unit
  IsShownIn Outcome.undefined = Unit

  unchanged-IsShown :
      (w : Window J qt) (b : Browser J)
      → IsShown w
      → b.list ≡ w.browser.list
      → IsShown (record w { browser = b })
  unchanged-IsShown w b k same = record {
    placed = rw same k.placed;
    order = rw same k.order;
    covered = rw same k.covered;
  }

  added-IsShown :
      (page : BrowserPage) (w : Window J qt) (b : Browser J)
      → IsShown w
      → IsPlaced b.list
      → IsAdded page w.browser.list b.list
      → IsShown (show_page qt page.uuid page.preferred_pos b w)
  unfolding show_page is_extra_page
  added-IsShown page w b k placed a = elim (Bool-cases (eq_ℤ page.preferred_pos pos_extra)) [
    | inl e ↦ record {
      placed = placed;
      order = rw (e) (same-order qt w.browser.list b.list w.tabs (a.unmoved e) k.order);
      covered = rw (e) (update-has_extra b.list w.overlay);
    }
    | inr e ↦ record {
      placed = placed;
      order = rw (e) (
          with_new_tab-ShowsInOrder qt page.uuid w.browser.list b.list w.tabs placed.distinct
            (λ v. ground (arith, a.grown (shown_as v) (shown-IsBlind v))) k.order);
      covered = rw (e) (λ o.
          has_extra-kept w.browser.list b.list
            (omega (arith, a.grown (value is_extra_page) extra-IsBlind)) (k.covered o));
    }
  ]

  show_added-IsShown :
      (page : BrowserPage) (w : Window J qt) (r : Outcome (ResultCode × Browser J))
      → IsShown w
      → IsSettled r
      → Added page w.browser.list r
      → IsShownIn (show_added qt page.uuid page.preferred_pos w r)
  unfolding show_added
  show_added-IsShown page w (Outcome.ok (ResultCode.ok, b)) k s a = added-IsShown page w b k s a
  show_added-IsShown page w (Outcome.ok (tab_not_found, b)) k s a = unchanged-IsShown w b k a
  show_added-IsShown page w (Outcome.ok (exec_error, b)) k s a = unchanged-IsShown w b k a
  show_added-IsShown page w Outcome.throws k s a = tt
  show_added-IsShown page w Outcome.undefined k s a = tt

  pub new_web_tab-IsShown :
      (url icon_url uuid : Bytes) (preferred_pos flags : ℤ) (w : Window J qt)
      → lookup uuid w.browser.list ≡ none
      → IsShown w
      → IsShownIn (new_web_tab qt url icon_url preferred_pos flags uuid w)
  unfolding new_web_tab
  new_web_tab-IsShown url icon_url uuid preferred_pos flags w fresh k =
      show_added-IsShown (new_page url icon_url preferred_pos flags uuid) w _ k
        (on_new_web_tab-IsSettled url icon_url uuid preferred_pos flags w.browser k.placed)
        (on_new_web_tab-Added url icon_url uuid preferred_pos flags w.browser fresh)

  show_navigated-IsShown :
      (id url : Bytes) (w : Window J qt) (r : Outcome (ResultCode × Browser J)) (k : IsShown w)
      → IsSettled r
      → Renamed qt id url w.browser.list w.tabs k.order r
      → IsShownIn (show_navigated qt id url w r)
  unfolding show_navigated
  show_navigated-IsShown id url w (Outcome.ok (code, b)) k s n = record {
    placed = s;
    order = n.order s.distinct;
    covered = elim (Bool-cases (is_extra_tab id w.browser.list)) [
      | inl e ↦ rw e (update-has_extra b.list w.overlay)
      | inr e ↦
          rw e (λ o. has_extra-kept w.browser.list b.list (omega (arith, n.extra)) (k.covered o))
    ];
  }
  show_navigated-IsShown id url w Outcome.throws k s n = tt
  show_navigated-IsShown id url w Outcome.undefined k s n = tt

  pub navigate_to-IsShown :
      (id url : Bytes) (w : Window J qt) → IsShown w → IsShownIn (navigate_to qt id url w)
  unfolding navigate_to
  navigate_to-IsShown id url w k =
      show_navigated-IsShown id url w (on_navigate_to id url w.browser) k
        (on_navigate_to-IsSettled id url w.browser k.placed)
        (on_navigate_to-Renamed qt id url w.tabs w.browser k.order)
