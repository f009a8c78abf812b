-- ===== src/Browser/Window/Slots.antt =====
-- The slots that select, close and blink tabs keep what the window shows (madt-server/Browser.cpp).
use open_madt.Prelude.{
  if-cases, Bool, true, false, ◌&&◌, not, some, Bytes, ◌≡◌, refl, Bool-cases, Option-cases, inl,
  inr, ◌∙◌,
}
use open_madt.Prelude.Map.{Map, lookup, erase, bytes_key}
use open_madt.Browser.{BrowserPage, Browser, is_extra_page}
use open_madt.Browser.Handlers.{on_kill_tab}
use open_madt.Browser.Placement.{IsPlaced}
use open_madt.Browser.Invariant.{erase-IsPlaced}
use open_madt.Browser.Bar.{TabWidget}
use open_madt.Browser.Bar.Places.{places-erase_extra}
use open_madt.Browser.Window.{
  Blink, Window, stop_blink, activate_tab, kill_tab, start_blink, blink_tab, blink_timeout,
  is_current,
}
use open_madt.Browser.Window.Renamed.{same-order}
use open_madt.Browser.Window.Tabs.{select-views, removed-ShowsInOrder}
use open_madt.Browser.Window.Overlay.{update-has_extra, show-has_extra, has_extra-kept, normal_gone}
use open_madt.Browser.Window.Shown.{IsShown}

kept_list :
    {J : Type 0} (id : Bytes) (force : Bool) (b : Browser J) (page : BrowserPage)
    → lookup id b.list ≡ some page
    → (is_extra_page page && not force) ≡ true
    → (on_kill_tab id force b).1.list ≡ b.list
unfolding on_kill_tab
kept_list id force b page e q = rw (e, on_kill_tab, q) refl

erased_list :
    {J : Type 0} (id : Bytes) (force : Bool) (b : Browser J) (page : BrowserPage)
    → lookup id b.list ≡ some page
    → (is_extra_page page && not force) ≡ false
    → (on_kill_tab id force b).1.list ≡ erase id b.list
unfolding on_kill_tab
erased_list id force b page e q = rw (e, on_kill_tab, q) refl

module _ {J : Type 0} (qt : TabWidget) where
  open qt use {index_in, current_widget}

  blinks-IsShown :
      (w : Window J qt) (blinks : Map Bytes Blink)
      → IsShown w
      → IsShown (record w { blinks = blinks })
  blinks-IsShown w blinks k = record { placed = k.placed; order = k.order; covered = k.covered }

  pub activate_tab-IsShown :
      (id : Bytes) (w : Window J qt) → IsShown w → IsShown (activate_tab qt id w).1
  unfolding activate_tab stop_blink
  activate_tab-IsShown id w k = elim (Option-cases (lookup id w.browser.list)) [
    | inl e ↦ rw (e, activate_tab) k
    | inr (page, e) ↦ elim (Bool-cases (is_extra_page page)) [
      | inl x ↦
          rw (e, x, activate_tab)
            (record {
              placed = k.placed;
              order = k.order;
              covered = show-has_extra w.browser.list w.overlay k.covered;
            })
      | inr x ↦
          rw (e, x, activate_tab)
            (record {
              placed = k.placed;
              order = select-views qt id w.tabs ∙ k.order;
              covered = k.covered;
            })
    ]
  ]

  pub kill_tab-IsShown :
      (id : Bytes) (force : Bool) (w : Window J qt) → IsShown w → IsShown (kill_tab qt id force w).1
  unfolding kill_tab stop_blink
  kill_tab-IsShown id force w k = elim (Option-cases (lookup id w.browser.list)) [
    | inl e ↦ rw (e, kill_tab) k
    | inr (page, e) ↦ elim (Bool-cases (is_extra_page page && not force)) [
      | inl q ↦
          let same = kept_list id force w.browser page e q in
          rw (e, q, kill_tab)
            (record {
              placed = rw same k.placed;
              order = rw same k.order;
              covered = λ o. absurd cc;
            })
      | inr q ↦
          let after = erase id w.browser.list in
          let same = erased_list id force w.browser page e q in
          let gone : IsPlaced after = erase-IsPlaced id w.browser.list k.placed in
          elim (Bool-cases (is_extra_page page)) [
            | inl x ↦
                let places_same = places-erase_extra id page w.browser.list k.placed.distinct e x in
                rw (e, q, x, kill_tab)
                  (record {
                    placed = rw same gone;
                    order = rw same (same-order qt w.browser.list after w.tabs places_same k.order);
                    covered = rw same (update-has_extra after w.overlay);
                  })
            | inr x ↦
                let d = k.placed.distinct in
                let fewer = normal_gone id page w.browser.list d e x in
                rw (e, q, x, kill_tab)
                  (record {
                    placed = rw same gone;
                    order =
                        rw same
                          (removed-ShowsInOrder qt id page w.browser.list w.tabs d e x k.order);
                    covered =
                        rw same (λ o. has_extra-kept w.browser.list after fewer (k.covered o));
                  })
          ]
    ]
  ]

  pub blink_tab-IsShown : (id : Bytes) (w : Window J qt) → IsShown w → IsShown (blink_tab qt id w).1
  unfolding blink_tab start_blink
  blink_tab-IsShown id w k = elim (Option-cases (lookup id w.browser.list)) [
    | inl e ↦ rw (e, blink_tab) k
    | inr (page, e) ↦ elim (Bool-cases (is_extra_page page)) [
      | inl x ↦
          rw (e, x, blink_tab)
            (record {
              placed = k.placed;
              order = k.order;
              covered = show-has_extra w.browser.list w.overlay k.covered;
            })
      | inr x ↦ elim (Option-cases (index_in id w.tabs)) [
        | inl i ↦ rw (e, x, i, blink_tab) k
        | inr (n, i) ↦
            rw (e, x, i, blink_tab)
              (if-cases (λ (v : Window J qt). IsShown v) (is_current id (current_widget w.tabs)) _ _
                (λ c. k) (λ c. blinks-IsShown w _ k))
      ]
    ]
  ]

  pub blink_timeout-IsShown :
      (id : Bytes) (w : Window J qt) → IsShown w → IsShown (blink_timeout qt id w)
  unfolding blink_timeout
  blink_timeout-IsShown id w k = elim (Option-cases (lookup id w.browser.list)) [
    | inl e ↦ rw (e, blink_timeout) k
    | inr (page, e) ↦ elim (Bool-cases (is_extra_page page)) [
      | inl x ↦ rw (e, x, blink_timeout) (blinks-IsShown w _ k)
      | inr x ↦ elim (Option-cases (index_in id w.tabs)) [
        | inl i ↦ rw (e, x, i, blink_timeout) (blinks-IsShown w _ k)
        | inr (n, i) ↦ rw (e, x, i, blink_timeout) (blinks-IsShown w _ k)
      ]
    ]
  ]
