-- ===== src/Browser/Window/Renamed.antt =====
-- The tab bar after `onNavigateTo` (madt-server/Browser.cpp).
use open_madt.Prelude.{
  false, Option, none, some, Bytes, ◌≡◌, refl, sym, Bool-cases, Option-cases, inl, inr, ◌∙◌,
  if◌then◌else◌,
}
use open_madt.Prelude.Map.{lookup, insert, bytes_key}
use open_madt.Prelude.Entries.{IsDistinct}
use open_madt.Json.Access.{Outcome}
use open_madt.Gui.{ResultCode}
use open_madt.Browser.{BrowserPage, Pages, Browser, is_extra_page}
use open_madt.Browser.Allocation.{allocate_zone_position, is_zone}
use open_madt.Browser.Handlers.{on_navigate_to, resettle, answer_with}
use open_madt.Browser.Tally.{tally, value, tally-insert_same}
use open_madt.Browser.Capacity.{SameIn, extra-IsBlind, allocate_zone_position-SameIn}
use open_madt.Browser.Bar.{TabWidget, sync_tab_order}
use open_madt.Browser.Bar.Order.{
  shown-IsBlind, shown_as, ShowsInOrder, ShowsInOrder-Holds, sync_tab_order-ShowsInOrder, places,
  places-order,
}
use open_madt.Browser.Bar.Places.{places-renamed}
use open_madt.Browser.Window.{resorts, allocated}

module _ (qt : TabWidget) where
  open qt use {Tabs, views}

  pub same-order :
      (list after : Pages) (t : Tabs)
      → places after ≡ places list
      → ShowsInOrder qt list t
      → ShowsInOrder qt after t
  same-order list after t same h = h ∙ sym (places-order list after same)

module _ (qt : TabWidget) (id url : Bytes) (list : Pages) where
  open qt use {Tabs, views}

  -- The tabs after the slot, and the pages for the extra zone.
  pub record IsRenamed (t : Tabs) (after : Pages) : Type 0 where
    pub order :
        IsDistinct after
        → ShowsInOrder qt after (if resorts id url list then sync_tab_order qt after t else t)
    pub extra : tally (value is_extra_page) after ≡ tally (value is_extra_page) list

  abbrev renamed : BrowserPage → Pages
  renamed old = insert id (record old { url = url }) list

  renamed-extra :
      (old : BrowserPage)
      → lookup id list ≡ some old
      → tally (value is_extra_page) (renamed old) ≡ tally (value is_extra_page) list
  unfolding is_extra_page
  renamed-extra old e =
      tally-insert_same is_extra_page id (record old { url = url }) old list e refl

  module _ (t : Tabs) (shown : ShowsInOrder qt list t) where
    renamed-order :
        (old : BrowserPage) → lookup id list ≡ some old → ShowsInOrder qt (renamed old) t
    renamed-order old e =
        same-order qt list (renamed old) t (places-renamed id url old list e) shown

    unsorted :
        (old : BrowserPage)
        → lookup id list ≡ some old
        → resorts id url list ≡ false
        → IsRenamed t (renamed old)
    unsorted old e still = record {
      order = λ d. rw still (renamed-order old e);
      extra = renamed-extra old e;
    }

  module _ {J : Type 0} (t : Tabs) (shown : ShowsInOrder qt list t) where
    abbrev pub Renamed : Outcome (ResultCode × Browser J) → Type 0
    Renamed (Outcome.ok (code, b)) = IsRenamed t b.list
    Renamed Outcome.throws = Unit
    Renamed Outcome.undefined = Unit

    -- By the result of `allocateZonePosition`.
    settled-Renamed :
        (old : BrowserPage) (b : Browser J) (r : Outcome (Option Pages))
        → lookup id list ≡ some old
        → SameIn (renamed old) r
        → resorts id url list ≡ allocated r
        → Renamed (answer_with ResultCode.ok b (resettle (renamed old) r))
    unfolding resettle
    settled-Renamed old b (Outcome.ok none) e same sorts = unsorted t shown old e sorts
    settled-Renamed old b (Outcome.ok (some placed)) e same sorts = record {
      order = λ d. rw sorts (
          sync_tab_order-ShowsInOrder qt placed t d (λ v.
            ShowsInOrder-Holds qt (renamed old) t (renamed-order t shown old e) v
            ∙ sym (same (shown_as v) (shown-IsBlind v))));
      extra = same (value is_extra_page) extra-IsBlind ∙ renamed-extra old e;
    }
    settled-Renamed old b Outcome.throws e same sorts = tt
    settled-Renamed old b Outcome.undefined e same sorts = tt

module _ {J : Type 0} (qt : TabWidget) where
  open qt use {Tabs}

  pub on_navigate_to-Renamed :
      (id url : Bytes) (t : Tabs) (b : Browser J) (shown : ShowsInOrder qt b.list t)
      → Renamed qt id url b.list t shown (on_navigate_to id url b)
  unfolding on_navigate_to resorts
  on_navigate_to-Renamed id url t b shown = elim (Option-cases (lookup id b.list)) [
    | inl e ↦ rw (e, on_navigate_to) (record { order = λ d. rw (e, resorts) shown; extra = refl })
    | inr (old, e) ↦
        let page : BrowserPage = record old { url = url } in
        let after = insert id page b.list in
        let r = allocate_zone_position id page page.preferred_pos after in
        elim (Bool-cases (is_zone old.preferred_pos)) [
          | inl q ↦
              rw (e, q, on_navigate_to)
                (settled-Renamed qt id url b.list t shown old b r e
                  (allocate_zone_position-SameIn id page page.preferred_pos after)
                  (rw (e, resorts, q) refl))
          | inr q ↦
              rw (e, q, on_navigate_to)
                (unsorted qt id url b.list t shown old e (rw (e, resorts, q) refl))
        ]
  ]
