-- ===== src/Browser/Window/Tabs.antt =====
-- The tab bar after one tab has come or gone (madt-server/Browser.cpp).
use open_madt.Prelude.{
  ◌+◌, false, none, some, [], ◌∷◌, Bytes, ◌≡◌, ◌≢◌, refl, ap, arith, equal, equal_refl, Bool-cases,
  Option-cases, inl, inr, if◌then◌else◌, ◌∙◌, ◌==◌,
}
use open_madt.Prelude.Map.{lookup, erase, bytes_key}
use open_madt.Prelude.Entries.{IsDistinct, erase-IsDistinct}
use open_madt.Browser.{BrowserPage, Pages, is_extra_page, normal_page_count}
use open_madt.Browser.Tally.{tally}
use open_madt.Browser.Bar.{TabWidget, index_of, sync_tab_order}
use open_madt.Browser.Bar.Moves.{count, count-append}
use open_madt.Browser.Bar.Order.{
  shown_as, Holds, ShowsInOrder, ShowsInOrder-Holds, sync_tab_order-ShowsInOrder, count-remove_at,
  count-index_of, tally-erase,
}
use open_madt.Browser.Window.{select, remove_view, with_new_tab}

module _ (qt : TabWidget) where
  open qt use {Tabs, views, index_in, add_tab, index_law, add_law, remove_law, current_law}

  pub select-views : (id : Bytes) (t : Tabs) → views (select qt id t) ≡ views t
  unfolding select
  select-views id t = elim (Option-cases (index_in id t)) [
    | inl e ↦ rw (e, select) refl
    | inr (n, e) ↦ rw (e, select) (current_law n t)
  ]

  pub with_new_tab-ShowsInOrder :
      (id : Bytes) (list after : Pages) (t : Tabs)
      → IsDistinct after
      → ((v : Bytes)
          → tally (shown_as v) after ≡ (if equal id v then 1 else 0) + tally (shown_as v) list)
      → ShowsInOrder qt list t
      → ShowsInOrder qt after (with_new_tab qt id after t)
  unfolding with_new_tab
  with_new_tab-ShowsInOrder id list after t d grown shown =
      let holds : Holds qt after (add_tab id t) = λ v.
        ap (count v) (add_law id t)
        ∙ omega (
          arith,
          count-append v (views t) (id ∷ []),
          ShowsInOrder-Holds qt list t shown v,
          grown v,
        ) in
      let sorted = sync_tab_order-ShowsInOrder qt after (add_tab id t) d holds in
      elim (Bool-cases (normal_page_count after == 1)) [
        | inl e ↦ rw (e, with_new_tab) (select-views id _ ∙ sorted)
        | inr e ↦ rw (e, with_new_tab) sorted
      ]

  -- A page outside the extra zone has a tab.
  pub index_in-shown :
      (id : Bytes) (page : BrowserPage) (list : Pages) (t : Tabs)
      → IsDistinct list
      → lookup id list ≡ some page
      → is_extra_page page ≡ false
      → ShowsInOrder qt list t
      → index_in id t ≢ none
  index_in-shown id page list t d h x shown absent =
      let none_there = count-index_of id (views t) (rw (← index_law id t) absent) in
      let there = tally-erase (shown_as id) id page list d h in
      let holds = ShowsInOrder-Holds qt list t shown id in ground (arith, equal_refl id)

  remove_view-Holds :
      (id : Bytes) (page : BrowserPage) (list : Pages) (t : Tabs)
      → IsDistinct list
      → lookup id list ≡ some page
      → is_extra_page page ≡ false
      → ShowsInOrder qt list t
      → Holds qt (erase id list) (remove_view qt id t)
  unfolding remove_view
  remove_view-Holds id page list t d h x shown v = elim (Option-cases (index_in id t)) [
    | inl e ↦ absurd (index_in-shown id page list t d h x shown e)
    | inr (n, e) ↦
        let at : index_of id (views t) ≡ some n = rw (← index_law id t) e in
        let out = count-remove_at id v (views t) n at in
        let gone = tally-erase (shown_as v) id page list d h in
        let holds = ShowsInOrder-Holds qt list t shown v in
        rw (e, remove_view) (ap (count v) (remove_law n t) ∙ ground (arith))
  ]

  pub removed-ShowsInOrder :
      (id : Bytes) (page : BrowserPage) (list : Pages) (t : Tabs)
      → IsDistinct list
      → lookup id list ≡ some page
      → is_extra_page page ≡ false
      → ShowsInOrder qt list t
      → ShowsInOrder qt (erase id list) (sync_tab_order qt (erase id list) (remove_view qt id t))
  removed-ShowsInOrder id page list t d h x shown =
      sync_tab_order-ShowsInOrder qt (erase id list) (remove_view qt id t)
        (erase-IsDistinct id list d) (remove_view-Holds id page list t d h x shown)
