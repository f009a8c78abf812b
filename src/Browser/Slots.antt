-- ===== src/Browser/Slots.antt =====
-- The slots of the browser that change its pages (madt-server/Browser.cpp), against the bar's 20 positions.
use open_madt.Prelude.{
  ℕ, Bool, ◌&&◌, not, Option, none, some, Bytes, ◌≡◌, refl, arith, equal_refl, Bool-cases,
  Option-cases, inl, inr, leb,
}
use open_madt.Prelude.Int.{ℤ, negsuc, eq_ℤ}
use open_madt.Prelude.Map.{lookup, insert, bytes_key, lookup-insert}
use open_madt.Prelude.Entries.{insert-IsDistinct}
use open_madt.Json.Access.{Outcome}
use open_madt.Gui.{ResultCode}
use open_madt.Browser.{
  BrowserPage, Pages, Browser, max_tabs, pos_extra, stands_at, is_extra_page, has_extra_page,
  normal_page_count,
}
use open_madt.Browser.Allocation.{allocate_logical_position, allocate_zone_position, is_zone}
use open_madt.Browser.Handlers.{
  settle, add_page, on_new_web_tab, resettle, answer_with, on_navigate_to, on_kill_tab,
}
use open_madt.Browser.Tally.{tally-insert_le, tally-insert_same}
use open_madt.Browser.Placement.{IsPlaced}
use open_madt.Browser.Invariant.{
  IsPlacedIn, allocate_zone_position-IsPlaced, allocate_logical_position-IsPlaced, erase-IsPlaced,
}

-- Each position of the bar holds at most one page of the browser, and no page stands behind it.
abbrev pub IsSettled : {J : Type 0} → Outcome (ResultCode × Browser J) → Type 0
IsSettled (Outcome.ok (code, b)) = IsPlaced b.list
IsSettled Outcome.throws = Unit
IsSettled Outcome.undefined = Unit

abbrev stands : ℕ → BrowserPage → Bool
stands n page = stands_at n page.logical_pos

new-IsPlaced :
    (id : Bytes) (page : BrowserPage) (list : Pages)
    → page.logical_pos ≡ negsuc 0
    → IsPlaced list
    → IsPlaced (insert id page list)
unfolding stands_at
new-IsPlaced id page list h k = record {
  distinct = insert-IsDistinct id page list k.distinct;
  apart = λ n. ground (arith, k.apart n, tally-insert_le (stands n) id page list, h);
}

renewed-IsPlaced :
    (id : Bytes) (page old : BrowserPage) (list : Pages)
    → lookup id list ≡ some old
    → page.logical_pos ≡ old.logical_pos
    → IsPlaced list
    → IsPlaced (insert id page list)
renewed-IsPlaced id page old list h e k = record {
  distinct = insert-IsDistinct id page list k.distinct;
  apart =
      λ n. omega (arith, k.apart n, tally-insert_same (stands n) id page old list h (rw e refl));
}

inserted :
    (id : Bytes) (page : BrowserPage) (list : Pages) → lookup id (insert id page list) ≡ some page
inserted id page list = ground (arith, lookup-insert id id page list, equal_refl id)

module _ {J : Type 0} where
  settle-IsPlaced :
      (id : Bytes) (list : Pages) (b : Browser J) (r : Outcome (Option Pages))
      → IsPlaced list
      → IsPlacedIn r
      → IsSettled (settle id list b r)
  unfolding settle
  settle-IsPlaced id list b (Outcome.ok none) k h = erase-IsPlaced id list k
  settle-IsPlaced id list b (Outcome.ok (some placed)) k h = h
  settle-IsPlaced id list b Outcome.throws k h = tt
  settle-IsPlaced id list b Outcome.undefined k h = tt

  -- A new tab keeps the positions apart, also where it pushes the pages of its zone aside and where it
  -- fails; where `allocateZonePosition` reads outside its vectors there is nothing to say.
  pub on_new_web_tab-IsSettled :
      (url icon_url uuid : Bytes) (preferred_pos flags : ℤ) (b : Browser J)
      → IsPlaced b.list
      → IsSettled (on_new_web_tab url icon_url preferred_pos flags uuid b)
  unfolding on_new_web_tab add_page
  on_new_web_tab-IsSettled url icon_url uuid preferred_pos flags b k =
      let page : BrowserPage = record {
        url = url;
        icon_url = icon_url;
        uuid = uuid;
        logical_pos = negsuc 0;
        preferred_pos = preferred_pos;
        flags = flags;
      } in
      let list = insert uuid page b.list in
      let placed : IsPlaced list = new-IsPlaced uuid page b.list refl k in
      elim (Bool-cases
        (not (eq_ℤ preferred_pos pos_extra) && leb max_tabs (normal_page_count b.list))) [
          | inl e ↦ rw (e, on_new_web_tab) k
          | inr e ↦ elim (Bool-cases (eq_ℤ preferred_pos pos_extra && has_extra_page b.list)) [
            | inl q ↦ rw (e, q, on_new_web_tab) k
            | inr q ↦
                rw (e, q, on_new_web_tab)
                  (settle-IsPlaced uuid list b (allocate_logical_position uuid page list) placed (
                    allocate_logical_position-IsPlaced uuid page list (inserted uuid page b.list)
                      placed))
          ]
        ]

  resettle-IsPlaced :
      (code : ResultCode) (b : Browser J) (list : Pages) (r : Outcome (Option Pages))
      → IsPlaced list
      → IsPlacedIn r
      → IsSettled (answer_with code b (resettle list r))
  unfolding resettle
  resettle-IsPlaced code b list (Outcome.ok none) k h = k
  resettle-IsPlaced code b list (Outcome.ok (some placed)) k h = h
  resettle-IsPlaced code b list Outcome.throws k h = tt
  resettle-IsPlaced code b list Outcome.undefined k h = tt

  -- So does a tab that goes to another URL, which orders its zone anew.
  pub on_navigate_to-IsSettled :
      (uuid url : Bytes) (b : Browser J) → IsPlaced b.list → IsSettled (on_navigate_to uuid url b)
  unfolding on_navigate_to
  on_navigate_to-IsSettled uuid url b k = elim (Option-cases (lookup uuid b.list)) [
    | inl e ↦ rw (e, on_navigate_to) k
    | inr (old, e) ↦
        let page : BrowserPage = record old { url = url } in
        let list = insert uuid page b.list in
        let placed : IsPlaced list = renewed-IsPlaced uuid page old b.list e refl k in
        elim (Bool-cases (is_zone old.preferred_pos)) [
          | inl q ↦
              rw (e, q, on_navigate_to)
                (resettle-IsPlaced ResultCode.ok b list
                  (allocate_zone_position uuid page page.preferred_pos list) placed
                  (allocate_zone_position-IsPlaced uuid page page.preferred_pos list
                    (inserted uuid page b.list) placed))
          | inr q ↦ rw (e, q, on_navigate_to) placed
        ]
  ]

  -- And a tab that is killed.
  pub on_kill_tab-IsPlaced :
      (uuid : Bytes) (force_destroy : Bool) (b : Browser J)
      → IsPlaced b.list
      → IsPlaced (on_kill_tab uuid force_destroy b).1.list
  unfolding on_kill_tab
  on_kill_tab-IsPlaced uuid force_destroy b k = elim (Option-cases (lookup uuid b.list)) [
    | inl e ↦ rw (e, on_kill_tab) k
    | inr (page, e) ↦ elim (Bool-cases (is_extra_page page && not force_destroy)) [
      | inl q ↦ rw (e, q, on_kill_tab) k
      | inr q ↦ rw (e, q, on_kill_tab) (erase-IsPlaced uuid b.list k)
    ]
  ]
