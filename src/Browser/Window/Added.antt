-- ===== src/Browser/Window/Added.antt =====
-- The pages after `onNewWebTab` (madt-server/Browser.cpp): those before it with one more, or those
-- before it.
use open_madt.Prelude.{
  ◌+◌, Bool, true, ◌&&◌, not, Option, none, some, Bytes, ◌≡◌, refl, Bool-cases, inl, inr, leb, ◌∙◌,
  subst,
}
use open_madt.Prelude.Int.{ℤ, negsuc, eq_ℤ}
use open_madt.Prelude.Map.{erase-insert_new, lookup, insert, bytes_key}
use open_madt.Json.Access.{Outcome}
use open_madt.Gui.{ResultCode, tab_not_found, exec_error}
use open_madt.Browser.{
  BrowserPage, Pages, Browser, max_tabs, pos_extra, is_extra_page, has_extra_page,
  normal_page_count,
}
use open_madt.Browser.Allocation.{move, allocate_logical_position}
use open_madt.Browser.Handlers.{settle, add_page, on_new_web_tab}
use open_madt.Browser.Tally.{one, tally}
use open_madt.Browser.Capacity.{IsBlind, SameIn, allocate_logical_position-SameIn}
use open_madt.Browser.Bar.Order.{places, tally-insert_new}
use open_madt.Browser.Bar.Places.{places-insert_extra, allocate-extra}

-- One page more, which moves no tab if it goes into the extra zone.
pub record IsAdded (page : BrowserPage) (list after : Pages) : Type 0 where
  pub grown :
      (p : Bytes × BrowserPage → Bool)
      → IsBlind p
      → tally p after ≡ one (p (page.uuid, page)) + tally p list
  pub unmoved : is_extra_page page ≡ true → places after ≡ places list

abbrev pub new_page : Bytes → Bytes → ℤ → ℤ → Bytes → BrowserPage
new_page url icon_url preferred_pos flags uuid = record {
  url = url;
  icon_url = icon_url;
  uuid = uuid;
  logical_pos = negsuc 0;
  preferred_pos = preferred_pos;
  flags = flags;
}

module _ {J : Type 0} where
  abbrev pub Added : BrowserPage → Pages → Outcome (ResultCode × Browser J) → Type 0
  Added page list (Outcome.ok (ResultCode.ok, b)) = IsAdded page list b.list
  Added page list (Outcome.ok (tab_not_found, b)) = b.list ≡ list
  Added page list (Outcome.ok (exec_error, b)) = b.list ≡ list
  Added page list Outcome.throws = Unit
  Added page list Outcome.undefined = Unit

  settle-Added :
      (page : BrowserPage) (b : Browser J) (r : Outcome (Option Pages))
      → lookup page.uuid b.list ≡ none
      → SameIn (insert page.uuid page b.list) r
      → allocate_logical_position page.uuid page (insert page.uuid page b.list) ≡ r
      → Added page b.list (settle page.uuid (insert page.uuid page b.list) b r)
  unfolding settle
  settle-Added page b (Outcome.ok none) fresh same e = erase-insert_new page.uuid page b.list fresh
  settle-Added page b (Outcome.ok (some placed)) fresh same e = record {
    grown = λ p blind. same p blind ∙ tally-insert_new p page.uuid page b.list fresh;
    unmoved = λ x.
        let list = insert page.uuid page b.list in
        let eq = allocate-extra page.uuid page list x in
        let same : move page.uuid pos_extra list ≡ placed = cc in
        subst (λ l. places l ≡ places b.list) same
          (places-insert_extra page.uuid page pos_extra b.list fresh x);
  }
  settle-Added page b Outcome.throws fresh same e = tt
  settle-Added page b Outcome.undefined fresh same e = tt

  add_page-Added :
      (page : BrowserPage) (b : Browser J)
      → lookup page.uuid b.list ≡ none
      → Added page b.list (add_page page b)
  unfolding add_page
  add_page-Added page b fresh =
      let list = insert page.uuid page b.list in
      settle-Added page b (allocate_logical_position page.uuid page list) fresh
        (allocate_logical_position-SameIn page.uuid page list) refl

  pub on_new_web_tab-Added :
      (url icon_url uuid : Bytes) (preferred_pos flags : ℤ) (b : Browser J)
      → lookup uuid b.list ≡ none
      → Added
          (new_page url icon_url preferred_pos flags uuid)
          b.list
          (on_new_web_tab url icon_url preferred_pos flags uuid b)
  unfolding on_new_web_tab
  on_new_web_tab-Added url icon_url uuid preferred_pos flags b fresh =
      elim (Bool-cases
        (not (eq_ℤ preferred_pos pos_extra) && leb max_tabs (normal_page_count b.list))) [
          | inl e ↦ rw (e, on_new_web_tab) refl
          | inr e ↦ elim (Bool-cases (eq_ℤ preferred_pos pos_extra && has_extra_page b.list)) [
            | inl q ↦ rw (e, q, on_new_web_tab) refl
            | inr q ↦
                rw (e, q, on_new_web_tab)
                  (add_page-Added (new_page url icon_url preferred_pos flags uuid) b fresh)
          ]
        ]
