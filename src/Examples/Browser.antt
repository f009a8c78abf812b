-- ===== src/Examples/Browser.antt =====
-- The browser at concrete tabs and shortcuts.
use open_madt.Prelude.{
  ℕ, ◌≤◌, true, false, some, [], ◌∷◌, Bytes, codes, equal, less, ◌≡◌, refl, arith, length,
  get_elem?, ◌==◌, ltb, if◌then◌else◌,
}
use open_madt.Prelude.Int.{ℤ, pos, negsuc}
use open_madt.Prelude.Map.{lookup, bytes_key}
use open_madt.Browser.{
  BrowserPage, Pages, Browser, stands_at, pos_beginning, pos_any, max_tabs, is_extra_page,
  normal_page_count,
}
use open_madt.Browser.Allocation.{
  allocate_logical_position, occupied, move, allocate_in_zone, candidate_positions, ordered_pages,
}
use open_madt.Browser.Handlers.{on_new_web_tab, max_shortcut_count, on_new_shortcut, tab_map}
use open_madt.Browser.Tally.{tally}
use open_madt.Browser.Placement.{IsPlaced}
use open_madt.Browser.Slots.{IsSettled, on_new_web_tab-IsSettled}
use open_madt.Browser.Capacity.{IsWithin}
use open_madt.Browser.Lowest.{
  is_among, stands_among, allocate_logical_position-Succeeds, IsLowestFree,
  allocate_logical_position-lowest,
}
use open_madt.Json.Access.{Outcome}
use open_madt.Browser.TabMap.{page_at, tab_map-page_at}
use open_madt.Browser.Shelf.{IsShelved, on_new_shortcut-IsShelved}
use open_madt.Browser.Reads.{is_undefined, allocate_in_zone-undefined}
use open_madt.Examples.Docs.{Doc, no_tabs}

abbrev page : BrowserPage
page = record {
  url = codes "b";
  icon_url = [];
  uuid = codes "p";
  logical_pos = pos 0;
  preferred_pos = pos_beginning;
  flags = pos 0;
}

abbrev pub list : Pages
list = (codes "p", page) ∷ []

abbrev pub one_tab : Browser Doc
one_tab = record no_tabs { list = list }

pub list-IsPlaced : IsPlaced list
unfolding tally stands_at lookup
list-IsPlaced = record { distinct = (refl, tt); apart = λ n. ground arith }

pub list-IsWithin : IsWithin list
unfolding tally normal_page_count is_extra_page
list-IsWithin = record { normal = omega arith; extra = omega arith }

empty-IsShelved : IsShelved (max_shortcut_count no_tabs) []
unfolding tally max_shortcut_count
empty-IsShelved = record { few = omega arith; apart = λ n. omega arith }

on_new_web_tab-IsSettled_example :
    IsSettled (on_new_web_tab (codes "a") [] pos_beginning (pos 0) (codes "q") one_tab)
on_new_web_tab-IsSettled_example =
    on_new_web_tab-IsSettled (codes "a") [] (codes "q") pos_beginning (pos 0) one_tab list-IsPlaced

tab_map-page_at_example :
    (length (tab_map list) ≡ 20) × (get_elem? (tab_map list) 0 ≡ some (page_at 0 list))
tab_map-page_at_example = tab_map-page_at list 0 list-IsPlaced (omega arith)

on_new_shortcut-IsShelved_example :
    IsShelved
      (max_shortcut_count no_tabs)
      (on_new_shortcut (codes "a") [] (pos 2) (pos 0) (codes "s") no_tabs).1.shortcuts
on_new_shortcut-IsShelved_example =
    on_new_shortcut-IsShelved (codes "a") [] (codes "s") (pos 2) (pos 0) no_tabs empty-IsShelved

-- Six pages that fill the beginning of the bar, and a seventh that wants to stand there.
abbrev at_beginning : Bytes → ℤ → Bytes × BrowserPage
at_beginning id z = (id, record page { uuid = id; logical_pos = z })

abbrev full_zone : Pages
full_zone =
    at_beginning (codes "1") (pos 0)
    ∷ at_beginning (codes "2") (pos 1)
    ∷ at_beginning (codes "3") (pos 2)
    ∷ at_beginning (codes "4") (pos 3)
    ∷ at_beginning (codes "5") (pos 4)
    ∷ at_beginning (codes "6") (pos 5)
    ∷ at_beginning (codes "7") (negsuc 0)
    ∷ []

abbrev seventh : BrowserPage
seventh = record page { uuid = codes "7"; logical_pos = negsuc 0 }

allocate_in_zone-undefined_example :
    is_undefined (allocate_in_zone (codes "7") seventh pos_beginning 0 5 full_zone) ≡ (
      let candidates =
        length (candidate_positions (codes "7") seventh pos_beginning 0 5 full_zone) in
      if candidates == 0
      then false
      else ltb candidates (length (ordered_pages (codes "7") seventh pos_beginning 0 5 full_zone)))
allocate_in_zone-undefined_example =
    allocate_in_zone-undefined (codes "7") seventh pos_beginning 0 5 full_zone

-- The answer is that it reads outside its vectors.
seventh-undefined :
    is_undefined (allocate_in_zone (codes "7") seventh pos_beginning 0 5 full_zone) ≡ true
unfolding allocate_in_zone equal less
seventh-undefined = refl

-- A new tab without a preferred position beside the tab at the first position.
abbrev anywhere : BrowserPage
anywhere = record page { uuid = codes "q"; logical_pos = negsuc 0; preferred_pos = pos_any }

abbrev two_pages : Pages
two_pages = (codes "p", page) ∷ (codes "q", anywhere) ∷ []

two_pages-IsLowestFree : IsLowestFree two_pages 0 1
unfolding occupied stands_at
two_pages-IsLowestFree = record {
  above = omega arith;
  bar = omega arith;
  free = refl;
  before = λ k above below. ground arith;
}

two_pages-few : normal_page_count two_pages ≤ max_tabs
unfolding normal_page_count is_extra_page
two_pages-few = omega arith

allocate_logical_position-lowest_example :
    allocate_logical_position (codes "q") anywhere two_pages
    ≡ Outcome.ok (some (move (codes "q") (pos 1) two_pages))
allocate_logical_position-lowest_example =
    allocate_logical_position-lowest (codes "q") anywhere two_pages 1 refl two_pages-few
      two_pages-IsLowestFree

two_pages-room : tally (stands_among 0 20) two_pages ≤ 19
unfolding tally is_among
two_pages-room = omega arith

allocate_logical_position-Succeeds_example :
    (m : ℕ) × IsLowestFree two_pages 0 m
    × (allocate_logical_position (codes "q") anywhere two_pages
        ≡ Outcome.ok (some (move (codes "q") (pos m) two_pages)))
allocate_logical_position-Succeeds_example =
    allocate_logical_position-Succeeds (codes "q") anywhere two_pages refl two_pages-few
      two_pages-room
