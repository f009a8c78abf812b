-- ===== src/Browser.antt =====
-- madt-server/Browser.h and the part of madt-server/Browser.cpp that decides which tabs and shortcuts
-- there are and where they stand.
use open_madt.Prelude.{
  ℕ, zero, suc, ◌+◌, ◌-◌, Bool, true, false, ◌&&◌, ◌||◌, not, Option, none, some, List, [], ◌∷◌,
  Bytes, equal, less, ◌==◌, leb, ltb, if◌then◌else◌,
}
use open_madt.Prelude.Int.{ℤ, pos, negsuc, eq_ℤ, ltb_ℤ}
use open_madt.Prelude.Map.{Map, lookup, insert, erase, bytes_key}
use open_madt.Config.{RuntimeConfig}
use open_madt.Settings.{SettingsState}
pub mod Allocation
pub mod Handlers
pub mod Tally
pub mod Placement
pub mod Zone
pub mod Invariant
pub mod Shelf
pub mod Limits
pub mod Reads
pub mod Capacity
pub mod TabMap
pub mod Slots
pub mod Lowest
pub mod Bar
pub mod Window
pub mod Popup

-- `BrowserPage` without its widgets.
pub record BrowserPage : Type 0 where
  pub url : Bytes
  pub icon_url : Bytes
  pub uuid : Bytes
  pub logical_pos : ℤ
  pub preferred_pos : ℤ
  pub flags : ℤ

pub record ShortcutEntry : Type 0 where
  pub shortcut_id : Bytes
  pub icon_url : Bytes
  pub url : Bytes
  pub shortcut_pos : ℤ
  pub preferred_pos : ℤ
  pub flags : ℤ

abbrev pub Pages : Type 0
Pages = Map Bytes BrowserPage

abbrev pub Shortcuts : Type 0
Shortcuts = Map Bytes ShortcutEntry

pub record Browser (J : Type 0) : Type 0 where
  pub runtime_config : RuntimeConfig J
  pub current_settings : SettingsState J
  pub list : Pages
  pub shortcuts : Shortcuts

abbrev pub max_tabs : ℕ
max_tabs = 20

-- `POS_ANY` to `POS_EXTRA`
abbrev pub pos_any : ℤ
pos_any = negsuc 0

abbrev pub pos_beginning : ℤ
pos_beginning = negsuc 1

abbrev pub pos_middle : ℤ
pos_middle = negsuc 2

abbrev pub pos_end : ℤ
pos_end = negsuc 3

abbrev pub pos_extra : ℤ
pos_extra = negsuc 9

-- `std::sort`, which the code calls with strict orders that tell all its elements apart, so there is
-- one result.
module _ {A : Type 0} where
  unfoldable pub insert_sorted : (A → A → Bool) → A → List A → List A
  insert_sorted before x [] = x ∷ []
  insert_sorted before x (y ∷ ys) =
      let rest = insert_sorted before x ys in if before x y then x ∷ y ∷ ys else y ∷ rest

  unfoldable pub sort : (A → A → Bool) → List A → List A
  unfolding insert_sorted
  sort before [] = []
  sort before (x ∷ xs) = insert_sorted before x (sort before xs)

-- A position that the page holds, among those that are not negative.
unfoldable pub stands_at : ℕ → ℤ → Bool
stands_at n (pos m) = m == n
stands_at n (negsuc m) = false

-- `start <= z && z <= end`
unfoldable pub in_range : ℕ → ℕ → ℤ → Bool
in_range start end (pos n) = leb start n && leb n end
in_range start end (negsuc n) = false

unfoldable pub page_url_less : BrowserPage → BrowserPage → Bool
page_url_less left right =
    if equal left.url right.url then less left.uuid right.uuid else less left.url right.url

unfoldable pub shortcut_pos_less : ShortcutEntry → ShortcutEntry → Bool
shortcut_pos_less left right =
    if eq_ℤ left.shortcut_pos right.shortcut_pos
    then less left.shortcut_id right.shortcut_id
    else ltb_ℤ left.shortcut_pos right.shortcut_pos

-- `zoneStart` and `zoneEnd`; `none` where they return -1.
unfoldable pub zone_start : ℤ → Option ℕ
zone_start preferred =
    if eq_ℤ preferred pos_beginning
    then some 0
    else if eq_ℤ preferred pos_middle
    then some 6
    else if eq_ℤ preferred pos_end
    then some 12
    else none

unfoldable pub zone_end : ℤ → Option ℕ
zone_end preferred =
    if eq_ℤ preferred pos_beginning
    then some 5
    else if eq_ℤ preferred pos_middle
    then some 11
    else if eq_ℤ preferred pos_end
    then some 19
    else none

unfoldable pub is_extra_page : BrowserPage → Bool
is_extra_page page = eq_ℤ page.preferred_pos pos_extra

unfoldable pub has_extra_page : Pages → Bool
unfolding is_extra_page
has_extra_page [] = false
has_extra_page ((id, page) ∷ list) = is_extra_page page || has_extra_page list

unfoldable pub normal_page_count : Pages → ℕ
unfolding is_extra_page
normal_page_count [] = 0
normal_page_count ((id, page) ∷ list) =
    let rest = normal_page_count list in if is_extra_page page then rest else suc rest
