-- ===== src/Browser/Bar.antt =====
-- The tab bar (madt-server/Browser.cpp): `pagesInDisplayOrder`, `syncTabOrder` and what the slots do to
-- the `QTabWidget`. Qt is a parameter: what the code relies on are its documented effects on the order
-- of the tabs. A view is identified by the key of its page.
pub mod Moves
pub mod Order
pub mod Places
pub mod Ascending
use open_madt.Prelude.{
  ℕ, zero, suc, Bool, not, Option, none, some, List, [], ◌∷◌, ◌++◌, Bytes, less, equal, ◌≡◌, map,
  get_elem?, ◌==◌, if◌then◌else◌,
}
use open_madt.Prelude.Int.{ℤ, eq_ℤ, ltb_ℤ}
use open_madt.Prelude.Map.{bytes_key}
use open_madt.Json.Access.{Outcome}
use open_madt.Gui.{ResultCode}
use open_madt.Browser.{BrowserPage, Pages, Browser, sort, is_extra_page}

-- The position of the first occurrence.
abbrev pub index_of : Bytes → List Bytes → Option ℕ
index_of v [] = none
index_of v (w ∷ ws) =
    if equal w v then some 0 else elim (index_of v ws) [ none ↦ none | some n ↦ some (suc n) ]

abbrev pub remove_at : ℕ → List Bytes → List Bytes
remove_at n [] = []
remove_at zero (v ∷ vs) = vs
remove_at (suc n) (v ∷ vs) = v ∷ remove_at n vs

abbrev pub insert_at : ℕ → Bytes → List Bytes → List Bytes
insert_at zero v vs = v ∷ vs
insert_at (suc n) v [] = v ∷ []
insert_at (suc n) v (w ∷ ws) = w ∷ insert_at n v ws

-- The element at one index taken out and put back at another.
abbrev pub move_at : ℕ → ℕ → List Bytes → List Bytes
move_at from to vs = elim (get_elem? vs from) [
  | none ↦ vs
  | some v ↦ insert_at to v (remove_at from vs)
]

-- `QTabWidget` and its `QTabBar`: the views in the order of their tabs, and what the functions that the
-- code calls do to it.
pub record TabWidget : Type 1 where
  pub Tabs : Type 0
  pub views : Tabs → List Bytes
  pub index_in : Bytes → Tabs → Option ℕ
  pub add_tab : Bytes → Tabs → Tabs
  pub remove_tab : ℕ → Tabs → Tabs
  pub move_tab : ℕ → ℕ → Tabs → Tabs
  pub current_widget : Tabs → Option Bytes
  pub set_current_index : ℕ → Tabs → Tabs
  pub index_law : (v : Bytes) (t : Tabs) → index_in v t ≡ index_of v (views t)
  pub add_law : (v : Bytes) (t : Tabs) → views (add_tab v t) ≡ views t ++ v ∷ []
  pub remove_law : (n : ℕ) (t : Tabs) → views (remove_tab n t) ≡ remove_at n (views t)
  pub move_law : (from to : ℕ) (t : Tabs) → views (move_tab from to t) ≡ move_at from to (views t)
  pub current_law : (n : ℕ) (t : Tabs) → views (set_current_index n t) ≡ views t

-- The order of `pagesInDisplayOrder`.
abbrev pub display_before : Bytes × BrowserPage → Bytes × BrowserPage → Bool
display_before left right =
    if eq_ℤ left.1.logical_pos right.1.logical_pos
    then less left.1.uuid right.1.uuid
    else ltb_ℤ left.1.logical_pos right.1.logical_pos

unfoldable pub normal_pages : Pages → Pages
unfolding is_extra_page
normal_pages [] = []
normal_pages ((id, page) ∷ list) =
    let rest = normal_pages list in if is_extra_page page then rest else (id, page) ∷ rest

unfoldable pub pages_in_display_order : Pages → Pages
unfolding normal_pages sort
pages_in_display_order list = sort display_before (normal_pages list)

abbrev pub view_of : Bytes × BrowserPage → Bytes
view_of (id, page) = id

module _ (qt : TabWidget) where
  open qt use {Tabs, index_in, move_tab}

  -- One round of the loop of `syncTabOrder`.
  unfoldable pub place_tab : ℕ → Bytes → Tabs → Tabs
  place_tab target v t = elim (index_in v t) [
    | none ↦ t
    | some current ↦ if current == target then t else move_tab current target t
  ]

  unfoldable pub place_tabs : ℕ → Pages → Tabs → Tabs
  unfolding place_tab
  place_tabs i [] t = t
  place_tabs i ((id, page) ∷ pages) t = place_tabs (suc i) pages (place_tab i id t)

  unfoldable pub sync_tab_order : Pages → Tabs → Tabs
  unfolding place_tabs pages_in_display_order
  sync_tab_order list t = place_tabs 0 (pages_in_display_order list) t
