-- ===== src/Browser/Bar/Order.antt =====
-- The order in which the tab bar shows the pages (madt-server/Browser.cpp).
use open_madt.Prelude.{
  ℕ, zero, suc, ◌+◌, ◌≤◌, Bool, ◌&&◌, not, none, some, List, [], ◌∷◌, Bytes, ◌≡◌, refl, sym, ap,
  arith, equal, equal_iff, Bool-cases, inl, inr, map, less, if◌then◌else◌, ◌∙◌,
}
use open_madt.Prelude.Int.{ℤ, eq_ℤ, ltb_ℤ}
use open_madt.Prelude.Map.{erase-unknown, lookup, insert, erase, bytes_key}
use open_madt.Prelude.Entries.{IsDistinct}
use open_madt.Browser.{BrowserPage, Pages, is_extra_page, sort, insert_sorted}
use open_madt.Browser.Tally.{one, tally, key_is, tally-sort, tally-IsDistinct_le, tally-place}
use open_madt.Browser.Bar.{
  TabWidget, view_of, normal_pages, pages_in_display_order, display_before, sync_tab_order,
  index_of, remove_at,
}
use open_madt.Browser.Capacity.{IsBlind}
use open_madt.Browser.Bar.Moves.{count, place_tabs-eq}

-- The page has a tab with that view.
abbrev pub shown_as : Bytes → Bytes × BrowserPage → Bool
shown_as v (id, page) = equal id v && not (is_extra_page page)

pub shown-IsBlind : (v : Bytes) → IsBlind (shown_as v)
unfolding is_extra_page
shown-IsBlind v id page z = refl

count-view : (v : Bytes) (pages : Pages) → count v (map view_of pages) ≡ tally (key_is v) pages
unfolding tally
count-view v [] = refl
count-view v ((id, page) ∷ pages) = ground (arith, count-view v pages)

tally-normal :
    (v : Bytes) (list : Pages) → tally (key_is v) (normal_pages list) ≡ tally (shown_as v) list
unfolding tally normal_pages
tally-normal v [] = refl
tally-normal v ((id, page) ∷ list) = ground (arith, tally-normal v list)

count-order :
    (v : Bytes) (list : Pages)
    → count v (map view_of (pages_in_display_order list)) ≡ tally (shown_as v) list
unfolding pages_in_display_order
count-order v list =
    count-view v (pages_in_display_order list)
    ∙ tally-sort (key_is v) display_before (normal_pages list)
    ∙ tally-normal v list

shown_le : (v : Bytes) (list : Pages) → tally (shown_as v) list ≤ tally (key_is v) list
unfolding tally
shown_le v [] = omega arith
shown_le v ((id, page) ∷ list) = ground (arith, shown_le v list)

pub tally-insert_new :
    (p : Bytes × BrowserPage → Bool) (id : Bytes) (page : BrowserPage) (list : Pages)
    → lookup id list ≡ none
    → tally p (insert id page list) ≡ one (p (id, page)) + tally p list
unfolding insert
tally-insert_new p id page list h = rw (h, insert) (tally-place p id page list)

pub tally-erase :
    (p : Bytes × BrowserPage → Bool) (id : Bytes) (page : BrowserPage) (list : Pages)
    → IsDistinct list
    → lookup id list ≡ some page
    → tally p list ≡ one (p (id, page)) + tally p (erase id list)
unfolding erase lookup tally
tally-erase p id page [] d h = absurd cc
tally-erase p id page ((j, other) ∷ list) d h = elim (Bool-cases (equal j id)) [
  | inl e ↦
      let same : j ≡ id = (equal_iff j id).0 e in
      ground (arith, erase-unknown j list, d.0, ap (λ (k : Bytes). erase k list) same)
  | inr e ↦ ground (arith, tally-erase p id page list, d.1)
]

-- A view taken out of a list.
pub count-remove_at :
    (v w : Bytes) (vs : List Bytes) (n : ℕ)
    → index_of v vs ≡ some n
    → count w vs ≡ (if equal v w then 1 else 0) + count w (remove_at n vs)
count-remove_at v w [] n h = absurd cc
count-remove_at v w (u ∷ vs) zero h = ground (arith, equal_iff u v, ap (λ k. equal k w))
count-remove_at v w (u ∷ vs) (suc n) h = ground (arith, equal_iff u v, count-remove_at v w vs n)

pub count-index_of : (v : Bytes) (vs : List Bytes) → index_of v vs ≡ none → count v vs ≡ 0
count-index_of v [] h = refl
count-index_of v (w ∷ vs) h = ground (arith, count-index_of v vs)

module _ (qt : TabWidget) where
  open qt use {Tabs, views}

  -- The tabs are those of the pages outside the extra zone, in any order.
  abbrev pub Holds : Pages → Tabs → Type 0
  Holds list t = (v : Bytes) → count v (views t) ≡ tally (shown_as v) list

  -- The tabs stand in the order of `pagesInDisplayOrder`.
  abbrev pub ShowsInOrder : Pages → Tabs → Type 0
  ShowsInOrder list t = views t ≡ map view_of (pages_in_display_order list)

  pub ShowsInOrder-Holds : (list : Pages) (t : Tabs) → ShowsInOrder list t → Holds list t
  ShowsInOrder-Holds list t h v = ap (count v) h ∙ count-order v list

  -- Where the tabs are the views of the pages outside the extra zone, each once and in any order, and the
  -- keys of the pages differ: the moves of `syncTabOrder` give the order of `pagesInDisplayOrder`.
  pub sync_tab_order-ShowsInOrder :
      (list : Pages) (t : Tabs)
      → IsDistinct list
      → Holds list t
      → ShowsInOrder list (sync_tab_order qt list t)
  unfolding sync_tab_order
  sync_tab_order-ShowsInOrder list t d h =
      place_tabs-eq qt (pages_in_display_order list) t (λ v. h v ∙ sym (count-order v list))
        (λ v. omega (arith, h v, shown_le v list, tally-IsDistinct_le v list d))

-- What the order of the tabs depends on: the key of each page, its position and its identifier.
abbrev pub Place : Type 0
Place = Bytes × ℤ × Bytes

abbrev place_of : Bytes × BrowserPage → Place
place_of (id, page) = (id, page.logical_pos, page.uuid)

abbrev place_before : Place → Place → Bool
place_before (_, left, left_id) (_, right, right_id) =
    if eq_ℤ left right then less left_id right_id else ltb_ℤ left right

abbrev key_of : Place → Bytes
key_of (id, n, uuid) = id

insert_sorted-map :
    (e : Bytes × BrowserPage) (es : Pages)
    → map place_of (insert_sorted display_before e es)
      ≡ insert_sorted place_before (place_of e) (map place_of es)
unfolding insert_sorted
insert_sorted-map e [] = refl
insert_sorted-map e (d ∷ es) = elim (Bool-cases (display_before e d)) [
  | inl h ↦ rw (h, insert_sorted) refl
  | inr h ↦ rw (h, insert_sorted) (ap (λ ps. place_of d ∷ ps) (insert_sorted-map e es))
]

sort-map :
    (es : Pages) → map place_of (sort display_before es) ≡ sort place_before (map place_of es)
unfolding sort
sort-map [] = refl
sort-map (e ∷ es) =
    insert_sorted-map e (sort display_before es)
    ∙ ap (insert_sorted place_before (place_of e)) (sort-map es)

map-view : (es : Pages) → map view_of es ≡ map key_of (map place_of es)
map-view [] = refl
map-view (e ∷ es) = ap (λ vs. view_of e ∷ vs) (map-view es)

abbrev pub places : Pages → List Place
places list = map place_of (normal_pages list)

pub places-order :
    (list after : Pages)
    → places after ≡ places list
    → map view_of (pages_in_display_order after) ≡ map view_of (pages_in_display_order list)
unfolding pages_in_display_order
places-order list after h =
    let order : Pages → List Bytes = λ l. map key_of (sort place_before (places l)) in
    let eq : (l : Pages) → map view_of (sort display_before (normal_pages l)) ≡ order l = λ l.
      map-view (sort display_before (normal_pages l))
      ∙ ap (map key_of) (sort-map (normal_pages l)) in
    eq after ∙ ap (λ ps. map key_of (sort place_before ps)) h ∙ sym (eq list)
