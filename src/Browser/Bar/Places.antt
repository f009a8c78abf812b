-- ===== src/Browser/Bar/Places.antt =====
-- Changes of the pages that leave the order of the tab bar as it is (madt-server/Browser.cpp).
use open_madt.Prelude.{
  true, none, some, [], ◌∷◌, Bytes, ◌≡◌, refl, ap, arith, equal, equal_iff, equal_refl, Bool-cases,
  inl, inr, map,
}
use mathlib.Core.Option.{some-injective}
use open_madt.Prelude.Int.{ℤ, eq_ℤ-sound}
use open_madt.Prelude.Map.{erase-unknown, lookup, insert, replace, place, erase, bytes_key}
use open_madt.Prelude.Entries.{IsDistinct}
use open_madt.Json.Access.{Outcome}
use open_madt.Browser.{BrowserPage, Pages, pos_extra, is_extra_page}
use open_madt.Browser.Allocation.{move, allocate_logical_position}
use open_madt.Browser.Bar.{normal_pages}
use open_madt.Browser.Bar.Order.{places}

move-unknown : (id : Bytes) (z : ℤ) (list : Pages) → lookup id list ≡ none → move id z list ≡ list
unfolding move lookup
move-unknown id z [] h = refl
move-unknown id z ((j, page) ∷ list) h = ground (arith, move-unknown id z list)

-- A page of the extra zone that comes in, and gets its place.
places-new :
    (id : Bytes) (page : BrowserPage) (z : ℤ) (list : Pages)
    → lookup id list ≡ none
    → is_extra_page page ≡ true
    → normal_pages (move id z (place id page list)) ≡ normal_pages list
unfolding move place lookup normal_pages is_extra_page
places-new id page z [] h x = ground (arith, equal_refl id)
places-new id page z ((j, other) ∷ list) h x =
    ground (arith, equal_refl id, move-unknown id z list, places-new id page z list)

pub places-insert_extra :
    (id : Bytes) (page : BrowserPage) (z : ℤ) (list : Pages)
    → lookup id list ≡ none
    → is_extra_page page ≡ true
    → places (move id z (insert id page list)) ≡ places list
unfolding insert
places-insert_extra id page z list h x = rw (h, insert) (ap (map _) (places-new id page z list h x))

-- The pages of the extra zone go to no other place.
pub allocate-extra :
    (id : Bytes) (page : BrowserPage) (list : Pages)
    → is_extra_page page ≡ true
    → allocate_logical_position id page list ≡ Outcome.ok (some (move id pos_extra list))
unfolding allocate_logical_position is_extra_page
allocate-extra id page list x =
    let same : page.preferred_pos ≡ pos_extra = eq_ℤ-sound page.preferred_pos pos_extra x in
    rw (same, allocate_logical_position) refl

-- A page that goes to another URL where it stands.
places-head :
    (id url : Bytes) (page : BrowserPage) (list : Pages)
    → places ((id, record page { url = url }) ∷ list) ≡ places ((id, page) ∷ list)
unfolding normal_pages is_extra_page
places-head id url page list = ground arith

places-replace :
    (id url : Bytes) (old : BrowserPage) (list : Pages)
    → lookup id list ≡ some old
    → places (replace id (record old { url = url }) list) ≡ places list
unfolding lookup replace normal_pages
places-replace id url old [] h = absurd cc
places-replace id url old ((j, page) ∷ list) h = elim (Bool-cases (equal j id)) [
  | inl e ↦
      let same : page ≡ old = some-injective page old (rw (e, lookup) at h) in
      rw (e, ← same) (places-head j url page list)
  | inr e ↦ ground (arith, places-replace id url old list)
]

pub places-renamed :
    (id url : Bytes) (old : BrowserPage) (list : Pages)
    → lookup id list ≡ some old
    → places (insert id (record old { url = url }) list) ≡ places list
unfolding insert
places-renamed id url old list h = rw (h, insert) (places-replace id url old list h)

-- A page of the extra zone that goes.
pub places-erase_extra :
    (id : Bytes) (page : BrowserPage) (list : Pages)
    → IsDistinct list
    → lookup id list ≡ some page
    → is_extra_page page ≡ true
    → places (erase id list) ≡ places list
unfolding lookup erase normal_pages
places-erase_extra id page [] d h x = absurd cc
places-erase_extra id page ((j, other) ∷ list) d h x = elim (Bool-cases (equal j id)) [
  | inl e ↦
      let same : j ≡ id = (equal_iff j id).0 e in
      ground (arith, erase-unknown j list, d.0, ap (λ (k : Bytes). erase k list) same)
  | inr e ↦ ground (arith, places-erase_extra id page list, d.1)
]
