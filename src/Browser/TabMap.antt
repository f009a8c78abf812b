-- ===== src/Browser/TabMap.antt =====
-- The tab map that the server hands out (`onGetTabMap` of madt-server/Browser.cpp).
use open_madt.Prelude.{
  ℕ, zero, suc, ◌≤◌, ◌<◌, false, Option, none, some, List, [], ◌∷◌, Bytes, ◌≡◌, refl, arith, length,
  get_elem?, if◌then◌else◌,
}
use open_madt.Prelude.Int.{ℤ, pos, negsuc}
use open_madt.Browser.{Pages, stands_at}
use open_madt.Browser.Allocation.{occupied}
use open_madt.Browser.Handlers.{set_slot, no_slots, fill_slots, tab_map}
use open_madt.Browser.Tally.{tally}
use open_madt.Browser.Placement.{holds, IsPlaced}

-- The page that stands at a position.
abbrev pub page_at : ℕ → Pages → Option Bytes
page_at n [] = none
page_at n ((id, page) ∷ list) = if stands_at n page.logical_pos then some id else page_at n list

length-set_slot :
    (z : ℤ) (id : Bytes) (map : List (Option Bytes)) → length (set_slot z id map) ≡ length map
unfolding set_slot
length-set_slot z id [] = refl
length-set_slot (negsuc n) id (x ∷ map) = refl
length-set_slot (pos zero) id (x ∷ map) = refl
length-set_slot (pos (suc n)) id (x ∷ map) = omega (arith, length-set_slot (pos n) id map)

get_elem?-set_slot :
    (n : ℕ) (z : ℤ) (id : Bytes) (map : List (Option Bytes))
    → n < length map
    → get_elem? (set_slot z id map) n ≡ (if stands_at n z then some (some id) else get_elem? map n)
unfolding set_slot stands_at
get_elem?-set_slot n z id [] h = absurd (omega arith)
get_elem?-set_slot n (negsuc m) id (x ∷ map) h = refl
get_elem?-set_slot zero (pos zero) id (x ∷ map) h = refl
get_elem?-set_slot (suc n) (pos zero) id (x ∷ map) h = ground arith
get_elem?-set_slot zero (pos (suc m)) id (x ∷ map) h = ground arith
get_elem?-set_slot (suc n) (pos (suc m)) id (x ∷ map) h =
    ground (arith, get_elem?-set_slot n (pos m) id map)

free-occupied : (n : ℕ) (list : Pages) → tally (holds n) list ≡ 0 → occupied list n ≡ false
unfolding occupied tally
free-occupied n [] h = refl
free-occupied n ((id, page) ∷ list) h = ground (arith, free-occupied n list)

free-page_at : (n : ℕ) (list : Pages) → occupied list n ≡ false → page_at n list ≡ none
unfolding occupied
free-page_at n [] h = refl
free-page_at n ((id, page) ∷ list) h = ground (arith, free-page_at n list)

get_elem?-fill_slots :
    (n : ℕ) (list : Pages) (map : List (Option Bytes))
    → n < length map
    → tally (holds n) list ≤ 1
    → get_elem? (fill_slots list map) n
      ≡ (if occupied list n then some (page_at n list) else get_elem? map n)
unfolding fill_slots occupied tally
get_elem?-fill_slots n [] map h k = refl
get_elem?-fill_slots n ((id, page) ∷ list) map h k = ground (
  arith,
  get_elem?-fill_slots n list (set_slot page.logical_pos id map),
  get_elem?-set_slot n page.logical_pos id map h,
  length-set_slot page.logical_pos id map,
  free-occupied n list,
)

length-no_slots : (n : ℕ) → length (no_slots n) ≡ n
unfolding no_slots
length-no_slots zero = refl
length-no_slots (suc n) = omega (arith, length-no_slots n)

get_elem?-no_slots : (n i : ℕ) → i < n → get_elem? (no_slots n) i ≡ some none
unfolding no_slots
get_elem?-no_slots zero i h = absurd (omega arith)
get_elem?-no_slots (suc n) zero h = refl
get_elem?-no_slots (suc n) (suc i) h = get_elem?-no_slots n i (omega arith)

length-fill_slots :
    (list : Pages) (map : List (Option Bytes)) → length (fill_slots list map) ≡ length map
unfolding fill_slots
length-fill_slots [] map = refl
length-fill_slots ((id, page) ∷ list) map = omega (
  arith,
  length-fill_slots list (set_slot page.logical_pos id map),
  length-set_slot page.logical_pos id map,
)

-- The map has 20 entries, and each is the page that stands at its position, or none if the position is
-- free, where no position holds two pages.
pub tab_map-page_at :
    (list : Pages) (n : ℕ)
    → IsPlaced list
    → n < 20
    → (length (tab_map list) ≡ 20) × (get_elem? (tab_map list) n ≡ some (page_at n list))
unfolding tab_map
tab_map-page_at list n k h = (
  omega (arith, length-fill_slots list (no_slots 20), length-no_slots 20),
  ground (
    arith,
    get_elem?-fill_slots n list (no_slots 20),
    length-no_slots 20,
    get_elem?-no_slots 20 n h,
    k.apart n,
    free-page_at n list,
  ),
)
