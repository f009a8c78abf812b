-- ===== src/Browser/Allocation.antt =====
-- The positions of tabs and shortcuts (madt-server/Browser.cpp).
use open_madt.Prelude.{
  ℕ, zero, suc, ◌-◌, Bool, false, ◌&&◌, ◌||◌, not, Option, none, some, List, [], ◌∷◌, ◌++◌, Bytes,
  equal, ◌==◌, leb, ltb, length, drop, map, if◌then◌else◌,
}
use open_madt.Prelude.Int.{ℤ, pos, negsuc, pos_part, eq_ℤ}
use open_madt.Prelude.Map.{bytes_key}
use open_madt.Json.Access.{Outcome}
use open_madt.Browser.{
  BrowserPage, Pages, Shortcuts, max_tabs, pos_any, pos_beginning, pos_middle, pos_end, pos_extra,
  sort, stands_at, in_range, page_url_less, zone_start, zone_end, is_extra_page, normal_page_count,
}

-- `occupied[pos]` of `freePositionsInRange`.
unfoldable pub occupied : Pages → ℕ → Bool
unfolding stands_at
occupied [] n = false
occupied ((id, page) ∷ list) n = stands_at n page.logical_pos || occupied list n

-- The loop of `freePositionsInRange` over `count` positions from `n` on.
unfoldable pub free_from : Pages → ℕ → ℕ → List ℕ
unfolding occupied
free_from list n zero = []
free_from list n (suc count) =
    let rest = free_from list (suc n) count in if occupied list n then rest else n ∷ rest

unfoldable pub free_positions_in_range : Pages → ℕ → ℕ → List ℕ
unfolding free_from
free_positions_in_range list start end = free_from list start (suc end - start)

-- `page->logicalPos = n`
unfoldable pub move : Bytes → ℤ → Pages → Pages
move id n [] = []
move id n ((key, page) ∷ list) =
    let rest = move id n list in
    if equal key id then (key, record page { logical_pos = n }) ∷ rest else (key, page) ∷ rest

-- Whether another page stands at the position.
unfoldable pub taken : Bytes → ℕ → Pages → Bool
unfolding stands_at
taken id n [] = false
taken id n ((key, page) ∷ list) =
    not (equal key id) && stands_at n page.logical_pos || taken id n list

-- The result `false` is `none`.
unfoldable pub allocate_absolute_position : Bytes → ℤ → Pages → Option Pages
unfolding move taken
allocate_absolute_position id (negsuc n) list = none
allocate_absolute_position id (pos n) list =
    if leb max_tabs n || taken id n list then none else some (move id (pos n) list)

-- A page of the zone that is not the page itself.
unfoldable pub in_zone : Bytes → ℤ → ℕ → ℕ → Bytes × BrowserPage → Bool
unfolding in_range
in_zone id preferred start end (key, page) =
    not (equal key id) && eq_ℤ page.preferred_pos preferred && in_range start end page.logical_pos

unfoldable pub zone_pages : Bytes → ℤ → ℕ → ℕ → Pages → Pages
unfolding in_zone
zone_pages id preferred start end [] = []
zone_pages id preferred start end (e ∷ list) =
    let rest = zone_pages id preferred start end list in
    if in_zone id preferred start end e then e ∷ rest else rest

abbrev pub place_of : Bytes × BrowserPage → ℕ
place_of (key, page) = pos_part page.logical_pos

unfoldable pub own_position : BrowserPage → ℕ → ℕ → List ℕ
unfolding in_range
own_position page start end =
    if in_range start end page.logical_pos then pos_part page.logical_pos ∷ [] else []

unfoldable pub candidate_positions : Bytes → BrowserPage → ℤ → ℕ → ℕ → Pages → List ℕ
unfolding zone_pages own_position free_positions_in_range
candidate_positions id page preferred start end list =
    map place_of (zone_pages id preferred start end list)
    ++ own_position page start end
    ++ free_positions_in_range list start end

abbrev pub entry_less : Bytes × BrowserPage → Bytes × BrowserPage → Bool
entry_less left right = page_url_less left.1 right.1

-- `pages`, in the order of their URLs.
unfoldable pub ordered_pages : Bytes → BrowserPage → ℤ → ℕ → ℕ → Pages → Pages
unfolding zone_pages page_url_less sort
ordered_pages id page preferred start end list =
    sort entry_less (zone_pages id preferred start end list ++ (id, page) ∷ [])

-- `pages[i]->logicalPos = positions[i]` for all pages; past the end of the positions is undefined.
unfoldable pub assign : Pages → List ℕ → Pages → Outcome Pages
unfolding move
assign [] positions list = Outcome.ok list
assign (e ∷ es) [] list = Outcome.undefined
assign (e ∷ es) (n ∷ ns) list = assign es ns (move e.0 (pos n) list)

-- With at least one candidate. At the end of the bar, the pages take the last candidates; the
-- iterator `end() - pages.size()` is undefined if there are more pages than candidates.
unfoldable pub assign_zone : ℤ → Pages → List ℕ → Pages → Outcome Pages
unfolding assign
assign_zone preferred pages candidates list =
    if eq_ℤ preferred pos_end
    then (if ltb (length candidates) (length pages)
        then Outcome.undefined
        else assign pages (drop (length candidates - length pages) candidates) list)
    else assign pages candidates list

unfoldable pub found : Outcome Pages → Outcome (Option Pages)
found (Outcome.ok list) = Outcome.ok (some list)
found Outcome.throws = Outcome.throws
found Outcome.undefined = Outcome.undefined

unfoldable pub allocate_in_zone : Bytes → BrowserPage → ℤ → ℕ → ℕ → Pages → Outcome (Option Pages)
unfolding candidate_positions ordered_pages assign_zone found sort
allocate_in_zone id page preferred start end list =
    let candidates = sort ltb (candidate_positions id page preferred start end list) in
    if length candidates == 0
    then Outcome.ok none
    else found
        (assign_zone preferred (ordered_pages id page preferred start end list) candidates list)

unfoldable pub allocate_zone_position : Bytes → BrowserPage → ℤ → Pages → Outcome (Option Pages)
unfolding allocate_in_zone zone_start zone_end
allocate_zone_position id page preferred list = elim (zone_start preferred) [
  | none ↦ Outcome.ok none
  | some start ↦ elim (zone_end preferred) [
    | none ↦ Outcome.ok none
    | some end ↦ allocate_in_zone id page preferred start end list
  ]
]

unfoldable pub move_first : Bytes → List ℕ → Pages → Option Pages
unfolding move
move_first id [] list = none
move_first id (n ∷ ns) list = some (move id (pos n) list)

abbrev pub is_zone : ℤ → Bool
is_zone preferred =
    eq_ℤ preferred pos_beginning || eq_ℤ preferred pos_middle || eq_ℤ preferred pos_end

unfoldable pub allocate_logical_position : Bytes → BrowserPage → Pages → Outcome (Option Pages)
unfolding allocate_zone_position allocate_absolute_position move_first
allocate_logical_position id page list =
    if not (is_extra_page page) && ltb max_tabs (normal_page_count list)
    then Outcome.ok none
    else if eq_ℤ page.preferred_pos pos_any
    then Outcome.ok (move_first id (free_positions_in_range list 0 19) list)
    else if is_zone page.preferred_pos
    then allocate_zone_position id page page.preferred_pos list
    else if eq_ℤ page.preferred_pos pos_extra
    then Outcome.ok (some (move id pos_extra list))
    else Outcome.ok (allocate_absolute_position id page.preferred_pos list)

-- `occupied[pos]` of `freeShortcutPositions`.
unfoldable pub shortcut_occupied : Shortcuts → ℕ → Bool
unfolding stands_at
shortcut_occupied [] n = false
shortcut_occupied ((id, entry) ∷ shortcuts) n =
    stands_at n entry.shortcut_pos || shortcut_occupied shortcuts n

-- `freeShortcutPositions`, from `n` on.
unfoldable pub free_shortcut_positions : Shortcuts → ℕ → ℕ → List ℕ
unfolding shortcut_occupied
free_shortcut_positions shortcuts n zero = []
free_shortcut_positions shortcuts n (suc count) =
    let rest = free_shortcut_positions shortcuts (suc n) count in
    if shortcut_occupied shortcuts n then rest else n ∷ rest

unfoldable pub holds_number : ℕ → List ℕ → Bool
holds_number n [] = false
holds_number n (m ∷ ms) = m == n || holds_number n ms

unfoldable pub first_number : List ℕ → Option ℕ
first_number [] = none
first_number (n ∷ ns) = some n

-- The position that `allocateShortcutPosition` gives, and `none` if it returns `false`.
unfoldable pub allocate_shortcut_position : ℕ → ℤ → Shortcuts → Option ℕ
unfolding free_shortcut_positions holds_number first_number
allocate_shortcut_position max_count (negsuc k) shortcuts =
    first_number (free_shortcut_positions shortcuts 0 max_count)
allocate_shortcut_position max_count (pos k) shortcuts =
    let free = free_shortcut_positions shortcuts 0 max_count in
    if ltb k max_count then (if holds_number k free then some k else none) else first_number free
