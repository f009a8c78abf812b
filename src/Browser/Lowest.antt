-- ===== src/Browser/Lowest.antt =====
-- A tab that asks for no position (madt-server/Browser.cpp): which free position it takes.
use open_madt.Prelude.{
  Bool, [], ◌∷◌, length, leb, ℕ, zero, suc, ◌+◌, ◌≤◌, true, false, ◌&&◌, not, some, Bytes, ◌≡◌,
  refl, arith, Bool-cases, inl, inr, ◌==◌, ltb, ap,
}
use open_madt.Prelude.Int.{ℤ, negsuc, pos, eq_ℤ}
use open_madt.Prelude.Map.{bytes_key}
use open_madt.Json.Access.{Outcome}
use open_madt.Browser.{
  stands_at, BrowserPage, Pages, max_tabs, pos_any, is_extra_page, normal_page_count,
}
use open_madt.Browser.Tally.{one, tally}
use open_madt.Browser.Placement.{holds}
use open_madt.Browser.Allocation.{
  occupied, free_from, free_positions_in_range, move, move_first, allocate_logical_position,
}

-- The position of the bar that is free while all before it, from `start` on, are not.
pub record IsLowestFree (list : Pages) (start m : ℕ) : Type 0 where
  pub above : start ≤ m
  pub bar : m ≤ 19
  pub free : occupied list m ≡ false
  pub before : (k : ℕ) → start ≤ k → suc k ≤ m → occupied list k ≡ true

later :
    (list : Pages) (start m : ℕ)
    → IsLowestFree list start m
    → occupied list start ≡ true
    → IsLowestFree list (suc start) m
later list start m h e = record {
  above = elim (Bool-cases (m == start)) [
    | inl q ↦ let free = h.free in absurd (ground (arith, ap (occupied list)))
    | inr q ↦ let above = h.above in ground arith
  ];
  bar = h.bar;
  free = h.free;
  before = λ k above below. h.before k (omega (arith, above)) below;
}

here :
    (list : Pages) (start m : ℕ)
    → IsLowestFree list start m
    → occupied list start ≡ false
    → start ≡ m
here list start m h e = elim (Bool-cases (ltb start m)) [
  | inl q ↦ let taken = h.before start in absurd (ground arith)
  | inr q ↦ let above = h.above in ground arith
]

move_first-free_from :
    (id : Bytes) (list : Pages) (m start count : ℕ)
    → IsLowestFree list start m
    → suc m ≤ start + count
    → move_first id (free_from list start count) list ≡ some (move id (pos m) list)
unfolding free_from move_first
move_first-free_from id list m start zero h bound = absurd (omega (arith, h.above, bound))
move_first-free_from id list m start (suc count) h bound = elim (Bool-cases (occupied list start)) [
  | inl e ↦
      rw (e, free_from)
        (move_first-free_from id list m (suc start) count (later list start m h e)
          (omega (arith, bound)))
  | inr e ↦
      rw (e, free_from, move_first) (ap (λ n. some (move id (pos n) list)) (here list start m h e))
]

-- A tab without a preferred position is allowed while at most 20 tabs are counted, and then takes the
-- lowest position of the bar that no tab holds, and no other tab moves: the map after it is the map
-- before it with that position for the tab.
pub allocate_logical_position-lowest :
    (id : Bytes) (page : BrowserPage) (list : Pages) (m : ℕ)
    → page.preferred_pos ≡ pos_any
    → normal_page_count list ≤ max_tabs
    → IsLowestFree list 0 m
    → allocate_logical_position id page list ≡ Outcome.ok (some (move id (pos m) list))
unfolding allocate_logical_position free_positions_in_range is_extra_page
allocate_logical_position-lowest id page list m any few h =
    let first = move_first-free_from id list m 0 20 h (omega (arith, h.bar)) in
    let room : (not (is_extra_page page) && ltb max_tabs (normal_page_count list)) ≡ false =
      ground (arith, few) in
    let wanted : eq_ℤ page.preferred_pos pos_any ≡ true = rw any refl in
    rw (room, wanted, allocate_logical_position, free_positions_in_range) (ap Outcome.ok first)

-- One of `count` positions from `start` on.
unfoldable pub is_among : ℕ → ℕ → ℤ → Bool
is_among start count (pos n) = leb start n && ltb n (start + count)
is_among start count (negsuc n) = false

abbrev pub stands_among : ℕ → ℕ → Bytes × BrowserPage → Bool
stands_among start count (id, page) = is_among start count page.logical_pos

is_among-split :
    (start count : ℕ) (z : ℤ)
    → one (is_among start (suc count) z)
      ≡ one (stands_at start z) + one (is_among (suc start) count z)
unfolding is_among stands_at
is_among-split start count (pos n) = ground arith
is_among-split start count (negsuc n) = refl

stands_among-split :
    (start count : ℕ) (list : Pages)
    → tally (stands_among start (suc count)) list
      ≡ tally (holds start) list + tally (stands_among (suc start) count) list
unfolding tally
stands_among-split start count [] = refl
stands_among-split start count ((id, page) ∷ list) =
    omega (arith, stands_among-split start count list, is_among-split start count page.logical_pos)

tally-occupied : (n : ℕ) (list : Pages) → occupied list n ≡ true → 1 ≤ tally (holds n) list
unfolding occupied tally
tally-occupied n [] h = absurd cc
tally-occupied n ((id, page) ∷ list) h = ground (arith, tally-occupied n list)

length-free_from :
    (list : Pages) (start count : ℕ)
    → count ≤ length (free_from list start count) + tally (stands_among start count) list
unfolding free_from
length-free_from list start zero = omega arith
length-free_from list start (suc count) = ground (
  arith,
  length-free_from list (suc start) count,
  stands_among-split start count list,
  tally-occupied start list,
)

earlier :
    (list : Pages) (start m : ℕ)
    → occupied list start ≡ true
    → IsLowestFree list (suc start) m
    → IsLowestFree list start m
earlier list start m e h = record {
  above = let above = h.above in omega arith;
  bar = h.bar;
  free = h.free;
  before = λ k above below. elim (Bool-cases (k == start)) [
    | inl q ↦ ground (arith, ap (occupied list))
    | inr q ↦ h.before k (ground arith) below
  ];
}

some-IsLowestFree :
    (list : Pages) (start count : ℕ)
    → start + count ≤ 20
    → 1 ≤ length (free_from list start count)
    → (m : ℕ) × IsLowestFree list start m
unfolding free_from
some-IsLowestFree list start zero bound some_free = absurd (omega arith)
some-IsLowestFree list start (suc count) bound some_free = elim (Bool-cases (occupied list start)) [
  | inl e ↦
      let (m, h) = some-IsLowestFree list (suc start) count (omega arith) (ground arith) in
      (m, earlier list start m e h)
  | inr e ↦ (
    start,
    record {
      above = omega arith;
      bar = omega arith;
      free = e;
      before = λ k above below. absurd (omega arith);
    },
  )
]

-- A tab without a preferred position finds a place while at most 20 tabs are counted and at most 19
-- stand in the bar: there is a lowest position of the bar that no tab holds, and the tab takes it.
pub allocate_logical_position-Succeeds :
    (id : Bytes) (page : BrowserPage) (list : Pages)
    → page.preferred_pos ≡ pos_any
    → normal_page_count list ≤ max_tabs
    → tally (stands_among 0 20) list ≤ 19
    → (m : ℕ) × IsLowestFree list 0 m
      × (allocate_logical_position id page list ≡ Outcome.ok (some (move id (pos m) list)))
allocate_logical_position-Succeeds id page list any few room =
    let some_free : 1 ≤ length (free_from list 0 20) = omega (arith, length-free_from list 0 20) in
    let (m, h) = some-IsLowestFree list 0 20 (omega arith) some_free in
    (m, h, allocate_logical_position-lowest id page list m any few h)
