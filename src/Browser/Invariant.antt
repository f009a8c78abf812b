-- ===== src/Browser/Invariant.antt =====
-- What every operation of the browser keeps (madt-server/Browser.cpp): each position of the bar holds
-- at most one page, and no page stands behind the bar.
use open_madt.Prelude.{
  ℕ, ◌+◌, ◌-◌, ◌≤◌, false, ◌&&◌, ◌||◌, not, Option, none, some, List, [], ◌∷◌, Bytes, ◌≡◌, refl,
  arith, equal_iff, length, drop, Bool-cases, Option-cases, inl, inr, ◌==◌, leb, ltb,
}
use open_madt.Prelude.Int.{ℤ, pos, negsuc, eq_ℤ}
use open_madt.Prelude.Map.{lookup, erase, bytes_key}
use open_madt.Prelude.Entries.{IsDistinct, erase-IsDistinct}
use open_madt.Json.Access.{Outcome}
use open_madt.Browser.{
  BrowserPage, Pages, max_tabs, pos_any, pos_end, pos_extra, sort, stands_at, zone_start, zone_end,
  is_extra_page, normal_page_count,
}
use open_madt.Browser.Allocation.{
  free_positions_in_range, move, taken, allocate_absolute_position, candidate_positions,
  ordered_pages, assign, assign_zone, found, allocate_in_zone, allocate_zone_position, move_first,
  is_zone, allocate_logical_position,
}
use open_madt.Browser.Tally.{one, tally, tally-sort, tally-drop_le, tally-erase_le}
use open_madt.Browser.Placement.{
  holds, is, slots, IsPlaced, stays, move-IsDistinct, stays_le, assign-IsPlaced, free-fits,
}
use open_madt.Browser.Zone.{candidates-fit}

-- The pages that an allocation leaves are placed.
abbrev pub IsPlacedIn : Outcome (Option Pages) → Type 0
IsPlacedIn (Outcome.ok (some placed)) = IsPlaced placed
IsPlacedIn (Outcome.ok none) = Unit
IsPlacedIn Outcome.throws = Unit
IsPlacedIn Outcome.undefined = Unit

found-IsPlaced :
    (r : Outcome Pages)
    → ((placed : Pages) → r ≡ Outcome.ok placed → IsPlaced placed)
    → IsPlacedIn (found r)
unfolding found
found-IsPlaced (Outcome.ok placed) h = h placed refl
found-IsPlaced Outcome.throws h = tt
found-IsPlaced Outcome.undefined h = tt

assign_zone-IsPlaced :
    (preferred : ℤ) (es : Pages) (ns : List ℕ) (list placed : Pages)
    → IsDistinct list
    → ((n : ℕ) → tally (stays es n) list + tally (is n) ns ≤ slots n)
    → assign_zone preferred es ns list ≡ Outcome.ok placed
    → IsPlaced placed
unfolding assign_zone
assign_zone-IsPlaced preferred es ns list placed d h q =
    elim (Bool-cases (eq_ℤ preferred pos_end)) [
      | inr e ↦ assign-IsPlaced es ns list placed d h (rw (e, assign_zone) at q)
      | inl e ↦
          let last = drop (length ns - length es) ns in
          let fits : (n : ℕ) → tally (stays es n) list + tally (is n) last ≤ slots n =
            λ n. omega (arith, h n, tally-drop_le (is n) (length ns - length es) ns) in
          elim (Bool-cases (ltb (length ns) (length es))) [
            | inl k ↦ absurd (ground arith)
            | inr k ↦ assign-IsPlaced es last list placed d fits (ground arith)
          ]
    ]

allocate_in_zone-IsPlaced :
    (id : Bytes) (page : BrowserPage) (preferred : ℤ) (start end : ℕ) (list : Pages)
    → end ≤ 19
    → lookup id list ≡ some page
    → IsPlaced list
    → IsPlacedIn (allocate_in_zone id page preferred start end list)
unfolding allocate_in_zone
allocate_in_zone-IsPlaced id page preferred start end list bound h k =
    let free = candidate_positions id page preferred start end list in
    let ns = sort ltb free in
    let es = ordered_pages id page preferred start end list in
    elim (Bool-cases (length ns == 0)) [
      | inl e ↦ rw (e, allocate_in_zone) tt
      | inr e ↦
          rw (e, allocate_in_zone)
            (found-IsPlaced (assign_zone preferred es ns list) (λ placed.
              assign_zone-IsPlaced preferred es ns list placed k.distinct (λ n. omega (
                arith,
                tally-sort (is n) ltb free,
                candidates-fit id page preferred start end n list bound h (k.apart n),
              ))))
    ]

zone_end_le : (preferred : ℤ) (end : ℕ) → zone_end preferred ≡ some end → end ≤ 19
unfolding zone_end
zone_end_le preferred end h = ground arith

pub allocate_zone_position-IsPlaced :
    (id : Bytes) (page : BrowserPage) (preferred : ℤ) (list : Pages)
    → lookup id list ≡ some page
    → IsPlaced list
    → IsPlacedIn (allocate_zone_position id page preferred list)
unfolding allocate_zone_position
allocate_zone_position-IsPlaced id page preferred list h k =
    elim (Option-cases (zone_start preferred)) [
      | inl e ↦ rw (e, allocate_zone_position) tt
      | inr (start, e) ↦ elim (Option-cases (zone_end preferred)) [
        | inl q ↦ rw (e, q, allocate_zone_position) tt
        | inr (end, q) ↦
            rw (e, q, allocate_zone_position)
              (allocate_in_zone-IsPlaced id page preferred start end list
                (zone_end_le preferred end q) h k)
      ]
    ]

-- One page moves to a position that no other page holds.
move-IsPlaced :
    (id : Bytes) (page : BrowserPage) (n : ℕ) (list : Pages)
    → IsDistinct list
    → ((m : ℕ) → tally (stays ((id, page) ∷ []) m) list + one (n == m) ≤ slots m)
    → IsPlaced (move id (pos n) list)
unfolding assign tally
move-IsPlaced id page n list d h =
    assign-IsPlaced ((id, page) ∷ []) (n ∷ []) list (move id (pos n) list) d
      (λ m. omega (arith, h m)) refl

first-IsPlaced :
    (id : Bytes) (page : BrowserPage) (free : List ℕ) (list : Pages)
    → IsPlaced list
    → ((m : ℕ) → tally (holds m) list + tally (is m) free ≤ slots m)
    → IsPlacedIn (Outcome.ok (move_first id free list))
unfolding move_first tally
first-IsPlaced id page [] list k h = tt
first-IsPlaced id page (n ∷ ns) list k h =
    move-IsPlaced id page n list k.distinct
      (λ m. omega (arith, h m, stays_le ((id, page) ∷ []) m list))

taken-tally :
    (id : Bytes) (page : BrowserPage) (n : ℕ) (list : Pages)
    → taken id n list ≡ false
    → tally (stays ((id, page) ∷ []) n) list ≡ 0
unfolding taken tally
taken-tally id page n [] h = refl
taken-tally id page n ((j, other) ∷ list) h =
    ground (arith, taken-tally id page n list, equal_iff j id, equal_iff id j)

absolute-IsPlaced :
    (id : Bytes) (page : BrowserPage) (preferred : ℤ) (list : Pages)
    → IsPlaced list
    → IsPlacedIn (Outcome.ok (allocate_absolute_position id preferred list))
unfolding allocate_absolute_position
absolute-IsPlaced id page (negsuc n) list k = tt
absolute-IsPlaced id page (pos n) list k = elim (Bool-cases (leb max_tabs n || taken id n list)) [
  | inl e ↦ rw (e, allocate_absolute_position) tt
  | inr e ↦
      rw (e, allocate_absolute_position)
        (move-IsPlaced id page n list k.distinct (λ m.
          ground (arith, k.apart m, stays_le ((id, page) ∷ []) m list, taken-tally id page n list)))
]

tally-move_off :
    (id : Bytes) (z n : ℕ) (list : Pages)
    → tally (holds n) (move id (negsuc z) list) ≤ tally (holds n) list
unfolding move tally stands_at
tally-move_off id z n [] = omega arith
tally-move_off id z n ((j, page) ∷ list) = ground (arith, tally-move_off id z n list)

extra-IsPlaced : (id : Bytes) (list : Pages) → IsPlaced list → IsPlaced (move id pos_extra list)
extra-IsPlaced id list k = record {
  distinct = move-IsDistinct id pos_extra list k.distinct;
  apart = λ n. omega (arith, k.apart n, tally-move_off id 9 n list);
}

pub allocate_logical_position-IsPlaced :
    (id : Bytes) (page : BrowserPage) (list : Pages)
    → lookup id list ≡ some page
    → IsPlaced list
    → IsPlacedIn (allocate_logical_position id page list)
unfolding allocate_logical_position
allocate_logical_position-IsPlaced id page list h k =
    elim (Bool-cases (not (is_extra_page page) && ltb max_tabs (normal_page_count list))) [
      | inl e ↦ rw (e, allocate_logical_position) tt
      | inr e ↦ elim (Bool-cases (eq_ℤ page.preferred_pos pos_any)) [
        | inl q ↦
            rw (e, q, allocate_logical_position)
              (first-IsPlaced id page (free_positions_in_range list 0 19) list k
                (λ m. free-fits m list 0 19 (omega arith) (k.apart m)))
        | inr q ↦ elim (Bool-cases (is_zone page.preferred_pos)) [
          | inl u ↦
              rw (e, q, u, allocate_logical_position)
                (allocate_zone_position-IsPlaced id page page.preferred_pos list h k)
          | inr u ↦ elim (Bool-cases (eq_ℤ page.preferred_pos pos_extra)) [
            | inl v ↦ rw (e, q, u, v, allocate_logical_position) (extra-IsPlaced id list k)
            | inr v ↦
                rw (e, q, u, v, allocate_logical_position)
                  (absolute-IsPlaced id page page.preferred_pos list k)
          ]
        ]
      ]
    ]

pub erase-IsPlaced : (id : Bytes) (list : Pages) → IsPlaced list → IsPlaced (erase id list)
erase-IsPlaced id list k = record {
  distinct = erase-IsDistinct id list k.distinct;
  apart = λ n.
      omega
        (arith, k.apart n, tally-erase_le (λ (p : BrowserPage). stands_at n p.logical_pos) id list);
}
