-- ===== src/Browser/Capacity.antt =====
-- How many tabs there are (madt-server/Browser.cpp): at most 20 in the bar and one in the extra zone.
use open_madt.Prelude.{
  ℕ, ◌-◌, ◌≤◌, Bool, false, ◌&&◌, ◌||◌, not, Option, none, some, List, [], ◌∷◌, Bytes, ◌≡◌, refl,
  ◌∙◌, arith, Bool-cases, Option-cases, inl, inr, ◌==◌, leb, ltb, length, drop,
}
use open_madt.Prelude.Int.{ℤ, pos, negsuc, eq_ℤ}
use open_madt.Prelude.Map.{bytes_key}
use open_madt.Json.Access.{Outcome}
use open_madt.Browser.{
  BrowserPage, Pages, max_tabs, pos_any, pos_end, pos_extra, is_extra_page, has_extra_page,
  normal_page_count, sort, zone_start, zone_end,
}
use open_madt.Browser.Allocation.{
  move, assign, assign_zone, found, allocate_in_zone, allocate_zone_position, move_first,
  allocate_absolute_position, allocate_logical_position, is_zone, candidate_positions,
  ordered_pages, taken,
}
use open_madt.Browser.Tally.{tally, value}

abbrev pub is_normal_page : BrowserPage → Bool
is_normal_page page = not (is_extra_page page)

pub record IsWithin (list : Pages) : Type 0 where
  pub normal : normal_page_count list ≤ 20
  pub extra : tally (value is_extra_page) list ≤ 1

pub normal-tally : (list : Pages) → normal_page_count list ≡ tally (value is_normal_page) list
unfolding normal_page_count tally
normal-tally [] = refl
normal-tally ((id, page) ∷ list) = ground (arith, normal-tally list)

pub extra-tally :
    (list : Pages) → has_extra_page list ≡ false → tally (value is_extra_page) list ≡ 0
unfolding has_extra_page tally
extra-tally [] h = refl
extra-tally ((id, page) ∷ list) h = ground (arith, extra-tally list)

-- A test that does not read the position of a page.
abbrev pub IsBlind : (Bytes × BrowserPage → Bool) → Type 0
IsBlind p =
    (id : Bytes) (page : BrowserPage) (z : ℤ)
    → p (id, record page { logical_pos = z }) ≡ p (id, page)

pub normal-IsBlind : IsBlind (value is_normal_page)
unfolding is_extra_page
normal-IsBlind id page z = refl

pub extra-IsBlind : IsBlind (value is_extra_page)
unfolding is_extra_page
extra-IsBlind id page z = refl

-- Two maps agree but for positions: as many entries pass each test that does not read them.
abbrev pub SameCounts : Pages → Pages → Type 0
SameCounts before after =
    (p : Bytes × BrowserPage → Bool) → IsBlind p → tally p after ≡ tally p before

move-SameCounts : (id : Bytes) (z : ℤ) (list : Pages) → SameCounts list (move id z list)
unfolding move tally
move-SameCounts id z [] p blind = refl
move-SameCounts id z ((j, page) ∷ list) p blind =
    ground (arith, blind j page z, move-SameCounts id z list p blind)

-- The counts after an allocation.
abbrev pub SameIn : Pages → Outcome (Option Pages) → Type 0
SameIn list (Outcome.ok (some placed)) = SameCounts list placed
SameIn list (Outcome.ok none) = Unit
SameIn list Outcome.throws = Unit
SameIn list Outcome.undefined = Unit

abbrev SameAfter : Pages → Outcome Pages → Type 0
SameAfter list (Outcome.ok placed) = SameCounts list placed
SameAfter list Outcome.throws = Unit
SameAfter list Outcome.undefined = Unit

trans-after : (a b : Pages) (r : Outcome Pages) → SameCounts a b → SameAfter b r → SameAfter a r
trans-after a b (Outcome.ok placed) h k = λ p blind. k p blind ∙ h p blind
trans-after a b Outcome.throws h k = tt
trans-after a b Outcome.undefined h k = tt

assign-SameCounts : (es : Pages) (ns : List ℕ) (list : Pages) → SameAfter list (assign es ns list)
unfolding assign
assign-SameCounts [] ns list = λ p blind. refl
assign-SameCounts (e ∷ es) [] list = tt
assign-SameCounts (e ∷ es) (n ∷ ns) list =
    trans-after list (move e.0 (pos n) list) (assign es ns (move e.0 (pos n) list))
      (move-SameCounts e.0 (pos n) list) (assign-SameCounts es ns (move e.0 (pos n) list))

assign_zone-SameCounts :
    (preferred : ℤ) (es : Pages) (ns : List ℕ) (list : Pages)
    → SameAfter list (assign_zone preferred es ns list)
unfolding assign_zone
assign_zone-SameCounts preferred es ns list = elim (Bool-cases (eq_ℤ preferred pos_end)) [
  | inr e ↦ rw (e, assign_zone) (assign-SameCounts es ns list)
  | inl e ↦ elim (Bool-cases (ltb (length ns) (length es))) [
    | inl k ↦ rw (e, k, assign_zone) tt
    | inr k ↦ rw (e, k, assign_zone) (assign-SameCounts es (drop (length ns - length es) ns) list)
  ]
]

found-SameIn : (list : Pages) (r : Outcome Pages) → SameAfter list r → SameIn list (found r)
unfolding found
found-SameIn list (Outcome.ok placed) h = h
found-SameIn list Outcome.throws h = tt
found-SameIn list Outcome.undefined h = tt

allocate_in_zone-SameIn :
    (id : Bytes) (page : BrowserPage) (preferred : ℤ) (start end : ℕ) (list : Pages)
    → SameIn list (allocate_in_zone id page preferred start end list)
unfolding allocate_in_zone
allocate_in_zone-SameIn id page preferred start end list =
    let ns = sort ltb (candidate_positions id page preferred start end list) in
    let es = ordered_pages id page preferred start end list in
    elim (Bool-cases (length ns == 0)) [
      | inl e ↦ rw (e, allocate_in_zone) tt
      | inr e ↦
          rw (e, allocate_in_zone)
            (found-SameIn list (assign_zone preferred es ns list)
              (assign_zone-SameCounts preferred es ns list))
    ]

pub allocate_zone_position-SameIn :
    (id : Bytes) (page : BrowserPage) (preferred : ℤ) (list : Pages)
    → SameIn list (allocate_zone_position id page preferred list)
unfolding allocate_zone_position
allocate_zone_position-SameIn id page preferred list = elim (Option-cases (zone_start preferred)) [
  | inl e ↦ rw (e, allocate_zone_position) tt
  | inr (start, e) ↦ elim (Option-cases (zone_end preferred)) [
    | inl q ↦ rw (e, q, allocate_zone_position) tt
    | inr (end, q) ↦
        rw (e, q, allocate_zone_position) (allocate_in_zone-SameIn id page preferred start end list)
  ]
]

move_first-SameIn :
    (id : Bytes) (free : List ℕ) (list : Pages) → SameIn list (Outcome.ok (move_first id free list))
unfolding move_first
move_first-SameIn id [] list = tt
move_first-SameIn id (n ∷ ns) list = move-SameCounts id (pos n) list

absolute-SameIn :
    (id : Bytes) (preferred : ℤ) (list : Pages)
    → SameIn list (Outcome.ok (allocate_absolute_position id preferred list))
unfolding allocate_absolute_position
absolute-SameIn id (negsuc n) list = tt
absolute-SameIn id (pos n) list = elim (Bool-cases (leb max_tabs n || taken id n list)) [
  | inl e ↦ rw (e, allocate_absolute_position) tt
  | inr e ↦ rw (e, allocate_absolute_position) (move-SameCounts id (pos n) list)
]

pub allocate_logical_position-SameIn :
    (id : Bytes) (page : BrowserPage) (list : Pages)
    → SameIn list (allocate_logical_position id page list)
unfolding allocate_logical_position
allocate_logical_position-SameIn id page list =
    elim (Bool-cases (not (is_extra_page page) && ltb max_tabs (normal_page_count list))) [
      | inl e ↦ rw (e, allocate_logical_position) tt
      | inr e ↦ elim (Bool-cases (eq_ℤ page.preferred_pos pos_any)) [
        | inl q ↦ rw (e, q, allocate_logical_position) (move_first-SameIn id _ list)
        | inr q ↦ elim (Bool-cases (is_zone page.preferred_pos)) [
          | inl u ↦
              rw (e, q, u, allocate_logical_position)
                (allocate_zone_position-SameIn id page page.preferred_pos list)
          | inr u ↦ elim (Bool-cases (eq_ℤ page.preferred_pos pos_extra)) [
            | inl v ↦ rw (e, q, u, v, allocate_logical_position) (move-SameCounts id pos_extra list)
            | inr v ↦
                rw (e, q, u, v, allocate_logical_position)
                  (absolute-SameIn id page.preferred_pos list)
          ]
        ]
      ]
    ]
