-- ===== src/Browser/Reads.antt =====
-- Where `allocateZonePosition` of madt-server/Browser.cpp reads outside its vectors.
use open_madt.Prelude.{
  ℕ, ◌-◌, Bool, true, false, List, [], ◌∷◌, Bytes, ◌≡◌, refl, arith, length, length-drop, drop,
  Bool-cases, inl, inr, if◌then◌else◌, ◌==◌, ltb,
}
use open_madt.Prelude.Int.{ℤ, pos, eq_ℤ}
use open_madt.Json.Access.{Outcome}
use open_madt.Browser.{BrowserPage, Pages, pos_end, sort}
use open_madt.Browser.Allocation.{
  move, assign, assign_zone, found, candidate_positions, ordered_pages, allocate_in_zone,
}
use open_madt.Browser.Tally.{length-sort}

abbrev pub is_undefined : {A : Type 0} → Outcome A → Bool
is_undefined (Outcome.ok a) = false
is_undefined Outcome.throws = false
is_undefined Outcome.undefined = true

assign-undefined :
    (es : Pages) (ns : List ℕ) (list : Pages)
    → is_undefined (assign es ns list) ≡ ltb (length ns) (length es)
unfolding assign
assign-undefined [] ns list = ground arith
assign-undefined (e ∷ es) [] list = ground arith
assign-undefined (e ∷ es) (n ∷ ns) list =
    ground (arith, assign-undefined es ns (move e.0 (pos n) list))

assign_zone-undefined :
    (preferred : ℤ) (es : Pages) (ns : List ℕ) (list : Pages)
    → is_undefined (assign_zone preferred es ns list) ≡ ltb (length ns) (length es)
unfolding assign_zone
assign_zone-undefined preferred es ns list = elim (Bool-cases (eq_ℤ preferred pos_end)) [
  | inr e ↦ rw (e, assign_zone) (assign-undefined es ns list)
  | inl e ↦ ground (
    arith,
    assign-undefined es (drop (length ns - length es) ns) list,
    length-drop (length ns - length es) ns,
  )
]

found-undefined : (r : Outcome Pages) → is_undefined (found r) ≡ is_undefined r
unfolding found
found-undefined (Outcome.ok list) = refl
found-undefined Outcome.throws = refl
found-undefined Outcome.undefined = refl

-- The allocation in a zone reads outside its vectors exactly if it has candidates, but fewer of them
-- than pages that want the zone.
pub allocate_in_zone-undefined :
    (id : Bytes) (page : BrowserPage) (preferred : ℤ) (start end : ℕ) (list : Pages)
    → is_undefined (allocate_in_zone id page preferred start end list) ≡ (
        let candidates = length (candidate_positions id page preferred start end list) in
        if candidates == 0
        then false
        else ltb candidates (length (ordered_pages id page preferred start end list)))
unfolding allocate_in_zone
allocate_in_zone-undefined id page preferred start end list =
    let free = candidate_positions id page preferred start end list in
    let ns = sort ltb free in
    let es = ordered_pages id page preferred start end list in
    elim (Bool-cases (length ns == 0)) [
      | inl e ↦ rw (e, allocate_in_zone) (ground (arith, length-sort ltb free))
      | inr e ↦
          rw (e, allocate_in_zone)
            (ground (
              arith,
              found-undefined (assign_zone preferred es ns list),
              assign_zone-undefined preferred es ns list,
              length-sort ltb free,
            ))
    ]
