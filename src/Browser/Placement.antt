-- ===== src/Browser/Placement.antt =====
-- Each position of the bar holds at most one page (madt-server/Browser.cpp): what the allocation of a
-- position leaves.
use open_madt.Prelude.{
  ℕ, zero, suc, ◌+◌, ◌-◌, ◌≤◌, Bool, true, false, ◌&&◌, not, none, List, [], ◌∷◌, Bytes, ◌≡◌, refl,
  ap, subst, arith, equal, equal_iff, equal_refl, Bool-cases, inl, inr, if◌then◌else◌, ◌==◌, leb,
  ltb,
}
use open_madt.Prelude.Int.{ℤ, pos}
use open_madt.Prelude.Map.{lookup, bytes_key}
use open_madt.Prelude.Entries.{IsDistinct}
use open_madt.Json.Access.{Outcome}
use open_madt.Browser.{BrowserPage, Pages, stands_at}
use open_madt.Browser.Allocation.{occupied, free_from, free_positions_in_range, move, assign}
use open_madt.Browser.Tally.{one, tally, key_is, tally-IsDistinct_le}

abbrev pub holds : ℕ → Bytes × BrowserPage → Bool
holds n (id, page) = stands_at n page.logical_pos

abbrev pub is : ℕ → ℕ → Bool
is n m = m == n

-- The 20 positions of the bar.
abbrev pub slots : ℕ → ℕ
slots n = one (ltb n 20)

-- The map has each key once, each position of the bar holds at most one page, and no page stands
-- behind the bar.
pub record IsPlaced (list : Pages) : Type 0 where
  pub distinct : IsDistinct list
  pub apart : (n : ℕ) → tally (holds n) list ≤ slots n

abbrev pub listed : Pages → Bytes → Bool
listed es id = not (tally (key_is id) es == 0)

-- An entry at the position that is not among those that are to be moved.
abbrev pub stays : Pages → ℕ → Bytes × BrowserPage → Bool
stays es n e = holds n e && not (listed es e.0)

lookup-move-none :
    (id k : Bytes) (z : ℤ) (list : Pages) → lookup k list ≡ none → lookup k (move id z list) ≡ none
unfolding move lookup
lookup-move-none id k z [] h = refl
lookup-move-none id k z ((j, page) ∷ list) h = ground (arith, lookup-move-none id k z list)

pub move-IsDistinct :
    (id : Bytes) (z : ℤ) (list : Pages) → IsDistinct list → IsDistinct (move id z list)
unfolding move
move-IsDistinct id z [] d = tt
move-IsDistinct id z ((j, page) ∷ list) d = elim (Bool-cases (equal j id)) [
  | inl e ↦ rw (e, move) (lookup-move-none id j z list d.0, move-IsDistinct id z list d.1)
  | inr e ↦ rw (e, move) (lookup-move-none id j z list d.0, move-IsDistinct id z list d.1)
]

stays-move :
    (e : Bytes × BrowserPage) (es : Pages) (c n : ℕ) (list : Pages)
    → tally (stays es n) (move e.0 (pos c) list)
      ≤ tally (stays (e ∷ es) n) list + (if c == n then tally (key_is e.0) list else 0)
unfolding move tally stands_at
stays-move e es c n [] = omega arith
stays-move e es c n ((j, page) ∷ list) =
    ground (arith, equal_iff j e.0, equal_iff e.0 j, stays-move e es c n list)

stays_nothing : (n : ℕ) (list : Pages) → tally (stays [] n) list ≡ tally (holds n) list
unfolding tally
stays_nothing n [] = refl
stays_nothing n (e ∷ list) = ground (arith, stays_nothing n list)

pub stays_le : (es : Pages) (n : ℕ) (list : Pages) → tally (stays es n) list ≤ tally (holds n) list
unfolding tally
stays_le es n [] = omega arith
stays_le es n (e ∷ list) = ground (arith, stays_le es n list)

assign-step :
    (e : Bytes × BrowserPage) (es : Pages) (c n : ℕ) (ns : List ℕ) (list : Pages)
    → IsDistinct list
    → tally (stays (e ∷ es) n) list + tally (is n) (c ∷ ns) ≤ slots n
    → tally (stays es n) (move e.0 (pos c) list) + tally (is n) ns ≤ slots n
unfolding tally
assign-step e es c n ns list d h =
    ground (arith, stays-move e es c n list, tally-IsDistinct_le e.0 list d)

pub assign-IsPlaced :
    (es : Pages) (ns : List ℕ) (list placed : Pages)
    → IsDistinct list
    → ((n : ℕ) → tally (stays es n) list + tally (is n) ns ≤ slots n)
    → assign es ns list ≡ Outcome.ok placed
    → IsPlaced placed
unfolding assign
assign-IsPlaced [] ns list placed d h e =
    let same : list ≡ placed = cc in
    subst IsPlaced same
      (record { distinct = d; apart = λ n. omega (arith, h n, stays_nothing n list) })
assign-IsPlaced (e ∷ es) [] list placed d h q = absurd cc
assign-IsPlaced (e ∷ es) (n ∷ ns) list placed d h q =
    assign-IsPlaced es ns (move e.0 (pos n) list) placed (move-IsDistinct e.0 (pos n) list d)
      (λ m. assign-step e es n m ns list d (h m)) q

free-tally :
    (n : ℕ) (list : Pages) (start count : ℕ)
    → tally (is n) (free_from list start count)
      ≤ (if leb start n && ltb n (start + count) && not (occupied list n) then 1 else 0)
unfolding free_from tally
free-tally n list start zero = omega arith
free-tally n list start (suc count) =
    ground (arith, free-tally n list (suc start) count, ap (occupied list))

pub occupied-tally : (n : ℕ) (list : Pages) → occupied list n ≡ false → tally (holds n) list ≡ 0
unfolding occupied tally
occupied-tally n [] h = refl
occupied-tally n ((id, page) ∷ list) h = ground (arith, occupied-tally n list)

-- Free positions fit beside the pages.
pub free-fits :
    (n : ℕ) (list : Pages) (start end : ℕ)
    → end ≤ 19
    → tally (holds n) list ≤ slots n
    → tally (holds n) list + tally (is n) (free_positions_in_range list start end) ≤ slots n
unfolding free_positions_in_range
free-fits n list start end bound h =
    ground (arith, free-tally n list start (suc end - start), occupied-tally n list)

pub listed-cons :
    (e : Bytes × BrowserPage) (es : Pages) (id : Bytes)
    → listed es id ≡ true
    → listed (e ∷ es) id ≡ true
unfolding tally
listed-cons e es id h = ground arith

pub listed_head : (e : Bytes × BrowserPage) (es : Pages) → listed (e ∷ es) e.0 ≡ true
unfolding tally
listed_head e es = ground (arith, equal_refl e.0)
