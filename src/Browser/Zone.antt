-- ===== src/Browser/Zone.antt =====
-- The pages and candidates of a zone (`allocateZonePosition` of madt-server/Browser.cpp): the candidates
-- fit beside the pages that keep their positions.
use open_madt.Prelude.{
  ℕ, ◌+◌, ◌≤◌, Bool, true, false, ◌&&◌, some, [], ◌∷◌, ◌++◌, Bytes, ◌≡◌, refl, sym, ap, subst,
  arith, All, equal, equal_iff, equal_refl, map, Bool-cases, inl, inr,
}
use open_madt.Prelude.Int.{ℤ, pos, negsuc, pos_part}
use open_madt.Prelude.Map.{lookup, bytes_key}
use open_madt.Prelude.Entries.{All-map}
use mathlib.Core.Option.{some-injective}
use open_madt.Browser.{BrowserPage, Pages, stands_at, in_range}
use open_madt.Browser.Allocation.{
  free_positions_in_range, in_zone, zone_pages, place_of, own_position, candidate_positions,
  entry_less, ordered_pages,
}
use open_madt.Browser.Tally.{one, tally, tally-append, tally-sort, key_is}
use open_madt.Browser.Placement.{
  holds, is, slots, listed, stays, free-fits, listed-cons, listed_head,
}

abbrev IsListed : Bytes → ℤ → ℕ → ℕ → Pages → Pages → Type 0
IsListed id preferred start end es list =
    All
      (λ (e : Bytes × BrowserPage). in_zone id preferred start end e ≡ true → listed es e.0 ≡ true)
      list

zone-yes :
    (id : Bytes) (preferred : ℤ) (start end : ℕ) (e : Bytes × BrowserPage) (list : Pages)
    → in_zone id preferred start end e ≡ true
    → zone_pages id preferred start end (e ∷ list) ≡ e ∷ zone_pages id preferred start end list
unfolding zone_pages
zone-yes id preferred start end e list h = ground arith

zone-no :
    (id : Bytes) (preferred : ℤ) (start end : ℕ) (e : Bytes × BrowserPage) (list : Pages)
    → in_zone id preferred start end e ≡ false
    → zone_pages id preferred start end (e ∷ list) ≡ zone_pages id preferred start end list
unfolding zone_pages
zone-no id preferred start end e list h = ground arith

-- The pages of the zone are among those that are ordered anew.
zone-IsListed :
    (id : Bytes) (preferred : ℤ) (start end : ℕ) (list : Pages)
    → IsListed id preferred start end (zone_pages id preferred start end list) list
zone-IsListed id preferred start end [] = tt
zone-IsListed id preferred start end (e ∷ list) =
    let es = zone_pages id preferred start end list in
    let rest = zone-IsListed id preferred start end list in
    elim (Bool-cases (in_zone id preferred start end e)) [
      | inl k ↦
          subst (λ es. IsListed id preferred start end es (e ∷ list))
            (sym (zone-yes id preferred start end e list k))
            (λ z. listed_head e es, All-map _ _ list (λ x q z. listed-cons e es x.0 (q z)) rest)
      | inr k ↦
          subst (λ es. IsListed id preferred start end es (e ∷ list))
            (sym (zone-no id preferred start end e list k)) (λ z. absurd (ground arith), rest)
    ]

abbrev own : Bytes → ℕ → Bytes × BrowserPage → Bool
own id n e = equal e.0 id && holds n e

range-is :
    (start end n : ℕ) (z : ℤ) → in_range start end z ≡ true → is n (pos_part z) ≡ stands_at n z
unfolding in_range stands_at
range-is start end n (pos m) h = refl
range-is start end n (negsuc m) h = absurd (ground arith)

own-tally :
    (id : Bytes) (page : BrowserPage) (start end n : ℕ) (list : Pages)
    → lookup id list ≡ some page
    → tally (is n) (own_position page start end) ≤ tally (own id n) list
unfolding own_position tally lookup
own-tally id page start end n [] h = absurd (ground arith)
own-tally id page start end n ((j, other) ∷ list) h = elim (Bool-cases (equal j id)) [
  | inl e ↦
      let same : other ≡ page = some-injective other page (rw (e, lookup) at h) in
      ground
        (arith, ap (λ (p : BrowserPage). p.logical_pos) same, range-is start end n page.logical_pos)
  | inr e ↦ ground (arith, own-tally id page start end n list (rw (e, lookup) at h))
]

zone-tally :
    (id : Bytes) (preferred : ℤ) (start end n : ℕ) (es list : Pages)
    → listed es id ≡ true
    → IsListed id preferred start end es list
    → tally (stays es n) list
        + tally (is n) (map place_of (zone_pages id preferred start end list))
        + tally (own id n) list
      ≤ tally (holds n) list
unfolding zone_pages tally in_zone
zone-tally id preferred start end n es [] h a = omega arith
zone-tally id preferred start end n es ((j, page) ∷ list) h a = ground (
  arith,
  zone-tally id preferred start end n es list h a.1,
  a.0,
  range-is start end n page.logical_pos,
  equal_iff j id,
  ap (listed es),
)

candidates-tally :
    (p : ℕ → Bool) (id : Bytes) (page : BrowserPage) (preferred : ℤ) (start end : ℕ) (list : Pages)
    → tally p (candidate_positions id page preferred start end list)
      ≡ tally p (map place_of (zone_pages id preferred start end list))
        + (tally p (own_position page start end) + tally p (free_positions_in_range list start end))
unfolding candidate_positions
candidates-tally p id page preferred start end list =
    let zone = map place_of (zone_pages id preferred start end list) in
    let mine = own_position page start end in
    let free = free_positions_in_range list start end in
    omega (arith, tally-append p (zone ++ mine) free, tally-append p zone mine)

pub ordered-tally :
    (p : Bytes × BrowserPage → Bool) (id : Bytes) (page : BrowserPage) (preferred : ℤ)
    (start end : ℕ) (list : Pages)
    → tally p (ordered_pages id page preferred start end list)
      ≡ tally p (zone_pages id preferred start end list) + one (p (id, page))
unfolding ordered_pages tally
ordered-tally p id page preferred start end list =
    let zone = zone_pages id preferred start end list in
    omega (
      arith,
      tally-sort p entry_less (zone ++ (id, page) ∷ []),
      tally-append p zone ((id, page) ∷ []),
    )

ordered_self :
    (id : Bytes) (page : BrowserPage) (preferred : ℤ) (start end : ℕ) (list : Pages)
    → listed (ordered_pages id page preferred start end list) id ≡ true
ordered_self id page preferred start end list =
    ground (arith, ordered-tally (key_is id) id page preferred start end list, equal_refl id)

ordered-IsListed :
    (id : Bytes) (page : BrowserPage) (preferred : ℤ) (start end : ℕ) (list : Pages)
    → IsListed id preferred start end (ordered_pages id page preferred start end list) list
ordered-IsListed id page preferred start end list =
    All-map _ _ list
      (λ e q z. ground (arith, q z, ordered-tally (key_is e.0) id page preferred start end list))
      (zone-IsListed id preferred start end list)

-- The candidates of a zone fit beside the pages that keep their positions.
pub candidates-fit :
    (id : Bytes) (page : BrowserPage) (preferred : ℤ) (start end n : ℕ) (list : Pages)
    → end ≤ 19
    → lookup id list ≡ some page
    → tally (holds n) list ≤ slots n
    → tally (stays (ordered_pages id page preferred start end list) n) list
        + tally (is n) (candidate_positions id page preferred start end list)
      ≤ slots n
candidates-fit id page preferred start end n list bound h k = omega (
  arith,
  candidates-tally (is n) id page preferred start end list,
  own-tally id page start end n list h,
  free-fits n list start end bound k,
  zone-tally id preferred start end n (ordered_pages id page preferred start end list) list
      (ordered_self id page preferred start end list)
      (ordered-IsListed id page preferred start end list),
)
