-- ===== src/Browser/Bar/Ascending.antt =====
-- The display order of the tabs is that of their positions (madt-server/Browser.cpp).
use open_madt.Prelude.{[], ◌∷◌, Bytes, All, arith, Bool-cases, inl, inr}
use open_madt.Prelude.Int.{ℤ, ◌≤ℤ◌}
use open_madt.Browser.{BrowserPage, Pages, sort, insert_sorted}
use open_madt.Browser.Bar.{display_before, pages_in_display_order, normal_pages}

-- Positions that do not fall.
abbrev pub IsAscending : Pages → Type 0
IsAscending [] = Unit
IsAscending ((id, page) ∷ list) =
    All (λ (e : Bytes × BrowserPage). page.logical_pos ≤ℤ e.1.logical_pos) list × IsAscending list

insert_sorted-All :
    (z : ℤ) (e : Bytes × BrowserPage) (es : Pages)
    → z ≤ℤ e.1.logical_pos
    → All (λ (d : Bytes × BrowserPage). z ≤ℤ d.1.logical_pos) es
    → All (λ (d : Bytes × BrowserPage). z ≤ℤ d.1.logical_pos) (insert_sorted display_before e es)
unfolding insert_sorted
insert_sorted-All z e [] h a = (h, tt)
insert_sorted-All z e (d ∷ es) h a = elim (Bool-cases (display_before e d)) [
  | inl b ↦ rw (b, insert_sorted) (h, a)
  | inr b ↦ rw (b, insert_sorted) (a.0, insert_sorted-All z e es h a.1)
]

All-le :
    (y z : ℤ) (es : Pages)
    → y ≤ℤ z
    → All (λ (d : Bytes × BrowserPage). z ≤ℤ d.1.logical_pos) es
    → All (λ (d : Bytes × BrowserPage). y ≤ℤ d.1.logical_pos) es
All-le y z [] h a = tt
All-le y z (d ∷ es) h a = (omega (arith, a.0), All-le y z es h a.1)

insert_sorted-IsAscending :
    (e : Bytes × BrowserPage) (es : Pages)
    → IsAscending es
    → IsAscending (insert_sorted display_before e es)
unfolding insert_sorted
insert_sorted-IsAscending e [] a = (tt, tt)
insert_sorted-IsAscending e (d ∷ es) a = elim (Bool-cases (display_before e d)) [
  | inl b ↦
      let le : e.1.logical_pos ≤ℤ d.1.logical_pos = ground arith in
      rw (b, insert_sorted) ((le, All-le e.1.logical_pos d.1.logical_pos es le a.0), a)
  | inr b ↦
      let le : d.1.logical_pos ≤ℤ e.1.logical_pos = ground arith in
      rw (b, insert_sorted)
        (insert_sorted-All d.1.logical_pos e es le a.0, insert_sorted-IsAscending e es a.1)
]

sort-IsAscending : (es : Pages) → IsAscending (sort display_before es)
unfolding sort
sort-IsAscending [] = tt
sort-IsAscending (e ∷ es) =
    insert_sorted-IsAscending e (sort display_before es) (sort-IsAscending es)

pub display_order-IsAscending : (list : Pages) → IsAscending (pages_in_display_order list)
unfolding pages_in_display_order
display_order-IsAscending list = sort-IsAscending (normal_pages list)
