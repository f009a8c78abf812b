-- ===== src/Browser/Window/Overlay.antt =====
-- When the overlay of the extra zone may be visible (madt-server/Browser.cpp).
use open_madt.Prelude.{
  ◌≤◌, [], ◌∷◌, Bool, true, false, some, Bytes, ◌≡◌, arith, Bool-cases, inl, inr,
}
use open_madt.Prelude.Map.{lookup, erase, bytes_key}
use open_madt.Prelude.Entries.{IsDistinct}
use open_madt.Browser.{BrowserPage, Pages, is_extra_page, has_extra_page}
use open_madt.Browser.Tally.{tally, value}
use open_madt.Browser.Capacity.{extra-tally}
use open_madt.Browser.Bar.Order.{tally-erase}
use open_madt.Browser.Window.{update_extra_zone_visibility, show_extra_zone_overlay}

pub update-has_extra :
    (list : Pages) (visible : Bool)
    → update_extra_zone_visibility list visible ≡ true
    → has_extra_page list ≡ true
unfolding update_extra_zone_visibility
update-has_extra list visible h = ground arith

pub show-has_extra :
    (list : Pages) (visible : Bool)
    → (visible ≡ true → has_extra_page list ≡ true)
    → show_extra_zone_overlay list visible ≡ true
    → has_extra_page list ≡ true
unfolding show_extra_zone_overlay
show-has_extra list visible before h = elim (Bool-cases (has_extra_page list)) [
  | inl e ↦ e
  | inr e ↦ before (rw (e, show_extra_zone_overlay) at h)
]

tally-has_extra : (list : Pages) → has_extra_page list ≡ true → 1 ≤ tally (value is_extra_page) list
unfolding has_extra_page tally
tally-has_extra [] h = absurd cc
tally-has_extra ((id, page) ∷ list) h = ground (arith, tally-has_extra list)

-- There is no fewer pages for the extra zone than before.
pub has_extra-kept :
    (list after : Pages)
    → tally (value is_extra_page) list ≤ tally (value is_extra_page) after
    → has_extra_page list ≡ true
    → has_extra_page after ≡ true
has_extra-kept list after h before = elim (Bool-cases (has_extra_page after)) [
  | inl e ↦ e
  | inr e ↦ absurd (omega (arith, tally-has_extra list before, extra-tally after e))
]

pub normal_gone :
    (id : Bytes) (page : BrowserPage) (list : Pages)
    → IsDistinct list
    → lookup id list ≡ some page
    → is_extra_page page ≡ false
    → tally (value is_extra_page) list ≤ tally (value is_extra_page) (erase id list)
normal_gone id page list d e x = ground (arith, tally-erase (value is_extra_page) id page list d e)
