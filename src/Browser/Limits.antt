-- ===== src/Browser/Limits.antt =====
-- The limits on tabs that new tabs, killed tabs and tabs that go to another URL keep
-- (madt-server/Browser.cpp).
use open_madt.Prelude.{
  Bool, false, ◌&&◌, not, Option, none, some, Bytes, ◌≡◌, refl, arith, Bool-cases, Option-cases,
  inl, inr, leb,
}
use open_madt.Prelude.Int.{ℤ, negsuc, eq_ℤ}
use open_madt.Prelude.Map.{lookup, insert, erase, bytes_key}
use open_madt.Json.Access.{Outcome}
use open_madt.Gui.{ResultCode}
use open_madt.Browser.{
  BrowserPage, Pages, Browser, max_tabs, pos_extra, is_extra_page, has_extra_page,
  normal_page_count,
}
use open_madt.Browser.Allocation.{allocate_logical_position, allocate_zone_position, is_zone}
use open_madt.Browser.Handlers.{
  settle, add_page, on_new_web_tab, resettle, answer_with, on_navigate_to, on_kill_tab,
}
use open_madt.Browser.Tally.{tally, value, tally-insert_le, tally-insert_same, tally-erase_le}
use open_madt.Browser.Capacity.{
  normal-IsBlind, extra-IsBlind, is_normal_page, IsWithin, SameCounts, SameIn, normal-tally,
  extra-tally, allocate_logical_position-SameIn, allocate_zone_position-SameIn,
}

abbrev pub IsLimited : {J : Type 0} → Outcome (ResultCode × Browser J) → Type 0
IsLimited (Outcome.ok (code, b)) = IsWithin b.list
IsLimited Outcome.throws = Unit
IsLimited Outcome.undefined = Unit

erase-IsWithin : (id : Bytes) (list : Pages) → IsWithin list → IsWithin (erase id list)
erase-IsWithin id list k = record {
  normal = omega (
    arith,
    k.normal,
    normal-tally list,
    normal-tally (erase id list),
    tally-erase_le is_normal_page id list,
  );
  extra = omega (arith, k.extra, tally-erase_le is_extra_page id list);
}

same-IsWithin :
    (list after : Pages)
    → tally (value is_normal_page) after ≡ tally (value is_normal_page) list
    → tally (value is_extra_page) after ≡ tally (value is_extra_page) list
    → IsWithin list
    → IsWithin after
same-IsWithin list after normal extra k = record {
  normal = omega (arith, k.normal, normal, normal-tally list, normal-tally after);
  extra = omega (arith, k.extra, extra);
}

counts-IsWithin : (list after : Pages) → SameCounts list after → IsWithin list → IsWithin after
counts-IsWithin list after h =
    same-IsWithin list after (h (value is_normal_page) normal-IsBlind)
      (h (value is_extra_page) extra-IsBlind)

new-IsWithin :
    (id : Bytes) (page : BrowserPage) (list : Pages)
    → (not (is_extra_page page) && leb max_tabs (normal_page_count list)) ≡ false
    → (is_extra_page page && has_extra_page list) ≡ false
    → IsWithin list
    → IsWithin (insert id page list)
new-IsWithin id page list room free k = record {
  normal = ground (
    arith,
    k.normal,
    normal-tally list,
    normal-tally (insert id page list),
    tally-insert_le is_normal_page id page list,
  );
  extra = ground (arith, k.extra, extra-tally list, tally-insert_le is_extra_page id page list);
}

renewed-IsWithin :
    (id url : Bytes) (old : BrowserPage) (list : Pages)
    → lookup id list ≡ some old
    → IsWithin list
    → IsWithin (insert id (record old { url = url }) list)
unfolding is_extra_page
renewed-IsWithin id url old list h k =
    same-IsWithin list (insert id (record old { url = url }) list)
      (tally-insert_same is_normal_page id (record old { url = url }) old list h refl)
      (tally-insert_same is_extra_page id (record old { url = url }) old list h refl) k

module _ {J : Type 0} where
  settle-IsWithin :
      (id : Bytes) (list : Pages) (b : Browser J) (r : Outcome (Option Pages))
      → IsWithin list
      → SameIn list r
      → IsLimited (settle id list b r)
  unfolding settle
  settle-IsWithin id list b (Outcome.ok none) k h = erase-IsWithin id list k
  settle-IsWithin id list b (Outcome.ok (some placed)) k h = counts-IsWithin list placed h k
  settle-IsWithin id list b Outcome.throws k h = tt
  settle-IsWithin id list b Outcome.undefined k h = tt

  -- Whatever tab is asked for, at most 20 tabs stand outside the extra zone and at most one in it, if
  -- that was so before; where `allocateZonePosition` reads outside its vectors there is nothing to say.
  pub on_new_web_tab-IsLimited :
      (url icon_url uuid : Bytes) (preferred_pos flags : ℤ) (b : Browser J)
      → IsWithin b.list
      → IsLimited (on_new_web_tab url icon_url preferred_pos flags uuid b)
  unfolding on_new_web_tab add_page is_extra_page
  on_new_web_tab-IsLimited url icon_url uuid preferred_pos flags b k =
      let page : BrowserPage = record {
        url = url;
        icon_url = icon_url;
        uuid = uuid;
        logical_pos = negsuc 0;
        preferred_pos = preferred_pos;
        flags = flags;
      } in
      let list = insert uuid page b.list in
      elim (Bool-cases
        (not (eq_ℤ preferred_pos pos_extra) && leb max_tabs (normal_page_count b.list))) [
          | inl e ↦ rw (e, on_new_web_tab) k
          | inr e ↦ elim (Bool-cases (eq_ℤ preferred_pos pos_extra && has_extra_page b.list)) [
            | inl q ↦ rw (e, q, on_new_web_tab) k
            | inr q ↦
                rw (e, q, on_new_web_tab)
                  (settle-IsWithin uuid list b (allocate_logical_position uuid page list)
                    (new-IsWithin uuid page b.list e q k)
                    (allocate_logical_position-SameIn uuid page list))
          ]
        ]

  -- Killing a tab keeps the limits.
  pub on_kill_tab-IsWithin :
      (uuid : Bytes) (force_destroy : Bool) (b : Browser J)
      → IsWithin b.list
      → IsWithin (on_kill_tab uuid force_destroy b).1.list
  unfolding on_kill_tab
  on_kill_tab-IsWithin uuid force_destroy b k = elim (Option-cases (lookup uuid b.list)) [
    | inl e ↦ rw (e, on_kill_tab) k
    | inr (page, e) ↦ elim (Bool-cases (is_extra_page page && not force_destroy)) [
      | inl q ↦ rw (e, q, on_kill_tab) k
      | inr q ↦ rw (e, q, on_kill_tab) (erase-IsWithin uuid b.list k)
    ]
  ]

  resettle-IsWithin :
      (code : ResultCode) (b : Browser J) (list : Pages) (r : Outcome (Option Pages))
      → IsWithin list
      → SameIn list r
      → IsLimited (answer_with code b (resettle list r))
  unfolding resettle
  resettle-IsWithin code b list (Outcome.ok none) k h = k
  resettle-IsWithin code b list (Outcome.ok (some placed)) k h = counts-IsWithin list placed h k
  resettle-IsWithin code b list Outcome.throws k h = tt
  resettle-IsWithin code b list Outcome.undefined k h = tt

  -- A tab that goes to another URL keeps the limits, also where its zone is ordered anew.
  pub on_navigate_to-IsLimited :
      (uuid url : Bytes) (b : Browser J) → IsWithin b.list → IsLimited (on_navigate_to uuid url b)
  unfolding on_navigate_to
  on_navigate_to-IsLimited uuid url b k = elim (Option-cases (lookup uuid b.list)) [
    | inl e ↦ rw (e, on_navigate_to) k
    | inr (old, e) ↦
        let page : BrowserPage = record old { url = url } in
        let list = insert uuid page b.list in
        elim (Bool-cases (is_zone old.preferred_pos)) [
          | inl q ↦
              rw (e, q, on_navigate_to)
                (resettle-IsWithin ResultCode.ok b list
                  (allocate_zone_position uuid page page.preferred_pos list)
                  (renewed-IsWithin uuid url old b.list e k)
                  (allocate_zone_position-SameIn uuid page page.preferred_pos list))
          | inr q ↦ rw (e, q, on_navigate_to) (renewed-IsWithin uuid url old b.list e k)
        ]
  ]
