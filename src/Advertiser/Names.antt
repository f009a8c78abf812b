-- ===== src/Advertiser/Names.antt =====
-- The names that the advertiser takes after collisions (madt-server/AvahiService.cpp).
use open_madt.Prelude.{
  ℕ, zero, suc, ◌+◌, Bool, true, ◌++◌, codes, ◌≡◌, ◌≢◌, refl, sym, ap, arith, ◌∙◌, length,
  length-append, drop, drop-length-append,
}
use open_madt.Prelude.Decimal.{to_string, to_string-injective}
use open_madt.Advertiser.Frame.{update-SameService, reset_group-SameService}
use open_madt.Advertiser.{
  Call, Calls, AvahiService, next_name, reset_group, handle_group_state, collision,
}

module _ (answer : Calls → Call → Bool) where
  collision-names :
      (s : AvahiService)
      → let s' = handle_group_state answer collision s in
        (s'.base_name ≡ s.base_name)
        × (s'.rename_count ≡ s.rename_count + 1)
        × (s'.current_name ≡ s.base_name ++ codes "-" ++ to_string (s.rename_count + 1))
  unfolding handle_group_state next_name
  collision-names s =
      let reset = reset_group true (next_name s) in
      let frame = update-SameService answer reset in
      let before = reset_group-SameService true (next_name s) in
      (frame.base ∙ before.base, frame.count ∙ before.count, frame.current ∙ before.current)

  -- The service after a number of collisions.
  abbrev pub after_collisions : ℕ → AvahiService → AvahiService
  after_collisions zero s = s
  after_collisions (suc n) s = handle_group_state answer collision (after_collisions n s)

  after-names :
      (n : ℕ) (s : AvahiService)
      → ((after_collisions n s).base_name ≡ s.base_name)
        × ((after_collisions n s).rename_count ≡ s.rename_count + n)
  after-names zero s = (refl, omega arith)
  after-names (suc n) s =
      let (base, count) = after-names n s in
      let (base', count', name) = collision-names (after_collisions n s) in
      (base' ∙ base, omega (arith, count, count'))

  renamed :
      (n : ℕ) (s : AvahiService)
      → (after_collisions (suc n) s).current_name
        ≡ s.base_name ++ codes "-" ++ to_string (s.rename_count + n + 1)
  renamed n s =
      let (base, count) = after-names n s in
      let (base', count', name) = collision-names (after_collisions n s) in
      name ∙ rw (base, count) refl

  counted-ne :
      (m n : ℕ) (s : AvahiService)
      → m ≢ n
      → (after_collisions (suc m) s).current_name ≢ (after_collisions (suc n) s).current_name
  counted-ne m n s other same =
      let text = sym (renamed m s) ∙ same ∙ renamed n s in
      let front = s.base_name ++ codes "-" in
      let numbers =
        sym (drop-length-append front (to_string (s.rename_count + m + 1)))
        ∙ ap (drop (length front)) text
        ∙ drop-length-append front (to_string (s.rename_count + n + 1)) in
      let equal_numbers =
        to_string-injective (s.rename_count + m + 1) (s.rename_count + n + 1) numbers in
      other (omega arith)

  -- The name after a collision is longer than the base name.
  base-ne : (n : ℕ) (s : AvahiService) → s.base_name ≢ (after_collisions (suc n) s).current_name
  base-ne n s same =
      let number = to_string (s.rename_count + n + 1) in
      let lengths = ap length (same ∙ renamed n s) in
      omega (
        arith,
        lengths,
        length-append (s.base_name ++ codes "-") number,
        length-append s.base_name (codes "-"),
      )

  -- If the advertiser has its base name, it has another name after
  -- each of two different numbers of collisions, none included: no name that was refused, the base
  -- name among them, is tried again.
  pub after_collisions-current_name_ne :
      (m n : ℕ) (s : AvahiService)
      → s.current_name ≡ s.base_name
      → m ≢ n
      → (after_collisions m s).current_name ≢ (after_collisions n s).current_name
  after_collisions-current_name_ne zero zero s first other same = other refl
  after_collisions-current_name_ne zero (suc n) s first other same = base-ne n s (sym first ∙ same)
  after_collisions-current_name_ne (suc m) zero s first other same =
      base-ne m s (sym first ∙ sym same)
  after_collisions-current_name_ne (suc m) (suc n) s first other same =
      counted-ne m n s (λ e. other (ap suc e)) same
