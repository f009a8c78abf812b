-- ===== src/Browser/Shelf.antt =====
-- The shortcuts of the browser (madt-server/Browser.cpp): their number and their positions.
use open_madt.Prelude.{
  ℕ, zero, suc, ◌+◌, ◌≤◌, Bool, true, false, not, Option, none, some, List, [], ◌∷◌, Bytes, ◌≡◌, ap,
  refl, arith, equal_refl, has, length, Bool-cases, inl, inr, if-cases, ltb,
}
use open_madt.Prelude.Int.{ℤ, pos, negsuc}
use open_madt.Prelude.Map.{lookup, insert, erase, bytes_key, lookup-insert}
use open_madt.Gui.{ResultCode}
use open_madt.Browser.{ShortcutEntry, Shortcuts, Browser, stands_at}
use open_madt.Browser.Allocation.{
  shortcut_occupied, free_shortcut_positions, holds_number, first_number,
  allocate_shortcut_position,
}
use open_madt.Browser.Handlers.{
  max_shortcut_count, add_shortcut, shelve, on_new_shortcut, on_kill_shortcut,
}
use open_madt.Browser.Tally.{one, tally, value, tally-insert_le, tally-insert_same, tally-erase_le}

abbrev pub shown : ℕ → ShortcutEntry → Bool
shown n entry = stands_at n entry.shortcut_pos

-- At most `max` shortcuts; each position below `max` holds at most one of them, and none stands
-- behind.
pub record IsShelved (max : ℕ) (shortcuts : Shortcuts) : Type 0 where
  pub few : length shortcuts ≤ max
  pub apart : (n : ℕ) → tally (value (shown n)) shortcuts ≤ one (ltb n max)

abbrev counted : ShortcutEntry → Bool
counted entry = true

length-tally : (shortcuts : Shortcuts) → tally (value counted) shortcuts ≡ length shortcuts
unfolding tally
length-tally [] = refl
length-tally (e ∷ shortcuts) = omega (arith, length-tally shortcuts)

length-erase_le :
    (id : Bytes) (shortcuts : Shortcuts) → length (erase id shortcuts) ≤ length shortcuts
unfolding erase
length-erase_le id [] = omega arith
length-erase_le id ((j, entry) ∷ shortcuts) = ground (arith, length-erase_le id shortcuts)

occupied-shown :
    (n : ℕ) (shortcuts : Shortcuts)
    → shortcut_occupied shortcuts n ≡ false
    → tally (value (shown n)) shortcuts ≡ 0
unfolding shortcut_occupied tally
occupied-shown n [] h = refl
occupied-shown n ((id, entry) ∷ shortcuts) h = ground (arith, occupied-shown n shortcuts)

free_occupied :
    (n : ℕ) (shortcuts : Shortcuts) (start count : ℕ)
    → holds_number n (free_shortcut_positions shortcuts start count) ≡ true
    → (n + 1 ≤ start + count) × (shortcut_occupied shortcuts n ≡ false)
unfolding free_shortcut_positions holds_number
free_occupied n shortcuts start zero h = absurd (ground arith)
free_occupied n shortcuts start (suc count) h =
    ground (arith, free_occupied n shortcuts (suc start) count, ap (shortcut_occupied shortcuts))

first-holds : (n : ℕ) (ns : List ℕ) → first_number ns ≡ some n → holds_number n ns ≡ true
unfolding first_number holds_number
first-holds n [] h = absurd (ground arith)
first-holds n (m ∷ ns) h = ground arith

-- The position of a new shortcut is free.
allocated-holds :
    (max n : ℕ) (preferred : ℤ) (shortcuts : Shortcuts)
    → allocate_shortcut_position max preferred shortcuts ≡ some n
    → holds_number n (free_shortcut_positions shortcuts 0 max) ≡ true
unfolding allocate_shortcut_position
allocated-holds max n (negsuc k) shortcuts h = first-holds n _ h
allocated-holds max n (pos k) shortcuts h =
    ground (arith, first-holds n (free_shortcut_positions shortcuts 0 max))

inserted :
    (id : Bytes) (entry : ShortcutEntry) (m : Shortcuts)
    → lookup id (insert id entry m) ≡ some entry
inserted id entry m = ground (arith, lookup-insert id id entry m, equal_refl id)

-- A new entry has no position.
new-IsShelved :
    (max : ℕ) (entry : ShortcutEntry) (shortcuts : Shortcuts)
    → entry.shortcut_pos ≡ negsuc 0
    → suc (length shortcuts) ≤ max
    → IsShelved max shortcuts
    → IsShelved max (insert entry.shortcut_id entry shortcuts)
unfolding stands_at
new-IsShelved max entry shortcuts e room k = record {
  few = omega (
    arith,
    room,
    length-tally shortcuts,
    length-tally (insert entry.shortcut_id entry shortcuts),
    tally-insert_le counted entry.shortcut_id entry shortcuts,
  );
  apart = λ n.
      ground (arith, k.apart n, e, tally-insert_le (shown n) entry.shortcut_id entry shortcuts);
}

erase-IsShelved :
    (max : ℕ) (id : Bytes) (shortcuts : Shortcuts)
    → IsShelved max shortcuts
    → IsShelved max (erase id shortcuts)
erase-IsShelved max id shortcuts k = record {
  few = omega (arith, k.few, length-erase_le id shortcuts);
  apart = λ n. omega (arith, k.apart n, tally-erase_le (shown n) id shortcuts);
}

-- The entry gets a position that is free.
put-IsShelved :
    (max n : ℕ) (entry : ShortcutEntry) (shortcuts : Shortcuts)
    → lookup entry.shortcut_id shortcuts ≡ some entry
    → holds_number n (free_shortcut_positions shortcuts 0 max) ≡ true
    → IsShelved max shortcuts
    → IsShelved max (insert entry.shortcut_id (record entry { shortcut_pos = pos n }) shortcuts)
unfolding stands_at
put-IsShelved max n entry shortcuts h free k =
    let after : ShortcutEntry = record entry { shortcut_pos = pos n } in
    let room = free_occupied n shortcuts 0 max free in
    record {
      few = omega (
        arith,
        k.few,
        length-tally shortcuts,
        length-tally (insert entry.shortcut_id after shortcuts),
        tally-insert_same counted entry.shortcut_id after entry shortcuts h refl,
      );
      apart = λ m. ground (
        arith,
        k.apart m,
        room.0,
        occupied-shown n shortcuts room.1,
        tally-insert_le (shown m) entry.shortcut_id after shortcuts,
      );
    }

module _ {J : Type 0} where
  added-IsShelved :
      (max : ℕ) (entry : ShortcutEntry) (shortcuts : Shortcuts) (b : Browser J) (r : Option ℕ)
      → lookup entry.shortcut_id shortcuts ≡ some entry
      → IsShelved max shortcuts
      → ((n : ℕ) → r ≡ some n → holds_number n (free_shortcut_positions shortcuts 0 max) ≡ true)
      → IsShelved max (add_shortcut entry shortcuts b r).1.shortcuts
  unfolding add_shortcut
  added-IsShelved max entry shortcuts b none h k free =
      erase-IsShelved max entry.shortcut_id shortcuts k
  added-IsShelved max entry shortcuts b (some n) h k free =
      put-IsShelved max n entry shortcuts h (free n refl) k

  shelve-IsShelved :
      (entry : ShortcutEntry) (b : Browser J)
      → entry.shortcut_pos ≡ negsuc 0
      → suc (length b.shortcuts) ≤ max_shortcut_count b
      → IsShelved (max_shortcut_count b) b.shortcuts
      → IsShelved (max_shortcut_count b) (shelve entry b).1.shortcuts
  unfolding shelve
  shelve-IsShelved entry b e room k =
      let max = max_shortcut_count b in
      let shortcuts = insert entry.shortcut_id entry b.shortcuts in
      added-IsShelved max entry shortcuts b
        (allocate_shortcut_position max entry.preferred_pos shortcuts)
        (inserted entry.shortcut_id entry b.shortcuts)
        (new-IsShelved max entry b.shortcuts e room k)
        (λ n. allocated-holds max n entry.preferred_pos shortcuts)

  -- A new shortcut: whatever it asks for, there are not more shortcuts than the configuration allows,
  -- and no two of them stand at the same position.
  pub on_new_shortcut-IsShelved :
      (url icon_url shortcut_id : Bytes) (preferred_pos flags : ℤ) (b : Browser J)
      → IsShelved (max_shortcut_count b) b.shortcuts
      → IsShelved
          (max_shortcut_count b)
          (on_new_shortcut url icon_url preferred_pos flags shortcut_id b).1.shortcuts
  unfolding on_new_shortcut
  on_new_shortcut-IsShelved url icon_url shortcut_id preferred_pos flags b k =
      let entry : ShortcutEntry = record {
        shortcut_id = shortcut_id;
        icon_url = icon_url;
        url = url;
        shortcut_pos = negsuc 0;
        preferred_pos = preferred_pos;
        flags = flags;
      } in
      let Kept : ResultCode × Browser J → Type 0 =
        λ r. IsShelved (max_shortcut_count b) r.1.shortcuts in
      if-cases Kept (not b.runtime_config.shortcuts_enabled) _ _ (λ e. k)
        (λ e.
          if-cases Kept (ltb (length b.shortcuts) (max_shortcut_count b)) _ _
            (λ room. shelve-IsShelved entry b refl (ground arith) k) (λ full. k))

  -- Killing one keeps that.
  pub on_kill_shortcut-IsShelved :
      (shortcut_id : Bytes) (b : Browser J)
      → IsShelved (max_shortcut_count b) b.shortcuts
      → IsShelved (max_shortcut_count b) (on_kill_shortcut shortcut_id b).1.shortcuts
  unfolding on_kill_shortcut
  on_kill_shortcut-IsShelved shortcut_id b k =
      elim (Bool-cases (has (lookup shortcut_id b.shortcuts))) [
        | inl e ↦
            rw (e, on_kill_shortcut)
              (erase-IsShelved (max_shortcut_count b) shortcut_id b.shortcuts k)
        | inr e ↦ rw (e, on_kill_shortcut) k
      ]
