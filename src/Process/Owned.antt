-- ===== src/Process/Owned.antt =====
-- Who owns the events of process/process.cpp.
use open_madt.Prelude.{
  ℕ, suc, ◌+◌, Bool, true, false, some, List, [], ◌∷◌, ◌++◌, ◌==◌, ltb, ◌≡◌, subst, arith,
  if◌then◌else◌,
}
use mathlib.Core.Option.{some-injective}
use open_madt.Process.{
  Context, Answer, new_context, is_in, remove, register_event, timer_single_create, timer_callback,
  delete_registered_event, setup, end,
}

-- How often an event is in a list.
unfoldable pub occurrences : ℕ → List ℕ → ℕ
occurrences e [] = 0
occurrences e (x ∷ xs) = let rest = occurrences e xs in if x == e then suc rest else rest

occurrences-append :
    (e : ℕ) (xs ys : List ℕ) → occurrences e (xs ++ ys) ≡ occurrences e xs + occurrences e ys
unfolding occurrences
occurrences-append e [] ys = omega arith
occurrences-append e (x ∷ xs) ys = ground (arith, occurrences-append e xs ys)

occurrences-remove :
    (e x : ℕ) (xs : List ℕ)
    → is_in x xs ≡ true
    → occurrences e (remove x xs) + (if x == e then 1 else 0) ≡ occurrences e xs
unfolding occurrences remove is_in
occurrences-remove e x [] h = absurd cc
occurrences-remove e x (y ∷ xs) h = ground (arith, occurrences-remove e x xs)

-- Each event that was made is owned by the context, or by itself, or was freed, and once.
abbrev pub IsOwned : Context → Type 0
IsOwned c =
    (e : ℕ)
    → ◌≡◌ {A = ℕ} (occurrences e c.events + occurrences e c.singles + occurrences e c.freed)
        (if ltb e c.made then 1 else 0)

register_event-IsOwned :
    (answer : Answer) (c : Context) → IsOwned c → IsOwned (register_event answer c).1
unfolding register_event occurrences
register_event-IsOwned answer c k e =
    ground (arith, k e, occurrences-append e c.events (c.made ∷ []))

timer_single_create-IsOwned :
    (answer : Answer) (c : Context) → IsOwned c → IsOwned (timer_single_create answer c).1
unfolding timer_single_create occurrences
timer_single_create-IsOwned answer c k e = ground (arith, k e)

timer_callback-IsOwned : (x : ℕ) (c : Context) → IsOwned c → IsOwned (timer_callback x c)
unfolding timer_callback occurrences
timer_callback-IsOwned x c k e = ground (arith, k e, occurrences-remove e x c.singles)

delete-IsOwned : (x : ℕ) (c : Context) → IsOwned c → IsOwned (delete_registered_event x c)
unfolding delete_registered_event occurrences
delete-IsOwned x c k e = ground (arith, k e, occurrences-remove e x c.events)

end-IsOwned : (c : Context) → IsOwned c → IsOwned (end c)
unfolding end occurrences
end-IsOwned c k e = omega (arith, k e, occurrences-append e c.events c.freed)

-- The operations, in any order.
pub data Uses : Context → Type 0 where
  begins : Uses new_context
  sets_up :
      (c d : Context) (base catch_signal : Bool) (quit term hup : Answer)
      → setup base catch_signal quit term hup c ≡ some d
      → Uses c
      → Uses d
  registers : (answer : Answer) (c : Context) → Uses c → Uses (register_event answer c).1
  creates_single : (answer : Answer) (c : Context) → Uses c → Uses (timer_single_create answer c).1
  goes_off : (x : ℕ) (c : Context) → Uses c → Uses (timer_callback x c)
  deletes : (x : ℕ) (c : Context) → Uses c → Uses (delete_registered_event x c)
  ends : (c : Context) → Uses c → Uses (end c)

setup-IsOwned :
    (base catch_signal : Bool) (quit term hup : Answer) (c d : Context)
    → setup base catch_signal quit term hup c ≡ some d
    → IsOwned c
    → IsOwned d
unfolding setup
setup-IsOwned true true quit term hup c d h k =
    let first = register_event-IsOwned quit (record c { base = true }) k in
    let second =
      register_event-IsOwned term (register_event quit (record c { base = true })).1 first in
    subst IsOwned (some-injective _ _ h) (
      register_event-IsOwned hup
        (register_event term (register_event quit (record c { base = true })).1).1 second)
setup-IsOwned true false quit term hup c d h k = subst IsOwned (some-injective _ _ h) k
setup-IsOwned false catch_signal quit term hup c d h k = absurd cc

-- After any operations of the process on its events: each event that was made is, exactly once, owned by
-- the context, or a one-shot timer that has not gone off, or freed, and no other event is.
pub Uses-IsOwned : (c : Context) → Uses c → IsOwned c
unfolding occurrences
Uses-IsOwned c begins = λ e. ground arith
Uses-IsOwned c (sets_up b d base catch_signal quit term hup h u) =
    setup-IsOwned base catch_signal quit term hup b d h (Uses-IsOwned b u)
Uses-IsOwned c (registers answer b u) = register_event-IsOwned answer b (Uses-IsOwned b u)
Uses-IsOwned c (creates_single answer b u) = timer_single_create-IsOwned answer b (Uses-IsOwned b u)
Uses-IsOwned c (goes_off x b u) = timer_callback-IsOwned x b (Uses-IsOwned b u)
Uses-IsOwned c (deletes x b u) = delete-IsOwned x b (Uses-IsOwned b u)
Uses-IsOwned c (ends b u) = end-IsOwned b (Uses-IsOwned b u)
