-- ===== src/Process.antt =====
-- The events that process/process.cpp makes with libevent, owns and frees. An event is a number, in the
-- order in which they were made, so no address is used twice; whether libevent makes and adds one is an
-- input.
pub mod Owned
use open_madt.Prelude.{
  ℕ, suc, Bool, true, false, Option, none, some, List, [], ◌∷◌, ◌++◌, ◌==◌, if◌then◌else◌,
}

-- `events` are those that the context owns, `singles` the one-shot timers, which own themselves until they
-- go off, and `freed` those that were passed to `event_free`.
pub record Context : Type 0 where
  pub base : Bool
  pub events : List ℕ
  pub singles : List ℕ
  pub freed : List ℕ
  pub made : ℕ

abbrev pub new_context : Context
new_context = record { base = false; events = []; singles = []; freed = []; made = 0 }

-- What libevent answers to the making and to the adding of an event.
pub record Answer : Type 0 where
  pub makes : Bool
  pub adds : Bool

unfoldable pub is_in : ℕ → List ℕ → Bool
is_in e [] = false
is_in e (x ∷ xs) = let rest = is_in e xs in if x == e then true else rest

-- Less the first occurrence.
unfoldable pub remove : ℕ → List ℕ → List ℕ
remove e [] = []
remove e (x ∷ xs) = let rest = remove e xs in if x == e then xs else x ∷ rest

-- The event, if it was made and added; one that was not added is freed.
unfoldable pub register_event : Answer → Context → Option ℕ × Context
register_event answer c =
    let e = c.made in
    if answer.makes
    then (if answer.adds
        then (some e, record c { made = suc e; events = c.events ++ e ∷ [] })
        else (none, record c { made = suc e; freed = e ∷ c.freed }))
    else (none, c)

-- `timerSingleCreate`
unfoldable pub timer_single_create : Answer → Context → Option ℕ × Context
timer_single_create answer c =
    let e = c.made in
    if answer.makes
    then (if answer.adds
        then (some e, record c { made = suc e; singles = e ∷ c.singles })
        else (none, record c { made = suc e; freed = e ∷ c.freed }))
    else (none, c)

-- `timerCallBack`, after the callback of the timer.
unfoldable pub timer_callback : ℕ → Context → Context
unfolding is_in remove
timer_callback e c =
    if is_in e c.singles then record c { singles = remove e c.singles; freed = e ∷ c.freed } else c

-- `timerDelete` and `fdDelete`
unfoldable pub delete_registered_event : ℕ → Context → Context
unfolding is_in remove
delete_registered_event e c =
    if is_in e c.events then record c { events = remove e c.events; freed = e ∷ c.freed } else c

-- `setup`, with the answers for the three signals, or `none` where there is no event base and it throws.
unfoldable pub setup : Bool → Bool → Answer → Answer → Answer → Context → Option Context
unfolding register_event
setup base catch_signal quit term hup c =
    let set_up = record c { base = base } in
    if base
    then (if catch_signal
        then some (register_event hup (register_event term (register_event quit set_up).1).1).1
        else some set_up)
    else none

-- `end`
unfoldable pub end : Context → Context
end c = record c { base = false; events = []; freed = c.events ++ c.freed }
