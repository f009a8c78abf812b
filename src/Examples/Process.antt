-- ===== src/Examples/Process.antt =====
-- The events of a process that is set up, makes two timers, of which one goes off, and ends.
use open_madt.Prelude.{true, false, some, [], ◌∷◌, ◌≡◌, refl}
use open_madt.Process.{
  Context, Answer, new_context, register_event, timer_single_create, timer_callback,
  delete_registered_event, end, setup,
}
use open_madt.Process.Owned.{
  Uses, begins, sets_up, registers, creates_single, goes_off, deletes, ends, IsOwned, Uses-IsOwned,
}

abbrev granted : Answer
granted = record { makes = true; adds = true }

abbrev refused : Answer
refused = record { makes = true; adds = false }

abbrev ready : Context
ready = record { base = true; events = 0 ∷ 2 ∷ []; singles = []; freed = 1 ∷ []; made = 3 }

is_ready : setup true true granted refused granted new_context ≡ some ready
unfolding setup register_event
is_ready = refl

abbrev busy : Context
busy = (timer_single_create granted (register_event granted ready).1).1

abbrev over : Context
over = end (delete_registered_event 2 (timer_callback 4 busy))

over-Uses : Uses over
over-Uses = ends _ (
    deletes 2 _ (
      goes_off 4 _ (
        creates_single granted _ (
          registers granted ready
            (sets_up new_context ready true true granted refused granted is_ready begins)))))

Uses-IsOwned_example : IsOwned over
Uses-IsOwned_example = Uses-IsOwned over over-Uses
