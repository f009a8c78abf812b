-- ===== src/Lifecycle/Stranded.antt =====
-- A server that cannot listen before the window is there (madt-server/main.cpp, `stop` and `run` of
-- madt-server/gui.cpp).
use open_madt.Prelude.{Bool, true, false, none, ◌≡◌, refl, arith, if-cases}
use open_madt.Lifecycle.{
  GuiPhase, Lifecycle, created, has_application, has_code, has_state, has_window, executing, ended,
  left, cancelled_state, returned, stopped_process, joined, new_lifecycle, set_startup_state,
  is_zero, answer, gui_step, show_browser,
}
use open_madt.Lifecycle.Statements.{
  Step, Steps, gui_goes, server_goes, shows, answers_late, requests, signals, here, onward,
  server_over,
}
use open_madt.Lifecycle.Order.{begins-IsOrderly}

abbrev is_ahead : GuiPhase → Bool
is_ahead g = elim g [
  | left ↦ false
  | cancelled_state ↦ false
  | returned ↦ false
  | stopped_process ↦ false
  | joined ↦ false
  | _ ↦ true
]

record IsStranded (s : Lifecycle) : Type 0 where
  over : s.server ≡ ended
  ahead : is_ahead s.gui ≡ true
  quiet : s.quits ≡ 0
  result : s.result ≡ none

answer-IsStranded : (s : Lifecycle) → IsStranded s → IsStranded (answer s)
answer-IsStranded s k = record {
  over = k.over;
  ahead = k.ahead;
  quiet = k.quiet;
  result = k.result;
}

gui_step-IsStranded :
    (g : GuiPhase) (s : Lifecycle)
    → IsStranded (record s { gui = g })
    → IsStranded (gui_step (record s { gui = g }))
unfolding gui_step set_startup_state
gui_step-IsStranded created s k = record {
  over = k.over;
  ahead = refl;
  quiet = k.quiet;
  result = k.result;
}
gui_step-IsStranded has_application s k = record {
  over = k.over;
  ahead = refl;
  quiet = k.quiet;
  result = k.result;
}
gui_step-IsStranded has_code s k = record {
  over = k.over;
  ahead = refl;
  quiet = k.quiet;
  result = k.result;
}
gui_step-IsStranded has_state s k = record {
  over = k.over;
  ahead = refl;
  quiet = refl;
  result = k.result;
}
gui_step-IsStranded has_window s k = record {
  over = k.over;
  ahead = refl;
  quiet = k.quiet;
  result = k.result;
}
gui_step-IsStranded executing s k =
    if-cases IsStranded (is_zero s.quits) _ _
      (λ e.
        if-cases IsStranded (is_zero s.calls) _ _ (λ h. k)
          (λ h. answer-IsStranded (record s { gui = executing }) k))
      (λ e. let contrary = rw k.quiet at e in absurd cc)
gui_step-IsStranded left s k = absurd (ground (arith, k.ahead))
gui_step-IsStranded cancelled_state s k = absurd (ground (arith, k.ahead))
gui_step-IsStranded returned s k = absurd (ground (arith, k.ahead))
gui_step-IsStranded stopped_process s k = absurd (ground (arith, k.ahead))
gui_step-IsStranded joined s k = absurd (ground (arith, k.ahead))

show_browser-IsStranded : (s : Lifecycle) → IsStranded s → IsStranded (show_browser s)
unfolding show_browser set_startup_state
show_browser-IsStranded s k =
    if-cases IsStranded s.cancelled _ _ (λ e. k)
      (λ e. record { over = k.over; ahead = k.ahead; quiet = k.quiet; result = k.result })

Step-IsStranded : (binds : Bool) (s t : Lifecycle) → Step binds s t → IsStranded s → IsStranded t
Step-IsStranded binds s t (gui_goes b u) k = gui_step-IsStranded s.gui s k
Step-IsStranded binds s t (server_goes b u) k = rw (server_over b u k.over) k
Step-IsStranded binds s t (shows b u e h) k = show_browser-IsStranded s k
Step-IsStranded binds s t (answers_late b u e) k = answer-IsStranded s k
Step-IsStranded binds s t (requests b u received e empty h) k = absurd (ground (arith, k.over, e))
Step-IsStranded binds s t (signals b u q e empty h) k = absurd (ground (arith, k.over, e))

Steps-IsStranded : (binds : Bool) (s t : Lifecycle) → Steps binds s t → IsStranded s → IsStranded t
Steps-IsStranded binds s t (here b u) k = k
Steps-IsStranded binds s t (onward b u v w r h) k =
    Step-IsStranded b v w h (Steps-IsStranded b u v r k)

-- If the second thread has ended, as it does where the listener cannot be bound, before `run` has done
-- anything, then however the threads go on, the second has ended and `run` never returns: its `stop` is
-- forgotten.
pub never_returns :
    (binds : Bool) (s t : Lifecycle)
    → Steps binds new_lifecycle s
    → s.server ≡ ended
    → s.gui ≡ created
    → Steps binds s t
    → (t.server ≡ ended) × (t.result ≡ none)
never_returns binds s t r e g onwards =
    let k = begins-IsOrderly binds s r in
    let k' =
      Steps-IsStranded binds s t onwards
        (record { over = e; ahead = rw g refl; quiet = k.quits g; result = k.result g }) in
    (k'.over, k'.result)
