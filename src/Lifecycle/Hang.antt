-- ===== src/Lifecycle/Hang.antt =====
-- A request behind one that ends the process: the loop of `Server::request` in madt-server/madt-server.cpp goes
-- on to it, and its handler waits for an answer of the browser.
use open_madt.Prelude.{
  Bool, true, false, List, [], ◌∷◌, ◌≡◌, ◌≢◌, refl, sym, subst, arith, if-cases,
}
use open_madt.Lifecycle.{
  GuiPhase, ServerPhase, Statement, Lifecycle, created, has_application, has_code, has_state,
  has_window, executing, left, cancelled_state, returned, stopped_process, joined, looping,
  break_loop, set_code, set_cancelled, post_quit, post_call, await_reply, new_lifecycle,
  set_startup_state, is_zero, is_ended, run_statement, gui_step, server_step,
}
use open_madt.Lifecycle.Statements.{
  Step, Steps, gui_goes, server_goes, shows, answers_late, requests, signals, here, onward,
  is_awaiting,
}
use open_madt.Lifecycle.Order.{begins-IsOrderly}

-- `exec` has returned and its calls are over, and the second thread is not joined.
abbrev pub is_gone : GuiPhase → Bool
is_gone g = elim g [ cancelled_state ↦ true | returned ↦ true | stopped_process ↦ true | _ ↦ false ]

record IsHung (s : Lifecycle) : Type 0 where
  server : s.server ≡ looping
  awaiting : is_awaiting s.todo ≡ true
  calls : is_zero s.calls ≡ false
  gone : is_gone s.gui ≡ true

gui_step-IsHung :
    (g : GuiPhase) (s : Lifecycle)
    → IsHung (record s { gui = g })
    → IsHung (gui_step (record s { gui = g }))
unfolding gui_step set_startup_state
gui_step-IsHung created s k = absurd (ground (arith, k.gone))
gui_step-IsHung has_application s k = absurd (ground (arith, k.gone))
gui_step-IsHung has_code s k = absurd (ground (arith, k.gone))
gui_step-IsHung has_state s k = absurd (ground (arith, k.gone))
gui_step-IsHung has_window s k = absurd (ground (arith, k.gone))
gui_step-IsHung executing s k = absurd (ground (arith, k.gone))
gui_step-IsHung left s k = absurd (ground (arith, k.gone))
gui_step-IsHung cancelled_state s k = record {
  server = k.server;
  awaiting = k.awaiting;
  calls = k.calls;
  gone = refl;
}
gui_step-IsHung returned s k = record {
  server = k.server;
  awaiting = k.awaiting;
  calls = k.calls;
  gone = refl;
}
gui_step-IsHung stopped_process s k =
    if-cases IsHung (is_ended s.server) _ _ (λ e. let contrary = rw k.server at e in absurd cc)
      (λ e. k)
gui_step-IsHung joined s k = absurd (ground (arith, k.gone))

run-held :
    (x : Statement) (rest : List Statement) (s : Lifecycle)
    → is_awaiting (x ∷ rest) ≡ true
    → is_zero s.calls ≡ false
    → run_statement x rest s ≡ s
unfolding run_statement
run-held break_loop rest s h c = absurd cc
run-held (set_code code) rest s h c = absurd cc
run-held set_cancelled rest s h c = absurd cc
run-held post_quit rest s h c = absurd cc
run-held post_call rest s h c = absurd cc
run-held await_reply rest s h c = rw c refl

loop-held :
    (binds : Bool) (todo : List Statement) (s : Lifecycle)
    → is_awaiting todo ≡ true
    → is_zero s.calls ≡ false
    → server_step binds (record s { server = looping; todo = todo })
      ≡ record s { server = looping; todo = todo }
unfolding server_step
loop-held binds [] s h c = absurd cc
loop-held binds (x ∷ rest) s h c =
    run-held x rest (record s { server = looping; todo = x ∷ rest }) h c

server_held : (binds : Bool) (s : Lifecycle) → IsHung s → server_step binds s ≡ s
server_held binds s k =
    subst
      (λ (v : ServerPhase). server_step binds (record s { server = v }) ≡ record s { server = v })
      (sym k.server) (loop-held binds s.todo s k.awaiting k.calls)

Step-IsHung : (binds : Bool) (s t : Lifecycle) → Step binds s t → IsHung s → IsHung t
Step-IsHung binds s t (gui_goes b u) k = gui_step-IsHung s.gui s k
Step-IsHung binds s t (server_goes b u) k = rw (server_held b u k) k
Step-IsHung binds s t (shows b u g e) k = let h = rw g at k.gone in absurd cc
Step-IsHung binds s t (answers_late b u g) k = let h = rw g at k.gone in absurd cc
Step-IsHung binds s t (requests b u received v o h) k = let a = rw o at k.awaiting in absurd cc
Step-IsHung binds s t (signals b u q v o h) k = let a = rw o at k.awaiting in absurd cc

Steps-IsHung : (binds : Bool) (s t : Lifecycle) → Steps binds s t → IsHung s → IsHung t
Steps-IsHung binds s t (here b u) k = k
Steps-IsHung binds s t (onward b u v w r h) k = Step-IsHung b v w h (Steps-IsHung b u v r k)

-- If a call of the browser is unanswered when `exec` of the window and its calls are over, and the loop of
-- the second thread runs, then however the threads go on, that thread waits for the answer: it does not
-- leave the loop, and the first never gets it joined.
pub never_joined :
    (binds : Bool) (s t : Lifecycle)
    → Steps binds new_lifecycle s
    → s.server ≡ looping
    → is_gone s.gui ≡ true
    → is_zero s.calls ≡ false
    → Steps binds s t
    → (t.server ≡ looping) × (t.gui ≢ joined)
never_joined binds s t r v g c onwards =
    let k = begins-IsOrderly binds s r in
    let k' =
      Steps-IsHung binds s t onwards
        (record { server = v; awaiting = k.calls c; calls = c; gone = g }) in
    (k'.server, λ e. let h = rw e at k'.gone in absurd cc)
