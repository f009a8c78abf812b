-- ===== src/Lifecycle/Order.antt =====
-- What holds in all interleavings of the two threads of madt-server/main.cpp.
use open_madt.Prelude.{◌≢◌, Bool, true, false, some, ◌≡◌, refl, arith, if-cases}
use open_madt.Lifecycle.{
  GuiPhase, Lifecycle, created, has_application, has_code, has_state, has_window, executing, left,
  cancelled_state, returned, stopped_process, joined, new_lifecycle, set_startup_state, statements,
  wait_for_startup_ready, show_browser, is_ended, is_zero, gui_step, handle_signal,
}
use open_madt.Lifecycle.Statements.{
  Step, Steps, gui_goes, server_goes, shows, answers_late, requests, signals, here, onward, has_app,
  has_shown, is_awaiting, IsOrderly, answer-IsOrderly, server-IsOrderly, server_step-IsOrderly,
}

-- After the first statement of the first thread.
moved :
    {s : Lifecycle}
    → s.application ≡ has_app s.gui
    → (s.browser ≡ true → has_shown s.gui ≡ true)
    → (s.ready ≡ true → (s.browser ≡ true) × (s.cancelled ≡ false))
    → (s.gui ≡ cancelled_state → s.ready ≡ false)
    → (is_zero s.calls ≡ false → is_awaiting s.todo ≡ true)
    → (s.gui ≢ created)
    → IsOrderly s
moved a b r o c n = record {
  application = a;
  browser = b;
  ready = r;
  off = o;
  calls = c;
  quits = λ h. absurd (n h);
  result = λ h. absurd (n h);
}

gui-IsOrderly :
    (g : GuiPhase) (s : Lifecycle)
    → IsOrderly (record s { gui = g })
    → IsOrderly (gui_step (record s { gui = g }))
unfolding gui_step set_startup_state
gui-IsOrderly created s k =
    moved refl (λ h. ground (arith, k.browser h)) k.ready (λ h. absurd cc) k.calls (λ h. absurd cc)
gui-IsOrderly has_application s k =
    moved k.application (λ h. ground (arith, k.browser h)) k.ready (λ h. absurd cc) k.calls
      (λ h. absurd cc)
gui-IsOrderly has_code s k =
    moved k.application (λ h. ground (arith, k.browser h)) (λ h. absurd cc) (λ h. absurd cc) k.calls
      (λ h. absurd cc)
gui-IsOrderly has_state s k =
    moved k.application (λ h. ground (arith, k.browser h)) k.ready (λ h. absurd cc) k.calls
      (λ h. absurd cc)
gui-IsOrderly has_window s k =
    moved k.application (λ h. refl) k.ready (λ h. absurd cc) k.calls (λ h. absurd cc)
gui-IsOrderly executing s k =
    if-cases IsOrderly (is_zero s.quits) _ _
      (λ e.
        if-cases IsOrderly (is_zero s.calls) _ _ (λ h. k)
          (λ h. answer-IsOrderly (record s { gui = executing }) k))
      (λ e. moved k.application (λ h. refl) k.ready (λ h. absurd cc) k.calls (λ h. absurd cc))
gui-IsOrderly left s k =
    moved k.application (λ h. refl) (λ h. absurd cc) (λ h. refl) k.calls (λ h. absurd cc)
gui-IsOrderly cancelled_state s k =
    moved refl (λ h. absurd cc) (λ h. absurd (ground (arith, k.off refl))) (λ h. absurd cc) k.calls
      (λ h. absurd cc)
gui-IsOrderly returned s k =
    moved k.application (λ h. ground (arith, k.browser h)) k.ready (λ h. absurd cc) k.calls
      (λ h. absurd cc)
gui-IsOrderly stopped_process s k =
    if-cases IsOrderly (is_ended s.server) _ _
      (λ e.
        moved k.application (λ h. ground (arith, k.browser h)) k.ready (λ h. absurd cc) k.calls
          (λ h. absurd cc))
      (λ e. k)
gui-IsOrderly joined s k = k

show_browser-IsOrderly :
    (s : Lifecycle) → s.gui ≡ executing → IsOrderly s → IsOrderly (show_browser s)
unfolding show_browser set_startup_state
show_browser-IsOrderly s e k =
    if-cases IsOrderly s.cancelled _ _ (λ h. k)
      (λ h. record {
        application = k.application;
        browser = λ q. rw e refl;
        ready = λ q. (refl, refl);
        off = λ q. absurd cc;
        quits = k.quits;
        calls = k.calls;
        result = k.result;
      })

handle_signal-IsOrderly :
    (is_quit : Bool) (s : Lifecycle) → IsOrderly s → IsOrderly (handle_signal is_quit s)
unfolding handle_signal
handle_signal-IsOrderly true s k = server-IsOrderly s.server s.todo true s.breaks s k (λ h. h)
handle_signal-IsOrderly false s k =
    server-IsOrderly s.server s.todo s.exit_pending true s k (λ h. h)

Step-IsOrderly : (binds : Bool) (s t : Lifecycle) → Step binds s t → IsOrderly s → IsOrderly t
Step-IsOrderly binds s t (gui_goes b u) k = gui-IsOrderly s.gui s k
Step-IsOrderly binds s t (server_goes b u) k = server_step-IsOrderly binds s.server s k
Step-IsOrderly binds s t (shows b u e h) k = show_browser-IsOrderly s e k
Step-IsOrderly binds s t (answers_late b u e) k = answer-IsOrderly s k
Step-IsOrderly binds s t (requests b u received e empty h) k =
    server-IsOrderly s.server (statements received) s.exit_pending s.breaks s k
      (λ q. let contrary : false ≡ true = (let r = rw empty at q in r) in absurd cc)
Step-IsOrderly binds s t (signals b u q e empty h) k = handle_signal-IsOrderly q s k

pub Steps-IsOrderly : (binds : Bool) (s t : Lifecycle) → Steps binds s t → IsOrderly s → IsOrderly t
Steps-IsOrderly binds s t (here b u) k = k
Steps-IsOrderly binds s t (onward b u v w r h) k =
    Step-IsOrderly b v w h (Steps-IsOrderly b u v r k)

new-IsOrderly : IsOrderly new_lifecycle
new-IsOrderly = record {
  application = refl;
  browser = λ h. absurd cc;
  ready = λ h. absurd cc;
  off = λ h. refl;
  quits = λ h. refl;
  calls = λ h. absurd cc;
  result = λ h. refl;
}

pub begins-IsOrderly : (binds : Bool) (s : Lifecycle) → Steps binds new_lifecycle s → IsOrderly s
begins-IsOrderly binds s r = Steps-IsOrderly binds new_lifecycle s r new-IsOrderly

pub wait-lem :
    (binds : Bool) (s : Lifecycle)
    → Steps binds new_lifecycle s
    → wait_for_startup_ready s ≡ some true
    → (s.browser ≡ true) × (has_shown s.gui ≡ true)
unfolding wait_for_startup_ready
wait-lem binds s r h =
    let k = begins-IsOrderly binds s r in
    let on : s.ready ≡ true = ground arith in ((k.ready on).0, k.browser (k.ready on).0)
