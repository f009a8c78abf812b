-- ===== src/Lifecycle/Statements.antt =====
-- The interleavings of the two threads of madt-server/main.cpp, and what the statements of the second keep.
use open_madt.Prelude.{
  ℕ, zero, suc, ◌-◌, Bool, true, false, not, ◌||◌, none, List, [], ◌∷◌, ◌≡◌, refl, sym, subst,
  arith, if-cases,
}
use open_madt.Lifecycle.{
  GuiPhase, ServerPhase, Statement, Request, Lifecycle, created, executing, left, cancelled_state,
  returned, stopped_process, joined, entered, has_base, has_server, looping, loop_ended,
  stopped_gui, ended, break_loop, set_code, set_cancelled, post_quit, post_call, await_reply,
  set_startup_state, stop_statements, statements, show_browser, is_zero, answer, run_statement,
  gui_step, server_step, handle_signal,
}

-- One step of a thread, the timer of `run`, a call that the browser still answers after `quit`, or the
-- start of a callback of the loop with the requests of a buffer or with a signal.
pub data Step : Bool → Lifecycle → Lifecycle → Type 0 where
  gui_goes : (binds : Bool) (s : Lifecycle) → Step binds s (gui_step s)
  server_goes : (binds : Bool) (s : Lifecycle) → Step binds s (server_step binds s)
  shows :
      (binds : Bool) (s : Lifecycle)
      → s.gui ≡ executing
      → s.browser ≡ false
      → Step binds s (show_browser s)
  answers_late : (binds : Bool) (s : Lifecycle) → s.gui ≡ left → Step binds s (answer s)
  requests :
      (binds : Bool) (s : Lifecycle) (received : List Request)
      → s.server ≡ looping
      → s.todo ≡ []
      → s.breaks ≡ false
      → Step binds s (record s { todo = statements received })
  signals :
      (binds : Bool) (s : Lifecycle) (is_quit : Bool)
      → s.server ≡ looping
      → s.todo ≡ []
      → s.breaks ≡ false
      → Step binds s (handle_signal is_quit s)

pub data Steps : Bool → Lifecycle → Lifecycle → Type 0 where
  here : (binds : Bool) (s : Lifecycle) → Steps binds s s
  onward : (binds : Bool) (s t u : Lifecycle) → Steps binds s t → Step binds t u → Steps binds s u

-- Where `appInstance` is set.
abbrev pub has_app : GuiPhase → Bool
has_app g = elim g [
  | created ↦ false
  | returned ↦ false
  | stopped_process ↦ false
  | joined ↦ false
  | _ ↦ true
]

-- Where `exec` runs or has run, and `run` has not returned.
abbrev pub has_shown : GuiPhase → Bool
has_shown g = elim g [ executing ↦ true | left ↦ true | cancelled_state ↦ true | _ ↦ false ]

abbrev pub is_awaiting : List Statement → Bool
is_awaiting [] = false
is_awaiting (x ∷ rest) = elim x [ await_reply ↦ true | _ ↦ false ]

pub record IsOrderly (s : Lifecycle) : Type 0 where
  pub application : s.application ≡ has_app s.gui
  pub browser : s.browser ≡ true → has_shown s.gui ≡ true
  pub ready : s.ready ≡ true → (s.browser ≡ true) × (s.cancelled ≡ false)
  pub off : s.gui ≡ cancelled_state → s.ready ≡ false
  pub quits : s.gui ≡ created → s.quits ≡ 0
  pub calls : is_zero s.calls ≡ false → is_awaiting s.todo ≡ true
  pub result : s.gui ≡ created → s.result ≡ none

answered : (n : ℕ) → is_zero (n - 1) ≡ false → is_zero n ≡ false
answered zero h = h
answered (suc n) h = refl

pub answer-IsOrderly : (s : Lifecycle) → IsOrderly s → IsOrderly (answer s)
answer-IsOrderly s k = record {
  application = k.application;
  browser = k.browser;
  ready = k.ready;
  off = k.off;
  quits = k.quits;
  calls = λ h. k.calls (answered s.calls h);
  result = k.result;
}

-- What the second thread and the flags of its loop are does not matter, as long as no answer is waited
-- for.
pub server-IsOrderly :
    (v : ServerPhase) (todo : List Statement) (pending breaks : Bool) (s : Lifecycle)
    → IsOrderly s
    → (is_awaiting s.todo ≡ true → is_awaiting todo ≡ true)
    → IsOrderly (record s { server = v; todo = todo; exit_pending = pending; breaks = breaks })
server-IsOrderly v todo pending breaks s k h = record {
  application = k.application;
  browser = k.browser;
  ready = k.ready;
  off = k.off;
  quits = k.quits;
  calls = λ e. h (k.calls e);
  result = k.result;
}

run-IsOrderly :
    (x : Statement) (rest : List Statement) (s : Lifecycle)
    → IsOrderly (record s { todo = x ∷ rest })
    → IsOrderly (run_statement x rest (record s { todo = x ∷ rest }))
unfolding run_statement set_startup_state
run-IsOrderly break_loop rest s k =
    server-IsOrderly s.server rest s.exit_pending _ (record s { todo = break_loop ∷ rest }) k
      (λ h. absurd cc)
run-IsOrderly (set_code code) rest s k = record {
  application = k.application;
  browser = k.browser;
  ready = k.ready;
  off = k.off;
  quits = k.quits;
  calls = λ h. absurd (ground (arith, k.calls h));
  result = k.result;
}
run-IsOrderly set_cancelled rest s k = record {
  application = k.application;
  browser = k.browser;
  ready = λ h. absurd cc;
  off = λ h. refl;
  quits = k.quits;
  calls = λ h. absurd (ground (arith, k.calls h));
  result = k.result;
}
run-IsOrderly post_quit rest s k = record {
  application = k.application;
  browser = k.browser;
  ready = k.ready;
  off = k.off;
  quits = λ h.
      if-cases (λ (n : ℕ). n ≡ 0) s.application _ _
        (λ e. absurd (ground (arith, k.application, h, e))) (λ e. k.quits h);
  calls = λ h. absurd (ground (arith, k.calls h));
  result = k.result;
}
run-IsOrderly post_call rest s k =
    if-cases IsOrderly s.browser _ _
      (λ e. record {
        application = k.application;
        browser = k.browser;
        ready = k.ready;
        off = k.off;
        quits = k.quits;
        calls = λ h. refl;
        result = k.result;
      })
      (λ e.
        server-IsOrderly s.server rest s.exit_pending s.breaks
          (record s { todo = post_call ∷ rest }) k (λ h. absurd cc))
run-IsOrderly await_reply rest s k =
    if-cases IsOrderly (is_zero s.calls) _ _
      (λ e. record {
        application = k.application;
        browser = k.browser;
        ready = k.ready;
        off = k.off;
        quits = k.quits;
        calls = λ h. absurd cc;
        result = k.result;
      })
      (λ e. k)

loop-IsOrderly :
    (binds : Bool) (todo : List Statement) (s : Lifecycle)
    → IsOrderly (record s { server = looping; todo = todo })
    → IsOrderly (server_step binds (record s { server = looping; todo = todo }))
unfolding server_step
loop-IsOrderly binds [] s k =
    if-cases IsOrderly (s.exit_pending || s.breaks) _ _
      (λ e.
        server-IsOrderly loop_ended stop_statements s.exit_pending s.breaks
          (record s { server = looping; todo = [] }) k (λ h. absurd cc))
      (λ e. k)
loop-IsOrderly binds (x ∷ rest) s k = run-IsOrderly x rest (record s { server = looping }) k

ending-IsOrderly :
    (binds : Bool) (todo : List Statement) (s : Lifecycle)
    → IsOrderly (record s { server = loop_ended; todo = todo })
    → IsOrderly (server_step binds (record s { server = loop_ended; todo = todo }))
unfolding server_step
ending-IsOrderly binds [] s k =
    server-IsOrderly stopped_gui [] s.exit_pending s.breaks
      (record s { server = loop_ended; todo = [] }) k (λ h. h)
ending-IsOrderly binds (x ∷ rest) s k = run-IsOrderly x rest (record s { server = loop_ended }) k

pub server_step-IsOrderly :
    (binds : Bool) (v : ServerPhase) (s : Lifecycle)
    → IsOrderly (record s { server = v })
    → IsOrderly (server_step binds (record s { server = v }))
unfolding server_step
server_step-IsOrderly binds entered s k =
    server-IsOrderly has_base s.todo s.exit_pending s.breaks (record s { server = entered }) k
      (λ h. h)
server_step-IsOrderly binds has_base s k =
    server-IsOrderly has_server s.todo (not binds) s.breaks (record s { server = has_base }) k
      (λ h. h)
server_step-IsOrderly binds has_server s k =
    server-IsOrderly looping s.todo s.exit_pending false (record s { server = has_server }) k
      (λ h. h)
server_step-IsOrderly binds looping s k = loop-IsOrderly binds s.todo s k
server_step-IsOrderly binds loop_ended s k = ending-IsOrderly binds s.todo s k
server_step-IsOrderly binds stopped_gui s k =
    server-IsOrderly ended s.todo false false (record s { server = stopped_gui }) k (λ h. h)
server_step-IsOrderly binds ended s k = k

pub server_over : (binds : Bool) (s : Lifecycle) → s.server ≡ ended → server_step binds s ≡ s
unfolding server_step
server_over binds s e =
    subst
      (λ (v : ServerPhase). server_step binds (record s { server = v }) ≡ record s { server = v })
      (sym e) refl

abbrev Kept : Lifecycle → Lifecycle → Type 0
Kept s t = (t.gui ≡ s.gui) × (t.browser ≡ s.browser)

run-Kept : (x : Statement) (rest : List Statement) (s : Lifecycle) → Kept s (run_statement x rest s)
unfolding run_statement set_startup_state
run-Kept break_loop rest s = (refl, refl)
run-Kept (set_code code) rest s = (refl, refl)
run-Kept set_cancelled rest s = (refl, refl)
run-Kept post_quit rest s = (refl, refl)
run-Kept post_call rest s = if-cases (Kept s) s.browser _ _ (λ e. (refl, refl)) (λ e. (refl, refl))
run-Kept await_reply rest s =
    if-cases (Kept s) (is_zero s.calls) _ _ (λ e. (refl, refl)) (λ e. (refl, refl))

loop-Kept :
    (binds : Bool) (todo : List Statement) (s : Lifecycle)
    → Kept s (server_step binds (record s { server = looping; todo = todo }))
unfolding server_step
loop-Kept binds [] s =
    if-cases (Kept s) (s.exit_pending || s.breaks) _ _ (λ e. (refl, refl)) (λ e. (refl, refl))
loop-Kept binds (x ∷ rest) s = run-Kept x rest (record s { server = looping; todo = x ∷ rest })

ending-Kept :
    (binds : Bool) (todo : List Statement) (s : Lifecycle)
    → Kept s (server_step binds (record s { server = loop_ended; todo = todo }))
unfolding server_step
ending-Kept binds [] s = (refl, refl)
ending-Kept binds (x ∷ rest) s = run-Kept x rest (record s { server = loop_ended; todo = x ∷ rest })

-- The second thread touches neither the phase of the first nor the browser.
pub server_step-Kept :
    (binds : Bool) (v : ServerPhase) (s : Lifecycle)
    → Kept s (server_step binds (record s { server = v }))
unfolding server_step
server_step-Kept binds entered s = (refl, refl)
server_step-Kept binds has_base s = (refl, refl)
server_step-Kept binds has_server s = (refl, refl)
server_step-Kept binds looping s = loop-Kept binds s.todo s
server_step-Kept binds loop_ended s = ending-Kept binds s.todo s
server_step-Kept binds stopped_gui s = (refl, refl)
server_step-Kept binds ended s = (refl, refl)
