-- ===== src/Lifecycle/WindDown.antt =====
-- The end of the process: both threads of madt-server/main.cpp from a request or a signal on.
use open_madt.Prelude.{
  ℕ, zero, suc, ◌≤◌, ◌+◌, Bool, true, false, some, List, [], ◌≡◌, ◌≢◌, refl, arith, ap, ◌⊎◌, inl,
  inr,
}
use open_madt.Lifecycle.{
  GuiPhase, Statement, Lifecycle, created, has_application, has_code, has_state, has_window,
  executing, left, cancelled_state, returned, stopped_process, joined, looping, ended,
  new_lifecycle, end_request, set_startup_state, is_zero, gui_step, server_step,
}
use open_madt.Lifecycle.Statements.{Step, Steps, IsOrderly, is_awaiting}
use open_madt.Lifecycle.Order.{begins-IsOrderly}
use open_madt.Lifecycle.Ending.{
  Stage, at_break, at_code, at_cancel, at_post, broken, at_second_cancel, at_second_post, at_end,
  at_process_end, over, IsWinding, IsEnding,
}
use open_madt.Lifecycle.Reached.{server_step-ne}
use open_madt.Lifecycle.Behind.{show_left, weight}
use open_madt.Lifecycle.Fewer.{Step-Follows}

-- Steps of any thread that change something.
pub data Moves : Bool → ℕ → Lifecycle → Lifecycle → Type 0 where
  still : (binds : Bool) (s : Lifecycle) → Moves binds 0 s s
  moves :
      (binds : Bool) (n : ℕ) (s t u : Lifecycle)
      → Moves binds n s t
      → Step binds t u
      → u ≢ t
      → Moves binds (suc n) s u

record Within (code most n : ℕ) (t : Lifecycle) : Type 0 where
  stage : Stage
  holds : IsEnding code stage t
  fewer : n + weight stage t ≤ most

Moves-Within :
    (binds : Bool) (n code most : ℕ) (s t : Lifecycle)
    → Moves binds n s t
    → Within code most 0 s
    → Within code most n t
Moves-Within binds n code most s t (still b u) k = k
Moves-Within binds n code most s t (moves b m u v w r step ne) k =
    let before = Moves-Within b m code most u v r k in
    let f = Step-Follows b code before.stage v w step before.holds ne in
    let fewer = f.fewer in
    let bounded = before.fewer in record { stage = f.stage; holds = f.holds; fewer = omega arith }

-- The threads have ended, and `main` returns the code.
abbrev pub Returns : ℕ → Lifecycle → Type 0
Returns code s = (s.gui ≡ joined) × (s.server ≡ ended) × (s.result ≡ some code)

-- One of the threads is not held up.
abbrev pub CanMove : Bool → Lifecycle → Type 0
CanMove binds s = (gui_step s ≢ s) ⊎ (server_step binds s ≢ s)

gui_step-ne :
    (g : GuiPhase) (code : ℕ) (s : Lifecycle)
    → IsEnding code over (record s { gui = g })
    → (g ≡ joined) ⊎ (gui_step (record s { gui = g }) ≢ record s { gui = g })
unfolding gui_step set_startup_state
gui_step-ne created code s k = absurd (ground (arith, k.winding.gui))
gui_step-ne has_application code s k = absurd (ground (arith, k.winding.gui))
gui_step-ne has_code code s k = absurd (ground (arith, k.winding.gui))
gui_step-ne has_state code s k = absurd (ground (arith, k.winding.gui))
gui_step-ne has_window code s k = absurd (ground (arith, k.winding.gui))
gui_step-ne executing code s k =
    inr (rw (k.winding.quits refl refl) (λ e. let g = ap (λ (u : Lifecycle). u.gui) e in absurd cc))
gui_step-ne left code s k = inr (λ e. let g = ap (λ (u : Lifecycle). u.gui) e in absurd cc)
gui_step-ne cancelled_state code s k =
    inr (λ e. let g = ap (λ (u : Lifecycle). u.gui) e in absurd cc)
gui_step-ne returned code s k = inr (λ e. let g = ap (λ (u : Lifecycle). u.gui) e in absurd cc)
gui_step-ne stopped_process code s k =
    inr (rw k.server (λ e. let g = ap (λ (u : Lifecycle). u.gui) e in absurd cc))
gui_step-ne joined code s k = inl refl

ended_or_moving :
    (binds : Bool) (code : ℕ) (stage : Stage) (s : Lifecycle)
    → IsEnding code stage s
    → Returns code s ⊎ CanMove binds s
ended_or_moving binds code at_break s k = inr (inr (server_step-ne binds code at_break s refl k))
ended_or_moving binds code at_code s k = inr (inr (server_step-ne binds code at_code s refl k))
ended_or_moving binds code at_cancel s k = inr (inr (server_step-ne binds code at_cancel s refl k))
ended_or_moving binds code at_post s k = inr (inr (server_step-ne binds code at_post s refl k))
ended_or_moving binds code broken s k = inr (inr (server_step-ne binds code broken s refl k))
ended_or_moving binds code at_second_cancel s k =
    inr (inr (server_step-ne binds code at_second_cancel s refl k))
ended_or_moving binds code at_second_post s k =
    inr (inr (server_step-ne binds code at_second_post s refl k))
ended_or_moving binds code at_end s k = inr (inr (server_step-ne binds code at_end s refl k))
ended_or_moving binds code at_process_end s k =
    inr (inr (server_step-ne binds code at_process_end s refl k))
ended_or_moving binds code over s k = elim (gui_step-ne s.gui code s k) [
  | inl j ↦ inl (j, k.server, k.winding.result (rw j refl))
  | inr n ↦ inr (inl n)
]

-- The second thread is at a request that ends the process with a code and is the last of its buffer that
-- touches the state of the process, or a signal has broken the loop.
pub data Ends (code : ℕ) (s : Lifecycle) : Type 0 where
  by_request : s.todo ≡ end_request code → Ends code s
  by_signal : s.todo ≡ [] → s.breaks ≡ true → s.exit_code ≡ code → Ends code s

no_calls :
    (n : ℕ) (todo : List Statement)
    → is_awaiting todo ≡ false
    → (is_zero n ≡ false → is_awaiting todo ≡ true)
    → n ≡ 0
no_calls zero todo h k = refl
no_calls (suc n) todo h k = absurd (ground (arith, h, k refl))

starts :
    (code : ℕ) (coded : Bool) (s : Lifecycle)
    → IsOrderly s
    → s.gui ≡ executing
    → s.quits ≡ 0
    → is_awaiting s.todo ≡ false
    → (coded ≡ true → s.exit_code ≡ code)
    → IsWinding code coded false false s
starts code coded s k g q a c = record {
  gui = rw g refl;
  application = k.application;
  early = λ h. (g, q);
  exit_code = c;
  quits = λ h. absurd cc;
  calls = no_calls s.calls s.todo a k.calls;
  result = λ h. absurd (ground (arith, g, h));
  late = λ h. absurd (ground (arith, g, h));
}

shows_once : (b : Bool) → show_left executing b ≤ 1
shows_once true = omega arith
shows_once false = omega arith

Ends-Within :
    (code : ℕ) (s : Lifecycle)
    → IsOrderly s
    → s.gui ≡ executing
    → s.server ≡ looping
    → s.quits ≡ 0
    → Ends code s
    → Within code 15 0 s
Ends-Within code s k g v q (by_request o) = record {
  stage = at_break;
  holds = record {
    server = v;
    todo = o;
    breaks = λ h. absurd cc;
    winding = starts code false s k g q (rw o refl) (λ h. absurd cc);
  };
  fewer = let once = shows_once s.browser in rw g (omega arith);
}
Ends-Within code s k g v q (by_signal o b c) = record {
  stage = broken;
  holds = record {
    server = v;
    todo = o;
    breaks = λ h. b;
    winding = starts code true s k g q (rw o refl) (λ h. c);
  };
  fewer = let once = shows_once s.browser in rw g (omega arith);
}

-- From any point of any interleaving at which the window's `exec` and the loop run, no call of `quit` is
-- posted, and the second thread is at a request that ends the process with a code and is the last of its
-- buffer that touches the state of the process, or a signal has broken the loop and the code is set: after
-- any steps of the threads that each change something, these are fifteen at most, and either both
-- threads have ended, the second is joined, and `main` returns that code, or one of the two can move.
pub Ends-Returns :
    (binds : Bool) (code n : ℕ) (s t : Lifecycle)
    → Steps binds new_lifecycle s
    → s.gui ≡ executing
    → s.server ≡ looping
    → s.quits ≡ 0
    → Ends code s
    → Moves binds n s t
    → (n ≤ 15) × (Returns code t ⊎ CanMove binds t)
Ends-Returns binds code n s t r g v q e m =
    let k =
      Moves-Within binds n code 15 s t m
        (Ends-Within code s (begins-IsOrderly binds s r) g v q e) in
    let bounded = k.fewer in (omega arith, ended_or_moving binds code k.stage t k.holds)
