-- ===== src/Lifecycle/Fewer.antt =====
-- The end of the process (madt-server/main.cpp): each step of a thread that changes something is one fewer of
-- those that are left.
use open_madt.Prelude.{ℕ, Bool, true, false, [], ◌≡◌, ◌≢◌, refl, ◌∙◌, arith, if-cases, sym}
use open_madt.Lifecycle.{
  Lifecycle, executing, looping, ended, set_startup_state, answer, show_browser, gui_step,
  server_step,
}
use open_madt.Lifecycle.Statements.{
  Step, gui_goes, server_goes, shows, answers_late, requests, signals, server_over,
  server_step-Kept,
}
use open_madt.Lifecycle.Ending.{
  Stage, at_break, at_code, at_cancel, at_post, broken, at_second_cancel, at_second_post, at_end,
  at_process_end, over, server_of, todo_of, is_broken, is_over, IsEnding,
}
use open_madt.Lifecycle.Reached.{server_step-Reaches}
use open_madt.Lifecycle.Behind.{weight, Follows, goes_on}

gui_step-Follows :
    (code : ℕ) (stage : Stage) (s : Lifecycle)
    → IsEnding code stage s
    → gui_step s ≢ s
    → Follows code (weight stage s) (gui_step s)
gui_step-Follows code stage s k n = goes_on s.gui code stage s k n

server_of-over : (stage : Stage) → is_over stage ≡ true → server_of stage ≡ ended
server_of-over at_break h = absurd cc
server_of-over at_code h = absurd cc
server_of-over at_cancel h = absurd cc
server_of-over at_post h = absurd cc
server_of-over broken h = absurd cc
server_of-over at_second_cancel h = absurd cc
server_of-over at_second_post h = absurd cc
server_of-over at_end h = absurd cc
server_of-over at_process_end h = absurd cc
server_of-over over h = refl

on_stage : {P : Type 0} (b : Bool) → (b ≡ true → P) → (b ≡ false → P) → P
on_stage true f g = f refl
on_stage false f g = g refl

server_step-Follows :
    (binds : Bool) (code : ℕ) (stage : Stage) (s : Lifecycle)
    → IsEnding code stage s
    → server_step binds s ≢ s
    → Follows code (weight stage s) (server_step binds s)
server_step-Follows binds code stage s k n =
    on_stage (is_over stage)
      (λ h. absurd (n (server_over binds s (k.server ∙ server_of-over stage h))))
      (λ h.
        let r = server_step-Reaches binds code stage s h k in
        let kept : ((server_step binds s).gui ≡ s.gui)
            × ((server_step binds s).browser ≡ s.browser) =
          server_step-Kept binds s.server s in
        let fewer = r.fewer in
        record { stage = r.stage; holds = r.holds; fewer = rw (kept.0, kept.1) (omega arith) })

show_browser-Follows :
    (code : ℕ) (stage : Stage) (s : Lifecycle)
    → s.gui ≡ executing
    → s.browser ≡ false
    → IsEnding code stage s
    → show_browser s ≢ s
    → Follows code (weight stage s) (show_browser s)
unfolding show_browser set_startup_state
show_browser-Follows code stage s g b k n =
    if-cases (λ (u : Lifecycle). u ≢ s → Follows code (weight stage s) u) s.cancelled _ _
      (λ e m. absurd (m refl))
      (λ e m. record {
        stage = stage;
        holds = record {
          server = k.server;
          todo = k.todo;
          breaks = k.breaks;
          winding = record {
            gui = k.winding.gui;
            application = k.winding.application;
            early = k.winding.early;
            exit_code = k.winding.exit_code;
            quits = k.winding.quits;
            calls = k.winding.calls;
            result = k.winding.result;
            late = k.winding.late;
          };
        };
        fewer = rw (g, b) (omega arith);
      })
      n

answer-eq : (s : Lifecycle) → s.calls ≡ 0 → answer s ≡ s
answer-eq s e = rw (e, sym e) refl

-- In a loop that has no statement left, the request is through.
is_broken-looping :
    (code : ℕ) (stage : Stage)
    → server_of stage ≡ looping
    → todo_of code stage ≡ []
    → is_broken stage ≡ true
is_broken-looping code at_break v o = absurd cc
is_broken-looping code at_code v o = refl
is_broken-looping code at_cancel v o = refl
is_broken-looping code at_post v o = refl
is_broken-looping code broken v o = refl
is_broken-looping code at_second_cancel v o = refl
is_broken-looping code at_second_post v o = refl
is_broken-looping code at_end v o = refl
is_broken-looping code at_process_end v o = refl
is_broken-looping code over v o = absurd cc

pub Step-Follows :
    (binds : Bool) (code : ℕ) (stage : Stage) (s t : Lifecycle)
    → Step binds s t
    → IsEnding code stage s
    → t ≢ s
    → Follows code (weight stage s) t
Step-Follows binds code stage s t (gui_goes b u) k n = gui_step-Follows code stage s k n
Step-Follows binds code stage s t (server_goes b u) k n = server_step-Follows b code stage s k n
Step-Follows binds code stage s t (shows b u g e) k n = show_browser-Follows code stage s g e k n
Step-Follows binds code stage s t (answers_late b u g) k n =
    absurd (n (answer-eq s k.winding.calls))
Step-Follows binds code stage s t (requests b u received v o h) k n =
    absurd (
      ground
        (arith, h, k.breaks (is_broken-looping code stage (sym k.server ∙ v) (sym k.todo ∙ o))))
Step-Follows binds code stage s t (signals b u q v o h) k n =
    absurd (
      ground
        (arith, h, k.breaks (is_broken-looping code stage (sym k.server ∙ v) (sym k.todo ∙ o))))
