-- ===== src/Lifecycle/Behind.antt =====
-- The end of the process (madt-server/main.cpp), as the first thread goes on to it.
use open_madt.Prelude.{
  ℕ, suc, ◌≤◌, ◌+◌, Bool, true, false, some, ◌≡◌, ◌≢◌, refl, ◌∙◌, arith, if-cases, sym, ap,
  if◌then◌else◌, ◌||◌,
}
use open_madt.Lifecycle.{
  GuiPhase, Lifecycle, created, has_application, has_code, has_state, has_window, executing, left,
  cancelled_state, returned, stopped_process, joined, set_startup_state, is_zero, is_ended,
  gui_step,
}
use open_madt.Lifecycle.Statements.{has_app}
use open_madt.Lifecycle.Ending.{
  Stage, at_break, at_code, at_cancel, at_post, broken, at_second_cancel, at_second_post, at_end,
  at_process_end, over, server_of, left_of, is_coded, is_over, has_run, has_returned, IsWinding,
  IsEnding,
}

abbrev pub gui_left : GuiPhase → ℕ
gui_left g = elim g [
  | executing ↦ 5
  | left ↦ 4
  | cancelled_state ↦ 3
  | returned ↦ 2
  | stopped_process ↦ 1
  | _ ↦ 0
]

-- The timer that shows the browser, while it can.
abbrev pub show_left : GuiPhase → Bool → ℕ
show_left g browser = elim g [ executing ↦ if browser then 0 else 1 | _ ↦ 0 ]

abbrev pub weight : Stage → Lifecycle → ℕ
weight stage s = left_of stage + (gui_left s.gui + show_left s.gui s.browser)

pub record Follows (code most : ℕ) (t : Lifecycle) : Type 0 where
  pub stage : Stage
  pub holds : IsEnding code stage t
  pub fewer : suc (weight stage t) ≤ most

set_by : (b : Bool) → (b ≢ false) → b ≡ true
set_by true n = refl
set_by false n = absurd (n refl)

has_coded :
    {code : ℕ} {coded posted done : Bool} {s : Lifecycle}
    → IsWinding code coded posted done s
    → s.gui ≢ executing
    → coded ≡ true
has_coded {coded = c} w n = set_by c (λ h. n (w.early h).0)

is_ended-server_of : (stage : Stage) → is_ended (server_of stage) ≡ is_over stage
is_ended-server_of at_break = refl
is_ended-server_of at_code = refl
is_ended-server_of at_cancel = refl
is_ended-server_of at_post = refl
is_ended-server_of broken = refl
is_ended-server_of at_second_cancel = refl
is_ended-server_of at_second_post = refl
is_ended-server_of at_end = refl
is_ended-server_of at_process_end = refl
is_ended-server_of over = refl

-- After `exec`.
behind :
    {code : ℕ} {coded posted done : Bool} {s : Lifecycle} (t : Lifecycle)
    → coded ≡ true
    → IsWinding code coded posted done s
    → has_run t.gui ≡ true
    → t.gui ≢ executing
    → t.application ≡ has_app t.gui
    → t.exit_code ≡ s.exit_code
    → t.calls ≡ s.calls
    → (has_returned t.gui ≡ true → t.result ≡ some code)
    → (t.gui ≡ joined → done ≡ true)
    → IsWinding code coded posted done t
behind t c w r n a x l e j = record {
  gui = r;
  application = a;
  early = λ h. absurd (ground (arith, c, h));
  exit_code = λ h. x ∙ w.exit_code h;
  quits = λ p h. absurd (n h);
  calls = l ∙ w.calls;
  result = e;
  late = j;
}

or_left : (a b : Bool) → a ≡ true → (a || b) ≡ true
or_left true b h = refl
or_left false b h = absurd cc

pub goes_on :
    (g : GuiPhase) (code : ℕ) (stage : Stage) (s : Lifecycle)
    → IsEnding code stage (record s { gui = g })
    → gui_step (record s { gui = g }) ≢ record s { gui = g }
    → Follows code (weight stage (record s { gui = g })) (gui_step (record s { gui = g }))
unfolding gui_step set_startup_state
goes_on created code stage s k n = absurd (ground (arith, k.winding.gui))
goes_on has_application code stage s k n = absurd (ground (arith, k.winding.gui))
goes_on has_code code stage s k n = absurd (ground (arith, k.winding.gui))
goes_on has_state code stage s k n = absurd (ground (arith, k.winding.gui))
goes_on has_window code stage s k n = absurd (ground (arith, k.winding.gui))
goes_on executing code stage s k n =
    if-cases
      (λ (u : Lifecycle).
        u ≢ record s { gui = executing }
        → Follows code (weight stage (record s { gui = executing })) u)
      (is_zero s.quits) _ _
      (λ e.
        if-cases
          (λ (u : Lifecycle).
            u ≢ record s { gui = executing }
            → Follows code (weight stage (record s { gui = executing })) u)
          (is_zero s.calls) _ _ (λ h m. absurd (m refl))
          (λ h m. let contrary = rw k.winding.calls at h in absurd cc))
      (λ e m. record {
        stage = stage;
        holds = record {
          server = k.server;
          todo = k.todo;
          breaks = k.breaks;
          winding =
              behind _
                (set_by (is_coded stage)
                  (λ h. let contrary = rw (k.winding.early h).1 at e in absurd cc))
                k.winding refl (λ h. absurd cc) k.winding.application refl refl (λ h. absurd cc)
                (λ h. absurd cc);
        };
        fewer = omega arith;
      })
      n
goes_on left code stage s k n = record {
  stage = stage;
  holds = record {
    server = k.server;
    todo = k.todo;
    breaks = k.breaks;
    winding =
        behind _ (has_coded k.winding (λ h. absurd cc)) k.winding refl (λ h. absurd cc)
          k.winding.application refl refl (λ h. absurd cc) (λ h. absurd cc);
  };
  fewer = omega arith;
}
goes_on cancelled_state code stage s k n =
    let c = has_coded k.winding (λ h. absurd cc) in
    record {
      stage = stage;
      holds = record {
        server = k.server;
        todo = k.todo;
        breaks = k.breaks;
        winding =
            behind _ c k.winding refl (λ h. absurd cc) refl refl refl
              (λ h. ap some (k.winding.exit_code c)) (λ h. absurd cc);
      };
      fewer = omega arith;
    }
goes_on returned code stage s k n = record {
  stage = stage;
  holds = record {
    server = k.server;
    todo = k.todo;
    breaks = λ h. or_left s.breaks _ (k.breaks h);
    winding =
        behind _ (has_coded k.winding (λ h. absurd cc)) k.winding refl (λ h. absurd cc)
          k.winding.application refl refl k.winding.result (λ h. absurd cc);
  };
  fewer = omega arith;
}
goes_on stopped_process code stage s k n =
    if-cases
      (λ (u : Lifecycle).
        u ≢ record s { gui = stopped_process }
        → Follows code (weight stage (record s { gui = stopped_process })) u)
      (is_ended s.server) _ _
      (λ e m. record {
        stage = stage;
        holds = record {
          server = k.server;
          todo = k.todo;
          breaks = k.breaks;
          winding =
              behind _ (has_coded k.winding (λ h. absurd cc)) k.winding refl (λ h. absurd cc)
                k.winding.application refl refl k.winding.result
                (λ h. sym (is_ended-server_of stage) ∙ (ap is_ended (sym k.server) ∙ e));
        };
        fewer = omega arith;
      })
      (λ e m. absurd (m refl)) n
goes_on joined code stage s k n = absurd (n refl)
