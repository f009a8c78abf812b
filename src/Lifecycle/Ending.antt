-- ===== src/Lifecycle/Ending.antt =====
-- The second thread from a request that ends the process on (`Process::stop`, `requestExit` and `Gui::stop`
-- of madt-server), statement by statement.
use open_madt.Prelude.{ℕ, Bool, true, false, some, List, [], ◌∷◌, ◌≡◌, refl, arith, if-cases}
use open_madt.Lifecycle.{
  GuiPhase, ServerPhase, Statement, Lifecycle, created, has_application, has_code, has_state,
  has_window, executing, returned, stopped_process, joined, looping, loop_ended, stopped_gui, ended,
  post_quit, stop_statements, request_exit, end_request, is_zero, run_statement,
}
use open_madt.Lifecycle.Statements.{has_app}

-- Where the second thread stands: at a statement of the request, in the loop that is broken, at a
-- statement of `Gui::stop` or behind it.
pub data Stage : Type 0 where
  at_break at_code at_cancel at_post broken at_second_cancel at_second_post at_end at_process_end
        over :
      Stage

abbrev pub server_of : Stage → ServerPhase
server_of e = elim e [
  | at_second_cancel ↦ loop_ended
  | at_second_post ↦ loop_ended
  | at_end ↦ loop_ended
  | at_process_end ↦ stopped_gui
  | over ↦ ended
  | _ ↦ looping
]

abbrev pub todo_of : ℕ → Stage → List Statement
todo_of code e = elim e [
  | at_break ↦ end_request code
  | at_code ↦ request_exit code
  | at_cancel ↦ stop_statements
  | at_post ↦ post_quit ∷ []
  | at_second_cancel ↦ stop_statements
  | at_second_post ↦ post_quit ∷ []
  | _ ↦ []
]

-- The statements that are left.
abbrev pub left_of : Stage → ℕ
left_of e = elim e [
  | at_break ↦ 9
  | at_code ↦ 8
  | at_cancel ↦ 7
  | at_post ↦ 6
  | broken ↦ 5
  | at_second_cancel ↦ 4
  | at_second_post ↦ 3
  | at_end ↦ 2
  | at_process_end ↦ 1
  | over ↦ 0
]

abbrev pub is_broken : Stage → Bool
is_broken e = elim e [ at_break ↦ false | over ↦ false | _ ↦ true ]

abbrev pub is_coded : Stage → Bool
is_coded e = elim e [ at_break ↦ false | at_code ↦ false | _ ↦ true ]

-- The second call of `quit` is posted.
abbrev pub is_posted : Stage → Bool
is_posted e = elim e [ at_end ↦ true | at_process_end ↦ true | over ↦ true | _ ↦ false ]

abbrev pub is_over : Stage → Bool
is_over e = elim e [ over ↦ true | _ ↦ false ]

abbrev pub has_run : GuiPhase → Bool
has_run g = elim g [
  | created ↦ false
  | has_application ↦ false
  | has_code ↦ false
  | has_state ↦ false
  | has_window ↦ false
  | _ ↦ true
]

abbrev pub has_returned : GuiPhase → Bool
has_returned g = elim g [ returned ↦ true | stopped_process ↦ true | joined ↦ true | _ ↦ false ]

-- The first thread, by what the second has done: it has set the code, it has posted its last call of
-- `quit`, it has ended.
pub record IsWinding (code : ℕ) (coded posted done : Bool) (s : Lifecycle) : Type 0 where
  pub gui : has_run s.gui ≡ true
  pub application : s.application ≡ has_app s.gui
  pub early : coded ≡ false → (s.gui ≡ executing) × (s.quits ≡ 0)
  pub exit_code : coded ≡ true → s.exit_code ≡ code
  pub quits : posted ≡ true → s.gui ≡ executing → is_zero s.quits ≡ false
  pub calls : s.calls ≡ 0
  pub result : has_returned s.gui ≡ true → s.result ≡ some code
  pub late : s.gui ≡ joined → done ≡ true

pub record IsEnding (code : ℕ) (stage : Stage) (s : Lifecycle) : Type 0 where
  pub server : s.server ≡ server_of stage
  pub todo : s.todo ≡ todo_of code stage
  pub breaks : is_broken stage ≡ true → s.breaks ≡ true
  pub winding : IsWinding code (is_coded stage) (is_posted stage) (is_over stage) s

-- What the second thread, its loop and the startup state are does not matter.
pub unmoved :
    {code : ℕ} {coded posted done : Bool} (s : Lifecycle) (v : ServerPhase) (todo : List Statement)
    (ready cancelled pending breaks : Bool)
    → IsWinding code coded posted done s
    → IsWinding code coded posted done (record s {
      ready = ready;
      cancelled = cancelled;
      server = v;
      todo = todo;
      exit_pending = pending;
      breaks = breaks;
    })
unmoved s v todo ready cancelled pending breaks k = record {
  gui = k.gui;
  application = k.application;
  early = k.early;
  exit_code = k.exit_code;
  quits = k.quits;
  calls = k.calls;
  result = k.result;
  late = k.late;
}

pub ends :
    {code : ℕ} {coded posted : Bool} {s : Lifecycle}
    → IsWinding code coded posted false s
    → IsWinding code coded posted true s
ends k = record {
  gui = k.gui;
  application = k.application;
  early = k.early;
  exit_code = k.exit_code;
  quits = k.quits;
  calls = k.calls;
  result = k.result;
  late = λ h. refl;
}

pub sets_code :
    {code : ℕ} {posted done : Bool} (s : Lifecycle) (rest : List Statement)
    → IsWinding code false posted done s
    → IsWinding code true posted done (record s { exit_code = code; todo = rest })
sets_code s rest k = record {
  gui = k.gui;
  application = k.application;
  early = λ h. absurd cc;
  exit_code = λ h. refl;
  quits = k.quits;
  calls = k.calls;
  result = k.result;
  late = k.late;
}

pub posts :
    {code : ℕ} {done : Bool} (posted : Bool) (s : Lifecycle) (rest : List Statement)
    → IsWinding code true false done s
    → IsWinding code true posted done (run_statement post_quit rest s)
unfolding run_statement
posts posted s rest k = record {
  gui = k.gui;
  application = k.application;
  early = λ h. absurd cc;
  exit_code = k.exit_code;
  quits = λ h e.
      if-cases (λ (n : ℕ). is_zero n ≡ false) s.application _ _ (λ a. refl)
        (λ a. absurd (ground (arith, k.application, a, e)));
  calls = k.calls;
  result = k.result;
  late = k.late;
}
