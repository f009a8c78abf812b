-- ===== src/Lifecycle.antt =====
-- The two threads of the process: `run`, `stop` and `requestExit` of madt-server/gui.cpp in the first, and
-- the event loop of process/process.cpp in the second, which madt-server/main.cpp starts and joins.
pub mod Statements
pub mod Order
pub mod Ending
pub mod Reached
pub mod Behind
pub mod Fewer
pub mod WindDown
pub mod Stranded
pub mod Hang
use open_madt.Prelude.{
  ℕ, zero, suc, ◌-◌, Bool, true, false, not, ◌||◌, Option, none, some, List, [], ◌∷◌, ◌++◌,
  if◌then◌else◌,
}

-- What the first thread has done of `main` and `run`: `application` is set, the exit code and the startup
-- state are reset, the window is shown, `exec` runs, `exec` has returned, the startup state says
-- cancelled, `run` has returned, `Process::stop` has returned, the second thread is joined.
pub data GuiPhase : Type 0 where
  created has_application has_code has_state has_window executing left cancelled_state returned
        stopped_process joined :
      GuiPhase

-- What the second thread has done of its function: there is an event base, the server is started, the loop
-- runs, the loop has ended, `Gui::stop` has returned, `Process::end` has returned.
pub data ServerPhase : Type 0 where
  entered has_base has_server looping loop_ended stopped_gui ended : ServerPhase

-- The statements of the second thread that touch the state of the process: `Process::stop`, the two of
-- `requestExit` and the two of `Gui::stop` (`set_cancelled` and `post_quit`), and those of a request that
-- posts a call to the browser and waits for its answer.
pub data Statement : Type 0 where
  break_loop : Statement
  set_code : ℕ → Statement
  set_cancelled post_quit post_call await_reply : Statement

-- `quits` and `calls` are the calls of `quit` and of the browser that are posted and not yet made.
-- `todo` are the statements that are left of what the second thread is in: a callback of the loop, or
-- `Gui::stop` after it. `exit_pending` is the exit that `event_base_loopexit` has asked of the loop, and
-- `breaks` that of `event_base_loopbreak`.
pub record Lifecycle : Type 0 where
  pub gui : GuiPhase
  pub server : ServerPhase
  pub application : Bool
  pub browser : Bool
  pub ready : Bool
  pub cancelled : Bool
  pub exit_code : ℕ
  pub quits : ℕ
  pub calls : ℕ
  pub todo : List Statement
  pub exit_pending : Bool
  pub breaks : Bool
  pub result : Option ℕ

abbrev pub new_lifecycle : Lifecycle
new_lifecycle = record {
  gui = created;
  server = entered;
  application = false;
  browser = false;
  ready = false;
  cancelled = false;
  exit_code = 0;
  quits = 0;
  calls = 0;
  todo = [];
  exit_pending = false;
  breaks = false;
  result = none;
}

unfoldable pub set_startup_state : Bool → Bool → Lifecycle → Lifecycle
set_startup_state ready cancelled s = record s { ready = ready; cancelled = cancelled }

-- `Gui::stop`
abbrev pub stop_statements : List Statement
stop_statements = set_cancelled ∷ post_quit ∷ []

abbrev pub request_exit : ℕ → List Statement
request_exit code = set_code code ∷ stop_statements

-- `handleStop` and `handleRestart`, once authorized.
abbrev pub end_request : ℕ → List Statement
end_request code = break_loop ∷ request_exit code

-- A request that the second thread handles: one that ends the process with a code, one that the browser
-- answers, or one that touches nothing here.
pub data Request : Type 0 where
  ends_with : ℕ → Request
  asks other : Request

-- The loop of `Server::request` over the requests of a buffer. It goes on after one that ends the process.
unfoldable pub statements : List Request → List Statement
statements [] = []
statements (ends_with code ∷ requests) = end_request code ++ statements requests
statements (asks ∷ requests) = post_call ∷ statements requests
statements (other ∷ requests) = statements requests

-- What it returns, and `none` where it still waits.
unfoldable pub wait_for_startup_ready : Lifecycle → Option Bool
wait_for_startup_ready s = if s.ready || s.cancelled then some s.ready else none

-- The timer of `run` that shows the browser, once; its test and its update are one step.
unfoldable pub show_browser : Lifecycle → Lifecycle
unfolding set_startup_state
show_browser s =
    if s.cancelled then s else set_startup_state true false (record s { browser = true })

abbrev pub is_looping : ServerPhase → Bool
is_looping v = elim v [ looping ↦ true | _ ↦ false ]

abbrev pub is_ended : ServerPhase → Bool
is_ended v = elim v [ ended ↦ true | _ ↦ false ]

-- `Process::stop`. A break that comes before the loop runs is forgotten when the loop starts.
abbrev pub stop_process : Lifecycle → Lifecycle
stop_process s = record s { breaks = s.breaks || is_looping s.server }

abbrev pub is_zero : ℕ → Bool
is_zero zero = true
is_zero (suc n) = false

-- The browser answers a call.
abbrev pub answer : Lifecycle → Lifecycle
answer s = record s { calls = s.calls - 1 }

-- One statement of the second thread, with those behind it. Without a browser a call is refused at
-- once; a posted call is waited for until it is answered.
unfoldable pub run_statement : Statement → List Statement → Lifecycle → Lifecycle
unfolding set_startup_state
run_statement break_loop rest s = record (stop_process s) { todo = rest }
run_statement (set_code code) rest s = record s { exit_code = code; todo = rest }
run_statement set_cancelled rest s = record (set_startup_state false true s) { todo = rest }
run_statement post_quit rest s = record s {
  quits = if s.application then suc s.quits else s.quits;
  todo = rest;
}
run_statement post_call rest s =
    if s.browser
    then record s { calls = suc s.calls; todo = await_reply ∷ rest }
    else record s { todo = rest }
run_statement await_reply rest s = if is_zero s.calls then record s { todo = rest } else s

-- The next statement of the first thread; where it waits, nothing. `exec` makes the calls that are
-- posted and returns at one of `quit`, which stands before a call that was posted later; a call of `quit`
-- that is made before `exec` runs does nothing.
unfoldable pub gui_step : Lifecycle → Lifecycle
unfolding set_startup_state
gui_step s = elim s.gui [
  | created ↦ record s { gui = has_application; application = true }
  | has_application ↦ record s { gui = has_code; exit_code = 0 }
  | has_code ↦ record (set_startup_state false false s) { gui = has_state }
  | has_state ↦ record s { gui = has_window; quits = 0 }
  | has_window ↦ record s { gui = executing }
  | executing ↦
      if is_zero s.quits
      then (if is_zero s.calls then s else answer s)
      else record s { gui = left; quits = s.quits - 1 }
  | left ↦ record (set_startup_state false true s) { gui = cancelled_state }
  | cancelled_state ↦ record s {
    gui = returned;
    application = false;
    browser = false;
    result = some s.exit_code;
  }
  | returned ↦ record (stop_process s) { gui = stopped_process }
  | stopped_process ↦ if is_ended s.server then record s { gui = joined } else s
  | joined ↦ s
]

-- The next statement of the second thread; where the loop runs on, nothing. The server starts unless its
-- listener cannot be bound.
unfoldable pub server_step : Bool → Lifecycle → Lifecycle
unfolding run_statement
server_step binds s = elim s.server [
  | entered ↦ record s { server = has_base }
  | has_base ↦ record s { server = has_server; exit_pending = not binds }
  | has_server ↦ record s { server = looping; breaks = false }
  | looping ↦ elim s.todo [
    | [] ↦
        if s.exit_pending || s.breaks
        then record s { server = loop_ended; todo = stop_statements }
        else s
    | x ∷ rest ↦ run_statement x rest s
  ]
  | loop_ended ↦ elim s.todo [
    | [] ↦ record s { server = stopped_gui }
    | x ∷ rest ↦ run_statement x rest s
  ]
  | stopped_gui ↦ record s { server = ended; exit_pending = false; breaks = false }
  | ended ↦ s
]

-- `stopProcess` in process.cpp, at a signal.
unfoldable pub handle_signal : Bool → Lifecycle → Lifecycle
handle_signal is_quit s =
    if is_quit then record s { exit_pending = true } else record s { breaks = true }
