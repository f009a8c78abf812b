-- ===== src/Examples/Lifecycle.antt =====
-- A run that a request ends, one with a call behind that request, and one whose server cannot listen.
use open_madt.Prelude.{Bool, true, false, ◌≡◌, ◌≢◌, refl, none, [], ◌∷◌, ◌≤◌, ◌⊎◌, ap}
use open_madt.Lifecycle.{
  Lifecycle, created, executing, joined, looping, ended, new_lifecycle, end_request, ends_with,
  asks, other, statements, run_statement, is_zero, show_browser, gui_step, server_step,
  set_startup_state,
}
use open_madt.Lifecycle.Statements.{Steps, gui_goes, server_goes, shows, requests, here, onward}
use open_madt.Lifecycle.WindDown.{Returns, CanMove, still, moves, by_request, Ends-Returns}
use open_madt.Lifecycle.Stranded.{never_returns}
use open_madt.Lifecycle.Hang.{is_gone, never_joined}

-- Three statements of the second thread.
abbrev listening : Lifecycle
listening = server_step true (server_step true (server_step true new_lifecycle))

abbrev five : Lifecycle → Lifecycle
five s = gui_step (gui_step (gui_step (gui_step (gui_step s))))

go : (binds : Bool) (s t : Lifecycle) → Steps binds s t → Steps binds s (gui_step t)
go binds s t r = onward binds s t (gui_step t) r (gui_goes binds t)

serve : (binds : Bool) (s t : Lifecycle) → Steps binds s t → Steps binds s (server_step binds t)
serve binds s t r = onward binds s t (server_step binds t) r (server_goes binds t)

five-Steps : (binds : Bool) (s t : Lifecycle) → Steps binds s t → Steps binds s (five t)
five-Steps binds s t r = go binds s _ (go binds s _ (go binds s _ (go binds s _ (go binds s _ r))))

three-Steps :
    (binds : Bool) (s t : Lifecycle)
    → Steps binds s t
    → Steps binds s (server_step binds (server_step binds (server_step binds t)))
three-Steps binds s t r = serve binds s _ (serve binds s _ (serve binds s _ r))

executing_now : (five listening).gui ≡ executing
unfolding gui_step server_step set_startup_state
executing_now = refl

looping_now : (five listening).server ≡ looping
unfolding gui_step server_step set_startup_state
looping_now = refl

serving_run : Steps true new_lifecycle (five listening)
serving_run =
    five-Steps true new_lifecycle _ (three-Steps true new_lifecycle _ (here true new_lifecycle))

-- A `Stop` arrives.
abbrev stopping : Lifecycle
stopping = record (five listening) { todo = statements (ends_with 1 ∷ other ∷ []) }

stopping_run : Steps true new_lifecycle stopping
unfolding gui_step server_step set_startup_state
stopping_run =
    onward true new_lifecycle (five listening) stopping serving_run
      (requests true (five listening) (ends_with 1 ∷ other ∷ []) refl refl refl)

stopping_now : (stopping.gui ≡ executing) × (stopping.server ≡ looping) × (stopping.quits ≡ 0)
unfolding gui_step server_step set_startup_state
stopping_now = (refl, refl, refl)

stopping_todo : stopping.todo ≡ end_request 1
unfolding statements
stopping_todo = refl

broken_loop : server_step true stopping ≢ stopping
unfolding gui_step server_step set_startup_state run_statement statements
broken_loop e = let todo = ap (λ (s : Lifecycle). s.todo) e in absurd cc

Ends-Returns_example :
    (1 ≤ 15) × (Returns 1 (server_step true stopping) ⊎ CanMove true (server_step true stopping))
Ends-Returns_example =
    Ends-Returns true 1 1 stopping (server_step true stopping) stopping_run stopping_now.0
      stopping_now.1 stopping_now.2 (by_request stopping_todo)
      (moves true 0 stopping stopping (server_step true stopping) (still true stopping)
        (server_goes true stopping) broken_loop)

abbrev both : Lifecycle → Lifecycle
both s = server_step true (gui_step s)

abbrev both_five : Lifecycle → Lifecycle
both_five s = both (both (both (both (both s))))

stops : Returns 1 (both_five (both_five stopping))
unfolding gui_step server_step set_startup_state run_statement statements
stops = (refl, refl, refl)

-- A `Stop` and a `NewWebTab` arrive in one buffer, with the browser shown.
abbrev shown : Lifecycle
shown = show_browser (five listening)

abbrev asking : Lifecycle
asking = record shown { todo = statements (ends_with 0 ∷ asks ∷ []) }

abbrev five_served : Lifecycle → Lifecycle
five_served s =
    server_step true (server_step true (server_step true (server_step true (server_step true s))))

-- The second thread posts the call, and `exec` returns before it comes to it.
abbrev hung : Lifecycle
hung = gui_step (gui_step (five_served asking))

asking_run : Steps true new_lifecycle asking
unfolding gui_step server_step set_startup_state show_browser
asking_run =
    onward true new_lifecycle shown asking
      (onward true new_lifecycle (five listening) shown serving_run
        (shows true (five listening) refl refl))
      (requests true shown (ends_with 0 ∷ asks ∷ []) refl refl refl)

hung_run : Steps true new_lifecycle hung
hung_run = go true new_lifecycle _ (
    go true new_lifecycle _ (
      serve true new_lifecycle _ (
        serve true new_lifecycle _ (
          serve true new_lifecycle _
            (serve true new_lifecycle _ (serve true new_lifecycle _ asking_run))))))

hung_now : (hung.server ≡ looping) × (is_gone hung.gui ≡ true) × (is_zero hung.calls ≡ false)
unfolding gui_step server_step set_startup_state show_browser run_statement statements
hung_now = (refl, refl, refl)

never_joined_example : ((five hung).server ≡ looping) × ((five hung).gui ≢ joined)
never_joined_example =
    never_joined true hung (five hung) hung_run hung_now.0 hung_now.1 hung_now.2
      (five-Steps true hung hung (here true hung))

abbrev three : Lifecycle → Lifecycle
three s = server_step false (server_step false (server_step false s))

abbrev deaf : Lifecycle
deaf = server_step false (server_step false (three (three new_lifecycle)))

deaf_run : Steps false new_lifecycle deaf
deaf_run = serve false new_lifecycle _ (
    serve false new_lifecycle _ (
      three-Steps false new_lifecycle _
        (three-Steps false new_lifecycle _ (here false new_lifecycle))))

deaf_ended : deaf.server ≡ ended
unfolding server_step run_statement set_startup_state
deaf_ended = refl

deaf_created : deaf.gui ≡ created
unfolding server_step run_statement set_startup_state
deaf_created = refl

never_returns_example : ((five deaf).server ≡ ended) × ((five deaf).result ≡ none)
never_returns_example =
    never_returns false deaf (five deaf) deaf_run deaf_ended deaf_created
      (five-Steps false deaf deaf (here false deaf))
