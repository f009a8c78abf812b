-- ===== src/Lifecycle/Reached.antt =====
-- The second thread from a request that ends the process on (madt-server): each statement leads to the next
-- stage of Lifecycle/Ending.
use open_madt.Prelude.{
  ℕ, suc, Bool, true, false, ◌||◌, List, [], ◌∷◌, ◌≡◌, refl, ◌∙◌, arith, if-cases, subst, sym, ◌≢◌,
  ap, ◌+◌,
}
use open_madt.Lifecycle.{
  ServerPhase, Statement, Lifecycle, looping, loop_ended, stopped_gui, ended, post_quit,
  set_startup_state, stop_statements, request_exit, run_statement, server_step,
}
use open_madt.Lifecycle.Ending.{
  Stage, at_break, at_code, at_cancel, at_post, broken, at_second_cancel, at_second_post, at_end,
  at_process_end, over, server_of, todo_of, left_of, is_broken, is_coded, is_posted, is_over,
  IsWinding, IsEnding, unmoved, ends, sets_code, posts,
}

-- A stage that a step has reached.
pub record Reaches (code left : ℕ) (t : Lifecycle) : Type 0 where
  pub stage : Stage
  pub holds : IsEnding code stage t
  pub fewer : suc (left_of stage) ≡ left

reaches :
    {code left : ℕ} {t : Lifecycle} (stage : Stage)
    → suc (left_of stage) ≡ left
    → t.server ≡ server_of stage
    → t.todo ≡ todo_of code stage
    → (is_broken stage ≡ true → t.breaks ≡ true)
    → IsWinding code (is_coded stage) (is_posted stage) (is_over stage) t
    → Reaches code left t
reaches stage l v o b w = record {
  stage = stage;
  holds = record { server = v; todo = o; breaks = b; winding = w };
  fewer = l;
}

at_stage : ℕ → Stage → Lifecycle → Lifecycle
at_stage code stage s = record s { server = server_of stage; todo = todo_of code stage }

or_true : (b : Bool) → (b || true) ≡ true
or_true true = refl
or_true false = refl

goes_on :
    (binds : Bool) (code : ℕ) (stage : Stage) (s : Lifecycle)
    → is_over stage ≡ false
    → (is_broken stage ≡ true → s.breaks ≡ true)
    → IsWinding code (is_coded stage) (is_posted stage) (is_over stage) (at_stage code stage s)
    → Reaches code (left_of stage) (server_step binds (at_stage code stage s))
unfolding server_step run_statement set_startup_state at_stage
goes_on binds code at_break s h b w =
    reaches at_code refl refl refl (λ e. or_true s.breaks)
      (unmoved (at_stage code at_break s) looping (request_exit code) s.ready s.cancelled
        s.exit_pending (s.breaks || true) w)
goes_on binds code at_code s h b w =
    reaches at_cancel refl refl refl (λ e. b refl)
      (sets_code (at_stage code at_code s) stop_statements w)
goes_on binds code at_cancel s h b w =
    reaches at_post refl refl refl (λ e. b refl)
      (unmoved (at_stage code at_cancel s) looping (post_quit ∷ []) false true s.exit_pending
        s.breaks w)
goes_on binds code at_post s h b w =
    reaches broken refl refl refl (λ e. b refl) (posts false (at_stage code at_post s) [] w)
goes_on binds code broken s h b w =
    if-cases (Reaches code 5) (s.exit_pending || s.breaks) _ _
      (λ e.
        reaches at_second_cancel refl refl refl (λ e'. b refl)
          (unmoved (at_stage code broken s) loop_ended stop_statements s.ready s.cancelled
            s.exit_pending s.breaks w))
      (λ e. absurd (ground (arith, e, b refl)))
goes_on binds code at_second_cancel s h b w =
    reaches at_second_post refl refl refl (λ e. b refl)
      (unmoved (at_stage code at_second_cancel s) loop_ended (post_quit ∷ []) false true
        s.exit_pending s.breaks w)
goes_on binds code at_second_post s h b w =
    reaches at_end refl refl refl (λ e. b refl) (posts true (at_stage code at_second_post s) [] w)
goes_on binds code at_end s h b w =
    reaches at_process_end refl refl refl (λ e. b refl)
      (unmoved (at_stage code at_end s) stopped_gui [] s.ready s.cancelled s.exit_pending s.breaks
        w)
goes_on binds code at_process_end s h b w =
    reaches over refl refl refl (λ e. absurd cc)
      (ends (unmoved (at_stage code at_process_end s) ended [] s.ready s.cancelled false false w))
goes_on binds code over s h b w = absurd cc

at_stage-eq :
    (code : ℕ) (stage : Stage) (s : Lifecycle) → IsEnding code stage s → at_stage code stage s ≡ s
unfolding at_stage
at_stage-eq code stage s k = rw (sym k.server, sym k.todo) refl

pub server_step-Reaches :
    (binds : Bool) (code : ℕ) (stage : Stage) (s : Lifecycle)
    → is_over stage ≡ false
    → IsEnding code stage s
    → Reaches code (left_of stage) (server_step binds s)
server_step-Reaches binds code stage s h k =
    let same = at_stage-eq code stage s k in
    subst (λ (u : Lifecycle). Reaches code (left_of stage) (server_step binds u)) same
      (goes_on binds code stage s h k.breaks (
        subst (IsWinding code (is_coded stage) (is_posted stage) (is_over stage)) (sym same)
          k.winding))

abbrev count : List Statement → ℕ
count [] = 0
count (x ∷ todo) = suc (count todo)

-- The statements that are left, by the phase and the list of them.
abbrev rank : ServerPhase → List Statement → ℕ
rank v todo = elim v [
  | looping ↦ 5 + count todo
  | loop_ended ↦ 2 + count todo
  | stopped_gui ↦ 1
  | _ ↦ 0
]

left_of-rank :
    (code : ℕ) (stage : Stage) → left_of stage ≡ rank (server_of stage) (todo_of code stage)
left_of-rank code at_break = refl
left_of-rank code at_code = refl
left_of-rank code at_cancel = refl
left_of-rank code at_post = refl
left_of-rank code broken = refl
left_of-rank code at_second_cancel = refl
left_of-rank code at_second_post = refl
left_of-rank code at_end = refl
left_of-rank code at_process_end = refl
left_of-rank code over = refl

stage-rank :
    (code : ℕ) (stage : Stage) (s : Lifecycle)
    → IsEnding code stage s
    → left_of stage ≡ rank s.server s.todo
stage-rank code stage s k = rw (k.server, k.todo) (left_of-rank code stage)

-- The second thread moves until it has ended.
pub server_step-ne :
    (binds : Bool) (code : ℕ) (stage : Stage) (s : Lifecycle)
    → is_over stage ≡ false
    → IsEnding code stage s
    → server_step binds s ≢ s
server_step-ne binds code stage s h k e =
    let r = server_step-Reaches binds code stage s h k in
    let there : left_of r.stage ≡ rank s.server s.todo =
      (stage-rank code r.stage (server_step binds s) r.holds
        ∙ ap (λ (u : Lifecycle). rank u.server u.todo) e) in
    let here = stage-rank code stage s k in let fewer = r.fewer in omega arith
