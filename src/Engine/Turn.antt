-- ===== src/Engine/Turn.antt =====
-- What a turn of the engine does to the task, by the type of its stage, while the driver fails nothing.
use agentary.Prelude.{
  ℕ, String, none, some, Bool, true, false, not, ◌&&◌, ◌≡◌, refl, ap, ◌∙◌, [], if◌then◌else◌, ◌==◌,
  find_row, is_blank, or_empty, order_by, text_le,
}
use agentary.Store.Model.{Task, WorkflowStage, Db}
use agentary.Store.TaskRuns.{later, update_task_run, set_task_failed_run}
use agentary.Store.Workflows.{
  get_workflow_stages, get_workflow_transitions, stages_of, transitions_of,
}
use agentary.Store.Tasks.{
  update_task, assign, update_tasks, is_task, failed, update_task_stage, staged,
}
use agentary.Store.Network.{list_allowed_domains}
use agentary.Host.{Host, Runtime, TurnRequest}
use agentary.Engine.{
  or_zero, next_stage, transition, is_terminal_in, is_terminal_stage, enter, advance, outcome_of,
  turn_request, turn_returned, agent_turn, run_stage, stage_of, run_turn,
}
use agentary.Exec.{World, Result, ok, err, Exec, pure, fail, now, ignore, when, ◌>>=◌, ◌>>◌}
use agentary.Exec.Run.{bind_run, query_run, execute_run, attempt_run, ignore_run}

update_task_stage_run :
    (w : World) (id : ℕ) (stage : String)
    → w.faults ≡ []
    → update_task_stage id stage w
      ≡ (ok tt, record (later w) { db = update_tasks (is_task id) (staged stage (w.clock 0)) w.db })
unfolding update_task_stage now
update_task_stage_run w id stage quiet =
    bind_run _ _ w (later w) (w.clock 0) refl ∙ execute_run (later w) quiet _

-- The world after the task has gone to a stage: unchanged if there is none, and the task is done at a
-- terminal stage.
abbrev pub staged_world : ℕ → String → World → World
staged_world id name w = record (later w) {
  db = update_tasks (is_task id) (staged name (w.clock 0)) w.db;
}

abbrev pub done_world : ℕ → World → World
done_world id w = record (later w) {
  db = update_tasks (is_task id) (assign "done" none (w.clock 0)) w.db;
}

abbrev pub entered : ℕ → String → String → World → World
entered id workflow_id name w =
    if name == ""
    then w
    else if is_terminal_in name (stages_of workflow_id w.db)
    then done_world id (staged_world id name w)
    else staged_world id name w

when_run :
    (b : Bool) (m : Exec Unit) (w w' : World)
    → m w ≡ (ok tt, w')
    → when b m w ≡ (ok tt, if b then w' else w)
unfolding when
when_run true m w w' e = e
when_run false m w w' e = refl

enter_run :
    (w : World) (id : ℕ) (workflow_id name : String)
    → w.faults ≡ []
    → enter id workflow_id name w ≡ (ok tt, entered id workflow_id name w)
unfolding enter is_terminal_stage get_workflow_stages pure stages_of
enter_run w id workflow_id name quiet = go (name == "")
  where
    go :
        (b : Bool)
        → (if b
              then pure tt
              else (ignore (update_task_stage id name)
                  >> (is_terminal_stage workflow_id name >>= λ terminal.
                      when terminal (ignore (update_task id "done" none)))))
            w
          ≡ (
            ok tt,
            if b
                then w
                else if is_terminal_in name (stages_of workflow_id w.db)
                then done_world id (staged_world id name w)
                else staged_world id name w,
          )
    go true = refl
    go false =
        bind_run _ _ w _ tt (ignore_run _ w _ _ (update_task_stage_run w id name quiet))
        ∙ bind_run _ _ (staged_world id name w) (staged_world id name w) _ (
            attempt_run _ _ (staged_world id name w) _ _
              (query_run (staged_world id name w) quiet _))
        ∙ when_run _ _ (staged_world id name w) _ (
            ignore_run _ (staged_world id name w) _ _
              (update_task_run (staged_world id name w) quiet id "done" none))

-- Where an outcome leads from a stage, by the rows of the table.
abbrev pub led_to : String → String → String → Db → String
led_to workflow_id name outcome d = next_stage name outcome (transitions_of workflow_id d)

transition_run :
    (w : World) (workflow_id name outcome : String)
    → w.faults ≡ []
    → transition workflow_id name outcome w ≡ (ok (led_to workflow_id name outcome w.db), w)
unfolding transition get_workflow_transitions pure
transition_run w workflow_id name outcome quiet = bind_run _ _ w w _ (query_run w quiet _)

advance_run :
    (w : World) (id : ℕ) (workflow_id name : String)
    → w.faults ≡ []
    → advance id workflow_id name w
      ≡ (ok true, entered id workflow_id (led_to workflow_id name "done" w.db) w)
unfolding advance pure
advance_run w id workflow_id name quiet =
    bind_run _ _ w w _
      (attempt_run _ (or_zero "") w w _ (transition_run w workflow_id name "done" quiet))
    ∙ bind_run _ _ w _ tt (enter_run w id workflow_id _ quiet)

-- The request of a turn without the agent's own config.
abbrev pub request : String → Task → World → TurnRequest
request team task w = record {
  team = team;
  agent = or_empty task.assignee;
  task_id = task.task_id;
  input = task.title;
  network_allowlist = order_by text_le w.db.allowlist;
  model = "";
  max_tokens = 0;
}

-- The task stands at a stage of its workflow.
abbrev pub IsAt : Task → String → WorkflowStage → Db → Type 0
IsAt task workflow_id s d =
    (task.workflow_id ≡ some workflow_id)
    × ((workflow_id == "") ≡ false)
    × (is_blank task.current_stage ≡ false)
    × (find_row (λ (s : WorkflowStage). s.stage_name == or_empty task.current_stage)
          (stages_of workflow_id d)
        ≡ some s)

abbrev pub failed_world : ℕ → World → World
failed_world id w = record (later w) { db = update_tasks (is_task id) (failed (w.clock 0)) w.db }

-- What the engine does with what the runtime returned.
abbrev pub after_agent : Task → String → String → World → Result String → Result Bool × World
after_agent task workflow_id name w (ok output) =
    (ok true, entered task.task_id workflow_id (led_to workflow_id name (outcome_of output) w.db) w)
after_agent task workflow_id name w (err e) = (err e, failed_world task.task_id w)

module _ (host : Host) (rt : Runtime) (w : World) (quiet : w.faults ≡ []) where
  run_turn_at :
      (team : String) (task : Task) (workflow_id : String) (s : WorkflowStage)
      → IsAt task workflow_id s w.db
      → run_turn host rt team task w ≡ run_stage host rt team task workflow_id (some s) w
  unfolding run_turn stage_of get_workflow_stages pure
  run_turn_at team task workflow_id s (has, filled, at, there) =
      rw (has, filled, at)
        (bind_run _ _ w w (or_empty task.current_stage) refl
          ∙ bind_run _ _ w w _ (query_run w quiet _)
          ∙ ap (λ o. run_stage host rt team task workflow_id o w) there)

  -- While the driver fails nothing, a turn of a task at a stage of type "auto" of its workflow
  -- takes the transition of the outcome "done": the task goes to the stage it leads to, is done if
  -- that stage is terminal, and is left alone if there is no such transition.
  pub run_turn_auto :
      (team : String) (task : Task) (workflow_id : String) (s : WorkflowStage)
      → IsAt task workflow_id s w.db
      → s.stage_type ≡ "auto"
      → run_turn host rt team task w ≡ (
        ok true,
        entered task.task_id workflow_id (led_to workflow_id s.stage_name "done" w.db) w,
      )
  unfolding run_stage
  run_turn_auto team task workflow_id s there type =
      run_turn_at team task workflow_id s there
      ∙ rw type (advance_run w task.task_id workflow_id s.stage_name quiet)

  turn_request_run :
      (team : String) (task : Task)
      → (host.has_home && not (or_empty task.assignee == "")) ≡ false
      → turn_request host rt team task (or_empty task.assignee) w ≡ (ok (request team task w), w)
  unfolding turn_request list_allowed_domains pure
  turn_request_run team task plain =
      bind_run _ _ w w _ (attempt_run _ (or_zero []) w w _ (query_run w quiet _)) ∙ rw plain refl

  turn_returned_run :
      (w : World) (team : String) (task : Task) (workflow_id name output : String)
      → w.faults ≡ []
      → (host.has_home && not (or_empty task.assignee == "")) ≡ false
      → turn_returned host rt team task workflow_id name (or_empty task.assignee) output w ≡ (
        ok true,
        entered task.task_id workflow_id (led_to workflow_id name (outcome_of output) w.db) w,
      )
  unfolding turn_returned pure when
  turn_returned_run w team task workflow_id name output quiet plain =
      bind_run _ _ w w tt (rw plain refl)
      ∙ bind_run _ _ w w _ (transition_run w workflow_id name (outcome_of output) quiet)
      ∙ bind_run _ _ w _ tt (enter_run w task.task_id workflow_id _ quiet)

  -- While the driver fails nothing, a turn of a task at a stage of type "agent" of its workflow,
  -- for which no agent's config is loaded, hands the runtime the allowlist and the assignee that
  -- the task was read with. If the runtime returns, the task takes the transition of the outcome
  -- that the output stands for; if it fails, the task is failed, with one attempt more, and the
  -- error is returned.
  pub run_turn_agent :
      (team : String) (task : Task) (workflow_id : String) (s : WorkflowStage) (w' : World)
      (r : Result String)
      → IsAt task workflow_id s w.db
      → s.stage_type ≡ "agent"
      → (host.has_home && not (or_empty task.assignee == "")) ≡ false
      → rt (request team task w) w ≡ (r, w')
      → w'.faults ≡ []
      → run_turn host rt team task w ≡ after_agent task workflow_id s.stage_name w' r
  unfolding run_stage agent_turn fail
  run_turn_agent team task workflow_id s w' (ok output) there type plain turn quiet' =
      run_turn_at team task workflow_id s there
      ∙ rw type (
          bind_run _ _ w w _ (turn_request_run team task plain)
          ∙ attempt_run _ _ w w' _ turn
          ∙ turn_returned_run w' team task workflow_id s.stage_name output quiet' plain)
  run_turn_agent team task workflow_id s w' (err e) there type plain turn quiet' =
      run_turn_at team task workflow_id s there
      ∙ rw type (
          bind_run _ _ w w _ (turn_request_run team task plain)
          ∙ attempt_run _ _ w w' _ turn
          ∙ bind_run _ _ w' _ tt (ignore_run _ w' _ _ (set_task_failed_run w' quiet' task.task_id)))
