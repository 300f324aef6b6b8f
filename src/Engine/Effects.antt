-- ===== src/Engine/Effects.antt =====
-- What a turn of the engine leaves of the row of the task, while the driver fails nothing.
use agentary.Prelude.{
  ℕ, String, none, some, Bool, true, false, not, ◌&&◌, ◌≡◌, refl, ap, ◌∙◌, [], if◌then◌else◌, ◌==◌,
  find_row, or_empty, trim_space,
}
use agentary.Store.Model.{Task, TaskRow, WorkflowStage}
use agentary.Store.TaskRuns.{find_updated}
use agentary.Store.Workflows.{stages_of, transitions_of}
use agentary.Store.Tasks.{is_task, staged, assign}
use agentary.Host.{Host, Runtime}
use agentary.Engine.{next_stage, run_turn}
use agentary.Engine.Moves.{
  Leads, IsEnd, StandsFor, IsMoved, next_stage-Leads, is_terminal_in-IsEnd, outcome_of-StandsFor,
}
use agentary.Engine.Turn.{
  IsAt, request, entered, staged_world, done_world, run_turn_agent, run_turn_auto,
}
use agentary.Exec.{World, Result, ok}

-- The row with which the task is found at a stage, and done.
pub staged_row :
    (id : ℕ) (to : String) (w : World) (r : TaskRow)
    → find_row (is_task id) w.db.tasks ≡ some r
    → find_row (is_task id) (staged_world id to w).db.tasks
      ≡ some (record r { task = staged to (w.clock 0) r.task })
unfolding staged
staged_row id to w r row = find_updated id (staged to (w.clock 0)) w.db r (λ t. refl) row

pub done_row :
    (id : ℕ) (w : World) (r : TaskRow)
    → find_row (is_task id) w.db.tasks ≡ some r
    → find_row (is_task id) (done_world id w).db.tasks
      ≡ some (record r { task = assign "done" none (w.clock 0) r.task })
unfolding assign
done_row id w r row = find_updated id (assign "done" none (w.clock 0)) w.db r (λ t. refl) row

-- The row after a move, by what the tests of the code say.
pub entered-IsMoved :
    (id : ℕ) (workflow_id to : String) (b : Bool) (w : World) (r : TaskRow)
    → find_row (is_task id) w.db.tasks ≡ some r
    → IsEnd b to (stages_of workflow_id w.db)
    → (u : TaskRow) × (find_row (is_task id) (entered id workflow_id to w).db.tasks ≡ some u)
      × IsMoved to b r u
unfolding IsMoved staged assign
entered-IsMoved id workflow_id to b w r row end =
    rw (is_terminal_in-IsEnd b to (stages_of workflow_id w.db) end) (by_tests (to == "") b)
  where
    by_tests :
        (e b : Bool)
        → (u : TaskRow) × (find_row
              (is_task id)
              (if e
                then w
                else if b
                then done_world id (staged_world id to w)
                else staged_world id to w).db.tasks
            ≡ some u)
          × ((u.current_stage ≡ (if e then r.current_stage else some to))
              × (u.status ≡ (if not e && b then "done" else r.status))
              × (u.assignee ≡ (if not e && b then none else r.assignee))
              × (u.attempt_count ≡ r.attempt_count))
    by_tests true b = (r, row, (refl, refl, refl, refl))
    by_tests false true = (
      _,
      done_row id (staged_world id to w) _ (staged_row id to w r row),
      (refl, refl, refl, refl),
    )
    by_tests false false = (_, staged_row id to w r row, (refl, refl, refl, refl))

after_move :
    (id : ℕ) (workflow_id to : String) (b : Bool) (w : World) (r : TaskRow)
    (x : Result Bool × World)
    → x ≡ (ok true, entered id workflow_id to w)
    → find_row (is_task id) w.db.tasks ≡ some r
    → IsEnd b to (stages_of workflow_id w.db)
    → (x.0 ≡ ok true)
      × (u : TaskRow) × (find_row (is_task id) x.1.db.tasks ≡ some u)
      × IsMoved to b r u
after_move id workflow_id to b w r x run row end =
    let (u, found, moved) = entered-IsMoved id workflow_id to b w r row end in
    (ap (λ x. x.0) run, u, ap (λ x. find_row (is_task id) x.1.db.tasks) run ∙ found, moved)

module _ (host : Host) (rt : Runtime) (w : World) (quiet : w.faults ≡ []) where
  -- A turn of a task at a stage of type "auto" of its workflow, while the driver fails nothing and
  -- the task has a row: the row goes to the stage that the workflow gives for the outcome "done",
  -- and is done without assignee if that stage ends the task, and otherwise keeps its status and
  -- assignee; if the workflow gives no stage, it keeps its stage, status and assignee. The number
  -- of attempts stays.
  pub auto_turn-IsMoved :
      (team : String) (task : Task) (workflow_id : String) (s : WorkflowStage) (r : TaskRow)
      (to : String) (b : Bool)
      → IsAt task workflow_id s w.db
      → s.stage_type ≡ "auto"
      → find_row (is_task task.task_id) w.db.tasks ≡ some r
      → Leads s.stage_name "done" to (transitions_of workflow_id w.db)
      → IsEnd b to (stages_of workflow_id w.db)
      → let (result, w') = run_turn host rt team task w in
        (result ≡ ok true)
        × (u : TaskRow) × (find_row (is_task task.task_id) w'.db.tasks ≡ some u)
        × IsMoved to b r u
  auto_turn-IsMoved team task workflow_id s r to b at type row leads end =
      let run =
        run_turn_auto host rt w quiet team task workflow_id s at type
        ∙ ap (λ next. (ok true, entered task.task_id workflow_id next w))
            (next_stage-Leads s.stage_name "done" to (transitions_of workflow_id w.db) leads) in
      after_move task.task_id workflow_id to b w r _ run row end

  -- A turn of a task at a stage of type "agent" of its workflow, for which no agent's config is
  -- loaded, while the driver fails nothing and the runtime, given the allowlist, the title and the
  -- assignee that the task was read with, returns an output and leaves the task a row: the row goes
  -- to the stage that the workflow gives for the outcome that the output without surrounding spaces
  -- stands for, and is done without assignee if that stage ends the task, and otherwise keeps its
  -- status and assignee; if the workflow gives no stage, it keeps its stage, status and assignee.
  -- The number of attempts stays.
  pub agent_turn-IsMoved :
      (team : String) (task : Task) (workflow_id : String) (s : WorkflowStage) (w' : World)
      (output outcome : String) (r : TaskRow) (to : String) (b : Bool)
      → IsAt task workflow_id s w.db
      → s.stage_type ≡ "agent"
      → (host.has_home && not (or_empty task.assignee == "")) ≡ false
      → rt (request team task w) w ≡ (ok output, w')
      → w'.faults ≡ []
      → find_row (is_task task.task_id) w'.db.tasks ≡ some r
      → StandsFor outcome (trim_space output)
      → Leads s.stage_name outcome to (transitions_of workflow_id w'.db)
      → IsEnd b to (stages_of workflow_id w'.db)
      → let (result, w'') = run_turn host rt team task w in
        (result ≡ ok true)
        × (u : TaskRow) × (find_row (is_task task.task_id) w''.db.tasks ≡ some u)
        × IsMoved to b r u
  agent_turn-IsMoved team task workflow_id s w' output outcome r to b at type plain turn quiet' row
        stands leads end =
      let run =
        run_turn_agent host rt w quiet team task workflow_id s w' (ok output) at type plain turn
          quiet'
        ∙ ap
            (λ o. (
              ok true,
              entered task.task_id workflow_id
                  (next_stage s.stage_name o (transitions_of workflow_id w'.db)) w',
            ))
            (outcome_of-StandsFor outcome output stands)
        ∙ ap (λ next. (ok true, entered task.task_id workflow_id next w'))
            (next_stage-Leads s.stage_name outcome to (transitions_of workflow_id w'.db) leads) in
      after_move task.task_id workflow_id to b w' r _ run row end
