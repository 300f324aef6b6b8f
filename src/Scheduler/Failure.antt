-- ===== src/Scheduler/Failure.antt =====
-- What is written when the turn of a claimed task fails.
use agentary.Prelude.{
  ◌+◌, String, none, some, true, false, not, ◌&&◌, ◌≡◌, refl, ap, ◌∙◌, arith, [], ◌∷◌, ◌++◌, ◌==◌,
  find_row, or_empty,
}
use agentary.Store.Model.{TaskRow, WorkflowStage}
use agentary.Store.TaskRuns.{set_task_failed_run, find_updated}
use agentary.Store.Tasks.{failed, is_task}
use agentary.Host.{Host, Runtime}
use agentary.Engine.Turn.{IsAt, request, failed_world, run_turn_agent}
use agentary.Scheduler.{Job, claimed_turn, after_turn, turn_failed}
use agentary.Exec.{World, task_update, agent_activity, ok, err, Error, publish}
use agentary.Exec.Run.{bind_run, attempt_run, ignore_run}

-- The world after publishTaskUpdate of the claim.
abbrev pub announced : Job → World → World
announced job w = record w {
  published =
      w.published
      ++ task_update job.team job.task.task_id (some "in_progress") (some job.agent) none ∷ [];
}

turn_failed_run :
    (w : World) (job : Job) (e : Error)
    → w.faults ≡ []
    → turn_failed job e w ≡ (
      ok tt,
      record (failed_world job.task.task_id w) {
        published =
            (w.published ++ agent_activity job.team job.agent job.task.task_id e ∷ [])
            ++ task_update job.team job.task.task_id (some "failed") none none ∷ [];
      },
    )
unfolding turn_failed publish
turn_failed_run w job e quiet =
    bind_run _ _ w _ tt (ignore_run _ w _ _ (set_task_failed_run w quiet job.task.task_id))
    ∙ bind_run _ _ (failed_world job.task.task_id w) _ tt refl

-- A failed turn of a claimed task is counted twice: the engine and the scheduler both call
-- SetTaskFailed. For a task at a stage of type "agent", for which no agent's config is loaded and
-- whose turn the runtime ends with an error, while the driver fails nothing, the row of the task is
-- "failed" and has two attempts more than when the runtime returned.
pub failed_turn_counts_twice :
    (host : Host) (rt : Runtime) (w w' : World) (job : Job) (workflow_id : String)
    (s : WorkflowStage) (e : Error) (r : TaskRow)
    → w.faults ≡ []
    → w'.faults ≡ []
    → IsAt job.task workflow_id s w.db
    → s.stage_type ≡ "agent"
    → (host.has_home && not (or_empty job.task.assignee == "")) ≡ false
    → rt (request job.team job.task w) (announced job w) ≡ (err e, w')
    → find_row (is_task job.task.task_id) w'.db.tasks ≡ some r
    → (u : TaskRow) × (find_row
          (is_task job.task.task_id)
          (claimed_turn host rt job (ok true) w).1.db.tasks
        ≡ some u)
      × (u.attempt_count ≡ r.attempt_count + 2)
      × (u.status ≡ "failed")
unfolding claimed_turn after_turn publish failed
failed_turn_counts_twice host rt w w' job workflow_id s e r quiet quiet' there type plain turn row =
    let id = job.task.task_id in
    let mid = failed_world id w' in
    let run =
      bind_run _ _ w (announced job w) tt refl
      ∙ attempt_run _ (after_turn host rt job) (announced job w) mid (err e) (
          run_turn_agent host rt (announced job w) quiet job.team job.task workflow_id s w' (err e)
            there type plain turn quiet')
      ∙ turn_failed_run mid job e quiet' in
    (
      _,
      ap (λ x. find_row (is_task id) x.1.db.tasks) run
          ∙ find_updated id (failed (mid.clock 0)) mid.db _ (λ t. refl)
              (find_updated id (failed (w'.clock 0)) w'.db r (λ t. refl) row),
      omega arith,
      refl,
    )
