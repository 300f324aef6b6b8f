-- ===== src/Store/TaskRuns.antt =====
-- What the statements on `tasks` do while the driver fails none.
use agentary.Prelude.{
  ℕ, suc, String, Option, some, ◌≡◌, ◌∙◌, refl, [], eqb, find_row, count_rows, ltb,
  find_row-update_rows, ap,
}
use agentary.Store.Model.{Team, Task, TaskRow, Db}
use agentary.Store.Claims.{named}
use agentary.Store.Teams.{get_team_by_name}
use agentary.Store.Tasks.{
  set_task_workflow_and_stage, in_workflow, claim_task, claimable, claimed, update_task, assign,
  update_tasks, is_task, set_task_failed, failed,
}
use agentary.Exec.{World, ok, now, ◌>>=◌}
use agentary.Exec.Run.{bind_run, execute_run}

-- The world after a reading of the clock.
abbrev pub later : World → World
later w = record w { clock = λ k. w.clock (suc k) }

module _ (w : World) (quiet : w.faults ≡ []) where
  pub get_team_run :
      (name : String) (t : Team) → named name w.db ≡ some t → get_team_by_name name w ≡ (ok t, w)
  unfolding get_team_by_name ◌>>=◌
  get_team_run name t e = rw quiet (rw e)

  pub claim_task_run :
      (name : String) (id : ℕ) (assignee : String) (t : Team)
      → named name w.db ≡ some t
      → claim_task name id assignee w ≡ (
        ok (ltb 0 (count_rows (claimable t.team_id id) w.db.tasks)),
        record (later w) {
          db = update_tasks (claimable t.team_id id) (claimed assignee (w.clock 0)) w.db;
        },
      )
  unfolding claim_task ◌>>=◌
  claim_task_run name id assignee t e = rw (get_team_run name t e) (rw quiet)

  pub update_task_run :
      (id : ℕ) (status : String) (assignee : Option String)
      → update_task id status assignee w ≡ (
        ok tt,
        record (later w) {
          db = update_tasks (is_task id) (assign status assignee (w.clock 0)) w.db;
        },
      )
  unfolding update_task ◌>>=◌
  update_task_run id status assignee = rw quiet

  pub set_task_failed_run :
      (id : ℕ)
      → set_task_failed id w
        ≡ (ok tt, record (later w) { db = update_tasks (is_task id) (failed (w.clock 0)) w.db })
  unfolding set_task_failed ◌>>=◌
  set_task_failed_run id = rw quiet

-- An UPDATE of the row that a search by number finds.
pub find_updated :
    (id : ℕ) (f : Task → Task) (d : Db) (r : TaskRow)
    → ((t : Task) → (f t).task_id ≡ t.task_id)
    → find_row (is_task id) d.tasks ≡ some r
    → find_row (is_task id) (update_tasks (is_task id) f d).tasks
      ≡ some (record r { task = f r.task })
find_updated id f d r k h =
    find_row-update_rows (is_task id) (λ r. record r { task = f r.task }) d.tasks r
      (λ s. ap (λ n. eqb n id) (k s.task)) h

pub set_workflow_and_stage_run :
    (w : World) (id : ℕ) (workflow_id stage : String)
    → w.faults ≡ []
    → set_task_workflow_and_stage id workflow_id stage w ≡ (
      ok tt,
      record (later w) {
        db = update_tasks (is_task id) (in_workflow (some workflow_id) stage (w.clock 0)) w.db;
      },
    )
unfolding set_task_workflow_and_stage now
set_workflow_and_stage_run w id workflow_id stage quiet =
    bind_run _ _ w (later w) (w.clock 0) refl ∙ execute_run (later w) quiet _
