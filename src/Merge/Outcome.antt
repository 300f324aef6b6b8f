-- ===== src/Merge/Outcome.antt =====
-- What the merge worker does to a task when git and the tests succeed.
use agentary.Prelude.{
  ℕ, String, none, some, Bool, true, false, not, ◌&&◌, ◌||◌, ◌≡◌, refl, ap, ◌∙◌, List, [],
  if◌then◌else◌, ◌==◌, find_row, or_empty, inl, inr, Option-cases,
}
use agentary.Store.Model.{Task, TaskRow, Repo}
use agentary.Store.TaskRuns.{set_workflow_and_stage_run, later, update_task_run, find_updated}
use agentary.Store.Tasks.{
  is_task, update_tasks, assign, in_workflow, with_git, clear_task_git_fields,
}
use agentary.Store.Records.{list_repos}
use agentary.Host.{Host}
use agentary.Git.{rebase_onto_main}
use agentary.Engine.{or_zero, repo_for, test_cmd_of}
use agentary.Engine.Turn.{done_world}
use agentary.Git.Success.{
  Succeeds, rebase_succeeds, merge_succeeds, tests_succeed, delete_succeeds, skip_run,
}
use agentary.Merge.{
  or_fail, rebase_step, test_step, merge_step, finish_task, and_then, process_task,
}
use agentary.Store.Claims.{named}
use agentary.Store.Teams.{get_team_by_name}
use agentary.Store.TaskRuns.{get_team_run}
use agentary.Exec.{found, team_not_found, World, ok, err, Exec, pure, now, attempt}
use agentary.Exec.Run.{bind_run, bind_err, attempt_run, ignore_run, execute_run, query_run}

-- The writes of a task that is merged: the stage "Done", the status "done" and no git fields.
abbrev done_stage : Task → World → World
done_stage task w = record (later w) {
  db =
      update_tasks (is_task task.task_id)
        (in_workflow (some (or_empty task.workflow_id)) "Done" (w.clock 0)) w.db;
}

abbrev without_git : ℕ → World → World
without_git id w = record (later w) {
  db = update_tasks (is_task id) (with_git none none none none (w.clock 0)) w.db;
}

abbrev finished : Task → World → World
finished task w = without_git task.task_id (done_world task.task_id (done_stage task w))

clear_run :
    (w : World) (id : ℕ) → w.faults ≡ [] → clear_task_git_fields id w ≡ (ok tt, without_git id w)
unfolding clear_task_git_fields now
clear_run w id quiet = bind_run _ _ w (later w) (w.clock 0) refl ∙ execute_run (later w) quiet _

module _ (host : Host) (rebase : Bool) where
  or_fail_ok :
      (id : ℕ) (m : Exec Unit) (w : World)
      → m w ≡ (ok tt, w)
      → or_fail host rebase id m w ≡ (ok true, w)
  unfolding or_fail pure
  or_fail_ok id m w e = attempt_run _ _ w w (ok tt) e

  go_on :
      (m : Exec Bool) (k : Exec Unit) (w : World)
      → m w ≡ (ok true, w)
      → and_then host rebase m k w ≡ k w
  go_on m k w e = bind_run _ _ w w true e

  pass_run :
      (b : Bool) (m : Exec Bool) (w : World)
      → m w ≡ (ok true, w)
      → (if b then pure true else m) w ≡ (ok true, w)
  unfolding pure
  pass_run true m w e = refl
  pass_run false m w e = e

module _ (host : Host) (rebase : Bool) (good : Succeeds host) where
  rebase_step_ok : (task : Task) (w : World) → rebase_step host rebase task w ≡ (ok true, w)
  unfolding rebase_step pure
  rebase_step_ok task w =
      go
        (not (or_empty task.worktree_path == "") && not (or_empty task.branch_name == "") && rebase)
    where
      go :
          (b : Bool)
          → (if b
                then or_fail host rebase task.task_id (
                    rebase_onto_main host (or_empty task.worktree_path) (or_empty task.branch_name))
                else pure true)
              w
            ≡ (ok true, w)
      go true = or_fail_ok host rebase _ _ w (rebase_succeeds host good _ _ w)
      go false = refl

  test_step_ok :
      (team : String) (task : Task) (w : World) (repos : List Repo)
      → attempt (list_repos team) (or_zero []) w ≡ (ok repos, w)
      → test_step host rebase team task w ≡ (ok true, w)
  unfolding test_step
  test_step_ok team task w repos read =
      pass_run host rebase (or_empty task.worktree_path == "") _ w (
        bind_run _ _ w w repos read
        ∙ pass_run host rebase (test_cmd_of (repo_for task.repo_name repos) == "") _ w
            (or_fail_ok host rebase _ _ w (tests_succeed host good _ _ w)))

  merge_step_ok : (task : Task) (w : World) → merge_step host rebase task w ≡ (ok true, w)
  unfolding merge_step
  merge_step_ok task w =
      pass_run host rebase (or_empty task.worktree_path == "" || or_empty task.branch_name == "") _
        w (or_fail_ok host rebase _ _ w (merge_succeeds host good _ _ w))

  finish_task_run :
      (task : Task) (w : World)
      → w.faults ≡ []
      → finish_task host rebase task w ≡ (ok tt, finished task w)
  unfolding finish_task
  finish_task_run task w quiet =
      bind_run _ _ w _ tt (ignore_run _ w _ _ (set_workflow_and_stage_run w task.task_id _ _ quiet))
      ∙ bind_run _ _ _ _ tt
          (ignore_run _ _ _ _ (update_task_run (done_stage task w) quiet task.task_id "done" none))
      ∙ bind_run _ _ _ _ tt (
          ignore_run _ _ _ _
            (clear_run (done_world task.task_id (done_stage task w)) task.task_id quiet))
      ∙ skip_run (or_empty task.worktree_path == "") _ (finished task w)
          (ignore_run _ _ _ _ (delete_succeeds host good _ (finished task w)))

no_team_run :
    (w : World) (name : String)
    → w.faults ≡ []
    → named name w.db ≡ none
    → get_team_by_name name w ≡ (err (team_not_found name), w)
unfolding get_team_by_name found
no_team_run w name quiet e = bind_run _ _ w w _ (query_run w quiet _) ∙ rw e refl

pub repos_read :
    (w : World) (name : String)
    → w.faults ≡ []
    → (repos : List Repo) × (attempt (list_repos name) (or_zero []) w ≡ (ok repos, w))
unfolding list_repos pure
repos_read w name quiet = elim (Option-cases (named name w.db)) [
  | inl n ↦ ([], attempt_run _ (or_zero []) w w _ (bind_err _ _ w w _ (no_team_run w name quiet n)))
  | inr (t, e) ↦ (
    _,
    attempt_run _ (or_zero []) w w _
        (bind_run _ _ w w t (get_team_run w quiet name t e) ∙ query_run w quiet _),
  )
]

process_task_run :
    (host : Host) (rebase : Bool) (w : World) (team : String) (task : Task)
    → Succeeds host
    → w.faults ≡ []
    → (or_empty task.workflow_id == "") ≡ false
    → process_task host rebase team task w ≡ (ok tt, finished task w)
unfolding process_task
process_task_run host rebase w team task good quiet has =
    let (repos, read) = repos_read w team quiet in
    rw has (
      go_on host rebase _ _ w (rebase_step_ok host rebase good task w)
      ∙ go_on host rebase _ _ w (test_step_ok host rebase good team task w repos read)
      ∙ go_on host rebase _ _ w (merge_step_ok host rebase good task w)
      ∙ finish_task_run host rebase good task w quiet)

-- Of a task with a workflow, while git, the tests and the driver fail nothing and the programs do
-- not touch the store, the merge worker makes a task that is "done" at the stage "Done", without
-- assignee or worktree and with as many attempts as before, whatever its status was: one that was
-- cancelled or has failed is merged like any other.
pub process_task-done :
    (host : Host) (rebase : Bool) (w : World) (team : String) (task : Task) (r : TaskRow)
    → Succeeds host
    → w.faults ≡ []
    → (or_empty task.workflow_id == "") ≡ false
    → find_row (is_task task.task_id) w.db.tasks ≡ some r
    → (u : TaskRow) × (find_row
          (is_task task.task_id)
          (process_task host rebase team task w).1.db.tasks
        ≡ some u)
      × (u.status ≡ "done")
      × (u.current_stage ≡ some "Done")
      × (u.assignee ≡ none)
      × (u.worktree_path ≡ none)
      × (u.attempt_count ≡ r.attempt_count)
unfolding in_workflow assign with_git
process_task-done host rebase w team task r good quiet has row =
    let id = task.task_id in
    let w1 = done_stage task w in
    let w2 = done_world id w1 in
    (
      _,
      ap (λ x. find_row (is_task id) x.1.db.tasks)
            (process_task_run host rebase w team task good quiet has)
          ∙ find_updated id (with_git none none none none (w2.clock 0)) w2.db _ (λ t. refl)
              (find_updated id (assign "done" none (w1.clock 0)) w1.db _ (λ t. refl)
                (find_updated id (in_workflow (some (or_empty task.workflow_id)) "Done" (w.clock 0))
                  w.db r (λ t. refl) row)),
      refl,
      refl,
      refl,
      refl,
      refl,
    )
