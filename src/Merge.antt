-- ===== src/Merge.antt =====
-- internal/merge/worker.go: one round of the merge worker.
pub mod Outcome
pub mod Failure
use agentary.Prelude.{
  ℕ, String, Option, none, some, Bool, true, false, not, ◌&&◌, ◌||◌, List, [], ◌∷◌, if◌then◌else◌,
  ◌==◌, is_blank, or_empty,
}
use agentary.Store.Model.{Task}
use agentary.Store.Teams.{TeamSummary, list_teams}
use agentary.Store.Tasks.{
  update_task, set_task_failed, clear_task_git_fields, set_task_workflow_and_stage,
}
use agentary.Store.TaskLists.{list_tasks_in_stage}
use agentary.Store.Records.{list_repos}
use agentary.Host.{Host}
use agentary.Git.{rebase_onto_main, run_test_cmd, merge_in_worktree, delete_worktree}
use agentary.Engine.{or_zero, repo_for, test_cmd_of}
use agentary.Exec.{Exec, Result, ok, err, pure, ◌>>=◌, ◌>>◌, attempt, ignore}

module _ (host : Host) (rebase_before_merge : Bool) where
  -- A step that fails the task if it fails; whether the worker goes on.
  unfoldable pub or_fail : ℕ → Exec Unit → Exec Bool
  or_fail id m =
      attempt m
        λ r. elim r [ ok u ↦ pure true | err e ↦ do ignore (set_task_failed id); pure false ]

  unfoldable pub rebase_step : Task → Exec Bool
  unfolding or_fail
  rebase_step task =
      let worktree = or_empty task.worktree_path in
      let branch = or_empty task.branch_name in
      if not (worktree == "") && not (branch == "") && rebase_before_merge
      then or_fail task.task_id (rebase_onto_main host worktree branch)
      else pure true

  unfoldable pub test_step : String → Task → Exec Bool
  unfolding or_fail
  test_step team task =
      let worktree = or_empty task.worktree_path in
      if worktree == "" then pure true else do
        repos ← attempt (list_repos team) (or_zero [])
        let cmd = test_cmd_of (repo_for task.repo_name repos)
        if cmd == "" then pure true else or_fail task.task_id (run_test_cmd host worktree cmd)

  unfoldable pub merge_step : Task → Exec Bool
  unfolding or_fail
  merge_step task =
      let worktree = or_empty task.worktree_path in
      let branch = or_empty task.branch_name in
      if worktree == "" || branch == ""
      then pure true
      else or_fail task.task_id (merge_in_worktree host worktree branch)

  -- The end of processTask: stage, status, git fields and worktree.
  unfoldable pub finish_task : Task → Exec Unit
  finish_task task = do
    ignore (set_task_workflow_and_stage task.task_id (or_empty task.workflow_id) "Done")
    ignore (update_task task.task_id "done" none)
    ignore (clear_task_git_fields task.task_id)
    if or_empty task.worktree_path == ""
        then pure tt
        else ignore (delete_worktree host (or_empty task.worktree_path))

  abbrev pub and_then : Exec Bool → Exec Unit → Exec Unit
  and_then m k = do go ← m; if go then k else pure tt

  -- processTask
  unfoldable pub process_task : String → Task → Exec Unit
  unfolding rebase_step test_step merge_step finish_task
  process_task team task =
      if or_empty task.workflow_id == ""
      then pure tt
      else and_then (rebase_step task)
          (and_then (test_step team task) (and_then (merge_step task) (finish_task task)))

  unfoldable pub process_tasks : String → List Task → Exec Unit
  process_tasks team [] = pure tt
  process_tasks team (task ∷ rest) = do process_task team task; process_tasks team rest

  unfoldable pub process_teams : List TeamSummary → Exec Unit
  unfolding process_tasks
  process_teams [] = pure tt
  process_teams (t ∷ rest) = do
    tasks ← attempt (list_tasks_in_stage t.team.name "Merging" 20) (or_zero [])
    process_tasks t.team.name tasks
    process_teams rest

  -- runOnce
  unfoldable pub run_once : Exec Unit
  unfolding process_teams
  run_once = do teams ← attempt list_teams (or_zero []); process_teams teams
