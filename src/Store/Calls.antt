-- ===== src/Store/Calls.antt =====
-- internal/store/iface.go: the methods of the Store interface that write, as data, and their runs
-- one after another. SeedDemo is left out: it makes its writes by these methods (Store/Demo.antt).
use agentary.Prelude.{ℕ, String, Option, List, [], ◌∷◌}
use agentary.Store.Model.{WorkflowStage, WorkflowTransition}
use agentary.Store.Teams.{create_team, delete_team, create_agent}
use agentary.Store.Workflows.{create_workflow, create_workflow_with_stages}
use agentary.Store.Tasks.{
  create_task, update_task, claim_task, set_task_failed, requeue_task, set_task_cancelled,
  clear_task_git_fields, update_task_git_fields, rewind_task, update_task_stage,
  set_task_workflow_and_stage,
}
use agentary.Store.TaskLinks.{add_task_dependency}
use agentary.Store.Records.{
  create_task_comment, add_task_attachment, remove_task_attachment, create_task_review, create_repo,
  set_repo_approval,
}
use agentary.Store.Network.{reset_allowlist, allow_domain, disallow_domain}
use agentary.Store.Messages.{create_message, mark_message_processed}
use agentary.Exec.{Exec, World, ignore}

pub data Call : Type 0 where
  create_team_call delete_team_call : String → Call
  create_agent_call : String → String → String → Call
  create_task_call : String → String → String → Option String → Call
  update_task_call : ℕ → String → Option String → Call
  claim_task_call : String → ℕ → String → Call
  set_task_failed_call : ℕ → Call
  requeue_task_call set_task_cancelled_call rewind_task_call : String → ℕ → Call
  clear_task_git_fields_call : ℕ → Call
  update_task_git_fields_call :
      ℕ → Option String → Option String → Option String → Option String → Call
  create_task_comment_call : String → ℕ → String → String → Call
  add_task_attachment_call remove_task_attachment_call : String → ℕ → String → Call
  add_task_dependency_call : String → ℕ → ℕ → Call
  update_task_stage_call : ℕ → String → Call
  set_task_workflow_and_stage_call : ℕ → String → String → Call
  create_task_review_call : String → ℕ → String → String → String → Call
  create_repo_call : String → String → String → String → Option String → Call
  set_repo_approval_call : String → String → String → Call
  create_workflow_call : String → String → ℕ → String → Call
  create_workflow_with_stages_call :
      String → String → ℕ → String → List WorkflowStage → List WorkflowTransition → Call
  reset_allowlist_call : Call
  allow_domain_call disallow_domain_call : String → Call
  create_message_call : String → String → String → String → Call
  mark_message_processed_call : ℕ → Call

-- The call, its result dropped.
unfoldable pub run_call : Call → Exec Unit
run_call (create_team_call name) = ignore (create_team name)
run_call (delete_team_call name) = ignore (delete_team name)
run_call (create_agent_call team name role) = ignore (create_agent team name role)
run_call (create_task_call team title status workflow_id) =
    ignore (create_task team title status workflow_id)
run_call (update_task_call id status assignee) = ignore (update_task id status assignee)
run_call (claim_task_call team id assignee) = ignore (claim_task team id assignee)
run_call (set_task_failed_call id) = ignore (set_task_failed id)
run_call (requeue_task_call team id) = ignore (requeue_task team id)
run_call (set_task_cancelled_call team id) = ignore (set_task_cancelled team id)
run_call (rewind_task_call team id) = ignore (rewind_task team id)
run_call (clear_task_git_fields_call id) = ignore (clear_task_git_fields id)
run_call (update_task_git_fields_call id path branch sha repo) =
    ignore (update_task_git_fields id path branch sha repo)
run_call (create_task_comment_call team id author body) =
    ignore (create_task_comment team id author body)
run_call (add_task_attachment_call team id path) = ignore (add_task_attachment team id path)
run_call (remove_task_attachment_call team id path) = ignore (remove_task_attachment team id path)
run_call (add_task_dependency_call team id on) = ignore (add_task_dependency team id on)
run_call (update_task_stage_call id stage) = ignore (update_task_stage id stage)
run_call (set_task_workflow_and_stage_call id wf stage) =
    ignore (set_task_workflow_and_stage id wf stage)
run_call (create_task_review_call team id reviewer outcome comments) =
    ignore (create_task_review team id reviewer outcome comments)
run_call (create_repo_call team name source approval test_cmd) =
    ignore (create_repo team name source approval test_cmd)
run_call (set_repo_approval_call team name approval) = ignore (set_repo_approval team name approval)
run_call (create_workflow_call team name version path) =
    ignore (create_workflow team name version path)
run_call (create_workflow_with_stages_call team name version path stages transitions) =
    ignore (create_workflow_with_stages team name version path stages transitions)
run_call reset_allowlist_call = ignore reset_allowlist
run_call (allow_domain_call domain) = ignore (allow_domain domain)
run_call (disallow_domain_call domain) = ignore (disallow_domain domain)
run_call (create_message_call team sender recipient content) =
    ignore (create_message team sender recipient content)
run_call (mark_message_processed_call id) = ignore (mark_message_processed id)

-- Any interleaving of calls, in the order in which the database serves them.
unfoldable pub run_calls : List Call → World → World
run_calls [] w = w
run_calls (c ∷ cs) w = run_calls cs (run_call c w).1
