-- ===== src/Store/TaskInvariant.antt =====
-- Invariants of the table `tasks` under every method of the Store that writes.
pub mod Run
use agentary.Prelude.{
  ℕ, suc, ◌+◌, ◌≤◌, ◌<◌, String, Option, none, some, Bool, true, false, ◌≡◌, refl, arith, List, [],
  ◌∷◌, ◌++◌, if◌then◌else◌, update_rows, delete_rows, ◌==◌, is_blank, any, ◌||◌, ◌&&◌, either,
}
use agentary.Store.Model.{
  Team, AgentRow, Task, TaskRow, TaskDependency, RepoRow, WorkflowRow, WorkflowStage,
  WorkflowTransition, Db,
}
use agentary.Store.Teams.{
  get_team_by_name, create_team, insert_team, delete_team, delete_team_row, create_agent,
  insert_agent,
}
use agentary.Store.Evolves.{Evolves}
use agentary.Store.Workflows.{
  insert_stage, insert_transition, insert_stages, insert_transitions, insert_workflow,
  get_workflow_initial_stage, create_workflow, create_workflow_with_stages,
}
use agentary.Store.Tasks.{
  update_tasks, create_task, insert_task, set_stage, update_task, claim_task, claim_row, claimed,
  set_task_failed, requeue_task, set_task_cancelled, clear_task_git_fields, update_task_git_fields,
  rewind_task, get_task_by_id_and_team, update_task_stage, set_task_workflow_and_stage,
}
use agentary.Store.TaskLinks.{add_task_dependency, insert_dependency}
use agentary.Store.Calls.{
  Call, run_call, run_calls, create_team_call, delete_team_call, create_agent_call,
  create_task_call, update_task_call, claim_task_call, set_task_failed_call, requeue_task_call,
  set_task_cancelled_call, rewind_task_call, clear_task_git_fields_call,
  update_task_git_fields_call, create_task_comment_call, add_task_attachment_call,
  remove_task_attachment_call, add_task_dependency_call, update_task_stage_call,
  set_task_workflow_and_stage_call, create_task_review_call, create_repo_call,
  set_repo_approval_call, create_workflow_call, create_workflow_with_stages_call,
  reset_allowlist_call, allow_domain_call, disallow_domain_call, create_message_call,
  mark_message_processed_call,
}
use agentary.Store.Network.{on_allowlist, reset_allowlist, allow_domain, disallow_domain}
use agentary.Store.Records.{
  insert_comment, insert_attachment, insert_review, insert_repo, approve_row,
}
use agentary.Store.Messages.{insert_message}
use agentary.Exec.{Exec, World, Result, ok, err, sql, query, execute, now, ◌>>=◌, ◌>>◌, pure}
use agentary.Exec.Keeps.{Keeps, Keeps-sql, Keeps-execute, Keeps-bind, Keeps-ignore, keeps_rules}

-- A property of the rows of `tasks` and of the next number that the statements on the table keep.
pub record TaskInvariant {ℓ} (P : List TaskRow → ℕ → Type ℓ) : Type ℓ where
  pub updated :
      (p : TaskRow → Bool) (f : Task → Task) (rows : List TaskRow) (n : ℕ)
      → ((t : Task) → Evolves t (f t))
      → P rows n
      → P (update_rows p (λ r. record r { task = f r.task }) rows) n
  pub deleted :
      (p : TaskRow → Bool) (rows : List TaskRow) (n : ℕ) → P rows n → P (delete_rows p rows) n
  pub inserted :
      (r : TaskRow) (rows : List TaskRow) → P rows r.task_id → P (rows ++ r ∷ []) (suc r.task_id)

-- The property, of a database.
abbrev pub On {ℓ} : (List TaskRow → ℕ → Type ℓ) → Db → Type ℓ
On P d = P d.tasks d.next_task

-- A statement that leaves `tasks` alone.
abbrev pub Frame : {A : Type 0} → (Db → Result A × Db) → Type 0
Frame f = (d : Db) → ((f d).1.tasks ≡ d.tasks) × ((f d).1.next_task ≡ d.next_task)

pub insert_team-Frame : (t : Team) → Frame (insert_team t)
unfolding insert_team
insert_team-Frame t d = ground arith

pub insert_agent-Frame : (r : AgentRow) → Frame (insert_agent r)
unfolding insert_agent
insert_agent-Frame r d = ground arith

pub insert_stage-Frame : (s : WorkflowStage) → Frame (insert_stage s)
unfolding insert_stage
insert_stage-Frame s d = ground arith

pub insert_transition-Frame : (t : WorkflowTransition) → Frame (insert_transition t)
unfolding insert_transition
insert_transition-Frame t d = ground arith

pub insert_workflow-Frame : (r : WorkflowRow) → Frame (insert_workflow r)
unfolding insert_workflow
insert_workflow-Frame r d = ground arith

pub insert_dependency-Frame : (fk : Bool) (r : TaskDependency) → Frame (insert_dependency fk r)
unfolding insert_dependency
insert_dependency-Frame fk r d = ground arith

pub insert_comment-Frame :
    (fk : Bool) (id : ℕ) (team author body : String) (at : ℕ)
    → Frame (insert_comment fk id team author body at)
unfolding insert_comment
insert_comment-Frame fk id team author body at d = ground arith

pub insert_attachment-Frame :
    (fk : Bool) (id : ℕ) (team path : String) (at : ℕ)
    → Frame (insert_attachment fk id team path at)
unfolding insert_attachment
insert_attachment-Frame fk id team path at d = ground arith

pub insert_review-Frame :
    (fk : Bool) (id : ℕ) (team reviewer outcome comments : String) (at : ℕ)
    → Frame (insert_review fk id team reviewer outcome comments at)
unfolding insert_review
insert_review-Frame fk id team reviewer outcome comments at d = ground arith

pub insert_repo-Frame : (r : RepoRow) → Frame (insert_repo r)
unfolding insert_repo
insert_repo-Frame r d = ground arith

pub approve_row-Frame : (team name approval : String) → Frame (approve_row team name approval)
unfolding approve_row
approve_row-Frame team name approval d = (refl, refl)

pub insert_message-Frame :
    (team sender recipient content : String) (at : ℕ)
    → Frame (insert_message team sender recipient content at)
unfolding insert_message
insert_message-Frame team sender recipient content at d = (refl, refl)

pub ruleset frames = (
  insert_team-Frame, insert_agent-Frame, insert_stage-Frame, insert_transition-Frame,
  insert_workflow-Frame, insert_dependency-Frame, insert_comment-Frame, insert_attachment-Frame,
  insert_review-Frame, insert_repo-Frame, approve_row-Frame, insert_message-Frame,
)
