-- ===== src/Http/Writes.antt =====
-- What the permitted calls of the Store keep, its methods keep, and with them a review.
use agentary.Prelude.{ℕ, List, String, Option, none, some, ◌≡◌, refl, ◌||◌, true, ◌==◌}
use agentary.Store.Model.{Db, Task, Agent}
use agentary.Store.Teams.{create_team, delete_team, create_agent}
use agentary.Store.Workflows.{create_workflow}
use agentary.Store.Tasks.{create_task, update_task, update_task_stage, set_task_workflow_and_stage}
use agentary.Store.TaskLinks.{add_task_dependency}
use agentary.Store.Records.{
  create_task_comment, add_task_attachment, remove_task_attachment, create_task_review, create_repo,
}
use agentary.Store.Network.{reset_allowlist, allow_domain, disallow_domain}
use agentary.Store.Messages.{create_message}
use agentary.Store.Calls.{
  Call, run_call, create_team_call, delete_team_call, create_agent_call, create_task_call,
  update_task_call, create_task_comment_call, add_task_attachment_call, remove_task_attachment_call,
  add_task_dependency_call, update_task_stage_call, set_task_workflow_and_stage_call,
  create_task_review_call, create_repo_call, create_workflow_call, reset_allowlist_call,
  allow_domain_call, disallow_domain_call, create_message_call,
}
use agentary.Store.Reads.{read_rules}
use agentary.Exec.{Result, ok, err}
use agentary.Exec.Keeps.{Keeps, keeps_rules}
use agentary.Engine.{or_zero}
use agentary.Review.{submit_review, review_found, apply_review, pick_reviewer}
use agentary.Http.Tasks.{is_allowed}
use agentary.Http.Handles.{Permitted, Keeps-ignored}

module _ {ℓ} {A : Type 0} {P : Db → Type ℓ} where
  or_zero-Keeps : (zero : A) (r : Result A) → Keeps P (or_zero zero r)
  or_zero-Keeps zero (ok a) = search keeps_rules
  or_zero-Keeps zero (err e) = search keeps_rules

module _ {ℓ} {P : Db → Type ℓ} where
  -- Choosing a reviewer only reads.
  pub pick_reviewer-Keeps :
      (task : Task) (agents : List Agent) → Keeps P (pick_reviewer task agents)
  unfolding pick_reviewer
  pick_reviewer-Keeps task agents = search (keeps_rules, read_rules, or_zero-Keeps) depth 12

-- Every permitted call keeps the property.
abbrev pub Kept {ℓ} : (Db → Type ℓ) → Type ℓ
Kept P = (c : Call) → Permitted c → Keeps P (run_call c)

module _ {ℓ} {P : Db → Type ℓ} (calls : Kept P) where
  pub create_team-Keeps : (name : String) → Keeps P (create_team name)
  unfolding run_call
  create_team-Keeps name = Keeps-ignored _ (calls (create_team_call name) tt)

  pub delete_team-Keeps : (name : String) → Keeps P (delete_team name)
  unfolding run_call
  delete_team-Keeps name = Keeps-ignored _ (calls (delete_team_call name) tt)

  pub create_agent-Keeps : (team name role : String) → Keeps P (create_agent team name role)
  unfolding run_call
  create_agent-Keeps team name role = Keeps-ignored _ (calls (create_agent_call team name role) tt)

  pub create_task_comment-Keeps :
      (team : String) (id : ℕ) (author body : String)
      → Keeps P (create_task_comment team id author body)
  unfolding run_call
  create_task_comment-Keeps team id author body =
      Keeps-ignored _ (calls (create_task_comment_call team id author body) tt)

  pub add_task_attachment-Keeps :
      (team : String) (id : ℕ) (path : String) → Keeps P (add_task_attachment team id path)
  unfolding run_call
  add_task_attachment-Keeps team id path =
      Keeps-ignored _ (calls (add_task_attachment_call team id path) tt)

  pub remove_task_attachment-Keeps :
      (team : String) (id : ℕ) (path : String) → Keeps P (remove_task_attachment team id path)
  unfolding run_call
  remove_task_attachment-Keeps team id path =
      Keeps-ignored _ (calls (remove_task_attachment_call team id path) tt)

  pub add_task_dependency-Keeps :
      (team : String) (id on : ℕ) → Keeps P (add_task_dependency team id on)
  unfolding run_call
  add_task_dependency-Keeps team id on =
      Keeps-ignored _ (calls (add_task_dependency_call team id on) tt)

  pub update_task_stage-Keeps : (id : ℕ) (stage : String) → Keeps P (update_task_stage id stage)
  unfolding run_call
  update_task_stage-Keeps id stage = Keeps-ignored _ (calls (update_task_stage_call id stage) tt)

  pub set_task_workflow_and_stage-Keeps :
      (id : ℕ) (workflow stage : String) → Keeps P (set_task_workflow_and_stage id workflow stage)
  unfolding run_call
  set_task_workflow_and_stage-Keeps id workflow stage =
      Keeps-ignored _ (calls (set_task_workflow_and_stage_call id workflow stage) tt)

  pub create_task_review-Keeps :
      (team : String) (id : ℕ) (reviewer outcome comments : String)
      → Keeps P (create_task_review team id reviewer outcome comments)
  unfolding run_call
  create_task_review-Keeps team id reviewer outcome comments =
      Keeps-ignored _ (calls (create_task_review_call team id reviewer outcome comments) tt)

  pub create_repo-Keeps :
      (team name source approval : String) (test_cmd : Option String)
      → Keeps P (create_repo team name source approval test_cmd)
  unfolding run_call
  create_repo-Keeps team name source approval test_cmd =
      Keeps-ignored _ (calls (create_repo_call team name source approval test_cmd) tt)

  pub create_workflow-Keeps :
      (team name : String) (version : ℕ) (path : String)
      → Keeps P (create_workflow team name version path)
  unfolding run_call
  create_workflow-Keeps team name version path =
      Keeps-ignored _ (calls (create_workflow_call team name version path) tt)

  pub allow_domain-Keeps : (domain : String) → Keeps P (allow_domain domain)
  unfolding run_call
  allow_domain-Keeps domain = Keeps-ignored _ (calls (allow_domain_call domain) tt)

  pub disallow_domain-Keeps : (domain : String) → Keeps P (disallow_domain domain)
  unfolding run_call
  disallow_domain-Keeps domain = Keeps-ignored _ (calls (disallow_domain_call domain) tt)

  pub create_message-Keeps :
      (team sender recipient text : String) → Keeps P (create_message team sender recipient text)
  unfolding run_call
  create_message-Keeps team sender recipient text =
      Keeps-ignored _ (calls (create_message_call team sender recipient text) tt)

  pub reset_allowlist-Keeps : Keeps P reset_allowlist
  unfolding run_call
  reset_allowlist-Keeps = Keeps-ignored _ (calls reset_allowlist_call tt)

  pub update_task-Keeps :
      (id : ℕ) (status : String) (assignee : Option String)
      → (status == "" || is_allowed status) ≡ true
      → Keeps P (update_task id status assignee)
  unfolding run_call
  update_task-Keeps id status assignee p =
      Keeps-ignored _ (calls (update_task_call id status assignee) p)

  pub create_task-Keeps :
      (team title status : String) (workflow : Option String)
      → (status == "" || status == "todo" || status == "in_progress") ≡ true
      → Keeps P (create_task team title status workflow)
  unfolding run_call
  create_task-Keeps team title status workflow p =
      Keeps-ignored _ (calls (create_task_call team title status workflow) p)

  reopened-Keeps :
      (id : ℕ) (assignee : Option String) → Keeps P (update_task id "in_progress" assignee)
  unfolding is_allowed
  reopened-Keeps id assignee = update_task-Keeps id "in_progress" assignee refl

  pub done-Keeps : (id : ℕ) → Keeps P (update_task id "done" none)
  unfolding is_allowed
  done-Keeps id = update_task-Keeps id "done" none refl

  -- The assignee alone.
  pub assigned-Keeps : (id : ℕ) (assignee : Option String) → Keeps P (update_task id "" assignee)
  assigned-Keeps id assignee = update_task-Keeps id "" assignee refl

  apply_review-Keeps :
      (id : ℕ) (task : Task) (outcome : String) → Keeps P (apply_review id task outcome)
  unfolding apply_review
  apply_review-Keeps id task outcome =
      search
        (
          keeps_rules, read_rules, or_zero-Keeps, set_task_workflow_and_stage-Keeps, reopened-Keeps,
          done-Keeps,
        )
        depth 20

  review_found-Keeps :
      (id : ℕ) (outcome : String) (row : Option Task) → Keeps P (review_found id outcome row)
  unfolding review_found
  review_found-Keeps id outcome none = search keeps_rules
  review_found-Keeps id outcome (some task) = search (keeps_rules, apply_review-Keeps)

  pub submit_review-Keeps :
      (team : String) (id : ℕ) (reviewer outcome comments : String)
      → Keeps P (submit_review team id reviewer outcome comments)
  unfolding submit_review
  submit_review-Keeps team id reviewer outcome comments =
      search (keeps_rules, read_rules, create_task_review-Keeps, review_found-Keeps) depth 12

pub ruleset write_rules = (
  create_team-Keeps, delete_team-Keeps, create_agent-Keeps, create_task_comment-Keeps,
  add_task_attachment-Keeps, remove_task_attachment-Keeps, add_task_dependency-Keeps,
  update_task_stage-Keeps, set_task_workflow_and_stage-Keeps, create_repo-Keeps,
  create_workflow-Keeps, allow_domain-Keeps, disallow_domain-Keeps, create_message-Keeps,
  reset_allowlist-Keeps, update_task-Keeps, create_task-Keeps, done-Keeps, submit_review-Keeps,
)
