-- ===== src/Store/Model.antt =====
-- internal/store/models.go and the tables of internal/store/migrations: the rows of the database.
-- A nullable column is an `Option`; a time is its Unix second; a status, a role, a stage and its
-- type are the texts that the columns hold.
use agentary.Prelude.{ℕ, String, Option, List}

-- Team, without the two counts that ListTeams computes.
pub record Team : Type 0 where
  pub team_id : String
  pub name : String
  pub created_at : ℕ

pub record Agent : Type 0 where
  pub name : String
  pub role : String
  pub created_at : ℕ

pub record AgentRow : Type 0 where
  pub agent_id : String
  pub team_id : String
  pub agent : Agent

pub record Task : Type 0 where
  pub task_id : ℕ
  pub title : String
  pub status : String
  pub assignee : Option String
  pub dri : Option String
  pub attempt_count : ℕ
  pub workflow_id : Option String
  pub current_stage : Option String
  pub worktree_path : Option String
  pub branch_name : Option String
  pub base_sha : Option String
  pub repo_name : Option String
  pub created_at : ℕ
  pub updated_at : ℕ

-- A row of `tasks`: the columns that scanTaskRow reads, and the team.
pub record TaskRow : Type 0 where
  pub team_id : String
  pub task : Task
  pub open task use *

pub record TaskComment : Type 0 where
  pub comment_id : ℕ
  pub task_id : ℕ
  pub team_id : String
  pub author : String
  pub body : String
  pub created_at : ℕ

pub record TaskAttachment : Type 0 where
  pub attachment_id : ℕ
  pub task_id : ℕ
  pub team_id : String
  pub file_path : String
  pub created_at : ℕ

pub record TaskDependency : Type 0 where
  pub task_id : ℕ
  pub depends_on_task_id : ℕ

pub record Repo : Type 0 where
  pub name : String
  pub source : String
  pub approval : String
  pub test_cmd : Option String
  pub created_at : ℕ

pub record RepoRow : Type 0 where
  pub repo_id : String
  pub team_id : String
  pub repo : Repo

pub record Workflow : Type 0 where
  pub name : String
  pub version : ℕ
  pub source_path : String
  pub created_at : ℕ

pub record WorkflowRow : Type 0 where
  pub workflow_id : String
  pub team_id : String
  pub workflow : Workflow

pub record WorkflowStage : Type 0 where
  pub workflow_id : String
  pub stage_name : String
  pub stage_type : String
  pub outcomes : String
  pub candidate_agents : String

pub record WorkflowTransition : Type 0 where
  pub workflow_id : String
  pub from_stage : String
  pub outcome : String
  pub to_stage : String

pub record TaskReview : Type 0 where
  pub review_id : ℕ
  pub task_id : ℕ
  pub team_id : String
  pub reviewer_agent : String
  pub outcome : String
  pub comments : String
  pub created_at : ℕ

pub record Message : Type 0 where
  pub message_id : ℕ
  pub team_id : String
  pub sender : String
  pub recipient : String
  pub content : String
  pub created_at : ℕ
  pub processed_at : Option ℕ

-- The tables, their rows in the order of insertion, and the counters of the AUTOINCREMENT keys
-- (the number that the next row gets).
pub record Db : Type 0 where
  pub teams : List Team
  pub agents : List AgentRow
  pub tasks : List TaskRow
  pub comments : List TaskComment
  pub attachments : List TaskAttachment
  pub dependencies : List TaskDependency
  pub repos : List RepoRow
  pub workflows : List WorkflowRow
  pub stages : List WorkflowStage
  pub transitions : List WorkflowTransition
  pub reviews : List TaskReview
  pub messages : List Message
  pub allowlist : List String
  pub next_task : ℕ
  pub next_comment : ℕ
  pub next_attachment : ℕ
  pub next_review : ℕ
  pub next_message : ℕ
