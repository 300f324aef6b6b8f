-- ===== src/Tests/Example.antt =====
-- A small installation: one team, two agents, one workflow, and tasks at its stages.
use agentary.Prelude.{ℕ, zero, suc, String, Option, none, some, false, List, [], ◌∷◌}
use agentary.Store.Model.{
  Team, Agent, AgentRow, Task, TaskRow, WorkflowStage, WorkflowTransition, Db,
}
use agentary.Host.{Host, Runtime}
use agentary.Scheduler.{Job}
use agentary.Exec.{World, ok, err, external}

abbrev pub core : Team
core = record { team_id = "t1"; name = "core"; created_at = 1 }

abbrev pub agent : String → String → ℕ → Agent
agent name role at = record { name = name; role = role; created_at = at }

abbrev pub ann : Agent
ann = agent "ann" "manager" 2

abbrev pub bob : Agent
bob = agent "bob" "engineer" 3

abbrev pub agent_row : String → Agent → AgentRow
agent_row id a = record { agent_id = id; team_id = "t1"; agent = a }

abbrev pub task_at : ℕ → String → Option String → Task
task_at id status stage = record {
  task_id = id;
  title = "parse flags";
  status = status;
  assignee = none;
  dri = some "ann";
  attempt_count = 0;
  workflow_id = some "w1";
  current_stage = stage;
  worktree_path = some "/teams/core/worktrees/task-1";
  branch_name = some "task-1";
  base_sha = none;
  repo_name = none;
  created_at = 4;
  updated_at = 4;
}

abbrev pub row : Task → TaskRow
row t = record { team_id = "t1"; task = t }

abbrev pub stage_row : String → String → WorkflowStage
stage_row name type = record {
  workflow_id = "w1";
  stage_name = name;
  stage_type = type;
  outcomes = "";
  candidate_agents = "bob";
}

abbrev pub transition_row : String → String → String → WorkflowTransition
transition_row from outcome to = record {
  workflow_id = "w1";
  from_stage = from;
  outcome = outcome;
  to_stage = to;
}

abbrev pub stages : List WorkflowStage
stages =
    stage_row "Coding" "agent"
    ∷ stage_row "InReview" "agent"
    ∷ stage_row "Lint" "auto"
    ∷ stage_row "Done" "terminal"
    ∷ []

abbrev pub transitions : List WorkflowTransition
transitions =
    transition_row "Coding" "done" "Lint"
    ∷ transition_row "InReview" "changes_requested" "Coding"
    ∷ transition_row "Lint" "done" "Done"
    ∷ []

abbrev pub database : List TaskRow → ℕ → Db
database tasks next = record {
  teams = core ∷ [];
  agents = agent_row "a1" ann ∷ agent_row "a2" bob ∷ [];
  tasks = tasks;
  comments = [];
  attachments = [];
  dependencies = [];
  repos = [];
  workflows = [];
  stages = stages;
  transitions = transitions;
  reviews = [];
  messages = [];
  allowlist = "*" ∷ [];
  next_task = next;
  next_comment = 1;
  next_attachment = 1;
  next_review = 1;
  next_message = 1;
}

abbrev pub ids : ℕ → String
ids zero = "n1"
ids (suc n) = "n2"

abbrev pub world : List TaskRow → ℕ → World
world tasks next = record {
  db = database tasks next;
  clock = λ n. n;
  ids = ids;
  faults = [];
  foreign_keys = false;
  published = [];
}

-- One task to do, at the stage "Coding".
abbrev pub coding : Task
coding = task_at 1 "todo" (some "Coding")

abbrev pub ready : World
ready = world (row coding ∷ []) 2

-- One task in progress, which nobody can claim.
abbrev pub busy : Task
busy = task_at 1 "in_progress" (some "Coding")

abbrev pub stuck : World
stuck = world (row busy ∷ row (task_at 2 "todo" (some "Coding")) ∷ []) 3

-- A task that has failed at the stage "Merging".
abbrev pub failed_merge : Task
failed_merge = task_at 1 "failed" (some "Merging")

abbrev pub merging : World
merging = world (row failed_merge ∷ []) 2

-- A task under review.
abbrev pub under_review : Task
under_review = task_at 1 "in_progress" (some "InReview")

abbrev pub reviewing : World
reviewing = world (row under_review ∷ []) 2

-- A machine whose commands all succeed, and one whose commands all fail.
abbrev pub good_host : Host
good_host = record {
  command = λ dir args w. (ok "", w);
  stat_ok = λ path w. (ok false, w);
  is_absent = λ path w. (ok false, w);
  mkdir_all = λ path w. (ok tt, w);
  remove_all = λ path w. (ok tt, w);
  dir_of = λ path. path;
  load_agent_config = λ team agent w. (ok none, w);
  append_journal = λ team agent entry w. (ok tt, w);
  has_home = false;
}

abbrev pub bad_host : Host
bad_host = record good_host { command = λ dir args w. (err (external "exit status 1"), w) }

-- A runtime whose turns are done, and one whose turns fail.
abbrev pub done_runtime : Runtime
done_runtime req w = (ok " done ", w)

abbrev pub broken_runtime : Runtime
broken_runtime req w = (err (external "subprocess"), w)

abbrev pub job : Job
job = record { team = "core"; task = coding; agent = "ann"; agents = ann ∷ bob ∷ [] }
