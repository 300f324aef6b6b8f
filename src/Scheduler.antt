-- ===== src/Scheduler.antt =====
-- internal/daemon/scheduler.go: what a tick of the scheduler does for a team.
pub mod Stuck
pub mod Failure
use agentary.Prelude.{
  ℕ, String, Option, none, some, Bool, true, false, not, ◌&&◌, List, [], ◌∷◌, if◌then◌else◌, ◌==◌,
  find_row, head?, select, is_blank, or_empty, holds, trim_space,
}
use agentary.Store.Model.{Agent, Task, WorkflowStage}
use agentary.Store.Teams.{TeamSummary, list_teams, list_agents}
use agentary.Store.Workflows.{get_workflow_stages}
use agentary.Store.Tasks.{claim_task, update_task, set_task_failed, get_task_by_id_and_team}
use agentary.Store.TaskLists.{next_runnable_task_for_team}
use agentary.Store.Network.{list_allowed_domains}
use agentary.Host.{Host, Runtime, TurnRequest}
use agentary.Engine.{or_zero, run_turn}
use agentary.Review.{in_pool, name_of, pick_reviewer}
use agentary.Exec.{
  Exec, Result, ok, err, Error, task_update, agent_activity, pure, publish, ◌>>=◌, ◌>>◌, attempt,
  ignore,
}

-- The manager, else the first of the agents.
unfoldable pub prefer_manager : List Agent → Option Agent
prefer_manager agents = elim (find_row (λ (a : Agent). a.role == "manager") agents) [
  | some a ↦ some a
  | none ↦ head? agents
]

-- The candidates of a stage, if it is the task's and names any who are in the team.
unfoldable pub pool_assignee : String → List Agent → WorkflowStage → Option Agent
unfolding prefer_manager in_pool
pool_assignee stage agents s =
    if s.stage_name == stage && not (trim_space s.candidate_agents == "")
    then prefer_manager (select (λ a. in_pool s.candidate_agents a.name) agents)
    else none

unfoldable pub stage_assignee : String → List Agent → List WorkflowStage → Option Agent
unfolding pool_assignee
stage_assignee stage agents [] = none
stage_assignee stage agents (s ∷ rest) =
    let later = stage_assignee stage agents rest in
    elim (pool_assignee stage agents s) [ some a ↦ some a | none ↦ later ]

unfoldable pub choose_assignee : String → List Agent → List WorkflowStage → String
unfolding stage_assignee prefer_manager name_of
choose_assignee stage agents stages = elim (stage_assignee stage agents stages) [
  | some a ↦ a.name
  | none ↦ name_of (prefer_manager agents)
]

-- pickAssignee; the caller's list of agents is not empty.
unfoldable pub pick_assignee : Task → List Agent → Exec String
unfolding choose_assignee
pick_assignee task agents = do
  stages ←
      if is_blank task.workflow_id
      then pure []
      else if is_blank task.current_stage
      then pure []
      else attempt (get_workflow_stages (or_empty task.workflow_id)) (or_zero [])
  pure (choose_assignee (or_empty task.current_stage) agents stages)

-- What the goroutine of a team is given: the task as it was read, the agent and the team's agents.
pub record Job : Type 0 where
  pub team : String
  pub task : Task
  pub agent : String
  pub agents : List Agent

-- publishTaskUpdate
abbrev pub publish_task_update : String → ℕ → String → Option String → Exec Unit
publish_task_update team id status assignee =
    publish (task_update team id (some status) assignee none)

-- The turn ended with an error.
unfoldable pub turn_failed : Job → Error → Exec Unit
turn_failed job e = do
  ignore (set_task_failed job.task.task_id)
  publish (agent_activity job.team job.agent job.task.task_id e)
  publish_task_update job.team job.task.task_id "failed" none

-- A task that has come to InReview gets a reviewer; the assignee to publish. With no agents there is
-- no reviewer, so the code's test of the list's length is the test of the name.
unfoldable pub assign_reviewer : Job → Task → Exec (Option String)
assign_reviewer job updated =
    if not (holds updated.current_stage "InReview") then pure updated.assignee else do
      reviewer ← pick_reviewer updated job.agents
      if reviewer == ""
          then pure updated.assignee
          else do ignore (update_task job.task.task_id "" (some reviewer)); pure (some reviewer)

unfoldable pub publish_turn : Job → Option Task → Exec Unit
unfolding assign_reviewer
publish_turn job none = pure tt
publish_turn job (some updated) = do
  assignee ← assign_reviewer job updated
  publish_task_update job.team job.task.task_id updated.status assignee

unfoldable pub job_for : String → Task → List Agent → Exec (Option Job)
unfolding pick_assignee
job_for team task [] = pure none
job_for team task (a ∷ agents) = do
  agent ← pick_assignee task (a ∷ agents)
  pure (some (record { team = team; task = task; agent = agent; agents = a ∷ agents }))

unfoldable pub prepare_task : String → Option Task → Exec (Option Job)
unfolding job_for
prepare_task team none = pure none
prepare_task team (some task) = do
  agents ← attempt (list_agents team) (or_zero [])
  job_for team task agents

-- What the loop does for a team before it starts the goroutine.
unfoldable pub prepare : String → Exec (Option Job)
unfolding prepare_task
prepare team = do
  task ← attempt (next_runnable_task_for_team team) (or_zero none)
  prepare_task team task

module _ (host : Host) (rt : Runtime) where
  -- A task with no workflow: one turn of the runtime, and the task is done.
  unfoldable pub legacy_turn : Job → Exec Unit
  unfolding turn_failed
  legacy_turn job = do
    allowlist ← attempt list_allowed_domains (or_zero [])
    attempt
        (rt (record {
          team = job.team;
          agent = job.agent;
          task_id = job.task.task_id;
          input = job.task.title;
          network_allowlist = allowlist;
          model = "";
          max_tokens = 0;
        }))
        λ r. elim r [
          | err e ↦ turn_failed job e
          | ok output ↦ attempt (update_task job.task.task_id "done" none) λ done. elim done [
            | err e ↦ pure tt
            | ok u ↦ publish_task_update job.team job.task.task_id "done" none
          ]
        ]

  unfoldable pub after_turn : Job → Result Bool → Exec Unit
  unfolding turn_failed publish_turn legacy_turn
  after_turn job (err e) = turn_failed job e
  after_turn job (ok false) = legacy_turn job
  after_turn job (ok true) = do
    updated ← attempt (get_task_by_id_and_team job.team job.task.task_id) (or_zero none)
    publish_turn job updated

  unfoldable pub claimed_turn : Job → Result Bool → Exec Unit
  unfolding after_turn
  claimed_turn job (err e) = pure tt
  claimed_turn job (ok false) = pure tt
  claimed_turn job (ok true) = do
    publish_task_update job.team job.task.task_id "in_progress" (some job.agent)
    attempt (run_turn host rt job.team job.task) (after_turn job)

  -- The goroutine: it claims the task, and runs a turn of the task as it was read before the claim.
  unfoldable pub run_job : Job → Exec Unit
  unfolding claimed_turn
  run_job job = attempt (claim_task job.team job.task.task_id job.agent) (claimed_turn job)

  -- One team's share of a tick, with no other goroutine in between.
  unfoldable pub tick_team : String → Exec Unit
  unfolding prepare run_job
  tick_team team = do job ← prepare team; elim job [ none ↦ pure tt | some j ↦ run_job j ]

  unfoldable pub tick_teams : List TeamSummary → Exec Unit
  unfolding tick_team
  tick_teams [] = pure tt
  tick_teams (t ∷ rest) = do tick_team t.team.name; tick_teams rest

  -- A tick whose goroutines run one after another.
  unfoldable pub tick : Exec Unit
  unfolding tick_teams
  tick = do teams ← attempt list_teams (or_zero []); tick_teams teams
