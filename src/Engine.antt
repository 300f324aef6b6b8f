-- ===== src/Engine.antt =====
-- internal/workflow/engine.go: one turn of the workflow engine for a task.
pub mod Turn
pub mod Moves
pub mod Effects
use agentary.Prelude.{
  ℕ, String, Option, none, some, Bool, true, false, not, ◌&&◌, ◌||◌, List, [], ◌∷◌, if◌then◌else◌,
  ◌==◌, any, find_row, head?, is_blank, or_empty, holds, trim_space,
}
use agentary.Store.Model.{Task, Repo, WorkflowStage, WorkflowTransition}
use agentary.Store.Workflows.{
  get_workflow_initial_stage, get_workflow_stages, get_workflow_transitions,
}
use agentary.Store.Tasks.{
  update_task, set_task_failed, update_task_stage, set_task_workflow_and_stage,
}
use agentary.Store.Records.{list_repos}
use agentary.Store.Network.{list_allowed_domains}
use agentary.Host.{Host, Runtime, TurnRequest, AgentConfig, JournalEntry}
use agentary.Git.{run_test_cmd, merge_in_worktree}
use agentary.Exec.{
  Exec, Result, ok, err, wrapped, pure, fail, now, ◌>>=◌, ◌>>◌, attempt, ignore, when,
}

-- `x, _ := m`: a failed call leaves the zero value.
abbrev pub or_zero : {A : Type 0} → A → Result A → Exec A
or_zero zero (ok a) = pure a
or_zero zero (err e) = pure zero

-- `return t.ToStage`, or "" after the loop.
abbrev pub target : Option WorkflowTransition → String
target none = ""
target (some t) = t.to_stage

-- The stage to which an outcome leads: "" if there is none.
unfoldable pub next_stage : String → String → List WorkflowTransition → String
next_stage from outcome transitions =
    target (find_row (λ t. t.from_stage == from && t.outcome == outcome) transitions)

-- Engine.transition
unfoldable pub transition : String → String → String → Exec String
transition workflow_id from outcome = do
  transitions ← get_workflow_transitions workflow_id
  pure (next_stage from outcome transitions)

-- Is this the stage, and a terminal one?
unfoldable pub is_terminal_in : String → List WorkflowStage → Bool
is_terminal_in name = any (λ s. s.stage_name == name && s.stage_type == "terminal")

-- Engine.isTerminalStage: false if the stages cannot be read.
unfoldable pub is_terminal_stage : String → String → Exec Bool
is_terminal_stage workflow_id name =
    attempt (get_workflow_stages workflow_id)
      λ r. elim r [ ok stages ↦ pure (is_terminal_in name stages) | err e ↦ pure false ]

-- UpdateTaskStage, and the task is done at a terminal stage.
unfoldable pub enter : ℕ → String → String → Exec Unit
enter id workflow_id name = if name == "" then pure tt else do
  ignore (update_task_stage id name)
  terminal ← is_terminal_stage workflow_id name
  when terminal (ignore (update_task id "done" none))

-- `nextStage, _ := e.transition(…, "done")` and its effects, of a stage that runs by itself.
unfoldable pub advance : ℕ → String → String → Exec Bool
unfolding enter
advance id workflow_id name = do
  next ← attempt (transition workflow_id name "done") (or_zero "")
  enter id workflow_id next
  pure true

-- The outcome that an agent's output stands for.
unfoldable pub outcome_of : String → String
outcome_of output =
    let outcome = trim_space output in
    if outcome == "" || outcome == "stub: ok" then "done" else outcome

-- The repo that the task names, else the first.
unfoldable pub repo_for : Option String → List Repo → Option Repo
repo_for name repos = elim (find_row (λ (r : Repo). holds name r.name) repos) [
  | some r ↦ some r
  | none ↦ head? repos
]

unfoldable pub test_cmd_of : Option Repo → String
test_cmd_of none = ""
test_cmd_of (some r) = or_empty r.test_cmd

module _ (host : Host) (rt : Runtime) where
  -- TurnRequest, with the agent's own config if there is one.
  abbrev configured : TurnRequest → Result (Option AgentConfig) → TurnRequest
  configured req (ok (some c)) = record req { model = c.model; max_tokens = c.max_tokens }
  configured req (ok none) = req
  configured req (err e) = req

  unfoldable pub turn_request : String → Task → String → Exec TurnRequest
  turn_request team task agent = do
    allowlist ← attempt list_allowed_domains (or_zero [])
    let req : TurnRequest = record {
      team = team;
      agent = agent;
      task_id = task.task_id;
      input = task.title;
      network_allowlist = allowlist;
      model = "";
      max_tokens = 0;
    }
    if host.has_home && not (agent == "")
        then attempt (host.load_agent_config team agent) (λ r. pure (configured req r))
        else pure req

  -- After a turn that returned: the journal, the transition and the new stage.
  unfoldable pub turn_returned : String → Task → String → String → String → String → Exec Bool
  unfolding enter outcome_of
  turn_returned team task workflow_id name agent output = do
    let outcome = outcome_of output
    when (host.has_home && not (agent == "")) (do
      at ← now
      ignore (
          host.append_journal team agent (record {
            task_id = task.task_id;
            task_title = task.title;
            outcome = outcome;
            created_at = at;
          })))
    next ← transition workflow_id name outcome
    enter task.task_id workflow_id next
    pure true

  -- case "agent"
  unfoldable pub agent_turn : String → Task → String → String → Exec Bool
  unfolding turn_request turn_returned
  agent_turn team task workflow_id name = do
    let agent = or_empty task.assignee
    req ← turn_request team task agent
    attempt (rt req) λ r. elim r [
      | ok output ↦ turn_returned team task workflow_id name agent output
      | err e ↦ do ignore (set_task_failed task.task_id); fail e
    ]

  -- The tests of the "merge" stage: run if there is a worktree and a repo with a test command.
  unfoldable pub merge_tests : String → Task → Exec Unit
  unfolding repo_for test_cmd_of
  merge_tests team task = if is_blank task.worktree_path then pure tt else do
    repos ← attempt (list_repos team) (or_zero [])
    let cmd = test_cmd_of (repo_for task.repo_name repos)
    if cmd == ""
        then pure tt
        else attempt (run_test_cmd host (or_empty task.worktree_path) cmd) λ r. elim r [
          | ok u ↦ pure tt
          | err e ↦ do ignore (set_task_failed task.task_id); fail e
        ]

  -- case "merge"
  unfoldable pub merge_turn : String → Task → String → String → Exec Bool
  unfolding merge_tests advance
  merge_turn team task workflow_id name = do
    merge_tests team task
    if is_blank task.worktree_path || is_blank task.branch_name
        then pure tt
        else attempt
            (merge_in_worktree host (or_empty task.worktree_path) (or_empty task.branch_name))
            λ r. elim r [ ok u ↦ pure tt | err e ↦ fail (wrapped "merge failed" e) ]
    advance task.task_id workflow_id name

  -- The switch on the type of the stage; a stage that the workflow does not have is left alone.
  unfoldable pub run_stage : String → Task → String → Option WorkflowStage → Exec Bool
  unfolding agent_turn merge_turn
  run_stage team task workflow_id none = pure true
  run_stage team task workflow_id (some stage) =
      if stage.stage_type == "terminal"
      then (do ignore (update_task task.task_id "done" none); pure true)
      else if stage.stage_type == "agent"
      then agent_turn team task workflow_id stage.stage_name
      else if stage.stage_type == "auto"
      then advance task.task_id workflow_id stage.stage_name
      else if stage.stage_type == "merge"
      then merge_turn team task workflow_id stage.stage_name
      else pure true

  -- The stage of the task, set to the workflow's first if it has none yet.
  unfoldable pub stage_of : Task → String → Exec String
  stage_of task workflow_id =
      if is_blank task.current_stage
      then (do
        initial ← get_workflow_initial_stage workflow_id
        set_task_workflow_and_stage task.task_id workflow_id initial
        pure initial)
      else pure (or_empty task.current_stage)

  -- Engine.RunTurn: `ok false` is (false, nil), `ok true` is (true, nil), and an error comes with true.
  unfoldable pub run_turn : String → Task → Exec Bool
  unfolding run_stage stage_of
  run_turn team task = if is_blank task.workflow_id then pure false else do
    let workflow_id = or_empty task.workflow_id
    name ← stage_of task workflow_id
    stages ← get_workflow_stages workflow_id
    run_stage team task workflow_id (find_row (λ s. s.stage_name == name) stages)
