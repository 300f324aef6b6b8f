-- ===== src/Review.antt =====
-- internal/review/review.go: who reviews a task, and what a review does to it.
pub mod Choice
pub mod Submission
use agentary.Prelude.{
  ℕ, String, Option, none, some, Bool, true, false, not, ◌&&◌, List, [], ◌∷◌, map, if◌then◌else◌,
  ◌==◌, any, find_row, head?, select, is_blank, or_empty, trim_space, split,
}
use agentary.Store.Model.{Agent, Task, WorkflowStage}
use agentary.Store.Workflows.{get_workflow_stages, get_workflow_transitions}
use agentary.Store.Tasks.{update_task, get_task_by_id_and_team, set_task_workflow_and_stage}
use agentary.Store.Records.{create_task_review}
use agentary.Engine.{next_stage, is_terminal_in, or_zero}
use agentary.Exec.{Exec, Result, ok, err, pure, ◌>>=◌, ◌>>◌, attempt, ignore, when}

-- The pool of a stage, `strings.Split(s.CandidateAgents, ",")` with each part trimmed: is the name in it?
unfoldable pub in_pool : String → String → Bool
in_pool candidate_agents name = any (λ p. trim_space p == name) (split b',' candidate_agents)

unfoldable pub name_of : Option Agent → String
name_of none = ""
name_of (some a) = a.name

-- The first agent of the pool who is not the DRI.
unfoldable pub pool_reviewer : String → List Agent → WorkflowStage → Option Agent
unfolding in_pool
pool_reviewer dri agents s =
    if s.stage_name == "InReview" && not (trim_space s.candidate_agents == "")
    then find_row (λ a. in_pool s.candidate_agents a.name && not (a.name == dri)) agents
    else none

-- The loop over the stages, up to the first that has a reviewer.
unfoldable pub stage_reviewer : String → List Agent → List WorkflowStage → Option Agent
unfolding pool_reviewer
stage_reviewer dri agents [] = none
stage_reviewer dri agents (s ∷ rest) =
    let later = stage_reviewer dri agents rest in
    elim (pool_reviewer dri agents s) [ some a ↦ some a | none ↦ later ]

-- Anyone but the DRI, else the first agent.
unfoldable pub any_reviewer : String → List Agent → String
unfolding name_of
any_reviewer dri agents = elim (find_row (λ (a : Agent). not (a.name == dri)) agents) [
  | some a ↦ a.name
  | none ↦ name_of (head? agents)
]

unfoldable pub choose_reviewer : String → List Agent → List WorkflowStage → String
unfolding stage_reviewer any_reviewer
choose_reviewer dri agents stages = elim (stage_reviewer dri agents stages) [
  | some a ↦ a.name
  | none ↦ any_reviewer dri agents
]

-- PickReviewer: stages that cannot be read count as none.
unfoldable pub pick_reviewer : Task → List Agent → Exec String
unfolding choose_reviewer
pick_reviewer task agents = do
  stages ←
      if is_blank task.workflow_id
      then pure []
      else attempt (get_workflow_stages (or_empty task.workflow_id)) (or_zero [])
  pure (choose_reviewer (or_empty task.dri) agents stages)

-- What a review does to a task that has a workflow.
unfoldable pub apply_review : ℕ → Task → String → Exec Unit
apply_review id task outcome = do
  let workflow_id = or_empty task.workflow_id
  transitions ← get_workflow_transitions workflow_id
  let to_stage = next_stage (or_empty task.current_stage) outcome transitions
  if to_stage == "" then pure tt else do
    set_task_workflow_and_stage id workflow_id to_stage
    when (outcome == "changes_requested" && not (is_blank task.dri))
        (ignore (update_task id "in_progress" task.dri))
    stages ← attempt (get_workflow_stages workflow_id) (or_zero [])
    when (is_terminal_in to_stage stages) (ignore (update_task id "done" none))

unfoldable pub review_found : ℕ → String → Option Task → Exec Unit
unfolding apply_review
review_found id outcome none = pure tt
review_found id outcome (some task) =
    if is_blank task.workflow_id then pure tt else apply_review id task outcome

-- SubmitReview
unfoldable pub submit_review : String → ℕ → String → String → String → Exec Unit
unfolding review_found
submit_review team id reviewer outcome comments = do
  create_task_review team id reviewer outcome comments
  task ← get_task_by_id_and_team team id
  review_found id outcome task
