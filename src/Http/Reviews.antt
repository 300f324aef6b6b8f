-- ===== src/Http/Reviews.antt =====
-- internal/httpapi/server.go: /teams/{team}/tasks/{id}/approve, diff, reviews, submit-review and
-- request-review, of a task that is there.
use agentary.Prelude.{
  ℕ, String, Option, none, some, not, List, [], ◌∷◌, ◌==◌, if◌then◌else◌, is_blank, or_empty,
}
use agentary.Store.Model.{Task, Agent}
use agentary.Store.Tasks.{
  update_task, update_task_stage, set_task_workflow_and_stage, get_task_by_id_and_team,
}
use agentary.Store.Teams.{list_agents}
use agentary.Store.Workflows.{get_workflow_stages, get_workflow_transitions}
use agentary.Store.Records.{list_task_reviews}
use agentary.Exec.{publish, task_update}
use agentary.Engine.{next_stage, is_terminal_in}
use agentary.Review.{pick_reviewer, submit_review}
use agentary.Git.{diff}
use agentary.Http.{
  Request, Server, Handler, write_json, write_json_error, method_not_allowed, checked, listed,
  unchecked, silently, decoded, accepted, staged_at, diff_text, review_list,
}
use agentary.Http.Input.{text_field, both, decode}
use Prim.Native.String.{◌++◌ as str_append}

-- The task goes to the stage, and is done if the stage is terminal.
unfoldable pub approve_to : String → ℕ → String → String → Handler
approve_to team id workflow_id to_stage = checked 500 (update_task_stage id to_stage) λ _.
    unchecked [] (get_workflow_stages workflow_id) λ stages.
      let announce =
        silently (publish (task_update team id none none (some to_stage)))
          (write_json (staged_at to_stage)) in
      if is_terminal_in to_stage stages
      then silently (update_task id "done" none) announce
      else announce

abbrev pub no_transition : String → String → String
no_transition stage outcome =
    str_append "no transition for stage " (str_append stage (str_append " with outcome " outcome))

unfoldable pub approve_outcome : String → ℕ → String → String → String → Handler
unfolding approve_to
approve_outcome team id workflow_id stage outcome =
    checked 500 (get_workflow_transitions workflow_id) λ transitions.
      let to_stage = next_stage stage outcome transitions in
      if to_stage == ""
      then write_json_error 400 (no_transition stage outcome)
      else approve_to team id workflow_id to_stage

-- A task that has no workflow or no stage is not approved.
abbrev pub approve_stage : String → ℕ → Option String → Option String → String → Handler
approve_stage team id workflow none outcome =
    write_json_error 400 "task has no workflow or current stage"
approve_stage team id workflow (some stage) outcome =
    if is_blank workflow
    then write_json_error 400 "task has no workflow or current stage"
    else approve_outcome team id (or_empty workflow) stage outcome

unfoldable pub approve : String → ℕ → Task → Request → Handler
unfolding approve_outcome
approve team id task req =
    if not (req.method == "POST")
    then method_not_allowed
    else decoded (decode req λ j. text_field (j "outcome")) λ outcome.
      approve_stage team id task.workflow_id task.current_stage
        (if outcome == "" then "approved" else outcome)

unfoldable pub get_diff : Server → Task → Request → Handler
get_diff server task req =
    let base_sha = if is_blank task.base_sha then "HEAD~1" else or_empty task.base_sha in
    let head_ref = if is_blank task.branch_name then "HEAD" else or_empty task.branch_name in
    if not (req.method == "GET")
    then method_not_allowed
    else checked 500 (diff server.host (or_empty task.worktree_path) base_sha head_ref)
        λ out. write_json (diff_text out)

unfoldable pub get_reviews : String → ℕ → Request → Handler
get_reviews team id req =
    if not (req.method == "GET")
    then method_not_allowed
    else listed 500 (list_task_reviews team id) review_list

abbrev pub announce_review : String → ℕ → Option Task → Handler
announce_review team id none = write_json accepted
announce_review team id (some t) =
    silently (publish (task_update team id (some t.status) none t.current_stage))
      (write_json accepted)

unfoldable pub post_review : String → ℕ → Request → Handler
post_review team id req =
    if not (req.method == "POST")
    then method_not_allowed
    else decoded
        (decode req λ j.
          both (text_field (j "reviewer_agent"))
            (both (text_field (j "outcome")) (text_field (j "comments"))))
        λ b.
          let (reviewer, (outcome, comments)) = b in
          if outcome == ""
          then write_json_error 400 "outcome required (e.g. approved, changes_requested)"
          else checked 400 (submit_review team id reviewer outcome comments)
              λ _. unchecked none (get_task_by_id_and_team team id) (announce_review team id)

abbrev pub announce_stage : String → ℕ → String → Option Task → Handler
announce_stage team id to_stage none = write_json (staged_at to_stage)
announce_stage team id to_stage (some t) =
    silently (publish (task_update team id none t.assignee (some to_stage)))
      (write_json (staged_at to_stage))

-- A reviewer, unless it is "", becomes the assignee.
unfoldable pub assign_reviewer : String → ℕ → String → Task → String → Handler
assign_reviewer team id to_stage task reviewer =
    if reviewer == ""
    then announce_stage team id to_stage (some task)
    else silently (update_task id "" (some reviewer))
        (announce_stage team id to_stage (some (record task { assignee = some reviewer })))

-- The task as it is read after the move; a reviewer is chosen for the stage "InReview".
abbrev pub review_moved : String → ℕ → String → List Agent → Option Task → Handler
review_moved team id to_stage agents none =
    unchecked none (get_task_by_id_and_team team id) (announce_stage team id to_stage)
review_moved team id to_stage [] (some task) = announce_stage team id to_stage (some task)
review_moved team id to_stage (a ∷ rest) (some task) =
    if to_stage == "InReview"
    then unchecked "" (pick_reviewer task (a ∷ rest)) (assign_reviewer team id to_stage task)
    else announce_stage team id to_stage (some task)

unfoldable pub request_review : String → ℕ → Task → Request → Handler
unfolding assign_reviewer
request_review team id task req =
    if not (req.method == "POST")
    then method_not_allowed
    else if is_blank task.workflow_id
    then write_json_error 400 "task has no workflow"
    else checked 500 (get_workflow_transitions (or_empty task.workflow_id)) λ transitions.
      let to_stage = next_stage (or_empty task.current_stage) "submit_for_review" transitions in
      if to_stage == ""
      then write_json_error 400 "no submit_for_review transition from current stage"
      else checked 500 (set_task_workflow_and_stage id (or_empty task.workflow_id) to_stage) λ _.
        unchecked [] (list_agents team) λ agents.
          unchecked none (get_task_by_id_and_team team id) (review_moved team id to_stage agents)
