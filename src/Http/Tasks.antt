-- ===== src/Http/Tasks.antt =====
-- internal/httpapi/server.go: /teams/{team}/tasks and /teams/{team}/tasks/{id}.
use agentary.Prelude.{
  ℕ, ℤ, pos, negsuc, String, Option, none, some, Bool, ◌&&◌, not, List, [], ◌∷◌, ◌==◌,
  if◌then◌else◌, or_empty, any,
}
use agentary.Store.Model.{Task}
use agentary.Store.Tasks.{create_task, update_task, get_task_by_id_and_team}
use agentary.Store.TaskLists.{list_tasks}
use agentary.Store.Teams.{get_team_by_name}
use agentary.Store.Workflows.{get_workflow_id_by_team_and_name}
use agentary.Exec.{Exec, ◌>>=◌, query, publish, task_update}
use agentary.Http.{
  Request, Server, Handler, write_json, write_json_error, method_not_allowed, checked, listed,
  unchecked, silently, decoded, updated_task, number_of, task_list, one_task,
}
use agentary.Http.Input.{text_field, optional_text, both, decode, scan_int, limit_of}
use agentary.Http.Links.{task_comments, task_attachments, task_dependencies}
use agentary.Http.Reviews.{approve, get_diff, get_reviews, post_review, request_review}

-- GetTaskByIDAndTeam of any integer; no task has a number below 0.
abbrev pub task_by_number : String → ℤ → Exec (Option Task)
task_by_number team (pos id) = get_task_by_id_and_team team id
task_by_number team (negsuc n) = do t ← get_team_by_name team; query λ d. none

-- The statuses that a PATCH may set.
abbrev pub statuses : List String
statuses =
    "todo" ∷ "in_progress" ∷ "in_review" ∷ "in_approval" ∷ "merging" ∷ "done" ∷ "failed"
    ∷ "cancelled" ∷ []

unfoldable pub is_allowed : String → Bool
is_allowed status = any (λ s. s == status) statuses

abbrev pub answer_task : String → ℕ → Option Task → Handler
answer_task team id none = write_json (updated_task id)
answer_task team id (some t) =
    silently (publish (task_update team id (some t.status) t.assignee none))
      (write_json (one_task t))

unfoldable pub patch_task : String → ℕ → Request → Handler
unfolding is_allowed
patch_task team id req =
    decoded (decode req λ j. both (optional_text (j "status")) (optional_text (j "assignee"))) λ b.
      let (given, assignee) = b in
      let status = or_empty given in
      if not (status == "") && not (is_allowed status)
      then write_json_error 400
          "status must be todo, in_progress, in_review, in_approval, merging, done, failed, or cancelled"
      else checked 400 (update_task id status assignee)
          λ _. unchecked none (get_task_by_id_and_team team id) (answer_task team id)

unfoldable pub single_task : String → ℕ → Task → Request → Handler
unfolding patch_task
single_task team id task req =
    if req.method == "GET"
    then write_json (one_task task)
    else if req.method == "PATCH"
    then patch_task team id req
    else method_not_allowed

-- A task, by the part of the path behind its number; an unknown part is left aside.
abbrev pub task_part : Server → String → ℕ → Task → List String → Request → Handler
task_part server team id task [] req = single_task team id task req
task_part server team id task (part ∷ rest) req =
    if part == "comments"
    then task_comments team id req
    else if part == "attachments"
    then task_attachments team id req
    else if part == "dependencies"
    then task_dependencies team id req
    else if part == "approve"
    then approve team id task req
    else if part == "diff"
    then get_diff server task req
    else if part == "reviews"
    then get_reviews team id req
    else if part == "submit-review"
    then post_review team id req
    else if part == "request-review"
    then request_review team id task req
    else single_task team id task req

-- The number as the database has it.
abbrev pub row_number : ℤ → ℕ
row_number (pos n) = n
row_number (negsuc n) = 0

abbrev pub task_found : Server → String → ℤ → List String → Request → Option Task → Handler
task_found server team n parts req none = write_json_error 404 "task not found"
task_found server team n parts req (some task) = task_part server team (row_number n) task parts req

abbrev pub task_numbered : Server → String → Option ℤ → List String → Request → Handler
task_numbered server team none parts req = write_json_error 400 "invalid task id"
task_numbered server team (some n) parts req =
    checked 500 (task_by_number team n) (task_found server team n parts req)

-- /teams/{team}/tasks/{number}/…
unfoldable pub one_task_of : Server → String → String → List String → Request → Handler
unfolding single_task scan_int
one_task_of server team number parts req = task_numbered server team (scan_int number) parts req

abbrev pub workflow_given : String → Option String
workflow_given id = if id == "" then none else some id

unfoldable pub post_task : String → Request → Handler
post_task team req =
    decoded (decode req λ j. both (text_field (j "title")) (text_field (j "status"))) λ b.
      let (title, status) = b in
      if title == ""
      then write_json_error 400 "title required"
      else if not (status == "") && not (status == "todo") && not (status == "in_progress")
      then write_json_error 400 "status must be todo or in_progress"
      else unchecked "" (get_workflow_id_by_team_and_name team "default" 1) λ workflow.
        checked 400 (create_task team title status (workflow_given workflow)) λ id.
          silently (publish (task_update team id none none none))
            (write_json (number_of "task_id" id))

unfoldable pub all_tasks : String → Request → Handler
unfolding post_task limit_of
all_tasks team req =
    if req.method == "GET"
    then listed 404 (list_tasks team (limit_of 1000 (req.query "limit"))) task_list
    else if req.method == "POST"
    then post_task team req
    else method_not_allowed

-- /teams/{team}/tasks…, by the parts behind `tasks`
unfoldable pub tasks_route : Server → String → List String → Request → Handler
unfolding one_task_of all_tasks
tasks_route server team [] req = all_tasks team req
tasks_route server team (number ∷ parts) req =
    if number == "" then all_tasks team req else one_task_of server team number parts req
