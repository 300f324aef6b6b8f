-- ===== src/Http/Links.antt =====
-- internal/httpapi/server.go: /teams/{team}/tasks/{id}/comments, attachments and dependencies, of a
-- task that is there.
use agentary.Prelude.{ℕ, zero, suc, ℤ, pos, negsuc, String, ◌==◌, if◌then◌else◌}
use agentary.Store.Records.{
  create_task_comment, list_task_comments, add_task_attachment, remove_task_attachment,
  list_task_attachments,
}
use agentary.Store.TaskLinks.{add_task_dependency, list_task_dependencies}
use agentary.Http.{
  Request, Handler, write_json, write_json_error, method_not_allowed, checked, listed, decoded,
  accepted, number_of, comment_list, attachment_list, depends_on,
}
use agentary.Http.Input.{text_field, int_field, both, decode}

unfoldable pub post_comment : String → ℕ → Request → Handler
post_comment team id req =
    decoded (decode req λ j. both (text_field (j "author")) (text_field (j "body"))) λ b.
      let (author, text) = b in
      let author' = if author == "" then "api" else author in
      checked 400 (create_task_comment team id author' text)
        λ n. write_json (number_of "comment_id" n)

unfoldable pub task_comments : String → ℕ → Request → Handler
unfolding post_comment
task_comments team id req =
    if req.method == "GET"
    then listed 500 (list_task_comments team id) comment_list
    else if req.method == "POST"
    then post_comment team id req
    else method_not_allowed

unfoldable pub post_attachment : String → ℕ → Request → Handler
post_attachment team id req = decoded (decode req λ j. text_field (j "file_path")) λ path.
    if path == ""
    then write_json_error 400 "file_path required"
    else checked 400 (add_task_attachment team id path) λ _. write_json accepted

unfoldable pub delete_attachment : String → ℕ → Request → Handler
delete_attachment team id req =
    let path = req.query "file_path" in
    if path == ""
    then write_json_error 400 "file_path query required"
    else checked 400 (remove_task_attachment team id path) λ _. write_json accepted

unfoldable pub task_attachments : String → ℕ → Request → Handler
unfolding post_attachment delete_attachment
task_attachments team id req =
    if req.method == "GET"
    then listed 500 (list_task_attachments team id) attachment_list
    else if req.method == "POST"
    then post_attachment team id req
    else if req.method == "DELETE"
    then delete_attachment team id req
    else method_not_allowed

-- The number of a task that is depended on, if it is above 0.
abbrev pub depend_on : String → ℕ → ℤ → Handler
depend_on team id (negsuc n) = write_json_error 400 "depends_on_task_id required"
depend_on team id (pos zero) = write_json_error 400 "depends_on_task_id required"
depend_on team id (pos (suc n)) =
    checked 400 (add_task_dependency team id (suc n)) λ _. write_json accepted

unfoldable pub task_dependencies : String → ℕ → Request → Handler
task_dependencies team id req =
    if req.method == "GET"
    then listed 500 (list_task_dependencies team id) depends_on
    else if req.method == "POST"
    then decoded (decode req (λ j. int_field (j "depends_on_task_id"))) (depend_on team id)
    else method_not_allowed
