-- ===== src/Http/Kept/Tasks.antt =====
-- The handlers of a team's tasks.
use agentary.Prelude.{
  ℕ, ℤ, pos, negsuc, String, Option, none, some, List, [], ◌∷◌, true, false, ◌≡◌, not, ◌&&◌, ◌||◌,
  ◌==◌, arith,
}
use agentary.Store.Model.{Db, Task}
use agentary.Store.Reads.{read_rules, get_team_by_name-Keeps}
use agentary.Exec.Keeps.{Keeps, keeps_rules}
use agentary.Http.{Request, Server}
use agentary.Http.Handles.{Handles}
use agentary.Http.Writes.{Kept, update_task-Keeps, create_task-Keeps}
use agentary.Http.Kept.{
  KeptFor, method_rules, task_comments-Handles, task_attachments-Handles, task_dependencies-Handles,
}
use agentary.Http.Kept.Reviews.{
  get_diff-Handles, approve-Handles, get_reviews-Handles, post_review-Handles,
  request_review-Handles,
}
use agentary.Http.Tasks.{
  task_by_number, answer_task, patch_task, single_task, task_part, task_found, task_numbered,
  one_task_of, post_task, all_tasks, tasks_route, is_allowed, row_number,
}

permitted_status :
    (s : String) → (not (s == "") && not (is_allowed s)) ≡ false → (s == "" || is_allowed s) ≡ true
permitted_status s p = ground (arith, p)

permitted_new :
    (s : String)
    → (not (s == "") && not (s == "todo") && not (s == "in_progress")) ≡ false
    → (s == "" || s == "todo" || s == "in_progress") ≡ true
permitted_new s p = ground (arith, p)

module _ {ℓ} {P : Db → Type ℓ} (team : String) where
  task_by_number-Keeps : (n : ℤ) → Keeps P (task_by_number team n)
  task_by_number-Keeps (pos n) = search read_rules
  task_by_number-Keeps (negsuc n) = search (keeps_rules, get_team_by_name-Keeps)

  answer_task-Handles : (id : ℕ) (row : Option Task) → Handles P (answer_task team id row)
  answer_task-Handles id none = search method_rules
  answer_task-Handles id (some t) = search (method_rules, keeps_rules)

  patch_task-Handles : (id : ℕ) (req : Request) → Kept P → Handles P (patch_task team id req)
  unfolding patch_task
  patch_task-Handles id req calls =
      search (method_rules, read_rules, update_task-Keeps, permitted_status, answer_task-Handles)
        depth 16

  single_task-Handles :
      (id : ℕ) (task : Task) (req : Request)
      → KeptFor P req
      → Handles P (single_task team id task req)
  unfolding single_task
  single_task-Handles id task req allow = search (method_rules, patch_task-Handles)

  post_task-Handles : (req : Request) → Kept P → Handles P (post_task team req)
  unfolding post_task
  post_task-Handles req calls =
      search (method_rules, keeps_rules, read_rules, create_task-Keeps, permitted_new) depth 20

  all_tasks-Handles : (req : Request) → KeptFor P req → Handles P (all_tasks team req)
  unfolding all_tasks
  all_tasks-Handles req allow = search (method_rules, read_rules, post_task-Handles)

  module _ (server : Server) (req : Request) (allow : KeptFor P req)
      (commands : (dir : String) (args : List String)
        → Keeps P (server.host.command dir args)) where
    task_part-Handles :
        (id : ℕ) (task : Task) (parts : List String)
        → Handles P (task_part server team id task parts req)
    task_part-Handles id task [] = single_task-Handles id task req allow
    task_part-Handles id task (part ∷ rest) =
        search
          (
            method_rules, task_comments-Handles, task_attachments-Handles,
            task_dependencies-Handles, approve-Handles, get_diff-Handles, get_reviews-Handles,
            post_review-Handles, request_review-Handles, single_task-Handles,
          )
          depth 20

    task_found-Handles :
        (n : ℤ) (parts : List String) (row : Option Task)
        → Handles P (task_found server team n parts req row)
    task_found-Handles n parts none = search method_rules
    task_found-Handles n parts (some t) = task_part-Handles (row_number n) t parts

    task_numbered-Handles :
        (n : Option ℤ) (parts : List String) → Handles P (task_numbered server team n parts req)
    task_numbered-Handles none parts = search method_rules
    task_numbered-Handles (some n) parts =
        search (method_rules, task_by_number-Keeps, task_found-Handles)

    one_task_of-Handles :
        (number : String) (parts : List String)
        → Handles P (one_task_of server team number parts req)
    unfolding one_task_of
    one_task_of-Handles number parts = task_numbered-Handles _ parts

    pub tasks_route-Handles : (parts : List String) → Handles P (tasks_route server team parts req)
    unfolding tasks_route
    tasks_route-Handles [] = all_tasks-Handles req allow
    tasks_route-Handles (number ∷ parts) =
        search (method_rules, all_tasks-Handles, one_task_of-Handles)
