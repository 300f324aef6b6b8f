-- ===== src/Http/Creation.antt =====
-- POST and GET /teams/{team}/tasks, while the driver fails nothing.
use agentary.Prelude.{
  ℕ, negsuc, String, none, some, true, false, ◌≡◌, ◌≢◌, ◌==◌, ◌||◌, ◌&&◌, not, [], ◌∷◌, ◌++◌,
  if◌then◌else◌, arith, order_by,
}
use agentary.Store.Model.{Team}
use agentary.Store.Claims.{named}
use agentary.Store.Tasks.{create_task, insert_task, tasks_where}
use agentary.Store.TaskLists.{list_tasks, newest_first}
use agentary.Store.TaskRuns.{later, get_team_run}
use agentary.Store.InitialStage.{create_task_without_initial}
use agentary.Store.Workflows.{
  create_workflow, get_workflow_initial_stage, get_workflow_id_by_team_and_name,
}
use agentary.Exec.{
  World, ok, err, no_initial_stage, team_not_found, workflow_update, task_update, publish, ◌>>=◌,
}
use agentary.Http.{Request, Json, text, number_of, accepted, task_list}
use agentary.Http.Input.{scan_int, limit_of}
use agentary.Http.Tasks.{post_task, all_tasks}
use agentary.Http.Resources.{init_workflow}
use agentary.Store.Teams.{get_team_by_name}
use agentary.Http.Approval.{not-blank}

-- The task is there, without workflow and without stage.
abbrev pub with_task : Team → String → String → World → World
with_task t title status w = record (later w) {
  db = (insert_task t.team_id title status (w.clock 0) w.db).1;
}

create_task_run :
    (w : World) (name title status : String) (t : Team)
    → w.faults ≡ []
    → named name w.db ≡ some t
    → title ≢ ""
    → create_task name title status none w
      ≡ (ok w.db.next_task, with_task t title (if status == "" then "todo" else status) w)
unfolding create_task ◌>>=◌ insert_task
create_task_run w name title status t quiet e n =
    rw (get_team_run w quiet name t e) (rw (not-blank title n) (rw quiet))

-- A task that is posted to a team whose workflow "default", version 1, has no initial stage, as the
-- builtin one has none, is stored without workflow and without stage, and the answer is 200 with
-- its number; while the driver fails nothing and the status is "" or "todo" or "in_progress" and
-- the title is not "".
pub post_task_without_initial :
    (w : World) (team : String) (t : Team) (req : Request) (j : String → Json)
    (title workflow : String) (status : String)
    → w.faults ≡ []
    → named team w.db ≡ some t
    → req.body ≡ some j
    → j "title" ≡ text title
    → title ≢ ""
    → j "status" ≡ text status
    → (status == "" || status == "todo" || status == "in_progress") ≡ true
    → get_workflow_id_by_team_and_name team "default" 1 w ≡ (ok workflow, w)
    → workflow ≢ ""
    → (get_workflow_initial_stage workflow w).0 ≡ err no_initial_stage
    → let done = with_task t title (if status == "" then "todo" else status) w in
      post_task team req w ≡ (
        record { status = 200; body = number_of "task_id" w.db.next_task },
        record done {
          published = done.published ++ task_update team w.db.next_task none none none ∷ [];
        },
      )
unfolding post_task publish
post_task_without_initial w team t req j title workflow status quiet e b jt n js k wf nw
      no_initial =
    rw (
      b,
      jt,
      js,
      not-blank title n,
      permitted status k,
      wf,
      not-blank workflow nw,
      create_task_without_initial w team title status workflow quiet no_initial,
      create_task_run w team title status t quiet e n,
    )
  where
    permitted :
        (s : String)
        → (s == "" || s == "todo" || s == "in_progress") ≡ true
        → (not (s == "") && not (s == "todo") && not (s == "in_progress")) ≡ false
    permitted s p = ground (arith, p)

unlimited_run :
    (w : World) (team : String) (t : Team) (n : ℕ)
    → w.faults ≡ []
    → named team w.db ≡ some t
    → list_tasks team (negsuc n) w
      ≡ (ok (order_by newest_first (tasks_where (λ r. r.team_id == t.team_id) w.db)), w)
unfolding list_tasks ◌>>=◌
unlimited_run w team t n quiet e = rw (get_team_run w quiet team t e) (rw quiet)

-- GET of a team's tasks with a limit below 0 answers all of them, newest first, while the driver
-- fails nothing and the team is there: neither the handler's maximum of 1000 nor the store's of 100
-- holds.
pub get_tasks_unlimited :
    (w : World) (team : String) (t : Team) (req : Request) (n : ℕ)
    → w.faults ≡ []
    → named team w.db ≡ some t
    → req.method ≡ "GET"
    → scan_int (req.query "limit") ≡ some (negsuc n)
    → all_tasks team req w ≡ (
      record {
        status = 200;
        body = task_list (order_by newest_first (tasks_where (λ r. r.team_id == t.team_id) w.db));
      },
      w,
    )
unfolding all_tasks limit_of
get_tasks_unlimited w team t req n quiet e get l =
    rw (get, l) (rw (unlimited_run w team t n quiet e))

no_team_run :
    (w : World) (team name path : String)
    → w.faults ≡ []
    → named team w.db ≡ none
    → create_workflow team name 1 path w ≡ (err (team_not_found team), w)
unfolding create_workflow get_team_by_name ◌>>=◌
no_team_run w team name path quiet e = rw quiet (rw e)

-- POST of /teams/{team}/workflows/init for a team that is not there is answered 200 with
-- {"ok": true}, and announced as a change, while nothing is stored and the driver fails nothing.
pub init_workflow_without_team :
    (w : World) (team : String) (req : Request)
    → w.faults ≡ []
    → named team w.db ≡ none
    → req.method ≡ "POST"
    → init_workflow team req w ≡ (
      record { status = 200; body = accepted },
      record w { published = w.published ++ workflow_update team "default" ∷ [] },
    )
unfolding init_workflow publish
init_workflow_without_team w team req quiet e post =
    rw (post, no_team_run w team "default" "builtin:default" quiet e)
