-- ===== src/Store/Tasks.antt =====
-- internal/store/queries.go, tasks: CreateTask, UpdateTask, ClaimTask, SetTaskFailed, RequeueTask,
-- SetTaskCancelled, ClearTaskGitFields, UpdateTaskGitFields, RewindTask, GetTaskByIDAndTeam,
-- UpdateTaskStage, SetTaskWorkflowAndStage, with the statements that internal/store/store.go prepares.
use agentary.Prelude.{
  ℕ, suc, ◌+◌, String, Option, none, some, Bool, not, ◌&&◌, List, [], ◌∷◌, ◌++◌, map, eqb, ltb,
  if◌then◌else◌, ◌==◌, head?, select, update_rows, count_rows, is_blank, or_empty,
}
use agentary.Store.Model.{Task, TaskRow, Db}
use agentary.Store.Teams.{get_team_by_name}
use agentary.Store.Workflows.{get_workflow_initial_stage}
use agentary.Exec.{
  Exec, Result, ok, err, required, task_not_found, found, pure, sql, query, execute, now, ◌>>=◌,
  ◌>>◌, attempt, ignore, guard, when,
}

-- UPDATE tasks SET … WHERE …
abbrev pub update_tasks : (TaskRow → Bool) → (Task → Task) → Db → Db
update_tasks p f d = record d { tasks = update_rows p (λ r. record r { task = f r.task }) d.tasks }

-- WHERE task_id=?
abbrev pub is_task : ℕ → TaskRow → Bool
is_task id r = eqb r.task_id id

-- WHERE task_id=? AND team_id=?
abbrev pub is_team_task : String → ℕ → TaskRow → Bool
is_team_task team id r = eqb r.task_id id && r.team_id == team

-- The tasks of the rows that pass.
unfoldable pub tasks_where : (TaskRow → Bool) → Db → List Task
tasks_where p d = map (λ (r : TaskRow). r.task) (select p d.tasks)

-- stmtCreateTask, and the key that AUTOINCREMENT gives.
unfoldable pub insert_task : String → String → String → ℕ → Db → Result ℕ × Db
insert_task team title status at d = (
  ok d.next_task,
  record d {
    tasks =
        d.tasks
        ++ record {
          team_id = team;
          task = record {
            task_id = d.next_task;
            title = title;
            status = status;
            assignee = none;
            dri = none;
            attempt_count = 0;
            workflow_id = none;
            current_stage = none;
            worktree_path = none;
            branch_name = none;
            base_sha = none;
            repo_name = none;
            created_at = at;
            updated_at = at;
          };
        }
          ∷ [];
    next_task = suc d.next_task;
  },
)

unfoldable pub staged : String → ℕ → Task → Task
staged stage at t = record t { current_stage = some stage; updated_at = at }

unfoldable pub in_workflow : Option String → String → ℕ → Task → Task
in_workflow workflow_id stage at t = record t {
  workflow_id = workflow_id;
  current_stage = some stage;
  updated_at = at;
}

-- The stage of a new task, from what GetWorkflowInitialStage returned.
unfoldable pub set_stage : ℕ → Option String → Result String → ℕ → Exec Unit
unfolding in_workflow
set_stage id workflow_id (err e) at = pure tt
set_stage id workflow_id (ok initial) at =
    ignore (execute (update_tasks (is_task id) (in_workflow workflow_id initial at)))

-- CreateTask: a workflow with no initial stage leaves the task without workflow, and is no error.
unfoldable pub create_task : String → String → String → Option String → Exec ℕ
unfolding insert_task set_stage
create_task team_name title status workflow_id = do
  team ← get_team_by_name team_name
  guard (not (title == "")) (required "title")
  let status' = if status == "" then "todo" else status
  at ← now
  id ← sql (insert_task team.team_id title status' at)
  when (not (is_blank workflow_id)) (
      attempt (get_workflow_initial_stage (or_empty workflow_id))
        λ initial. set_stage id workflow_id initial at)
  pure id

-- stmtUpdateTaskStatus and stmtUpdateTaskAssign: an empty status leaves the column.
unfoldable pub assign : String → Option String → ℕ → Task → Task
assign status assignee at t =
    if status == ""
    then record t { assignee = assignee; updated_at = at }
    else record t { status = status; assignee = assignee; updated_at = at }

-- UpdateTask: an assignee of nil clears the column.
unfoldable pub update_task : ℕ → String → Option String → Exec Unit
unfolding assign
update_task id status assignee = do
  at ← now
  execute (update_tasks (is_task id) (assign status assignee at))

-- COALESCE(dri, ?)
unfoldable pub coalesce : Option String → String → Option String
coalesce none s = some s
coalesce (some d) s = some d

-- SET status='in_progress', assignee=?, updated_at=?, dri=COALESCE(dri, ?)
unfoldable pub claimed : String → ℕ → Task → Task
unfolding coalesce
claimed assignee at t = record t {
  status = "in_progress";
  assignee = some assignee;
  dri = coalesce t.dri assignee;
  updated_at = at;
}

-- WHERE task_id=? AND team_id=? AND status='todo'
unfoldable pub claimable : String → ℕ → TaskRow → Bool
claimable team id r = is_team_task team id r && r.status == "todo"

-- stmtClaimTask, and its RowsAffected.
unfoldable pub claim_row : String → ℕ → String → ℕ → Db → Result ℕ × Db
unfolding claimed claimable
claim_row team id assignee at d = (
  ok (count_rows (claimable team id) d.tasks),
  update_tasks (claimable team id) (claimed assignee at) d,
)

-- ClaimTask: true if this call took the task.
unfoldable pub claim_task : String → ℕ → String → Exec Bool
unfolding claim_row
claim_task team_name id assignee = do
  team ← get_team_by_name team_name
  at ← now
  n ← sql (claim_row team.team_id id assignee at)
  pure (ltb 0 n)

unfoldable pub failed : ℕ → Task → Task
failed at t = record t { status = "failed"; updated_at = at; attempt_count = t.attempt_count + 1 }

-- SetTaskFailed
unfoldable pub set_task_failed : ℕ → Exec Unit
unfolding failed
set_task_failed id = do at ← now; execute (update_tasks (is_task id) (failed at))

unfoldable pub unassigned : String → ℕ → Task → Task
unassigned status at t = record t { status = status; assignee = none; updated_at = at }

-- RequeueTask
unfoldable pub requeue_task : String → ℕ → Exec Unit
unfolding unassigned
requeue_task team_name id = do
  team ← get_team_by_name team_name
  at ← now
  execute (update_tasks (is_team_task team.team_id id) (unassigned "todo" at))

-- SetTaskCancelled
unfoldable pub set_task_cancelled : String → ℕ → Exec Unit
unfolding unassigned
set_task_cancelled team_name id = do
  team ← get_team_by_name team_name
  at ← now
  execute (update_tasks (is_team_task team.team_id id) (unassigned "cancelled" at))

unfoldable pub with_git :
    Option String → Option String → Option String → Option String → ℕ → Task → Task
with_git worktree_path branch_name base_sha repo_name at t = record t {
  worktree_path = worktree_path;
  branch_name = branch_name;
  base_sha = base_sha;
  repo_name = repo_name;
  updated_at = at;
}

-- UpdateTaskGitFields
unfoldable pub update_task_git_fields :
    ℕ → Option String → Option String → Option String → Option String → Exec Unit
unfolding with_git
update_task_git_fields id worktree_path branch_name base_sha repo_name = do
  at ← now
  execute (update_tasks (is_task id) (with_git worktree_path branch_name base_sha repo_name at))

-- ClearTaskGitFields
unfoldable pub clear_task_git_fields : ℕ → Exec Unit
unfolding with_git
clear_task_git_fields id = do
  at ← now
  execute (update_tasks (is_task id) (with_git none none none none at))

-- GetTaskByIDAndTeam: `none` if the team has no such task.
unfoldable pub get_task_by_id_and_team : String → ℕ → Exec (Option Task)
unfolding tasks_where
get_task_by_id_and_team team_name id = do
  team ← get_team_by_name team_name
  query λ d. head? (tasks_where (is_team_task team.team_id id) d)

unfoldable pub rewound : Option String → ℕ → Task → Task
rewound stage at t = record t {
  status = "todo";
  assignee = none;
  current_stage = stage;
  updated_at = at;
}

-- RewindTask
unfoldable pub rewind_task : String → ℕ → Exec Unit
unfolding rewound
rewind_task team_name id = do
  row ← get_task_by_id_and_team team_name id
  task ← found task_not_found row
  team ← get_team_by_name team_name
  at ← now
  if is_blank task.workflow_id
      then execute (update_tasks (is_team_task team.team_id id) (rewound none at))
      else do
        initial ← get_workflow_initial_stage (or_empty task.workflow_id)
        execute (update_tasks (is_team_task team.team_id id) (rewound (some initial) at))

-- UpdateTaskStage
unfoldable pub update_task_stage : ℕ → String → Exec Unit
unfolding staged
update_task_stage id stage = do at ← now; execute (update_tasks (is_task id) (staged stage at))

-- SetTaskWorkflowAndStage
unfoldable pub set_task_workflow_and_stage : ℕ → String → String → Exec Unit
unfolding in_workflow
set_task_workflow_and_stage id workflow_id stage = do
  at ← now
  execute (update_tasks (is_task id) (in_workflow (some workflow_id) stage at))
