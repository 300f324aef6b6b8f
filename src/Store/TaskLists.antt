-- ===== src/Store/TaskLists.antt =====
-- internal/store/queries.go, lists of tasks: ListTasks, ListTasksInStage, NextRunnableTaskForTeam, with
-- the statements that internal/store/store.go prepares for them.
use agentary.Prelude.{
  ℕ, ℤ, pos, negsuc, String, Option, Bool, not, ◌&&◌, ◌||◌, List, leb, eqb, ltb, if◌then◌else◌,
  ◌==◌, head?, take, order_by, holds,
}
use agentary.Store.Model.{Task, TaskRow}
use agentary.Store.Teams.{get_team_by_name}
use agentary.Exec.{Exec, query, ◌>>=◌}
use agentary.Store.Tasks.{tasks_where}

unfoldable pub newest_first : Task → Task → Bool
newest_first a b = leb b.created_at a.created_at

unfoldable pub stalest_first : Task → Task → Bool
stalest_first a b = leb a.updated_at b.updated_at

-- LIMIT: one below 0 is none.
abbrev pub limit_rows : ℤ → List Task → List Task
limit_rows (pos limit) rows = take (if eqb limit 0 || leb 100 limit then 100 else limit) rows
limit_rows (negsuc n) rows = rows

-- ListTasks: a limit of 0 or of 100 and more takes the prepared statement, whose limit is 100.
unfoldable pub list_tasks : String → ℤ → Exec (List Task)
unfolding newest_first tasks_where
list_tasks team_name limit = do
  team ← get_team_by_name team_name
  query
      λ d. limit_rows limit (order_by newest_first (tasks_where (λ r. r.team_id == team.team_id) d))

-- ListTasksInStage: no LIMIT if `limit` is 0.
unfoldable pub list_tasks_in_stage : String → String → ℕ → Exec (List Task)
unfolding tasks_where stalest_first
list_tasks_in_stage team_name stage limit = do
  team ← get_team_by_name team_name
  query λ d.
      let rows =
        order_by stalest_first
          (tasks_where (λ r. r.team_id == team.team_id && holds r.current_stage stage) d) in
      if ltb 0 limit then take limit rows else rows

-- WHERE team_id = ? AND status IN ('todo','in_progress')
--   AND (current_stage IS NULL OR current_stage != 'Merging')
unfoldable pub runnable : String → TaskRow → Bool
runnable team r =
    r.team_id == team
    && (r.status == "todo" || r.status == "in_progress")
    && not (holds r.current_stage "Merging")

-- NextRunnableTaskForTeam: the one that was updated the longest ago.
unfoldable pub next_runnable_task_for_team : String → Exec (Option Task)
unfolding tasks_where runnable stalest_first
next_runnable_task_for_team team_name = do
  team ← get_team_by_name team_name
  query λ d. head? (order_by stalest_first (tasks_where (runnable team.team_id) d))
