-- ===== src/Store/TaskLinks.antt =====
-- internal/store/queries.go, the dependencies of tasks: AddTaskDependency, ListTaskDependencies.
use agentary.Prelude.{
  ℕ, String, Bool, not, ◌&&◌, List, [], ◌∷◌, ◌++◌, map, eqb, if◌then◌else◌, any, select,
}
use agentary.Store.Model.{TaskDependency, Db}
use agentary.Exec.{
  Exec, Result, ok, err, dependency_not_found, constraint, found, gets, sql, query, ◌>>=◌, ◌>>◌,
}
use agentary.Store.Tasks.{is_task, get_task_by_id_and_team}

-- INSERT OR IGNORE INTO task_dependencies; with foreign keys enforced both tasks have to exist.
unfoldable pub insert_dependency : Bool → TaskDependency → Db → Result (Unit {0}) × Db
insert_dependency foreign_keys r d =
    if any (λ s. eqb s.task_id r.task_id && eqb s.depends_on_task_id r.depends_on_task_id)
      d.dependencies
    then (ok tt, d)
    else if foreign_keys
        && not (any (is_task r.task_id) d.tasks && any (is_task r.depends_on_task_id) d.tasks)
    then (err constraint, d)
    else (ok tt, record d { dependencies = d.dependencies ++ r ∷ [] })

-- AddTaskDependency: of the first lookup only the error counts.
unfoldable pub add_task_dependency : String → ℕ → ℕ → Exec Unit
unfolding insert_dependency
add_task_dependency team_name id depends_on = do
  get_task_by_id_and_team team_name id
  target ← get_task_by_id_and_team team_name depends_on
  found (dependency_not_found depends_on) target
  foreign_keys ← gets (λ w. w.foreign_keys)
  sql (insert_dependency foreign_keys (record { task_id = id; depends_on_task_id = depends_on }))

-- ListTaskDependencies
unfoldable pub list_task_dependencies : String → ℕ → Exec (List ℕ)
list_task_dependencies team_name id = query λ d.
    map (λ (r : TaskDependency). r.depends_on_task_id)
      (select (λ r. eqb r.task_id id) d.dependencies)
