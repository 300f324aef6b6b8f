-- ===== src/Store/Dependencies.antt =====
-- AddTaskDependency: what it checks of the two tasks.
use agentary.Prelude.{
  ℕ, String, some, Bool, true, false, ◌&&◌, ◌≡◌, refl, ap, ◌∙◌, arith, List, [], ◌∷◌, ◌++◌, map,
  select, eqb, any, head?, inl, inr, Bool-cases,
}
use agentary.Store.Model.{Team, Task, TaskDependency, Db}
use agentary.Store.Claims.{named}
use agentary.Store.TaskRuns.{get_team_run}
use agentary.Store.Tasks.{get_task_by_id_and_team, tasks_where, is_team_task}
use agentary.Store.TaskLinks.{add_task_dependency, list_task_dependencies, insert_dependency}
use agentary.Exec.{World, ok, found, gets}
use agentary.Exec.Run.{bind_run, query_run, sql_run}

pub get_task_run :
    (w : World) (name : String) (t : Team) (id : ℕ)
    → w.faults ≡ []
    → named name w.db ≡ some t
    → get_task_by_id_and_team name id w
      ≡ (ok (head? (tasks_where (is_team_task t.team_id id) w.db)), w)
unfolding get_task_by_id_and_team
get_task_run w name t id quiet e =
    bind_run _ _ w w t (get_team_run w quiet name t e) ∙ query_run w quiet _

listed :
    (id depends_on : ℕ) (ds : List TaskDependency)
    → any
        (eqb depends_on)
        (map (λ (r : TaskDependency). r.depends_on_task_id) (select (λ r. eqb r.task_id id) ds))
      ≡ any (λ r. eqb r.task_id id && eqb r.depends_on_task_id depends_on) ds
listed id depends_on [] = refl
listed id depends_on (r ∷ ds) = ground (arith, listed id depends_on ds)

any-snoc :
    (p : TaskDependency → Bool) (ds : List TaskDependency) (r : TaskDependency)
    → p r ≡ true
    → any p (ds ++ r ∷ []) ≡ true
any-snoc p [] r h = rw h refl
any-snoc p (d ∷ ds) r h = ground (arith, any-snoc p ds r h)

inserted :
    (r : TaskDependency) (d : Db)
    → ((insert_dependency false r d).0 ≡ ok tt)
      × (any
            (λ s. eqb s.task_id r.task_id && eqb s.depends_on_task_id r.depends_on_task_id)
            (insert_dependency false r d).1.dependencies
          ≡ true)
unfolding insert_dependency
inserted r d =
    elim (Bool-cases (
      any (λ s. eqb s.task_id r.task_id && eqb s.depends_on_task_id r.depends_on_task_id)
        d.dependencies)) [
          | inl e ↦ rw e (refl, e)
          | inr e ↦ rw e (refl, any-snoc _ d.dependencies r (ground arith))
        ]

-- AddTaskDependency checks only the task that is depended on: if the team has that task, foreign
-- keys are not enforced and the driver fails nothing, the call succeeds for every number of the
-- dependent task, of another team's, of no task or of the same task, and ListTaskDependencies then
-- returns the dependency.
pub add_task_dependency-unchecked :
    (w : World) (name : String) (t : Team) (id depends_on : ℕ) (target : Task)
    → w.faults ≡ []
    → w.foreign_keys ≡ false
    → named name w.db ≡ some t
    → head? (tasks_where (is_team_task t.team_id depends_on) w.db) ≡ some target
    → (ds : List ℕ) × ((add_task_dependency name id depends_on w).0 ≡ ok tt)
      × ((list_task_dependencies name id (add_task_dependency name id depends_on w).1).0 ≡ ok ds)
      × (any (eqb depends_on) ds ≡ true)
unfolding add_task_dependency list_task_dependencies found gets
add_task_dependency-unchecked w name t id depends_on target quiet lax e there =
    let row : TaskDependency = record { task_id = id; depends_on_task_id = depends_on } in
    let run =
      bind_run _ _ w w _ (get_task_run w name t id quiet e)
      ∙ bind_run _ _ w w _ (get_task_run w name t depends_on quiet e)
      ∙ bind_run _ _ w w target (rw there refl)
      ∙ bind_run _ _ w w false (ap (λ b. (ok b, w)) lax)
      ∙ sql_run w quiet (insert_dependency false row) in
    let after : World = record w { db = (insert_dependency false row w.db).1 } in
    let (done, there') = inserted row w.db in
    (
      _,
      ap (λ r. r.0) run ∙ done,
      ap (λ r. (list_task_dependencies name id r.1).0) run
          ∙ ap (λ r. r.0) (query_run after quiet _),
      listed id depends_on after.db.dependencies ∙ there',
    )
