-- ===== src/Store/NextRunnable.antt =====
-- NextRunnableTaskForTeam: which task it returns.
use mathlib.Core.List.{Memᴰ}
use agentary.Prelude.{
  ℕ, ◌≤◌, String, Option, none, some, Bool, true, false, ◌≡◌, refl, sym, ap, ◌∙◌, List, [], ◌∷◌,
  map, select, head?, order_by, All, inl, inr, Bool-cases, Least, order_by-Least,
}
use agentary.Store.Model.{Team, Task, TaskRow, Db}
use agentary.Store.Claims.{named}
use agentary.Store.TaskRuns.{get_team_run}
use agentary.Store.Tasks.{tasks_where}
use agentary.Store.TaskLists.{next_runnable_task_for_team, runnable, stalest_first}
use agentary.Exec.{World, ok}
use agentary.Exec.Run.{bind_run, query_run}

-- The first of the team's runnable tasks in the order of `updated_at`.
abbrev pub stalest : String → Db → Option Task
stalest team d = head? (order_by stalest_first (tasks_where (runnable team) d))

pub next_runnable_run :
    (w : World) (name : String) (t : Team)
    → w.faults ≡ []
    → named name w.db ≡ some t
    → next_runnable_task_for_team name w ≡ (ok (stalest t.team_id w.db), w)
unfolding next_runnable_task_for_team
next_runnable_run w name t quiet e =
    bind_run _ _ w w t (get_team_run w quiet name t e) ∙ query_run w quiet _

-- The contract: a runnable task of the team that was updated no later than any other, or none, and
-- then no task of the team is runnable.
abbrev pub StalestSpec : String → Db → Option Task → Type 0
StalestSpec team d none = All (λ (r : TaskRow). runnable team r ≡ false) d.tasks
StalestSpec team d (some t) =
    (r : TaskRow) × Memᴰ r d.tasks
    × (r.task ≡ t)
    × (runnable team r ≡ true)
    × All (λ (u : TaskRow). runnable team u ≡ true → t.updated_at ≤ u.updated_at) d.tasks

none_passes :
    (p : TaskRow → Bool) (rows : List TaskRow)
    → map (λ (r : TaskRow). r.task) (select p rows) ≡ []
    → All (λ (r : TaskRow). p r ≡ false) rows
none_passes p [] h = tt
none_passes p (r ∷ rows) h = elim (Bool-cases (p r)) [
  | inl e ↦ cc
  | inr e ↦ (e, none_passes p rows (rw e at h))
]

-- A row with the task that passes.
abbrev RowOf : (TaskRow → Bool) → Task → List TaskRow → Type 0
RowOf p t rows = (r : TaskRow) × Memᴰ r rows × (r.task ≡ t) × (p r ≡ true)

row_there :
    (p : TaskRow → Bool) (t : Task) (r : TaskRow) (rows : List TaskRow)
    → RowOf p t rows
    → RowOf p t (r ∷ rows)
row_there p t r rows (s, n, same, passes) = (s, Memᴰ.tail n, same, passes)

row_here :
    (p : TaskRow → Bool) (t : Task) (r : TaskRow) (rows : List TaskRow) (tasks : List Task)
    → p r ≡ true
    → (Memᴰ t tasks → RowOf p t rows)
    → Memᴰ t (r.task ∷ tasks)
    → RowOf p t (r ∷ rows)
row_here p t r rows tasks e k (Memᴰ.head f) = (r, Memᴰ.head refl, sym f, e)
row_here p t r rows tasks e k (Memᴰ.tail n) = row_there p t r rows (k n)

row_of :
    (p : TaskRow → Bool) (t : Task) (rows : List TaskRow)
    → Memᴰ t (map (λ (r : TaskRow). r.task) (select p rows))
    → RowOf p t rows
row_of p t [] m = elim m [ ]
row_of p t (r ∷ rows) m = elim (Bool-cases (p r)) [
  | inl e ↦ row_here p t r rows _ e (λ n. row_of p t rows n) (rw e at m)
  | inr e ↦ row_there p t r rows (row_of p t rows (rw e at m))
]

All-later :
    (p : TaskRow → Bool) (n : ℕ) (rows : List TaskRow)
    → All (λ (t : Task). n ≤ t.updated_at) (map (λ (r : TaskRow). r.task) (select p rows))
    → All (λ (u : TaskRow). p u ≡ true → n ≤ u.updated_at) rows
All-later p n [] h = tt
All-later p n (r ∷ rows) h = elim (Bool-cases (p r)) [
  | inl e ↦ let k = (rw e at h) in ((λ f. k.0), All-later p n rows k.1)
  | inr e ↦ ((λ f. cc), All-later p n rows (rw e at h))
]

stalest_spec :
    (team : String) (d : Db) (o : Option Task)
    → Least (λ (t : Task). t.updated_at) (tasks_where (runnable team) d) o
    → StalestSpec team d o
unfolding tasks_where
stalest_spec team d none h = none_passes (runnable team) d.tasks h
stalest_spec team d (some t) (m, l) =
    let (r, n, same, passes) = row_of (runnable team) t d.tasks m in
    (r, n, same, passes, All-later (runnable team) t.updated_at d.tasks l)

pub stalest-StalestSpec : (team : String) (d : Db) → StalestSpec team d (stalest team d)
unfolding stalest_first
stalest-StalestSpec team d =
    stalest_spec team d _
      (order_by-Least (λ (u : Task). u.updated_at) (tasks_where (runnable team) d))

-- While the driver fails nothing, NextRunnableTaskForTeam of a team that is there returns a runnable
-- task of the team that was updated no later than any other runnable one, and none only if there
-- is none.
pub next_runnable-StalestSpec :
    (w : World) (name : String) (t : Team)
    → w.faults ≡ []
    → named name w.db ≡ some t
    → (o : Option Task) × ((next_runnable_task_for_team name w).0 ≡ ok o)
      × StalestSpec t.team_id w.db o
next_runnable-StalestSpec w name t quiet e = (
  stalest t.team_id w.db,
  ap (λ r. r.0) (next_runnable_run w name t quiet e),
  stalest-StalestSpec t.team_id w.db,
)
