-- ===== src/Store/Demo.antt =====
-- internal/store/queries.go, SeedDemo, which NewApp calls at every start.
use agentary.Prelude.{
  pos, arith, String, some, insert_row, find_row, none, Bool, true, false, not, ◌≡◌, refl, List, [],
  ◌∷◌, ◌==◌, any, order_by, select, map, take, leb, if◌then◌else◌,
}
use agentary.Store.Model.{Team, Agent, AgentRow, Task, Db}
use agentary.Store.Claims.{named}
use agentary.Store.Teams.{TeamSummary, list_teams, summary, create_team, list_agents, create_agent}
use agentary.Store.TaskRuns.{get_team_run}
use agentary.Store.Tasks.{create_task, tasks_where}
use agentary.Store.TaskLists.{list_tasks, newest_first}
use agentary.Exec.Run.{query_run}
use agentary.Exec.{World, Exec, Result, ok, err, pure, ignore, when, attempt, ◌>>=◌, ◌>>◌}

-- len(xs) == 0
abbrev pub none_of : {A : Type 0} → List A → Bool
none_of [] = true
none_of (x ∷ xs) = false

abbrev pub has : String → List Agent → Bool
has name agents = any (λ (a : Agent). a.name == name) agents

abbrev pub seed_task : Result (List Task) → Exec Unit
seed_task (err e) = pure tt
seed_task (ok tasks) =
    when (none_of tasks) (ignore (create_task "default" "Welcome to Agentary" "todo" none))

-- The agents that are missing, then the first task.
abbrev pub seed_agents : Result (List Agent) → Exec Unit
seed_agents (err e) = pure tt
seed_agents (ok agents) = do
  when (not (has "agentary" agents)) (ignore (create_agent "default" "agentary" "manager"))
  when (not (has "alice" agents)) (ignore (create_agent "default" "alice" "engineer"))
  when (not (has "bob" agents)) (ignore (create_agent "default" "bob" "engineer"))
  attempt (list_tasks "default" (pos 0)) seed_task

-- SeedDemo
unfoldable seed_demo : Exec Unit
seed_demo = do
  teams ← list_teams
  (if none_of teams then (create_team "default" >>= λ _. pure tt) else pure tt)
  attempt (list_agents "default") seed_agents

-- The agents of a team, as ListAgents returns them, and its tasks, as ListTasks does.
abbrev pub agents_of : Team → Db → List Agent
agents_of t d =
    order_by (λ (a b : Agent). leb a.created_at b.created_at)
      (map (λ (r : AgentRow). r.agent) (select (λ (r : AgentRow). r.team_id == t.team_id) d.agents))

abbrev pub tasks_of : Team → Db → List Task
tasks_of t d = order_by newest_first (tasks_where (λ r. r.team_id == t.team_id) d)

agents_run :
    (w : World) (t : Team)
    → w.faults ≡ []
    → named "default" w.db ≡ some t
    → list_agents "default" w ≡ (ok (agents_of t w.db), w)
unfolding list_agents ◌>>=◌
agents_run w t quiet e = rw (get_team_run w quiet "default" t e) (rw quiet)

tasks_run :
    (w : World) (t : Team)
    → w.faults ≡ []
    → named "default" w.db ≡ some t
    → list_tasks "default" (pos 0) w ≡ (ok (take 100 (tasks_of t w.db)), w)
unfolding list_tasks ◌>>=◌
tasks_run w t quiet e = rw (get_team_run w quiet "default" t e) (rw quiet)

teams_run :
    (w : World)
    → w.faults ≡ []
    → list_teams w
      ≡ (ok (map (summary w.db) (order_by (λ s t. leb s.created_at t.created_at) w.db.teams)), w)
unfolding list_teams
teams_run w quiet = query_run w quiet _

-- Sorting leaves no list empty that was not.
inserted-some :
    {A B : Type 0} (f : A → B) (le : A → A → Bool) (x : A) (xs : List A)
    → none_of (map f (insert_row le x xs)) ≡ false
inserted-some f le x [] = refl
inserted-some f le x (y ∷ ys) = ground arith

teams-some :
    (f : Team → TeamSummary) (le : Team → Team → Bool) (t : Team) (teams : List Team)
    → find_row (λ (s : Team). s.name == "default") teams ≡ some t
    → none_of (map f (order_by le teams)) ≡ false
teams-some f le t [] e = absurd (cc)
teams-some f le t (s ∷ rest) e = inserted-some f le s (order_by le rest)

-- Where the team "default" has the three agents and a task, SeedDemo changes nothing, while the
-- driver fails nothing: starting the daemon again adds nothing to its own demonstration.
seed_demo-settled :
    (w : World) (t : Team)
    → w.faults ≡ []
    → named "default" w.db ≡ some t
    → has "agentary" (agents_of t w.db) ≡ true
    → has "alice" (agents_of t w.db) ≡ true
    → has "bob" (agents_of t w.db) ≡ true
    → none_of (take 100 (tasks_of t w.db)) ≡ false
    → seed_demo w ≡ (ok tt, w)
unfolding seed_demo ◌>>=◌ attempt
seed_demo-settled w t quiet e a b c k = rw (
  teams_run w quiet,
  teams-some (summary w.db) (λ s t. leb s.created_at t.created_at) t w.db.teams e,
  agents_run w t quiet e,
  a,
  b,
  c,
  tasks_run w t quiet e,
  k,
)
