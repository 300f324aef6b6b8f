-- ===== src/Store/Teams.antt =====
-- internal/store/queries.go, teams and agents: ListTeams, GetTeamByName, CreateTeam, DeleteTeam,
-- ListAgents, CreateAgent.
use agentary.Prelude.{
  ℕ, String, Bool, ◌&&◌, ◌||◌, List, [], ◌∷◌, ◌++◌, map, leb, eqb, if◌then◌else◌, ◌==◌, any, select,
  find_row, delete_rows, count_rows, order_by,
}
use agentary.Store.Model.{
  Team, Agent, AgentRow, TaskRow, TaskComment, TaskAttachment, TaskDependency, RepoRow, WorkflowRow,
  TaskReview, Message, Db,
}
use agentary.Exec.{
  Exec, Result, ok, err, team_not_found, required, constraint, found, fail, gets, sql, query,
  execute, now, random_id, ◌>>=◌,
}

-- A Team as ListTeams returns it, with the two counts.
pub record TeamSummary : Type 0 where
  pub team : Team
  pub agent_count : ℕ
  pub task_count : ℕ

unfoldable pub summary : Db → Team → TeamSummary
summary d t = record {
  team = t;
  agent_count = count_rows (λ (a : AgentRow). a.team_id == t.team_id) d.agents;
  task_count = count_rows (λ (k : TaskRow). k.team_id == t.team_id) d.tasks;
}

-- ListTeams: every team, oldest first.
unfoldable pub list_teams : Exec (List TeamSummary)
unfolding summary
list_teams = query λ d. map (summary d) (order_by (λ s t. leb s.created_at t.created_at) d.teams)

-- GetTeamByName
unfoldable pub get_team_by_name : String → Exec Team
get_team_by_name name = do
  row ← query (λ d. find_row (λ t. t.name == name) d.teams)
  found (team_not_found name) row

-- `team_id` is the primary key and `name` is UNIQUE.
unfoldable pub insert_team : Team → Db → Result Team × Db
insert_team t d =
    if any (λ s. s.team_id == t.team_id || s.name == t.name) d.teams
    then (err constraint, d)
    else (ok t, record d { teams = d.teams ++ t ∷ [] })

-- CreateTeam
unfoldable pub create_team : String → Exec Team
unfolding insert_team
create_team name = if name == "" then fail (required "team name") else do
  id ← random_id
  at ← now
  sql (insert_team (record { team_id = id; name = name; created_at = at }))

-- Does a task of the team have this number?
unfoldable pub owns_task : String → Db → ℕ → Bool
owns_task id d k = any (λ (r : TaskRow). r.team_id == id && eqb r.task_id k) d.tasks

-- ON DELETE CASCADE of `teams` and, through it, of `tasks`.
unfoldable pub cascade_team : String → Db → Db
unfolding owns_task
cascade_team id d = record d {
  agents = delete_rows (λ (r : AgentRow). r.team_id == id) d.agents;
  repos = delete_rows (λ (r : RepoRow). r.team_id == id) d.repos;
  workflows = delete_rows (λ (r : WorkflowRow). r.team_id == id) d.workflows;
  tasks = delete_rows (λ (r : TaskRow). r.team_id == id) d.tasks;
  messages = delete_rows (λ (r : Message). r.team_id == id) d.messages;
  comments =
      delete_rows (λ (r : TaskComment). r.team_id == id || owns_task id d r.task_id) d.comments;
  attachments =
      delete_rows (λ (r : TaskAttachment). r.team_id == id || owns_task id d r.task_id)
        d.attachments;
  reviews = delete_rows (λ (r : TaskReview). r.team_id == id || owns_task id d r.task_id) d.reviews;
  dependencies =
      delete_rows
        (λ (r : TaskDependency). owns_task id d r.task_id || owns_task id d r.depends_on_task_id)
        d.dependencies;
}

-- DELETE FROM teams WHERE team_id = ?
unfoldable pub delete_team_row : Bool → String → Db → Db
unfolding cascade_team
delete_team_row foreign_keys id d =
    let d' = if foreign_keys then cascade_team id d else d in
    record d' { teams = delete_rows (λ (t : Team). t.team_id == id) d'.teams }

-- DeleteTeam
unfoldable pub delete_team : String → Exec Unit
unfolding delete_team_row
delete_team name = do
  team ← get_team_by_name name
  foreign_keys ← gets (λ w. w.foreign_keys)
  execute (delete_team_row foreign_keys team.team_id)

-- ListAgents: the agents of a team, oldest first.
unfoldable pub list_agents : String → Exec (List Agent)
list_agents team_name = do
  team ← get_team_by_name team_name
  query λ d.
      order_by (λ a b. leb a.created_at b.created_at)
        (map (λ (r : AgentRow). r.agent) (select (λ r. r.team_id == team.team_id) d.agents))

-- `agent_id` is the primary key and (team_id, name) is UNIQUE.
unfoldable pub insert_agent : AgentRow → Db → Result (Unit {0}) × Db
insert_agent r d =
    if any (λ s. s.agent_id == r.agent_id || s.team_id == r.team_id && s.agent.name == r.agent.name)
      d.agents
    then (err constraint, d)
    else (ok tt, record d { agents = d.agents ++ r ∷ [] })

-- CreateAgent
unfoldable pub create_agent : String → String → String → Exec Unit
unfolding insert_agent
create_agent team_name name role = do
  team ← get_team_by_name team_name
  if name == "" then fail (required "agent name") else do
    let role' = if role == "" then "engineer" else role
    id ← random_id
    at ← now
    sql (
        insert_agent (record {
          agent_id = id;
          team_id = team.team_id;
          agent = record { name = name; role = role'; created_at = at };
        }))
