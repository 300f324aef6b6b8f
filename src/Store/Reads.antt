-- ===== src/Store/Reads.antt =====
-- The methods of the Store that only read: they keep every property of the database.
use agentary.Prelude.{ℕ, ℤ, String}
use agentary.Store.Model.{Db}
use agentary.Store.Teams.{list_teams, get_team_by_name, list_agents}
use agentary.Store.TaskLists.{list_tasks}
use agentary.Store.Tasks.{get_task_by_id_and_team}
use agentary.Store.TaskLinks.{list_task_dependencies}
use agentary.Store.Records.{
  list_task_comments, list_task_attachments, list_task_reviews, list_repos,
}
use agentary.Store.Workflows.{
  list_workflows, get_workflow_stages, get_workflow_transitions, get_workflow_id_by_team_and_name,
}
use agentary.Store.Network.{list_allowed_domains}
use agentary.Store.Messages.{list_messages}
use agentary.Exec.Keeps.{Keeps, keeps_rules}

module _ {ℓ} {P : Db → Type ℓ} where
  pub get_team_by_name-Keeps : (name : String) → Keeps P (get_team_by_name name)
  unfolding get_team_by_name
  get_team_by_name-Keeps name = search keeps_rules

  pub list_teams-Keeps : Keeps P list_teams
  unfolding list_teams
  list_teams-Keeps = search keeps_rules

  ruleset team_rules = (keeps_rules, get_team_by_name-Keeps)

  pub list_agents-Keeps : (team : String) → Keeps P (list_agents team)
  unfolding list_agents
  list_agents-Keeps team = search team_rules

  pub list_tasks-Keeps : (team : String) (limit : ℤ) → Keeps P (list_tasks team limit)
  unfolding list_tasks
  list_tasks-Keeps team limit = search team_rules

  pub get_task-Keeps : (team : String) (id : ℕ) → Keeps P (get_task_by_id_and_team team id)
  unfolding get_task_by_id_and_team
  get_task-Keeps team id = search team_rules

  pub list_task_dependencies-Keeps :
      (team : String) (id : ℕ) → Keeps P (list_task_dependencies team id)
  unfolding list_task_dependencies
  list_task_dependencies-Keeps team id = search team_rules depth 12

  pub list_task_comments-Keeps : (team : String) (id : ℕ) → Keeps P (list_task_comments team id)
  unfolding list_task_comments
  list_task_comments-Keeps team id = search team_rules

  pub list_task_attachments-Keeps :
      (team : String) (id : ℕ) → Keeps P (list_task_attachments team id)
  unfolding list_task_attachments
  list_task_attachments-Keeps team id = search team_rules

  pub list_task_reviews-Keeps : (team : String) (id : ℕ) → Keeps P (list_task_reviews team id)
  unfolding list_task_reviews
  list_task_reviews-Keeps team id = search team_rules

  pub list_repos-Keeps : (team : String) → Keeps P (list_repos team)
  unfolding list_repos
  list_repos-Keeps team = search team_rules

  pub list_workflows-Keeps : (team : String) → Keeps P (list_workflows team)
  unfolding list_workflows
  list_workflows-Keeps team = search team_rules

  pub get_workflow_stages-Keeps : (id : String) → Keeps P (get_workflow_stages id)
  unfolding get_workflow_stages
  get_workflow_stages-Keeps id = search keeps_rules

  pub get_workflow_transitions-Keeps : (id : String) → Keeps P (get_workflow_transitions id)
  unfolding get_workflow_transitions
  get_workflow_transitions-Keeps id = search keeps_rules

  pub get_workflow_id-Keeps :
      (team name : String) (version : ℕ)
      → Keeps P (get_workflow_id_by_team_and_name team name version)
  unfolding get_workflow_id_by_team_and_name
  get_workflow_id-Keeps team name version = search team_rules depth 12

  pub list_allowed_domains-Keeps : Keeps P list_allowed_domains
  unfolding list_allowed_domains
  list_allowed_domains-Keeps = search keeps_rules

  pub list_messages-Keeps :
      (team recipient : String) (limit : ℕ) → Keeps P (list_messages team recipient limit)
  unfolding list_messages
  list_messages-Keeps team recipient limit = search team_rules

pub ruleset read_rules = (
  list_teams-Keeps, list_agents-Keeps, list_tasks-Keeps, get_task-Keeps,
  list_task_dependencies-Keeps, list_task_comments-Keeps, list_task_attachments-Keeps,
  list_task_reviews-Keeps, list_repos-Keeps, list_workflows-Keeps, get_workflow_stages-Keeps,
  get_workflow_transitions-Keeps, get_workflow_id-Keeps, list_allowed_domains-Keeps,
  list_messages-Keeps,
)
