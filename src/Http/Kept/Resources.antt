-- ===== src/Http/Kept/Resources.antt =====
-- The handlers of a team's agents, charter, repositories, workflows and messages, and of the network
-- allowlist.
use agentary.Prelude.{String, Option, none, some, List, [], ◌∷◌, ◌≡◌}
use agentary.Store.Model.{Db}
use agentary.Store.Reads.{read_rules}
use agentary.Exec.Keeps.{Keeps, keeps_rules}
use agentary.Host.{AgentConfig}
use agentary.Http.{Handler, Request, Server}
use agentary.Http.Handles.{Handles}
use agentary.Http.Writes.{Kept, write_rules}
use agentary.Http.Kept.{KeptFor, method_rules}
use agentary.Http.Resources.{
  agent_journal, config_answer, get_agent_config, post_agent, all_agents, agents_route, charter,
  post_repo, repos, init_workflow, post_workflow, all_workflows, workflows_route, post_message,
  messages,
}
use agentary.Memory.Stored.{KeepsFiles, file_rules}
use agentary.Http.Network.{network, network_reset, network_allow, network_disallow}

-- The programs and files of the machine keep the property.
pub record KeepsOutside {ℓ} (P : Db → Type ℓ) (server : Server) : Type ℓ where
  pub commands : (dir : String) (args : List String) → Keeps P (server.host.command dir args)
  pub files : KeepsFiles P server.files
  pub own_metrics : (h : Handler) → server.metrics_handler ≡ some h → Handles P h

module _ {ℓ} {P : Db → Type ℓ} (server : Server) (outside : KeepsOutside P server) (team : String)
    (req : Request) where
  agent_journal-Handles : (agent : String) → Handles P (agent_journal server team agent req)
  unfolding agent_journal
  agent_journal-Handles agent = search (method_rules, file_rules, outside.files)

  config_answer-Handles : (c : Option AgentConfig) → Handles P (config_answer c)
  config_answer-Handles none = search method_rules
  config_answer-Handles (some c) = search method_rules

  get_agent_config-Handles : (agent : String) → Handles P (get_agent_config server team agent req)
  unfolding get_agent_config
  get_agent_config-Handles agent =
      search (method_rules, file_rules, outside.files, config_answer-Handles)

  post_agent-Handles : Kept P → Handles P (post_agent server team req)
  unfolding post_agent
  post_agent-Handles calls =
      search (method_rules, keeps_rules, write_rules, file_rules, outside.files) depth 12

  all_agents-Handles : KeptFor P req → Handles P (all_agents server team req)
  unfolding all_agents
  all_agents-Handles allow = search (method_rules, read_rules, post_agent-Handles)

  pub agents_route-Handles :
      KeptFor P req → (parts : List String) → Handles P (agents_route server team parts req)
  unfolding agents_route
  agents_route-Handles allow [] = all_agents-Handles allow
  agents_route-Handles allow (agent ∷ []) = all_agents-Handles allow
  agents_route-Handles allow (agent ∷ part ∷ rest) =
      search (method_rules, all_agents-Handles, agent_journal-Handles, get_agent_config-Handles)

  pub charter-Handles : KeptFor P req → Handles P (charter server team req)
  unfolding charter
  charter-Handles allow = search (method_rules, file_rules, outside.files) depth 12

module _ {ℓ} {P : Db → Type ℓ} (team : String) (req : Request) where
  post_repo-Handles : Kept P → Handles P (post_repo team req)
  unfolding post_repo
  post_repo-Handles calls = search (method_rules, keeps_rules, write_rules) depth 12

  pub repos-Handles : KeptFor P req → Handles P (repos team req)
  unfolding repos
  repos-Handles allow = search (method_rules, read_rules, post_repo-Handles)

  init_workflow-Handles : KeptFor P req → Handles P (init_workflow team req)
  unfolding init_workflow
  init_workflow-Handles allow = search (method_rules, keeps_rules, write_rules) depth 12

  post_workflow-Handles : Kept P → Handles P (post_workflow team req)
  unfolding post_workflow
  post_workflow-Handles calls = search (method_rules, keeps_rules, write_rules) depth 12

  all_workflows-Handles : KeptFor P req → Handles P (all_workflows team req)
  all_workflows-Handles allow = search (method_rules, read_rules, post_workflow-Handles)

  pub workflows_route-Handles :
      KeptFor P req → (parts : List String) → Handles P (workflows_route team parts req)
  unfolding workflows_route
  workflows_route-Handles allow [] = all_workflows-Handles allow
  workflows_route-Handles allow (part ∷ rest) =
      search (method_rules, init_workflow-Handles, all_workflows-Handles)

  post_message-Handles : Kept P → Handles P (post_message team req)
  unfolding post_message
  post_message-Handles calls = search (method_rules, keeps_rules, write_rules) depth 12

  pub messages-Handles : KeptFor P req → Handles P (messages team req)
  unfolding messages
  messages-Handles allow = search (method_rules, read_rules, post_message-Handles)

module _ {ℓ} {P : Db → Type ℓ} (req : Request) where
  pub network-Handles : Handles P (network req)
  unfolding network
  network-Handles = search (method_rules, read_rules)

  pub network_reset-Handles : KeptFor P req → Handles P (network_reset req)
  unfolding network_reset
  network_reset-Handles allow = search (method_rules, keeps_rules, write_rules) depth 12

  pub network_allow-Handles : KeptFor P req → Handles P (network_allow req)
  unfolding network_allow
  network_allow-Handles allow = search (method_rules, keeps_rules, write_rules) depth 12

  pub network_disallow-Handles : KeptFor P req → Handles P (network_disallow req)
  unfolding network_disallow
  network_disallow-Handles allow = search (method_rules, keeps_rules, write_rules) depth 12
