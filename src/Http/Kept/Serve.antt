-- ===== src/Http/Kept/Serve.antt =====
-- The pages, the routes and the middlewares, and with them the whole server.
use agentary.Prelude.{pos, ◌==◌, String, Option, none, some, List, [], ◌∷◌, ◌≡◌}
use agentary.Store.Model.{Db}
use agentary.Store.Teams.{TeamSummary}
use agentary.Store.Reads.{read_rules, list_tasks-Keeps}
use agentary.Exec.Keeps.{Keeps, keeps_rules}
use agentary.Http.{Request, Server, Handler, TaskCounts, Bootstrap}
use agentary.Http.Handles.{Handles, Handles-if, Handles-unchecked}
use agentary.Http.Writes.{Kept, write_rules}
use agentary.Http.Kept.{KeptFor, method_rules}
use agentary.Http.Kept.Tasks.{tasks_route-Handles}
use agentary.Http.Kept.Resources.{
  KeepsOutside, agents_route-Handles, charter-Handles, repos-Handles, workflows_route-Handles,
  messages-Handles, network-Handles, network_reset-Handles, network_allow-Handles,
  network_disallow-Handles,
}
use agentary.Memory.{Files}
use agentary.Memory.Stored.{KeepsFiles, file_rules}
use agentary.Http.Pages.{
  get_bootstrap_id, count_teams, count_tasks, get_metrics, get_config, handle_bootstrap,
  bootstrap_with, post_team, teams, single_team,
}
use agentary.Http.Routes.{
  team_part, team_route, metrics_route, below_teams, route, cors_middleware, no_content,
  api_key_middleware, inner, serve,
}

module _ {ℓ} {P : Db → Type ℓ} where
  count_teams-Handles : (c : TaskCounts) (ts : List TeamSummary) → Handles P (count_teams c ts)
  unfolding count_teams
  count_teams-Handles c [] = search method_rules
  count_teams-Handles c (t ∷ rest) =
      Handles-unchecked [] _ _ (list_tasks-Keeps t.team.name (pos 0))
        (λ tasks. count_teams-Handles (count_tasks c tasks) rest)

  get_metrics-Handles : Handles P get_metrics
  unfolding get_metrics
  get_metrics-Handles = search (method_rules, read_rules, count_teams-Handles)

  single_team-Handles :
      (team : String) (req : Request) → KeptFor P req → Handles P (single_team team req)
  unfolding single_team
  single_team-Handles team req allow = search (method_rules, keeps_rules, write_rules) depth 12

module _ {ℓ} {P : Db → Type ℓ} (files : Files) (kept : KeepsFiles P files) where
  bootstrap_id-Keeps : (home : List String) → Keeps P (get_bootstrap_id files home)
  unfolding get_bootstrap_id
  bootstrap_id-Keeps home = search (keeps_rules, kept.mkdirs, kept.reads, kept.writes) depth 12

module _ {ℓ} {P : Db → Type ℓ} (server : Server) (outside : KeepsOutside P server) where
  get_config-Handles : Handles P (get_config server)
  unfolding get_config
  get_config-Handles = search (method_rules, bootstrap_id-Keeps, outside.files)

  bootstrap_with-Handles :
      (initial : String) (b : Bootstrap) → Handles P (bootstrap_with server initial b)
  bootstrap_with-Handles initial b = search (method_rules, bootstrap_id-Keeps, outside.files)

  handle_bootstrap-Handles : Handles P (handle_bootstrap server)
  unfolding handle_bootstrap
  handle_bootstrap-Handles = search (method_rules, read_rules, bootstrap_with-Handles) depth 16

  post_team-Handles : (req : Request) → Kept P → Handles P (post_team server req)
  unfolding post_team
  post_team-Handles req calls =
      search (method_rules, keeps_rules, write_rules, file_rules, outside.files) depth 12

  teams-Handles : (req : Request) → KeptFor P req → Handles P (teams server req)
  unfolding teams
  teams-Handles req allow = search (method_rules, read_rules, post_team-Handles)

  metrics_route-Handles :
      (own : Option Handler) → server.metrics_handler ≡ own → Handles P (metrics_route own)
  metrics_route-Handles none e = get_metrics-Handles
  metrics_route-Handles (some h) e = outside.own_metrics h e

  module _ (req : Request) (allow : KeptFor P req) where
    team_part-Handles :
        (team part : String) (parts : List String)
        → Handles P (team_part server team part parts req)
    team_part-Handles team part parts =
        search
          (
            method_rules, single_team-Handles, tasks_route-Handles, agents_route-Handles,
            charter-Handles, repos-Handles, workflows_route-Handles, messages-Handles,
            outside.commands,
          )
          depth 20

    team_route-Handles : (parts : List String) → Handles P (team_route server parts req)
    unfolding team_route
    team_route-Handles [] = search method_rules
    team_route-Handles (team ∷ []) = single_team-Handles team req allow
    team_route-Handles (team ∷ part ∷ parts) = team_part-Handles team part parts

    below_teams-Handles : (rest : Option String) → Handles P (below_teams server rest req)
    below_teams-Handles none = search method_rules
    below_teams-Handles (some rest) = team_route-Handles _

    route-Handles : Handles P (route server req)
    unfolding route
    route-Handles =
        search
          (
            method_rules, metrics_route-Handles, get_config-Handles, handle_bootstrap-Handles,
            teams-Handles, network-Handles, network_reset-Handles, network_allow-Handles,
            network_disallow-Handles, below_teams-Handles,
          )
          depth 30

    no_content-Handles : Handles P no_content
    no_content-Handles = record { handled = λ w h. h }

    inner-Handles : Handles P (inner server req)
    unfolding inner cors_middleware
    inner-Handles =
        Handles-if server.dev _ _
          (λ p.
            Handles-if (req.method == "OPTIONS") no_content (route server req)
              (λ q. no_content-Handles) (λ q. route-Handles))
          (λ p. route-Handles)

    guarded-Handles : Handles P (api_key_middleware server.api_key (inner server) req)
    unfolding api_key_middleware
    guarded-Handles = search (method_rules, inner-Handles)

    -- Whatever a request is answered, it keeps what the permitted calls keep, and a GET keeps all
    -- that the machine's programs and files keep.
    pub serve-Handles : Handles P (serve server req)
    unfolding serve
    serve-Handles =
        Handles-if (server.api_key == "") _ _ (λ p. inner-Handles) (λ p. guarded-Handles)
