-- ===== src/Http/Routes.antt =====
-- internal/httpapi/server.go: NewApp's routes and middlewares. Paths are those that http.ServeMux
-- hands on: it answers one with an empty or a dotted part by a redirect. The log of the requests and
-- the OpenTelemetry wrapper are left out.
use agentary.Prelude.{
  String, Option, none, some, ◌||◌, List, [], ◌∷◌, ◌==◌, if◌then◌else◌, split, cut_prefix,
}
use agentary.Http.{
  Request, Server, Handler, write_json, write_json_error, not_found, health, event_stream, web_ui,
  empty,
}
use agentary.Http.Tasks.{tasks_route}
use agentary.Http.Resources.{agents_route, charter, repos, workflows_route, messages}
use agentary.Http.Network.{network, network_reset, network_allow, network_disallow}
use agentary.Http.Pages.{get_metrics, get_config, handle_bootstrap, teams, single_team}

-- What follows the name of a team in the path.
abbrev pub team_part : Server → String → String → List String → Request → Handler
team_part server team part parts req =
    if part == ""
    then single_team team req
    else if part == "tasks"
    then tasks_route server team parts req
    else if part == "agents"
    then agents_route server team parts req
    else if part == "charter"
    then charter server team req
    else if part == "repos"
    then repos team req
    else if part == "workflows"
    then workflows_route team parts req
    else if part == "messages"
    then messages team req
    else not_found

-- /teams/…, by the parts of the rest of the path
unfoldable pub team_route : Server → List String → Request → Handler
unfolding single_team tasks_route agents_route charter repos workflows_route messages
team_route server [] req = not_found
team_route server (team ∷ []) req = single_team team req
team_route server (team ∷ part ∷ parts) req = team_part server team part parts req

-- The handler of /metrics that NewApp is given, or its own.
abbrev pub metrics_route : Option Handler → Handler
metrics_route none = get_metrics
metrics_route (some h) = h

-- The paths below /teams/, and the web UI for all that is left.
abbrev pub below_teams : Server → Option String → Request → Handler
below_teams server none req = write_json web_ui
below_teams server (some rest) req = team_route server (split 47 rest) req

-- The mux
unfoldable pub route : Server → Request → Handler
unfolding team_route teams get_metrics get_config handle_bootstrap network network_reset
    network_allow network_disallow cut_prefix split
route server req =
    if req.path == "/health"
    then write_json health
    else if req.path == "/metrics"
    then metrics_route server.metrics_handler
    else if req.path == "/config"
    then get_config server
    else if req.path == "/bootstrap"
    then handle_bootstrap server
    else if req.path == "/stream"
    then write_json event_stream
    else if req.path == "/teams"
    then teams server req
    else if req.path == "/network"
    then network req
    else if req.path == "/network/reset"
    then network_reset req
    else if req.path == "/network/allow"
    then network_allow req
    else if req.path == "/network/disallow"
    then network_disallow req
    else below_teams server (cut_prefix "/teams/" req.path) req

abbrev pub no_content : Handler
no_content w = (record { status = 204; body = empty }, w)

-- corsMiddleware, its headers left out
unfoldable pub cors_middleware : (Request → Handler) → Request → Handler
cors_middleware next req = if req.method == "OPTIONS" then no_content else next req

-- apiKeyMiddleware
unfoldable pub api_key_middleware : String → (Request → Handler) → Request → Handler
api_key_middleware api_key next req =
    let key = if req.api_key_header == "" then req.query "api_key" else req.api_key_header in
    if req.path == "/health" || req.path == "/metrics"
    then next req
    else if key == api_key
    then next req
    else write_json_error 401 "invalid or missing API key"

-- What is behind the API key.
unfoldable pub inner : Server → Request → Handler
unfolding route cors_middleware
inner server req = if server.dev then cors_middleware (route server) req else route server req

-- The handler of the server.
unfoldable pub serve : Server → Request → Handler
unfolding inner api_key_middleware
serve server req =
    if server.api_key == ""
    then inner server req
    else api_key_middleware server.api_key (inner server) req
