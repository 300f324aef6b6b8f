-- ===== src/Http/Resources.antt =====
-- internal/httpapi/server.go: the agents, the charter, the repositories, the workflows and the
-- messages of a team.
use Prim.Native.Nat.{◌*◌}
use agentary.Prelude.{
  ℕ, ℤ, pos, negsuc, String, Option, none, some, ◌&&◌, not, List, [], ◌∷◌, ◌==◌, if◌then◌else◌,
}
use agentary.Store.Teams.{list_agents, create_agent}
use agentary.Store.Records.{list_repos, create_repo}
use agentary.Store.Workflows.{list_workflows, create_workflow}
use agentary.Store.Messages.{create_message, list_messages}
use agentary.Exec.{publish, agent_update, repo_update, workflow_update, message_created}
use agentary.Host.{AgentConfig}
use agentary.Http.{
  Request, Server, Handler, write_json, write_json_error, method_not_allowed, checked, listed,
  silently, decoded, accepted, number_of, content, agent_config, agent_list, repo_list,
  workflow_list, message_list,
}
use agentary.Memory.{read_journal, load_agent_config, ensure_agent_dir, read_charter, write_charter}
use agentary.Paths.{team_dir, agent_dir}
use agentary.Http.Input.{text_field, optional_text, int_field, both, decode, limit_of}

-- An `int` whose value below 1 the callee treats as 0.
abbrev pub above_zero : ℤ → ℕ
above_zero (pos n) = n
above_zero (negsuc n) = 0

unfoldable pub agent_journal : Server → String → String → Request → Handler
unfolding limit_of
agent_journal server team agent req =
    if not (req.method == "GET")
    then method_not_allowed
    else if server.home == ""
    then write_json_error 400 "home not configured"
    else listed 500
        (read_journal server.files (team_dir server.home_path team) agent
          (above_zero (limit_of (512 * 1024) (req.query "limit"))))
        content

abbrev pub config_answer : Option AgentConfig → Handler
config_answer none = write_json (agent_config "" 0)
config_answer (some c) = write_json (agent_config c.model c.max_tokens)

unfoldable pub get_agent_config : Server → String → String → Request → Handler
get_agent_config server team agent req =
    if not (req.method == "GET")
    then method_not_allowed
    else if server.home == ""
    then write_json_error 400 "home not configured"
    else checked 500
        (load_agent_config server.files (agent_dir (team_dir server.home_path team) agent))
        config_answer

unfoldable pub post_agent : Server → String → Request → Handler
post_agent server team req =
    decoded (decode req λ j. both (text_field (j "name")) (text_field (j "role"))) λ b.
      let (name, role) = b in
      checked 400 (create_agent team name role) λ _.
        let announce = silently (publish (agent_update team name)) (write_json accepted) in
        if server.home == ""
        then announce
        else silently (ensure_agent_dir server.files (team_dir server.home_path team) name) announce

unfoldable pub all_agents : Server → String → Request → Handler
unfolding post_agent
all_agents server team req =
    if req.method == "GET"
    then listed 404 (list_agents team) agent_list
    else if req.method == "POST"
    then post_agent server team req
    else method_not_allowed

-- /teams/{team}/agents…, by the parts behind `agents`
unfoldable pub agents_route : Server → String → List String → Request → Handler
unfolding agent_journal get_agent_config all_agents
agents_route server team [] req = all_agents server team req
agents_route server team (agent ∷ []) req = all_agents server team req
agents_route server team (agent ∷ part ∷ rest) req =
    if part == "journal" && not (agent == "")
    then agent_journal server team agent req
    else if part == "config" && not (agent == "")
    then get_agent_config server team agent req
    else all_agents server team req

unfoldable pub charter : Server → String → Request → Handler
charter server team req =
    if req.method == "GET"
    then listed 500 (read_charter server.files (team_dir server.home_path team)) content
    else if req.method == "PUT"
    then decoded (decode req (λ j. text_field (j "content"))) (λ text.
      checked 500 (write_charter server.files (team_dir server.home_path team) text)
        λ _. write_json accepted)
    else method_not_allowed

unfoldable pub post_repo : String → Request → Handler
post_repo team req =
    decoded
      (decode req λ j.
        both (both (text_field (j "name")) (text_field (j "source")))
          (both (text_field (j "approval")) (optional_text (j "test_cmd"))))
      λ b.
        let ((name, source), (approval, test_cmd)) = b in
        if not (approval == "") && not (approval == "auto") && not (approval == "manual")
        then write_json_error 400 "approval must be auto or manual"
        else checked 400 (create_repo team name source approval test_cmd)
            λ _. silently (publish (repo_update team name)) (write_json accepted)

unfoldable pub repos : String → Request → Handler
unfolding post_repo
repos team req =
    if req.method == "GET"
    then listed 404 (list_repos team) repo_list
    else if req.method == "POST"
    then post_repo team req
    else method_not_allowed

-- /teams/{team}/workflows/init
unfoldable pub init_workflow : String → Request → Handler
init_workflow team req =
    if not (req.method == "POST")
    then method_not_allowed
    else silently (create_workflow team "default" 1 "builtin:default")
        (silently (publish (workflow_update team "default")) (write_json accepted))

unfoldable pub post_workflow : String → Request → Handler
post_workflow team req =
    decoded
      (decode req λ j.
        both (text_field (j "name")) (both (int_field (j "version")) (text_field (j "source"))))
      λ b.
        let (name, (version, source)) = b in
        checked 400 (create_workflow team name (above_zero version) source)
          λ _. silently (publish (workflow_update team name)) (write_json accepted)

abbrev pub all_workflows : String → Request → Handler
all_workflows team req =
    if req.method == "GET"
    then listed 404 (list_workflows team) workflow_list
    else if req.method == "POST"
    then post_workflow team req
    else method_not_allowed

-- /teams/{team}/workflows…, by the parts behind `workflows`
unfoldable pub workflows_route : String → List String → Request → Handler
unfolding init_workflow post_workflow
workflows_route team [] req = all_workflows team req
workflows_route team (part ∷ rest) req =
    if part == "init" then init_workflow team req else all_workflows team req

unfoldable pub post_message : String → Request → Handler
post_message team req =
    decoded
      (decode req λ j.
        both (text_field (j "sender"))
          (both (text_field (j "recipient")) (text_field (j "content"))))
      λ b.
        let (sender, (recipient, text)) = b in
        if recipient == ""
        then write_json_error 400 "recipient required"
        else checked 400
            (create_message team (if sender == "" then "api" else sender) recipient text)
            λ id.
              silently (publish (message_created team id)) (write_json (number_of "message_id" id))

unfoldable pub messages : String → Request → Handler
unfolding post_message limit_of
messages team req =
    if req.method == "GET"
    then listed 500
        (list_messages team (req.query "recipient") (above_zero (limit_of 500 (req.query "limit"))))
        message_list
    else if req.method == "POST"
    then post_message team req
    else method_not_allowed
