-- ===== src/Http/Pages.antt =====
-- internal/httpapi/server.go: /metrics, /config, /bootstrap, and the collection /teams.
use agentary.Prelude.{suc, pos, String, Option, none, some, List, [], ◌∷◌, ◌==◌, if◌then◌else◌}
use agentary.Store.Model.{Task}
use agentary.Store.Teams.{TeamSummary, list_teams, list_agents, create_team, delete_team}
use agentary.Store.TaskLists.{list_tasks}
use agentary.Store.Records.{list_repos}
use agentary.Store.Workflows.{list_workflows}
use agentary.Store.Network.{list_allowed_domains}
use agentary.Exec.{publish, team_update}
use agentary.Http.{
  Request, Server, Handler, TaskCounts, Bootstrap, write_json, write_json_error, method_not_allowed,
  not_found, checked, listed, unchecked, silently, decoded, accepted, one_team, team_list, metrics,
  configuration, bootstrap,
}
use agentary.Memory.{Files, ensure_team_dirs}
use agentary.Paths.{team_dir}
use Prim.Native.Char.{Char, code}
use Prim.Native.String.{◌++◌ as str_append}
use agentary.Exec.{Exec, Result, ok, err, pure, ignore, attempt, random_id, ◌>>=◌, ◌>>◌}
use agentary.Prelude.{ℕ, Bool, ◌||◌, ◌++◌, eqb}
use agentary.Http.Input.{text_field, decode}

abbrev pub no_counts : TaskCounts
no_counts = record { todo = 0; in_progress = 0; finished = 0; failures = 0 }

-- A task counted by its status.
abbrev pub count_task : Task → TaskCounts → TaskCounts
count_task t c =
    if t.status == "todo"
    then record c { todo = suc c.todo }
    else if t.status == "in_progress"
    then record c { in_progress = suc c.in_progress }
    else if t.status == "done"
    then record c { finished = suc c.finished }
    else if t.status == "failed"
    then record c { failures = suc c.failures }
    else c

-- The tasks of one team, added.
unfoldable pub count_tasks : TaskCounts → List Task → TaskCounts
count_tasks c [] = c
count_tasks c (t ∷ rest) = count_tasks (count_task t c) rest

-- The loop over the teams, and the answer.
unfoldable pub count_teams : TaskCounts → List TeamSummary → Handler
unfolding count_tasks
count_teams c [] = write_json (metrics c)
count_teams c (t ∷ rest) =
    unchecked [] (list_tasks t.team.name (pos 0)) λ tasks. count_teams (count_tasks c tasks) rest

unfoldable pub get_metrics : Handler
unfolding count_teams
get_metrics = unchecked [] list_teams (count_teams no_counts)

abbrev pub is_blank_byte : ℕ → Bool
is_blank_byte c = eqb c 32 || eqb c 10 || eqb c 13 || eqb c 9

-- The two loops of bytesTrimSpace.
unfoldable pub trim_front : String → String
trim_front String.[] = String.[]
trim_front (String.◌∷◌ c s) =
    let rest = trim_front s in if is_blank_byte (code c) then rest else String.◌∷◌ c s

abbrev pub keep_byte : Char → String → String
keep_byte c String.[] = if is_blank_byte (code c) then String.[] else String.◌∷◌ c String.[]
keep_byte c (String.◌∷◌ d s) = String.◌∷◌ c (String.◌∷◌ d s)

unfoldable pub trim_back : String → String
trim_back String.[] = String.[]
trim_back (String.◌∷◌ c s) = keep_byte c (trim_back s)

abbrev pub id_in : Result (Option String) → String
id_in (err e) = ""
id_in (ok none) = ""
id_in (ok (some s)) = trim_back (trim_front s)

-- A new id, which is written if it can be.
abbrev pub new_bootstrap_id : Files → List String → Exec String
new_bootstrap_id files path = do
  id ← random_id
  ignore (files.write_file path (str_append id "\n"))
  pure id

-- getBootstrapID
unfoldable pub get_bootstrap_id : Files → List String → Exec String
unfolding trim_front trim_back
get_bootstrap_id files home = do
  let protected = home ++ "protected" ∷ []
  let path = protected ++ "bootstrap_id" ∷ []
  ignore (files.mkdir_all protected)
  attempt (files.read_file path)
      λ r. if id_in r == "" then new_bootstrap_id files path else pure (id_in r)

unfoldable pub get_config : Server → Handler
get_config server =
    unchecked "" (get_bootstrap_id server.files server.home_path)
      λ id. write_json (configuration (record { hc_home = server.home; bootstrap_id = id }))

-- nilIfEmpty
abbrev pub nil_if_empty : String → Option String
nil_if_empty s = if s == "" then none else some s

abbrev pub first_name : List TeamSummary → String
first_name [] = ""
first_name (t ∷ rest) = t.team.name

-- The answer, once the lists are read.
abbrev pub bootstrap_with : Server → String → Bootstrap → Handler
bootstrap_with server initial b =
    unchecked "" (get_bootstrap_id server.files server.home_path) λ id. write_json (
      bootstrap (record b {
        config = record { hc_home = server.home; bootstrap_id = id };
        initial_team = nil_if_empty initial;
      }))

-- handleBootstrap
unfoldable pub handle_bootstrap : Server → Handler
handle_bootstrap server = unchecked [] list_teams λ teams.
    unchecked [] list_allowed_domains λ allowlist.
      let initial = first_name teams in
      let none_yet : Bootstrap = record {
        config = record { hc_home = ""; bootstrap_id = "" };
        teams = teams;
        initial_team = none;
        tasks = [];
        agents = [];
        repos = [];
        workflows = [];
        allowlist = allowlist;
      } in
      if initial == ""
      then bootstrap_with server initial none_yet
      else unchecked [] (list_tasks initial (pos 0)) λ tasks.
        unchecked [] (list_agents initial) λ agents. unchecked [] (list_repos initial) λ repos.
          unchecked [] (list_workflows initial) λ workflows.
            bootstrap_with server initial (record none_yet {
              tasks = tasks;
              agents = agents;
              repos = repos;
              workflows = workflows;
            })

unfoldable pub post_team : Server → Request → Handler
post_team server req = decoded (decode req λ j. text_field (j "name")) λ name.
    if name == ""
    then write_json_error 400 "name required"
    else checked 400 (create_team name) λ t.
      let announce = silently (publish (team_update t.name)) (write_json (one_team t)) in
      if server.home == ""
      then announce
      else silently (ensure_team_dirs server.files (team_dir server.home_path t.name)) announce

unfoldable pub teams : Server → Request → Handler
unfolding post_team
teams server req =
    if req.method == "GET"
    then listed 500 list_teams team_list
    else if req.method == "POST"
    then post_team server req
    else method_not_allowed

-- /teams/{team}
unfoldable pub single_team : String → Request → Handler
single_team team req =
    if req.method == "DELETE"
    then checked 404 (delete_team team)
        (λ _. silently (publish (team_update team)) (write_json accepted))
    else not_found
