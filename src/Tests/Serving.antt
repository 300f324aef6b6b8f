-- ===== src/Tests/Serving.antt =====
-- Requests to the server, and runs of the event hub.
use agentary.Prelude.{
  ℕ, String, Option, none, some, true, false, ◌≡◌, refl, List, [], ◌∷◌, ◌++◌, ◌==◌, if◌then◌else◌,
  arith, order_by, find_row, inl, inr,
}
use agentary.Store.Model.{Db, TaskRow, WorkflowRow}
use agentary.Store.Tasks.{tasks_where}
use agentary.Store.TaskLists.{newest_first}
use agentary.Store.Workflows.{
  get_workflow_id_by_team_and_name, get_workflow_initial_stage, stages_of, transitions_of,
  initial_of,
}
use agentary.Store.Teams.{get_team_by_name}
use agentary.Exec.{World, ok, err, no_initial_stage, task_update, workflow_update, ◌>>=◌}
use agentary.Memory.{Files}
use agentary.Hub.{Step, new_hub, subscribe_step, publish_step, receive_step, unsubscribe_step, run}
use agentary.Hub.Channels.{IsSoundHub, hub_never_panics}
use agentary.Hub.Delivery.{
  sent, received, subscriber_gets_all, subscriber_gets_in_order, Within, unsubscribes,
}
use agentary.Http.{
  Server, Request, Json, text, nothing, failure, staged_at, number_of, task_list, accepted,
}
use agentary.Http.Routes.{serve}
use agentary.Http.Kept.Resources.{KeepsOutside}
use agentary.Http.Statuses.{IsStatused}
use agentary.Http.Tasks.{is_allowed, all_tasks, post_task}
use agentary.Http.Reviews.{approve, no_transition}
use agentary.Http.Resources.{init_workflow}
use agentary.Http.Input.{scan_int}
use agentary.Http.Safety.{serve_all, get_changes_nothing, requests-IsStatused, no_key_no_effect}
use agentary.Http.Approval.Effects.{AsksFor, approve-IsMoved, approve_without_transition}
use agentary.Engine.Moves.{Leads, IsEnd, IsMoved}
use agentary.Store.Tasks.{is_task}
use agentary.Http.Creation.{
  post_task_without_initial, get_tasks_unlimited, init_workflow_without_team, with_task,
}
use agentary.Tests.Example.{core, row, ready, reviewing, under_review, good_host}

-- A machine without files.
abbrev files : Files
files = record {
  mkdir_all = λ path w. (ok tt, w);
  read_file = λ path w. (ok none, w);
  write_file = λ path t w. (ok tt, w);
  append_file = λ path t w. (ok tt, w);
  decode_config = λ t. none;
  encode_config = λ c. "";
  format_time = λ n. "";
  format_int = λ n. "";
}

abbrev server : Server
server = record {
  home = "/home";
  api_key = "secret";
  dev = true;
  host = good_host;
  metrics_handler = none;
  home_path = "home" ∷ [];
  files = files;
}

outside : (P : Db → Type 0) → KeepsOutside P server
outside P = record {
  commands = λ dir args. record { kept = λ w h. h };
  files = record {
    mkdirs = λ path. record { kept = λ w h. h };
    reads = λ path. record { kept = λ w h. h };
    writes = λ path t. record { kept = λ w h. h };
  };
  own_metrics = λ h e. absurd (cc);
}

-- A body of one field.
abbrev field : String → String → String → Json
field name value asked = if asked == name then text value else nothing

abbrev request : String → String → Option (String → Json) → Request
request method path body = record {
  method = method;
  path = path;
  query = λ name. if name == "limit" then "-1" else "";
  api_key_header = "secret";
  body = body;
}

abbrev reading : Request
reading = request "GET" "/teams/core/tasks/1" none

abbrev writing : Request
writing = request "PATCH" "/teams/core/tasks/1" (some (field "status" "cancelled"))

get_changes_nothing_example : (serve server reading ready).1.db ≡ ready.db
get_changes_nothing_example = get_changes_nothing server outside reading refl ready

requests-IsStatused_example : IsStatused (serve_all server (writing ∷ reading ∷ []) ready).db
unfolding is_allowed
requests-IsStatused_example =
    requests-IsStatused server outside (writing ∷ reading ∷ []) ready (refl, tt)

abbrev stranger : Request
stranger = record writing { api_key_header = "guess" }

no_key_no_effect_example :
    serve server stranger ready
    ≡ (record { status = 401; body = failure "invalid or missing API key" }, ready)
no_key_no_effect_example =
    no_key_no_effect server stranger ready (λ e. absurd (cc)) (λ e. absurd (cc)) (λ e. absurd (cc))
      (λ e. absurd (cc))

abbrev asking_changes : Request
asking_changes =
    request "POST" "/teams/core/tasks/1/approve" (some (field "outcome" "changes_requested"))

approve-IsMoved_example :
    let (answer, w) = approve "core" 1 under_review asking_changes reviewing in
    (answer ≡ record { status = 200; body = staged_at "Coding" })
    × (w.published ≡ task_update "core" 1 none none (some "Coding") ∷ [])
    × (u : TaskRow) × (find_row (is_task 1) w.db.tasks ≡ some u)
    × IsMoved "Coding" false (row under_review) u
unfolding transitions_of stages_of Leads IsEnd AsksFor
approve-IsMoved_example =
    approve-IsMoved reviewing refl "core" 1 under_review asking_changes
      (field "outcome" "changes_requested") "changes_requested" "changes_requested" "w1" "InReview"
      refl refl refl (inr ((λ e. absurd (cc)), refl)) refl (λ e. absurd (cc)) refl
      (row under_review) "Coding" false refl (inr (inl (λ e. absurd (cc)), inl (refl, refl, refl)))
      (λ e. absurd (cc))
      (
        inr (λ e. absurd (cc)),
        (inl (λ e. absurd (cc)), (inl (λ e. absurd (cc)), (inl (λ e. absurd (cc)), tt))),
      )

abbrev approving : Request
approving = request "POST" "/teams/core/tasks/1/approve" (some (field "outcome" ""))

approve_without_transition_example :
    approve "core" 1 under_review approving reviewing
    ≡ (record { status = 400; body = failure (no_transition "InReview" "approved") }, reviewing)
unfolding transitions_of Leads AsksFor
approve_without_transition_example =
    approve_without_transition reviewing refl "core" 1 under_review approving (field "outcome" "")
      "" "approved" "w1" "InReview" refl refl refl (inl (refl, refl)) refl (λ e. absurd (cc)) refl
      (inr
        (inl (λ e. absurd (cc)), inr (inr (λ e. absurd (cc)), inr (inl (λ e. absurd (cc)), refl))))

abbrev two_fields : String → Json
two_fields name = if name == "title" then text "write docs" else field "status" "todo" name

abbrev default_row : WorkflowRow
default_row = record {
  workflow_id = "w2";
  team_id = "t1";
  workflow = record {
    name = "default";
    version = 1;
    source_path = "builtin:default";
    created_at = 3;
  };
}

abbrev with_default : World
with_default = record ready { db = record ready.db { workflows = default_row ∷ [] } }

default_found :
    get_workflow_id_by_team_and_name "core" "default" 1 with_default ≡ (ok "w2", with_default)
unfolding get_workflow_id_by_team_and_name get_team_by_name ◌>>=◌
default_found = refl

no_initial : (get_workflow_initial_stage "w2" with_default).0 ≡ err no_initial_stage
unfolding get_workflow_initial_stage stages_of transitions_of initial_of ◌>>=◌
no_initial = refl

post_task_without_initial_example :
    post_task "core" (request "POST" "/teams/core/tasks" (some two_fields)) with_default ≡ (
      record { status = 200; body = number_of "task_id" 2 },
      record (with_task core "write docs" "todo" with_default) {
        published = task_update "core" 2 none none none ∷ [];
      },
    )
post_task_without_initial_example =
    post_task_without_initial with_default "core" core
      (request "POST" "/teams/core/tasks" (some two_fields)) two_fields "write docs" "w2" "todo"
      refl refl refl refl (λ e. absurd (cc)) refl refl default_found (λ e. absurd (cc)) no_initial

get_tasks_unlimited_example : all_tasks "core" (request "GET" "/teams/core/tasks" none) ready ≡ (
  record {
    status = 200;
    body = task_list (order_by newest_first (tasks_where (λ r. r.team_id == "t1") ready.db));
  },
  ready,
)
unfolding scan_int
get_tasks_unlimited_example =
    get_tasks_unlimited ready "core" core (request "GET" "/teams/core/tasks" none) 0 refl refl refl
      refl

init_workflow_without_team_example :
    init_workflow "nowhere" (request "POST" "/teams/nowhere/workflows/init" none) ready ≡ (
      record { status = 200; body = accepted },
      record ready { published = workflow_update "nowhere" "default" ∷ [] },
    )
init_workflow_without_team_example =
    init_workflow_without_team ready "nowhere" (request "POST" "/teams/nowhere/workflows/init" none)
      refl refl refl

abbrev steps : List (Step ℕ)
steps =
    subscribe_step
    ∷ publish_step 7
    ∷ receive_step 0
    ∷ publish_step 8
    ∷ unsubscribe_step 0
    ∷ unsubscribe_step 0
    ∷ []

hub_never_panics_example : IsSoundHub (run steps new_hub)
hub_never_panics_example = hub_never_panics steps

abbrev later_steps : List (Step ℕ)
later_steps = publish_step 7 ∷ subscribe_step ∷ receive_step 0 ∷ publish_step 8 ∷ []

subscriber_gets_in_order_example :
    (got : List ℕ) × (received 0 later_steps (run (subscribe_step ∷ []) new_hub)
        ++ ((run later_steps (run (subscribe_step ∷ []) new_hub)).channel 0).buffered
      ≡ ((run (subscribe_step ∷ []) new_hub).channel 0).buffered ++ got)
    × Within got (sent later_steps)
unfolding run
subscriber_gets_in_order_example =
    subscriber_gets_in_order 0 later_steps (run (subscribe_step ∷ []) new_hub) (omega arith)

subscriber_gets_all_example :
    received 0 later_steps (run (subscribe_step ∷ []) new_hub)
      ++ ((run later_steps (run (subscribe_step ∷ []) new_hub)).channel 0).buffered
    ≡ 7 ∷ 8 ∷ []
unfolding run sent unsubscribes
subscriber_gets_all_example =
    subscriber_gets_all 0 later_steps (run (subscribe_step ∷ []) new_hub) (omega arith) refl refl
      (omega arith)
