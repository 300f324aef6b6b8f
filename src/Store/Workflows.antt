-- ===== src/Store/Workflows.antt =====
-- internal/store/queries.go, workflows: ListWorkflows, CreateWorkflow, CreateWorkflowWithStages,
-- seedDefaultWorkflowStages, GetWorkflowStages, GetWorkflowTransitions, GetWorkflowIDByTeamAndName,
-- GetWorkflowInitialStage.
use agentary.Prelude.{
  ℕ, String, Option, none, some, Bool, not, ◌&&◌, ◌||◌, List, [], ◌∷◌, ◌++◌, map, leb, eqb, ltb,
  if◌then◌else◌, ◌==◌, text_le, any, select, find_row, delete_rows, order_by,
}
use agentary.Store.Model.{Workflow, WorkflowRow, WorkflowStage, WorkflowTransition, Db}
use agentary.Store.Teams.{get_team_by_name}
use agentary.Exec.{
  Exec, Result, ok, err, required, bad_version, no_initial_stage, constraint, found, pure, sql,
  query, execute, now, random_id, ◌>>=◌, ◌>>◌, ignore, guard, when,
}

-- ORDER BY name ASC, version DESC
unfoldable pub workflow_le : Workflow → Workflow → Bool
workflow_le a b = if a.name == b.name then leb b.version a.version else text_le a.name b.name

-- ListWorkflows
unfoldable pub list_workflows : String → Exec (List Workflow)
unfolding workflow_le
list_workflows team_name = do
  team ← get_team_by_name team_name
  query λ d.
      order_by workflow_le (
        map (λ (r : WorkflowRow). r.workflow) (select (λ r. r.team_id == team.team_id) d.workflows))

-- (workflow_id, stage_name) is the primary key: a second row is refused, or left out by OR IGNORE.
unfoldable pub insert_stage : WorkflowStage → Db → Result (Unit {0}) × Db
insert_stage s d =
    if any (λ r. r.workflow_id == s.workflow_id && r.stage_name == s.stage_name) d.stages
    then (err constraint, d)
    else (ok tt, record d { stages = d.stages ++ s ∷ [] })

-- (workflow_id, from_stage, outcome) is the primary key.
unfoldable pub insert_transition : WorkflowTransition → Db → Result (Unit {0}) × Db
insert_transition t d =
    if any
      (λ r.
        r.workflow_id == t.workflow_id && r.from_stage == t.from_stage && r.outcome == t.outcome)
      d.transitions
    then (err constraint, d)
    else (ok tt, record d { transitions = d.transitions ++ t ∷ [] })

-- One `_, _ = ExecContext(INSERT …)` for each stage, with the workflow's own id.
unfoldable pub insert_stages : String → List WorkflowStage → Exec Unit
unfolding insert_stage
insert_stages id [] = pure tt
insert_stages id (s ∷ rest) = do
  ignore (sql (insert_stage (record s { workflow_id = id })))
  insert_stages id rest

unfoldable pub insert_transitions : String → List WorkflowTransition → Exec Unit
unfolding insert_transition
insert_transitions id [] = pure tt
insert_transitions id (t ∷ rest) = do
  ignore (sql (insert_transition (record t { workflow_id = id })))
  insert_transitions id rest

abbrev pub stage : String → String → String → WorkflowStage
stage name type outcomes = record {
  workflow_id = "";
  stage_name = name;
  stage_type = type;
  outcomes = outcomes;
  candidate_agents = "";
}

abbrev pub transition : String → String → String → WorkflowTransition
transition from outcome to = record {
  workflow_id = "";
  from_stage = from;
  outcome = outcome;
  to_stage = to;
}

abbrev pub default_stages : List WorkflowStage
default_stages =
    stage "Coding" "agent" "submit_for_review,done"
    ∷ stage "InReview" "agent" "approved,changes_requested"
    ∷ stage "InApproval" "human" "approved,changes_requested"
    ∷ stage "Merging" "merge" "done"
    ∷ stage "Done" "terminal" ""
    ∷ []

abbrev pub default_transitions : List WorkflowTransition
default_transitions =
    transition "Coding" "submit_for_review" "InReview"
    ∷ transition "Coding" "done" "Done"
    ∷ transition "InReview" "approved" "InApproval"
    ∷ transition "InReview" "changes_requested" "Coding"
    ∷ transition "InApproval" "approved" "Merging"
    ∷ transition "InApproval" "changes_requested" "Coding"
    ∷ transition "Merging" "done" "Done"
    ∷ []

-- seedDefaultWorkflowStages
unfoldable pub seed_default_workflow_stages : String → Exec Unit
unfolding insert_stages insert_transitions
seed_default_workflow_stages id = do
  insert_stages id default_stages
  insert_transitions id default_transitions

-- `workflow_id` is the primary key and (team_id, name, version) is UNIQUE.
unfoldable pub insert_workflow : WorkflowRow → Db → Result (Unit {0}) × Db
insert_workflow r d =
    if any
      (λ s.
        s.workflow_id == r.workflow_id
        || s.team_id == r.team_id
          && s.workflow.name == r.workflow.name
          && eqb s.workflow.version r.workflow.version)
      d.workflows
    then (err constraint, d)
    else (ok tt, record d { workflows = d.workflows ++ r ∷ [] })

-- CreateWorkflow
unfoldable pub create_workflow : String → String → ℕ → String → Exec String
unfolding insert_workflow
create_workflow team_name name version source_path = do
  team ← get_team_by_name team_name
  guard (not (name == "")) (required "workflow name")
  guard (ltb 0 version) bad_version
  guard (not (source_path == "")) (required "workflow source path")
  id ← random_id
  at ← now
  sql (
      insert_workflow (record {
        workflow_id = id;
        team_id = team.team_id;
        workflow = record {
          name = name;
          version = version;
          source_path = source_path;
          created_at = at;
        };
      }))
  when (name == "default" && eqb version 1) (ignore (seed_default_workflow_stages id))
  pure id

-- CreateWorkflowWithStages
unfoldable pub create_workflow_with_stages :
    String → String → ℕ → String → List WorkflowStage → List WorkflowTransition → Exec String
create_workflow_with_stages team_name name version source_path stages transitions = do
  id ← create_workflow team_name name version source_path
  ignore (
      execute λ d. record d {
        stages = delete_rows (λ (s : WorkflowStage). s.workflow_id == id) d.stages;
      })
  ignore (
      execute λ d. record d {
        transitions = delete_rows (λ (t : WorkflowTransition). t.workflow_id == id) d.transitions;
      })
  insert_stages id stages
  insert_transitions id transitions
  pure id

-- The rows of `workflow_stages` that a workflow has, ORDER BY stage_name.
unfoldable pub stages_of : String → Db → List WorkflowStage
stages_of id d =
    order_by (λ s t. text_le s.stage_name t.stage_name) (select (λ s. s.workflow_id == id) d.stages)

unfoldable pub transitions_of : String → Db → List WorkflowTransition
transitions_of id d = select (λ t. t.workflow_id == id) d.transitions

-- GetWorkflowStages
unfoldable pub get_workflow_stages : String → Exec (List WorkflowStage)
get_workflow_stages id = query (stages_of id)

-- GetWorkflowTransitions
unfoldable pub get_workflow_transitions : String → Exec (List WorkflowTransition)
get_workflow_transitions id = query (transitions_of id)

abbrev pub id_or_empty : Option WorkflowRow → String
id_or_empty none = ""
id_or_empty (some r) = r.workflow_id

-- GetWorkflowIDByTeamAndName: "" if there is none.
unfoldable pub get_workflow_id_by_team_and_name : String → String → ℕ → Exec String
get_workflow_id_by_team_and_name team_name name version = do
  team ← get_team_by_name team_name
  row ← query λ d.
      find_row
        (λ (r : WorkflowRow).
          r.team_id == team.team_id && r.workflow.name == name && eqb r.workflow.version version)
        d.workflows
  pure (id_or_empty row)

-- The first stage, in the order given, that is no transition's target.
unfoldable pub initial_of : List WorkflowTransition → List WorkflowStage → Option WorkflowStage
initial_of transitions = find_row (λ s. not (any (λ t. t.to_stage == s.stage_name) transitions))

-- GetWorkflowInitialStage: two SELECTs.
unfoldable pub get_workflow_initial_stage : String → Exec String
get_workflow_initial_stage id = do
  transitions ← query (transitions_of id)
  stages ← query (stages_of id)
  initial ← found no_initial_stage (initial_of transitions stages)
  pure initial.stage_name
