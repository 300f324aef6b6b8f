-- ===== src/Store/DefaultWorkflow.antt =====
-- CreateWorkflow of the builtin "default", and what its stages allow.
use agentary.Prelude.{ℕ, suc, String, false, ◌&&◌, ◌||◌, ◌≡◌, [], ◌∷◌, ◌++◌, ◌==◌, any, eqb}
use agentary.Store.Model.{Team, WorkflowRow, Db}
use agentary.Store.Workflows.{default_stages, default_transitions}
use agentary.Store.WorkflowRuns.{put_stages, put_transitions}
use agentary.Exec.{World}

-- The row that CreateWorkflow inserts.
abbrev pub workflow_row : World → Team → String → ℕ → String → WorkflowRow
workflow_row w t name version source_path = record {
  workflow_id = w.ids 0;
  team_id = t.team_id;
  workflow = record {
    name = name;
    version = version;
    source_path = source_path;
    created_at = w.clock 0;
  };
}

-- The id and the name are new.
abbrev pub IsNewWorkflow : WorkflowRow → Db → Type 0
IsNewWorkflow r d =
    any
      (λ s.
        s.workflow_id == r.workflow_id
        || s.team_id == r.team_id
          && s.workflow.name == r.workflow.name
          && eqb s.workflow.version r.workflow.version)
      d.workflows
    ≡ false

abbrev with_default : WorkflowRow → World → World
with_default r w = record w {
  db = record w.db {
    workflows = w.db.workflows ++ r ∷ [];
    stages = put_stages r.workflow_id default_stages w.db.stages;
    transitions = put_transitions r.workflow_id default_transitions w.db.transitions;
  };
  clock = λ k. w.clock (suc k);
  ids = λ k. w.ids (suc k);
}

-- The world between the insert of the workflow and the seeding of its stages.
abbrev with_row : WorkflowRow → World → World
with_row r w = record w {
  db = record w.db { workflows = w.db.workflows ++ r ∷ [] };
  clock = λ k. w.clock (suc k);
  ids = λ k. w.ids (suc k);
  faults = [];
}
