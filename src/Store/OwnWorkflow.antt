-- ===== src/Store/OwnWorkflow.antt =====
-- CreateWorkflowWithStages, and what GetWorkflowStages and GetWorkflowTransitions read back.
use agentary.Prelude.{
  ℕ, suc, String, some, Bool, true, false, ◌&&◌, ◌≡◌, refl, sym, ◌∙◌, ap, arith, List, [], ◌∷◌,
  ◌++◌, ◌==◌, any, map, select, put_all, order_by, eqb, ltb, text_le, delete_rows, append_one,
  append_nil,
}
use agentary.Store.Model.{Team, WorkflowRow, WorkflowStage, WorkflowTransition}
use agentary.Store.Claims.{named}
use agentary.Store.TaskRuns.{get_team_run}
use agentary.Store.Workflows.{
  create_workflow, create_workflow_with_stages, stages_of, transitions_of, get_workflow_stages,
  get_workflow_transitions,
}
use agentary.Store.DefaultWorkflow.{workflow_row, IsNewWorkflow}
use agentary.Store.WorkflowRuns.{
  same_stage, same_transition, of_stage, of_transition, insert_stages_run, insert_transitions_run,
  select-put_stages, select-put_transitions, put_stages, put_transitions,
}
use agentary.Exec.{World, ok, ◌>>=◌, pure}
use agentary.Exec.Run.{bind_run, ignore_run, query_run, execute_run}

-- No row collides with one before it, the given ones first.
abbrev pub IsFresh : {A : Type 0} → (A → A → Bool) → List A → List A → Type 0
IsFresh same [] before = Unit
IsFresh same (x ∷ rest) before =
    (any (λ y. same y x) before ≡ false) × IsFresh same rest (before ++ x ∷ [])

put_all-IsFresh :
    {A : Type 0} (same : A → A → Bool) (xs before : List A)
    → IsFresh same xs before
    → put_all same xs before ≡ before ++ xs
put_all-IsFresh same [] before h = sym (append_nil before)
put_all-IsFresh same (x ∷ xs) before h =
    rw h.0 (put_all-IsFresh same xs (before ++ x ∷ []) h.1 ∙ append_one before xs x)

abbrev with_workflow : WorkflowRow → World → World
with_workflow r w = record w {
  db = record w.db { workflows = w.db.workflows ++ r ∷ [] };
  clock = λ k. w.clock (suc k);
  ids = λ k. w.ids (suc k);
}

create_run :
    (w : World) (team_name name : String) (version : ℕ) (source_path : String) (t : Team)
    → w.faults ≡ []
    → named team_name w.db ≡ some t
    → (name == "") ≡ false
    → ltb 0 version ≡ true
    → (source_path == "") ≡ false
    → (name == "default" && eqb version 1) ≡ false
    → IsNewWorkflow (workflow_row w t name version source_path) w.db
    → create_workflow team_name name version source_path w
      ≡ (ok (w.ids 0), with_workflow (workflow_row w t name version source_path) w)
unfolding create_workflow
create_run w team_name name version source_path t quiet e n v s plain fresh =
    bind_run _ _ w w t (get_team_run w quiet team_name t e)
    ∙ (unfold ◌>>=◌ in rw (n, v, s, quiet, fresh, plain) refl)

no_rows : {A : Type 0} (p : A → Bool) (xs : List A) → select p (delete_rows p xs) ≡ []
no_rows p [] = refl
no_rows p (x ∷ xs) = ground (arith, no_rows p xs)

-- The world after the rows of a workflow are written.
abbrev with_rows : String → List WorkflowStage → List WorkflowTransition → World → World
with_rows id ss ts w = record w {
  db = record w.db {
    stages =
        put_stages id ss (delete_rows (λ (s : WorkflowStage). s.workflow_id == id) w.db.stages);
    transitions =
        put_transitions id ts
          (delete_rows (λ (t : WorkflowTransition). t.workflow_id == id) w.db.transitions);
  };
}

abbrev without_stages : String → World → World
without_stages id w = record w {
  db = record w.db {
    stages = delete_rows (λ (s : WorkflowStage). s.workflow_id == id) w.db.stages;
  };
}

abbrev without_rows : String → World → World
without_rows id w = record w {
  db = record w.db {
    stages = delete_rows (λ (s : WorkflowStage). s.workflow_id == id) w.db.stages;
    transitions = delete_rows (λ (t : WorkflowTransition). t.workflow_id == id) w.db.transitions;
  };
}

abbrev with_stages : String → List WorkflowStage → World → World
with_stages id ss w = record (without_rows id w) {
  db = record (without_rows id w).db { stages = put_stages id ss (without_rows id w).db.stages };
}

create_with_run :
    (w w' : World) (team_name name : String) (version : ℕ) (source_path id : String)
    (ss : List WorkflowStage) (ts : List WorkflowTransition)
    → create_workflow team_name name version source_path w ≡ (ok id, w')
    → w'.faults ≡ []
    → create_workflow_with_stages team_name name version source_path ss ts w
      ≡ (ok id, with_rows id ss ts w')
unfolding create_workflow_with_stages pure
create_with_run w w' team_name name version source_path id ss ts e quiet =
    bind_run _ _ w w' id e
    ∙ bind_run _ _ w' _ tt (ignore_run _ w' _ _ (execute_run w' quiet _))
    ∙ bind_run _ _ (without_stages id w') _ tt
        (ignore_run _ (without_stages id w') _ _ (execute_run (without_stages id w') quiet _))
    ∙ bind_run _ _ (without_rows id w') _ tt (insert_stages_run id ss (without_rows id w') quiet)
    ∙ bind_run _ _ _ _ tt (insert_transitions_run id ts (with_stages id ss w') quiet)

stages_of-rows :
    (id : String) (ss rows : List WorkflowStage)
    → IsFresh same_stage (map (of_stage id) ss) []
    → select
        (λ s. s.workflow_id == id)
        (put_stages id ss (delete_rows (λ (s : WorkflowStage). s.workflow_id == id) rows))
      ≡ map (of_stage id) ss
stages_of-rows id ss rows h =
    select-put_stages id ss _
    ∙ ap (put_all same_stage (map (of_stage id) ss)) (no_rows _ rows)
    ∙ put_all-IsFresh same_stage (map (of_stage id) ss) [] h

transitions_of-rows :
    (id : String) (ts rows : List WorkflowTransition)
    → IsFresh same_transition (map (of_transition id) ts) []
    → select
        (λ t. t.workflow_id == id)
        (put_transitions id ts (delete_rows (λ (t : WorkflowTransition). t.workflow_id == id) rows))
      ≡ map (of_transition id) ts
transitions_of-rows id ts rows h =
    select-put_transitions id ts _
    ∙ ap (put_all same_transition (map (of_transition id) ts)) (no_rows _ rows)
    ∙ put_all-IsFresh same_transition (map (of_transition id) ts) [] h

-- What CreateWorkflowWithStages writes is what GetWorkflowStages, in the order of the names, and
-- GetWorkflowTransitions read back, under the new id. This holds of a new workflow with a name, a
-- source path and a version above 0 that is not the builtin "default", version 1, whose stages have
-- distinct names and whose transitions have distinct stages and outcomes, if the team is there and
-- the driver fails nothing.
pub create_workflow_with_stages_lem :
    (w : World) (team_name name : String) (version : ℕ) (source_path : String) (t : Team)
    (ss : List WorkflowStage) (ts : List WorkflowTransition)
    → w.faults ≡ []
    → named team_name w.db ≡ some t
    → (name == "") ≡ false
    → ltb 0 version ≡ true
    → (source_path == "") ≡ false
    → (name == "default" && eqb version 1) ≡ false
    → IsNewWorkflow (workflow_row w t name version source_path) w.db
    → IsFresh same_stage (map (of_stage (w.ids 0)) ss) []
    → IsFresh same_transition (map (of_transition (w.ids 0)) ts) []
    → let (r, w') = create_workflow_with_stages team_name name version source_path ss ts w in
      (r ≡ ok (w.ids 0))
      × ((get_workflow_stages (w.ids 0) w').0
          ≡ ok (order_by (λ s t. text_le s.stage_name t.stage_name) (map (of_stage (w.ids 0)) ss)))
      × ((get_workflow_transitions (w.ids 0) w').0 ≡ ok (map (of_transition (w.ids 0)) ts))
unfolding get_workflow_stages get_workflow_transitions stages_of transitions_of
create_workflow_with_stages_lem w team_name name version source_path t ss ts quiet e n v s plain
      fresh fresh_stages fresh_transitions =
    let id = w.ids 0 in
    let w1 = with_workflow (workflow_row w t name version source_path) w in
    rw
      (create_with_run w w1 team_name name version source_path id ss ts
        (create_run w team_name name version source_path t quiet e n v s plain fresh) quiet)
      (
        refl,
        ap (λ r. r.0) (query_run (with_rows id ss ts w1) quiet _)
            ∙ ap (λ rows. ok (order_by (λ s t. text_le s.stage_name t.stage_name) rows))
                (stages_of-rows id ss w.db.stages fresh_stages),
        ap (λ r. r.0) (query_run (with_rows id ss ts w1) quiet _)
            ∙ ap ok (transitions_of-rows id ts w.db.transitions fresh_transitions),
      )
