-- ===== src/Store/WorkflowRuns.antt =====
-- What the statements on `workflow_stages` and `workflow_transitions` do while the driver fails none.
use agentary.Prelude.{
  String, Bool, ◌&&◌, ◌≡◌, refl, ◌∙◌, ap, arith, List, [], ◌∷◌, ◌==◌, eq_refl, map, select, put,
  put_all, select-put,
}
use agentary.Store.Model.{WorkflowStage, WorkflowTransition, Db}
use agentary.Store.Workflows.{insert_stage, insert_stages, insert_transition, insert_transitions}
use agentary.Exec.{World, ok, sql, pure, ignore}
use agentary.Exec.Run.{sql_run, bind_run}

-- Two stages of one workflow have one name; two of its transitions, one stage and outcome.
abbrev pub same_stage : WorkflowStage → WorkflowStage → Bool
same_stage r s = r.stage_name == s.stage_name

abbrev pub same_transition : WorkflowTransition → WorkflowTransition → Bool
same_transition r t = r.from_stage == t.from_stage && r.outcome == t.outcome

abbrev pub of_stage : String → WorkflowStage → WorkflowStage
of_stage id s = record s { workflow_id = id }

abbrev pub of_transition : String → WorkflowTransition → WorkflowTransition
of_transition id t = record t { workflow_id = id }

-- The rows of a workflow, in the order of insertion.
abbrev pub stage_rows : String → Db → List WorkflowStage
stage_rows id d = select (λ s. s.workflow_id == id) d.stages

abbrev pub transition_rows : String → Db → List WorkflowTransition
transition_rows id d = select (λ t. t.workflow_id == id) d.transitions

-- The stages that the table holds after the inserts.
abbrev pub put_stages : String → List WorkflowStage → List WorkflowStage → List WorkflowStage
put_stages id [] rows = rows
put_stages id (s ∷ rest) rows =
    put_stages id rest (put (λ r s. r.workflow_id == id && same_stage r s) (of_stage id s) rows)

abbrev pub put_transitions :
    String → List WorkflowTransition → List WorkflowTransition → List WorkflowTransition
put_transitions id [] rows = rows
put_transitions id (t ∷ rest) rows =
    put_transitions id rest
      (put (λ r t. r.workflow_id == id && same_transition r t) (of_transition id t) rows)

insert_stage-put :
    (id : String) (s : WorkflowStage) (d : Db)
    → (insert_stage (of_stage id s) d).1 ≡ record d {
      stages = put (λ r s. r.workflow_id == id && same_stage r s) (of_stage id s) d.stages;
    }
unfolding insert_stage
insert_stage-put id s d = ground arith

insert_transition-put :
    (id : String) (t : WorkflowTransition) (d : Db)
    → (insert_transition (of_transition id t) d).1 ≡ record d {
      transitions =
          put
            (λ r t. r.workflow_id == id && same_transition r t)
            (of_transition id t)
            d.transitions;
    }
unfolding insert_transition
insert_transition-put id t d = ground arith

stage_step :
    (id : String) (s : WorkflowStage) (w : World)
    → w.faults ≡ []
    → ignore (sql (insert_stage (of_stage id s))) w ≡ (
      ok tt,
      record w {
        db = record w.db {
          stages = put (λ r s. r.workflow_id == id && same_stage r s) (of_stage id s) w.db.stages;
        };
      },
    )
unfolding ignore
stage_step id s w quiet = rw (sql_run w quiet, insert_stage-put id s w.db)

transition_step :
    (id : String) (t : WorkflowTransition) (w : World)
    → w.faults ≡ []
    → ignore (sql (insert_transition (of_transition id t))) w ≡ (
      ok tt,
      record w {
        db = record w.db {
          transitions =
              put
                (λ r t. r.workflow_id == id && same_transition r t)
                (of_transition id t)
                w.db.transitions;
        };
      },
    )
unfolding ignore
transition_step id t w quiet = rw (sql_run w quiet, insert_transition-put id t w.db)

pub insert_stages_run :
    (id : String) (ss : List WorkflowStage) (w : World)
    → w.faults ≡ []
    → insert_stages id ss w
      ≡ (ok tt, record w { db = record w.db { stages = put_stages id ss w.db.stages } })
unfolding insert_stages
insert_stages_run id [] w quiet = unfold pure in refl
insert_stages_run id (s ∷ rest) w quiet =
    bind_run _ _ w _ tt (stage_step id s w quiet) ∙ insert_stages_run id rest _ quiet

pub insert_transitions_run :
    (id : String) (ts : List WorkflowTransition) (w : World)
    → w.faults ≡ []
    → insert_transitions id ts w ≡ (
      ok tt,
      record w { db = record w.db { transitions = put_transitions id ts w.db.transitions } },
    )
unfolding insert_transitions
insert_transitions_run id [] w quiet = unfold pure in refl
insert_transitions_run id (t ∷ rest) w quiet =
    bind_run _ _ w _ tt (transition_step id t w quiet) ∙ insert_transitions_run id rest _ quiet

-- Among the rows of the workflow, the inserts are those of a table of its own.
pub select-put_stages :
    (id : String) (ss rows : List WorkflowStage)
    → select (λ s. s.workflow_id == id) (put_stages id ss rows)
      ≡ put_all same_stage (map (of_stage id) ss) (select (λ s. s.workflow_id == id) rows)
select-put_stages id [] rows = refl
select-put_stages id (s ∷ rest) rows =
    select-put_stages id rest _
    ∙ ap (put_all same_stage (map (of_stage id) rest))
        (select-put (λ s. s.workflow_id == id) same_stage (of_stage id s) rows (eq_refl id))

pub select-put_transitions :
    (id : String) (ts rows : List WorkflowTransition)
    → select (λ t. t.workflow_id == id) (put_transitions id ts rows)
      ≡ put_all same_transition (map (of_transition id) ts) (select (λ t. t.workflow_id == id) rows)
select-put_transitions id [] rows = refl
select-put_transitions id (t ∷ rest) rows =
    select-put_transitions id rest _
    ∙ ap (put_all same_transition (map (of_transition id) rest)) (
        select-put (λ t. t.workflow_id == id) same_transition (of_transition id t) rows
          (eq_refl id))
