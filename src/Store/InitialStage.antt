-- ===== src/Store/InitialStage.antt =====
-- GetWorkflowInitialStage: what it returns, and what hangs on it.
use mathlib.Core.List.{Memᴰ}
use agentary.Prelude.{
  ℕ, String, Option, none, some, Bool, true, false, not, ◌≡◌, refl, sym, ◌∙◌, ap, arith, List, [],
  ◌∷◌, if◌then◌else◌, ◌==◌, any, find_row-none, find_row-mem, find_row-passes, All, is_blank,
  or_empty,
}
use agentary.Store.Model.{Team, WorkflowStage, Db}
use agentary.Store.Claims.{named}
use agentary.Store.TaskRuns.{later}
use agentary.Store.Workflows.{stages_of, transitions_of, initial_of, get_workflow_initial_stage}
use agentary.Store.Tasks.{create_task, insert_task, set_stage}
use agentary.Exec.{
  World, Result, ok, err, Error, no_initial_stage, ◌>>=◌, ◌>>◌, pure, found, attempt, when, guard,
  now,
}
use agentary.Store.Teams.{get_team_by_name}
use agentary.Exec.Run.{bind_run, bind_same, attempt_run, query_run, sql_run}

abbrev pub initial_result : Option WorkflowStage → Result String
initial_result none = err no_initial_stage
initial_result (some s) = ok s.stage_name

found_initial :
    (w : World) (o : Option WorkflowStage)
    → (found no_initial_stage o >>= λ s. pure s.stage_name) w ≡ (initial_result o, w)
unfolding ◌>>=◌
found_initial w none = refl
found_initial w (some s) = refl

pub initial_stage_run :
    (w : World) (id : String)
    → w.faults ≡ []
    → get_workflow_initial_stage id w
      ≡ (initial_result (initial_of (transitions_of id w.db) (stages_of id w.db)), w)
unfolding get_workflow_initial_stage
initial_stage_run w id quiet =
    bind_run _ _ w w _ (query_run w quiet (transitions_of id))
    ∙ bind_run _ _ w w _ (query_run w quiet (stages_of id))
    ∙ found_initial w (initial_of (transitions_of id w.db) (stages_of id w.db))

-- Does a transition of the workflow lead to the stage?
abbrev pub is_target : String → Db → String → Bool
is_target id d name = any (λ t. t.to_stage == name) (transitions_of id d)

-- The contract: a stage of the workflow to which no transition leads, or the error, and then every
-- stage of the workflow is the target of a transition.
abbrev pub InitialSpec : String → Db → Result String → Type 0
InitialSpec id d (ok name) =
    (s : WorkflowStage) × Memᴰ s (stages_of id d)
    × (s.stage_name ≡ name)
    × (is_target id d name ≡ false)
InitialSpec id d (err e) =
    (e ≡ no_initial_stage)
    × All (λ (s : WorkflowStage). is_target id d s.stage_name ≡ true) (stages_of id d)

All-targets :
    (id : String) (d : Db) (ss : List WorkflowStage)
    → All (λ (s : WorkflowStage). not (is_target id d s.stage_name) ≡ false) ss
    → All (λ (s : WorkflowStage). is_target id d s.stage_name ≡ true) ss
All-targets id d [] h = tt
All-targets id d (s ∷ ss) h = (ground arith, All-targets id d ss h.1)

not-true : (b : Bool) → not b ≡ true → b ≡ false
not-true b h = ground arith

-- While the driver fails nothing, GetWorkflowInitialStage returns a stage of the workflow to which no
-- transition leads; it returns an error exactly if there is no such stage.
pub initial_stage-InitialSpec :
    (w : World) (id : String)
    → w.faults ≡ []
    → InitialSpec id w.db (get_workflow_initial_stage id w).0
unfolding initial_of
initial_stage-InitialSpec w id quiet =
    rw (initial_stage_run w id quiet)
      (from (initial_of (transitions_of id w.db) (stages_of id w.db)) refl)
  where
    from :
        (o : Option WorkflowStage)
        → initial_of (transitions_of id w.db) (stages_of id w.db) ≡ o
        → InitialSpec id w.db (initial_result o)
    from none e =
        (refl, All-targets id w.db (stages_of id w.db) (find_row-none _ (stages_of id w.db) e))
    from (some s) e = (
      s,
      find_row-mem _ (stages_of id w.db) s e,
      refl,
      not-true _ (find_row-passes _ (stages_of id w.db) s e),
    )

found_world : (e : Error) (w : World) (o : Option Team) → (found e o w).1 ≡ w
unfolding found
found_world e w none = refl
found_world e w (some t) = refl

get_team_world : (w : World) (name : String) → w.faults ≡ [] → (get_team_by_name name w).1 ≡ w
unfolding get_team_by_name
get_team_world w name quiet =
    ap (λ r. r.1) (bind_run _ _ w w _ (query_run w quiet _)) ∙ found_world _ w (named name w.db)

initial_none : (o : Option WorkflowStage) → initial_result o ≡ err no_initial_stage → o ≡ none
initial_none none h = refl
initial_none (some s) h = cc

no_stage :
    (w : World) (task : ℕ) (id : String) (at : ℕ)
    → w.faults ≡ []
    → initial_of (transitions_of id w.db) (stages_of id w.db) ≡ none
    → when
        (not (is_blank (some id)))
        (attempt
          (get_workflow_initial_stage (or_empty (some id)))
          λ initial. set_stage task (some id) initial at)
        w
      ≡ (ok tt, w)
unfolding when set_stage pure
no_stage w task id at quiet e =
    rw
      (
        attempt_run _ (λ initial. set_stage task (some id) initial at) w w _
            (initial_stage_run w id quiet),
        e,
      )
      (ground arith)

same_id :
    (w : World) (task : ℕ) (id : String) (at : ℕ)
    → w.faults ≡ []
    → initial_of (transitions_of id w.db) (stages_of id w.db) ≡ none
    → (when (not (is_blank (some id))) (
            attempt
              (get_workflow_initial_stage (or_empty (some id)))
              λ initial. set_stage task (some id) initial at)
          >> pure task)
        w
      ≡ (when (not (is_blank none)) (
              attempt
                (get_workflow_initial_stage (or_empty none))
                λ initial. set_stage task none initial at)
            >> pure task)
          w
unfolding when
same_id w task id at quiet e =
    bind_run _ _ w w tt (no_stage w task id at quiet e) ∙ sym (bind_run _ _ w w tt refl)

-- A workflow without initial stage is not given to a task: where GetWorkflowInitialStage returns
-- that error and the driver fails nothing, CreateTask with the workflow stores what CreateTask
-- without one stores, and returns the same.
pub create_task_without_initial :
    (w : World) (name title status id : String)
    → w.faults ≡ []
    → (get_workflow_initial_stage id w).0 ≡ err no_initial_stage
    → create_task name title status (some id) w ≡ create_task name title status none w
unfolding create_task insert_task transitions_of stages_of guard now pure when
create_task_without_initial w name title status id quiet e =
    bind_same _ _ _ w w (get_team_world w name quiet) λ team. bind_same _ _ _ w w refl λ _.
      bind_same _ _ _ w (later w) refl λ at.
        bind_same _ _ _ (later w) _ (ap (λ r. r.1) (sql_run (later w) quiet _)) λ task.
          same_id
            (record (later w) {
              db =
                  (insert_task team.team_id title (if status == "" then "todo" else status) at
                    w.db).1;
            })
            task id at quiet
            (initial_none (initial_of (transitions_of id w.db) (stages_of id w.db))
              (ap (λ r. r.0) (sym (initial_stage_run w id quiet)) ∙ e))
