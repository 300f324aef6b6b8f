-- ===== src/Http/Approval.antt =====
-- POST /teams/{team}/tasks/{id}/approve, while the driver fails nothing.
pub mod Effects
use agentary.Prelude.{
  ℕ, String, none, some, Bool, true, false, ◌≡◌, ◌≢◌, refl, ◌∙◌, ◌==◌, [], ◌∷◌, ◌++◌, if◌then◌else◌,
  eq_iff, arith,
}
use agentary.Store.Model.{Task}
use agentary.Store.Tasks.{update_task, update_task_stage, update_tasks, is_task, assign, staged}
use agentary.Store.TaskRuns.{later, update_task_run}
use agentary.Store.Workflows.{
  get_workflow_stages, get_workflow_transitions, stages_of, transitions_of,
}
use agentary.Exec.{World, ok, publish, task_update, now}
use agentary.Exec.Run.{query_run, execute_run, bind_run}
use agentary.Engine.{next_stage, is_terminal_in}
use agentary.Http.{
  Request, Response, Json, text, silently, write_json, staged_at, write_json_error, failure,
}
use agentary.Http.Reviews.{approve, approve_stage, approve_outcome, approve_to, no_transition}

pub stages_run :
    (w : World) (id : String)
    → w.faults ≡ []
    → get_workflow_stages id w ≡ (ok (stages_of id w.db), w)
unfolding get_workflow_stages
stages_run w id quiet = query_run w quiet (stages_of id)

pub transitions_run :
    (w : World) (id : String)
    → w.faults ≡ []
    → get_workflow_transitions id w ≡ (ok (transitions_of id w.db), w)
unfolding get_workflow_transitions
transitions_run w id quiet = query_run w quiet (transitions_of id)

update_stage_run :
    (w : World) (id : ℕ) (stage : String)
    → w.faults ≡ []
    → update_task_stage id stage w
      ≡ (ok tt, record (later w) { db = update_tasks (is_task id) (staged stage (w.clock 0)) w.db })
unfolding update_task_stage now
update_stage_run w id stage quiet =
    bind_run _ _ w (later w) (w.clock 0) refl ∙ execute_run (later w) quiet _

-- The world with the task at the stage, and done if the stage is terminal.
abbrev pub at_stage : ℕ → String → World → World
at_stage id stage w = record (later w) {
  db = update_tasks (is_task id) (staged stage (w.clock 0)) w.db;
}

abbrev pub made_done : ℕ → World → World
made_done id w = record (later w) {
  db = update_tasks (is_task id) (assign "done" none (w.clock 0)) w.db;
}

abbrev pub approved : ℕ → String → String → World → World
approved id workflow stage w =
    if is_terminal_in stage (stages_of workflow (at_stage id stage w).db)
    then made_done id (at_stage id stage w)
    else at_stage id stage w

abbrev pub announced : String → ℕ → String → World → World
announced team id stage w = record w {
  published = w.published ++ task_update team id none none (some stage) ∷ [];
}

pub not-blank : (s : String) → s ≢ "" → (s == "") ≡ false
not-blank s n = ground (arith, eq_iff s "")

module _ (w : World) (quiet : w.faults ≡ []) (team : String) (id : ℕ) where
  -- The answer, once the stages are read.
  finish_lem :
      (terminal : Bool) (stage : String) (v : World)
      → v.faults ≡ []
      → (if terminal
            then silently (update_task id "done" none) (
                silently
                  (publish (task_update team id none none (some stage)))
                  (write_json (staged_at stage)))
            else silently
                (publish (task_update team id none none (some stage)))
                (write_json (staged_at stage)))
          v
        ≡ (
          record { status = 200; body = staged_at stage },
          announced team id stage (if terminal then made_done id v else v),
        )
  unfolding publish
  finish_lem true stage v calm = rw (update_task_run v calm id "done" none)
  finish_lem false stage v calm = refl

  approve_to_lem :
      (workflow stage : String)
      → approve_to team id workflow stage w ≡ (
        record { status = 200; body = staged_at stage },
        announced team id stage (approved id workflow stage w),
      )
  unfolding approve_to
  approve_to_lem workflow stage =
      rw (update_stage_run w id stage quiet, stages_run (at_stage id stage w) workflow quiet)
        (finish_lem (is_terminal_in stage (stages_of workflow (at_stage id stage w).db)) stage
          (at_stage id stage w) quiet)

  -- What approving with an outcome answers, and leaves.
  abbrev pub asked_for : String → String → String → Response × World
  asked_for workflow stage outcome =
      let to_stage = next_stage stage outcome (transitions_of workflow w.db) in
      if to_stage == ""
      then (record { status = 400; body = failure (no_transition stage outcome) }, w)
      else (
        record { status = 200; body = staged_at to_stage },
        announced team id to_stage (approved id workflow to_stage w),
      )

  approve_outcome_lem :
      (workflow stage outcome : String)
      → approve_outcome team id workflow stage outcome w ≡ asked_for workflow stage outcome
  unfolding approve_outcome
  approve_outcome_lem workflow stage outcome = rw (transitions_run w workflow quiet) (
      either_way (next_stage stage outcome (transitions_of workflow w.db))
        (next_stage stage outcome (transitions_of workflow w.db) == ""))
    where
      either_way :
          (to_stage : String) (b : Bool)
          → (if b
                then write_json_error 400 (no_transition stage outcome)
                else approve_to team id workflow to_stage)
              w
            ≡ (if b
                then (record { status = 400; body = failure (no_transition stage outcome) }, w)
                else (
                  record { status = 200; body = staged_at to_stage },
                  announced team id to_stage (approved id workflow to_stage w),
                ))
      either_way to_stage true = refl
      either_way to_stage false = approve_to_lem workflow to_stage

  approve_stage_lem :
      (workflow stage outcome : String)
      → workflow ≢ ""
      → approve_stage team id (some workflow) (some stage) outcome w
        ≡ asked_for workflow stage outcome
  approve_stage_lem workflow stage outcome n =
      rw (not-blank workflow n) (approve_outcome_lem workflow stage outcome)

  -- Approving a task that has a workflow and a stage, while the driver fails nothing, with the
  -- outcome that the body names, or "approved" if it names none: if the workflow has a transition for
  -- the outcome, the answer is 200 with the stage it leads to, the task goes to that stage, is done
  -- without assignee if the stage is terminal, and the move is announced; if it has none, the answer
  -- is 400 and nothing changes.
  pub approve_lem :
      (task : Task) (req : Request) (j : String → Json) (outcome workflow stage : String)
      → req.method ≡ "POST"
      → req.body ≡ some j
      → j "outcome" ≡ text outcome
      → task.workflow_id ≡ some workflow
      → workflow ≢ ""
      → task.current_stage ≡ some stage
      → approve team id task req w
        ≡ asked_for workflow stage (if outcome == "" then "approved" else outcome)
  unfolding approve
  approve_lem task req j outcome workflow stage post b o wf n s =
      rw (post, b, o, wf, s)
        (approve_stage_lem workflow stage (if outcome == "" then "approved" else outcome) n)
