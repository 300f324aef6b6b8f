-- ===== src/Review/Submission.antt =====
-- SubmitReview that asks for changes: what it does to the task.
use agentary.Prelude.{
  ℕ, String, Option, some, false, ◌≡◌, refl, ap, ◌∙◌, [], ◌==◌, head?, find_row, is_blank, or_empty,
}
use agentary.Store.Model.{Team, Task, TaskRow}
use agentary.Store.Claims.{named}
use agentary.Store.Dependencies.{get_task_run}
use agentary.Store.TaskRuns.{
  set_workflow_and_stage_run, get_team_run, later, update_task_run, find_updated,
}
use agentary.Store.Tasks.{
  tasks_where, is_team_task, is_task, update_tasks, in_workflow, assign, update_task,
}
use agentary.Store.Records.{create_task_review, insert_review}
use agentary.Store.Workflows.{
  get_workflow_stages, get_workflow_transitions, stages_of, transitions_of,
}
use agentary.Engine.{or_zero, is_terminal_in}
use agentary.Engine.Turn.{led_to}
use agentary.Review.{apply_review, review_found, submit_review}
use agentary.Exec.{World, ok, now, gets, pure, when}
use agentary.Exec.Run.{bind_run, query_run, sql_run, attempt_run, ignore_run}

-- The world after the review is recorded.
abbrev reviewed : Team → ℕ → String → String → String → World → World
reviewed t id reviewer outcome comments w = record (later w) {
  db = (insert_review false id t.team_id reviewer outcome comments (w.clock 0) w.db).1;
}

create_review_run :
    (w : World) (name : String) (t : Team) (id : ℕ) (reviewer outcome comments : String)
    → w.faults ≡ []
    → w.foreign_keys ≡ false
    → named name w.db ≡ some t
    → create_task_review name id reviewer outcome comments w
      ≡ (ok w.db.next_review, reviewed t id reviewer outcome comments w)
unfolding create_task_review insert_review now gets
create_review_run w name t id reviewer outcome comments quiet lax e =
    bind_run _ _ w w t (get_team_run w quiet name t e)
    ∙ bind_run _ _ w (later w) (w.clock 0) refl
    ∙ bind_run _ _ (later w) (later w) false (ap (λ b. (ok b, later w)) lax)
    ∙ sql_run (later w) quiet
        (insert_review false id t.team_id reviewer outcome comments (w.clock 0))

-- The task back at the stage, and with its DRI.
abbrev moved : ℕ → String → String → World → World
moved id workflow_id stage w = record (later w) {
  db = update_tasks (is_task id) (in_workflow (some workflow_id) stage (w.clock 0)) w.db;
}

abbrev returned : ℕ → Option String → World → World
returned id dri w = record (later w) {
  db = update_tasks (is_task id) (assign "in_progress" dri (w.clock 0)) w.db;
}

apply_run :
    (w : World) (id : ℕ) (task : Task) (stage : String)
    → w.faults ≡ []
    → led_to (or_empty task.workflow_id) (or_empty task.current_stage) "changes_requested" w.db
      ≡ stage
    → (stage == "") ≡ false
    → is_blank task.dri ≡ false
    → is_terminal_in stage (stages_of (or_empty task.workflow_id) w.db) ≡ false
    → apply_review id task "changes_requested" w
      ≡ (ok tt, returned id task.dri (moved id (or_empty task.workflow_id) stage w))
unfolding apply_review get_workflow_stages get_workflow_transitions pure stages_of when
apply_run w id task stage quiet leads there has plain =
    let workflow_id = or_empty task.workflow_id in
    let w1 = moved id workflow_id stage w in
    let w2 = returned id task.dri w1 in
    bind_run _ _ w w _ (query_run w quiet _)
    ∙ rw (leads, there)
        (bind_run _ _ w w1 tt (set_workflow_and_stage_run w id workflow_id stage quiet)
          ∙ bind_run _ _ w1 w2 tt (
              rw has (
                ignore_run (update_task id "in_progress" task.dri) w1 _ _
                  (update_task_run w1 quiet id "in_progress" task.dri)))
          ∙ bind_run _ _ w2 w2 _ (attempt_run _ (or_zero []) w2 w2 _ (query_run w2 quiet _))
          ∙ rw plain refl)

found_run :
    (w : World) (id : ℕ) (outcome : String) (task : Task)
    → is_blank task.workflow_id ≡ false
    → review_found id outcome (some task) w ≡ apply_review id task outcome w
unfolding review_found
found_run w id outcome task flows = rw flows refl

-- A review of a task of the team that asks for changes, where the task's workflow has a transition for
-- that to a stage that is not terminal and the task has a DRI, succeeds, and leaves the task at that
-- stage, in progress and assigned to its DRI; while the driver fails nothing and foreign keys are
-- not enforced.
pub submit_review-returned :
    (w : World) (name : String) (t : Team) (id : ℕ) (reviewer comments : String) (r : TaskRow)
    (task : Task) (stage : String)
    → w.faults ≡ []
    → w.foreign_keys ≡ false
    → named name w.db ≡ some t
    → head? (tasks_where (is_team_task t.team_id id) w.db) ≡ some task
    → find_row (is_task id) w.db.tasks ≡ some r
    → is_blank task.workflow_id ≡ false
    → led_to (or_empty task.workflow_id) (or_empty task.current_stage) "changes_requested" w.db
      ≡ stage
    → (stage == "") ≡ false
    → is_blank task.dri ≡ false
    → is_terminal_in stage (stages_of (or_empty task.workflow_id) w.db) ≡ false
    → let (result, w') = submit_review name id reviewer "changes_requested" comments w in
      (result ≡ ok tt)
      × (u : TaskRow) × (find_row (is_task id) w'.db.tasks ≡ some u)
      × (u.status ≡ "in_progress")
      × (u.assignee ≡ task.dri)
      × (u.current_stage ≡ some stage)
unfolding submit_review in_workflow assign insert_review tasks_where transitions_of stages_of
submit_review-returned w name t id reviewer comments r task stage quiet lax e there row flows leads
      filled has plain =
    let w1 = reviewed t id reviewer "changes_requested" comments w in
    let workflow_id = or_empty task.workflow_id in
    let w2 = moved id workflow_id stage w1 in
    let run =
      bind_run _ _ w w1 _
        (create_review_run w name t id reviewer "changes_requested" comments quiet lax e)
      ∙ bind_run _ _ w1 w1 (some task)
          (get_task_run w1 name t id quiet e ∙ ap (λ o. (ok o, w1)) there)
      ∙ found_run w1 id "changes_requested" task flows
      ∙ (apply_run w1 id task stage quiet leads filled has plain) in
    (
      ap (λ x. x.0) run,
      _,
      ap (λ x. find_row (is_task id) x.1.db.tasks) run
          ∙ find_updated id (assign "in_progress" task.dri (w2.clock 0)) w2.db _ (λ t. refl)
              (find_updated id (in_workflow (some workflow_id) stage (w1.clock 0)) w1.db r
                (λ t. refl) row),
      refl,
      refl,
      refl,
    )
