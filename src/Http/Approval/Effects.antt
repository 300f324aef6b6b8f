-- ===== src/Http/Approval/Effects.antt =====
-- POST /teams/{team}/tasks/{id}/approve: the answer, the event and the row of the task, while the
-- driver fails nothing.
use agentary.Prelude.{
  ℕ, String, none, some, Bool, true, false, ◌≡◌, ◌≢◌, ◌⊎◌, inl, inr, refl, ap, ◌∙◌, ◌==◌, [], ◌∷◌,
  ◌++◌, if◌then◌else◌, eq_iff, arith, find_row,
}
use agentary.Store.Model.{Task, TaskRow}
use agentary.Store.Tasks.{is_task}
use agentary.Store.Workflows.{stages_of, transitions_of}
use agentary.Exec.{World, task_update}
use agentary.Engine.{is_terminal_in}
use agentary.Engine.Moves.{Leads, IsEnd, IsMoved, next_stage-Leads}
use agentary.Engine.Turn.{entered}
use agentary.Engine.Effects.{entered-IsMoved}
use agentary.Http.{Request, Json, text, staged_at, failure}
use agentary.Http.Reviews.{approve, no_transition}
use agentary.Http.Approval.{
  approve_lem, asked_for, announced, approved, not-blank, at_stage, made_done,
}

-- The outcome that a request asks for: "approved" where it names none.
unfoldable pub AsksFor : String → String → Type 0
AsksFor outcome named = ((named ≡ "") × (outcome ≡ "approved")) ⊎ ((named ≢ "") × (outcome ≡ named))

asked_eq :
    (outcome named : String)
    → AsksFor outcome named
    → (if named == "" then "approved" else named) ≡ outcome
unfolding AsksFor
asked_eq outcome named (inl (e, o)) = ground (arith, e, o, eq_iff named "")
asked_eq outcome named (inr (n, o)) = ground (arith, n, o, eq_iff named "")

entered-approved :
    (id : ℕ) (workflow to : String) (w : World)
    → (to == "") ≡ false
    → approved id workflow to w ≡ entered id workflow to w
unfolding stages_of
entered-approved id workflow to w n = rw n refl

approved_published :
    (id : ℕ) (workflow to : String) (w : World)
    → (approved id workflow to w).published ≡ w.published
approved_published id workflow to w =
    either_way (is_terminal_in to (stages_of workflow (at_stage id to w).db))
  where
    either_way :
        (b : Bool)
        → (if b then made_done id (at_stage id to w) else at_stage id to w).published ≡ w.published
    either_way true = refl
    either_way false = refl

module _ (w : World) (quiet : w.faults ≡ []) (team : String) (id : ℕ) (task : Task) (req : Request)
    (j : String → Json) (named outcome workflow stage : String) (post : req.method ≡ "POST")
    (body : req.body ≡ some j) (names : j "outcome" ≡ text named) (asks : AsksFor outcome named)
    (flow : task.workflow_id ≡ some workflow) (filled : workflow ≢ "")
    (at : task.current_stage ≡ some stage) where
  answered :
      (to : String)
      → Leads stage outcome to (transitions_of workflow w.db)
      → approve team id task req w ≡ (
          if to == ""
          then (record { status = 400; body = failure (no_transition stage outcome) }, w)
          else (
            record { status = 200; body = staged_at to },
            announced team id to (approved id workflow to w),
          ))
  answered to leads =
      approve_lem w quiet team id task req j named workflow stage post body names flow filled at
      ∙ ap (λ o. asked_for w quiet team id workflow stage o) (asked_eq outcome named asks)
      ∙ ap
          (λ (to : String).
            if to == ""
            then (record { status = 400; body = failure (no_transition stage outcome) }, w)
            else (
              record { status = 200; body = staged_at to },
              announced team id to (approved id workflow to w),
            ))
          (next_stage-Leads stage outcome to (transitions_of workflow w.db) leads)

  accepted_run :
      (to : String)
      → Leads stage outcome to (transitions_of workflow w.db)
      → (to == "") ≡ false
      → approve team id task req w ≡ (
        record { status = 200; body = staged_at to },
        announced team id to (approved id workflow to w),
      )
  accepted_run to leads n =
      answered to leads
      ∙ ap
          (λ (e : Bool).
            if e
            then (record { status = 400; body = failure (no_transition stage outcome) }, w)
            else (
              record { status = 200; body = staged_at to },
              announced team id to (approved id workflow to w),
            ))
          n

  -- Approving a task that has a workflow and a stage, while the driver fails nothing, where the
  -- workflow gives a stage for the outcome that the body names, or for "approved" if it names none:
  -- the answer is 200 with that stage, the move is announced, and the row of the task is at that
  -- stage, done without assignee if the stage ends the task, with its status and its assignee
  -- otherwise.
  pub approve-IsMoved :
      (r : TaskRow) (to : String) (b : Bool)
      → find_row (is_task id) w.db.tasks ≡ some r
      → Leads stage outcome to (transitions_of workflow w.db)
      → to ≢ ""
      → IsEnd b to (stages_of workflow w.db)
      → let (answer, w') = approve team id task req w in
        (answer ≡ record { status = 200; body = staged_at to })
        × (w'.published ≡ w.published ++ task_update team id none none (some to) ∷ [])
        × (u : TaskRow) × (find_row (is_task id) w'.db.tasks ≡ some u)
        × IsMoved to b r u
  approve-IsMoved r to b row leads there end =
      let run = accepted_run to leads (not-blank to there) in
      let (u, found, moved) = entered-IsMoved id workflow to b w r row end in
      (
        ap (λ x. x.0) run,
        ap (λ x. x.1.published) run
            ∙ ap (λ events. events ++ task_update team id none none (some to) ∷ [])
                (approved_published id workflow to w),
        u,
        ap (λ x. find_row (is_task id) x.1.db.tasks) run
            ∙ ap (λ (v : World). find_row (is_task id) v.db.tasks)
                (entered-approved id workflow to w (not-blank to there))
            ∙ found,
        moved,
      )

  -- Approving a task that has a workflow and a stage, while the driver fails nothing, where the
  -- workflow gives no stage for the outcome that the body names, or for "approved" if it names none:
  -- the answer is 400, and nothing changes and nothing is announced.
  pub approve_without_transition :
      Leads stage outcome "" (transitions_of workflow w.db)
      → approve team id task req w
        ≡ (record { status = 400; body = failure (no_transition stage outcome) }, w)
  approve_without_transition leads = answered "" leads
