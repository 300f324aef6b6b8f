-- ===== src/Store/TaskInvariant/Run.antt =====
-- One rule for each kind of write, and with them every method of the Store that writes.
use agentary.Prelude.{ℕ, String, Option, Bool, true, false, List, [], ◌∷◌, ◌==◌}
use agentary.Store.Model.{Task, TaskRow, WorkflowStage, WorkflowTransition, Db}
use agentary.Store.Teams.{get_team_by_name, create_team, delete_team, delete_team_row, create_agent}
use agentary.Store.Evolves.{Evolves, claimed-Evolves, evolves_rules}
use agentary.Store.Workflows.{
  insert_stages, insert_transitions, get_workflow_initial_stage, create_workflow,
  create_workflow_with_stages, seed_default_workflow_stages,
}
use agentary.Store.Tasks.{
  update_tasks, create_task, insert_task, set_stage, update_task, claim_task, claim_row, claimed,
  set_task_failed, requeue_task, set_task_cancelled, clear_task_git_fields, update_task_git_fields,
  rewind_task, get_task_by_id_and_team, update_task_stage, set_task_workflow_and_stage,
}
use agentary.Store.TaskLinks.{add_task_dependency}
use agentary.Store.Calls.{
  Call, run_call, run_calls, create_task_call, rewind_task_call, add_task_dependency_call,
  disallow_domain_call,
}
use agentary.Store.Network.{
  on_allowlist, list_allowed_domains, reset_if_empty, reset_allowlist, allow_domain,
  disallow_domain,
}
use agentary.Store.Records.{
  create_task_comment, add_task_attachment, remove_task_attachment, create_task_review, create_repo,
  set_repo_approval,
}
use agentary.Store.Messages.{create_message, mark_message_processed}
use agentary.Exec.{World, Result, ok, err, sql, execute}
use agentary.Exec.Keeps.{Keeps, Keeps-sql, Keeps-execute, Keeps-bind, keeps_rules}
use agentary.Store.TaskInvariant.{TaskInvariant, On, Frame, frames}

module _ {ℓ} (P : List TaskRow → ℕ → Type ℓ) (inv : TaskInvariant P) where
  Keeps-Frame : {A : Type 0} (f : Db → Result A × Db) → Frame f → Keeps (On P) (sql f)
  Keeps-Frame f frame = Keeps-sql f (λ d h. rw ((frame d).0, (frame d).1) h)

  Keeps-update :
      (p : TaskRow → Bool) (f : Task → Task)
      → ((t : Task) → Evolves t (f t))
      → Keeps (On P) (execute (update_tasks p f))
  Keeps-update p f e =
      Keeps-execute (update_tasks p f) (λ d h. inv.updated p f d.tasks d.next_task e h)

  get_team-Keeps : (name : String) → Keeps (On P) (get_team_by_name name)
  unfolding get_team_by_name
  get_team-Keeps name = search (keeps_rules)

  insert_stages-Keeps : (id : String) (ss : List WorkflowStage) → Keeps (On P) (insert_stages id ss)
  unfolding insert_stages
  insert_stages-Keeps id [] = search keeps_rules
  insert_stages-Keeps id (s ∷ ss) =
      Keeps-bind _ _ (search (keeps_rules, Keeps-Frame, frames)) (λ _. insert_stages-Keeps id ss)

  insert_transitions-Keeps :
      (id : String) (ts : List WorkflowTransition) → Keeps (On P) (insert_transitions id ts)
  unfolding insert_transitions
  insert_transitions-Keeps id [] = search keeps_rules
  insert_transitions-Keeps id (t ∷ ts) =
      Keeps-bind _ _ (search (keeps_rules, Keeps-Frame, frames))
        (λ _. insert_transitions-Keeps id ts)

  delete_team_row-Keeps :
      (foreign_keys : Bool) (id : String) → Keeps (On P) (execute (delete_team_row foreign_keys id))
  unfolding delete_team_row
  delete_team_row-Keeps true id =
      Keeps-execute _ (λ d h. inv.deleted (λ r. r.team_id == id) d.tasks d.next_task h)
  delete_team_row-Keeps false id = Keeps-execute _ (λ d h. h)

  insert_task-Keeps :
      (team title status : String) (at : ℕ) → Keeps (On P) (sql (insert_task team title status at))
  unfolding insert_task
  insert_task-Keeps team title status at = Keeps-sql _ (λ d h. inv.inserted _ d.tasks h)

  claim_row-Keeps :
      (team : String) (id : ℕ) (assignee : String) (at : ℕ)
      → Keeps (On P) (sql (claim_row team id assignee at))
  unfolding claim_row
  claim_row-Keeps team id assignee at = Keeps-sql _ (λ d h.
      inv.updated _ (claimed assignee at) d.tasks d.next_task (claimed-Evolves assignee at) h)

  on_allowlist-Keeps : (f : List String → List String) → Keeps (On P) (on_allowlist f)
  unfolding on_allowlist
  on_allowlist-Keeps f = Keeps-execute _ (λ d h. h)

  ruleset rules = (
    keeps_rules, frames, Keeps-Frame, Keeps-update, get_team-Keeps, insert_stages-Keeps,
    insert_transitions-Keeps, delete_team_row-Keeps, insert_task-Keeps, claim_row-Keeps,
    on_allowlist-Keeps, Keeps-execute, evolves_rules,
  )

  initial-Keeps : (id : String) → Keeps (On P) (get_workflow_initial_stage id)
  unfolding get_workflow_initial_stage
  initial-Keeps id = search rules

  get_task-Keeps : (team : String) (id : ℕ) → Keeps (On P) (get_task_by_id_and_team team id)
  unfolding get_task_by_id_and_team
  get_task-Keeps team id = search rules

  set_stage-Keeps :
      (id : ℕ) (workflow_id : Option String) (r : Result String) (at : ℕ)
      → Keeps (On P) (set_stage id workflow_id r at)
  unfolding set_stage
  set_stage-Keeps id workflow_id (err e) at = search rules
  set_stage-Keeps id workflow_id (ok stage) at = search rules

  reset_if_empty-Keeps : (r : Result (List String)) → Keeps (On P) (reset_if_empty r)
  unfolding reset_allowlist
  reset_if_empty-Keeps (err e) = search rules
  reset_if_empty-Keeps (ok []) = search rules
  reset_if_empty-Keeps (ok (d ∷ rest)) = search rules

  -- Whatever the call, and whichever statements fail, the property stays.
  pub run_call-Keeps : (c : Call) → Keeps (On P) (run_call c)
  unfolding run_call create_team delete_team create_agent create_task update_task claim_task
      set_task_failed requeue_task set_task_cancelled rewind_task clear_task_git_fields
      update_task_git_fields create_task_comment add_task_attachment remove_task_attachment
      add_task_dependency update_task_stage set_task_workflow_and_stage create_task_review
      create_repo set_repo_approval create_workflow create_workflow_with_stages reset_allowlist
      allow_domain disallow_domain create_message mark_message_processed
      seed_default_workflow_stages list_allowed_domains
  run_call-Keeps (disallow_domain_call domain) = search (rules, reset_if_empty-Keeps) depth 12
  run_call-Keeps (create_task_call team title status workflow_id) =
      search (rules, initial-Keeps, set_stage-Keeps) depth 14
  run_call-Keeps (rewind_task_call team id) = search (rules, initial-Keeps, get_task-Keeps) depth 14
  run_call-Keeps (add_task_dependency_call team id on) = search (rules, get_task-Keeps) depth 14
  run_call-Keeps c = search rules depth 16

  -- So it stays over every interleaving of calls.
  pub run_calls-Keeps : (cs : List Call) (w : World) → On P w.db → On P (run_calls cs w).db
  unfolding run_calls
  run_calls-Keeps [] w h = h
  run_calls-Keeps (c ∷ cs) w h = run_calls-Keeps cs (run_call c w).1 ((run_call-Keeps c).kept w h)
