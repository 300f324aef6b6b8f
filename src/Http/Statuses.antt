-- ===== src/Http/Statuses.antt =====
-- The statuses of tasks under the calls that a request can lead to.
use agentary.Prelude.{
  ℕ, String, Option, Bool, true, false, ◌≡◌, refl, ◌||◌, ◌==◌, List, [], ◌∷◌, All, All-update_rows,
  All-delete_rows, All-snoc, arith, if◌then◌else◌, Bool-cases, inl, inr, eq_iff, ap, ◌∙◌,
}
use agentary.Store.Model.{Task, TaskRow, WorkflowStage, WorkflowTransition, Db}
use agentary.Store.Teams.{create_team, delete_team, delete_team_row, create_agent}
use agentary.Store.Workflows.{
  insert_stages, insert_transitions, get_workflow_initial_stage, create_workflow,
  create_workflow_with_stages, seed_default_workflow_stages,
}
use agentary.Store.Tasks.{
  update_tasks, create_task, insert_task, set_stage, update_task, assign, claim_task, claim_row,
  claimable, claimed, failed, unassigned, rewound, staged, in_workflow, with_git, set_task_failed,
  requeue_task, set_task_cancelled, clear_task_git_fields, update_task_git_fields, rewind_task,
  update_task_stage, set_task_workflow_and_stage,
}
use agentary.Store.TaskLinks.{add_task_dependency}
use agentary.Store.Calls.{
  Call, run_call, create_task_call, rewind_task_call, add_task_dependency_call,
  disallow_domain_call,
}
use agentary.Store.Network.{
  on_allowlist, list_allowed_domains, reset_if_empty, reset_allowlist, allow_domain,
  disallow_domain,
}
use agentary.Store.Records.{
  create_task_comment, add_task_attachment, remove_task_attachment, create_task_review, create_repo,
  set_repo_approval,
}
use agentary.Store.Messages.{create_message, mark_message_processed}
use agentary.Store.Reads.{get_team_by_name-Keeps, get_task-Keeps}
use agentary.Store.TaskInvariant.{Frame, frames}
use agentary.Exec.{Result, ok, err, sql, execute}
use agentary.Exec.Keeps.{Keeps, Keeps-sql, Keeps-execute, Keeps-bind, keeps_rules}
use agentary.Http.Tasks.{is_allowed}
use agentary.Http.Handles.{Permitted}

-- Every task has one of the eight statuses.
abbrev pub IsStatused : Db → Type 0
IsStatused d = All (λ (r : TaskRow). is_allowed r.status ≡ true) d.tasks

Keeps-Frame : {A : Type 0} (f : Db → Result A × Db) → Frame f → Keeps IsStatused (sql f)
Keeps-Frame f frame = Keeps-sql f (λ d h. rw (frame d).0 h)

Keeps-update :
    (p : TaskRow → Bool) (f : Task → Task)
    → ((t : Task) → is_allowed t.status ≡ true → is_allowed (f t).status ≡ true)
    → Keeps IsStatused (execute (update_tasks p f))
Keeps-update p f k =
    Keeps-execute (update_tasks p f) (λ d h. All-update_rows _ p _ d.tasks (λ r. k r.task) h)

insert_stages-Keeps :
    (id : String) (ss : List WorkflowStage) → Keeps IsStatused (insert_stages id ss)
unfolding insert_stages
insert_stages-Keeps id [] = search keeps_rules
insert_stages-Keeps id (s ∷ ss) =
    Keeps-bind _ _ (search (keeps_rules, Keeps-Frame, frames)) (λ _. insert_stages-Keeps id ss)

insert_transitions-Keeps :
    (id : String) (ts : List WorkflowTransition) → Keeps IsStatused (insert_transitions id ts)
unfolding insert_transitions
insert_transitions-Keeps id [] = search keeps_rules
insert_transitions-Keeps id (t ∷ ts) =
    Keeps-bind _ _ (search (keeps_rules, Keeps-Frame, frames)) (λ _. insert_transitions-Keeps id ts)

delete_team_row-Keeps :
    (foreign_keys : Bool) (id : String)
    → Keeps IsStatused (execute (delete_team_row foreign_keys id))
unfolding delete_team_row
delete_team_row-Keeps true id = Keeps-execute _ (λ d h. All-delete_rows _ _ d.tasks h)
delete_team_row-Keeps false id = Keeps-execute _ (λ d h. h)

insert_task-Keeps :
    (team title status : String) (at : ℕ)
    → is_allowed status ≡ true
    → Keeps IsStatused (sql (insert_task team title status at))
unfolding insert_task
insert_task-Keeps team title status at k = Keeps-sql _ (λ d h. All-snoc _ d.tasks _ h k)

claimed-allowed :
    (assignee : String) (at : ℕ) (t : Task) → is_allowed (claimed assignee at t).status ≡ true
unfolding claimed is_allowed
claimed-allowed assignee at t = refl

claim_row-Keeps :
    (team : String) (id : ℕ) (assignee : String) (at : ℕ)
    → Keeps IsStatused (sql (claim_row team id assignee at))
unfolding claim_row
claim_row-Keeps team id assignee at = Keeps-sql _ (λ d h.
    All-update_rows _ (claimable team id) (λ r. record r { task = claimed assignee at r.task })
      d.tasks (λ r k. claimed-allowed assignee at r.task) h)

on_allowlist-Keeps : (f : List String → List String) → Keeps IsStatused (on_allowlist f)
unfolding on_allowlist
on_allowlist-Keeps f = Keeps-execute _ (λ d h. h)

assign-allowed :
    (status : String) (assignee : Option String) (at : ℕ)
    → (status == "" || is_allowed status) ≡ true
    → (t : Task) → is_allowed t.status ≡ true
    → is_allowed (assign status assignee at t).status ≡ true
unfolding assign
assign-allowed status assignee at p t h = ground (arith, p, h)

same-allowed : (s t : String) → is_allowed t ≡ true → (s == t) ≡ true → is_allowed s ≡ true
same-allowed s t k e = ap is_allowed ((eq_iff s t).0 e) ∙ k

todo-allowed : is_allowed "todo" ≡ true
unfolding is_allowed
todo-allowed = refl

in_progress-allowed : is_allowed "in_progress" ≡ true
unfolding is_allowed
in_progress-allowed = refl

-- The status of a new task.
new-allowed :
    (status : String)
    → (status == "" || status == "todo" || status == "in_progress") ≡ true
    → is_allowed (if status == "" then "todo" else status) ≡ true
new-allowed status p = elim (Bool-cases (status == "")) [
  | inl e ↦ rw e todo-allowed
  | inr e ↦ rw e (
      ground (
        arith,
        p,
        e,
        same-allowed status "todo" todo-allowed,
        same-allowed status "in_progress" in_progress-allowed,
      ))
]

requeued-allowed : (at : ℕ) (t : Task) → is_allowed (unassigned "todo" at t).status ≡ true
unfolding unassigned is_allowed
requeued-allowed at t = refl

cancelled-allowed : (at : ℕ) (t : Task) → is_allowed (unassigned "cancelled" at t).status ≡ true
unfolding unassigned is_allowed
cancelled-allowed at t = refl

failed-allowed : (at : ℕ) (t : Task) → is_allowed (failed at t).status ≡ true
unfolding failed is_allowed
failed-allowed at t = refl

rewound-allowed :
    (stage : Option String) (at : ℕ) (t : Task) → is_allowed (rewound stage at t).status ≡ true
unfolding rewound is_allowed
rewound-allowed stage at t = refl

staged-allowed :
    (stage : String) (at : ℕ) (t : Task)
    → is_allowed t.status ≡ true
    → is_allowed (staged stage at t).status ≡ true
unfolding staged
staged-allowed stage at t h = h

in_workflow-allowed :
    (w : Option String) (stage : String) (at : ℕ) (t : Task)
    → is_allowed t.status ≡ true
    → is_allowed (in_workflow w stage at t).status ≡ true
unfolding in_workflow
in_workflow-allowed w stage at t h = h

with_git-allowed :
    (path branch sha repo : Option String) (at : ℕ) (t : Task)
    → is_allowed t.status ≡ true
    → is_allowed (with_git path branch sha repo at t).status ≡ true
unfolding with_git
with_git-allowed path branch sha repo at t h = h

ruleset rules = (
  keeps_rules, frames, Keeps-Frame, Keeps-update, get_team_by_name-Keeps, get_task-Keeps,
  insert_stages-Keeps, insert_transitions-Keeps, delete_team_row-Keeps, insert_task-Keeps,
  claim_row-Keeps, on_allowlist-Keeps, Keeps-execute, assign-allowed, new-allowed, requeued-allowed,
  cancelled-allowed, failed-allowed, rewound-allowed, staged-allowed, in_workflow-allowed,
  with_git-allowed,
)

initial-Keeps : (id : String) → Keeps IsStatused (get_workflow_initial_stage id)
unfolding get_workflow_initial_stage
initial-Keeps id = search rules

set_stage-Keeps :
    (id : ℕ) (workflow_id : Option String) (r : Result String) (at : ℕ)
    → Keeps IsStatused (set_stage id workflow_id r at)
unfolding set_stage
set_stage-Keeps id workflow_id (err e) at = search rules
set_stage-Keeps id workflow_id (ok stage) at = search rules

reset_if_empty-Keeps : (r : Result (List String)) → Keeps IsStatused (reset_if_empty r)
unfolding reset_allowlist
reset_if_empty-Keeps (err e) = search rules
reset_if_empty-Keeps (ok []) = search rules
reset_if_empty-Keeps (ok (d ∷ rest)) = search rules

pub run_call-IsStatused : (c : Call) → Permitted c → Keeps IsStatused (run_call c)
unfolding run_call create_team delete_team create_agent create_task update_task claim_task
    set_task_failed requeue_task set_task_cancelled rewind_task clear_task_git_fields
    update_task_git_fields create_task_comment add_task_attachment remove_task_attachment
    add_task_dependency update_task_stage set_task_workflow_and_stage create_task_review create_repo
    set_repo_approval create_workflow create_workflow_with_stages reset_allowlist allow_domain
    disallow_domain create_message mark_message_processed seed_default_workflow_stages
    list_allowed_domains
run_call-IsStatused (disallow_domain_call domain) p = search (rules, reset_if_empty-Keeps) depth 12
run_call-IsStatused (create_task_call team title status workflow_id) p =
    search (rules, initial-Keeps, set_stage-Keeps) depth 14
run_call-IsStatused (rewind_task_call team id) p = search (rules, initial-Keeps) depth 14
run_call-IsStatused (add_task_dependency_call team id on) p = search rules depth 14
run_call-IsStatused c p = search rules depth 16
