-- ===== src/Merge/Failure.antt =====
-- What the merge worker does to a task when the programs that it starts fail.
use agentary.Prelude.{
  ℕ, ◌+◌, String, some, Bool, true, false, ◌||◌, ◌≡◌, refl, ap, ◌∙◌, List, [], ◌∷◌, if◌then◌else◌,
  ◌==◌, find_row, or_empty, inl, inr, ◌⊎◌, Bool-cases,
}
use agentary.Store.Model.{Task, TaskRow, Repo}
use agentary.Store.TaskRuns.{set_task_failed_run, find_updated}
use agentary.Store.Tasks.{failed, is_task}
use agentary.Store.Records.{list_repos}
use agentary.Host.{Host}
use agentary.Git.{wrap, rebase_onto_main, run_test_cmd, merge_in_worktree}
use agentary.Engine.{or_zero, repo_for, test_cmd_of}
use agentary.Engine.Turn.{failed_world}
use agentary.Merge.Outcome.{repos_read}
use agentary.Merge.{or_fail, rebase_step, test_step, merge_step, and_then, process_task}
use agentary.Exec.{wrapped, World, ok, err, Error, Exec, pure, fail, attempt}
use agentary.Exec.Run.{bind_run, attempt_run, ignore_run}

-- Every program that the worker starts fails, and none touches the store.
abbrev pub Fails : Host → Type 0
Fails host =
    (dir : String) (args : List String) (w : World)
    → (e : Error) × (host.command dir args w ≡ (err e, w))

wrap_fails :
    (m : Exec String) (text : String) (k : String → Exec Unit) (w : World) (e : Error)
    → m w ≡ (err e, w)
    → wrap text m k w ≡ (err (wrapped text e), w)
unfolding fail
wrap_fails m text k w e h = attempt_run _ _ w w (err e) h

not_skipped :
    (b : Bool) (m : Exec Unit) (w : World) (x : Error)
    → b ≡ false
    → m w ≡ (err x, w)
    → (if b then pure tt else m) w ≡ (err x, w)
not_skipped b m w x e h = rw e h

if_true :
    {A : Type 0} (b : Bool) (m k : Exec A) (w : World) → b ≡ true → (if b then m else k) w ≡ m w
if_true b m k w e = rw e refl

if_false :
    {A : Type 0} (b : Bool) (m k : Exec A) (w : World) → b ≡ false → (if b then m else k) w ≡ k w
if_false b m k w e = rw e refl

module _ (host : Host) (bad : Fails host) where
  rebase_fails :
      (path branch : String) (w : World)
      → (path == "" || branch == "") ≡ false
      → (e : Error) × (rebase_onto_main host path branch w ≡ (err e, w))
  unfolding rebase_onto_main
  rebase_fails path branch w h =
      let (e, run) = bad path ("git" ∷ "checkout" ∷ branch ∷ []) w in
      (_, not_skipped _ _ w _ h (wrap_fails _ "git checkout" _ w e run))

  merge_fails :
      (path branch : String) (w : World)
      → (path == "" || branch == "") ≡ false
      → (e : Error) × (merge_in_worktree host path branch w ≡ (err e, w))
  unfolding merge_in_worktree
  merge_fails path branch w h =
      let (e, run) = bad path ("git" ∷ "checkout" ∷ "main" ∷ []) w in
      let (e', run') = bad path ("git" ∷ "checkout" ∷ "master" ∷ []) w in
      (
        _,
        not_skipped _ _ w _ h (
            wrap_fails _ "git checkout main/master" _ w e'
              (attempt_run _ _ w w (err e) run ∙ run')),
      )

  tests_fail :
      (path cmd : String) (w : World)
      → (path == "" || cmd == "") ≡ false
      → (e : Error) × (run_test_cmd host path cmd w ≡ (err e, w))
  unfolding run_test_cmd
  tests_fail path cmd w h =
      let (e, run) = bad path ("sh" ∷ "-c" ∷ cmd ∷ []) w in
      (_, not_skipped _ _ w _ h (wrap_fails _ "test_cmd" _ w e run))

module _ (host : Host) (rebase : Bool) where
  or_fail_err :
      (id : ℕ) (m : Exec Unit) (w : World) (e : Error)
      → w.faults ≡ []
      → m w ≡ (err e, w)
      → or_fail host rebase id m w ≡ (ok false, failed_world id w)
  unfolding or_fail pure
  or_fail_err id m w e quiet h =
      attempt_run _ _ w w (err e) h
      ∙ bind_run _ _ w _ tt (ignore_run _ w _ _ (set_task_failed_run w quiet id))

  stop :
      (m : Exec Bool) (k : Exec Unit) (w w' : World)
      → m w ≡ (ok false, w')
      → and_then host rebase m k w ≡ (ok tt, w')
  unfolding pure
  stop m k w w' e = bind_run _ _ w w' false e

  go_on :
      (m : Exec Bool) (k : Exec Unit) (w : World)
      → m w ≡ (ok true, w)
      → and_then host rebase m k w ≡ k w
  go_on m k w e = bind_run _ _ w w true e

-- The task has a workflow, a worktree and a branch.
abbrev pub IsMergeable : Task → Type 0
IsMergeable task =
    ((or_empty task.workflow_id == "") ≡ false)
    × ((or_empty task.worktree_path == "") ≡ false)
    × ((or_empty task.branch_name == "") ≡ false)

module _ (host : Host) (rebase : Bool) (bad : Fails host) (w : World) (quiet : w.faults ≡ [])
    (task : Task) (m : IsMergeable task) where
  merge_step_err : merge_step host rebase task w ≡ (ok false, failed_world task.task_id w)
  unfolding merge_step
  merge_step_err =
      let (e, run) =
        merge_fails host bad (or_empty task.worktree_path) (or_empty task.branch_name) w
          (rw (m.1, m.2) refl) in
      rw (m.1, m.2) (or_fail_err host rebase task.task_id _ w e quiet run)

  test_step_err :
      (repos : List Repo) (team : String)
      → attempt (list_repos team) (or_zero []) w ≡ (ok repos, w)
      → (test_step host rebase team task w ≡ (ok true, w))
        ⊎ (test_step host rebase team task w ≡ (ok false, failed_world task.task_id w))
  unfolding test_step pure
  test_step_err repos team read =
      elim (Bool-cases (test_cmd_of (repo_for task.repo_name repos) == "")) [
        | inl e ↦ inl (rw m.1 (bind_run _ _ w w repos read ∙ rw e refl))
        | inr e ↦
            let (x, run) =
              tests_fail host bad (or_empty task.worktree_path)
                (test_cmd_of (repo_for task.repo_name repos)) w (rw (m.1, e) refl) in
            inr (
              rw m.1 (
                bind_run _ _ w w repos read
                ∙ rw e (or_fail_err host rebase task.task_id _ w x quiet run)))
      ]

  rebase_step_err :
      (rebase_step host rebase task w ≡ (ok true, w))
      ⊎ (rebase_step host rebase task w ≡ (ok false, failed_world task.task_id w))
  unfolding rebase_step pure
  rebase_step_err = elim (Bool-cases rebase) [
    | inl e ↦
        let (x, run) =
          rebase_fails host bad (or_empty task.worktree_path) (or_empty task.branch_name) w
            (rw (m.1, m.2) refl) in
        inr (
          rw (m.1, m.2)
            (if_true rebase _ _ w e ∙ or_fail_err host rebase task.task_id _ w x quiet run))
    | inr e ↦ inl (rw (m.1, m.2) (if_false rebase _ _ w e))
  ]

  process_task_err :
      (team : String) → process_task host rebase team task w ≡ (ok tt, failed_world task.task_id w)
  unfolding process_task
  process_task_err team =
      let (repos, read) = repos_read w team quiet in
      rw m.0 (elim rebase_step_err [
        | inr e ↦ stop host rebase _ _ w _ e
        | inl e ↦ go_on host rebase _ _ w e ∙ elim (test_step_err repos team read) [
          | inr f ↦ stop host rebase _ _ w _ f
          | inl f ↦ go_on host rebase _ _ w f ∙ stop host rebase _ _ w _ merge_step_err
        ]
      ])

-- If every program that the worker starts fails, without touching the store, and the driver fails
-- nothing, a task with a workflow, a worktree and a branch is failed with exactly one attempt
-- more, and keeps its stage and its branch.
pub process_task-failed :
    (host : Host) (rebase : Bool) (w : World) (team : String) (task : Task) (r : TaskRow)
    → Fails host
    → w.faults ≡ []
    → IsMergeable task
    → find_row (is_task task.task_id) w.db.tasks ≡ some r
    → (u : TaskRow) × (find_row
          (is_task task.task_id)
          (process_task host rebase team task w).1.db.tasks
        ≡ some u)
      × (u.status ≡ "failed")
      × (u.attempt_count ≡ r.attempt_count + 1)
      × (u.current_stage ≡ r.current_stage)
      × (u.branch_name ≡ r.branch_name)
unfolding failed
process_task-failed host rebase w team task r bad quiet m row = (
  _,
  ap (λ x. find_row (is_task task.task_id) x.1.db.tasks)
        (process_task_err host rebase bad w quiet task m team)
      ∙ find_updated task.task_id (failed (w.clock 0)) w.db r (λ t. refl) row,
  refl,
  refl,
  refl,
  refl,
)
