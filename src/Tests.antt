-- ===== src/Tests.antt =====
-- Runs of the operations at the small installation of Tests.Example.
pub mod Example
mod Serving
mod Tools
use mathlib.Core.List.{Memᴰ}
use agentary.Prelude.{
  ℕ, pos, ◌+◌, ◌≤◌, String, Option, none, some, Bool, true, false, not, ◌&&◌, ◌||◌, ◌≡◌, refl, List,
  [], ◌∷◌, ◌==◌, any, eqb, map, order_by, text_le, ◌⊎◌, inl, inr, find_row, or_empty, select, All,
  arith, head?, length, trim_space, ◌≢◌, eq_iff,
}
use agentary.Store.Model.{Task, TaskRow, Team, Agent, WorkflowStage, Db}
use agentary.Store.Claims.{race, wins, race-wins-le-one}
use agentary.Store.Winner.{race-wins-one}
use agentary.Store.Calls.{run_calls, Call}
use agentary.Store.Evolves.{Evolves}
use agentary.Store.History.{IsNumbered, run_calls-IsNumbered, task_history}
use agentary.Store.NextRunnable.{StalestSpec, next_runnable-StalestSpec}
use agentary.Store.Tasks.{create_task, is_task, claimable, tasks_where, is_team_task}
use agentary.Store.TaskLinks.{add_task_dependency, list_task_dependencies}
use agentary.Store.TaskLists.{next_runnable_task_for_team, runnable, stalest_first, list_tasks}
use agentary.Store.Workflows.{
  create_workflow_with_stages, get_workflow_stages, get_workflow_transitions,
  get_workflow_initial_stage, stage, transition, stages_of, transitions_of, initial_of,
}
use agentary.Store.WorkflowRuns.{of_stage, of_transition}
use agentary.Store.OwnWorkflow.{create_workflow_with_stages_lem}
use agentary.Store.InitialStage.{
  InitialSpec, initial_stage-InitialSpec, create_task_without_initial,
}
use agentary.Store.Network.{allow_domain, disallow_domain}
use agentary.Store.Network.Allowlist.{
  lists, IsWellFormed, allow_domain_lem, disallow_domain_lem, allowlist-IsWellFormed,
}
use agentary.Store.Listing.{IsWithin, list_tasks-IsWithin}
use agentary.Store.Dependencies.{add_task_dependency-unchecked}
use agentary.Scheduler.{tick_team, claimed_turn}
use agentary.Scheduler.Stuck.{tick_team_stuck}
use agentary.Scheduler.Failure.{failed_turn_counts_twice, announced}
use agentary.Engine.{run_turn, outcome_of}
use agentary.Engine.Moves.{Leads, IsEnd, StandsFor, IsMoved}
use agentary.Engine.Effects.{auto_turn-IsMoved, agent_turn-IsMoved}
use agentary.Merge.{process_task}
use agentary.Merge.Outcome.{process_task-done}
use agentary.Merge.Failure.{process_task-failed}
use agentary.Review.{pick_reviewer}
use agentary.Review.Submission.{submit_review-returned}
use agentary.Engine.{next_stage, is_terminal_in}
use agentary.Review.{submit_review}
use agentary.Review.Choice.{IsOther, pick_reviewer-IsOther}
use agentary.Store.Teams.{get_team_by_name}
use agentary.Exec.{◌>>=◌, World, Result, ok, err, no_initial_stage, external}
use Example.{
  core, ann, bob, row, task_at, stage_row, coding, busy, ready, failed_merge, merging, under_review,
  reviewing, stuck, world, good_host, bad_host, done_runtime, broken_runtime, job,
}

race-wins-le-one_example : wins (race "core" 1 ("ann" ∷ "bob" ∷ []) ready) ≤ 1
race-wins-le-one_example = race-wins-le-one "core" 1 ("ann" ∷ "bob" ∷ []) ready

race-wins-one_example : wins (race "core" 1 ("ann" ∷ "bob" ∷ []) ready) ≡ 1
unfolding claimable
race-wins-one_example = race-wins-one "core" 1 "ann" ("bob" ∷ []) ready core refl refl refl

abbrev calls : List Call
calls =
    Call.claim_task_call "core" 1 "bob"
    ∷ Call.set_task_failed_call 1
    ∷ Call.requeue_task_call "core" 1
    ∷ Call.create_task_call "core" "write docs" "" none
    ∷ []

ready-IsNumbered : IsNumbered ready.db
ready-IsNumbered = (omega arith, omega arith)

run_calls-IsNumbered_example : IsNumbered (run_calls calls ready).db
run_calls-IsNumbered_example = run_calls-IsNumbered calls ready ready-IsNumbered

task_history_example :
    All (λ (u : TaskRow). u.task_id ≡ 1 → Evolves coding u.task) (run_calls calls ready).db.tasks
task_history_example = task_history calls ready (row coding) ready-IsNumbered (Memᴰ.head refl)

next_runnable-StalestSpec_example :
    (o : Option Task) × ((next_runnable_task_for_team "core" stuck).0 ≡ ok o)
    × StalestSpec "t1" stuck.db o
next_runnable-StalestSpec_example = next_runnable-StalestSpec stuck "core" core refl refl

stuck-IsNumbered : IsNumbered stuck.db
stuck-IsNumbered = (omega arith, (omega arith, omega arith))

next_of_stuck : (next_runnable_task_for_team "core" stuck).0 ≡ ok (some busy)
unfolding next_runnable_task_for_team get_team_by_name ◌>>=◌
next_of_stuck = refl

tick_team_stuck_example :
    ((tick_team good_host done_runtime "core" stuck).1.db ≡ stuck.db)
    × ((tick_team good_host done_runtime "core" stuck).1.published ≡ [])
    × ((next_runnable_task_for_team "core" (tick_team good_host done_runtime "core" stuck).1).0
        ≡ ok (some busy))
tick_team_stuck_example =
    tick_team_stuck good_host done_runtime stuck "core" core busy refl refl stuck-IsNumbered
      next_of_stuck refl

failed_turn_counts_twice_example :
    (u : TaskRow) × (find_row
        (is_task 1)
        (claimed_turn good_host broken_runtime job (ok true) ready).1.db.tasks
      ≡ some u)
    × (u.attempt_count ≡ 0 + 2)
    × (u.status ≡ "failed")
unfolding stages_of
failed_turn_counts_twice_example =
    failed_turn_counts_twice good_host broken_runtime ready (announced job ready) job "w1"
      (stage_row "Coding" "agent") (external "subprocess") (row coding) refl refl
      (refl, refl, refl, refl) refl refl refl refl

differ : (a b : String) → (a == b) ≡ false → a ≢ b
differ a b n e = ground (arith, n, e, eq_iff a b)

abbrev linting : Task
linting = task_at 1 "todo" (some "Lint")

abbrev linted : World
linted = world (row linting ∷ []) 2

auto_turn-IsMoved_example :
    let (result, w') = run_turn good_host done_runtime "core" linting linted in
    (result ≡ ok true)
    × (u : TaskRow) × (find_row (is_task 1) w'.db.tasks ≡ some u)
    × IsMoved "Done" true (row linting) u
unfolding stages_of transitions_of Leads IsEnd
auto_turn-IsMoved_example =
    auto_turn-IsMoved good_host done_runtime linted refl "core" linting "w1"
      (stage_row "Lint" "auto") (row linting) "Done" true (refl, refl, refl, refl) refl refl
      (inr (inl (λ e. absurd (cc)), inr (inl (λ e. absurd (cc)), inl (refl, refl, refl))))
      (stage_row "Done" "terminal", Memᴰ.tail (Memᴰ.head refl), refl, refl)

agent_turn-IsMoved_example :
    let (result, w') = run_turn good_host done_runtime "core" coding ready in
    (result ≡ ok true)
    × (u : TaskRow) × (find_row (is_task 1) w'.db.tasks ≡ some u)
    × IsMoved "Lint" false (row coding) u
unfolding stages_of transitions_of Leads IsEnd StandsFor trim_space
agent_turn-IsMoved_example =
    agent_turn-IsMoved good_host done_runtime ready refl "core" coding "w1"
      (stage_row "Coding" "agent") ready " done " "done" (row coding) "Lint" false
      (refl, refl, refl, refl) refl refl refl refl refl
      (inr ((λ e. absurd (cc)), (λ e. absurd (cc)), refl)) (inl (refl, refl, refl))
      (
        inl (differ "Coding" "Lint" refl),
        (
          inl (differ "Done" "Lint" refl),
          (inl (differ "InReview" "Lint" refl), (inr (differ "auto" "terminal" refl), tt)),
        ),
      )

create_workflow_with_stages_lem_example :
    let (r, w) =
      create_workflow_with_stages "core" "own" 1 "own.yaml"
        (stage "Plan" "human" "done" ∷ [])
        (transition "Plan" "done" "Done" ∷ [])
        ready in
    (r ≡ ok "n1")
    × ((get_workflow_stages "n1" w).0 ≡ ok (map (of_stage "n1") (stage "Plan" "human" "done" ∷ [])))
    × ((get_workflow_transitions "n1" w).0
        ≡ ok (map (of_transition "n1") (transition "Plan" "done" "Done" ∷ [])))
create_workflow_with_stages_lem_example =
    create_workflow_with_stages_lem ready "core" "own" 1 "own.yaml" core
      (stage "Plan" "human" "done" ∷ []) (transition "Plan" "done" "Done" ∷ []) refl refl refl refl
      refl refl refl (refl, tt) (refl, tt)

initial_stage-InitialSpec_example :
    InitialSpec "w1" ready.db (get_workflow_initial_stage "w1" ready).0
initial_stage-InitialSpec_example = initial_stage-InitialSpec ready "w1" refl

no_initial_of_w2 : (get_workflow_initial_stage "w2" ready).0 ≡ err no_initial_stage
unfolding get_workflow_initial_stage stages_of transitions_of initial_of ◌>>=◌
no_initial_of_w2 = refl

create_task_without_initial_example :
    create_task "core" "write docs" "" (some "w2") ready
    ≡ create_task "core" "write docs" "" none ready
create_task_without_initial_example =
    create_task_without_initial ready "core" "write docs" "" "w2" refl no_initial_of_w2

process_task-done_example :
    (u : TaskRow) × (find_row
        (is_task 1)
        (process_task good_host true "core" failed_merge merging).1.db.tasks
      ≡ some u)
    × (u.status ≡ "done")
    × (u.current_stage ≡ some "Done")
    × (u.assignee ≡ none)
    × (u.worktree_path ≡ none)
    × (u.attempt_count ≡ 0)
process_task-done_example =
    process_task-done good_host true merging "core" failed_merge (row failed_merge)
      ((λ dir args w. ("", refl)), (λ path w. (false, refl)), (λ path w. refl)) refl refl refl

process_task-failed_example :
    (u : TaskRow) × (find_row
        (is_task 1)
        (process_task bad_host true "core" failed_merge merging).1.db.tasks
      ≡ some u)
    × (u.status ≡ "failed")
    × (u.attempt_count ≡ 0 + 1)
    × (u.current_stage ≡ some "Merging")
    × (u.branch_name ≡ some "task-1")
process_task-failed_example =
    process_task-failed bad_host true merging "core" failed_merge (row failed_merge)
      (λ dir args w. (external "exit status 1", refl)) refl (refl, refl, refl) refl

pick_reviewer-IsOther_example :
    (name : String) × ((pick_reviewer coding (ann ∷ bob ∷ []) ready).0 ≡ ok name)
    × IsOther "ann" (ann ∷ bob ∷ []) name
pick_reviewer-IsOther_example =
    pick_reviewer-IsOther ready coding (ann ∷ bob ∷ []) bob (Memᴰ.tail (Memᴰ.head refl)) refl

allow_domain_lem_example :
    ((allow_domain "go.dev" ready).0 ≡ ok tt)
    × ((e : String)
        → lists e (allow_domain "go.dev" ready).1.db.allowlist
          ≡ (e == "go.dev") || not ("go.dev" == "*") && not (e == "*") && lists e ("*" ∷ []))
allow_domain_lem_example = allow_domain_lem ready "go.dev" refl refl

disallow_domain_lem_example :
    ((disallow_domain "*" ready).0 ≡ ok tt)
    × (((disallow_domain "*" ready).1.db.allowlist ≡ "*" ∷ [])
          × ((e : String) → not (e == "*") && lists e ("*" ∷ []) ≡ false)
        ⊎ ((e : String)
            → lists e (disallow_domain "*" ready).1.db.allowlist
              ≡ not (e == "*") && lists e ("*" ∷ [])))
disallow_domain_lem_example = disallow_domain_lem ready "*" refl refl

allowlist-IsWellFormed_example :
    IsWellFormed (allow_domain "go.dev" ready).1.db.allowlist
    × IsWellFormed (disallow_domain "go.dev" ready).1.db.allowlist
allowlist-IsWellFormed_example = allowlist-IsWellFormed ready "go.dev" refl refl (λ k. refl)

list_tasks-IsWithin_example : IsWithin 1000 (list_tasks "core" (pos 1000) ready).0
list_tasks-IsWithin_example = list_tasks-IsWithin ready "core" 1000

add_task_dependency-unchecked_example :
    (ds : List ℕ) × ((add_task_dependency "core" 7 1 ready).0 ≡ ok tt)
    × ((list_task_dependencies "core" 7 (add_task_dependency "core" 7 1 ready).1).0 ≡ ok ds)
    × (any (eqb 1) ds ≡ true)
unfolding tasks_where
add_task_dependency-unchecked_example =
    add_task_dependency-unchecked ready "core" core 7 1 coding refl refl refl refl

submit_review-returned_example :
    let (result, w) = submit_review "core" 1 "bob" "changes_requested" "add tests" reviewing in
    (result ≡ ok tt)
    × (u : TaskRow) × (find_row (is_task 1) w.db.tasks ≡ some u)
    × (u.status ≡ "in_progress")
    × (u.assignee ≡ some "ann")
    × (u.current_stage ≡ some "Coding")
unfolding tasks_where stages_of transitions_of next_stage is_terminal_in
submit_review-returned_example =
    submit_review-returned reviewing "core" core 1 "bob" "add tests" (row under_review) under_review
      "Coding" refl refl refl refl refl refl refl refl refl refl
