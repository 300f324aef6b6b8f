-- ===== src/Scheduler/Stuck.antt =====
-- What a tick of the scheduler does for a team whose stalest runnable task is in progress.
use mathlib.Core.List.{Memᴰ}
use agentary.Prelude.{
  ℕ, suc, ◌<◌, String, Option, none, some, false, ◌≡◌, refl, sym, ap, ◌∙◌, arith, List, [], ◌∷◌,
  if◌then◌else◌, ◌==◌, eqb, All, is_blank, or_empty, update_rows-none, count_rows-none, order_by,
  select, map, leb,
}
use agentary.Store.Model.{Team, Agent, AgentRow, Task, TaskRow, WorkflowStage, Db}
use agentary.Store.Claims.{named}
use agentary.Store.History.{Ascending, Ascending-mem, IsNumbered}
use agentary.Store.TaskRuns.{get_team_run, claim_task_run, later}
use agentary.Store.Teams.{list_agents}
use agentary.Store.Workflows.{get_workflow_stages, stages_of}
use agentary.Store.Tasks.{claimable, claimed}
use agentary.Store.TaskLists.{next_runnable_task_for_team}
use agentary.Store.NextRunnable.{stalest, next_runnable_run, StalestSpec, stalest-StalestSpec}
use agentary.Host.{Host, Runtime}
use agentary.Engine.{or_zero}
use agentary.Scheduler.{
  Job, tick_team, prepare, prepare_task, job_for, run_job, claimed_turn, pick_assignee,
  choose_assignee,
}
use agentary.Exec.{World, ok, Exec, pure, ◌>>=◌}
use agentary.Exec.Run.{bind_run, query_run, attempt_run, if_run, bind_start}

above-All :
    (lo : ℕ) (rows : List TaskRow) (n id : ℕ)
    → Ascending lo rows n
    → id < lo
    → All (λ (u : TaskRow). eqb u.task_id id ≡ false) rows
above-All lo [] n id a h = tt
above-All lo (r ∷ rows) n id a h =
    (ground arith, above-All (suc r.task_id) rows n id a.1 (omega arith))

none_claimable :
    (team : String) (id lo : ℕ) (rows : List TaskRow)
    → All (λ (u : TaskRow). eqb u.task_id id ≡ false) rows
    → All (λ (u : TaskRow). claimable team id u ≡ false) rows
unfolding claimable
none_claimable team id lo [] h = tt
none_claimable team id lo (r ∷ rows) h = (rw h.0 refl, none_claimable team id lo rows h.1)

not_todo :
    (team : String) (r : TaskRow) (id : ℕ)
    → (r.status == "todo") ≡ false
    → claimable team id r ≡ false
unfolding claimable
not_todo team r id h = ground arith

-- In a table of distinct numbers, a row that is not "todo" keeps its number from being claimed.
not_claimable :
    (team : String) (lo : ℕ) (rows : List TaskRow) (n : ℕ) (t : TaskRow)
    → Ascending lo rows n
    → Memᴰ t rows
    → (t.status == "todo") ≡ false
    → All (λ (u : TaskRow). claimable team t.task_id u ≡ false) rows
unfolding claimable
not_claimable team lo [] n t a m h = elim m [ ]
not_claimable team lo (r ∷ rows) n t a (Memᴰ.head e) h = (
  not_todo team r t.task_id (ap (λ (u : TaskRow). u.status == "todo") (sym e) ∙ h),
  none_claimable team t.task_id lo rows (
      above-All (suc r.task_id) rows n t.task_id a.1
        (omega (arith, ap (λ (u : TaskRow). u.task_id) e))),
)
not_claimable team lo (r ∷ rows) n t a (Memᴰ.tail m) h =
    let higher = Ascending-mem t (suc r.task_id) rows n a.1 m in
    (ground arith, not_claimable team (suc r.task_id) rows n t a.1 m h)

task_taken :
    (t : Team) (task : Task) (d : Db)
    → IsNumbered d
    → (task.status == "todo") ≡ false
    → StalestSpec t.team_id d (some task)
    → All (λ (u : TaskRow). claimable t.team_id task.task_id u ≡ false) d.tasks
task_taken t task d numbered other (r, m, same, passes, least) =
    rw (sym (ap (λ (u : Task). u.task_id) same)) (
      not_claimable t.team_id 1 d.tasks d.next_task r numbered m
        (ap (λ (u : Task). u.status == "todo") same ∙ other))

ok_eq : {A : Type 0} {a b : A} → ok a ≡ ok b → a ≡ b
ok_eq e = cc

-- The agents of a team, as ListAgents orders them.
abbrev agents_of : Team → Db → List Agent
agents_of t d =
    order_by (λ a b. leb a.created_at b.created_at)
      (map (λ (r : AgentRow). r.agent) (select (λ r. r.team_id == t.team_id) d.agents))

list_agents_run :
    (w : World) (name : String) (t : Team)
    → w.faults ≡ []
    → named name w.db ≡ some t
    → list_agents name w ≡ (ok (agents_of t w.db), w)
unfolding list_agents
list_agents_run w name t quiet e =
    bind_run _ _ w w t (get_team_run w quiet name t e) ∙ query_run w quiet _

-- The stages that pickAssignee looks at.
abbrev stages_for : Task → Db → List WorkflowStage
stages_for task d =
    if is_blank task.workflow_id
    then []
    else if is_blank task.current_stage
    then []
    else stages_of (or_empty task.workflow_id) d

pick_assignee_run :
    (w : World) (task : Task) (agents : List Agent)
    → w.faults ≡ []
    → pick_assignee task agents w
      ≡ (ok (choose_assignee (or_empty task.current_stage) agents (stages_for task w.db)), w)
unfolding pick_assignee pure get_workflow_stages
pick_assignee_run w task agents quiet = bind_run _ _ w w _ (
    if_run (is_blank task.workflow_id) _ _ [] _ w refl (
      if_run (is_blank task.current_stage) _ _ [] _ w refl (
        attempt_run _ (or_zero []) w w _
          (query_run w quiet (stages_of (or_empty task.workflow_id))))))

-- The loser of a claim does nothing.
lost_claim :
    (host : Host) (rt : Runtime) (w : World) (job : Job) (t : Team)
    → w.faults ≡ []
    → named job.team w.db ≡ some t
    → All (λ (u : TaskRow). claimable t.team_id job.task.task_id u ≡ false) w.db.tasks
    → run_job host rt job w ≡ (ok tt, later w)
unfolding run_job claimed_turn pure
lost_claim host rt w job t quiet e none_left =
    attempt_run _ (claimed_turn host rt job) w _ _
      (claim_task_run w quiet job.team job.task.task_id job.agent t e)
    ∙ rw
        (
          count_rows-none _ _ none_left,
          update_rows-none _ (λ r. record r { task = claimed job.agent (w.clock 0) r.task }) _
              none_left,
        )
        refl

-- What tick_team does once it has the job.
abbrev then_run : Host → Runtime → Exec (Option Job) → Exec Unit
then_run host rt m = m >>= λ job. elim job [ none ↦ pure tt | some j ↦ run_job host rt j ]

-- The rest of the tick, for the task that NextRunnableTaskForTeam returned.
lost_task :
    (host : Host) (rt : Runtime) (w : World) (name : String) (t : Team) (task : Task)
    (agents : List Agent)
    → w.faults ≡ []
    → named name w.db ≡ some t
    → All (λ (u : TaskRow). claimable t.team_id task.task_id u ≡ false) w.db.tasks
    → (k : ℕ → ℕ) × (then_run host rt (job_for name task agents) w
        ≡ (ok tt, record w { clock = k }))
unfolding job_for pure
lost_task host rt w name t task [] quiet e none_left =
    (w.clock, bind_run (pure none) _ w w none refl ∙ refl)
lost_task host rt w name t task (a ∷ agents) quiet e none_left = (
  (later w).clock,
  bind_run _ _ w w _ (bind_run _ _ w w _ (pick_assignee_run w task (a ∷ agents) quiet) ∙ refl)
      ∙ lost_claim host rt w
          (record {
            team = name;
            task = task;
            agent =
                choose_assignee (or_empty task.current_stage) (a ∷ agents) (stages_for task w.db);
            agents = a ∷ agents;
          })
          t quiet e none_left,
)

prepare_run :
    (w : World) (name : String) (t : Team) (task : Task)
    → w.faults ≡ []
    → named name w.db ≡ some t
    → stalest t.team_id w.db ≡ some task
    → prepare name w ≡ job_for name task (agents_of t w.db) w
unfolding prepare prepare_task pure
prepare_run w name t task quiet e next =
    bind_run _ _ w w (some task) (
      attempt_run _ (or_zero none) w w _ (next_runnable_run w name t quiet e)
      ∙ ap (λ o. (ok o, w)) next)
    ∙ bind_run _ _ w w _ (attempt_run _ (or_zero []) w w _ (list_agents_run w name t quiet e))

-- The team's share of a tick changes no row and publishes nothing if the task that
-- NextRunnableTaskForTeam returns is not "todo" (it also returns those "in_progress", and
-- ClaimTask takes none of them), the driver fails nothing and the tasks are numbered as CreateTask
-- numbers them; and the method then returns the same task again.
pub tick_team_stuck :
    (host : Host) (rt : Runtime) (w : World) (name : String) (t : Team) (task : Task)
    → w.faults ≡ []
    → named name w.db ≡ some t
    → IsNumbered w.db
    → (next_runnable_task_for_team name w).0 ≡ ok (some task)
    → (task.status == "todo") ≡ false
    → ((tick_team host rt name w).1.db ≡ w.db)
      × ((tick_team host rt name w).1.published ≡ w.published)
      × ((next_runnable_task_for_team name (tick_team host rt name w).1).0 ≡ ok (some task))
unfolding tick_team
tick_team_stuck host rt w name t task quiet e numbered next other =
    let first : stalest t.team_id w.db ≡ some task =
      ok_eq (ap (λ r. r.0) (sym (next_runnable_run w name t quiet e)) ∙ next) in
    let (k, run) =
      lost_task host rt w name t task (agents_of t w.db) quiet e (
        task_taken t task w.db numbered other (rw first at (stalest-StalestSpec t.team_id w.db))) in
    let tick = bind_start (prepare name) _ _ w (prepare_run w name t task quiet e first) ∙ run in
    (
      ap (λ r. r.1.db) tick,
      ap (λ r. r.1.published) tick,
      ap (λ r. (next_runnable_task_for_team name r.1).0) tick
          ∙ ap (λ r. r.0) (next_runnable_run (record w { clock = k }) name t quiet e)
          ∙ ap ok first,
    )
