-- ===== src/Store/Winner.antt =====
-- ClaimTask of a task that can be claimed: somebody wins.
use agentary.Prelude.{
  ℕ, String, some, Bool, true, ◌≡◌, refl, ap, ◌∙◌, arith, List, [], ◌∷◌, any, count_rows, ltb,
}
use agentary.Store.Model.{Team, TaskRow}
use agentary.Store.Claims.{named, race, wins, race_lost, claim_task-IsTaken}
use agentary.Store.TaskRuns.{claim_task_run}
use agentary.Store.Tasks.{claim_task, claimable}
use agentary.Exec.{World, ok}

count_rows-any :
    (p : TaskRow → Bool) (rows : List TaskRow)
    → any p rows ≡ true
    → ltb 0 (count_rows p rows) ≡ true
count_rows-any p [] h = cc
count_rows-any p (r ∷ rows) h = ground (arith, count_rows-any p rows)

-- Of one or more agents that claim a task of the team that is "todo", exactly one wins, while the
-- driver fails nothing.
pub race-wins-one :
    (name : String) (id : ℕ) (a : String) (agents : List String) (w : World) (t : Team)
    → w.faults ≡ []
    → named name w.db ≡ some t
    → any (claimable t.team_id id) w.db.tasks ≡ true
    → wins (race name id (a ∷ agents) w) ≡ 1
unfolding race wins
race-wins-one name id a agents w t quiet e there =
    let won : (claim_task name id a w).0 ≡ ok true =
      ap (λ r. r.0) (claim_task_run w quiet name id a t e)
      ∙ ap ok (count_rows-any (claimable t.team_id id) w.db.tasks there) in
    let taken = (claim_task-IsTaken {P = λ _. Unit} name id a).at w tt in
    let lost = race_lost name id agents (claim_task name id a w).1 (taken true won) in
    rw (won, lost) refl
