-- ===== src/Store/Claims.antt =====
-- ClaimTask under any number of competing callers.
use agentary.Prelude.{
  ℕ, ◌≤◌, String, Option, some, Bool, true, false, ◌≡◌, inl, inr, Bool-cases, ◌≢◌, refl, ap, arith,
  List, [], ◌∷◌, ◌==◌, find_row, update_rows, count_rows, All,
}
use agentary.Store.Model.{Team, TaskRow, Db}
use agentary.Store.Teams.{get_team_by_name}
use agentary.Store.Tasks.{claim_task, claim_row, claimable, claimed}
use agentary.Exec.{World, Result, ok, err}
use agentary.Exec.Ensures.{
  Ensures, Ensures-sql, Ensures-query, Ensures-pure, Ensures-found, Ensures-now, Ensures-bind,
}

-- The team that has the name.
abbrev pub named : String → Db → Option Team
named name d = find_row (λ (t : Team). t.name == name) d.teams

-- GetTeamByName returns the team of that name.
pub get_team-Ensures :
    {P : Db → Type 0} (name : String)
    → Ensures P
        (get_team_by_name name)
        (λ r d. P d × ((t : Team) → r ≡ ok t → named name d ≡ some t))
unfolding get_team_by_name
get_team-Ensures {P} name =
    Ensures-bind (λ r d. P d × ((o : Option Team) → r ≡ ok o → named name d ≡ o)) _ _
      (Ensures-query _ (λ d h. (h, λ o e. cc)) (λ d h. (h, λ o e. cc)))
      (λ o. Ensures-found _ o (λ t d e h. (h.0, λ u f. cc (h.1 o refl))) (λ d h. (h.0, λ u f. cc)))
      (λ e d h. (h.0, λ u f. cc))

-- No row of the team and number is left to claim.
abbrev pub IsTaken : String → ℕ → Db → Type 0
IsTaken name id d =
    (t : Team)
    → named name d ≡ some t
    → All (λ (r : TaskRow). claimable t.team_id id r ≡ false) d.tasks

claimable-claimed :
    (team : String) (id : ℕ) (assignee : String) (at : ℕ) (r : TaskRow)
    → claimable team id (record r { task = claimed assignee at r.task }) ≡ false
unfolding claimable claimed
claimable-claimed team id assignee at r = ground arith

claimed-not_claimable :
    (team : String) (id : ℕ) (assignee : String) (at : ℕ) (rows : List TaskRow)
    → All
        (λ (r : TaskRow). claimable team id r ≡ false)
        (update_rows (claimable team id) (λ r. record r { task = claimed assignee at r.task }) rows)
claimed-not_claimable team id assignee at [] = tt
claimed-not_claimable team id assignee at (r ∷ rows) = elim (Bool-cases (claimable team id r)) [
  | inl e ↦
      rw e (claimable-claimed team id assignee at r, claimed-not_claimable team id assignee at rows)
  | inr e ↦ rw e (e, claimed-not_claimable team id assignee at rows)
]

none_claimable :
    (team : String) (id : ℕ) (rows : List TaskRow)
    → All (λ (r : TaskRow). claimable team id r ≡ false) rows
    → count_rows (claimable team id) rows ≡ 0
none_claimable team id [] h = refl
none_claimable team id (r ∷ rows) h = ground (arith, none_claimable team id rows)

same_team :
    (name : String) (d : Db) {t u : Team} → named name d ≡ some t → named name d ≡ some u → u ≡ t
same_team name d e f = cc

claim_row-IsTaken :
    (name : String) (t : Team) (id : ℕ) (assignee : String) (at : ℕ) (d : Db)
    → named name d ≡ some t
    → IsTaken name id (claim_row t.team_id id assignee at d).1
unfolding claim_row
claim_row-IsTaken name t id assignee at d e u f =
    rw (ap (λ (v : Team). v.team_id) (same_team name d e f))
      (claimed-not_claimable t.team_id id assignee at d.tasks)

-- A call that returns has left no row to claim, whether it won or lost.
pub claim_task-IsTaken :
    {P : Db → Type 0} (name : String) (id : ℕ) (assignee : String)
    → Ensures P (claim_task name id assignee) (λ r d. (won : Bool) → r ≡ ok won → IsTaken name id d)
unfolding claim_task
claim_task-IsTaken {P} name id assignee =
    Ensures-bind (λ r d. P d × ((t : Team) → r ≡ ok t → named name d ≡ some t)) _ _
      (get_team-Ensures name)
      (λ t.
        Ensures-bind (λ r d. named name d ≡ some t) _ _ (Ensures-now (λ n d h. h.1 t refl))
          (λ at.
            Ensures-bind (λ r d. (n : ℕ) → r ≡ ok n → IsTaken name id d) _ _
              (Ensures-sql _ (λ d h n e. claim_row-IsTaken name t id assignee at d h)
                (λ d h n e. cc))
              (λ n. Ensures-pure _ (λ d h won e. h n refl)) (λ e d h won f. cc))
          (λ e d h won f. cc))
      (λ e d h won f. cc)

claim_row_count :
    (team : String) (id : ℕ) (assignee : String) (at : ℕ) (d : Db)
    → All (λ (r : TaskRow). claimable team id r ≡ false) d.tasks
    → (n : ℕ) → (claim_row team id assignee at d).0 ≡ ok n
    → n ≡ 0
unfolding claim_row
claim_row_count team id assignee at d h n e = cc (none_claimable team id d.tasks h)

-- While no row is left, no call wins, and none is left after it.
claim_task-keeps_IsTaken :
    (name : String) (id : ℕ) (assignee : String)
    → Ensures
        (IsTaken name id)
        (claim_task name id assignee)
        (λ r d. (r ≢ ok true) × IsTaken name id d)
unfolding claim_task
claim_task-keeps_IsTaken name id assignee =
    Ensures-bind (λ r d. IsTaken name id d × ((t : Team) → r ≡ ok t → named name d ≡ some t)) _ _
      (get_team-Ensures name)
      (λ t.
        Ensures-bind (λ r d. IsTaken name id d × (named name d ≡ some t)) _ _
          (Ensures-now (λ n d h. (h.0, h.1 t refl)))
          (λ at.
            Ensures-bind (λ r d. ((n : ℕ) → r ≡ ok n → n ≡ 0) × IsTaken name id d) _ _
              (Ensures-sql _
                (λ d h. (
                  (λ n e. claim_row_count t.team_id id assignee at d (h.0 t h.1) n e),
                  claim_row-IsTaken name t id assignee at d h.1,
                ))
                (λ d h. ((λ n e. cc), h.0)))
              (λ n. Ensures-pure _ (λ d h. (ground (arith, h.0 n refl), h.1)))
              (λ e d h. ((λ f. cc), h.1)))
          (λ e d h. ((λ f. cc), h.0)))
      (λ e d h. ((λ f. cc), h.0))

abbrev pub is_win : Result Bool → Bool
is_win (ok won) = won
is_win (err e) = false

-- The agents claim the task one after another, in the order in which the database serves them; which
-- of the calls return true.
unfoldable pub race : String → ℕ → List String → World → List Bool
race name id [] w = []
race name id (a ∷ rest) w =
    is_win (claim_task name id a w).0 ∷ race name id rest (claim_task name id a w).1

unfoldable pub wins : List Bool → ℕ
wins = count_rows (λ b. b)

is_win-eq : (r : Result Bool) → is_win r ≡ true → r ≡ ok true
is_win-eq (ok true) h = refl
is_win-eq (ok false) h = cc
is_win-eq (err e) h = cc

pub race_lost :
    (name : String) (id : ℕ) (agents : List String) (w : World)
    → IsTaken name id w.db
    → wins (race name id agents w) ≡ 0
unfolding race wins
race_lost name id [] w h = refl
race_lost name id (a ∷ rest) w h =
    let (lost, taken) = (claim_task-keeps_IsTaken name id a).at w h in
    lost_first (claim_task name id a w).0 (race name id rest (claim_task name id a w).1) lost
      (race_lost name id rest (claim_task name id a w).1 taken)
  where
    lost_first :
        (r : Result Bool) (later : List Bool)
        → r ≢ ok true
        → wins later ≡ 0
        → wins (is_win r ∷ later) ≡ 0
    lost_first (ok true) later l e = absurd (l refl)
    lost_first (ok false) later l e = omega arith
    lost_first (err x) later l e = omega arith

-- Of any number of agents that claim one task, in the order in which the database serves them, at
-- most one wins, whichever statements the driver fails.
pub race-wins-le-one :
    (name : String) (id : ℕ) (agents : List String) (w : World) → wins (race name id agents w) ≤ 1
unfolding race wins
race-wins-le-one name id [] w = omega arith
race-wins-le-one name id (a ∷ rest) w = elim (Bool-cases (is_win (claim_task name id a w).0)) [
  | inl won ↦
      let taken = (claim_task-IsTaken {P = λ _. Unit} name id a).at w tt in
      rw won (
        omega
          (arith, race_lost name id rest (claim_task name id a w).1 (taken true (is_win-eq _ won))))
  | inr lost ↦ rw lost (omega (arith, race-wins-le-one name id rest (claim_task name id a w).1))
]
