-- ===== src/Store/History.antt =====
-- Task numbers and task histories, over every interleaving of the methods of the Store.
use mathlib.Core.List.{Memᴰ}
use agentary.Prelude.{
  ℕ, suc, ◌≤◌, ◌<◌, Bool, ◌≡◌, sym, ap, ◌∙◌, arith, List, [], ◌∷◌, ◌++◌, update_rows, delete_rows,
  All, All-update_rows, All-delete_rows, All-snoc, either,
}
use agentary.Store.Model.{Task, TaskRow, Db}
use agentary.Store.Evolves.{Evolves, Evolves-refl, Evolves-trans}
use agentary.Store.TaskInvariant.{TaskInvariant}
use agentary.Store.TaskInvariant.Run.{run_calls-Keeps}
use agentary.Store.Calls.{Call, run_calls}
use agentary.Exec.{World}

-- The rows are in the order of their numbers, all of them from `lo` on and below `next`.
abbrev pub Ascending : ℕ → List TaskRow → ℕ → Type 0
Ascending lo [] next = lo ≤ next
Ascending lo (r ∷ rows) next = (lo ≤ r.task_id) × Ascending (suc r.task_id) rows next

-- Task numbers are given once, in order, and the next one is above them all.
abbrev pub IsNumbered : Db → Type 0
IsNumbered d = Ascending 1 d.tasks d.next_task

Ascending-weaken :
    (lo hi : ℕ) (rows : List TaskRow) (n : ℕ) → lo ≤ hi → Ascending hi rows n → Ascending lo rows n
Ascending-weaken lo hi [] n h a = omega arith
Ascending-weaken lo hi (r ∷ rows) n h a = (omega arith, a.1)

Ascending-update :
    (lo : ℕ) (p : TaskRow → Bool) (f : Task → Task) (rows : List TaskRow) (n : ℕ)
    → ((t : Task) → Evolves t (f t))
    → Ascending lo rows n
    → Ascending lo (update_rows p (λ r. record r { task = f r.task }) rows) n
Ascending-update lo p f [] n e a = a
Ascending-update lo p f (r ∷ rows) n e a =
    ground (arith, (e r.task).same_id, Ascending-update (suc r.task_id) p f rows n e a.1)

Ascending-delete :
    (lo : ℕ) (p : TaskRow → Bool) (rows : List TaskRow) (n : ℕ)
    → Ascending lo rows n
    → Ascending lo (delete_rows p rows) n
Ascending-delete lo p [] n a = a
Ascending-delete lo p (r ∷ rows) n a =
    either (λ rows. Ascending lo rows n) (p r)
      (Ascending-weaken lo (suc r.task_id) (delete_rows p rows) n (omega arith)
        (Ascending-delete (suc r.task_id) p rows n a.1))
      (a.0, Ascending-delete (suc r.task_id) p rows n a.1)

Ascending-snoc :
    (lo : ℕ) (r : TaskRow) (rows : List TaskRow)
    → Ascending lo rows r.task_id
    → Ascending lo (rows ++ r ∷ []) (suc r.task_id)
Ascending-snoc lo r [] a = (a, omega arith)
Ascending-snoc lo r (s ∷ rows) a = (a.0, Ascending-snoc (suc s.task_id) r rows a.1)

numbered : TaskInvariant (Ascending 1)
numbered = record {
  updated = λ p f rows n e a. Ascending-update 1 p f rows n e a;
  deleted = λ p rows n a. Ascending-delete 1 p rows n a;
  inserted = λ r rows a. Ascending-snoc 1 r rows a;
}

-- If the task numbers of a database are distinct, in order and below the next one, they stay so
-- over every sequence of calls of the Store's methods, whichever statements the driver fails.
pub run_calls-IsNumbered :
    (cs : List Call) (w : World) → IsNumbered w.db → IsNumbered (run_calls cs w).db
run_calls-IsNumbered cs w h = run_calls-Keeps (Ascending 1) numbered cs w h

-- The rows that carry the number of `t` are later states of `t`, and no other task can get it.
abbrev pub Lineage : Task → List TaskRow → ℕ → Type 0
Lineage t rows next =
    (t.task_id < next) × All (λ (r : TaskRow). r.task_id ≡ t.task_id → Evolves t r.task) rows

pub lineage : (t : Task) → TaskInvariant (Lineage t)
lineage t = record {
  updated = λ p f rows n e a. (
    a.0,
    All-update_rows _ p _ rows
        (λ r h same.
          Evolves-trans t r.task (f r.task) (h (sym (e r.task).same_id ∙ same)) (e r.task))
        a.1,
  );
  deleted = λ p rows n a. (a.0, All-delete_rows _ p rows a.1);
  inserted = λ r rows a. (omega arith, All-snoc _ rows r a.1 (λ same. absurd (omega arith)));
}

-- A row above all of `rows`.
above :
    (t : Task) (lo : ℕ) (rows : List TaskRow) (n : ℕ)
    → t.task_id < lo
    → Ascending lo rows n
    → Lineage t rows n
above t lo [] n h a = (omega arith, tt)
above t lo (r ∷ rows) n h a =
    let rest = above t (suc r.task_id) rows n (omega arith) a.1 in
    (rest.0, ((λ same. absurd (omega arith)), rest.1))

pub Ascending-mem :
    (t : TaskRow) (lo : ℕ) (rows : List TaskRow) (n : ℕ)
    → Ascending lo rows n
    → Memᴰ t rows
    → lo ≤ t.task_id
Ascending-mem t lo [] n a m = elim m [ ]
Ascending-mem t lo (r ∷ rows) n a (Memᴰ.head e) = omega (arith, ap (λ (u : TaskRow). u.task_id) e)
Ascending-mem t lo (r ∷ rows) n a (Memᴰ.tail m) =
    omega (arith, Ascending-mem t (suc r.task_id) rows n a.1 m)

pub Ascending-Lineage :
    (t : TaskRow) (lo : ℕ) (rows : List TaskRow) (n : ℕ)
    → Ascending lo rows n
    → Memᴰ t rows
    → Lineage t.task rows n
Ascending-Lineage t lo [] n a m = elim m [ ]
Ascending-Lineage t lo (r ∷ rows) n a (Memᴰ.head e) =
    let rest =
      above t.task (suc r.task_id) rows n (omega (arith, ap (λ (u : TaskRow). u.task_id) e)) a.1 in
    (rest.0, ((λ same. rw e (Evolves-refl r.task)), rest.1))
Ascending-Lineage t lo (r ∷ rows) n a (Memᴰ.tail m) =
    let rest = Ascending-Lineage t (suc r.task_id) rows n a.1 m in
    let higher = Ascending-mem t (suc r.task_id) rows n a.1 m in
    (rest.0, ((λ same. absurd (omega arith)), rest.1))

-- Of the tasks of a database that numbers them as CreateTask does: over every sequence of calls of
-- the Store's methods, whichever statements the driver fails, a row that carries the number of a
-- task is a later state of it, with the same number, title and time of creation, the same DRI once
-- one is set, and no fewer attempts.
pub task_history :
    (cs : List Call) (w : World) (r : TaskRow)
    → IsNumbered w.db
    → Memᴰ r w.db.tasks
    → All (λ (u : TaskRow). u.task_id ≡ r.task_id → Evolves r.task u.task) (run_calls cs w).db.tasks
task_history cs w r h m =
    (run_calls-Keeps (Lineage r.task) (lineage r.task) cs w
      (Ascending-Lineage r 1 w.db.tasks w.db.next_task h m)).1
