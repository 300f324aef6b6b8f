-- ===== src/Store/Listing.antt =====
-- ListTasks: how many tasks it returns.
use agentary.Prelude.{
  ℕ, pos, zero, suc, ◌≤◌, String, Bool, true, false, ◌||◌, ◌≡◌, refl, arith, List, [], ◌∷◌,
  if◌then◌else◌, eqb, leb, length, take, ◌⊎◌, inl, inr,
}
use agentary.Store.Model.{Task}
use agentary.Store.TaskLists.{list_tasks}
use agentary.Exec.{World, Result, ok, err}
use agentary.Exec.Ensures.{Ensures, Ensures-query, Ensures-bind}

length-take : (n : ℕ) (ts : List Task) → length (take n ts) ≤ n
length-take zero ts = omega arith
length-take (suc n) [] = omega arith
length-take (suc n) (t ∷ ts) = omega (arith, length-take n ts)

-- At most 100 tasks, and at most the limit unless it is 0.
abbrev pub IsWithin : ℕ → Result (List Task) → Type 0
IsWithin limit (ok ts) = (length ts ≤ 100) × ((limit ≡ 0) ⊎ (length ts ≤ limit))
IsWithin limit (err e) = Unit

within :
    (limit : ℕ) (ts : List Task)
    → length ts ≤ (if eqb limit 0 || leb 100 limit then 100 else limit)
    → IsWithin limit (ok ts)
within limit ts h = (ground arith, bound (eqb limit 0) refl)
  where
    bound : (b : Bool) → eqb limit 0 ≡ b → (limit ≡ 0) ⊎ (length ts ≤ limit)
    bound true f = inl (ground arith)
    bound false f = inr (ground arith)

list_tasks-Ensures :
    (name : String) (limit : ℕ)
    → Ensures (λ _. Unit) (list_tasks name (pos limit)) (λ r d. IsWithin limit r)
unfolding list_tasks
list_tasks-Ensures name limit =
    Ensures-bind (λ r d. Unit) _ _ (record { at = λ w h. tt })
      (λ team. Ensures-query _ (λ d h. within limit _ (length-take _ _)) (λ d h. tt)) (λ e d h. tt)

-- ListTasks returns at most 100 tasks, whatever its limit from 0 on is, 0 and more than 100
-- included, and at most as many as a limit that is not 0.
pub list_tasks-IsWithin :
    (w : World) (name : String) (limit : ℕ) → IsWithin limit (list_tasks name (pos limit) w).0
list_tasks-IsWithin w name limit = (list_tasks-Ensures name limit).at w tt
