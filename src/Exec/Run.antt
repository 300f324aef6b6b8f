-- ===== src/Exec/Run.antt =====
-- What the basic actions do while the driver fails no statement.
use agentary.Prelude.{◌≡◌, refl, Bool, true, false, if◌then◌else◌, [], ◌∷◌, ◌++◌}
use agentary.Store.Model.{Db}
use agentary.Exec.{
  World, Result, ok, err, Error, Exec, sql, query, execute, ◌>>=◌, attempt, ignore, continue,
  publish, Event,
}

module _ (w : World) (quiet : w.faults ≡ []) where
  pub sql_run :
      {A : Type 0} (f : Db → Result A × Db) → sql f w ≡ ((f w.db).0, record w { db = (f w.db).1 })
  unfolding sql
  sql_run f = rw quiet

  pub query_run : {A : Type 0} (f : Db → A) → query f w ≡ (ok (f w.db), w)
  unfolding query
  query_run f = rw quiet

  pub execute_run : (f : Db → Db) → execute f w ≡ (ok tt, record w { db = f w.db })
  unfolding execute
  execute_run f = rw quiet

module _ {A : Type 0} where
  pub if_run :
      (b : Bool) (m k : Exec A) (x y : A) (w : World)
      → m w ≡ (ok x, w)
      → k w ≡ (ok y, w)
      → (if b then m else k) w ≡ (ok (if b then x else y), w)
  if_run true m k x y w e f = e
  if_run false m k x y w e f = f

module _ {A B : Type 0} where
  -- A step that succeeds is followed by the rest; one that fails ends the action.
  pub bind_run :
      (m : Exec A) (f : A → Exec B) (w w' : World) (a : A) → m w ≡ (ok a, w') → (m >>= f) w ≡ f a w'
  unfolding ◌>>=◌
  bind_run m f w w' a e = rw e

  pub bind_err :
      (m : Exec A) (f : A → Exec B) (w w' : World) (x : Error)
      → m w ≡ (err x, w')
      → (m >>= f) w ≡ (err x, w')
  unfolding ◌>>=◌
  bind_err m f w w' x e = rw e

  pub bind_start :
      (m m' : Exec A) (f : A → Exec B) (w : World) → m w ≡ m' w → (m >>= f) w ≡ (m' >>= f) w
  unfolding ◌>>=◌
  bind_start m m' f w e = rw e refl

  -- Two actions that start alike and go on alike.
  pub bind_same :
      (m : Exec A) (f g : A → Exec B) (w w' : World)
      → (m w).1 ≡ w'
      → ((a : A) → f a w' ≡ g a w')
      → (m >>= f) w ≡ (m >>= g) w
  unfolding ◌>>=◌
  bind_same m f g w w' e k = rw e (same (m w).0)
    where
      same : (r : Result A) → continue r f w' ≡ continue r g w'
      same (ok a) = k a
      same (err x) = refl

  pub attempt_run :
      (m : Exec A) (f : Result A → Exec B) (w w' : World) (r : Result A)
      → m w ≡ (r, w')
      → attempt m f w ≡ f r w'
  unfolding attempt
  attempt_run m f w w' r e = rw e

pub ignore_run :
    {A : Type 0} (m : Exec A) (w w' : World) (r : Result A)
    → m w ≡ (r, w')
    → ignore m w ≡ (ok tt, w')
unfolding ignore
ignore_run m w w' r e = rw e

pub publish_run :
    (e : Event) (w : World) → publish e w ≡ (ok tt, record w { published = w.published ++ e ∷ [] })
unfolding publish
publish_run e w = refl
