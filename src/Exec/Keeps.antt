-- ===== src/Exec/Keeps.antt =====
-- Invariants of the database under actions, one rule for each way to build an action.
use agentary.Prelude.{
  Option, none, some, ◌≡◌, refl, Bool, true, false, List, [], ◌∷◌, if◌then◌else◌,
}
use agentary.Store.Model.{Db}
use agentary.Exec.{
  Error, Event, World, Result, ok, err, Exec, pure, fail, lift, gets, sql, sql_at, query, execute,
  now, random_id, publish, ◌>>=◌, attempt, ignore, guard, when, found,
}

-- The property survives the action, whatever it returns and whichever statements fail.
pub record Keeps {ℓ} {A : Type 0} (P : Db → Type ℓ) (m : Exec A) : Type ℓ where
  pub kept : (w : World) → P w.db → P (m w).1.db

module _ {ℓ} {A : Type 0} {P : Db → Type ℓ} where
  -- An action that leaves the tables alone, by computation.
  read_only : (m : Exec A) → ((w : World) → P w.db → P (m w).1.db) → Keeps P m
  read_only m k = record { kept = k }

  pub Keeps-found : (e : Error) (o : Option A) → Keeps P (found e o)
  unfolding found
  Keeps-found e none = read_only _ (λ w h. h)
  Keeps-found e (some a) = read_only _ (λ w h. h)

  pub Keeps-fail : (e : Error) → Keeps P (fail {A = A} e)
  unfolding fail
  Keeps-fail e = read_only _ (λ w h. h)

  pub Keeps-pure : (a : A) → Keeps P (pure a)
  unfolding pure
  Keeps-pure a = read_only _ (λ w h. h)

  pub Keeps-gets : (f : World → A) → Keeps P (gets f)
  unfolding gets
  Keeps-gets f = read_only _ (λ w h. h)

  pub Keeps-lift : (r : Result A) → Keeps P (lift r)
  unfolding lift
  Keeps-lift r = read_only _ (λ w h. h)

  sql_at-Keeps :
      (faults : List Bool) (f : Db → Result A × Db) (w : World)
      → ((d : Db) → P d → P (f d).1)
      → P w.db
      → P (sql_at faults f w).1.db
  sql_at-Keeps [] f w k h = k w.db h
  sql_at-Keeps (true ∷ rest) f w k h = h
  sql_at-Keeps (false ∷ rest) f w k h = k w.db h

  pub Keeps-sql : (f : Db → Result A × Db) → ((d : Db) → P d → P (f d).1) → Keeps P (sql f)
  unfolding sql
  Keeps-sql f k = record { kept = λ w h. sql_at-Keeps w.faults f w k h }

  pub Keeps-query : (f : Db → A) → Keeps P (query f)
  unfolding query
  Keeps-query f = Keeps-sql (λ d. (ok (f d), d)) (λ d h. h)

  -- Both branches, each of which may use what the test gave.
  pub Keeps-if :
      (test : Bool) (first second : Exec A)
      → (test ≡ true → Keeps P first)
      → (test ≡ false → Keeps P second)
      → Keeps P (if test then first else second)
  Keeps-if false first second k j = j refl
  Keeps-if true first second k j = k refl

module _ {ℓ} {P : Db → Type ℓ} where
  pub Keeps-execute : (f : Db → Db) → ((d : Db) → P d → P (f d)) → Keeps P (execute f)
  unfolding execute
  Keeps-execute f k = Keeps-sql (λ d. (ok tt, f d)) k

  pub Keeps-guard : (b : Bool) (e : Error) → Keeps P (guard b e)
  unfolding guard
  Keeps-guard b e = read_only _ (λ w h. h)

  pub Keeps-when : (b : Bool) (m : Exec Unit) → Keeps P m → Keeps P (when b m)
  unfolding when
  Keeps-when true m k = record { kept = λ w h. k.kept w h }
  Keeps-when false m k = read_only _ (λ w h. h)

  pub Keeps-now : Keeps P now
  unfolding now
  Keeps-now = read_only _ (λ w h. h)

  pub Keeps-random_id : Keeps P random_id
  unfolding random_id
  Keeps-random_id = read_only _ (λ w h. h)

  pub Keeps-publish : (e : Event) → Keeps P (publish e)
  unfolding publish
  Keeps-publish e = read_only _ (λ w h. h)

module _ {ℓ} {A B : Type 0} {P : Db → Type ℓ} where
  pub Keeps-attempt :
      (m : Exec A) (f : Result A → Exec B)
      → Keeps P m
      → ((r : Result A) → Keeps P (f r))
      → Keeps P (attempt m f)
  unfolding attempt
  Keeps-attempt m f km kf = record {
    kept = λ w h. let (r, w') = m w in (kf r).kept w' (km.kept w h);
  }

  Keeps-bind_result :
      (r : Result A) (f : A → Exec B) → ((a : A) → Keeps P (f a)) → Keeps P (lift r >>= f)
  unfolding ◌>>=◌
  Keeps-bind_result (ok a) f kf = kf a
  Keeps-bind_result (err e) f kf = Keeps-fail e

  pub Keeps-bind :
      (m : Exec A) (f : A → Exec B) → Keeps P m → ((a : A) → Keeps P (f a)) → Keeps P (m >>= f)
  unfolding ◌>>=◌
  Keeps-bind m f km kf = record {
    kept = λ w h. let (r, w') = m w in (Keeps-bind_result r f kf).kept w' (km.kept w h);
  }

module _ {ℓ} {A : Type 0} {P : Db → Type ℓ} where
  pub Keeps-ignore : (m : Exec A) → Keeps P m → Keeps P (ignore m)
  unfolding ignore
  Keeps-ignore m k = record { kept = λ w h. k.kept w h }

pub ruleset keeps_rules = (
  Keeps-fail, Keeps-pure, Keeps-lift, Keeps-gets, Keeps-query, Keeps-if, Keeps-now, Keeps-random_id,
  Keeps-publish, Keeps-bind, Keeps-attempt, Keeps-ignore, Keeps-guard, Keeps-when, Keeps-found,
)
